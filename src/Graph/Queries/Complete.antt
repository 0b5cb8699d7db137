-- ===== src/Graph/Queries/Complete.antt =====
-- queryEdges by an index gives what a look at every edge would give.
use mathlib.Core.Path.{subst}
use mathlib.Core.List.{Memᴰ}
use tekbreed_oss.Prelude.{
  ℕ, ◌≤◌, String, ◌≡◌, refl, sym, ap, ◌∙◌, Bool, true, false, not, ◌&&◌, Option, none, some, List,
  [], ◌∷◌, arith, eq_iff, includes, length, All, Bool-cases, Option-cases, ◌≢◌, inl, inr, ◌⊎◌,
}
use tekbreed_oss.Prelude.Floats.{Floats}
use tekbreed_oss.Prelude.Json.{Json}
use tekbreed_oss.Prelude.Result.{Result, ok, >>=-eq-ok, ok-injective, Result-cases}
use tekbreed_oss.JsMap
use tekbreed_oss.JsMap.Bulk.{includes-keys}
use tekbreed_oss.Graph.{GraphError}
use tekbreed_oss.Graph.Filters.{validate_limit, is_inactive, expired_out, type_out}
use tekbreed_oss.Graph.Neighbors.{edge_passes, lower_types}
use tekbreed_oss.Graph.Reflected.{IsReflected}
use tekbreed_oss.Graph.Queries.{
  EdgeRest, GraphEdgeQuery, truthy, text_ok, ids_ok, QueryStore, QueryEdge, ids_by_type, ids_by_to,
  ids_by_from, ids_by_ids, edge_query_candidate_ids, edge_matches, query_edges,
}
use tekbreed_oss.Graph.Queries.Collect.{IsMatch, collect_edges-IsMatch, collect_edges-finds}

module _ (F : Floats) (Node Rest : Type 0) (date_of : String → Option ℕ) (clock : ℕ)
    (lower : String → String) (stringify : Json → String) (sort_keys : List String → List String)
    (s : QueryStore F Node Rest date_of clock lower stringify sort_keys)
    (q : GraphEdgeQuery F.Float) where
  abbrev E : Type 0
  E = QueryEdge F Node Rest date_of clock lower stringify sort_keys

  abbrev matched : E → Result GraphError Bool
  matched = edge_matches F Node Rest date_of clock lower stringify sort_keys q

  edge_passes-type :
      (e : E)
      → edge_passes F Node (EdgeRest Rest) date_of clock lower q.filter e ≡ ok true
      → type_out (lower_types F Node (EdgeRest Rest) date_of clock lower q.filter.edge_types) e.type
        ≡ false
  unfolding edge_passes
  edge_passes-type e h =
      elim (Bool-cases (not q.filter.include_inactive && is_inactive e.fields.temporal)) [
        | inl out_ ↦ cc (rw out_ at h)
        | inr in_ ↦
            let (expired, _, r) =
              >>=-eq-ok
                (expired_out date_of clock q.filter.include_expired e.fields.temporal q.filter.now)
                _ (rw in_ at h) in
            let t = ok-injective r in ground (arith, t)
      ]

  -- What the tests of an edge say, one by one.
  edge_matches-parts :
      (e : E)
      → matched e ≡ ok true
      → (ids_ok q.ids e.id ≡ true)
        × (text_ok (truthy q.from) e.from ≡ true)
        × (text_ok (truthy q.to) e.to ≡ true)
        × (type_out
              (lower_types F Node (EdgeRest Rest) date_of clock lower q.filter.edge_types)
              e.type
            ≡ false)
  unfolding edge_matches edge_passes
  edge_matches-parts e h =
      let (passes, p, r) =
        >>=-eq-ok (edge_passes F Node (EdgeRest Rest) date_of clock lower q.filter e) _ h in
      let t = ok-injective r in
      let passed : passes ≡ true = ground (arith, t) in
      (
        ground (arith, t),
        ground (arith, t),
        ground (arith, t),
        edge_passes-type e (p ∙ ap ok passed),
      )

  module _ (r : IsReflected s) (i : String) (e : E) (g : JsMap.get s.edges i ≡ some e) where
    abbrev types : Option (List String)
    types = lower_types F Node (EdgeRest Rest) date_of clock lower q.filter.edge_types

    includes-ids_by_type :
        (ts : Option (List String))
        → type_out ts e.type ≡ false
        → includes (ids_by_type F Node Rest date_of clock lower stringify sort_keys s ts) i ≡ true
    unfolding includes
    includes-ids_by_type none h = includes-keys s.edges i ∙ rw g refl
    includes-ids_by_type (some []) h = cc
    includes-ids_by_type (some (t ∷ [])) h =
        (r t i).2 ∙ rw g (ground (arith, h, eq_iff t e.type, eq_iff e.type t))
    includes-ids_by_type (some (t ∷ u ∷ ts)) h = includes-keys s.edges i ∙ rw g refl

    includes-ids_by_to :
        (o : Option String) (ts : Option (List String))
        → text_ok o e.to ≡ true
        → type_out ts e.type ≡ false
        → includes (ids_by_to F Node Rest date_of clock lower stringify sort_keys s o ts) i ≡ true
    includes-ids_by_to none ts h t = includes-ids_by_type ts t
    includes-ids_by_to (some to) ts h t = (r to i).1 ∙ rw g (ground (arith, h))

    includes-ids_by_from :
        (o p : Option String) (ts : Option (List String))
        → text_ok o e.from ≡ true
        → text_ok p e.to ≡ true
        → type_out ts e.type ≡ false
        → includes (ids_by_from F Node Rest date_of clock lower stringify sort_keys s o p ts) i
          ≡ true
    includes-ids_by_from none p ts h k t = includes-ids_by_to p ts k t
    includes-ids_by_from (some from) p ts h k t = (r from i).0 ∙ rw g (ground (arith, h))

    includes-ids_by_ids :
        (ids : Option (List String)) (others : List String)
        → ids_ok ids e.id ≡ true
        → includes others i ≡ true
        → includes (ids_by_ids F Node Rest date_of clock lower stringify sort_keys ids others) i
          ≡ true
    includes-ids_by_ids none others h k = k
    includes-ids_by_ids (some []) others h k = k
    includes-ids_by_ids (some (id ∷ ids)) others h k =
        subst (λ j. includes (id ∷ ids) j ≡ true) own h
      where
        own : e.id ≡ i
        own = (eq_iff e.id i).0 (let f = rw g at (r i i).3 in ground (arith, f))

    includes-edge_query_candidate_ids :
        matched e ≡ ok true
        → includes
            (edge_query_candidate_ids F Node Rest date_of clock lower stringify sort_keys s q)
            i
          ≡ true
    unfolding edge_query_candidate_ids
    includes-edge_query_candidate_ids m =
        let (ids, from, to, type) = edge_matches-parts e m in
        includes-ids_by_ids q.ids _ ids
          (includes-ids_by_from (truthy q.from) (truthy q.to) types from to type)

  -- An edge that is stored does not pass the query's tests, or is given, or the answer is full.
  abbrev pub IsAnswered : ℕ → List E → Option E → Type 0
  IsAnswered limit found none = Unit {0}
  IsAnswered limit found (some e) = (matched e ≢ ok true) ⊎ (Memᴰ e found ⊎ (limit ≤ length found))

  matched-cases : (e : E) → (matched e ≡ ok true) ⊎ (matched e ≢ ok true)
  matched-cases e = elim (Result-cases (matched e)) [
    | inl (true, m) ↦ inl m
    | inl (false, m) ↦ inr (λ h. cc (m, h))
    | inr (err, m) ↦ inr (λ h. cc (m, h))
  ]

  -- On a store whose indices reflect its edges, if the limit is valid and queryEdges returns,
  -- whichever index it walks, then every edge that it gives is stored and passes the query's
  -- tests, and an edge that is stored fails to pass them, or is given, or the answer has at least
  -- as many edges as the limit.
  pub query_edges_complete :
      (limit : ℕ) (i : String) {found : List E}
      → IsReflected s
      → validate_limit q.limit 100 10000 ≡ ok limit
      → query_edges F Node Rest date_of clock lower stringify sort_keys s q ≡ ok found
      → All (IsMatch F Node Rest date_of clock lower stringify sort_keys s q) found
        × IsAnswered limit found (JsMap.get s.edges i)
  unfolding query_edges
  query_edges_complete limit i {found} r v h =
      let (limit', v', c) = >>=-eq-ok (validate_limit q.limit 100 10000) _ h in
      let same = ok-injective (sym v' ∙ v) in
      let ids = edge_query_candidate_ids F Node Rest date_of clock lower stringify sort_keys s q in
      (
        collect_edges-IsMatch F Node Rest date_of clock lower stringify sort_keys s q limit' ids []
            found tt c,
        elim (Option-cases (JsMap.get s.edges i)) [
          | inl e ↦ rw e tt
          | inr (e, g) ↦ rw g (elim (matched-cases e) [
            | inr fails ↦ inl fails
            | inl m ↦ inr (
                subst (λ n. Memᴰ e found ⊎ (n ≤ length found)) same
                  (collect_edges-finds F Node Rest date_of clock lower stringify sort_keys s q
                    limit' ids [] found i g m (includes-edge_query_candidate_ids r i e g m) c))
          ])
        ],
      )
