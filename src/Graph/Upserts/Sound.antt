-- ===== src/Graph/Upserts/Sound.antt =====
-- What upsertEdges ensures of each edge that it returns.
use tekbreed_oss.Prelude.{
  ℕ, String, ◌≡◌, refl, true, false, not, ◌&&◌, Option, none, some, List, [], ◌∷◌, map, arith, ◌==◌,
  eq_iff, eq_refl, sym, includes, All, get_or,
}
use tekbreed_oss.Prelude.Floats.{Floats}
use tekbreed_oss.Prelude.Result.{ok, >>=-eq-ok, ok-injective}
use tekbreed_oss.JsMap
use tekbreed_oss.JsMap.{JsMap, has, Distinct}
use tekbreed_oss.Graph.Refs.{GraphTexts, refuse_if}
use tekbreed_oss.Graph.Normal.{GraphEdge}
use tekbreed_oss.Graph.Normalize.{
  StoreOptions, StoredEdge, Store, out_of_unit, edge_fields, edge_id, normalize_edge,
}
use tekbreed_oss.Graph.Upserts.{resolve_edge_id, assert_ends, current_edge, normalize_edges}

-- The id that the caller gave, if any, is the edge's.
abbrev pub GivenId : Option String → String → Type 0
GivenId none id = Unit {0}
GivenId (some i) id = i ≡ id

-- The edges returned are those of the batch in order, each between the same nodes and under the
-- id that was given.
abbrev pub Answers : (F : Floats) → List (GraphEdge F.Float) → List (StoredEdge F) → Type 0
Answers F [] [] = Unit {0}
Answers F (edge ∷ edges) (e ∷ es) =
    (e.from ≡ edge.from) × (e.to ≡ edge.to) × GivenId edge.id e.id × Answers F edges es
Answers F _ _ = ⊥

abbrev pub entries : (F : Floats) → List (StoredEdge F) → JsMap (StoredEdge F)
entries F es = map (λ e. (e.id, e)) es

module _ (F : Floats) (texts : GraphTexts) (date_of : String → Option ℕ) (now : String)
    (options : StoreOptions) where
  -- Weight and confidence are finite and between 0 and 1, and a self edge needs the option.
  abbrev pub IsNormal : StoredEdge F → Type 0
  IsNormal e =
      ((e.from == e.to && not options.allow_self_edges) ≡ false)
      × (out_of_unit F texts date_of now e.fields.weight ≡ false)
      × (out_of_unit F texts date_of now e.fields.rest.rest.confidence ≡ false)

  -- Both ends are stored nodes.
  abbrev pub HasEnds : Store F → StoredEdge F → Type 0
  HasEnds s e = (has s.nodes e.from ≡ true) × (has s.nodes e.to ≡ true)

  pub normalize_edge_lem :
      (existing : Option (StoredEdge F)) (input : GraphEdge F.Float) {e : StoredEdge F}
      → normalize_edge F texts date_of now options existing input ≡ ok e
      → (e.from ≡ input.from) × (e.to ≡ input.to) × GivenId input.id e.id × IsNormal e
  unfolding normalize_edge edge_fields edge_id
  normalize_edge_lem existing input h = ground arith

  assert_ends_lem :
      (s : Store F) (edge : GraphEdge F.Float) (u : Unit {0})
      → options.require_existing_nodes ≡ true
      → assert_ends F texts date_of now options s edge ≡ ok u
      → (has s.nodes edge.from ≡ true) × (has s.nodes edge.to ≡ true)
  assert_ends_lem s edge u required h = ground arith

  -- a round that returned, taken apart
  pub current_edge-ok :
      (s : Store F) (edge : GraphEdge F.Float) {e : StoredEdge F}
      → current_edge F texts date_of now options s edge ≡ ok e
      → (u : Unit {0}) × (assert_ends F texts date_of now options s edge ≡ ok u)
        × (id : String) × (resolve_edge_id F texts date_of now options edge ≡ ok id)
        × (normalize_edge F texts date_of now options
              (JsMap.get s.edges id)
              (record edge { id = some (get_or edge.id id) })
            ≡ ok e)
  unfolding current_edge
  current_edge-ok s edge h =
      let (u, ends, rest) = >>=-eq-ok (assert_ends F texts date_of now options s edge) _ h in
      let (id, found, last) = >>=-eq-ok (resolve_edge_id F texts date_of now options edge) _ rest in
      (u, ends, id, found, last)

  current_edge_lem :
      (s : Store F) (edge : GraphEdge F.Float) {e : StoredEdge F}
      → current_edge F texts date_of now options s edge ≡ ok e
      → (e.from ≡ edge.from) × (e.to ≡ edge.to) × GivenId edge.id e.id × IsNormal e
  current_edge_lem s edge h =
      let (u, ends, id, found, last) = current_edge-ok s edge h in
      let facts =
        normalize_edge_lem (JsMap.get s.edges id) (record edge { id = some (get_or edge.id id) })
          last in
      ground (arith, facts)

  current_edge-HasEnds :
      (s : Store F) (edge : GraphEdge F.Float) {e : StoredEdge F}
      → options.require_existing_nodes ≡ true
      → current_edge F texts date_of now options s edge ≡ ok e
      → HasEnds s e
  current_edge-HasEnds s edge required h =
      let (u, ends, id, found, last) = current_edge-ok s edge h in
      let (from, to, given, normal) = current_edge_lem s edge h in
      rw (from, to) (assert_ends_lem s edge u required ends)

  pub round-ok :
      (s : Store F) (seen : List String) (edge : GraphEdge F.Float)
      (edges : List (GraphEdge F.Float)) {es : List (StoredEdge F)}
      → normalize_edges F texts date_of now options s seen (edge ∷ edges) ≡ ok es
      → (current : StoredEdge F) × (current_edge F texts date_of now options s edge ≡ ok current)
        × (includes seen current.id ≡ false)
        × (rest : List (StoredEdge F)) × (normalize_edges F texts date_of now options s
              (current.id ∷ seen)
              edges
            ≡ ok rest)
        × (es ≡ current ∷ rest)
  unfolding normalize_edges
  round-ok s seen edge edges h =
      let (current, first, h₁) = >>=-eq-ok (current_edge F texts date_of now options s edge) _ h in
      let (u, unseen, h₂) = >>=-eq-ok (refuse_if (includes seen current.id) "edge.id") _ h₁ in
      let (rest, later, last) =
        >>=-eq-ok (normalize_edges F texts date_of now options s (current.id ∷ seen) edges)
          (λ rest. ok (current ∷ rest)) h₂ in
      (current, first, ground arith, rest, later, sym (ok-injective last))

  none-ok :
      (s : Store F) (seen : List String) {es : List (StoredEdge F)}
      → normalize_edges F texts date_of now options s seen [] ≡ ok es
      → es ≡ []
  unfolding normalize_edges
  none-ok s seen h = sym (ok-injective h)

  -- An id that was seen before is not among those of the rest of the batch.
  normalize_edges-fresh :
      (s : Store F) (seen : List String) (edges : List (GraphEdge F.Float))
      {es : List (StoredEdge F)} (k : String)
      → includes seen k ≡ true
      → normalize_edges F texts date_of now options s seen edges ≡ ok es
      → has (entries F es) k ≡ false
  unfolding includes JsMap.get
  normalize_edges-fresh s seen [] k old h = rw (none-ok s seen h) refl
  normalize_edges-fresh s seen (edge ∷ edges) k old h =
      let (current, first, unseen, rest, later, e) = round-ok s seen edge edges h in
      rw e (
        ground (
          arith,
          eq_iff current.id k,
          normalize_edges-fresh s (current.id ∷ seen) edges k (ground arith) later,
        ))

  pub normalize_edges_lem :
      (s : Store F) (seen : List String) (edges : List (GraphEdge F.Float))
      {es : List (StoredEdge F)}
      → normalize_edges F texts date_of now options s seen edges ≡ ok es
      → Answers F edges es × Distinct (entries F es) × All IsNormal es
  unfolding includes
  normalize_edges_lem s seen [] h = rw (none-ok s seen h) (tt, tt, tt)
  normalize_edges_lem s seen (edge ∷ edges) h =
      let (current, first, unseen, rest, later, e) = round-ok s seen edge edges h in
      let (from, to, given, normal) = current_edge_lem s edge first in
      let (answers, distinct, all) = normalize_edges_lem s (current.id ∷ seen) edges later in
      rw e (
        (from, to, given, answers),
        (
          normalize_edges-fresh s (current.id ∷ seen) edges current.id
              (ground (arith, eq_refl current.id)) later,
          distinct,
        ),
        (normal, all),
      )

  pub normalize_edges-HasEnds :
      (s : Store F) (seen : List String) (edges : List (GraphEdge F.Float))
      {es : List (StoredEdge F)}
      → options.require_existing_nodes ≡ true
      → normalize_edges F texts date_of now options s seen edges ≡ ok es
      → All (HasEnds s) es
  normalize_edges-HasEnds s seen [] required h = rw (none-ok s seen h) tt
  normalize_edges-HasEnds s seen (edge ∷ edges) required h =
      let (current, first, unseen, rest, later, e) = round-ok s seen edge edges h in
      rw e (
        current_edge-HasEnds s edge required first,
        normalize_edges-HasEnds s (current.id ∷ seen) edges required later,
      )
