-- ===== src/Graph/Queries/Collect.antt =====
-- The loop of queryEdges gives stored edges that match, and each of them while there is room.
use mathlib.Core.Path.{subst}
use mathlib.Core.List.{Memᴰ}
use tekbreed_oss.Prelude.{
  ℕ, ◌≤◌, String, ◌≡◌, refl, sym, ap, ◌∙◌, Bool, true, not, Option, none, some, List, [], ◌∷◌, ◌++◌,
  ◌==◌, eq_iff, leb, leb→le, if◌then◌else◌, includes, length, All, All-append, Bool-cases,
  Option-cases, inl, inr, ◌⊎◌,
}
use tekbreed_oss.Prelude.Floats.{Floats}
use tekbreed_oss.Prelude.Json.{Json}
use tekbreed_oss.Prelude.Result.{Result, ok, >>=-eq-ok, ok-injective}
use tekbreed_oss.JsMap
use tekbreed_oss.Graph.{GraphError}
use tekbreed_oss.Graph.Queries.{GraphEdgeQuery, QueryStore, QueryEdge, edge_matches, collect_edges}

Memᴰ-append : {A : Type 0} {x : A} (xs ys : List A) → Memᴰ x xs → Memᴰ x (xs ++ ys)
Memᴰ-append [] ys m = elim m [ ]
Memᴰ-append (y ∷ xs) ys (Memᴰ.head e) = Memᴰ.head e
Memᴰ-append (y ∷ xs) ys (Memᴰ.tail k) = Memᴰ.tail (Memᴰ-append xs ys k)

Memᴰ-last : {A : Type 0} (x : A) (xs : List A) → Memᴰ x (xs ++ x ∷ [])
Memᴰ-last x [] = Memᴰ.head refl
Memᴰ-last x (y ∷ xs) = Memᴰ.tail (Memᴰ-last x xs)

some-path : {A : Type 0} {a b : A} → ◌≡◌ {A = Option A} (some a) (some b) → a ≡ b
some-path h = cc

module _ (F : Floats) (Node Rest : Type 0) (date_of : String → Option ℕ) (clock : ℕ)
    (lower : String → String) (stringify : Json → String) (sort_keys : List String → List String)
    (s : QueryStore F Node Rest date_of clock lower stringify sort_keys)
    (q : GraphEdgeQuery F.Float) where
  abbrev pub E : Type 0
  E = QueryEdge F Node Rest date_of clock lower stringify sort_keys

  abbrev pub matched : E → Result GraphError Bool
  matched = edge_matches F Node Rest date_of clock lower stringify sort_keys q

  abbrev collect : ℕ → List String → List E → Result GraphError (List E)
  collect = collect_edges F Node Rest date_of clock lower stringify sort_keys s q

  -- The edge is stored, and passes every test of the query.
  abbrev pub IsMatch : E → Type 0
  IsMatch e = ((id : String) × (JsMap.get s.edges id ≡ some e)) × (matched e ≡ ok true)

  -- What a round does with an edge.
  abbrev after : ℕ → List String → List E → E → Bool → Result GraphError (List E)
  after limit ids out e b =
      if not b
      then collect limit ids out
      else if leb limit (length (out ++ e ∷ []))
      then ok (out ++ e ∷ [])
      else collect limit ids (out ++ e ∷ [])

  collect_edges-cons :
      (limit : ℕ) (id : String) (ids : List String) (out found : List E)
      → collect limit (id ∷ ids) out ≡ ok found
      → ((JsMap.get s.edges id ≡ none) × (collect limit ids out ≡ ok found))
        ⊎ ((e : E) × (JsMap.get s.edges id ≡ some e)
            × (b : Bool) × (matched e ≡ ok b)
            × (after limit ids out e b ≡ ok found))
  unfolding collect_edges
  collect_edges-cons limit id ids out found h = elim (Option-cases (JsMap.get s.edges id)) [
    | inl g ↦ inl (g, rw (g, collect_edges) at h)
    | inr (e, g) ↦
        let (b, m, r) = >>=-eq-ok (matched e) _ (rw (g, collect_edges) at h) in inr (e, g, b, m, r)
  ]

  -- What is collected stays.
  collect_edges-keeps :
      (limit : ℕ) (ids : List String) (out found : List E) {e : E}
      → collect limit ids out ≡ ok found
      → Memᴰ e out
      → Memᴰ e found
  unfolding collect_edges
  collect_edges-keeps limit [] out found h m = subst (Memᴰ _) (ok-injective h) m
  collect_edges-keeps limit (id ∷ ids) out found h m =
      elim (collect_edges-cons limit id ids out found h) [
        | inl (_, r) ↦ collect_edges-keeps limit ids out found r m
        | inr (e, _, b, _, r) ↦ elim (Bool-cases b) [
          | inr neg ↦ collect_edges-keeps limit ids out found (rw neg at r) m
          | inl hit ↦ elim (Bool-cases (leb limit (length (out ++ e ∷ [])))) [
            | inl full ↦
                subst (Memᴰ _) (ok-injective (rw (hit, full) at r)) (Memᴰ-append out (e ∷ []) m)
            | inr more ↦
                collect_edges-keeps limit ids (out ++ e ∷ []) found (rw (hit, more) at r)
                  (Memᴰ-append out (e ∷ []) m)
          ]
        ]
      ]

  pub collect_edges-IsMatch :
      (limit : ℕ) (ids : List String) (out found : List E)
      → All IsMatch out
      → collect limit ids out ≡ ok found
      → All IsMatch found
  unfolding collect_edges
  collect_edges-IsMatch limit [] out found all h = subst (All IsMatch) (ok-injective h) all
  collect_edges-IsMatch limit (id ∷ ids) out found all h =
      elim (collect_edges-cons limit id ids out found h) [
        | inl (_, r) ↦ collect_edges-IsMatch limit ids out found all r
        | inr (e, g, b, m, r) ↦ elim (Bool-cases b) [
          | inr neg ↦ collect_edges-IsMatch limit ids out found all (rw neg at r)
          | inl hit ↦
              let all' = All-append IsMatch out (e ∷ []) all (((id, g), m ∙ ap ok hit), tt) in
              elim (Bool-cases (leb limit (length (out ++ e ∷ [])))) [
                | inl full ↦ subst (All IsMatch) (ok-injective (rw (hit, full) at r)) all'
                | inr more ↦
                    collect_edges-IsMatch limit ids (out ++ e ∷ []) found all' (rw (hit, more) at r)
              ]
        ]
      ]

  -- An edge that matches is found by its id, or the answer is full.
  pub collect_edges-finds :
      (limit : ℕ) (ids : List String) (out found : List E) (i : String) {e : E}
      → JsMap.get s.edges i ≡ some e
      → matched e ≡ ok true
      → includes ids i ≡ true
      → collect limit ids out ≡ ok found
      → Memᴰ e found ⊎ (limit ≤ length found)
  unfolding collect_edges includes
  collect_edges-finds limit [] out found i g m inc h = cc
  collect_edges-finds limit (id ∷ ids) out found i {e} g m inc h = elim (Bool-cases (id == i)) [
    | inr other ↦
        let inc' = rw other at inc in
        elim (collect_edges-cons limit id ids out found h) [
          | inl (_, r) ↦ collect_edges-finds limit ids out found i g m inc' r
          | inr (x, _, b, _, r) ↦ elim (Bool-cases b) [
            | inr neg ↦ collect_edges-finds limit ids out found i g m inc' (rw neg at r)
            | inl hit ↦ elim (Bool-cases (leb limit (length (out ++ x ∷ [])))) [
              | inl full ↦ inr (
                  subst (λ l. limit ≤ length l) (ok-injective (rw (hit, full) at r))
                    (leb→le limit (length (out ++ x ∷ [])) full))
              | inr more ↦
                  collect_edges-finds limit ids (out ++ x ∷ []) found i g m inc'
                    (rw (hit, more) at r)
            ]
          ]
        ]
    | inl same ↦
        let here = subst (λ j. JsMap.get s.edges j ≡ some e) (sym ((eq_iff id i).0 same)) g in
        elim (collect_edges-cons limit id ids out found h) [
          | inl (gone, _) ↦ cc
          | inr (x, gx, b, mx, r) ↦
              let x≡e = some-path (sym gx ∙ here) in
              let b≡true = ok-injective (sym mx ∙ ap matched x≡e ∙ m) in
              let last = subst (λ y. Memᴰ y (out ++ x ∷ [])) x≡e (Memᴰ-last x out) in
              elim (Bool-cases (leb limit (length (out ++ x ∷ [])))) [
                | inl full ↦ inl (subst (Memᴰ e) (ok-injective (rw (b≡true, full) at r)) last)
                | inr more ↦ inl (
                    collect_edges-keeps limit ids (out ++ x ∷ []) found (rw (b≡true, more) at r)
                      last)
              ]
        ]
  ]
