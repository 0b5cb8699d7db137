-- ===== src/Graph/Neighbors/Sound.antt =====
-- What neighbors gives: stored nodes along stored edges that pass the query's tests.
use mathlib.Core.Path.{subst}
use mathlib.Core.List.{Memᴰ}
use tekbreed_oss.Prelude.{
  ℕ, String, ◌≡◌, refl, ap, ◌∙◌, true, false, Option, some, List, [], ◌∷◌, get_or, includes, All,
  All-append, Bool-cases, Option-cases, inl, inr,
}
use tekbreed_oss.Prelude.Floats.{Floats}
use tekbreed_oss.Prelude.Result.{ok, >>=-eq-ok, ok-injective}
use tekbreed_oss.JsMap
use tekbreed_oss.Graph.{GraphDirection, both, neighbor_edge_ids, neighbor_candidates}
use tekbreed_oss.Graph.Filters.{validate_limit}
use tekbreed_oss.Graph.Neighbors.{
  Edge, Store, GraphFilter, GraphNeighbor, GraphNeighborQuery, NodeFields, Found, edge_passes,
  node_passes, neighbor_key, add_neighbor, add_candidates, add_edges, neighbors,
}

module _ (F : Floats) (Node Rest : Type 0) (date_of : String → Option ℕ) (clock : ℕ)
    (lower : String → String) (s : Store F Node Rest) (node : String) (d : GraphDirection)
    (q : GraphFilter F.Float) where
  -- The edge is stored and passes, and one of its candidates is the stored node, which passes.
  abbrev pub IsNeighbor : GraphNeighbor F Node Rest → Type 0
  IsNeighbor n =
      ((id : String) × (JsMap.get s.edges id ≡ some n.edge))
      × (edge_passes F Node Rest date_of clock lower q n.edge ≡ ok true)
      × Memᴰ (n.node_id, n.direction) (neighbor_candidates n.edge node d)
      × (JsMap.get s.nodes n.node_id ≡ some n.node)
      × (node_passes F Node Rest date_of clock lower q n.node ≡ ok true)

  module _ (limit : ℕ) where
    abbrev AllFound : Found F Node Rest → Type 0
    AllFound found = All IsNeighbor found.out

    add_neighbor-AllFound :
        (e : Edge F Node Rest) (c : String × GraphDirection) (n : NodeFields Node)
        (found : Found F Node Rest)
        → AllFound found
        → IsNeighbor (record { node_id = c.0; node = n; edge = e; direction = c.1 })
        → AllFound (add_neighbor F Node Rest date_of clock lower limit e c n found)
    unfolding add_neighbor
    add_neighbor-AllFound e (id, dir) n found all p =
        elim (Bool-cases
          (includes found.seen (neighbor_key F Node Rest date_of clock lower e (id, dir)))) [
            | inl h ↦ rw h all
            | inr h ↦ rw h (All-append IsNeighbor found.out _ all (p, tt))
          ]

    add_candidates-AllFound :
        (e : Edge F Node Rest)
        → ((id : String) × (JsMap.get s.edges id ≡ some e))
        → edge_passes F Node Rest date_of clock lower q e ≡ ok true
        → (cs : List (String × GraphDirection))
        → ((c : String × GraphDirection) → Memᴰ c cs → Memᴰ c (neighbor_candidates e node d))
        → (found found' : Found F Node Rest) → AllFound found
        → add_candidates F Node Rest date_of clock lower s q limit e cs found ≡ ok found'
        → AllFound found'
    unfolding add_candidates
    add_candidates-AllFound e st ep [] sub found found' all h = subst AllFound (ok-injective h) all
    add_candidates-AllFound e st ep (c ∷ cs) sub found found' all h = elim (Bool-cases found.full) [
      | inl f ↦ subst AllFound (ok-injective (rw f at h)) all
      | inr f ↦ elim (Option-cases (JsMap.get s.nodes c.0)) [
        | inl g ↦
            add_candidates-AllFound e st ep cs (λ x m. sub x (Memᴰ.tail m)) found found' all
              (rw (f, g, add_candidates) at h)
        | inr (n, g) ↦
            let h₁ = rw (f, g, add_candidates) at h in
            let (passes, np, h₂) =
              >>=-eq-ok (node_passes F Node Rest date_of clock lower q n) _ h₁ in
            elim (Bool-cases passes) [
              | inl y ↦
                  add_candidates-AllFound e st ep cs (λ x m. sub x (Memᴰ.tail m))
                    (add_neighbor F Node Rest date_of clock lower limit e c n found) found'
                    (add_neighbor-AllFound e c n found all
                      (st, ep, sub c (Memᴰ.head refl), g, np ∙ ap ok y))
                    (rw y at h₂)
              | inr y ↦
                  add_candidates-AllFound e st ep cs (λ x m. sub x (Memᴰ.tail m)) found found' all
                    (rw y at h₂)
            ]
      ]
    ]

    add_edges-AllFound :
        (ids : List String) (found found' : Found F Node Rest)
        → AllFound found
        → add_edges F Node Rest date_of clock lower s node d q limit ids found ≡ ok found'
        → AllFound found'
    unfolding add_edges
    add_edges-AllFound [] found found' all h = subst AllFound (ok-injective h) all
    add_edges-AllFound (id ∷ ids) found found' all h = elim (Bool-cases found.full) [
      | inl f ↦ subst AllFound (ok-injective (rw f at h)) all
      | inr f ↦ elim (Option-cases (JsMap.get s.edges id)) [
        | inl g ↦ add_edges-AllFound ids found found' all (rw (f, g, add_edges) at h)
        | inr (e, g) ↦
            let h₁ = rw (f, g, add_edges) at h in
            let (passes, ep, h₂) =
              >>=-eq-ok (edge_passes F Node Rest date_of clock lower q e) _ h₁ in
            elim (Bool-cases passes) [
              | inr y ↦ add_edges-AllFound ids found found' all (rw y at h₂)
              | inl y ↦
                  let (found₁, c, h₃) =
                    >>=-eq-ok
                      (add_candidates F Node Rest date_of clock lower s q limit e
                        (neighbor_candidates e node d) found)
                      _ (rw y at h₂) in
                  add_edges-AllFound ids found₁ found'
                    (add_candidates-AllFound e (id, g) (ep ∙ ap ok y) (neighbor_candidates e node d)
                      (λ x m. m) found found₁ all c)
                    h₃
            ]
      ]
    ]

-- If neighbors returns, each neighbor found is a stored node that passes the query's tests,
-- reached by a stored edge that passes them, and the node and the direction are one of the edge's
-- candidates for the queried node.
pub neighbors_sound :
    (F : Floats) (Node Rest : Type 0) (date_of : String → Option ℕ) (clock : ℕ)
    (lower : String → String) (s : Store F Node Rest) (query : GraphNeighborQuery F.Float)
    {found : List (GraphNeighbor F Node Rest)}
    → neighbors F Node Rest date_of clock lower s query ≡ ok found
    → All
        (IsNeighbor F Node Rest date_of clock lower s query.node_id
          (get_or query.direction both)
          query.filter)
        found
unfolding neighbors
neighbors_sound F Node Rest date_of clock lower s query {found} h =
    elim (Bool-cases (JsMap.has s.nodes query.node_id)) [
      | inr e ↦ cc (rw e at h)
      | inl e ↦
          let h₀ = rw e at h in
          let (limit, l, h₁) = >>=-eq-ok (validate_limit query.limit 100 10000) _ h₀ in
          let (state, a, h₂) =
            >>=-eq-ok
              (add_edges F Node Rest date_of clock lower s query.node_id
                (get_or query.direction both) query.filter limit
                (neighbor_edge_ids s query.node_id (get_or query.direction both))
                (record { out = []; seen = []; full = false }))
              _ h₁ in
          subst (All _) (ok-injective h₂) (
            add_edges-AllFound F Node Rest date_of clock lower s query.node_id
              (get_or query.direction both) query.filter limit
              (neighbor_edge_ids s query.node_id (get_or query.direction both)) _ state tt a)
    ]
