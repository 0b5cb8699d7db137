-- ===== src/Graph/Paths/Shortest.antt =====
-- fewestHopsPath returns, and the path that it returns has the fewest hops.
use mathlib.Core.Path.{subst}
use tekbreed_oss.Prelude.{
  ℕ, zero, suc, ◌+◌, ◌≤◌, ◌<◌, String, ◌≡◌, ap, sym, ◌∙◌, true, Option, none, some, List, [], ◌∷◌,
  arith, ◌==◌, eq_iff, leb, leb→le, includes, length, All, All-map, Bool-cases, inl, inr,
}
use tekbreed_oss.Prelude.Result.{Result, ok, throw, Result-cases}
use tekbreed_oss.Graph.{GraphError}
use tekbreed_oss.Graph.Paths.{Step, PathQueueItem, Frontier, push_hops, search_from}
use tekbreed_oss.Graph.Paths.Push.{unvisited, push_hops_measure}
use tekbreed_oss.Graph.Paths.Trails.{Trail, trail-least}
use tekbreed_oss.Graph.Paths.Expand.{Invariant, Invariant-popped, Invariant-next, dist'}
use tekbreed_oss.Graph.Paths.Search.{
  List-cases, search_from_empty, search_from_found, search_from_deep, search_from_thrown,
  search_from_expanded,
}

module _ {Hop Sum : Type 0} (target : Hop → String) (add_hop : Sum → Hop → Sum)
    (adjacent : String → Result GraphError (List Hop)) (from to : String) (max_depth : ℕ) where
  abbrev pub Search : Type 0
  Search = Result GraphError (Option (PathQueueItem Hop Sum))

  -- What an answer has to be: an error is one of a node's neighbors; a path found is a trail to the target, within the depth and with no
  -- more hops than any other; where none is found, every trail to the target is too long.
  abbrev pub IsRight : Search → Type 0
  IsRight (throw e) = (u : String) × (adjacent u ≡ throw e)
  IsRight (ok none) =
      (steps : List (Step Hop Sum)) (n : ℕ)
      → Trail target add_hop adjacent from to max_depth steps to n
      → max_depth < n
  IsRight (ok (some it)) =
      Trail target add_hop adjacent from to max_depth it.steps to it.depth
      × (it.depth ≤ max_depth)
      × ((steps : List (Step Hop Sum)) (n : ℕ)
          → Trail target add_hop adjacent from to max_depth steps to n
          → it.depth ≤ n)

  IsRight-empty :
      (dist : String → ℕ) (f : Frontier Hop Sum)
      → f.queue ≡ []
      → Invariant target add_hop adjacent from to max_depth dist f
      → IsRight (ok none)
  IsRight-empty dist f q inv steps n t = elim (Bool-cases (leb n max_depth)) [
    | inl le ↦ absurd (
        trail-least target add_hop adjacent from to max_depth dist f (n + 1) inv
          (subst (All (λ (it : PathQueueItem Hop Sum). n + 1 ≤ it.depth)) (sym q) tt) t
          (leb→le n max_depth le) (omega arith))
    | inr gt ↦ ground arith
  ]

  IsRight-found :
      (dist : String → ℕ) (visited : List String) (current : PathQueueItem Hop Sum)
      (rest : List (PathQueueItem Hop Sum))
      → (current.node_id == to) ≡ true
      → Invariant target add_hop adjacent from to max_depth dist
          (record { queue = current ∷ rest; visited = visited })
      → IsRight (ok (some current))
  IsRight-found dist visited current rest e inv = (
    subst (λ w. Trail target add_hop adjacent from to max_depth current.steps w current.depth)
        ((eq_iff current.node_id to).0 e) inv.items.0.3,
    inv.items.0.2,
    least,
  )
    where
      least :
          (steps : List (Step Hop Sum)) (n : ℕ)
          → Trail target add_hop adjacent from to max_depth steps to n
          → current.depth ≤ n
      least steps n t = elim (Bool-cases (leb current.depth n)) [
        | inl le ↦ leb→le current.depth n le
        | inr gt ↦ absurd (
            trail-least target add_hop adjacent from to max_depth dist
              (record { queue = current ∷ rest; visited = visited }) current.depth inv
              (omega arith, All-map rest (λ it p. p.0) inv.window.0) t
              (ground (arith, inv.items.0.2)) (ground arith))
      ]

  -- With fuel above the number of queued and of unvisited nodes, the search has a right answer.
  pub search-IsRight :
      (ks : List String)
      → ((u : String) (hs : List Hop)
          → adjacent u ≡ ok hs
          → All (λ h. includes ks (target h) ≡ true) hs)
      → (fuel : ℕ) (dist : String → ℕ) (f : Frontier Hop Sum)
      → Invariant target add_hop adjacent from to max_depth dist f
      → length f.queue + unvisited ks f.visited < fuel
      → (answer : Search) × (search_from target add_hop adjacent to max_depth fuel f ≡ some answer)
        × IsRight answer
  search-IsRight ks known zero dist f inv m = absurd (omega arith)
  search-IsRight ks known (suc fuel) dist f inv m = elim (List-cases f.queue) [
    | inl q ↦ (
      ok none,
      search_from_empty target add_hop adjacent to max_depth fuel f q,
      IsRight-empty dist f q inv,
    )
    | inr (current, rest, q) ↦
        let inv' =
          subst
            (λ l.
              Invariant target add_hop adjacent from to max_depth dist
                (record { queue = l; visited = f.visited }))
            q inv in
        elim (Bool-cases (current.node_id == to)) [
          | inl e ↦ (
            ok (some current),
            search_from_found target add_hop adjacent to max_depth fuel f current rest q e,
            IsRight-found dist f.visited current rest e inv',
          )
          | inr e ↦ elim (Bool-cases (leb max_depth current.depth)) [
            | inl deep ↦
                let (answer, s, r) =
                  search-IsRight ks known fuel dist (record f { queue = rest })
                    (Invariant-popped target add_hop adjacent from to max_depth dist f.visited
                      current rest e deep inv')
                    (omega (arith, ap length q)) in
                (
                  answer,
                  search_from_deep target add_hop adjacent to max_depth fuel f current rest q e deep
                      ∙ s,
                  r,
                )
            | inr shallow ↦ elim (Result-cases (adjacent current.node_id)) [
              | inr (err, a) ↦ (
                throw err,
                search_from_thrown target add_hop adjacent to max_depth fuel f current rest q e
                    shallow a,
                (current.node_id, a),
              )
              | inl (hs, a) ↦
                  let f' = push_hops target add_hop current hs (record f { queue = rest }) in
                  let (answer, s, r) =
                    search-IsRight ks known fuel
                      (dist' target add_hop adjacent from to max_depth dist f.visited current rest e
                        hs a shallow)
                      f'
                      (Invariant-next target add_hop adjacent from to max_depth dist f.visited
                        current rest e hs a shallow inv')
                      (omega (
                        arith,
                        ap length q,
                        push_hops_measure target add_hop current ks hs (record f { queue = rest })
                            (known current.node_id hs a),
                      )) in
                  (
                    answer,
                    search_from_expanded target add_hop adjacent to max_depth fuel f current rest q
                          e shallow a
                        ∙ s,
                    r,
                  )
            ]
          ]
        ]
  ]
