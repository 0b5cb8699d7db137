-- ===== src/Graph/Paths/Expand.antt =====
-- One round of fewestHopsPath's loop keeps what the loop has established (Inv).
use mathlib.Core.Path.{subst}
use mathlib.Core.List.{Memᴰ}
use tekbreed_oss.Prelude.{
  ℕ, ◌+◌, ◌≤◌, String, ◌≡◌, refl, ap, sym, ◌∙◌, true, false, List, [], ◌∷◌, ◌++◌, arith, ◌==◌,
  eq_iff, leb, leb→le, if◌then◌else◌, includes, All, All-map, All-append, Bool-cases, inl, inr, ◌⊎◌,
}
use tekbreed_oss.Prelude.Result.{Result, ok}
use tekbreed_oss.Graph.{GraphError}
use tekbreed_oss.Graph.Paths.{PathQueueItem, Frontier, item_after, push_hops}
use tekbreed_oss.Graph.Paths.Push.{
  queued, has_hop, includes-push_hops, queued-push_hops, push_hops_news,
}
use tekbreed_oss.Graph.Paths.Trails.{Trail, extend, IsItem, Window, IsClosed, Inv, has_hop-Memᴰ}

module _ {Hop Sum : Type 0} (target : Hop → String) (add_hop : Sum → Hop → Sum)
    (adjacent : String → Result GraphError (List Hop)) (from to : String) (max_depth : ℕ) where
  abbrev pub Invariant : (String → ℕ) → Frontier Hop Sum → Type 0
  Invariant = Inv target add_hop adjacent from to max_depth

  abbrev Windows : List (PathQueueItem Hop Sum) → Type 0
  Windows = Window target add_hop adjacent from to max_depth

  -- Around the taking of the first item.
  module _ (dist : String → ℕ) (visited : List String) (current : PathQueueItem Hop Sum)
      (rest : List (PathQueueItem Hop Sum)) (other : (current.node_id == to) ≡ false) where
    abbrev full : Frontier Hop Sum
    full = record { queue = current ∷ rest; visited = visited }

    abbrev popped : Frontier Hop Sum
    popped = record { queue = rest; visited = visited }

    abbrev Closed : String → Type 0
    Closed = IsClosed target add_hop adjacent from to max_depth visited dist

    other_at : (v : String) → (current.node_id == v) ≡ true → (v == to) ≡ false
    other_at v e = subst (λ w. (w == to) ≡ false) ((eq_iff current.node_id v).0 e) other

    pub Invariant-popped :
        leb max_depth current.depth ≡ true → Invariant dist full → Invariant dist popped
    unfolding queued
    Invariant-popped deep inv = record {
      source = inv.source;
      items = inv.items.1;
      window = inv.window.1;
      near = λ w v. (inv.near w v).1;
      closed = λ v h. elim (Bool-cases (current.node_id == v)) [
        | inl e ↦ inr (
          other_at v e,
          inl (
              subst (λ w. max_depth ≤ dist w) ((eq_iff current.node_id v).0 e)
                (omega (arith, leb→le max_depth current.depth deep, inv.items.0.1))),
        )
        | inr e ↦ elim (inv.closed v h) [ inl waits ↦ inl (rw e at waits) | inr done ↦ inr done ]
      ];
    }

    -- Around the expansion of its node.
    module _ (hs : List Hop) (a : adjacent current.node_id ≡ ok hs)
        (shallow : leb max_depth current.depth ≡ false) where
      abbrev next : Frontier Hop Sum
      next = push_hops target add_hop current hs popped

      -- The depths with those of the new nodes.
      abbrev pub dist' : String → ℕ
      dist' w = if includes visited w then dist w else current.depth + 1

      dist'-old : (w : String) → includes visited w ≡ true → dist' w ≡ dist w
      dist'-old w h = rw h refl

      dist'-new : (w : String) → includes visited w ≡ false → dist' w ≡ current.depth + 1
      dist'-new w h = rw h refl

      seen : (w : String) → includes visited w ≡ true → includes next.visited w ≡ true
      seen w h = ground (arith, includes-push_hops target add_hop current hs popped w)

      seen_hop : (w : String) → has_hop target hs w ≡ true → includes next.visited w ≡ true
      seen_hop w h = ground (arith, includes-push_hops target add_hop current hs popped w)

      -- What holds of each new item.
      abbrev IsNext : PathQueueItem Hop Sum → Type 0
      IsNext it =
          (has_hop target hs it.node_id ≡ true)
          × (it.depth ≡ current.depth + 1)
          × Trail target add_hop adjacent from to max_depth it.steps it.node_id it.depth

      IsNext-item_after :
          Invariant dist full → (h : Hop) → Memᴰ h hs → IsNext (item_after target add_hop current h)
      IsNext-item_after inv h m = (
        has_hop-Memᴰ target add_hop adjacent from to max_depth hs m,
        refl,
        extend inv.items.0.3 a m,
      )

      Window-append :
          (q news : List (PathQueueItem Hop Sum))
          → Windows q
          → All
              (λ (x : PathQueueItem Hop Sum).
                (current.depth ≤ x.depth) × (x.depth ≤ current.depth + 1))
              q
          → All (λ (x : PathQueueItem Hop Sum). x.depth ≡ current.depth + 1) news
          → Windows (q ++ news)
      Window-append [] [] w all eq = tt
      Window-append [] (x ∷ news) w all eq = (
        All-map news (λ y e. (omega (arith, eq.0), omega (arith, eq.0))) eq.1,
        Window-append [] news tt tt eq.1,
      )
      Window-append (x ∷ q) news w all eq = (
        All-append (λ (y : PathQueueItem Hop Sum). (x.depth ≤ y.depth) × (y.depth ≤ x.depth + 1)) q
            news w.0 (All-map news (λ y e. (omega (arith, all.0.1), omega (arith, all.0.0))) eq),
        Window-append q news w.1 all.1 eq,
      )

      near_dist' :
          Invariant dist full
          → (w : String) (i : ℕ) → (includes visited w ≡ true → dist w ≤ i + 1)
          → current.depth ≤ i
          → dist' w ≤ i + 1
      near_dist' inv w i old le = elim (Bool-cases (includes visited w)) [
        | inl h ↦ rw h (old h)
        | inr h ↦ rw h (omega arith)
      ]

      near_next :
          Invariant dist full
          → (w : String) (q : List (PathQueueItem Hop Sum))
          → (includes visited w ≡ true
              → All (λ (it : PathQueueItem Hop Sum). dist w ≤ it.depth + 1) q)
          → All (λ (it : PathQueueItem Hop Sum). current.depth ≤ it.depth) q
          → All (λ (it : PathQueueItem Hop Sum). dist' w ≤ it.depth + 1) q
      near_next inv w [] old le = tt
      near_next inv w (it ∷ q) old le =
          (near_dist' inv w it.depth (λ h. (old h).0) le.0, near_next inv w q (λ h. (old h).1) le.1)

      IsClosed-next :
          Invariant dist full
          → (v : String) → includes next.visited v ≡ true
          → (queued next.queue v ≡ true)
            ⊎ IsClosed target add_hop adjacent from to max_depth next.visited dist' v
      unfolding queued
      IsClosed-next inv v h = elim (Bool-cases (includes visited v)) [
        | inr new ↦ inl (
            ground (
              arith,
              includes-push_hops target add_hop current hs popped v,
              queued-push_hops target add_hop current hs popped v,
            ))
        | inl old ↦ elim (Bool-cases (current.node_id == v)) [
          | inl e ↦
              let same = (eq_iff current.node_id v).0 e in
              let depth : dist' v ≡ current.depth =
                dist'-old v old ∙ ap dist (sym same) ∙ inv.items.0.1 in
              inr (
                other_at v e,
                inr (
                  hs,
                  ap adjacent (sym same) ∙ a,
                  λ w k. (
                    seen_hop w k,
                    omega (
                      arith,
                      near_dist' inv w current.depth (λ u. (inv.near w u).0) (omega arith),
                    ),
                  ),
                ),
              )
          | inr e ↦ elim (inv.closed v old) [
            | inl waits ↦ inl (ground (arith, queued-push_hops target add_hop current hs popped v))
            | inr (not_to, inl deep) ↦ inr (not_to, inl (omega (arith, dist'-old v old)))
            | inr (not_to, inr (hs', a', all)) ↦ inr (
              not_to,
              inr (
                hs',
                a',
                λ w k. (
                  seen w (all w k).0,
                  omega (arith, dist'-old v old, dist'-old w (all w k).0, (all w k).1),
                ),
              ),
            )
          ]
        ]
      ]

      pub Invariant-next : Invariant dist full → Invariant dist' next
      Invariant-next inv =
          let (news, e, all) =
            push_hops_news target add_hop current IsNext hs popped (IsNext-item_after inv) in
          let back = λ (P : List (PathQueueItem Hop Sum) → Type 0) (p : P (rest ++ news)).
            subst P (sym e) p in
          record {
            source = (seen from inv.source.0, dist'-old from inv.source.0 ∙ inv.source.1);
            items =
                back (All (IsItem target add_hop adjacent from to max_depth next.visited dist')) (
                  All-append (IsItem target add_hop adjacent from to max_depth next.visited dist')
                    rest news
                    (All-map rest
                      (λ it p. (seen it.node_id p.0, dist'-old it.node_id p.0 ∙ p.1, p.2, p.3))
                      inv.items.1)
                    (All-map news
                      (λ it p. (
                        seen_hop it.node_id p.0.0,
                        dist'-new it.node_id p.1 ∙ sym p.0.1,
                        ground (arith, p.0.1),
                        p.0.2,
                      ))
                      all));
            window = back Windows (
                Window-append rest news inv.window.1 inv.window.0
                  (All-map news (λ it p. p.0.1) all));
            near = λ w v. back (All (λ (it : PathQueueItem Hop Sum). dist' w ≤ it.depth + 1)) (
                All-append (λ (it : PathQueueItem Hop Sum). dist' w ≤ it.depth + 1) rest news
                  (near_next inv w rest (λ u. (inv.near w u).1)
                    (All-map rest (λ it p. p.0) inv.window.0))
                  (near_next inv w news
                    (λ u. All-map news (λ it p. omega (arith, p.0.1, (inv.near w u).0)) all)
                    (All-map news (λ it p. omega (arith, p.0.1)) all)));
            closed = IsClosed-next inv;
          }
