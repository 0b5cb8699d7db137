-- ===== src/Graph/Paths/Push.antt =====
-- One round of fewestHopsPath: the nodes that the loop over the neighbors puts in the queue.
use tekbreed_oss.Prelude.{
  ℕ, ◌+◌, ◌≤◌, String, ◌≡◌, refl, ap, sym, ◌∙◌, Bool, true, false, not, ◌||◌, ◌&&◌, List, [], ◌∷◌,
  ◌++◌, arith, ◌==◌, eq_iff, if◌then◌else◌, includes, length, length-append, All, Bool-cases, inl,
  inr,
}
use mathlib.Core.List.{append-nil, append_assoc, Memᴰ}
use tekbreed_oss.Graph.Paths.{PathQueueItem, Frontier, item_after, push_hops}

module _ {Hop Sum : Type 0} where
  -- A node is the head of some item.
  unfoldable pub queued : List (PathQueueItem Hop Sum) → String → Bool
  queued [] w = false
  queued (it ∷ q) w = (it.node_id == w) || queued q w

  pub queued-append :
      (p q : List (PathQueueItem Hop Sum)) (w : String)
      → queued (p ++ q) w ≡ (queued p w || queued q w)
  unfolding queued
  queued-append [] q w = refl
  queued-append (it ∷ p) q w = ground (arith, queued-append p q w)

module _ {Hop : Type 0} (target : Hop → String) where
  unfoldable pub has_hop : List Hop → String → Bool
  has_hop [] w = false
  has_hop (h ∷ hs) w = (target h == w) || has_hop hs w

-- How many of the keys are not visited.
unfoldable pub unvisited : List String → List String → ℕ
unvisited [] visited = 0
unvisited (k ∷ ks) visited = (if includes visited k then 0 else 1) + unvisited ks visited

unvisited-visit :
    (ks visited : List String) (v : String) → unvisited ks (v ∷ visited) ≤ unvisited ks visited
unfolding unvisited includes
unvisited-visit [] visited v = omega arith
unvisited-visit (k ∷ ks) visited v = ground (arith, unvisited-visit ks visited v)

unvisited-visit_new :
    (ks visited : List String) (v : String)
    → includes ks v ≡ true
    → includes visited v ≡ false
    → unvisited ks (v ∷ visited) + 1 ≤ unvisited ks visited
unfolding unvisited includes
unvisited-visit_new [] visited v h n = cc
unvisited-visit_new (k ∷ ks) visited v h n =
    ground (
      arith,
      unvisited-visit_new ks visited v,
      unvisited-visit ks visited v,
      eq_iff k v,
      eq_iff v k,
    )

module _ {Hop Sum : Type 0} (target : Hop → String) (add_hop : Sum → Hop → Sum)
    (current : PathQueueItem Hop Sum) where
  abbrev push : List Hop → Frontier Hop Sum → Frontier Hop Sum
  push = push_hops target add_hop current

  abbrev pub pushed : Hop → Frontier Hop Sum → Frontier Hop Sum
  pushed h f = if includes f.visited (target h) then f else record {
    queue = f.queue ++ item_after target add_hop current h ∷ [];
    visited = target h ∷ f.visited;
  }

  includes-pushed :
      (h : Hop) (f : Frontier Hop Sum) (w : String)
      → includes (pushed h f).visited w ≡ (includes f.visited w || (target h == w))
  unfolding includes
  includes-pushed h f w = elim (Bool-cases (includes f.visited (target h))) [
    | inl e ↦ rw e (ground (arith, eq_iff (target h) w))
    | inr e ↦ rw e (ground (arith, eq_iff (target h) w))
  ]

  queued-pushed :
      (h : Hop) (f : Frontier Hop Sum) (w : String)
      → queued (pushed h f).queue w
        ≡ (queued f.queue w || (not (includes f.visited w) && (target h == w)))
  unfolding queued
  queued-pushed h f w = elim (Bool-cases (includes f.visited (target h))) [
    | inl e ↦ rw e (ground (arith, eq_iff (target h) w))
    | inr e ↦ rw e (
        ground (
          arith,
          eq_iff (target h) w,
          queued-append f.queue (item_after target add_hop current h ∷ []) w,
        ))
  ]

  pub includes-push_hops :
      (hs : List Hop) (f : Frontier Hop Sum) (w : String)
      → includes (push_hops target add_hop current hs f).visited w
        ≡ (includes f.visited w || has_hop target hs w)
  unfolding push_hops has_hop
  includes-push_hops [] f w = ground arith
  includes-push_hops (h ∷ hs) f w =
      ground (arith, includes-push_hops hs (pushed h f) w, includes-pushed h f w)

  pub queued-push_hops :
      (hs : List Hop) (f : Frontier Hop Sum) (w : String)
      → queued (push_hops target add_hop current hs f).queue w
        ≡ (queued f.queue w || (not (includes f.visited w) && has_hop target hs w))
  unfolding push_hops has_hop
  queued-push_hops [] f w = ground arith
  queued-push_hops (h ∷ hs) f w = ground (
    arith,
    queued-push_hops hs (pushed h f) w,
    queued-pushed h f w,
    includes-pushed h f w,
    eq_iff (target h) w,
  )

  -- A neighbor that was visited changes nothing, and one that was not is queued.
  push_hops-old :
      (h : Hop) (hs : List Hop) (f : Frontier Hop Sum)
      → includes f.visited (target h) ≡ true
      → push_hops target add_hop current (h ∷ hs) f ≡ push_hops target add_hop current hs f
  unfolding push_hops
  push_hops-old h hs f e = ap (push_hops target add_hop current hs) old
    where
      old : pushed h f ≡ f
      old = rw e refl

  abbrev with_hop : Hop → Frontier Hop Sum → Frontier Hop Sum
  with_hop h f = record {
    queue = f.queue ++ item_after target add_hop current h ∷ [];
    visited = target h ∷ f.visited;
  }

  push_hops-new :
      (h : Hop) (hs : List Hop) (f : Frontier Hop Sum)
      → includes f.visited (target h) ≡ false
      → push_hops target add_hop current (h ∷ hs) f
        ≡ push_hops target add_hop current hs (with_hop h f)
  unfolding push_hops
  push_hops-new h hs f e = ap (push_hops target add_hop current hs) new
    where
      new : pushed h f ≡ with_hop h f
      new = rw e refl

  abbrev IsNewOf : (PathQueueItem Hop Sum → Type 0) → List String → PathQueueItem Hop Sum → Type 0
  IsNewOf P visited it = P it × (includes visited it.node_id ≡ false)

  -- An item's node that is new to a larger set is new to the smaller one.
  IsNewOf-smaller :
      (P : PathQueueItem Hop Sum → Type 0) (visited : List String) (v : String)
      (its : List (PathQueueItem Hop Sum))
      → All (IsNewOf P (v ∷ visited)) its
      → All (IsNewOf P visited) its
  unfolding includes
  IsNewOf-smaller P visited v [] all = tt
  IsNewOf-smaller P visited v (it ∷ its) all =
      ((all.0.0, ground (arith, all.0.1)), IsNewOf-smaller P visited v its all.1)

  -- The new items go to the end of the queue. Each comes from a neighbor, and its node was not
  -- visited.
  pub push_hops_news :
      (P : PathQueueItem Hop Sum → Type 0) (hs : List Hop) (f : Frontier Hop Sum)
      → ((h : Hop) → Memᴰ h hs → P (item_after target add_hop current h))
      → (news : List (PathQueueItem Hop Sum)) × ((push_hops target add_hop current hs f).queue
          ≡ f.queue ++ news)
        × All (IsNewOf P f.visited) news
  unfolding push_hops
  push_hops_news P [] f p = ([], sym (append-nil f.queue), tt)
  push_hops_news P (h ∷ hs) f p = elim (Bool-cases (includes f.visited (target h))) [
    | inl e ↦ rw (push_hops-old h hs f e) (push_hops_news P hs f (λ x m. p x (Memᴰ.tail m)))
    | inr e ↦
        let it = item_after target add_hop current h in
        let (news, q, all) = push_hops_news P hs (with_hop h f) (λ x m. p x (Memᴰ.tail m)) in
        rw (push_hops-new h hs f e) (
          it ∷ news,
          q ∙ append_assoc f.queue (it ∷ []) news,
          ((p h (Memᴰ.head refl), e), IsNewOf-smaller P f.visited (target h) news all),
        )
  ]

  -- A round adds no more items than it visits nodes of `ks`, where the neighbors are among them.
  pub push_hops_measure :
      (ks : List String) (hs : List Hop) (f : Frontier Hop Sum)
      → All (λ h. includes ks (target h) ≡ true) hs
      → (let f' = push_hops target add_hop current hs f in
          length f'.queue + unvisited ks f'.visited)
        ≤ length f.queue + unvisited ks f.visited
  unfolding push_hops
  push_hops_measure ks [] f all = omega arith
  push_hops_measure ks (h ∷ hs) f all = elim (Bool-cases (includes f.visited (target h))) [
    | inl e ↦ rw (push_hops-old h hs f e) (push_hops_measure ks hs f all.1)
    | inr e ↦
        let it = item_after target add_hop current h in
        rw (push_hops-new h hs f e) (
          omega (
            arith,
            push_hops_measure ks hs (with_hop h f) all.1,
            length-append f.queue (it ∷ []),
            unvisited-visit_new ks f.visited (target h) all.0 e,
          ))
  ]
