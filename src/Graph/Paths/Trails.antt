-- ===== src/Graph/Paths/Trails.antt =====
-- The invariant of the `while` loop of fewestHopsPath, a breadth-first search, and what it says of
-- the paths to the target.
use mathlib.Core.Path.{subst}
use mathlib.Core.List.{Memᴰ}
use tekbreed_oss.Prelude.{
  ℕ, ◌+◌, ◌≤◌, ◌<◌, String, ◌≡◌, refl, ap, sym, ◌∙◌, true, false, none, some, List, [], ◌∷◌, ◌++◌,
  arith, ◌==◌, eq_iff, eq_refl, includes, All, Bool-cases, inl, inr, ◌⊎◌,
}
use tekbreed_oss.Prelude.Result.{Result, ok, ok-injective}
use tekbreed_oss.Graph.{GraphError}
use tekbreed_oss.Graph.Paths.{Step, PathQueueItem, Frontier}
use tekbreed_oss.Graph.Paths.Push.{queued, has_hop}

module _ {Hop Sum : Type 0} (target : Hop → String) (add_hop : Sum → Hop → Sum)
    (adjacent : String → Result GraphError (List Hop)) (from to : String) (max_depth : ℕ) where
  -- The steps lead from the start to a node, each by a neighbor of the one before; the number is
  -- that of the hops.
  pub data Trail : List (Step Hop Sum) → String → ℕ → Type 0 where
    start : Trail (record { node = from; via = none } ∷ []) from 0
    extend :
        {steps : List (Step Hop Sum)} {u : String} {d : ℕ} {hs : List Hop} {h : Hop}
        → Trail steps u d
        → adjacent u ≡ ok hs
        → Memᴰ h hs
        → Trail (steps ++ record { node = target h; via = some h } ∷ []) (target h) (d + 1)

  abbrev pub Item : Type 0
  Item = PathQueueItem Hop Sum

  -- `dist` is the depth at which each visited node was queued.
  abbrev pub IsItem : List String → (String → ℕ) → Item → Type 0
  IsItem visited dist it =
      (includes visited it.node_id ≡ true)
      × (dist it.node_id ≡ it.depth)
      × (it.depth ≤ max_depth)
      × Trail it.steps it.node_id it.depth

  -- Depths do not fall along the queue, and differ by one at most.
  abbrev pub Window : List Item → Type 0
  Window [] = Unit {0}
  Window (it ∷ q) = All (λ (x : Item). (it.depth ≤ x.depth) × (x.depth ≤ it.depth + 1)) q × Window q

  -- A node that has left the queue: it is not the target, and it is as deep as allowed or its
  -- neighbors are visited.
  abbrev pub IsClosed : List String → (String → ℕ) → String → Type 0
  IsClosed visited dist v =
      ((v == to) ≡ false)
      × ((max_depth ≤ dist v)
          ⊎ ((hs : List Hop) × (adjacent v ≡ ok hs)
              × ((w : String)
                  → has_hop target hs w ≡ true
                  → (includes visited w ≡ true) × (dist w ≤ dist v + 1))))

  pub record Inv (dist : String → ℕ) (f : Frontier Hop Sum) : Type 0 where
    pub source : (includes f.visited from ≡ true) × (dist from ≡ 0)
    pub items : All (IsItem f.visited dist) f.queue
    pub window : Window f.queue
    pub near :
        (w : String)
        → includes f.visited w ≡ true
        → All (λ (it : Item). dist w ≤ it.depth + 1) f.queue
    pub closed :
        (v : String)
        → includes f.visited v ≡ true
        → (queued f.queue v ≡ true) ⊎ IsClosed f.visited dist v

  -- A queued node was visited no earlier than the first of the queue.
  queued-le-dist :
      (visited : List String) (dist : String → ℕ) (i : ℕ) (q : List Item) (v : String)
      → All (IsItem visited dist) q
      → All (λ (it : Item). i ≤ it.depth) q
      → queued q v ≡ true
      → i ≤ dist v
  unfolding queued
  queued-le-dist visited dist i [] v items least h = cc
  queued-le-dist visited dist i (it ∷ q) v items least h = elim (Bool-cases (it.node_id == v)) [
    | inl e ↦
        subst (λ w. i ≤ dist w) ((eq_iff it.node_id v).0 e) (omega (arith, items.0.1, least.0))
    | inr e ↦ queued-le-dist visited dist i q v items.1 least.1 (rw e at h)
  ]

  pub has_hop-Memᴰ : (hs : List Hop) {h : Hop} → Memᴰ h hs → has_hop target hs (target h) ≡ true
  unfolding has_hop
  has_hop-Memᴰ [] m = elim m [ ]
  has_hop-Memᴰ (x ∷ hs) {h} (Memᴰ.head e) = rw (ap target (sym e), eq_refl (target h)) refl
  has_hop-Memᴰ (x ∷ hs) {h} (Memᴰ.tail m) = ground (arith, has_hop-Memᴰ hs m)

  -- A node at the end of a trail shorter than the depths in the queue was visited by then.
  trail-visited :
      (dist : String → ℕ) (f : Frontier Hop Sum) (i : ℕ)
      → Inv dist f
      → All (λ (it : Item). i ≤ it.depth) f.queue
      → {steps : List (Step Hop Sum)} {v : String} {n : ℕ} → Trail steps v n
      → n < i
      → n ≤ max_depth
      → (includes f.visited v ≡ true) × (dist v ≤ n)
  trail-visited dist f i inv least start lt le = (inv.source.0, ground (arith, inv.source.1))
  trail-visited dist f i inv least (extend {u} {d} {hs} {h} t a m) lt le =
      let (seen, before) = trail-visited dist f i inv least t (omega arith) (omega arith) in
      elim (inv.closed u seen) [
        | inl waits ↦
            absurd (omega (arith, queued-le-dist f.visited dist i f.queue u inv.items least waits))
        | inr (_, inl deep) ↦ absurd (omega arith)
        | inr (_, inr (hs', a', all)) ↦
            let (vis, close) = all (target h) (
              subst (λ l. has_hop target l (target h) ≡ true) (ok-injective (sym a ∙ a'))
                (has_hop-Memᴰ hs m)) in
            (vis, omega arith)
      ]

  -- A trail to the target is not shorter than the depths in the queue.
  pub trail-least :
      (dist : String → ℕ) (f : Frontier Hop Sum) (i : ℕ)
      → Inv dist f
      → All (λ (it : Item). i ≤ it.depth) f.queue
      → {steps : List (Step Hop Sum)} {n : ℕ} → Trail steps to n
      → n ≤ max_depth
      → n < i
      → ⊥
  trail-least dist f i inv least t le lt =
      let (seen, before) = trail-visited dist f i inv least t lt le in
      elim (inv.closed to seen) [
        | inl waits ↦
            absurd (omega (arith, queued-le-dist f.visited dist i f.queue to inv.items least waits))
        | inr (not_to, _) ↦ absurd (ground (arith, eq_refl to))
      ]
