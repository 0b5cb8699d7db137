-- ===== src/Graph/Paths/Search.antt =====
-- The `while` loop of fewestHopsPath ends.
use tekbreed_oss.Prelude.{
  ℕ, suc, String, ◌≡◌, refl, true, false, none, some, List, [], ◌∷◌, ◌==◌, leb, inl, inr, ◌⊎◌,
}
use tekbreed_oss.Prelude.Result.{Result, ok, throw}
use tekbreed_oss.Graph.{GraphError}
use tekbreed_oss.Graph.Paths.{PathQueueItem, Frontier, push_hops, search_from}

pub List-cases {ℓ} :
    {A : Type ℓ} (xs : List A) → (xs ≡ []) ⊎ ((x : A) × (rest : List A) × (xs ≡ x ∷ rest))
List-cases [] = inl refl
List-cases (x ∷ xs) = inr (x, xs, refl)

module _ {Hop Sum : Type 0} (target : Hop → String) (add_hop : Sum → Hop → Sum)
    (adjacent : String → Result GraphError (List Hop)) (to : String) (max_depth : ℕ) where
  pub search_from_empty :
      (fuel : ℕ) (f : Frontier Hop Sum)
      → f.queue ≡ []
      → search_from target add_hop adjacent to max_depth (suc fuel) f ≡ some (ok none)
  unfolding search_from
  search_from_empty fuel f q = rw (q, search_from) refl

  -- What the search comes to with a frontier, where the first of the queue is taken.
  module _ (fuel : ℕ) (f : Frontier Hop Sum) (current : PathQueueItem Hop Sum)
      (rest : List (PathQueueItem Hop Sum)) (q : f.queue ≡ current ∷ rest) where
    abbrev popped : Frontier Hop Sum
    popped = record f { queue = rest }

    pub search_from_found :
        (current.node_id == to) ≡ true
        → search_from target add_hop adjacent to max_depth (suc fuel) f ≡ some (ok (some current))
    unfolding search_from
    search_from_found e = rw (q, e, search_from) refl

    pub search_from_deep :
        (current.node_id == to) ≡ false
        → leb max_depth current.depth ≡ true
        → search_from target add_hop adjacent to max_depth (suc fuel) f
          ≡ search_from target add_hop adjacent to max_depth fuel popped
    unfolding search_from
    search_from_deep e d = rw (q, e, d, search_from) refl

    pub search_from_thrown :
        {err : GraphError}
        → (current.node_id == to) ≡ false
        → leb max_depth current.depth ≡ false
        → adjacent current.node_id ≡ throw err
        → search_from target add_hop adjacent to max_depth (suc fuel) f ≡ some (throw err)
    unfolding search_from
    search_from_thrown e d a = rw (q, e, d, a, search_from) refl

    pub search_from_expanded :
        {hs : List Hop}
        → (current.node_id == to) ≡ false
        → leb max_depth current.depth ≡ false
        → adjacent current.node_id ≡ ok hs
        → search_from target add_hop adjacent to max_depth (suc fuel) f
          ≡ search_from target add_hop adjacent to max_depth fuel
              (push_hops target add_hop current hs popped)
    unfolding search_from
    search_from_expanded e d a = rw (q, e, d, a, search_from) refl
