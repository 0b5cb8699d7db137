-- ===== src/Graph/Paths/Fewest.antt =====
-- fewestHopsPath on a store.
use tekbreed_oss.Prelude.{
  ℕ, suc, ◌+◌, ◌≤◌, String, ◌≡◌, refl, ap, true, Option, none, some, List, [], ◌∷◌, arith, eq_refl,
  includes, length, All, All-map, inl,
}
use tekbreed_oss.Prelude.Floats.{Floats}
use tekbreed_oss.Prelude.Result.{Result, ok, throw}
use tekbreed_oss.JsMap
use tekbreed_oss.JsMap.Bulk.{includes-keys}
use tekbreed_oss.Graph.{GraphError}
use tekbreed_oss.Graph.Filters.{validate_depth}
use tekbreed_oss.Graph.Neighbors.{Store, GraphNeighbor}
use tekbreed_oss.Graph.Neighbors.Sound.{neighbors_sound}
use tekbreed_oss.Graph.Paths.{
  Step, PathQueueItem, Frontier, search_from, GraphShortestPathQuery, fewest_hops_path,
  adjacent_nodes, neighbor_id, add_totals, PathItem, zero_totals,
}
use tekbreed_oss.Graph.Paths
use tekbreed_oss.Graph.Paths.Push.{unvisited, queued}
use tekbreed_oss.Graph.Paths.Trails.{Trail, start, Inv}
use tekbreed_oss.Graph.Paths.Shortest.{search-IsRight, IsRight}

unvisited-le : (ks visited : List String) → unvisited ks visited ≤ length ks
unfolding unvisited
unvisited-le [] visited = omega arith
unvisited-le (k ∷ ks) visited = ground (arith, unvisited-le ks visited)

size-keys {ℓ} : {V : Type ℓ} (m : JsMap.JsMap V) → length (JsMap.keys m) ≡ JsMap.size m
size-keys [] = refl
size-keys (e ∷ m) = ap suc (size-keys m)

module _ (F : Floats) (Node Rest : Type 0) (date_of : String → Option ℕ) (clock : ℕ)
    (lower : String → String) (s : Store F Node Rest) (query : GraphShortestPathQuery F.Float) where
  abbrev adjacent : String → Result GraphError (List (GraphNeighbor F Node Rest))
  adjacent = adjacent_nodes F Node Rest date_of clock lower s query

  abbrev id_of : GraphNeighbor F Node Rest → String
  id_of = neighbor_id F Node Rest date_of clock lower

  abbrev plus : F.Float × F.Float → GraphNeighbor F Node Rest → F.Float × F.Float
  plus = add_totals F Node Rest date_of clock lower

  abbrev PathStep : Type 0
  PathStep = Step (GraphNeighbor F Node Rest) (F.Float × F.Float)

  -- The steps lead from the query's start to a node, each along a neighbor of the one before.
  abbrev pub IsTrail : ℕ → List PathStep → String → ℕ → Type 0
  IsTrail max_depth = Trail id_of plus adjacent query.from query.to max_depth

  -- Every neighbor is a node of the store.
  adjacent_known :
      (u : String) (hs : List (GraphNeighbor F Node Rest))
      → adjacent u ≡ ok hs
      → All (λ (h : GraphNeighbor F Node Rest). includes (JsMap.keys s.nodes) (id_of h) ≡ true) hs
  unfolding adjacent_nodes
  adjacent_known u hs h =
      All-map hs (λ n p. ground (arith, includes-keys s.nodes n.node_id, p.4))
        (neighbors_sound F Node Rest date_of clock lower s _ h)

  start_invariant :
      (max_depth : ℕ)
      → Inv id_of plus adjacent query.from query.to max_depth
          (λ w. 0)
          (Paths.start id_of plus query.from (zero_totals F Node Rest date_of clock lower))
  unfolding includes queued
  start_invariant max_depth = record {
    source = (rw (eq_refl query.from) refl, refl);
    items = ((rw (eq_refl query.from) refl, refl, omega arith, start), tt);
    window = (tt, tt);
    near = λ w v. (omega arith, tt);
    closed = λ v h. inl (ground arith);
  }

  -- A search between stored nodes returns, with a right answer.
  fewest_hops-IsRight :
      (max_depth : ℕ)
      → JsMap.has s.nodes query.from ≡ true
      → JsMap.has s.nodes query.to ≡ true
      → validate_depth query.max_depth 8 32 ≡ ok max_depth
      → (answer : Result GraphError (Option (PathItem F Node Rest date_of clock lower)))
        × (fewest_hops_path F Node Rest date_of clock lower s query ≡ some answer)
        × IsRight id_of plus adjacent query.from query.to max_depth answer
  unfolding fewest_hops_path
  fewest_hops-IsRight max_depth f t d =
      let (answer, e, r) =
        search-IsRight id_of plus adjacent query.from query.to max_depth (JsMap.keys s.nodes)
          adjacent_known (JsMap.size s.nodes + 2) (λ w. 0)
          (Paths.start id_of plus query.from (zero_totals F Node Rest date_of clock lower))
          (start_invariant max_depth)
          (omega (arith, unvisited-le (JsMap.keys s.nodes) (query.from ∷ []), size-keys s.nodes)) in
      (answer, rw (f, t, d, fewest_hops_path) e, r)

  -- A path that is found is a trail to the target within the depth, and an error is one that
  -- neighbors throws for a node.
  abbrev pub IsSoundAnswer :
      ℕ → Result GraphError (Option (PathItem F Node Rest date_of clock lower)) → Type 0
  IsSoundAnswer max_depth (ok (some it)) =
      IsTrail max_depth it.steps query.to it.depth × (it.depth ≤ max_depth)
  IsSoundAnswer max_depth (ok none) = Unit {0}
  IsSoundAnswer max_depth (throw e) = (u : String) × (adjacent u ≡ throw e)

  -- A path is found, with at most this many hops, or neighbors throws for a node.
  abbrev pub IsAtMost :
      ℕ → Result GraphError (Option (PathItem F Node Rest date_of clock lower)) → Type 0
  IsAtMost n (ok (some it)) = it.depth ≤ n
  IsAtMost n (ok none) = ⊥
  IsAtMost n (throw e) = (u : String) × (adjacent u ≡ throw e)

  -- Between two stored nodes and with a valid maximum depth, fewestHopsPath ends without using up
  -- its fuel; a path that it returns is a trail along neighbors from the start to the target with
  -- at most that many hops, and an error that it throws is one that neighbors throws for some
  -- node.
  pub fewest_hops_path_sound :
      (max_depth : ℕ)
      → JsMap.has s.nodes query.from ≡ true
      → JsMap.has s.nodes query.to ≡ true
      → validate_depth query.max_depth 8 32 ≡ ok max_depth
      → (answer : Result GraphError (Option (PathItem F Node Rest date_of clock lower)))
        × (fewest_hops_path F Node Rest date_of clock lower s query ≡ some answer)
        × IsSoundAnswer max_depth answer
  fewest_hops_path_sound max_depth f t d =
      let (answer, e, r) = fewest_hops-IsRight max_depth f t d in (answer, e, sound answer r)
    where
      sound :
          (answer : Result GraphError (Option (PathItem F Node Rest date_of clock lower)))
          → IsRight id_of plus adjacent query.from query.to max_depth answer
          → IsSoundAnswer max_depth answer
      sound (throw e) r = r
      sound (ok none) r = tt
      sound (ok (some it)) r = (r.0, r.1)

  -- Between two stored nodes and with a valid maximum depth, if a trail along neighbors leads
  -- from the start to the target in n hops, n at most the depth, then fewestHopsPath returns a
  -- path of at most n hops, or throws an error that neighbors throws for some node.
  pub fewest_hops_path_fewest :
      (max_depth : ℕ) (steps : List PathStep) (n : ℕ)
      → JsMap.has s.nodes query.from ≡ true
      → JsMap.has s.nodes query.to ≡ true
      → validate_depth query.max_depth 8 32 ≡ ok max_depth
      → IsTrail max_depth steps query.to n
      → n ≤ max_depth
      → (answer : Result GraphError (Option (PathItem F Node Rest date_of clock lower)))
        × (fewest_hops_path F Node Rest date_of clock lower s query ≡ some answer)
        × IsAtMost n answer
  fewest_hops_path_fewest max_depth steps n f t d trail le =
      let (answer, e, r) = fewest_hops-IsRight max_depth f t d in (answer, e, fewest answer r)
    where
      fewest :
          (answer : Result GraphError (Option (PathItem F Node Rest date_of clock lower)))
          → IsRight id_of plus adjacent query.from query.to max_depth answer
          → IsAtMost n answer
      fewest (throw e) r = r
      fewest (ok none) r = omega (arith, r steps n trail)
      fewest (ok (some it)) r = r.2 steps n trail
