-- ===== src/Graph/Paths/Tests.antt =====
-- fewestHopsPath on a small graph.
use mathlib.Core.List.Memᴰ
use tekbreed_oss.Prelude.{
  ℕ, String, ◌≡◌, refl, true, false, Option, none, some, List, [], ◌∷◌, All, arith, includes,
}
use tekbreed_oss.Prelude.Whole.{whole}
use tekbreed_oss.Prelude.Number.{pos}
use tekbreed_oss.Prelude.Result.{Result, ok}
use tekbreed_oss.JsMap
use tekbreed_oss.Graph.{GraphError, out, neighbor_edge_ids, neighbor_candidates}
use tekbreed_oss.Graph.Filters.{
  TemporalRecord, active, validate_depth, validate_limit, is_inactive, is_expired,
}
use tekbreed_oss.Graph.Neighbors.{
  Edge, Store, NodeFields, GraphFilter, GraphNeighbor, GraphNeighborQuery, neighbors, add_edges,
  add_candidates, add_neighbor, edge_passes, node_passes,
}
use tekbreed_oss.Graph.Neighbors.Sound.{IsNeighbor, neighbors_sound}
use tekbreed_oss.Graph.Paths.{
  Step, GraphShortestPathQuery, fewest_hops_path, adjacent_nodes, PathItem,
}
use tekbreed_oss.Graph.Paths.Trails.{start, extend}
use tekbreed_oss.Graph.Paths.Fewest.{
  IsTrail, IsSoundAnswer, IsAtMost, fewest_hops_path_sound, fewest_hops_path_fewest,
}

abbrev no_date : String → Option ℕ
no_date s = none

abbrev same : String → String
same s = s

abbrev always : TemporalRecord
always = record { status = active; valid_from = none; valid_until = none; expires_at = none }

abbrev node : NodeFields ℕ
node = record { temporal = always; rest = 0 }

abbrev edge : String → String → String → Edge whole ℕ ℕ
edge id from to = record {
  id = id;
  from = from;
  to = to;
  type = "uses";
  directed = true;
  fields = record { temporal = always; weight = 1; rest = 0 };
}

abbrev store : Store whole ℕ ℕ
store = record {
  nodes = ("a", node) ∷ ("b", node) ∷ ("c", node) ∷ [];
  edges = ("e", edge "e" "a" "b") ∷ ("f", edge "f" "b" "c") ∷ [];
  outgoing = ("a", "e" ∷ []) ∷ ("b", "f" ∷ []) ∷ [];
  incoming = ("b", "e" ∷ []) ∷ ("c", "f" ∷ []) ∷ [];
  by_type = ("uses", "e" ∷ "f" ∷ []) ∷ [];
}

abbrev all : GraphFilter ℕ
all = record {
  edge_types = none;
  statuses = none;
  min_weight = none;
  include_inactive = false;
  include_expired = false;
  now = none;
}

abbrev query : GraphShortestPathQuery ℕ
query = record { from = "a"; to = "b"; direction = none; filter = all; max_depth = some (pos 2) }

abbrev hop : GraphNeighbor whole ℕ ℕ
hop = record { node_id = "b"; node = node; edge = edge "e" "a" "b"; direction = out }

abbrev request : GraphNeighborQuery ℕ
request = record { node_id = "a"; direction = some out; filter = all; limit = some (pos 10000) }

neighbors_of_a : neighbors whole ℕ ℕ no_date 0 same store request ≡ ok (hop ∷ [])
unfolding neighbors validate_limit JsMap.get neighbor_edge_ids add_edges edge_passes is_inactive
    is_expired neighbor_candidates add_candidates node_passes add_neighbor includes
neighbors_of_a = refl

neighbors_sound_example : All (IsNeighbor whole ℕ ℕ no_date 0 same store "a" out all) (hop ∷ [])
neighbors_sound_example = neighbors_sound whole ℕ ℕ no_date 0 same store request neighbors_of_a

depth_two : validate_depth query.max_depth 8 32 ≡ ok 2
unfolding validate_depth
depth_two = refl

has_ends : (JsMap.has store.nodes "a" ≡ true) × (JsMap.has store.nodes "b" ≡ true)
unfolding JsMap.get
has_ends = (refl, refl)

adjacent_to_a : adjacent_nodes whole ℕ ℕ no_date 0 same store query "a" ≡ ok (hop ∷ [])
unfolding adjacent_nodes
adjacent_to_a = neighbors_of_a

abbrev steps : List (Step (GraphNeighbor whole ℕ ℕ) (ℕ × ℕ))
steps = record { node = "a"; via = none } ∷ record { node = "b"; via = some hop } ∷ []

a_to_b : IsTrail whole ℕ ℕ no_date 0 same store query 2 steps "b" 1
a_to_b = extend start adjacent_to_a (Memᴰ.head refl)

fewest_hops_path_sound_example :
    (answer : Result GraphError (Option (PathItem whole ℕ ℕ no_date 0 same))) × (fewest_hops_path
        whole ℕ ℕ no_date 0 same store query
      ≡ some answer)
    × IsSoundAnswer whole ℕ ℕ no_date 0 same store query 2 answer
fewest_hops_path_sound_example =
    fewest_hops_path_sound whole ℕ ℕ no_date 0 same store query 2 has_ends.0 has_ends.1 depth_two

fewest_hops_path_fewest_example :
    (answer : Result GraphError (Option (PathItem whole ℕ ℕ no_date 0 same))) × (fewest_hops_path
        whole ℕ ℕ no_date 0 same store query
      ≡ some answer)
    × IsAtMost whole ℕ ℕ no_date 0 same store query 1 answer
fewest_hops_path_fewest_example =
    fewest_hops_path_fewest whole ℕ ℕ no_date 0 same store query 2 steps 1 has_ends.0 has_ends.1
      depth_two a_to_b (omega arith)
