-- ===== src/Graph/Paths.antt =====
-- fewestHopsPath of packages/tekmemo/src/graph/store/in-memory-graph-store.ts. The loop runs on
-- fuel and gives `none` where that is used up. `adjacent` is the call of neighbors for a node with
-- the query's options, and `sum` adds an edge to a path's weight and cost.
pub mod Push
pub mod Search
pub mod Trails
pub mod Expand
pub mod Shortest
pub mod Fewest
mod Tests
use tekbreed_oss.Prelude.{
  ℕ, zero, suc, ◌+◌, String, Bool, true, false, not, Option, none, some, List, [], ◌∷◌, ◌++◌, ◌==◌,
  leb, if◌then◌else◌, get_or, includes, length,
}
use tekbreed_oss.Prelude.Floats.{Floats}
use tekbreed_oss.Prelude.Number.{JsNumber, pos}
use tekbreed_oss.Prelude.Result.{Result, ok, throw, ◌>>=◌}
use tekbreed_oss.JsMap
use tekbreed_oss.Graph.{GraphError, GraphDirection, out, not_found}
use tekbreed_oss.Graph.Filters.{validate_depth}
use tekbreed_oss.Graph.Neighbors.{Edge, Store, GraphFilter, GraphNeighbor, NodeFields, neighbors}

module _ (Hop Sum : Type 0) where
  -- GraphPathStep: a node, and the neighbor that led to it
  pub record Step : Type 0 where
    pub node : String
    pub via : Option Hop

  -- PathQueueItem; `totals` has totalWeight and totalCost
  pub record PathQueueItem : Type 0 where
    pub node_id : String
    pub steps : List Step
    pub totals : Sum
    pub depth : ℕ

  -- The queue and the set of visited nodes.
  pub record Frontier : Type 0 where
    pub queue : List PathQueueItem
    pub visited : List String

module _ {Hop Sum : Type 0} (target : Hop → String) (add_hop : Sum → Hop → Sum) where
  abbrev pub item_after : PathQueueItem Hop Sum → Hop → PathQueueItem Hop Sum
  item_after current h = record {
    node_id = target h;
    steps = current.steps ++ record { node = target h; via = some h } ∷ [];
    totals = add_hop current.totals h;
    depth = current.depth + 1;
  }

  -- the loop over the neighbors
  unfoldable pub push_hops : PathQueueItem Hop Sum → List Hop → Frontier Hop Sum → Frontier Hop Sum
  push_hops current [] f = f
  push_hops current (h ∷ hs) f = push_hops current hs (
      if includes f.visited (target h)
      then f
      else record { queue = f.queue ++ item_after current h ∷ []; visited = target h ∷ f.visited })

  module _ (adjacent : String → Result GraphError (List Hop)) (to : String) (max_depth : ℕ) where
    -- the `while` loop
    unfoldable pub search_from :
        ℕ → Frontier Hop Sum → Option (Result GraphError (Option (PathQueueItem Hop Sum)))
    search_from zero f = none
    search_from (suc fuel) f = elim f.queue [
      | [] ↦ some (ok none)
      | current ∷ rest ↦
          let f' = record f { queue = rest } in
          let skipped = search_from fuel f' in
          if current.node_id == to
          then some (ok (some current))
          else if leb max_depth current.depth
          then skipped
          else elim (adjacent current.node_id) [
            | throw e ↦ some (throw e)
            | ok hs ↦ search_from fuel (push_hops current hs f')
          ]
    ]

  abbrev pub start : String → Sum → Frontier Hop Sum
  start from zero_sum = record {
    queue =
        record {
          node_id = from;
          steps = record { node = from; via = none } ∷ [];
          totals = zero_sum;
          depth = 0;
        }
        ∷ [];
    visited = from ∷ [];
  }

-- GraphShortestPathQuery
pub record GraphShortestPathQuery (Float : Type 0) : Type 0 where
  pub from : String
  pub to : String
  pub direction : Option GraphDirection
  pub filter : GraphFilter Float
  pub max_depth : Option JsNumber

module _ (F : Floats) (Node Rest : Type 0) (date_of : String → Option ℕ) (clock : ℕ)
    (lower : String → String) where
  -- edgeCost
  abbrev pub edge_cost : Edge F Node Rest → F.Float
  edge_cost e = F.sub (F.of_nat 1) e.fields.weight

  abbrev pub neighbor_id : GraphNeighbor F Node Rest → String
  neighbor_id n = n.node_id

  -- totalWeight and totalCost
  abbrev pub add_totals : F.Float × F.Float → GraphNeighbor F Node Rest → F.Float × F.Float
  add_totals (weight, cost) n = (F.add weight n.edge.fields.weight, F.add cost (edge_cost n.edge))

  -- the call of neighbors in the loop
  unfoldable pub adjacent_nodes :
      Store F Node Rest
      → GraphShortestPathQuery F.Float
      → String
      → Result GraphError (List (GraphNeighbor F Node Rest))
  adjacent_nodes s query u = neighbors F Node Rest date_of clock lower s (record {
    node_id = u;
    direction = some (get_or query.direction out);
    filter = query.filter;
    limit = some (pos 10000);
  })

  abbrev pub PathItem : Type 0
  PathItem = PathQueueItem (GraphNeighbor F Node Rest) (F.Float × F.Float)

  abbrev pub zero_totals : F.Float × F.Float
  zero_totals = (F.of_nat 0, F.of_nat 0)

  -- fewestHopsPath; a path is the item of the queue that reached the target
  unfoldable pub fewest_hops_path :
      Store F Node Rest
      → GraphShortestPathQuery F.Float
      → Option (Result GraphError (Option PathItem))
  fewest_hops_path s query =
      if not (JsMap.has s.nodes query.from)
      then some (throw (not_found query.from))
      else if not (JsMap.has s.nodes query.to)
      then some (throw (not_found query.to))
      else elim (validate_depth query.max_depth 8 32) [
        | throw e ↦ some (throw e)
        | ok max_depth ↦
            search_from neighbor_id add_totals (adjacent_nodes s query) query.to max_depth
              (JsMap.size s.nodes + 2) (start neighbor_id add_totals query.from zero_totals)
      ]
