-- ===== src/Graph/Neighbors.antt =====
-- neighbors of packages/tekmemo/src/graph/store/in-memory-graph-store.ts. `lower` is toLowerCase.
-- The stored node is known by the key that it stands under, which is its id.
pub mod Sound
use Prim.Native.String.{◌++◌ as append}
use tekbreed_oss.Prelude.{
  ℕ, String, Bool, true, false, not, ◌&&◌, Option, none, some, List, [], ◌∷◌, ◌++◌, map, leb,
  if◌then◌else◌, get_or, includes, length,
}
use tekbreed_oss.Prelude.Floats.{Floats}
use tekbreed_oss.Prelude.Number.{JsNumber}
use tekbreed_oss.Prelude.Result.{Result, ok, throw, ◌>>=◌}
use tekbreed_oss.JsMap
use tekbreed_oss.Graph.{
  StoredGraphEdge, GraphStore, GraphError, GraphDirection, out, into, both, not_found,
  neighbor_edge_ids, neighbor_candidates,
}
use tekbreed_oss.Graph.Filters.{
  GraphFactStatus, TemporalRecord, is_inactive, expired_out, validate_limit, type_out, status_out,
  weight_out,
}

-- The fields that the queries read of an edge, and the type `Rest` of the others.
pub record EdgeFields (Float Rest : Type 0) : Type 0 where
  pub temporal : TemporalRecord
  pub weight : Float
  pub rest : Rest

pub record NodeFields (Rest : Type 0) : Type 0 where
  pub temporal : TemporalRecord
  pub rest : Rest

-- The options that GraphNeighborQuery and GraphShortestPathQuery share.
pub record GraphFilter (Float : Type 0) : Type 0 where
  pub edge_types : Option (List String)
  pub statuses : Option (List GraphFactStatus)
  pub min_weight : Option Float
  pub include_inactive : Bool
  pub include_expired : Bool
  pub now : Option String

pub record GraphNeighborQuery (Float : Type 0) : Type 0 where
  pub node_id : String
  pub direction : Option GraphDirection
  pub filter : GraphFilter Float
  pub limit : Option JsNumber

-- `"in"` and `"out"` as texts
abbrev direction_text : GraphDirection → String
direction_text out = "out"
direction_text into = "in"
direction_text both = "both"

module _ (F : Floats) (Node Rest : Type 0) where
  abbrev pub Edge : Type 0
  Edge = StoredGraphEdge (EdgeFields F.Float Rest)

  abbrev pub Store : Type 0
  Store = GraphStore (NodeFields Node) (EdgeFields F.Float Rest)

  pub record GraphNeighbor : Type 0 where
    pub node_id : String
    pub node : NodeFields Node
    pub edge : Edge
    pub direction : GraphDirection

  -- `out` and `seen`; `full` once `out` has reached the limit
  pub record Found : Type 0 where
    pub out : List GraphNeighbor
    pub seen : List String
    pub full : Bool

module _ (F : Floats) (Node Rest : Type 0) (date_of : String → Option ℕ) (clock : ℕ)
    (lower : String → String) where
  -- `query.edgeTypes.map(toLowerCase)`, as a set
  abbrev pub lower_types : Option (List String) → Option (List String)
  lower_types none = none
  lower_types (some types) = some (map lower types)

  -- the tests of an edge
  unfoldable pub edge_passes : GraphFilter F.Float → Edge F Node Rest → Result GraphError Bool
  edge_passes q e =
      if not q.include_inactive && is_inactive e.fields.temporal then ok false else (do
        expired ← expired_out date_of clock q.include_expired e.fields.temporal q.now
        ok (
            not expired
            && not (type_out (lower_types q.edge_types) e.type)
            && not (status_out q.statuses e.fields.temporal.status)
            && not (weight_out F q.min_weight e.fields.weight)))

  -- the tests of a node
  unfoldable pub node_passes : GraphFilter F.Float → NodeFields Node → Result GraphError Bool
  node_passes q n = if not q.include_inactive && is_inactive n.temporal then ok false else (do
    expired ← expired_out date_of clock q.include_expired n.temporal q.now
    ok (not expired))

  -- `${edge.id}:${candidate.direction}:${node.id}`
  abbrev pub neighbor_key : Edge F Node Rest → String × GraphDirection → String
  neighbor_key e (id, d) = append e.id (append ":" (append (direction_text d) (append ":" id)))

  -- one candidate that has a node which passes
  unfoldable pub add_neighbor :
      ℕ
      → Edge F Node Rest
      → String × GraphDirection
      → NodeFields Node
      → Found F Node Rest
      → Found F Node Rest
  add_neighbor limit e (id, d) n found =
      if includes found.seen (neighbor_key e (id, d))
      then found
      else (let out' =
            found.out ++ record { node_id = id; node = n; edge = e; direction = d } ∷ [] in
          record {
            out = out';
            seen = neighbor_key e (id, d) ∷ found.seen;
            full = leb limit (length out');
          })

  -- the loop over the candidates of an edge
  unfoldable pub add_candidates :
      Store F Node Rest
      → GraphFilter F.Float
      → ℕ
      → Edge F Node Rest
      → List (String × GraphDirection)
      → Found F Node Rest
      → Result GraphError (Found F Node Rest)
  add_candidates s q limit e [] found = ok found
  add_candidates s q limit e (c ∷ cs) found =
      let skip = add_candidates s q limit e cs found in
      let next = λ (found' : Found F Node Rest). add_candidates s q limit e cs found' in
      if found.full then ok found else elim (JsMap.get s.nodes c.0) [
        | none ↦ skip
        | some n ↦ do
          passes ← node_passes q n
          if passes then next (add_neighbor limit e c n found) else next found
      ]

  -- the loop over the edge ids
  unfoldable pub add_edges :
      Store F Node Rest
      → String
      → GraphDirection
      → GraphFilter F.Float
      → ℕ
      → List String
      → Found F Node Rest
      → Result GraphError (Found F Node Rest)
  add_edges s node d q limit [] found = ok found
  add_edges s node d q limit (id ∷ ids) found =
      let next = λ (found' : Found F Node Rest). add_edges s node d q limit ids found' in
      if found.full then ok found else elim (JsMap.get s.edges id) [
        | none ↦ next found
        | some e ↦ do
          passes ← edge_passes q e
          if passes
              then (do
                found' ← add_candidates s q limit e (neighbor_candidates e node d) found
                next found')
              else next found
      ]

  -- neighbors
  unfoldable pub neighbors :
      Store F Node Rest
      → GraphNeighborQuery F.Float
      → Result GraphError (List (GraphNeighbor F Node Rest))
  neighbors s query =
      let d = get_or query.direction both in
      if not (JsMap.has s.nodes query.node_id) then throw (not_found query.node_id) else (do
        limit ← validate_limit query.limit 100 10000
        found ←
            add_edges s query.node_id d query.filter limit (neighbor_edge_ids s query.node_id d)
              (record { out = []; seen = []; full = false })
        ok found.out)
