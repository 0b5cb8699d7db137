-- ===== src/Graph.antt =====
-- packages/tekmemo/src/graph/store/in-memory-graph-store.ts: nodes and edges, with three indices
-- from a node or a type to a set of edge ids. A call takes the store and gives the new one. A Set
-- of texts is a list in insertion order. The fields of nodes and edges that no operation here reads
-- are the type parameters `Node` and `Fields`.
pub mod Sets
pub mod Index
pub mod Keys
pub mod Reflected
pub mod Deletion
pub mod Refs
pub mod Normal
pub mod Normalize
pub mod Upserts
pub mod History
pub mod Filters
pub mod Neighbors
pub mod Metadata
pub mod Queries
pub mod Decay
pub mod Paths
mod Tests
use tekbreed_oss.Prelude.{
  ℕ, String, Bool, true, false, not, ◌||◌, ◌&&◌, Option, none, some, List, [], ◌∷◌, ◌++◌, ◌==◌,
  if◌then◌else◌, get_or, filter, includes, length, ltb,
}
use tekbreed_oss.Prelude.Result.{Result, ok, throw}
use tekbreed_oss.JsMap
use tekbreed_oss.JsMap.{JsMap}

pub record StoredGraphEdge (Fields : Type 0) : Type 0 where
  pub id : String
  pub from : String
  pub to : String
  pub type : String
  pub directed : Bool
  pub fields : Fields

-- The errors thrown: GraphConflictError ("Node … still has connected edges."), GraphNotFoundError
-- by the id, GraphValidationError by the field.
pub data GraphError : Type 0 where
  connected not_found invalid : String → GraphError

pub data GraphDirection : Type 0 where
  out into both : GraphDirection

-- Map<string, Set<string>>
abbrev pub Index : Type 0
Index = JsMap (List String)

pub record GraphStore (Node Fields : Type 0) : Type 0 where
  pub nodes : JsMap Node
  pub edges : JsMap (StoredGraphEdge Fields)
  pub outgoing : Index
  pub incoming : Index
  pub by_type : Index

-- Set.prototype.add, Set.prototype.delete, new Set(values)
unfoldable pub set_add : List String → String → List String
set_add s v = if includes s v then s else s ++ v ∷ []

unfoldable pub set_delete : List String → String → List String
set_delete s v = filter (λ w. not (w == v)) s

unfoldable pub set_of : List String → List String → List String
set_of s [] = s
set_of s (v ∷ values) = set_of (set_add s v) values

-- `index.get(key) ?? []`
abbrev pub ids_at : Index → String → List String
ids_at index key = get_or (JsMap.get index key) []

-- addToIndex
unfoldable pub add_to_index : Index → String → String → Index
add_to_index index key value = JsMap.set index key (set_add (ids_at index key) value)

abbrev pub is_empty : List String → Bool
is_empty [] = true
is_empty (v ∷ s) = false

-- removeFromIndex
unfoldable pub remove_from_index : Index → String → String → Index
remove_from_index index key value = elim (JsMap.get index key) [
  | none ↦ index
  | some s ↦
      let left = set_delete s value in
      if is_empty left then JsMap.delete index key else JsMap.set index key left
]

module _ {Node Fields : Type 0} where
  -- indexEdge
  unfoldable pub index_edge :
      GraphStore Node Fields → StoredGraphEdge Fields → GraphStore Node Fields
  index_edge s e =
      let outgoing = add_to_index s.outgoing e.from e.id in
      let incoming = add_to_index s.incoming e.to e.id in
      record s {
        by_type = add_to_index s.by_type e.type e.id;
        outgoing = if not e.directed then add_to_index outgoing e.to e.id else outgoing;
        incoming = if not e.directed then add_to_index incoming e.from e.id else incoming;
      }

  -- unindexEdge
  unfoldable pub unindex_edge :
      GraphStore Node Fields → StoredGraphEdge Fields → GraphStore Node Fields
  unindex_edge s e =
      let outgoing = remove_from_index s.outgoing e.from e.id in
      let incoming = remove_from_index s.incoming e.to e.id in
      record s {
        by_type = remove_from_index s.by_type e.type e.id;
        outgoing = if not e.directed then remove_from_index outgoing e.to e.id else outgoing;
        incoming = if not e.directed then remove_from_index incoming e.from e.id else incoming;
      }

  -- `if (existing) this.unindexEdge(existing)`
  abbrev pub unindex_existing :
      GraphStore Node Fields → Option (StoredGraphEdge Fields) → GraphStore Node Fields
  unindex_existing s none = s
  unindex_existing s (some e) = unindex_edge s e

  -- setEdge
  unfoldable pub set_edge : GraphStore Node Fields → StoredGraphEdge Fields → GraphStore Node Fields
  set_edge s e =
      let s' = unindex_existing s (JsMap.get s.edges e.id) in
      index_edge (record s' { edges = JsMap.set s'.edges e.id e }) e

  -- removeEdge, and deleteEdge, which returns what it returns
  unfoldable pub remove_edge : GraphStore Node Fields → String → Bool × GraphStore Node Fields
  remove_edge s id = elim (JsMap.get s.edges id) [
    | none ↦ (false, s)
    | some e ↦ let s' = unindex_edge s e in (true, record s' { edges = JsMap.delete s'.edges id })
  ]

  unfoldable pub remove_edges : GraphStore Node Fields → List String → GraphStore Node Fields
  remove_edges s [] = s
  remove_edges s (id ∷ ids) = remove_edges (remove_edge s id).1 ids

  -- connectedEdgeIds
  unfoldable pub connected_edge_ids : GraphStore Node Fields → String → List String
  connected_edge_ids s id = set_of [] (ids_at s.outgoing id ++ ids_at s.incoming id)

  -- deleteNode
  unfoldable pub delete_node :
      GraphStore Node Fields → String → Bool → Result GraphError Bool × GraphStore Node Fields
  delete_node s id cascade_edges =
      let ids = connected_edge_ids s id in
      let s' = record s { nodes = JsMap.delete s.nodes id } in
      let cascaded = remove_edges s' ids in
      if not (JsMap.has s.nodes id)
      then (ok false, s)
      else (if not cascade_edges && ltb 0 (length ids)
          then (throw (connected id), s)
          else (ok true, if cascade_edges then cascaded else s'))

  -- clear, and the maps of a new store
  unfoldable pub cleared : GraphStore Node Fields
  cleared = record { nodes = []; edges = []; outgoing = []; incoming = []; by_type = [] }

  -- getNode, getEdge
  unfoldable pub get_node : GraphStore Node Fields → String → Option Node
  get_node s id = JsMap.get s.nodes id

  unfoldable pub get_edge : GraphStore Node Fields → String → Option (StoredGraphEdge Fields)
  get_edge s id = JsMap.get s.edges id

  -- neighborEdgeIds
  unfoldable pub neighbor_edge_ids : GraphStore Node Fields → String → GraphDirection → List String
  neighbor_edge_ids s node out = ids_at s.outgoing node
  neighbor_edge_ids s node into = ids_at s.incoming node
  neighbor_edge_ids s node both = set_of [] (ids_at s.outgoing node ++ ids_at s.incoming node)

-- `direction === "out" || direction === "both"`, and the same with "in"
abbrev pub goes_out : GraphDirection → Bool
goes_out into = false
goes_out _ = true

abbrev pub goes_in : GraphDirection → Bool
goes_in out = false
goes_in _ = true

abbrev push_if : Bool → String × GraphDirection → List (String × GraphDirection)
push_if b c = if b then c ∷ [] else []

-- neighborCandidates: the node at the edge's other end, with the direction to it
unfoldable pub neighbor_candidates :
    {Fields : Type 0}
    → StoredGraphEdge Fields
    → String
    → GraphDirection
    → List (String × GraphDirection)
neighbor_candidates e node d =
    push_if (goes_out d && (e.from == node)) (e.to, out)
    ++ push_if (goes_in d && (e.to == node)) (e.from, into)
    ++ push_if (not e.directed && goes_out d && (e.to == node)) (e.from, out)
    ++ push_if (not e.directed && goes_in d && (e.from == node)) (e.to, into)
