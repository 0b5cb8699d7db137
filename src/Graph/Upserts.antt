-- ===== src/Graph/Upserts.antt =====
-- upsertNodes and upsertEdges of packages/tekmemo/src/graph/store/in-memory-graph-store.ts. A call
-- normalizes its whole batch before it writes anything.
pub mod Sound
pub mod Batch
pub mod Closed
pub mod Crowded
mod Tests
use tekbreed_oss.Prelude.{
  ℕ, String, Bool, true, false, not, ◌&&◌, ◌||◌, Option, none, some, List, [], ◌∷◌, ◌++◌, ◌==◌,
  if◌then◌else◌, get_or, includes, take, filter, is_some,
}
use Prim.Native.String.{◌++◌ as append}
use tekbreed_oss.Prelude.Floats.{Floats}
use tekbreed_oss.Prelude.Result.{Result, ok, throw, ◌>>=◌, ◌>>◌}
use tekbreed_oss.JsMap
use tekbreed_oss.JsMap.Bulk.{or_else}
use tekbreed_oss.Graph.{StoredGraphEdge, GraphStore, GraphError, invalid, not_found, set_edge}
use tekbreed_oss.Graph.Filters.{active, TemporalRecord}
use tekbreed_oss.Graph.Neighbors.{EdgeFields, NodeFields}
use tekbreed_oss.Graph.Queries.{EdgeRest, truthy}
use tekbreed_oss.Graph.Refs.{
  GraphTexts, refuse_if, clone_metadata, merge_metadata, clone_source_refs, merge_source_refs,
}
use tekbreed_oss.Graph.Normal.{
  GraphEdgeIdentityMode, GraphFact, GraphNode, GraphEdge, StoredRest, NodeRest, old, old_or,
  wrong_order, assert_graph_id, assert_dedupe_key, stable_edge_id, normalize_type,
  normalize_required_text, normalize_optional_text, normalize_aliases, unique_strings,
  build_edge_identity_salt,
}
use tekbreed_oss.Graph.Normalize.{
  StoreOptions, StoredEdge, StoredNode, Store, normalize_node, normalize_edge,
}

module _ (F : Floats) (texts : GraphTexts) (date_of : String → Option ℕ) (now : String) where
  module _ (options : StoreOptions) where
    -- resolveEdgeId
    unfoldable pub resolve_edge_id : GraphEdge F.Float → Result GraphError String
    resolve_edge_id edge = elim (truthy edge.id) [
      | some id ↦ ok id
      | none ↦ do preview ← normalize_edge F texts date_of now options none edge; ok preview.id
    ]

    -- the checks of `requireExistingNodes`
    abbrev pub assert_ends : Store F → GraphEdge F.Float → Result GraphError (Unit {0})
    assert_ends s edge =
        if not options.require_existing_nodes
        then ok tt
        else if not (JsMap.has s.nodes edge.from)
        then throw (not_found edge.from)
        else if not (JsMap.has s.nodes edge.to)
        then throw (not_found edge.to)
        else ok tt

    -- one round of upsertEdges up to the test of `seen`
    unfoldable pub current_edge : Store F → GraphEdge F.Float → Result GraphError (StoredEdge F)
    current_edge s edge = do
      _ ← assert_ends s edge
      id ← resolve_edge_id edge
      normalize_edge F texts date_of now options (JsMap.get s.edges id)
          (record edge { id = some (get_or edge.id id) })

    -- the loop over the batch; `seen` are the ids before
    unfoldable pub normalize_edges :
        Store F → List String → List (GraphEdge F.Float) → Result GraphError (List (StoredEdge F))
    normalize_edges s seen [] = ok []
    normalize_edges s seen (edge ∷ edges) = do
      current ← current_edge s edge
      _ ← refuse_if (includes seen current.id) "edge.id"
      rest ← normalize_edges s (current.id ∷ seen) edges
      ok (current ∷ rest)

    unfoldable pub set_edges : Store F → List (StoredEdge F) → Store F
    set_edges s [] = s
    set_edges s (e ∷ es) = set_edges (set_edge s e) es

    -- upsertEdges
    unfoldable pub upsert_edges :
        Store F → List (GraphEdge F.Float) → Result GraphError (List (StoredEdge F)) × Store F
    upsert_edges s edges = elim (normalize_edges s [] edges) [
      | throw error ↦ (throw error, s)
      | ok normalized ↦ (ok normalized, set_edges s normalized)
    ]

  -- the loop over the batch of upsertNodes
  unfoldable pub normalize_nodes :
      Store F → List String → List (GraphNode F.Float) → Result GraphError (List (StoredNode F))
  normalize_nodes s seen [] = ok []
  normalize_nodes s seen (node ∷ nodes) = do
    current ← normalize_node F texts date_of now (JsMap.get s.nodes node.id) node
    _ ← refuse_if (includes seen current.rest.id) "node.id"
    rest ← normalize_nodes s (current.rest.id ∷ seen) nodes
    ok (current ∷ rest)

  unfoldable pub set_nodes : Store F → List (StoredNode F) → Store F
  set_nodes s [] = s
  set_nodes s (n ∷ ns) = set_nodes (record s { nodes = JsMap.set s.nodes n.rest.id n }) ns

  -- upsertNodes
  unfoldable pub upsert_nodes :
      Store F → List (GraphNode F.Float) → Result GraphError (List (StoredNode F)) × Store F
  upsert_nodes s nodes = elim (normalize_nodes s [] nodes) [
    | throw error ↦ (throw error, s)
    | ok normalized ↦ (ok normalized, set_nodes s normalized)
  ]
