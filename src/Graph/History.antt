-- ===== src/Graph/History.antt =====
-- Sequences of writes to a store of in-memory-graph-store.ts.
use tekbreed_oss.Prelude.{String, refl, Bool, List, [], ◌∷◌, includes}
use tekbreed_oss.JsMap
use tekbreed_oss.JsMap.{has}
use tekbreed_oss.Graph.{StoredGraphEdge, GraphStore, set_edge, remove_edge, delete_node, cleared}
use tekbreed_oss.Graph.Reflected.{IsReflected, set_edge-IsReflected, remove_edge-IsReflected}
use tekbreed_oss.Graph.Deletion.{delete_node-IsReflected}

-- A write: setEdge, deleteEdge, deleteNode, clear.
pub data Call (Fields : Type 0) : Type 0 where
  set_edge_call : StoredGraphEdge Fields → Call Fields
  delete_edge_call : String → Call Fields
  delete_node_call : String → Bool → Call Fields
  clear_call : Call Fields

pub cleared-IsReflected :
    (Node Fields : Type 0) → IsReflected (cleared {Node = Node} {Fields = Fields})
unfolding cleared JsMap.get includes
cleared-IsReflected Node Fields k i = (refl, refl, refl, refl)

module _ {Node Fields : Type 0} where
  unfoldable pub step : GraphStore Node Fields → Call Fields → GraphStore Node Fields
  step s (set_edge_call e) = set_edge s e
  step s (delete_edge_call id) = (remove_edge s id).1
  step s (delete_node_call id cascade_edges) = (delete_node s id cascade_edges).1
  step s clear_call = cleared

  unfoldable pub run : GraphStore Node Fields → List (Call Fields) → GraphStore Node Fields
  run s [] = s
  run s (call ∷ calls) = run (step s call) calls

  step-IsReflected :
      (s : GraphStore Node Fields) (call : Call Fields) → IsReflected s → IsReflected (step s call)
  unfolding step
  step-IsReflected s (set_edge_call e) r = set_edge-IsReflected s e r
  step-IsReflected s (delete_edge_call id) r = remove_edge-IsReflected s id r
  step-IsReflected s (delete_node_call id cascade_edges) r =
      delete_node-IsReflected s id cascade_edges r
  step-IsReflected s clear_call r = cleared-IsReflected Node Fields

  run-IsReflected :
      (s : GraphStore Node Fields) (calls : List (Call Fields))
      → IsReflected s
      → IsReflected (run s calls)
  unfolding run
  run-IsReflected s [] r = r
  run-IsReflected s (call ∷ calls) r =
      run-IsReflected (step s call) calls (step-IsReflected s call r)

-- After any sequence of setEdge, deleteEdge, deleteNode and clear from an empty store, an edge id
-- is in an index under a key exactly if the store has an edge with that id that leaves the node,
-- enters it, or has the type, an undirected edge counting at both ends; and every edge stands
-- under its own id.
pub reachable-IsReflected :
    (Node : Type 0) {Fields : Type 0} (calls : List (Call Fields))
    → IsReflected (run (cleared {Node = Node}) calls)
reachable-IsReflected Node {Fields} calls =
    run-IsReflected cleared calls (cleared-IsReflected Node Fields)
