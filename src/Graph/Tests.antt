-- ===== src/Graph/Tests.antt =====
-- A small graph of in-memory-graph-store.ts.
use tekbreed_oss.Prelude.{
  ℕ, String, ◌≡◌, refl, Bool, true, false, none, List, [], ◌∷◌, if◌then◌else◌,
}
use tekbreed_oss.Prelude.Result.{ok}
use tekbreed_oss.JsMap
use tekbreed_oss.Graph.{
  StoredGraphEdge, GraphStore, cleared, delete_node, get_node, get_edge, set_edge, unindex_edge,
  index_edge, remove_edge,
}
use tekbreed_oss.Graph.Keys.{edge_has}
use tekbreed_oss.Graph.Reflected.{IsReflected}
use tekbreed_oss.Graph.Deletion.{touches, delete_node_cascades}
use tekbreed_oss.Graph.History
use tekbreed_oss.Graph.History.{
  Call, set_edge_call, delete_edge_call, delete_node_call, clear_call, run, reachable-IsReflected,
}

abbrev edge : String → String → String → Bool → StoredGraphEdge ℕ
edge id from to directed = record {
  id = id;
  from = from;
  to = to;
  type = "uses";
  directed = directed;
  fields = 0;
}

abbrev writes : List (Call ℕ)
writes =
    set_edge_call (edge "e" "a" "b" true)
    ∷ set_edge_call (edge "f" "c" "a" false)
    ∷ set_edge_call (edge "e" "b" "c" true)
    ∷ set_edge_call (edge "g" "a" "a" true)
    ∷ delete_edge_call "h"
    ∷ delete_node_call "d" true
    ∷ []

abbrev written : GraphStore String ℕ
written = run cleared writes

-- The indices do not look at the nodes.
abbrev graph : GraphStore String ℕ
graph = record written { nodes = ("a", "A") ∷ ("b", "B") ∷ ("c", "C") ∷ [] }

graph-IsReflected : IsReflected graph
graph-IsReflected = reachable-IsReflected String writes

graph-has_a : JsMap.has graph.nodes "a" ≡ true
unfolding JsMap.get
graph-has_a = refl

f_touches_a : edge_has (touches "a") (get_edge graph "f") ≡ true
unfolding JsMap.get get_edge run History.step delete_node remove_edge set_edge index_edge JsMap.set
    cleared unindex_edge
f_touches_a = refl

delete_node_cascades_example :
    let (answer, s') = delete_node graph "a" true in
    (answer ≡ ok true)
    × (get_node s' "c" ≡ get_node graph "c")
    × (get_edge s' "f"
        ≡ (if edge_has (touches "a") (get_edge graph "f") then none else get_edge graph "f"))
    × IsReflected s'
delete_node_cascades_example = delete_node_cascades graph "a" "c" "f" graph-IsReflected graph-has_a
