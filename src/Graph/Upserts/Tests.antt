-- ===== src/Graph/Upserts/Tests.antt =====
-- Upserts on a small graph, with whole weights and texts left as they are.
use Prim.Native.String.{◌++◌ as append}
use tekbreed_oss.Prelude.{
  ℕ, zero, suc, String, ◌≡◌, refl, true, false, Option, none, some, List, [], ◌∷◌, ◌++◌, arith,
  length, includes,
}
use tekbreed_oss.Prelude.Codes.{codes, contains}
use tekbreed_oss.Prelude.Number.{JsNumber, pos}
use tekbreed_oss.Prelude.Result.{throw}
use tekbreed_oss.Prelude.Whole.{whole}
use tekbreed_oss.JsMap
use tekbreed_oss.Graph
use tekbreed_oss.Graph.{GraphError, cleared}
use tekbreed_oss.Graph.Filters.{active}
use tekbreed_oss.Graph.Refs
use tekbreed_oss.Graph.Refs.{GraphTexts, GraphSourceRef}
use tekbreed_oss.Graph.Normal
use tekbreed_oss.Graph.Normal.{canonical, GraphFact, GraphNode, GraphEdge}
use tekbreed_oss.Graph.Upserts
use tekbreed_oss.Graph.Normalize
use tekbreed_oss.Graph.Normalize.{StoreOptions, StoredEdge, Store}
use tekbreed_oss.Graph.Upserts.{upsert_edges, upsert_nodes}
use tekbreed_oss.Graph.Upserts.Closed
use tekbreed_oss.Graph.Upserts.Batch.{Upserted, upsert_edges_lem}
use tekbreed_oss.Graph.Upserts.Closed.{
  Call, upsert_nodes_call, upsert_edges_call, delete_node_call, run, IsClosed, reachable-IsClosed,
}
use tekbreed_oss.Graph.Upserts.Crowded.{upsert_edges_crowded}

abbrev dashes : ℕ → String
dashes zero = ""
dashes (suc n) = append "-" (dashes n)

abbrev number_text : JsNumber → String
number_text (pos n) = dashes n
number_text _ = "?"

abbrev texts : GraphTexts
texts = record {
  size = λ s. length (codes s);
  units = codes;
  trim = λ s. s;
  lower = λ s. s;
  safe_type = λ s. s;
  is_safe_id = λ s. true;
  has_protocol = λ s. false;
  split_slashes = λ s. s ∷ [];
  protocol_of = λ s. none;
  sort = λ l. l;
  show = number_text;
  hex = dashes;
}

abbrev a_date : String → Option ℕ
a_date s = some 0

abbrev options : StoreOptions
options = record {
  allow_self_edges = false;
  require_existing_nodes = true;
  edge_identity_mode = canonical;
}

abbrev refs_from : ℕ → ℕ → List GraphSourceRef
refs_from start zero = []
refs_from start (suc n) =
    record {
      source_type = "memory";
      source_id = some (dashes start);
      path = none;
      title = none;
      url = none;
      span = none;
      metadata = none;
    }
    ∷ refs_from (suc start) n

abbrev fact : Option (List GraphSourceRef) → GraphFact ℕ
fact refs = record {
  confidence = none;
  status = none;
  valid_from = none;
  valid_until = none;
  expires_at = none;
  source_refs = refs;
  created_at = none;
  updated_at = none;
  metadata = none;
}

abbrev node : String → GraphNode ℕ
node id = record {
  id = id;
  type = "tool";
  label = id;
  aliases = none;
  summary = none;
  importance = some 1;
  fact = fact none;
}

abbrev uses : String → String → Option (List GraphSourceRef) → GraphEdge ℕ
uses from to refs = record {
  id = some "e";
  from = from;
  to = to;
  type = "uses";
  directed = none;
  dedupe_key = none;
  weight = some 1;
  fact = fact refs;
}

abbrev two_nodes : Call ℕ
two_nodes = upsert_nodes_call "now" (node "a" ∷ node "b" ∷ [])

-- The third call is refused: no such node.
abbrev calls : List (Call ℕ)
calls =
    two_nodes
    ∷ upsert_edges_call "now" (uses "a" "b" none ∷ [])
    ∷ upsert_edges_call "now" (uses "a" "c" none ∷ [])
    ∷ delete_node_call "b" true
    ∷ []

reachable-IsClosed_example :
    IsClosed whole texts a_date options (run whole texts a_date options cleared calls)
reachable-IsClosed_example = reachable-IsClosed whole texts a_date options calls refl

abbrev nodes_only : Store whole
nodes_only = run whole texts a_date options cleared (two_nodes ∷ [])

upsert_edges_lem_example :
    Upserted whole texts a_date "now" options nodes_only
      (uses "a" "b" none ∷ [])
      (upsert_edges whole texts a_date "now" options nodes_only (uses "a" "b" none ∷ []))
upsert_edges_lem_example =
    upsert_edges_lem whole texts a_date "now" options nodes_only (uses "a" "b" none ∷ [])
      (reachable-IsClosed whole texts a_date options (two_nodes ∷ []) refl).0

abbrev crowded_edge : StoredEdge whole
crowded_edge = record {
  id = "e";
  from = "a";
  to = "b";
  type = "uses";
  directed = true;
  fields = record {
    temporal = record { status = active; valid_from = none; valid_until = none; expires_at = none };
    weight = 1;
    rest = record {
      metadata = none;
      updated_at = "now";
      rest = record {
        dedupe_key = none;
        confidence = 1;
        source_refs = some (refs_from 0 34);
        created_at = "now";
      };
    };
  };
}

abbrev crowded_store : Store whole
crowded_store = record {
  nodes = nodes_only.nodes;
  edges = ("e", crowded_edge) ∷ [];
  outgoing = ("a", "e" ∷ []) ∷ [];
  incoming = ("b", "e" ∷ []) ∷ [];
  by_type = ("uses", "e" ∷ []) ∷ [];
}

crowded_stored : JsMap.get crowded_store.edges "e" ≡ some crowded_edge
unfolding JsMap.get
crowded_stored = refl

upsert_edges_crowded_example :
    (error : GraphError) × (upsert_edges whole texts a_date "now" options crowded_store
        ([] ++ uses "a" "b" none ∷ [])
      ≡ (throw error, crowded_store))
upsert_edges_crowded_example =
    upsert_edges_crowded whole texts a_date "now" options crowded_store [] [] (uses "a" "b" none)
      "e" crowded_edge (refs_from 0 34) refl crowded_stored refl (omega arith)

-- Two calls with 17 references each are accepted and lead to such a store.
two_upserts :
    run whole texts a_date options cleared (
      two_nodes
      ∷ upsert_edges_call "now" (uses "a" "b" (some (refs_from 0 17)) ∷ [])
      ∷ upsert_edges_call "now" (uses "a" "b" (some (refs_from 17 17)) ∷ [])
      ∷ [])
    ≡ crowded_store
unfolding run Closed.step upsert_edges upsert_nodes cleared JsMap.get JsMap.set includes contains
    Upserts.normalize_edges Upserts.current_edge Upserts.normalize_nodes Normalize.normalize_node
    Normalize.assert_dates Normalize.assert_temporal_fields Normalize.merged_node
    Normalize.edge_fields Normalize.edge_id Normalize.normalize_edge Upserts.resolve_edge_id
    Upserts.set_edges Upserts.set_nodes Normal.assert_graph_id Normal.normalize_type
    Normal.normalize_required_text Normal.normalize_aliases Normal.assert_dedupe_key
    Normal.unique_strings Refs.clone_source_refs Refs.merge_source_refs Refs.add_groups
    Refs.add_refs Refs.clone_each Refs.clone_metadata Refs.clone_source_ref Refs.merge_metadata
    Refs.source_ref_identity Graph.add_to_index Graph.index_edge Graph.set_add Graph.set_edge
    Graph.unindex_edge Graph.remove_from_index Graph.set_delete JsMap.delete
two_upserts = refl
