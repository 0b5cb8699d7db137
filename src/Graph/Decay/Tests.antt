-- ===== src/Graph/Decay/Tests.antt =====
-- queryEdges and decayEdges on a small graph.
use tekbreed_oss.Prelude.{
  ℕ, String, ◌≡◌, refl, true, false, Option, none, some, List, [], ◌∷◌, All, includes,
}
use tekbreed_oss.Prelude.Whole.{whole}
use tekbreed_oss.Prelude.Json.{Json}
use tekbreed_oss.Prelude.Result.{ok}
use tekbreed_oss.JsMap
use tekbreed_oss.Graph.{cleared, set_edge, index_edge, add_to_index, set_add}
use tekbreed_oss.Graph.Filters.{TemporalRecord, active, validate_limit, is_inactive, is_expired}
use tekbreed_oss.Graph.Metadata.{matches_metadata_filter}
use tekbreed_oss.Graph.Neighbors.{edge_passes}
use tekbreed_oss.Graph.History
use tekbreed_oss.Graph.History.{set_edge_call, run, reachable-IsReflected}
use tekbreed_oss.Graph.Queries.{
  QueryStore, QueryEdge, GraphEdgeQuery, query_edges, collect_edges, edge_matches,
  edge_query_candidate_ids,
}
use tekbreed_oss.Graph.Reflected.{IsReflected}
use tekbreed_oss.Graph.Decay.{
  GraphDecayInput, decay_edges, decay_all, decay_edge, after, decay_edges_lem,
}
use tekbreed_oss.Graph.Queries.Collect.{IsMatch}
use tekbreed_oss.Graph.Queries.Complete.{query_edges_complete, IsAnswered}

abbrev no_date : String → Option ℕ
no_date s = none

abbrev same : String → String
same s = s

abbrev json : Json → String
json v = ""

abbrev in_place : List String → List String
in_place keys = keys

abbrev always : TemporalRecord
always = record { status = active; valid_from = none; valid_until = none; expires_at = none }

abbrev uses : String → String → String → QueryEdge whole ℕ ℕ no_date 0 same json in_place
uses id from to = record {
  id = id;
  from = from;
  to = to;
  type = "uses";
  directed = true;
  fields = record {
    temporal = always;
    weight = 1;
    rest = record { metadata = none; updated_at = "then"; rest = 0 };
  };
}

abbrev written : QueryStore whole ℕ ℕ no_date 0 same json in_place
written = run cleared (
    set_edge_call (uses "e" "a" "b")
    ∷ set_edge_call (uses "f" "b" "c")
    ∷ set_edge_call (uses "g" "a" "c")
    ∷ [])

abbrev from_a : GraphEdgeQuery ℕ
from_a = record {
  ids = none;
  from = some "a";
  to = some "c";
  directed = some true;
  filter = record {
    edge_types = some ("uses" ∷ []);
    statuses = none;
    min_weight = none;
    include_inactive = false;
    include_expired = false;
    now = none;
  };
  metadata = none;
  limit = none;
}

default_limit : validate_limit from_a.limit 100 10000 ≡ ok 100
unfolding validate_limit
default_limit = refl

g_found :
    query_edges whole ℕ ℕ no_date 0 same json in_place written from_a ≡ ok (uses "g" "a" "c" ∷ [])
unfolding query_edges validate_limit collect_edges edge_query_candidate_ids edge_matches edge_passes
    is_inactive is_expired matches_metadata_filter includes run History.step set_edge index_edge
    add_to_index set_add cleared JsMap.get JsMap.set
g_found = refl

query_edges_complete_example :
    All (IsMatch whole ℕ ℕ no_date 0 same json in_place written from_a) (uses "g" "a" "c" ∷ [])
    × IsAnswered whole ℕ ℕ no_date 0 same json in_place written from_a 100
        (uses "g" "a" "c" ∷ [])
        (JsMap.get written.edges "g")
query_edges_complete_example =
    query_edges_complete whole ℕ ℕ no_date 0 same json in_place written from_a 100 "g"
      (reachable-IsReflected _ _) default_limit g_found

abbrev halved : GraphDecayInput ℕ
halved = record {
  factor = 1;
  min_weight = some 1;
  edge_types = some ("uses" ∷ []);
  metadata = none;
  now = some "now";
}

abbrev decayed : QueryStore whole ℕ ℕ no_date 0 same json in_place
decayed =
    (decay_all whole ℕ ℕ no_date 0 same json in_place "" halved (written, 0, 0)
      (JsMap.values written.edges)).0

written-Distinct : JsMap.Distinct written.edges
unfolding run History.step set_edge index_edge cleared JsMap.get JsMap.set
written-Distinct = (refl, (refl, (refl, tt)))

decay_returns :
    decay_edges whole ℕ ℕ no_date 0 same json in_place "" written halved ≡ ok (decayed, 3, 0)
unfolding decay_edges decay_all decay_edge matches_metadata_filter includes run History.step
    set_edge index_edge add_to_index set_add cleared JsMap.get JsMap.set
decay_returns = refl

decay_edges_lem_example :
    (JsMap.get decayed.edges "g"
      ≡ after whole ℕ ℕ no_date 0 same json in_place "" halved (JsMap.get written.edges "g") none)
    × IsReflected decayed
decay_edges_lem_example =
    decay_edges_lem whole ℕ ℕ no_date 0 same json in_place "" written halved "g"
      (reachable-IsReflected _ _) written-Distinct decay_returns
