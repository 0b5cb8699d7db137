-- ===== src/Graph/Queries.antt =====
-- queryEdges of packages/tekmemo/src/graph/store/in-memory-graph-store.ts. The loop walks the edge
-- ids of one index, where the query allows it, and not all edges.
pub mod Collect
pub mod Complete
use tekbreed_oss.Prelude.{
  ℕ, String, Bool, true, false, not, ◌&&◌, ◌||◌, Option, none, some, List, [], ◌∷◌, ◌++◌, ◌==◌, leb,
  if◌then◌else◌, includes, length,
}
use tekbreed_oss.Prelude.Floats.{Floats}
use tekbreed_oss.Prelude.Json.{Json, Fields}
use tekbreed_oss.Prelude.Number.{JsNumber}
use tekbreed_oss.Prelude.Result.{Result, ok, throw, ◌>>=◌}
use tekbreed_oss.JsMap
use tekbreed_oss.Graph.{GraphStore, GraphError, ids_at}
use tekbreed_oss.Graph.Filters.{validate_limit}
use tekbreed_oss.Graph.Metadata.{matches_metadata_filter}
use tekbreed_oss.Graph.Neighbors.{Edge, Store, GraphFilter, edge_passes, lower_types}

-- The fields of an edge that queryEdges and decayEdges use beside those of EdgeFields.
pub record EdgeRest (Rest : Type 0) : Type 0 where
  pub metadata : Option Fields
  pub updated_at : String
  pub rest : Rest

-- GraphEdgeQuery; `filter` has its options that GraphNeighborQuery has too
pub record GraphEdgeQuery (Float : Type 0) : Type 0 where
  pub ids : Option (List String)
  pub from : Option String
  pub to : Option String
  pub directed : Option Bool
  pub filter : GraphFilter Float
  pub metadata : Option Fields
  pub limit : Option JsNumber

-- `query.from && …`, where an empty text counts as none
abbrev pub truthy : Option String → Option String
truthy none = none
truthy (some s) = if s == "" then none else some s

-- `query.from && edge.from !== query.from`, negated
abbrev pub text_ok : Option String → String → Bool
text_ok none s = true
text_ok (some t) s = s == t

abbrev pub ids_ok : Option (List String) → String → Bool
ids_ok none id = true
ids_ok (some ids) id = includes ids id

abbrev same_bool : Bool → Bool → Bool
same_bool true b = b
same_bool false b = not b

abbrev pub directed_ok : Option Bool → Bool → Bool
directed_ok none b = true
directed_ok (some d) b = same_bool d b

module _ (F : Floats) (Node Rest : Type 0) (date_of : String → Option ℕ) (clock : ℕ)
    (lower : String → String) (stringify : Json → String)
    (sort_keys : List String → List String) where
  abbrev pub QueryStore : Type 0
  QueryStore = Store F Node (EdgeRest Rest)

  abbrev pub QueryEdge : Type 0
  QueryEdge = Edge F Node (EdgeRest Rest)

  -- edgeQueryCandidateIds: the choice after `ids`, `from` and `to`
  abbrev pub ids_by_type : QueryStore → Option (List String) → List String
  ids_by_type s (some (type ∷ [])) = ids_at s.by_type type
  ids_by_type s _ = JsMap.keys s.edges

  abbrev pub ids_by_to : QueryStore → Option String → Option (List String) → List String
  ids_by_to s (some to) types = ids_at s.incoming to
  ids_by_to s none types = ids_by_type s types

  abbrev pub ids_by_from :
      QueryStore → Option String → Option String → Option (List String) → List String
  ids_by_from s (some from) to types = ids_at s.outgoing from
  ids_by_from s none to types = ids_by_to s to types

  abbrev pub ids_by_ids : Option (List String) → List String → List String
  ids_by_ids none others = others
  ids_by_ids (some []) others = others
  ids_by_ids (some (id ∷ ids)) others = id ∷ ids

  -- edgeQueryCandidateIds
  unfoldable pub edge_query_candidate_ids : QueryStore → GraphEdgeQuery F.Float → List String
  edge_query_candidate_ids s q = ids_by_ids q.ids (
      ids_by_from s (truthy q.from) (truthy q.to)
        (lower_types F Node (EdgeRest Rest) date_of clock lower q.filter.edge_types))

  -- the tests of an edge, of which only that of the expiry can throw
  unfoldable pub edge_matches : GraphEdgeQuery F.Float → QueryEdge → Result GraphError Bool
  edge_matches q e = do
    passes ← edge_passes F Node (EdgeRest Rest) date_of clock lower q.filter e
    ok (
        passes
        && ids_ok q.ids e.id
        && text_ok (truthy q.from) e.from
        && text_ok (truthy q.to) e.to
        && directed_ok q.directed e.directed
        && matches_metadata_filter stringify sort_keys e.fields.rest.metadata q.metadata)

  -- the loop over the ids
  unfoldable pub collect_edges :
      QueryStore
      → GraphEdgeQuery F.Float
      → ℕ
      → List String
      → List QueryEdge
      → Result GraphError (List QueryEdge)
  collect_edges s q limit [] out = ok out
  collect_edges s q limit (id ∷ ids) out =
      let next = λ (out' : List QueryEdge). collect_edges s q limit ids out' in
      elim (JsMap.get s.edges id) [
        | none ↦ next out
        | some e ↦ do
          matched ← edge_matches q e
          if not matched
              then next out
              else if leb limit (length (out ++ e ∷ []))
              then ok (out ++ e ∷ [])
              else next (out ++ e ∷ [])
      ]

  -- queryEdges
  unfoldable pub query_edges :
      QueryStore → GraphEdgeQuery F.Float → Result GraphError (List QueryEdge)
  query_edges s q = do
    limit ← validate_limit q.limit 100 10000
    collect_edges s q limit (edge_query_candidate_ids s q) []
