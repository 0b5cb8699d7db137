-- ===== src/Graph/Normalize.antt =====
-- normalizeNode and normalizeEdge of packages/tekmemo/src/graph/utils/validation.ts: the record that
-- is stored, from the one given and the one stored before.
use tekbreed_oss.Prelude.{
  ℕ, String, Bool, true, not, ◌&&◌, ◌||◌, Option, none, some, List, [], ◌∷◌, ◌++◌, ◌==◌,
  if◌then◌else◌, get_or, take, filter, is_some,
}
use Prim.Native.String.{◌++◌ as append}
use tekbreed_oss.Prelude.Floats.{Floats}
use tekbreed_oss.Prelude.Result.{Result, ok, throw, ◌>>=◌, ◌>>◌}
use tekbreed_oss.JsMap.Bulk.{or_else}
use tekbreed_oss.Graph.{StoredGraphEdge, GraphStore, GraphError, invalid}
use tekbreed_oss.Graph.Filters.{active, TemporalRecord}
use tekbreed_oss.Graph.Neighbors.{EdgeFields, NodeFields}
use tekbreed_oss.Graph.Queries.{EdgeRest}
use tekbreed_oss.Graph.Refs.{
  GraphTexts, refuse_if, clone_metadata, merge_metadata, clone_source_refs, merge_source_refs,
}
use tekbreed_oss.Graph.Normal.{
  GraphEdgeIdentityMode, GraphFact, GraphNode, GraphEdge, StoredRest, NodeRest, old, old_or,
  wrong_order, assert_graph_id, assert_dedupe_key, stable_edge_id, normalize_type,
  normalize_required_text, normalize_optional_text, normalize_aliases, unique_strings,
  build_edge_identity_salt,
}

-- InMemoryGraphStoreOptions, with the defaults put in
pub record StoreOptions : Type 0 where
  pub allow_self_edges : Bool
  pub require_existing_nodes : Bool
  pub edge_identity_mode : GraphEdgeIdentityMode

abbrev pub StoredFields : Floats → Type 0
StoredFields F = EdgeFields F.Float (EdgeRest (StoredRest F.Float))

abbrev pub StoredEdge : Floats → Type 0
StoredEdge F = StoredGraphEdge (StoredFields F)

abbrev pub StoredNode : Floats → Type 0
StoredNode F = NodeFields (NodeRest F.Float)

abbrev pub Store : Floats → Type 0
Store F = GraphStore (StoredNode F) (StoredFields F)

module _ (F : Floats) (texts : GraphTexts) (date_of : String → Option ℕ) (now : String) where
  open texts use {trim, lower}

  -- assertIsoDate
  abbrev assert_iso_date : String → String → Result GraphError (Unit {0})
  assert_iso_date value field =
      refuse_if (trim value == "") field >> refuse_if (not (is_some (date_of value))) field

  abbrev assert_given_date : Option String → String → Result GraphError (Unit {0})
  assert_given_date none field = ok tt
  assert_given_date (some value) field = assert_iso_date value field

  -- assertTemporalFields
  unfoldable pub assert_temporal_fields : GraphFact F.Float → String → Result GraphError (Unit {0})
  assert_temporal_fields fact prefix =
      assert_given_date fact.valid_from (append prefix ".validFrom")
      >> assert_given_date fact.valid_until (append prefix ".validUntil")
      >> assert_given_date fact.expires_at (append prefix ".expiresAt")
      >> refuse_if (wrong_order (old_or date_of fact.valid_from) (old_or date_of fact.valid_until))
          (append prefix ".validFrom")

  -- the checks of the dates, which both normalizations make
  unfoldable pub assert_dates : GraphFact F.Float → String → String → Result GraphError (Unit {0})
  assert_dates fact created_at prefix =
      assert_iso_date created_at (append prefix ".createdAt")
      >> assert_iso_date (get_or fact.updated_at now) (append prefix ".updatedAt")
      >> assert_temporal_fields fact prefix

  -- normalizeUnit
  abbrev pub out_of_unit : F.Float → Bool
  out_of_unit value = not (F.finite value) || F.lt value (F.of_nat 0) || F.lt (F.of_nat 1) value

  abbrev normalize_unit : F.Float → String → Result GraphError F.Float
  normalize_unit value field = if out_of_unit value then throw (invalid field) else ok value

  -- the status and times of the record that is returned
  abbrev temporal_of : Option TemporalRecord → GraphFact F.Float → TemporalRecord
  temporal_of existing fact = record {
    status = get_or (or_else fact.status (old (λ r. r.status) existing)) active;
    valid_from = or_else fact.valid_from (old_or (λ r. r.valid_from) existing);
    valid_until = or_else fact.valid_until (old_or (λ r. r.valid_until) existing);
    expires_at = or_else fact.expires_at (old_or (λ r. r.expires_at) existing);
  }

  -- normalizeNode from the source references on
  unfoldable pub merged_node :
      Option (StoredNode F)
      → GraphFact F.Float
      → NodeRest F.Float
      → Result GraphError (StoredNode F)
  merged_node existing fact rest = do
    refs ← clone_source_refs texts fact.source_refs
    source_refs ← merge_source_refs texts (old_or (λ n. n.rest.source_refs) existing ∷ refs ∷ [])
    given ← clone_metadata texts fact.metadata
    metadata ← merge_metadata texts (old_or (λ n. n.rest.metadata) existing ∷ given ∷ [])
    ok (record {
      temporal = temporal_of (old (λ n. n.temporal) existing) fact;
      rest = record rest { source_refs = source_refs; metadata = metadata };
    })

  abbrev summary_of : Option (StoredNode F) → Option String → Result GraphError (Option String)
  summary_of existing none = ok (old_or (λ n. n.rest.summary) existing)
  summary_of existing (some s) = normalize_optional_text texts s "node.summary" 16384

  -- the aliases without the label, at most 64
  abbrev aliases_of : Option (StoredNode F) → String → List String → List String
  aliases_of existing label aliases = take 64 (
      filter (λ alias. not (lower alias == lower label))
        (unique_strings texts [] (get_or (old (λ n. n.rest.aliases) existing) [] ++ aliases)))

  -- normalizeNode
  unfoldable pub normalize_node :
      Option (StoredNode F) → GraphNode F.Float → Result GraphError (StoredNode F)
  normalize_node existing input =
      let created_at =
        get_or (or_else input.fact.created_at (old (λ n. n.rest.created_at) existing)) now in
      do
        _ ← assert_graph_id texts input.id "node.id"
        type ← normalize_type texts input.type "node.type"
        label ← normalize_required_text texts input.label "node.label" 512
        _ ← assert_dates input.fact created_at "node"
        aliases ← normalize_aliases texts input.aliases
        summary ← summary_of existing input.summary
        confidence ←
            normalize_unit
              (get_or (or_else input.fact.confidence (old (λ n. n.rest.confidence) existing))
                (F.of_nat 1))
              "node.confidence"
        importance ←
            normalize_unit
              (get_or (or_else input.importance (old (λ n. n.rest.importance) existing))
                (F.div (F.of_nat 1) (F.of_nat 2)))
              "node.importance"
        merged_node existing input.fact (record {
          id = input.id;
          type = type;
          label = label;
          aliases = aliases_of existing label aliases;
          summary = summary;
          importance = importance;
          confidence = confidence;
          source_refs = none;
          metadata = none;
          created_at = created_at;
          updated_at = get_or input.fact.updated_at now;
        })

  -- normalizeEdge from the weight on
  unfoldable pub edge_fields :
      Option (StoredEdge F) → GraphEdge F.Float → String → Result GraphError (StoredFields F)
  edge_fields existing input created_at = do
    weight ←
        normalize_unit
          (get_or (or_else input.weight (old (λ e. e.fields.weight) existing)) (F.of_nat 1))
          "edge.weight"
    confidence ←
        normalize_unit
          (get_or
            (or_else input.fact.confidence (old (λ e. e.fields.rest.rest.confidence) existing))
            (F.of_nat 1))
          "edge.confidence"
    refs ← clone_source_refs texts input.fact.source_refs
    source_refs ←
        merge_source_refs texts (old_or (λ e. e.fields.rest.rest.source_refs) existing ∷ refs ∷ [])
    given ← clone_metadata texts input.fact.metadata
    metadata ← merge_metadata texts (old_or (λ e. e.fields.rest.metadata) existing ∷ given ∷ [])
    ok (record {
      temporal = temporal_of (old (λ e. e.fields.temporal) existing) input.fact;
      weight = weight;
      rest = record {
        metadata = metadata;
        updated_at = get_or input.fact.updated_at now;
        rest = record {
          dedupe_key =
              or_else (old trim input.dedupe_key)
                (old_or (λ e. e.fields.rest.rest.dedupe_key) existing);
          confidence = confidence;
          source_refs = source_refs;
          created_at = created_at;
        };
      };
    })

  module _ (options : StoreOptions) where
    -- `input.id ?? existing?.id ?? stableEdgeId(...)`
    unfoldable pub edge_id :
        Option (StoredEdge F) → GraphEdge F.Float → String → Bool → Result GraphError String
    edge_id existing input type directed = elim (or_else input.id (old (λ e. e.id) existing)) [
      | some id ↦ ok id
      | none ↦ do
        salt ← build_edge_identity_salt texts input options.edge_identity_mode
        ok (stable_edge_id texts input.from type input.to directed salt)
    ]

    -- normalizeEdge
    unfoldable pub normalize_edge :
        Option (StoredEdge F) → GraphEdge F.Float → Result GraphError (StoredEdge F)
    normalize_edge existing input =
        let created_at =
          get_or (or_else input.fact.created_at (old (λ e. e.fields.rest.rest.created_at) existing))
            now in
        let directed = get_or (or_else input.directed (old (λ e. e.directed) existing)) true in
        do
          _ ← assert_graph_id texts input.from "edge.from"
          _ ← assert_graph_id texts input.to "edge.to"
          _ ← refuse_if (input.from == input.to && not options.allow_self_edges) "self edges"
          type ← normalize_type texts input.type "edge.type"
          _ ← assert_dedupe_key texts input.dedupe_key
          id ← edge_id existing input type directed
          _ ← assert_graph_id texts id "edge.id"
          _ ← assert_dates input.fact created_at "edge"
          fields ← edge_fields existing input created_at
          ok (record {
            id = id;
            from = input.from;
            to = input.to;
            type = type;
            directed = directed;
            fields = fields;
          })
