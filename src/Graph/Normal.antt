-- ===== src/Graph/Normal.antt =====
-- packages/tekmemo/src/graph/utils/validation.ts and ids.ts: what upserts make of a node or an edge
-- and of the one that is stored. `now` is nowIso(), one for all of a call; types rule out the
-- values that are not of their type.
use Prim.Native.String.{◌++◌ as append}
use tekbreed_oss.Prelude.{
  ℕ, String, Bool, true, false, not, ◌||◌, Option, none, some, List, [], ◌∷◌, ltb, leb, ◌==◌,
  if◌then◌else◌, get_or, includes, length, filter,
}
use tekbreed_oss.Prelude.Codes.{contains}
use tekbreed_oss.Prelude.Json.{Fields}
use tekbreed_oss.Prelude.Result.{Result, ok, throw, ◌>>=◌, ◌>>◌}
use tekbreed_oss.JsMap.Bulk.{or_else}
use tekbreed_oss.Graph.{GraphError, invalid}
use tekbreed_oss.Graph.Filters.{GraphFactStatus}
use tekbreed_oss.Graph.Refs.{GraphTexts, GraphSourceRef, refuse_if, join, source_refs_identity}
use tekbreed_oss.Chunks.{hash_string}

pub data GraphEdgeIdentityMode : Type 0 where
  canonical source_aware event_aware : GraphEdgeIdentityMode

-- What GraphNode and GraphEdge share.
pub record GraphFact (Float : Type 0) : Type 0 where
  pub confidence : Option Float
  pub status : Option GraphFactStatus
  pub valid_from : Option String
  pub valid_until : Option String
  pub expires_at : Option String
  pub source_refs : Option (List GraphSourceRef)
  pub created_at : Option String
  pub updated_at : Option String
  pub metadata : Option Fields

pub record GraphNode (Float : Type 0) : Type 0 where
  pub id : String
  pub type : String
  pub label : String
  pub aliases : Option (List String)
  pub summary : Option String
  pub importance : Option Float
  pub fact : GraphFact Float

pub record GraphEdge (Float : Type 0) : Type 0 where
  pub id : Option String
  pub from : String
  pub to : String
  pub type : String
  pub directed : Option Bool
  pub dedupe_key : Option String
  pub weight : Option Float
  pub fact : GraphFact Float

-- The fields of a stored edge, and of a stored node, that no query reads.
pub record StoredRest (Float : Type 0) : Type 0 where
  pub dedupe_key : Option String
  pub confidence : Float
  pub source_refs : Option (List GraphSourceRef)
  pub created_at : String

pub record NodeRest (Float : Type 0) : Type 0 where
  pub id : String
  pub type : String
  pub label : String
  pub aliases : List String
  pub summary : Option String
  pub importance : Float
  pub confidence : Float
  pub source_refs : Option (List GraphSourceRef)
  pub metadata : Option Fields
  pub created_at : String
  pub updated_at : String

-- `existing?.field`
abbrev pub old : {A B : Type 0} → (A → B) → Option A → Option B
old field none = none
old field (some a) = some (field a)

abbrev pub old_or : {A B : Type 0} → (A → Option B) → Option A → Option B
old_or field none = none
old_or field (some a) = field a

abbrev bool_text : Bool → String
bool_text true = "true"
bool_text false = "false"

-- `s || undefined`
abbrev given : String → Option String
given s = if s == "" then none else some s

-- `from && until && from >= until`
abbrev pub wrong_order : Option ℕ → Option ℕ → Bool
wrong_order (some a) (some b) = leb b a
wrong_order _ _ = false

module _ (texts : GraphTexts) where
  open texts use {size, units, trim, lower, safe_type, is_safe_id, hex}

  -- assertGraphId
  unfoldable pub assert_graph_id : String → String → Result GraphError (Unit {0})
  assert_graph_id id field =
      refuse_if (not (is_safe_id id)) field
      >> refuse_if (contains id ".." || contains id "\\") field

  -- assertDedupeKey
  unfoldable pub assert_dedupe_key : Option String → Result GraphError (Unit {0})
  assert_dedupe_key none = ok tt
  assert_dedupe_key (some key) =
      refuse_if (trim key == "") "edge.dedupeKey"
      >> refuse_if (ltb 512 (size (trim key))) "edge.dedupeKey"

  -- fnv1a, which hashes as hashString does
  abbrev fnv1a : String → String
  fnv1a input = hex (hash_string (units input))

  -- stableEdgeId
  unfoldable pub stable_edge_id : String → String → String → Bool → Option String → String
  stable_edge_id from type to directed dedupe_key =
      append "edge:"
        (fnv1a (join "\u{1f}" (from ∷ type ∷ to ∷ bool_text directed ∷ get_or dedupe_key "" ∷ [])))

  -- normalizeType
  unfoldable pub normalize_type : String → String → Result GraphError String
  normalize_type value field =
      let type = safe_type (lower (trim value)) in
      if type == "" || ltb 96 (size type) then throw (invalid field) else ok type

  -- normalizeRequiredText
  unfoldable pub normalize_required_text : String → String → ℕ → Result GraphError String
  normalize_required_text value field max =
      if trim value == "" || ltb max (size (trim value))
      then throw (invalid field)
      else ok (trim value)

  -- normalizeOptionalText, on a text
  unfoldable pub normalize_optional_text : String → String → ℕ → Result GraphError (Option String)
  normalize_optional_text value field max =
      if trim value == ""
      then ok none
      else if ltb max (size (trim value))
      then throw (invalid field)
      else ok (some (trim value))

  abbrev normalize_each : List String → Result GraphError (List String)
  normalize_each [] = ok []
  normalize_each (alias ∷ aliases) = do
    first ← normalize_required_text alias "node.aliases" 512
    rest ← normalize_each aliases
    ok (first ∷ rest)

  -- normalizeAliases
  unfoldable pub normalize_aliases : Option (List String) → Result GraphError (List String)
  normalize_aliases none = ok []
  normalize_aliases (some aliases) =
      refuse_if (ltb 64 (length aliases)) "node.aliases" >> normalize_each aliases

  -- uniqueStrings, with the keys seen
  unfoldable pub unique_strings : List String → List String → List String
  unique_strings seen [] = []
  unique_strings seen (value ∷ values) =
      let key = lower (trim value) in
      let skipped = unique_strings seen values in
      let taken = trim value ∷ unique_strings (key ∷ seen) values in
      if trim value == "" || includes seen key then skipped else taken

  -- buildEdgeIdentitySalt
  unfoldable pub build_edge_identity_salt :
      {Float : Type 0} → GraphEdge Float → GraphEdgeIdentityMode → Result GraphError (Option String)
  build_edge_identity_salt input canonical = ok (old trim input.dedupe_key)
  build_edge_identity_salt input source_aware = do
    identity ← source_refs_identity texts input.fact.source_refs
    ok (or_else (old trim input.dedupe_key) identity)
  build_edge_identity_salt input event_aware = do
    identity ← source_refs_identity texts input.fact.source_refs
    ok (
        given (
          join "\u{1f}" (
            filter (λ s. not (s == ""))
              (get_or (old trim input.dedupe_key) ""
                ∷ get_or identity ""
                ∷ get_or input.fact.created_at ""
                ∷ get_or input.fact.valid_from ""
                ∷ get_or input.fact.valid_until ""
                ∷ get_or input.fact.expires_at ""
                ∷ []))))
