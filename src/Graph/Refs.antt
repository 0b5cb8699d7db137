-- ===== src/Graph/Refs.antt =====
-- packages/tekmemo/src/graph/utils: metadata.ts and source-refs.ts, what a node or an edge says of
-- where it comes from. Values have no cycles; an index in a field's name is left out. The texts'
-- operations and regular expressions, and the parser of URLs, are parameters.
use Prim.Native.String.{◌++◌ as append}
use tekbreed_oss.Prelude.{
  ℕ, ◌+◌, String, Bool, false, not, ◌||◌, Option, none, some, List, [], ◌∷◌, ◌++◌, map, ltb, ◌==◌,
  if◌then◌else◌, get_or, includes, length,
}
use tekbreed_oss.Prelude.Codes.{contains, starts_with}
use tekbreed_oss.Prelude.Json.{Json, Items, Fields}
use tekbreed_oss.Prelude.Number.{JsNumber, pos, is_finite}
use tekbreed_oss.Prelude.Result.{Result, ok, throw, ◌>>=◌, ◌>>◌}
use tekbreed_oss.Graph.{GraphError, invalid}

-- `size` is the length in UTF-16 code units and `units` are these; `safe_type` replaces
-- /[^a-z0-9_:-]+/g by "_", `is_safe_id` and `has_protocol` are tests of patterns, `split_slashes`
-- is split("/"), `protocol_of` is new URL(s).protocol, none where it throws, `hex` is
-- toString(16).padStart(8, "0").
pub record GraphTexts : Type 0 where
  pub size : String → ℕ
  pub units : String → List ℕ
  pub trim : String → String
  pub lower : String → String
  pub safe_type : String → String
  pub is_safe_id : String → Bool
  pub has_protocol : String → Bool
  pub split_slashes : String → List String
  pub protocol_of : String → Option String
  pub sort : List String → List String
  pub show : JsNumber → String
  pub hex : ℕ → String

pub record GraphSourceSpan : Type 0 where
  pub start : Option JsNumber
  pub end : Option JsNumber
  pub line : Option JsNumber
  pub column : Option JsNumber

pub record GraphSourceRef : Type 0 where
  pub source_type : String
  pub source_id : Option String
  pub path : Option String
  pub title : Option String
  pub url : Option String
  pub span : Option GraphSourceSpan
  pub metadata : Option Fields

-- `if (test) throw new GraphValidationError(...)`
abbrev pub refuse_if : Bool → String → Result GraphError (Unit {0})
refuse_if test field = if test then throw (invalid field) else ok tt

-- Array.prototype.join
abbrev pub join : String → List String → String
join separator [] = ""
join separator (s ∷ []) = s
join separator (s ∷ t ∷ ts) = append s (append separator (join separator (t ∷ ts)))

abbrev item_count : Items → ℕ
item_count Items.nil = 0
item_count (Items.cons v vs) = 1 + item_count vs

abbrev pub key_count : Fields → ℕ
key_count Fields.end = 0
key_count (Fields.field key v fs) = 1 + key_count fs

abbrev is_forbidden : String → Bool
is_forbidden key = key == "__proto__" || key == "prototype" || key == "constructor"

-- `output[key] = value`, and Object.assign(output, fs)
abbrev set_field : Fields → String → Json → Fields
set_field Fields.end k v = Fields.field k v Fields.end
set_field (Fields.field j w fs) k v =
    if j == k then Fields.field j v fs else Fields.field j w (set_field fs k v)

abbrev assign : Fields → Fields → Fields
assign output Fields.end = output
assign output (Fields.field k v fs) = assign (set_field output k v) fs

-- The span's numbers: none, or an integer that is not negative.
abbrev span_number : Option JsNumber → Result GraphError (Unit {0})
span_number none = ok tt
span_number (some (pos n)) = ok tt
span_number (some _) = throw (invalid "span")

-- `start !== undefined && end !== undefined && start > end`
abbrev is_reversed : GraphSourceSpan → Bool
is_reversed span = elim span.start [
  | some (pos a) ↦ elim span.end [ some (pos b) ↦ ltb b a | _ ↦ false ]
  | _ ↦ false
]

-- the checks of `ref.span`
abbrev check_span : Option GraphSourceSpan → Result GraphError (Unit {0})
check_span none = ok tt
check_span (some span) =
    span_number span.start
    >> span_number span.end
    >> span_number span.line
    >> span_number span.column
    >> refuse_if (is_reversed span) "span"

module _ (texts : GraphTexts) where
  open texts use {size, trim, has_protocol, split_slashes, protocol_of, sort, show}

  -- the test of a key in validateMetadataValue
  abbrev bad_key : String → Bool
  bad_key key = key == "" || ltb 128 (size key) || is_forbidden key

  -- validateMetadataValue
  unfoldable mutual
    pub validate_metadata_value : Json → ℕ → Result GraphError (Unit {0})
    validate_metadata_value Json.null depth = refuse_if (ltb 6 depth) "metadata"
    validate_metadata_value (Json.boolean b) depth = refuse_if (ltb 6 depth) "metadata"
    validate_metadata_value (Json.number n) depth =
        refuse_if (ltb 6 depth) "metadata" >> refuse_if (not (is_finite n)) "metadata"
    validate_metadata_value (Json.text s) depth =
        refuse_if (ltb 6 depth) "metadata" >> refuse_if (ltb 16384 (size s)) "metadata"
    validate_metadata_value (Json.array xs) depth =
        refuse_if (ltb 6 depth) "metadata"
        >> refuse_if (ltb 100 (item_count xs)) "metadata"
        >> validate_items xs (depth + 1)
    validate_metadata_value (Json.object fs) depth =
        refuse_if (ltb 6 depth) "metadata"
        >> refuse_if (ltb 100 (key_count fs)) "metadata"
        >> validate_entries fs (depth + 1)

    pub validate_items : Items → ℕ → Result GraphError (Unit {0})
    validate_items Items.nil depth = ok tt
    validate_items (Items.cons v vs) depth =
        validate_metadata_value v depth >> validate_items vs depth

    pub validate_entries : Fields → ℕ → Result GraphError (Unit {0})
    validate_entries Fields.end depth = ok tt
    validate_entries (Fields.field key v fs) depth =
        refuse_if (bad_key key) "metadata"
        >> validate_metadata_value v depth
        >> validate_entries fs depth

  -- cloneAndValidateMetadata
  unfoldable pub clone_metadata : Option Fields → Result GraphError (Option Fields)
  clone_metadata none = ok none
  clone_metadata (some fs) = validate_metadata_value (Json.object fs) 0 >> ok (some fs)

  -- the loop of mergeMetadata
  abbrev assign_all : Fields → List (Option Fields) → Result GraphError Fields
  assign_all output [] = ok output
  assign_all output (none ∷ items) = assign_all output items
  assign_all output (some fs ∷ items) =
      validate_metadata_value (Json.object fs) 0 >> assign_all (assign output fs) items

  -- mergeMetadata
  unfoldable pub merge_metadata : List (Option Fields) → Result GraphError (Option Fields)
  merge_metadata items = do
    output ← assign_all Fields.end items
    ok (if ltb 0 (key_count output) then some output else none)

  -- assertOptionalSafeText
  abbrev assert_optional_safe_text : Option String → String → Result GraphError (Unit {0})
  assert_optional_safe_text none field = ok tt
  assert_optional_safe_text (some s) field = refuse_if (ltb 1024 (size s)) field

  -- validateSafePath
  unfoldable pub validate_safe_path : String → Result GraphError (Unit {0})
  validate_safe_path path =
      assert_optional_safe_text (some path) "path"
      >> refuse_if (starts_with path "/" || starts_with path "~") "path"
      >> refuse_if (contains path "\\") "path"
      >> refuse_if (includes (split_slashes path) "..") "path"
      >> refuse_if (has_protocol path) "path"

  abbrev is_http : Option String → Bool
  is_http none = false
  is_http (some protocol) = protocol == "http:" || protocol == "https:"

  -- validateSafeUrl
  unfoldable pub validate_safe_url : String → Result GraphError (Unit {0})
  validate_safe_url url =
      assert_optional_safe_text (some url) "url"
      >> refuse_if (not (is_http (protocol_of url))) "url"

  -- `if (value !== undefined) check(value)`
  abbrev when_given :
      (String → Result GraphError (Unit {0})) → Option String → Result GraphError (Unit {0})
  when_given check none = ok tt
  when_given check (some value) = check value

  -- one round of cloneAndValidateSourceRefs
  unfoldable pub clone_source_ref : GraphSourceRef → Result GraphError GraphSourceRef
  clone_source_ref ref =
      refuse_if (trim ref.source_type == "") "sourceType"
      >> assert_optional_safe_text ref.source_id "sourceId"
      >> assert_optional_safe_text ref.title "title"
      >> when_given validate_safe_path ref.path
      >> when_given validate_safe_url ref.url
      >> check_span ref.span
      >> (do
        metadata ← clone_metadata ref.metadata
        ok (record ref { source_type = trim ref.source_type; metadata = metadata }))

  unfoldable pub clone_each : List GraphSourceRef → Result GraphError (List GraphSourceRef)
  clone_each [] = ok []
  clone_each (ref ∷ refs) = do
    first ← clone_source_ref ref
    rest ← clone_each refs
    ok (first ∷ rest)

  -- `refs.length > 0 ? refs : undefined`
  abbrev not_empty : List GraphSourceRef → Option (List GraphSourceRef)
  not_empty [] = none
  not_empty (ref ∷ refs) = some (ref ∷ refs)

  -- cloneAndValidateSourceRefs
  unfoldable pub clone_source_refs :
      Option (List GraphSourceRef) → Result GraphError (Option (List GraphSourceRef))
  clone_source_refs none = ok none
  clone_source_refs (some refs) =
      refuse_if (ltb 32 (length refs)) "sourceRefs"
      >> (do out ← clone_each refs; ok (not_empty out))

  -- `ref.span?.start ?? ""`
  abbrev number_text : (GraphSourceSpan → Option JsNumber) → Option GraphSourceSpan → String
  number_text number none = ""
  number_text number (some span) = elim (number span) [ none ↦ "" | some n ↦ show n ]

  -- sourceRefIdentity
  unfoldable pub source_ref_identity : GraphSourceRef → String
  source_ref_identity ref = join "\u{1f}" (
      ref.source_type
      ∷ get_or ref.source_id ""
      ∷ get_or ref.path ""
      ∷ get_or ref.url ""
      ∷ number_text (λ span. span.start) ref.span
      ∷ number_text (λ span. span.end) ref.span
      ∷ number_text (λ span. span.line) ref.span
      ∷ number_text (λ span. span.column) ref.span
      ∷ [])

  -- the inner loop of mergeSourceRefs, on `refs` and `seen`
  unfoldable pub add_refs :
      List GraphSourceRef × List String → List GraphSourceRef → List GraphSourceRef × List String
  add_refs (refs, seen) [] = (refs, seen)
  add_refs (refs, seen) (ref ∷ group) =
      let key = source_ref_identity ref in
      add_refs (if includes seen key then (refs, seen) else (refs ++ ref ∷ [], key ∷ seen)) group

  -- the outer loop
  unfoldable pub add_groups :
      List GraphSourceRef × List String
      → List (Option (List GraphSourceRef))
      → Result GraphError (List GraphSourceRef × List String)
  add_groups found [] = ok found
  add_groups found (group ∷ groups) = do
    safe ← clone_source_refs group
    add_groups (add_refs found (get_or safe [])) groups

  -- mergeSourceRefs
  unfoldable pub merge_source_refs :
      List (Option (List GraphSourceRef)) → Result GraphError (Option (List GraphSourceRef))
  merge_source_refs groups = do found ← add_groups ([], []) groups; ok (not_empty found.0)

  -- sourceRefsIdentity
  unfoldable pub source_refs_identity :
      Option (List GraphSourceRef) → Result GraphError (Option String)
  source_refs_identity refs = do
    safe ← clone_source_refs refs
    elim safe [
      | none ↦ ok none
      | some rs ↦ ok (some (join "|" (sort (map source_ref_identity rs))))
    ]
