-- ===== src/Recall/Validation.antt =====
-- packages/tekmemo/src/recall/validation/assertions.ts, and the assertions of recall/utils/json.ts:
-- the checks on documents and queries. `trim` is String.prototype.trim. A parsed value has no
-- cycles, and a field that is undefined is left out of its object.
use tekbreed_oss.Prelude.{
  ℕ, String, Bool, true, false, not, ◌&&◌, ◌||◌, Option, none, some, List, [], ◌∷◌, ◌==◌, leb, eqb,
  if◌then◌else◌, length, get_or,
}
use tekbreed_oss.Prelude.Codes.{codes, all_codes, is_alphanumeric, starts_with, contains, ends_with}
use tekbreed_oss.Prelude.Floats.{Floats}
use tekbreed_oss.Prelude.Json.{Json, Items, Fields, field_of}
use tekbreed_oss.Prelude.Number.{is_finite}
use tekbreed_oss.Prelude.Result.{Result, ok, throw, ◌>>◌}

-- RecallValidationError and RecallDimensionError
pub data RecallError : Type 0 where
  validation dimension : RecallError

abbrev pub Checked : Type 0 → Type 0
Checked A = Result RecallError A

abbrev pub check : Bool → Checked (Unit {0})
check true = ok tt
check false = throw validation

-- ID_PATTERN: [A-Za-z0-9._:@#-], from 1 to 256 of them
abbrev id_code : ℕ → Bool
id_code c =
    is_alphanumeric c
    || eqb c b'.'
    || eqb c b'_'
    || eqb c b':'
    || eqb c b'@'
    || eqb c b'#'
    || eqb c b'-'

-- NAMESPACE_PATTERN, after the first: [A-Za-z0-9._:@/-]
abbrev namespace_code : ℕ → Bool
namespace_code c =
    is_alphanumeric c
    || eqb c b'.'
    || eqb c b'_'
    || eqb c b':'
    || eqb c b'@'
    || eqb c b'/'
    || eqb c b'-'

-- FILTER_KEY_PATTERN: [A-Za-z0-9_.:@#/-]
abbrev pub key_code : ℕ → Bool
key_code c = id_code c || eqb c b'/'

abbrev pub matches_pattern : (ℕ → Bool) → List ℕ → Bool
matches_pattern p cs = leb 1 (length cs) && leb (length cs) 256 && all_codes p cs

abbrev matches_namespace : List ℕ → Bool
matches_namespace [] = false
matches_namespace (c ∷ cs) = is_alphanumeric c && leb (length cs) 255 && all_codes namespace_code cs

-- assertSafeObjectKey
unfoldable pub assert_safe_object_key : String → Checked (Unit {0})
assert_safe_object_key key =
    check (not (key == "__proto__" || key == "constructor" || key == "prototype"))

-- assertJsonValue, with its loops over items and entries
unfoldable mutual
  pub assert_json_value : Json → Checked (Unit {0})
  assert_json_value (Json.number n) = check (is_finite n)
  assert_json_value (Json.array xs) = assert_json_items xs
  assert_json_value (Json.object fs) = assert_json_fields fs
  assert_json_value _ = ok tt

  pub assert_json_items : Items → Checked (Unit {0})
  assert_json_items Items.nil = ok tt
  assert_json_items (Items.cons x xs) = assert_json_value x >> assert_json_items xs

  pub assert_json_fields : Fields → Checked (Unit {0})
  assert_json_fields Fields.end = ok tt
  assert_json_fields (Fields.field key item fs) =
      assert_safe_object_key key >> assert_json_value item >> assert_json_fields fs

module _ (trim : String → String) where
  -- assertNonEmptyString
  unfoldable pub assert_non_empty_string : String → Checked (Unit {0})
  assert_non_empty_string s = check (not (trim s == "") && not (includes_null (codes s)))
    where
      includes_null : List ℕ → Bool
      includes_null [] = false
      includes_null (c ∷ cs) = eqb c 0 || includes_null cs

  -- assertSafeId
  unfoldable pub assert_safe_id : String → Checked (Unit {0})
  assert_safe_id s =
      assert_non_empty_string s
      >> check (not (contains s ".." || contains s "/" || contains s "\\"))
      >> check (matches_pattern id_code (codes s))

  -- assertNamespace
  unfoldable pub assert_namespace : String → Checked (Unit {0})
  assert_namespace s =
      assert_non_empty_string s
      >> check (not (contains s ".." || contains s "\\" || starts_with s "/" || ends_with s "/"))
      >> check (matches_namespace (codes s))

  -- normalizeNamespace of recall/utils/namespace.ts
  unfoldable pub normalize_namespace : Option String → String → Checked String
  normalize_namespace namespace fallback = do
    assert_namespace (get_or namespace fallback)
    ok (get_or namespace fallback)

  -- validateOptionalNamespace
  abbrev pub validate_optional_namespace : Option String → Checked (Unit {0})
  validate_optional_namespace none = ok tt
  validate_optional_namespace (some s) = assert_namespace s

  -- an assertion on a text that has to be there, and on one that may be undefined
  abbrev required : (String → Checked (Unit {0})) → Option Json → Checked (Unit {0})
  required assertion (some (Json.text s)) = assertion s
  required assertion _ = throw validation

  abbrev optional : (String → Checked (Unit {0})) → Option Json → Checked (Unit {0})
  optional assertion none = ok tt
  optional assertion v = required assertion v

  -- validateMetadata
  unfoldable pub validate_metadata : Fields → Checked (Unit {0})
  validate_metadata fs =
      required assert_safe_id (field_of fs "projectId")
      >> required assert_safe_id (field_of fs "sourceType")
      >> required assert_safe_id (field_of fs "sourceId")
      >> required assert_non_empty_string (field_of fs "memoryType")
      >> optional assert_safe_id (field_of fs "tenantId")
      >> optional assert_non_empty_string (field_of fs "sectionName")
      >> optional assert_non_empty_string (field_of fs "sourcePath")
      >> assert_json_fields fs

-- validateEmbedding
module _ (F : Floats) where
  abbrev all_finite : List F.Float → Bool
  all_finite [] = true
  all_finite (x ∷ xs) = F.finite x && all_finite xs

  abbrev pub has_dimension : Option ℕ → ℕ → Bool
  has_dimension none n = true
  has_dimension (some expected) n = eqb n expected

  unfoldable pub validate_embedding : List F.Float → Option ℕ → Checked (Unit {0})
  validate_embedding value expected =
      if eqb (length value) 0
      then throw dimension
      else if not (has_dimension expected (length value))
      then throw dimension
      else check (all_finite value)

pub record RecallDocument (Float : Type 0) : Type 0 where
  pub id : String
  pub text : String
  pub embedding : List Float
  pub metadata : Fields
  pub namespace : Option String

module _ (F : Floats) (trim : String → String) where
  -- validateRecallDocument
  unfoldable pub validate_recall_document : RecallDocument F.Float → Option ℕ → Checked (Unit {0})
  validate_recall_document d expected =
      assert_safe_id trim d.id
      >> assert_non_empty_string trim d.text
      >> validate_embedding F d.embedding expected
      >> validate_metadata trim d.metadata
      >> validate_optional_namespace trim d.namespace

  -- validateRecallDocuments; a valid document comes back as it is
  unfoldable pub validate_recall_documents :
      List (RecallDocument F.Float) → Option ℕ → Checked (Unit {0})
  validate_recall_documents [] expected = ok tt
  validate_recall_documents (d ∷ ds) expected =
      validate_recall_document d expected >> validate_recall_documents ds expected
