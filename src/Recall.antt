-- ===== src/Recall.antt =====
-- packages/tekmemo/src/recall/stores/in-memory-recall-store.ts, with recall/validation
-- (Recall.Validation), recall/filters (Recall.Filter) and recall/scoring (Recall.Scoring). A method
-- gives the store after it beside what it returns or throws. `now` is the clock's reading; a clone
-- is equal to its value.
pub mod Validation
pub mod Conditions
pub mod Filter
pub mod Scoring
pub mod Query
pub mod Batch
pub mod Upsert
pub mod History
pub mod Ranking
pub mod Sorting
pub mod Answers
pub mod Returns
pub mod Clear
mod Tests
use Prim.Native.String.{◌++◌ as append}
use tekbreed_oss.Prelude.{
  ℕ, String, Bool, true, false, not, ◌&&◌, ◌||◌, Option, none, some, List, [], ◌∷◌, ◌==◌, eqb,
  if◌then◌else◌, get_or, includes, length, take, filter,
}
use tekbreed_oss.Prelude.Codes.{starts_with}
use tekbreed_oss.Prelude.Floats.{Floats}
use tekbreed_oss.Prelude.Json.{Json, Fields, field_of}
use tekbreed_oss.Prelude.Number.{JsNumber, pos}
use tekbreed_oss.Prelude.Result.{Result, ok, throw, ◌>>=◌, ◌>>◌}
use tekbreed_oss.JsMap
use tekbreed_oss.JsMap.{JsMap}
use tekbreed_oss.Recall.Validation.{
  Checked, validation, dimension, RecallDocument, assert_safe_id, normalize_namespace,
  validate_embedding, validate_optional_namespace, validate_recall_documents,
}

-- duplicateDocumentIdBehavior
pub data DuplicateBehavior : Type 0 where
  error last_write_wins : DuplicateBehavior

abbrev pub is_error : DuplicateBehavior → Bool
is_error error = true
is_error last_write_wins = false

pub record StoredDocument (Float : Type 0) : Type 0 where
  pub id : String
  pub text : String
  pub embedding : List Float
  pub metadata : Fields
  pub namespace : String
  pub inserted_at : String

pub record RecallStore (Float : Type 0) : Type 0 where
  pub documents : JsMap (StoredDocument Float)
  pub dimension : Option ℕ
  pub duplicates : DuplicateBehavior
  pub default_namespace : String
  pub inferred_dimension : Option ℕ

pub record DeleteBySourceInput : Type 0 where
  pub project_id : String
  pub source_type : String
  pub source_id : String
  pub namespace : Option String

-- key
abbrev pub key : String → String → String
key namespace id = append namespace (append ":" id)

-- `this.dimension ?? this.inferredDimension`
abbrev pub either_dimension : Option ℕ → Option ℕ → Option ℕ
either_dimension (some n) inferred = some n
either_dimension none inferred = inferred

abbrev pub expected_dimension : {Float : Type 0} → RecallStore Float → Option ℕ
expected_dimension s = either_dimension s.dimension s.inferred_dimension

module _ (F : Floats) (trim : String → String) where
  abbrev pub Store : Type 0
  Store = RecallStore F.Float

  abbrev pub Document : Type 0
  Document = RecallDocument F.Float

  -- the store after a method, and what it returns
  abbrev pub Outcome : Type 0
  Outcome = Store × Checked (Unit {0})

  -- the constructor's test of its dimension
  abbrev pub check_dimension : Option JsNumber → Checked (Option ℕ)
  check_dimension none = ok none
  check_dimension (some (pos n)) = if eqb n 0 then throw dimension else ok (some n)
  check_dimension (some _) = throw dimension

  -- the constructor
  unfoldable pub new_store : Option JsNumber → DuplicateBehavior → Option String → Checked Store
  new_store dim duplicates namespace = do
    checked ← check_dimension dim
    default ← normalize_namespace trim namespace "default"
    ok (record {
      documents = [];
      dimension = checked;
      duplicates = duplicates;
      default_namespace = default;
      inferred_dimension = none;
    })

  -- upsert: the loop of checks
  unfoldable pub check_batch : Store → List String → List Document → Checked (Unit {0})
  check_batch s seen [] = ok tt
  check_batch s seen (d ∷ ds) = do
    namespace ← normalize_namespace trim d.namespace s.default_namespace
    let next = check_batch s (key namespace d.id ∷ seen) ds
    if includes seen (key namespace d.id) && is_error s.duplicates
        then throw validation
        else if JsMap.has s.documents (key namespace d.id) && is_error s.duplicates
        then throw validation
        else next

  -- ensureDimension
  unfoldable pub ensure_dimension : Store → ℕ → Checked Store
  ensure_dimension s n = elim s.dimension [
    | some m ↦ ok s
    | none ↦ elim s.inferred_dimension [
      | none ↦ ok (record s { inferred_dimension = some n })
      | some m ↦ if eqb m n then ok s else throw dimension
    ]
  ]

  abbrev pub stored : Document → String → String → StoredDocument F.Float
  stored d namespace now = record {
    id = d.id;
    text = d.text;
    embedding = d.embedding;
    metadata = d.metadata;
    namespace = namespace;
    inserted_at = now;
  }

  -- upsert: the loop of writes
  unfoldable pub write_batch : Store → String → List Document → Outcome
  write_batch s now [] = (s, ok tt)
  write_batch s now (d ∷ ds) =
      let next = λ (s' : Store). write_batch s' now ds in
      elim (normalize_namespace trim d.namespace s.default_namespace) [
        | throw e ↦ (s, throw e)
        | ok namespace ↦ next (record s {
          documents = JsMap.set s.documents (key namespace d.id) (stored d namespace now);
        })
      ]

  -- upsert: after the validation of a batch that is not empty
  unfoldable pub upsert_checked : Store → String → Document → List Document → Outcome
  upsert_checked s now d ds =
      elim (check_batch s [] (d ∷ ds) >> ensure_dimension s (length d.embedding)) [
        | throw e ↦ (s, throw e)
        | ok s' ↦ write_batch s' now (d ∷ ds)
      ]

  -- upsert
  unfoldable pub upsert : Store → String → List Document → Outcome
  upsert s now [] = (s, ok tt)
  upsert s now (d ∷ ds) = elim (validate_recall_documents F trim (d ∷ ds) (expected_dimension s)) [
    | throw e ↦ (s, throw e)
    | ok _ ↦ upsert_checked s now d ds
  ]

  -- delete: the loop
  unfoldable pub delete_ids : Store → String → List String → Outcome
  delete_ids s namespace [] = (s, ok tt)
  delete_ids s namespace (id ∷ ids) =
      let next =
        delete_ids (record s { documents = JsMap.delete s.documents (key namespace id) }) namespace
          ids in
      elim (assert_safe_id trim id) [ throw e ↦ (s, throw e) | ok _ ↦ next ]

  -- delete
  unfoldable pub delete : Store → List String → Option String → Outcome
  delete s ids namespace = elim (normalize_namespace trim namespace s.default_namespace) [
    | throw e ↦ (s, throw e)
    | ok ns ↦ delete_ids s ns ids
  ]

  -- `document.metadata.projectId === input.projectId`
  abbrev same_text : Option Json → String → Bool
  same_text (some (Json.text s)) t = s == t
  same_text _ t = false

  -- the tests of deleteBySource
  unfoldable pub is_of_source : DeleteBySourceInput → String → StoredDocument F.Float → Bool
  is_of_source input namespace d =
      (d.namespace == namespace)
      && same_text (field_of d.metadata "projectId") input.project_id
      && same_text (field_of d.metadata "sourceType") input.source_type
      && same_text (field_of d.metadata "sourceId") input.source_id

  -- a loop over entries that deletes those which pass a test
  unfoldable pub delete_where :
      (String × StoredDocument F.Float → Bool)
      → JsMap (StoredDocument F.Float)
      → JsMap (StoredDocument F.Float)
      → JsMap (StoredDocument F.Float)
  delete_where test [] documents = documents
  delete_where test (entry ∷ entries) documents =
      delete_where test entries (if test entry then JsMap.delete documents entry.0 else documents)

  -- deleteBySource
  unfoldable pub delete_by_source : Store → DeleteBySourceInput → Outcome
  delete_by_source s input =
      elim (assert_safe_id trim input.project_id
        >> assert_safe_id trim input.source_type
        >> assert_safe_id trim input.source_id
        >> normalize_namespace trim input.namespace s.default_namespace) [
          | throw e ↦ (s, throw e)
          | ok namespace ↦ (
            record s {
              documents =
                  delete_where (λ e. is_of_source input namespace e.1) s.documents s.documents;
            },
            ok tt,
          )
        ]

  -- clear
  unfoldable pub clear : Store → Option String → Outcome
  clear s none = (record s { documents = []; inferred_dimension = none }, ok tt)
  clear s (some namespace) = elim (normalize_namespace trim (some namespace) s.default_namespace) [
    | throw e ↦ (s, throw e)
    | ok ns ↦ (
      record s {
        documents = delete_where (λ e. starts_with e.0 (append ns ":")) s.documents s.documents;
      },
      ok tt,
    )
  ]

  -- count
  unfoldable pub count : Store → Option String → Checked ℕ
  count s none = ok (JsMap.size s.documents)
  count s (some namespace) = do
    ns ← normalize_namespace trim (some namespace) s.default_namespace
    ok (length (filter (λ d. d.namespace == ns) (JsMap.values s.documents)))
