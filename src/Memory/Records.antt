-- ===== src/Memory/Records.antt =====
-- packages/tekmemo/src/core/validation/jsonl.ts, the log files with one JSON value on a line, and
-- the records of core/snapshots/snapshot-records.ts that the snapshots index keeps. A check that
-- throws is none: its message goes into the issue alone, which leaves it out.
use tekbreed_oss.Prelude.{
  ℕ, suc, String, Bool, true, false, not, ◌&&◌, Option, none, some, List, [], ◌∷◌, ◌==◌,
  if◌then◌else◌, includes,
}
use tekbreed_oss.Prelude.Number.{is_finite}
use tekbreed_oss.Prelude.Json.{Json, Items, Fields, field_of}
use tekbreed_oss.Prelude.Result.{Result, ok, throw}
use tekbreed_oss.Memory.Paths.{
  PathText, assert_memory_path, create_snapshot_path, snapshots_index_path,
}
use tekbreed_oss.Memory.Store.{Files}
use tekbreed_oss.Memory.Store

pub record JsonlParseIssue : Type 0 where
  pub line_number : ℕ
  pub line : String

pub record ParseJsonlResult (T : Type 0) : Type 0 where
  pub entries : List T
  pub issues : List JsonlParseIssue

-- MalformedJsonlMode
pub data MalformedJsonlMode : Type 0 where
  throws skip : MalformedJsonlMode

abbrev pub and_then {ℓ κ} : {A : Type ℓ} {B : Type κ} → Option A → (A → Option B) → Option B
and_then none next = none
and_then (some a) next = next a

abbrev pub require {ℓ} : {B : Type ℓ} → Bool → Option B → Option B
require true next = next
require false next = none

abbrev pub add_entry :
    {T : Type 0}
    → T
    → Result JsonlParseIssue (ParseJsonlResult T)
    → Result JsonlParseIssue (ParseJsonlResult T)
add_entry value (throw issue) = throw issue
add_entry value (ok r) = ok (record r { entries = value ∷ r.entries })

abbrev pub add_issue :
    {T : Type 0}
    → MalformedJsonlMode
    → JsonlParseIssue
    → Result JsonlParseIssue (ParseJsonlResult T)
    → Result JsonlParseIssue (ParseJsonlResult T)
add_issue throws issue rest = throw issue
add_issue skip issue (throw later) = throw later
add_issue skip issue (ok r) = ok (record r { issues = issue ∷ r.issues })

-- `split` is content.split(/\r?\n/), and `json_parse` has none where JSON.parse throws.
module _ (split : String → List String) (trim : String → String) (json_parse : String → Option Json)
    {T : Type 0} (validate : Json → Option T) (mode : MalformedJsonlMode) where
  -- the value of one line, none where parsing or the validator throws
  abbrev pub line_value : String → Option T
  line_value line = and_then (json_parse line) validate

  -- the loop of parseJsonl, from line number `n`
  unfoldable pub parse_lines : ℕ → List String → Result JsonlParseIssue (ParseJsonlResult T)
  parse_lines n [] = ok (record { entries = []; issues = [] })
  parse_lines n (raw ∷ lines) =
      let line = trim raw in
      let rest = parse_lines (suc n) lines in
      if line == "" then rest else elim (line_value line) [
        | some value ↦ add_entry value rest
        | none ↦ add_issue mode (record { line_number = n; line = line }) rest
      ]

  unfoldable pub parse_jsonl : String → Result JsonlParseIssue (ParseJsonlResult T)
  parse_jsonl content = parse_lines 1 (split content)

pub record SnapshotRecord : Type 0 where
  pub id : String
  pub path : String
  pub type : String
  pub status : String
  pub created_at : String
  pub expires_at : Option String
  pub checksum : Option String
  pub metadata : Option Json

abbrev pub snapshot_types : List String
snapshot_types = "manual" ∷ "automatic" ∷ "pre-sync" ∷ "pre-restore" ∷ []

abbrev pub snapshot_statuses : List String
snapshot_statuses = "available" ∷ "expired" ∷ "deleted" ∷ []

-- assertJsonSerializable: a parsed value has neither cycles nor other prototypes, so only a number
-- that is not finite is refused
unfoldable mutual
  pub is_json_value : Json → Bool
  is_json_value (Json.number n) = is_finite n
  is_json_value (Json.array vs) = are_json_values vs
  is_json_value (Json.object fs) = have_json_values fs
  is_json_value _ = true

  pub are_json_values : Items → Bool
  are_json_values Items.nil = true
  are_json_values (Items.cons v vs) = is_json_value v && are_json_values vs

  pub have_json_values : Fields → Bool
  have_json_values Fields.end = true
  have_json_values (Fields.field k v fs) = is_json_value v && have_json_values fs

module _ (text : PathText) (is_date : String → Bool) where
  -- assertNonEmptyString
  unfoldable pub non_empty_string : Option Json → Option String
  non_empty_string (some (Json.text s)) =
      require (not (text.trim s == "")) (require (not (text.contains s "\0")) (some s))
  non_empty_string _ = none

  -- assertIsoTimestamp; `is_date s` is false where Date.parse(s) is NaN
  unfoldable pub iso_timestamp : Option Json → Option String
  unfolding non_empty_string
  iso_timestamp v = and_then (non_empty_string v) (λ s. require (is_date s) (some s))

  -- the check of a field that may be undefined
  abbrev pub optional {ℓ} :
      {A : Type ℓ} → (Option Json → Option A) → Option Json → Option (Option A)
  optional check none = some none
  optional check v = and_then (check v) (λ a. some (some a))

  abbrev pub json_serializable : Option Json → Option Json
  json_serializable none = none
  json_serializable (some v) = require (is_json_value v) (some v)

  abbrev pub one_of : List String → Option String → Option String
  one_of allowed none = none
  one_of allowed (some s) = require (includes allowed s) (some s)

  -- `record.path` after its checks against the id
  unfoldable pub record_path : String → Option String → Option String
  record_path id none = none
  record_path id (some path) = elim (assert_memory_path text path) [
    | throw e ↦ none
    | ok _ ↦ elim (create_snapshot_path text id) [
      | throw e ↦ none
      | ok expected ↦ require (path == expected) (some path)
    ]
  ]

  unfoldable pub validate_fields : Fields → Option SnapshotRecord
  unfolding non_empty_string iso_timestamp record_path
  validate_fields fields = and_then (non_empty_string (field_of fields "id")) (λ id.
      and_then (record_path id (non_empty_string (field_of fields "path"))) (λ path.
        and_then (one_of snapshot_types (non_empty_string (field_of fields "type"))) (λ type.
          and_then (one_of snapshot_statuses (non_empty_string (field_of fields "status")))
            (λ status. and_then (iso_timestamp (field_of fields "createdAt")) (λ created_at.
              and_then (optional iso_timestamp (field_of fields "expiresAt")) (λ expires_at.
                and_then (optional non_empty_string (field_of fields "checksum")) (λ checksum.
                  and_then (optional json_serializable (field_of fields "metadata")) (λ metadata.
                    some (record {
                      id = id;
                      path = path;
                      type = type;
                      status = status;
                      created_at = created_at;
                      expires_at = expires_at;
                      checksum = checksum;
                      metadata = metadata;
                    })))))))))

  unfoldable pub validate_snapshot_record : Json → Option SnapshotRecord
  unfolding validate_fields
  validate_snapshot_record (Json.object fields) = validate_fields fields
  validate_snapshot_record _ = none

  -- readSnapshotRecords, with any failure as none
  unfoldable pub read_snapshot_records :
      (String → List String)
      → (String → Option Json)
      → MalformedJsonlMode
      → Files
      → Option (List SnapshotRecord)
  read_snapshot_records split json_parse mode files =
      elim (Store.read text files snapshots_index_path) [
        | throw e ↦ none
        | ok raw ↦ elim (parse_jsonl split text.trim json_parse validate_snapshot_record mode raw) [
          | throw e ↦ none
          | ok r ↦ some r.entries
        ]
      ]
