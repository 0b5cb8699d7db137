-- ===== src/Sync/Handlers.antt =====
-- The four routes of apps/cloud/src/api/sync/index.ts, on an authenticated account. A handler gives
-- its response or the error thrown, and the tables that it leaves. `complete` is in two parts, as
-- the code runs it: what it reads and checks before the write lock (`prepare`), and what it does
-- under it (`locked`).
pub mod Complete
pub mod Gate
pub mod Outcomes
use tekbreed_oss.Prelude.{
  ℕ, String, Bool, true, false, not, Option, none, some, List, [], ◌∷◌, map, ◌==◌, ltb,
  if◌then◌else◌, get_or,
}
use tekbreed_oss.Prelude.Json.{Json, field_of}
use tekbreed_oss.Prelude.Number.{JsNumber}
use tekbreed_oss.Prelude.Result.{Result, ok, throw, ◌>>=◌, ◌>>◌}
use tekbreed_oss.JsMap
use tekbreed_oss.JsMap.{JsMap}
use tekbreed_oss.Sync.Tables.{Project, Db}
use tekbreed_oss.Sync.Manifest.{
  CloudFile, CloudFileManifest, FileManifest, Target, Verified, load_cloud_manifest,
  cloud_manifest_to_local, diff_push_targets, diff_pull_targets, diff_removed,
  projected_storage_bytes,
}
use tekbreed_oss.Sync.Commit.{
  ApiError, validation, no_prior_push, entitlement, initial_cursor, load_project, ensure_project,
  assert_owns, current_cursor, last_sync_at, parse_cursor, commit_push,
}
use tekbreed_oss.Sync.Blobs.{Blob, verify_all, presign_many}
use tekbreed_oss.Sync.Lock.{TxError, stale, acquire_write_lock}
use tekbreed_oss.Sync.Requests.{
  read_json_object, parse_manifest, parse_optional_manifest, parse_uploaded, text_of,
}

pub record Account : Type 0 where
  pub id : String
  pub max_hosted_storage_bytes : ℕ

pub record UploadTarget : Type 0 where
  pub path : String
  pub sha256 : String
  pub size_bytes : ℕ
  pub presigned_put_url : String

pub record PushResponse : Type 0 where
  pub upload : List UploadTarget
  pub cursor : String

pub record PullFile : Type 0 where
  pub path : String
  pub sha256 : String
  pub size_bytes : ℕ
  pub presigned_get_url : String

pub record PullResponse : Type 0 where
  pub files : List PullFile
  pub removed : List String
  pub cursor : String
  pub manifest : CloudFileManifest

pub record StatusResponse : Type 0 where
  pub manifest : CloudFileManifest
  pub cursor : String
  pub storage_bytes : ℕ
  pub last_sync_at : Option String

-- emptyPull
abbrev pub empty_pull : PullResponse
empty_pull = record { files = []; removed = []; cursor = initial_cursor; manifest = [] }

-- requireProjectId
unfoldable pub require_project_id : (String → String) → String → Result ApiError String
require_project_id trim id = if trim id == "" then throw validation else ok id

abbrev put_target : JsMap String → Target → UploadTarget
put_target urls (path, sha) = record {
  path = path;
  sha256 = sha;
  size_bytes = 0;
  presigned_put_url = get_or (JsMap.get urls sha) "";
}

abbrev size_at : CloudFileManifest → String → ℕ
size_at cloud path = elim (JsMap.get cloud path) [ none ↦ 0 | some e ↦ e.size_bytes ]

abbrev pub get_target : CloudFileManifest → JsMap String → Target → PullFile
get_target cloud urls (path, sha) = record {
  path = path;
  sha256 = sha;
  size_bytes = size_at cloud path;
  presigned_get_url = get_or (JsMap.get urls sha) "";
}

abbrev shas : List Target → List String
shas = map (λ t. t.1)

module _ (trim : String → String) (show : ℕ → String) (number : String → JsNumber)
    (sign : String → Result ApiError String) where
  -- what `/push` answers from the tables
  unfoldable pub push_response : Db → String → FileManifest → Result ApiError PushResponse
  push_response db project manifest = do
    let cloud = load_cloud_manifest project db.project_files
    let targets = diff_push_targets manifest (cloud_manifest_to_local cloud)
    urls ← presign_many sign (shas targets)
    ok (record { upload = map (put_target urls) targets; cursor = current_cursor show db project })

  -- the manifest that `/push` is sent
  unfoldable pub push_input : String → Option Json → Result ApiError FileManifest
  push_input project_id body = do
    _ ← require_project_id trim project_id
    fields ← read_json_object body
    parse_manifest (field_of fields "manifest")

  -- POST /push: a first push makes the project before anything can fail further down
  unfoldable pub push : Db → Account → String → Option Json → Result ApiError PushResponse × Db
  push db account project body = elim (push_input project body) [
    | throw e ↦ (throw e, db)
    | ok manifest ↦
        let (db', p) = ensure_project db account.id project in
        (do assert_owns p account.id; push_response db' project manifest, db')
  ]

  -- POST /pull
  unfoldable pub pull : Db → Account → String → Option Json → Result ApiError PullResponse
  pull db account project body = do
    _ ← require_project_id trim project
    fields ← read_json_object body
    client ← parse_optional_manifest (field_of fields "manifest")
    elim (load_project db project) [
      | none ↦ ok empty_pull
      | some p ↦ do
        assert_owns p account.id
        let cloud = load_cloud_manifest project db.project_files
        let have = get_or client []
        let targets = diff_pull_targets cloud have
        urls ← presign_many sign (shas targets)
        ok (record {
          files = map (get_target cloud urls) targets;
          removed = diff_removed have cloud;
          cursor = current_cursor show db project;
          manifest = cloud;
        })
    ]

  -- GET /status
  unfoldable pub status : Db → Account → String → Result ApiError StatusResponse
  status db account project = do
    _ ← require_project_id trim project
    elim (load_project db project) [
      | none ↦ ok (record {
        manifest = [];
        cursor = initial_cursor;
        storage_bytes = 0;
        last_sync_at = none;
      })
      | some p ↦ do
        assert_owns p account.id
        ok (record {
          manifest = load_cloud_manifest project db.project_files;
          cursor = current_cursor show db project;
          storage_bytes = p.total_storage_bytes;
          last_sync_at = last_sync_at db project;
        })
    ]

-- `current !== String(baseCursorSeq)`, where the client sent a cursor
abbrev pub is_stale : (ℕ → String) → Option ℕ → String → Bool
is_stale show none current = false
is_stale show (some n) current = not (current == show n)

abbrev pub base_text : (ℕ → String) → Option ℕ → String
base_text show none = ""
base_text show (some n) = show n

-- `if (!project) throw …`
abbrev pub or_conflict : Option Project → Result ApiError Project
or_conflict none = throw no_prior_push
or_conflict (some p) = ok p

-- What `/push/complete` takes into the transaction.
pub record Prepared : Type 0 where
  pub base_cursor_seq : Option ℕ
  pub verified : List Verified

module _ (trim : String → String) (show : ℕ → String) (number : String → JsNumber)
    (digest : List ℕ → List ℕ) (blobs : String → Option Blob) where
  -- the entitlement gate
  unfoldable pub entitlement_gate :
      Db → Account → String → Project → List Verified → Result ApiError (Unit {0})
  entitlement_gate db account project p verified =
      let projected =
        projected_storage_bytes (load_cloud_manifest project db.project_files) verified in
      if ltb account.max_hosted_storage_bytes projected
      then throw (entitlement p.total_storage_bytes projected account.max_hosted_storage_bytes)
      else ok tt

  -- a project that exists: ownership, the uploads, the gate
  unfoldable pub check_uploads :
      Db → Account → String → Option ℕ → List Target → Project → Result ApiError Prepared
  check_uploads db account project base uploaded p = do
    assert_owns p account.id
    verified ← verify_all digest blobs uploaded
    entitlement_gate db account project p verified
    ok (record { base_cursor_seq = base; verified = verified })

  -- POST /push/complete up to the lock: it reads and does not write
  unfoldable pub prepare : Db → Account → String → Option Json → Result ApiError Prepared
  prepare db account project body = do
    _ ← require_project_id trim project
    fields ← read_json_object body
    uploaded ← parse_uploaded (field_of fields "uploaded")
    p ← or_conflict (load_project db project)
    check_uploads db account project (parse_cursor number (text_of (field_of fields "cursor")))
        uploaded p

-- the function that `/push/complete` runs under the lock
unfoldable pub locked :
    (ℕ → String)
    → String
    → Prepared
    → String
    → Db
    → Result TxError (String × CloudFileManifest) × Db
locked show project prepared now tx =
    let current = current_cursor show tx project in
    if is_stale show prepared.base_cursor_seq current
    then (throw (stale (base_text show prepared.base_cursor_seq) current), tx)
    else (let (answer, tx') = commit_push show tx project prepared.verified now in (ok answer, tx'))

-- POST /push/complete with nothing between its two parts. `begin` and `end` are the driver's errors.
module _ (trim : String → String) (show : ℕ → String) (number : String → JsNumber)
    (digest : List ℕ → List ℕ) (blobs : String → Option Blob) (lower : String → String)
    (contains : String → String → Bool) where
  unfoldable pub complete :
      Option TxError
      → Option TxError
      → Db
      → Account
      → String
      → Option Json
      → String
      → Result ApiError (String × CloudFileManifest) × Db
  complete begin end db account project body now =
      elim (prepare trim show number digest blobs db account project body) [
        | throw e ↦ (throw e, db)
        | ok prepared ↦
            acquire_write_lock lower contains begin end db (locked show project prepared now)
      ]
