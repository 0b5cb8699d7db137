-- ===== src/Sync/Commit.antt =====
-- Commits, cursors and ownership (apps/cloud/src/api/sync/shared.ts). `show` is the language's
-- `String(n)`, `number s` is the integer that `Number(s)` gives (`nan` where it gives none), and
-- `now` is the database's current_timestamp.
pub mod Rows
pub mod Totals
pub mod Cursors
pub mod Converge
use tekbreed_oss.Prelude.{
  ℕ, zero, suc, ◌+◌, String, Option, none, some, List, [], ◌∷◌, ◌++◌, ◌==◌, if◌then◌else◌,
}
use tekbreed_oss.Prelude.Number.{JsNumber, pos}
use tekbreed_oss.Prelude.Result.{Result, ok, throw}
use tekbreed_oss.JsMap
use tekbreed_oss.Sync.Tables.{
  Project, FileRow, CursorRow, CursorKind, push, Db, upsert_file, sum_size_bytes, update_total,
  latest_cursor, max_seq,
}
use tekbreed_oss.Sync.Manifest.{CloudFileManifest, Verified, load_cloud_manifest}

-- apps/cloud/src/api/errors.ts: the errors that the sync handlers throw, with what they carry.
pub data ApiError : Type 0 where
  validation permission : ApiError
  not_uploaded : String → ApiError
  sha256_mismatch : String → String → ApiError
  no_prior_push : ApiError
  stale_cursor : String → String → ApiError
  entitlement : ℕ → ℕ → ℕ → ApiError
  concurrency : ApiError
  other : String → ApiError

abbrev pub initial_cursor : String
initial_cursor = "0"

-- loadProject
unfoldable pub load_project : Db → String → Option Project
load_project db id = JsMap.get db.projects id

-- ensureProject
unfoldable pub ensure_project : Db → String → String → Db × Project
ensure_project db account id = elim (JsMap.get db.projects id) [
  | some p ↦ (db, p)
  | none ↦
      let p : Project = record { account_id = account; name = id; total_storage_bytes = 0 } in
      (record db { projects = JsMap.set db.projects id p }, p)
]

-- assertOwns
unfoldable pub assert_owns : Project → String → Result ApiError (Unit {0})
assert_owns p account = if p.account_id == account then ok tt else throw permission

-- bumpCursor, bumpCursorTx
unfoldable pub bump_cursor : Db → String → CursorKind → String → ℕ × Db
bump_cursor db project kind now =
    let next = max_seq project db.sync_cursors + 1 in
    (
      next,
      record db {
        sync_cursors =
            db.sync_cursors
            ++ record { project_id = project; seq = next; kind = kind; created_at = now } ∷ [];
      },
    )

abbrev pub file_row : String → String → Verified → FileRow
file_row project now e = record {
  project_id = project;
  path = e.path;
  sha256 = e.sha256;
  r2_key = e.r2_key;
  size_bytes = e.size_bytes;
  updated_at = now;
}

-- the loop of commitPush over `uploaded`
unfoldable pub upsert_files : String → String → List FileRow → List Verified → List FileRow
upsert_files project now rows [] = rows
upsert_files project now rows (e ∷ uploaded) =
    upsert_files project now (upsert_file rows (file_row project now e)) uploaded

-- lastSyncAt
unfoldable pub last_sync_at : Db → String → Option String
last_sync_at db project = elim (latest_cursor project db.sync_cursors) [
  | none ↦ none
  | some r ↦ some r.created_at
]

-- parseCursor
module _ (number : String → JsNumber) where
  abbrev pub natural : JsNumber → Option ℕ
  natural (pos n) = some n
  natural _ = none

  unfoldable pub parse_cursor : Option String → Option ℕ
  parse_cursor none = none
  parse_cursor (some c) = if c == "" then none else natural (number c)

module _ (show : ℕ → String) where
  -- currentCursor, currentCursorTx
  unfoldable pub current_cursor : Db → String → String
  current_cursor db project = elim (latest_cursor project db.sync_cursors) [
    | none ↦ initial_cursor
    | some r ↦ show r.seq
  ]

  -- commitPush, commitPushTx: the cursor, the files, the total, the manifest, in this order
  unfoldable pub commit_push :
      Db → String → List Verified → String → (String × CloudFileManifest) × Db
  unfolding bump_cursor
  commit_push db project uploaded now =
      let (next, db₁) = bump_cursor db project push now in
      let files = upsert_files project now db₁.project_files uploaded in
      let total_bytes = sum_size_bytes project files in
      (
        (show next, load_cloud_manifest project files),
        record db₁ {
          project_files = files;
          projects = update_total db₁.projects project total_bytes;
        },
      )
