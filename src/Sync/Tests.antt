-- ===== src/Sync/Tests.antt =====
-- Concrete tables and requests for the sync theorems, used by the modules below. The language's
-- `String(n)` is stood in for by n strokes and a "0", which is injective and sends 0 to "0".
mod Gate
mod Commits
use Prim.Native.Char.{Char}
use Prim.Native.Nat.{ℕ}
use tekbreed_oss.Prelude.{
  ℕ, zero, suc, ◌+◌, ◌-◌, ◌≤◌, ◌<◌, String, ◌≡◌, ◌≢◌, refl, sym, ap, ◌∙◌, ◌⊎◌, inl, inr, Bool, true,
  false, Option, some, none, List, [], ◌∷◌, map, arith, eq_iff, ◌==◌, if◌then◌else◌, All,
}
use tekbreed_oss.Prelude.Json.{Json, Items, Fields}
use tekbreed_oss.Prelude.Number.{JsNumber, pos}
use tekbreed_oss.Prelude.Result.{ok, throw, Result}
use tekbreed_oss.JsMap
use tekbreed_oss.JsMap.{Distinct}
use tekbreed_oss.JsMap.Bulk.{set_all, delete_all, map_values, last_of, or_else}
use tekbreed_oss.JsMap.Totals.{total}
use tekbreed_oss.Sync.Tables.{
  Project, FileRow, CursorRow, CursorKind, Db, files_of, upsert_file, sum_size_bytes, update_total,
  latest_cursor, max_seq,
}
use tekbreed_oss.Sync.Manifest.{
  CloudFile, CloudFileManifest, FileManifest, Verified, load_cloud_manifest,
  cloud_manifest_to_local, diff_push_targets, diff_pull_targets, diff_removed,
  projected_storage_bytes,
}
use tekbreed_oss.Sync.Manifest.Diffs.{digest_at, pull_converges}
use tekbreed_oss.Sync.Commit.{
  ApiError, stale_cursor, initial_cursor, load_project, ensure_project, assert_owns, bump_cursor,
  upsert_files, last_sync_at, parse_cursor, current_cursor, commit_push,
}
use tekbreed_oss.Sync.Commit.Rows.{by_path, IsUnique}
use tekbreed_oss.Sync.Commit.Totals.{commit_push-total, get-commit_push, digests}
use tekbreed_oss.Sync.Commit.Cursors.{
  commit_push-cursor, commit_push_isolated, IsUnique-commit_push,
}
use tekbreed_oss.Sync.Commit.Converge.{push_converges}
use tekbreed_oss.Sync.Blobs.{Blob, buffer_to_hex, verify_uploaded, verify_all}
use tekbreed_oss.Sync.Lock.{TxError, stale, is_lock_timeout, acquire_write_lock}
use tekbreed_oss.Sync.Requests.{
  is_sha256, read_json_object, manifest_sha, manifest_entries, parse_manifest, uploaded_target,
  uploaded_entry, uploaded_entries, parse_uploaded,
}
use tekbreed_oss.Sync.Handlers.{
  Account, Prepared, require_project_id, entitlement_gate, check_uploads, prepare, locked, complete,
}
use tekbreed_oss.Sync.Handlers.Complete.{verify_all-eq_ok, IsStored}
use tekbreed_oss.Sync.Handlers.Gate.{Within, Event, happen, happen_all, gated_cap}
use tekbreed_oss.Sync.Handlers.Outcomes.{complete_outcome, ungated_overrun}

abbrev stroke : Char
stroke = "1"

abbrev show : ℕ → String
show zero = "0"
show (suc n) = String.◌∷◌ stroke (show n)

abbrev strokes : String → ℕ
strokes String.[] = 0
strokes (String.◌∷◌ c s) = suc (strokes s)

abbrev number : String → JsNumber
number s = pos (strokes s - 1)

strokes-show : (n : ℕ) → strokes (show n) ≡ suc n
strokes-show zero = refl
strokes-show (suc n) = omega (arith, strokes-show n)

show_injective : (a b : ℕ) → show a ≡ show b → a ≡ b
show_injective a b h = omega (arith, strokes-show a, strokes-show b, ap strokes h)

abbrev identity : String → String
identity s = s

abbrev never : String → String → Bool
never text part = false

program : Unit {0}
unfolding JsMap.get JsMap.set JsMap.delete set_all delete_all map_values last_of total files_of
    upsert_file sum_size_bytes update_total latest_cursor max_seq load_cloud_manifest
    cloud_manifest_to_local diff_push_targets diff_pull_targets diff_removed projected_storage_bytes
    load_project ensure_project assert_owns bump_cursor upsert_files last_sync_at parse_cursor
    current_cursor commit_push by_path buffer_to_hex verify_uploaded verify_all is_lock_timeout
    acquire_write_lock is_sha256 read_json_object manifest_sha manifest_entries parse_manifest
    uploaded_target uploaded_entry uploaded_entries parse_uploaded require_project_id
    entitlement_gate check_uploads prepare locked complete happen happen_all
program = tt

abbrev sha : String
sha = "0000000000000000000000000000000000000000000000000000000000000000"

abbrev digest : List ℕ → List ℕ
digest body =
    0 ∷ 0 ∷ 0 ∷ 0 ∷ 0 ∷ 0 ∷ 0 ∷ 0 ∷ 0 ∷ 0 ∷ 0 ∷ 0 ∷ 0 ∷ 0 ∷ 0 ∷ 0 ∷ 0 ∷ 0 ∷ 0 ∷ 0 ∷ 0 ∷ 0 ∷ 0 ∷ 0
    ∷ 0 ∷ 0 ∷ 0 ∷ 0 ∷ 0 ∷ 0 ∷ 0 ∷ 0 ∷ []

abbrev blobs : String → Option Blob
blobs key = if key == sha then some (record { body = []; size = 60 }) else none

abbrev account : Account
account = record { id = "acct"; max_hosted_storage_bytes = 100 }

abbrev db : Db
db = record {
  projects = ("p", record { account_id = "acct"; name = "p"; total_storage_bytes = 0 }) ∷ [];
  project_files = [];
  sync_cursors = [];
}

db-IsUnique : IsUnique db.project_files
unfolding program
db-IsUnique project = tt

abbrev entry : String → Json
entry path =
    Json.object
      (Fields.field "path" (Json.text path) (Fields.field "sha256" (Json.text sha) Fields.end))

abbrev body : Json → String → Option Json
body cursor path = some (
    Json.object (
      Fields.field "uploaded" (Json.array (Items.cons (entry path) Items.nil))
        (Fields.field "cursor" cursor Fields.end)))

abbrev upload : String → Verified
upload path = record { path = path; sha256 = sha; r2_key = sha; size_bytes = 60 }

abbrev after_other : Db
after_other = (commit_push show db "p" (upload "b.md" ∷ []) "noon").1

abbrev project_after : Project
project_after = record { account_id = "acct"; name = "p"; total_storage_bytes = 60 }

after_other-IsUnique : IsUnique after_other.project_files
after_other-IsUnique = IsUnique-commit_push show db "p" (upload "b.md" ∷ []) "noon" db-IsUnique

after_other-project : load_project after_other "p" ≡ some project_after
unfolding program
after_other-project = refl

-- Two clients with no base cursor, each with 60 of 100 bytes: the second commit makes 120.
abbrev ungated : Prepared
ungated = record { base_cursor_seq = none; verified = upload "a.md" ∷ [] }
