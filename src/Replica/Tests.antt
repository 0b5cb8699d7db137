-- ===== src/Replica/Tests.antt =====
-- The local half of the sync run against the server on a folder with one file, and its theorems
-- there. A snapshot's path is its name here, and a digest depends on whether the text is "new".
use tekbreed_oss.Prelude.{
  ◌⊎◌, ℕ, String, ◌≡◌, refl, true, false, not, ◌||◌, none, some, [], ◌∷◌, ◌==◌, if◌then◌else◌,
  includes, map,
}
use tekbreed_oss.Prelude.Json.{Json, Fields}
use tekbreed_oss.Prelude.Number.{JsNumber, pos}
use tekbreed_oss.Prelude.Result.{ok}
use tekbreed_oss.JsMap
use tekbreed_oss.JsMap.{has}
use tekbreed_oss.JsMap.Bulk.{map_option, set_all}
use tekbreed_oss.Memory.Paths.{
  PathText, core_memory_path, snapshots_index_path, is_memory_path, assert_memory_path,
  create_snapshot_path, safe_snapshot_path, safe_snapshot_path_from_path, safe_memory_path,
}
use tekbreed_oss.Memory.Store.{Files}
use tekbreed_oss.Memory.Store
use tekbreed_oss.Memory.Records.{
  parse_lines, parse_jsonl, non_empty_string, iso_timestamp, record_path, validate_fields,
  validate_snapshot_record, read_snapshot_records,
}
use tekbreed_oss.Sync.Tables.{Db, Project, files_of, latest_cursor, max_seq}
use tekbreed_oss.Sync.Manifest.{FileManifest, load_cloud_manifest, diff_pull_targets, diff_removed}
use tekbreed_oss.Sync.Manifest.Diffs.{digest_at}
use tekbreed_oss.Sync.Commit.{load_project, assert_owns, current_cursor}
use tekbreed_oss.Sync.Blobs.{presign_many}
use tekbreed_oss.Sync.Requests.{
  is_hex, is_sha256, read_json_object, manifest_sha, manifest_entries, parse_manifest,
  parse_optional_manifest,
}
use tekbreed_oss.Sync.Handlers.{
  UploadTarget, PushResponse, PullResponse, Account, require_project_id,
}
use tekbreed_oss.Sync.Handlers as Server
use tekbreed_oss.Replica.{
  Parsing, Hooks, CompleteResponse, present, snapshot_paths, present_snapshots, list_present_paths,
  digests, compute_local_manifest, create_pre_sync_snapshot, write_target, download, remove_files,
  apply_response, pull, reindexed,
}
use tekbreed_oss.Replica.Uploads.{
  put_target, upload_loop, upload, push, complete, finish, push_full,
}
use tekbreed_oss.Replica.Listing.{SnapshotText}
use tekbreed_oss.Replica.Composed.{pull_mirrors}
use tekbreed_oss.Replica.Verified.{Verified, pull_verified}
use tekbreed_oss.Replica.Pushed.{AllMade, push_full_lem}

program : Unit {0}
unfolding includes JsMap.get JsMap.set JsMap.delete set_all is_memory_path assert_memory_path
    create_snapshot_path safe_snapshot_path safe_snapshot_path_from_path safe_memory_path Store.read
    Store.write Store.exists Store.delete parse_lines parse_jsonl non_empty_string iso_timestamp
    record_path validate_fields validate_snapshot_record read_snapshot_records files_of
    latest_cursor max_seq load_cloud_manifest diff_pull_targets diff_removed load_project
    assert_owns current_cursor presign_many is_hex is_sha256 read_json_object manifest_sha
    manifest_entries parse_manifest parse_optional_manifest require_project_id Server.pull present
    snapshot_paths present_snapshots list_present_paths digests compute_local_manifest
    create_pre_sync_snapshot write_target download remove_files apply_response pull put_target
    upload_loop upload push complete finish push_full
program = tt

abbrev text : PathText
text = record {
  trim = λ s. s;
  contains = λ s t. false;
  starts_with = λ s t. not (t == "/");
  ends_with = λ s t. true;
  parts = λ s. s ∷ [];
  inner = λ s. s;
  snapshot_path = λ s. s;
  snapshot_file = λ s. true;
  snapshot_name = λ s. true;
}

abbrev laws : SnapshotText text
laws = record {
  starts = λ s. refl;
  ends = λ s. refl;
  inner_path = λ s. refl;
  trim_trim = λ s. refl;
}

abbrev snapshot_record : Json
snapshot_record = Json.object (
    Fields.field "id" (Json.text "snapshot") (
      Fields.field "path" (Json.text "snapshot") (
        Fields.field "type" (Json.text "pre-sync") (
          Fields.field "status" (Json.text "available")
            (Fields.field "createdAt" (Json.text "now") Fields.end)))))

abbrev parsing : Parsing
parsing = record {
  split = λ s. s ∷ [];
  json_parse = λ s. if s == "record" then some snapshot_record else none;
  is_date = λ s. true;
}

abbrev new_digest : String
new_digest = "aaaaaaaaaaaaaaaaaaaaaaaaaaaaaaaaaaaaaaaaaaaaaaaaaaaaaaaaaaaaaaaa"

abbrev old_digest : String
old_digest = "bbbbbbbbbbbbbbbbbbbbbbbbbbbbbbbbbbbbbbbbbbbbbbbbbbbbbbbbbbbbbbbb"

-- The folder, and with the snapshot that a sync takes first.
abbrev files : Files
files = (core_memory_path, "old") ∷ []

abbrev files₁ : Files
files₁ = (core_memory_path, "old") ∷ ("snapshot", "copy") ∷ (snapshots_index_path, "record") ∷ []

abbrev manifest : FileManifest
manifest =
    (core_memory_path, old_digest)
    ∷ (snapshots_index_path, old_digest)
    ∷ ("snapshot", old_digest)
    ∷ []

abbrev body : Fields
body =
    Fields.field "manifest"
      (Json.object (
        Fields.field core_memory_path (Json.text old_digest) (
          Fields.field snapshots_index_path (Json.text old_digest)
            (Fields.field "snapshot" (Json.text old_digest) Fields.end))))
      Fields.end

abbrev row : Project
row = record { account_id = "account"; name = "project"; total_storage_bytes = 3 }

-- The cloud has another core file, and no snapshot.
abbrev db : Db
db = record {
  projects = ("project", row) ∷ [];
  project_files =
      record {
        project_id = "project";
        path = core_memory_path;
        sha256 = new_digest;
        r2_key = new_digest;
        size_bytes = 3;
        updated_at = "then";
      }
      ∷ [];
  sync_cursors = [];
}

abbrev account : Account
account = record { id = "account"; max_hosted_storage_bytes = 100 }

abbrev response : PullResponse
response = record {
  files =
      record {
        path = core_memory_path;
        sha256 = new_digest;
        size_bytes = 3;
        presigned_get_url = new_digest;
      }
      ∷ [];
  removed = snapshots_index_path ∷ "snapshot" ∷ [];
  cursor = "0";
  manifest = load_cloud_manifest "project" db.project_files;
}

abbrev pushed : PushResponse
pushed = record {
  upload =
      record { path = "snapshot"; sha256 = old_digest; size_bytes = 0; presigned_put_url = "url" }
      ∷ [];
  cursor = "0";
}

abbrev completed : CompleteResponse
completed = record { cursor = "1"; manifest = [] }

abbrev hooks : Hooks (Unit {0})
hooks = record {
  sha256_hex = λ s. if s == "new" then new_digest else old_digest;
  client_push = λ m c. ok pushed;
  client_complete = λ u c. ok completed;
  client_pull = λ m s. ok response;
  put_text = λ url s. ok tt;
  fetch_text = λ url. ok "new";
  snapshot = some (λ f. (ok tt, files₁));
  reindex = none;
}

abbrev show : ℕ → String
show n = "0"

abbrev identity : String → String
identity s = s

abbrev number : String → JsNumber
number s = pos 0

pulled : (pull text parsing hooks false none none files).1 ≡ (core_memory_path, "new") ∷ []
unfolding program
pulled = refl

pull_mirrors_example :
    (after : Files) × (pull text parsing hooks false none none files
      ≡ (ok response, reindexed text parsing hooks after))
    × ((path : String)
        → map_option hooks.sha256_hex (JsMap.get after path) ≡ (
            if has response.manifest path || has manifest path
            then digest_at response.manifest path
            else map_option hooks.sha256_hex (JsMap.get files₁ path)))
unfolding program
pull_mirrors_example =
    pull_mirrors text parsing hooks identity show number (λ s. ok s) laws files files₁ manifest none
      response db account "project" row body refl refl refl refl refl refl
      ((record { safe = refl; passes = refl }, "new", refl, refl), tt)

push_full_lem_example :
    (m : FileManifest) × (p : PushResponse) × (create_pre_sync_snapshot text parsing hooks files
      ≡ (ok tt, files₁))
    × (compute_local_manifest text parsing hooks.sha256_hex files₁ ≡ ok m)
    × (hooks.client_push m none ≡ ok p)
    × AllMade text parsing hooks files₁ p.upload (("url", "copy") ∷ [])
    × (hooks.client_complete
          (map (λ (t : UploadTarget). (t.path, t.sha256)) p.upload)
          (some p.cursor)
        ≡ ok completed)
unfolding program
push_full_lem_example =
    push_full_lem text parsing hooks false false false false files files₁ completed
      (("url", "copy") ∷ []) refl

pull_verified_example :
    (JsMap.get files core_memory_path ≡ some "new")
    ⊎ (JsMap.get (create_pre_sync_snapshot text parsing hooks files).1 core_memory_path
        ≡ some "new")
    ⊎ ((m : FileManifest) × (r : PullResponse) × (hooks.client_pull m none ≡ ok r)
        × Verified text parsing hooks r.files core_memory_path "new")
unfolding program
pull_verified_example =
    pull_verified text parsing hooks refl core_memory_path "new" false none none files refl
