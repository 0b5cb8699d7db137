-- ===== src/Replica.antt =====
-- packages/tekmemo/src/tekmemo/sync/file-replication.ts: the local half of the file sync, which
-- mirrors the store's files to the cloud. The store is the in-memory one of Memory.Store, whose
-- files a method takes and leaves; the client, the requests to presigned URLs, the snapshot and the
-- reindexing are parameters (Hooks).
pub mod Uploads
pub mod Listing
pub mod Answers
pub mod Mirror
pub mod Composed
pub mod Pushed
pub mod Verified
mod Tests
use tekbreed_oss.Prelude.{
  String, Bool, true, false, not, Option, none, some, List, [], ◌∷◌, ◌++◌, map, ◌==◌, if◌then◌else◌,
}
use tekbreed_oss.Prelude.Json.{Json}
use tekbreed_oss.Prelude.Result.{Result, ok, throw, ◌>>=◌}
use tekbreed_oss.JsMap
use tekbreed_oss.Memory.Paths.{
  PathText, MemoryError, canonical_tekmemo_files, safe_snapshot_path, safe_memory_path,
}
use tekbreed_oss.Memory.Store.{Files}
use tekbreed_oss.Memory.Store
use tekbreed_oss.Memory.Records.{MalformedJsonlMode, SnapshotRecord, read_snapshot_records}
use tekbreed_oss.Sync.Manifest.{FileManifest, CloudFileManifest, Target}
use tekbreed_oss.Sync.Handlers.{UploadTarget, PushResponse, PullFile, PullResponse}

-- The errors thrown: the store's, the two checks' with the path, and those of a hook.
pub data SyncError (E : Type 0) : Type 0 where
  memory : MemoryError → SyncError E
  mismatch non_canonical : String → SyncError E
  hook : E → SyncError E
  aborted : SyncError E

-- What POST /push/complete answers.
pub record CompleteResponse : Type 0 where
  pub cursor : String
  pub manifest : CloudFileManifest

pub record Hooks (E : Type 0) : Type 0 where
  pub sha256_hex : String → String
  pub client_push : FileManifest → Option String → Result E PushResponse
  pub client_complete : List Target → Option String → Result E CompleteResponse
  pub client_pull : FileManifest → Option String → Result E PullResponse
  pub put_text : String → String → Result E (Unit {0})
  pub fetch_text : String → Result E String
  -- options.snapshot and options.reindex, which work on the same store
  pub snapshot : Option (Files → Result E (Unit {0}) × Files)
  pub reindex : Option (Files → Files)

-- The runtime's parsing: lines of a text, JSON, and whether Date.parse gives a number.
pub record Parsing : Type 0 where
  pub split : String → List String
  pub json_parse : String → Option Json
  pub is_date : String → Bool

abbrev pub from_store : {E A : Type 0} → Result MemoryError A → Result (SyncError E) A
from_store (ok a) = ok a
from_store (throw e) = throw (memory e)

abbrev pub from_hook : {E A : Type 0} → Result E A → Result (SyncError E) A
from_hook (ok a) = ok a
from_hook (throw e) = throw (hook e)

module _ (text : PathText) (parsing : Parsing) where
  -- one loop of listPresentPaths: the paths of the list that are in the store
  unfoldable pub present : Files → List String → Result MemoryError (List String)
  present files [] = ok []
  present files (path ∷ paths) = do
    here ← Store.exists text files path
    rest ← present files paths
    ok (if here then path ∷ rest else rest)

  -- one round of the other loop: a path that is in the store, or what follows
  abbrev pub add_found : String → Result MemoryError Bool → List String → List String
  add_found path (throw e) rest = []
  add_found path (ok true) rest = path ∷ rest
  add_found path (ok false) rest = rest

  abbrev pub add_snapshot : Files → Option String → List String → List String
  add_snapshot files none rest = rest
  add_snapshot files (some path) rest = add_found path (Store.exists text files path) rest

  -- that loop, in its `try`: what was found before an error stays
  unfoldable pub snapshot_paths : Files → List SnapshotRecord → List String
  snapshot_paths files [] = []
  snapshot_paths files (r ∷ records) =
      add_snapshot files (safe_snapshot_path text r.id) (snapshot_paths files records)

  unfoldable pub present_snapshots : Files → List String
  unfolding snapshot_paths
  present_snapshots files =
      elim (read_snapshot_records text parsing.is_date parsing.split parsing.json_parse
        MalformedJsonlMode.skip files) [ none ↦ [] | some records ↦ snapshot_paths files records ]

  unfoldable pub list_present_paths : Files → Result MemoryError (List String)
  unfolding present present_snapshots
  list_present_paths files = do
    paths ← present files canonical_tekmemo_files
    ok (paths ++ present_snapshots files)

  module _ (sha256_hex : String → String) where
    -- the loop of computeLocalManifest
    unfoldable pub digests : Files → FileManifest → List String → Result MemoryError FileManifest
    digests files manifest [] = ok manifest
    digests files manifest (path ∷ paths) = do
      content ← Store.read text files path
      digests files (JsMap.set manifest path (sha256_hex content)) paths

    unfoldable pub compute_local_manifest : Files → Result MemoryError FileManifest
    unfolding list_present_paths digests
    compute_local_manifest files = do paths ← list_present_paths files; digests files [] paths

    -- `input?.manifest ?? (await this.computeLocalManifest())`
    abbrev pub manifest_of : Files → Option FileManifest → Result MemoryError FileManifest
    manifest_of files none = compute_local_manifest files
    manifest_of files (some manifest) = ok manifest

  module _ {E : Type 0} (hooks : Hooks E) where
    open hooks use {sha256_hex, client_pull, fetch_text, snapshot, reindex}

    -- createPreSyncSnapshot
    unfoldable pub create_pre_sync_snapshot : Files → Result (SyncError E) (Unit {0}) × Files
    create_pre_sync_snapshot files = elim snapshot [
      | none ↦ (ok tt, files)
      | some take ↦ let (taken, files') = take files in (from_hook taken, files')
    ]

    -- one target of pull: fetched, verified and written
    unfoldable pub write_target : Files → PullFile → Result (SyncError E) Files
    write_target files target = do
      content ← from_hook (fetch_text target.presigned_get_url)
      if not (sha256_hex content == target.sha256)
          then throw (mismatch target.path)
          else elim (safe_memory_path text target.path) [
            | none ↦ throw (non_canonical target.path)
            | some path ↦ from_store (Store.write text files path content)
          ]

    unfoldable pub download : Files → List PullFile → Result (SyncError E) (Unit {0}) × Files
    download files [] = (ok tt, files)
    download files (target ∷ targets) = elim (write_target files target) [
      | throw e ↦ (throw e, files)
      | ok files' ↦ download files' targets
    ]

    unfoldable pub remove_files : Files → List String → Result (SyncError E) (Unit {0}) × Files
    remove_files files [] = (ok tt, files)
    remove_files files (removed ∷ later) = elim (safe_memory_path text removed) [
      | none ↦ remove_files files later
      | some path ↦ elim (Store.delete text files path) [
        | throw e ↦ (throw (memory e), files)
        | ok files' ↦ remove_files files' later
      ]
    ]

    -- `try { await options.reindex() } catch {}`
    abbrev pub reindexed : Files → Files
    reindexed files = elim reindex [ none ↦ files | some derive ↦ derive files ]

    -- pull, from the answer of the server on
    unfoldable pub apply_response : PullResponse → Files → Result (SyncError E) PullResponse × Files
    unfolding download remove_files
    apply_response response files =
        let (downloaded, files₁) = download files response.files in
        elim downloaded [
          | throw e ↦ (throw e, files₁)
          | ok _ ↦
              let (deleted, files₂) = remove_files files₁ response.removed in
              elim deleted [ throw e ↦ (throw e, files₂) | ok _ ↦ (ok response, reindexed files₂) ]
        ]

    unfoldable pub pull :
        Bool
        → Option FileManifest
        → Option String
        → Files
        → Result (SyncError E) PullResponse × Files
    unfolding create_pre_sync_snapshot apply_response
    pull is_aborted input since files =
        if is_aborted
        then (throw aborted, files)
        else let (taken, files₁) = create_pre_sync_snapshot files in
          elim taken [
            | throw e ↦ (throw e, files₁)
            | ok _ ↦ elim (manifest_of sha256_hex files₁ input) [
              | throw e ↦ (throw (memory e), files₁)
              | ok manifest ↦ elim (client_pull manifest since) [
                | throw e ↦ (throw (hook e), files₁)
                | ok response ↦ apply_response response files₁
              ]
            ]
          ]
