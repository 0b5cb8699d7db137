-- ===== src/Replica/Composed.antt =====
-- The pull of the local half composed with the server's `/pull`.
use tekbreed_oss.Prelude.{ℕ, String, ◌≡◌, false, ◌||◌, Option, none, some, All, if◌then◌else◌}
use tekbreed_oss.Prelude.Json.{Json, Fields, field_of}
use tekbreed_oss.Prelude.Number.{JsNumber}
use tekbreed_oss.Prelude.Result.{Result, ok}
use tekbreed_oss.JsMap
use tekbreed_oss.JsMap.{has}
use tekbreed_oss.JsMap.Bulk.{map_option}
use tekbreed_oss.Memory.Paths.{PathText}
use tekbreed_oss.Memory.Store.{Files}
use tekbreed_oss.Sync.Tables.{Db, Project}
use tekbreed_oss.Sync.Manifest.{FileManifest}
use tekbreed_oss.Sync.Manifest.Diffs.{digest_at}
use tekbreed_oss.Sync.Commit.{ApiError, load_project}
use tekbreed_oss.Sync.Requests.{parse_optional_manifest}
use tekbreed_oss.Sync.Handlers.{PullResponse, Account}
use tekbreed_oss.Sync.Handlers as Server
use tekbreed_oss.Replica.{
  Parsing, Hooks, pull, create_pre_sync_snapshot, compute_local_manifest, reindexed,
}
use tekbreed_oss.Replica.Listing.{SnapshotText}
use tekbreed_oss.Replica.Answers.{pull-Answers}
use tekbreed_oss.Replica.Mirror.{Fetched, pull_applies}

module _ (text : PathText) (parsing : Parsing) {E : Type 0} (hooks : Hooks E)
    (trim : String → String) (show : ℕ → String) (number : String → JsNumber)
    (sign : String → Result ApiError String) where
  open hooks use {sha256_hex}

  -- One round trip: the files after the snapshot, their manifest as the client sends it, and the
  -- server's answer from its tables, whose URLs give the bytes promised.
  module _ (laws : SnapshotText text) (files files₁ : Files) (manifest : FileManifest)
      (since : Option String) (response : PullResponse) (db : Db) (account : Account)
      (project : String) (row : Project) (fields : Fields)
      (taken : create_pre_sync_snapshot text parsing hooks files ≡ (ok tt, files₁))
      (computed : compute_local_manifest text parsing sha256_hex files₁ ≡ ok manifest)
      (sent : parse_optional_manifest (field_of fields "manifest") ≡ ok (some manifest))
      (there : load_project db project ≡ some row)
      (answered : Server.pull trim show number sign db account project (some (Json.object fields))
        ≡ ok response)
      (received : hooks.client_pull manifest since ≡ ok response)
      (fetched : All (Fetched text parsing hooks) response.files) where
    -- Where the pre-sync snapshot is taken, the local manifest is computed and sent, the server
    -- answers `/pull` for an existing project, and each URL of the answer gives bytes with the
    -- promised digest under a path that the client uses: pull returns, and before the reindexing
    -- every path that the cloud or the manifest has carries the cloud's digest, and no file where
    -- the cloud has none, while every other path keeps its file's digest. It supposes four laws
    -- of texts on snapshot paths.
    pub pull_mirrors :
        (after : Files) × (pull text parsing hooks false none since files
          ≡ (ok response, reindexed text parsing hooks after))
        × ((path : String)
            → map_option sha256_hex (JsMap.get after path) ≡ (
                if has response.manifest path || has manifest path
                then digest_at response.manifest path
                else map_option sha256_hex (JsMap.get files₁ path)))
    pull_mirrors =
        pull_applies text parsing hooks laws files files₁ manifest since response taken computed
          received
          (pull-Answers trim show number sign db account project fields manifest row response there
            sent answered)
          fetched
