-- ===== src/Replica/Uploads.antt =====
-- The pushing half of the file-replication layer: push, upload, complete and pushFull.
use tekbreed_oss.Prelude.{
  String, Bool, not, Option, none, some, List, [], ◌∷◌, map, ◌==◌, if◌then◌else◌,
}
use tekbreed_oss.Prelude.Result.{Result, ok, throw, ◌>>=◌}
use tekbreed_oss.Memory.Paths.{PathText, safe_memory_path}
use tekbreed_oss.Memory.Store.{Files}
use tekbreed_oss.Memory.Store
use tekbreed_oss.Sync.Manifest.{FileManifest, Target}
use tekbreed_oss.Sync.Handlers.{UploadTarget, PushResponse}
use tekbreed_oss.Replica.{
  SyncError, mismatch, non_canonical, aborted, CompleteResponse, Hooks, Parsing, from_store,
  from_hook, manifest_of, create_pre_sync_snapshot,
}

module _ (text : PathText) (parsing : Parsing) {E : Type 0} (hooks : Hooks E) where
  open hooks use {sha256_hex, client_push, client_complete, put_text}

  -- the URL and the text of one upload
  abbrev pub Put : Type 0
  Put = String × String

  -- one target of upload
  unfoldable pub put_target : Files → UploadTarget → Result (SyncError E) Put
  put_target files target = elim (safe_memory_path text target.path) [
    | none ↦ throw (non_canonical target.path)
    | some path ↦ do
      content ← from_store (Store.read text files path)
      if not (sha256_hex content == target.sha256) then throw (mismatch target.path) else do
        _ ← from_hook (put_text target.presigned_put_url content)
        ok (target.presigned_put_url, content)
  ]

  -- One round of the loop, before those that follow: the uploads made stand in order.
  abbrev pub add_put :
      Result (SyncError E) Put
      → Result (SyncError E) (Unit {0}) × List Put
      → Result (SyncError E) (Unit {0}) × List Put
  add_put (throw e) rest = (throw e, [])
  add_put (ok put) (r, puts) = (r, put ∷ puts)

  -- the loop of upload
  unfoldable pub upload_loop :
      Files → List UploadTarget → Result (SyncError E) (Unit {0}) × List Put
  upload_loop files [] = (ok tt, [])
  upload_loop files (target ∷ targets) =
      add_put (put_target files target) (upload_loop files targets)

  unfoldable pub upload :
      Bool → Files → List UploadTarget → Result (SyncError E) (Unit {0}) × List Put
  unfolding upload_loop
  upload is_aborted files targets =
      if is_aborted then (throw aborted, []) else upload_loop files targets

  -- `input?.baseCursor ? { baseCursor } : {}`
  abbrev pub truthy : Option String → Option String
  truthy none = none
  truthy (some s) = if s == "" then none else some s

  unfoldable pub push :
      Bool → Option FileManifest → Option String → Files → Result (SyncError E) PushResponse
  push is_aborted input base_cursor files = if is_aborted then throw aborted else do
    manifest ← from_store (manifest_of text parsing sha256_hex files input)
    from_hook (client_push manifest (truthy base_cursor))

  unfoldable pub complete :
      Bool → List Target → Option String → Result (SyncError E) CompleteResponse
  complete is_aborted uploaded cursor =
      if is_aborted then throw aborted else from_hook (client_complete uploaded cursor)

  abbrev pub uploaded_of : List UploadTarget → List Target
  uploaded_of = map (λ t. (t.path, t.sha256))

  -- pushFull, from the answer to the push on
  unfoldable pub finish :
      Bool → Bool → Files → PushResponse → Result (SyncError E) CompleteResponse × Files × List Put
  unfolding upload complete
  finish at_upload at_complete files pushed =
      let (uploaded, puts) = upload at_upload files pushed.upload in
      elim uploaded [
        | throw e ↦ (throw e, files, puts)
        | ok _ ↦
            (complete at_complete (uploaded_of pushed.upload) (some pushed.cursor), files, puts)
      ]

  -- pushFull: the answer, the files left, and the uploads made. The signal is read at each phase.
  unfoldable pub push_full :
      Bool → Bool → Bool → Bool → Files → Result (SyncError E) CompleteResponse × Files × List Put
  unfolding finish push
  push_full at_start at_push at_upload at_complete files =
      if at_start
      then (throw aborted, files, [])
      else let (taken, files₁) = create_pre_sync_snapshot text parsing hooks files in
        elim taken [
          | throw e ↦ (throw e, files₁, [])
          | ok _ ↦ elim (push at_push none none files₁) [
            | throw e ↦ (throw e, files₁, [])
            | ok pushed ↦ finish at_upload at_complete files₁ pushed
          ]
        ]
