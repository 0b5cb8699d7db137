-- ===== src/Replica/Pushed.antt =====
-- What a pushFull that returns has done.
use tekbreed_oss.Prelude.{
  String, ◌≡◌, refl, Bool, true, false, not, none, some, List, [], ◌∷◌, map, arith, ◌==◌, eq_iff,
  if◌then◌else◌, Option-cases, inl, inr,
}
use tekbreed_oss.Prelude.Result.{Result, ok, throw, ◌>>=◌, Result-cases}
use mathlib.Core.Path.{subst}
use tekbreed_oss.Replica.Listing.{read-get}
use tekbreed_oss.JsMap
use tekbreed_oss.Memory.Paths.{PathText, safe_memory_path}
use tekbreed_oss.Memory.Store.{Files}
use tekbreed_oss.Memory.Store
use tekbreed_oss.Sync.Manifest.{FileManifest}
use tekbreed_oss.Sync.Handlers.{UploadTarget, PushResponse}
use tekbreed_oss.Replica.{
  SyncError, mismatch, CompleteResponse, Hooks, Parsing, from_store, from_hook,
  create_pre_sync_snapshot, compute_local_manifest,
}
use tekbreed_oss.Replica.Uploads.{
  add_put, put_target, upload_loop, upload, push, complete, finish, push_full,
}

module _ (text : PathText) (parsing : Parsing) {E : Type 0} (hooks : Hooks E) where
  open hooks use {sha256_hex, client_push, client_complete, put_text}

  -- One upload made for a target: the file's text, with the target's digest, to its URL.
  abbrev pub Made : Files → UploadTarget → String × String → Type 0
  Made files t (url, content) =
      (path : String) × (safe_memory_path text t.path ≡ some path)
      × (JsMap.get files path ≡ some content)
      × (sha256_hex content ≡ t.sha256)
      × (url ≡ t.presigned_put_url)
      × (put_text url content ≡ ok tt)

  -- One upload for each target, in order.
  abbrev pub AllMade : Files → List UploadTarget → List (String × String) → Type 0
  AllMade files [] [] = Unit {0}
  AllMade files (t ∷ targets) (p ∷ puts) = Made files t p × AllMade files targets puts
  AllMade files _ _ = ⊥

  -- The statements of one round, after the test of the path.
  abbrev sends : UploadTarget → String → Result (SyncError E) (String × String)
  sends t content = if not (sha256_hex content == t.sha256) then throw (mismatch t.path) else do
    _ ← from_hook (put_text t.presigned_put_url content)
    ok (t.presigned_put_url, content)

  sends-Made :
      (files : Files) (t : UploadTarget) (path content : String) (p : String × String)
      → safe_memory_path text t.path ≡ some path
      → JsMap.get files path ≡ some content
      → sends t content ≡ ok p
      → Made files t p
  sends-Made files t path content p safe found h =
      elim (Result-cases (put_text t.presigned_put_url content)) [
        | inr (e, d) ↦ ground (arith, d)
        | inl (u, d) ↦
            let same : ◌≡◌ {A = String × String} (t.presigned_put_url, content) p =
              ground (arith, d) in
            subst (λ (q : String × String). Made files t q) same
              (path, safe, found, ground (arith, d, eq_iff (sha256_hex content) t.sha256), refl, d)
      ]

  put_target-Made :
      (files : Files) (t : UploadTarget) (p : String × String)
      → put_target text parsing hooks files t ≡ ok p
      → Made files t p
  unfolding put_target
  put_target-Made files t p h = elim (Option-cases (safe_memory_path text t.path)) [
    | inl e ↦ ground (arith, e)
    | inr (path, e) ↦ elim (Result-cases (Store.read text files path)) [
      | inr (thrown, d) ↦ ground (arith, e, d)
      | inl (content, d) ↦
          sends-Made files t path content p e (read-get text parsing files path content d)
            (rw (d, from_store) at (rw (e, put_target) at h))
    ]
  ]

  add_put-AllMade :
      (files : Files) (t : UploadTarget) (targets : List UploadTarget)
      (r : Result (SyncError E) (String × String))
      (rest : Result (SyncError E) (Unit {0}) × List (String × String))
      → ((p : String × String) → r ≡ ok p → Made files t p)
      → (rest.0 ≡ ok tt → AllMade files targets rest.1)
      → (add_put text parsing hooks r rest).0 ≡ ok tt
      → AllMade files (t ∷ targets) (add_put text parsing hooks r rest).1
  add_put-AllMade files t targets (throw e) rest made all h = cc
  add_put-AllMade files t targets (ok p) rest made all h = (made p refl, all h)

  upload_loop-AllMade :
      (files : Files) (targets : List UploadTarget)
      → (upload_loop text parsing hooks files targets).0 ≡ ok tt
      → AllMade files targets (upload_loop text parsing hooks files targets).1
  unfolding upload_loop
  upload_loop-AllMade files [] h = tt
  upload_loop-AllMade files (t ∷ targets) h =
      add_put-AllMade files t targets (put_target text parsing hooks files t)
        (upload_loop text parsing hooks files targets) (λ p e. put_target-Made files t p e)
        (upload_loop-AllMade files targets) h

  -- The last phases, once the server has answered the push.
  abbrev Finishes : Files → PushResponse → CompleteResponse → List (String × String) → Type 0
  Finishes files pushed response puts =
      AllMade files pushed.upload puts
      × (client_complete (map (λ (t : UploadTarget). (t.path, t.sha256)) pushed.upload)
            (some pushed.cursor)
          ≡ ok response)

  finish-Finishes :
      (c d : Bool) (files files₁ : Files) (pushed : PushResponse) (response : CompleteResponse)
      (puts : List (String × String))
      → finish text parsing hooks c d files pushed ≡ (ok response, files₁, puts)
      → (files ≡ files₁) × Finishes files pushed response puts
  unfolding finish upload complete
  finish-Finishes true d files files₁ pushed response puts h = ground arith
  finish-Finishes false d files files₁ pushed response puts h =
      elim (Result-cases (upload_loop text parsing hooks files pushed.upload).0) [
        | inr (e, f) ↦ ground (arith, f)
        | inl (u, f) ↦
            let same : (upload_loop text parsing hooks files pushed.upload).1 ≡ puts =
              ground (arith, f) in
            (
              ground (arith, f),
              (
                subst (AllMade files pushed.upload) same
                    (upload_loop-AllMade files pushed.upload f),
                ground (arith, f),
              ),
            )
      ]

  push-ok :
      (b : Bool) (files : Files) (pushed : PushResponse)
      → push text parsing hooks b none none files ≡ ok pushed
      → (manifest : FileManifest) × (compute_local_manifest text parsing sha256_hex files
          ≡ ok manifest)
        × (client_push manifest none ≡ ok pushed)
  unfolding push
  push-ok true files pushed h = ground arith
  push-ok false files pushed h =
      elim (Result-cases (compute_local_manifest text parsing sha256_hex files)) [
        | inr (e, f) ↦ ground (arith, f)
        | inl (manifest, f) ↦ elim (Result-cases (client_push manifest none)) [
          | inr (e, g) ↦ ground (arith, f, g)
          | inl (answer, g) ↦ (manifest, f, ground (arith, f, g))
        ]
      ]

  -- If pushFull returns, then the snapshot was taken, the manifest of the files after it was
  -- pushed without a base cursor, for each target of the answer, in order, one upload was made of
  -- the file's text, which has the target's digest, to the target's URL, and the commit was of
  -- exactly those paths and digests with the cursor of the answer.
  pub push_full_lem :
      (a b c d : Bool) (files files₁ : Files) (response : CompleteResponse)
      (puts : List (String × String))
      → push_full text parsing hooks a b c d files ≡ (ok response, files₁, puts)
      → (manifest : FileManifest) × (pushed : PushResponse) × (create_pre_sync_snapshot text parsing
            hooks files
          ≡ (ok tt, files₁))
        × (compute_local_manifest text parsing sha256_hex files₁ ≡ ok manifest)
        × (client_push manifest none ≡ ok pushed)
        × AllMade files₁ pushed.upload puts
        × (client_complete
              (map (λ (t : UploadTarget). (t.path, t.sha256)) pushed.upload)
              (some pushed.cursor)
            ≡ ok response)
  unfolding push_full
  push_full_lem true b c d files files₁ response puts h = ground arith
  push_full_lem false b c d files files₁ response puts h =
      let snap = create_pre_sync_snapshot text parsing hooks files in
      elim (Result-cases snap.0) [
        | inr (e, f) ↦ ground (arith, f)
        | inl (u, f) ↦ elim (Result-cases (push text parsing hooks b none none snap.1)) [
          | inr (e, g) ↦ ground (arith, f, g)
          | inl (pushed, g) ↦
              let (same, (all, done)) =
                finish-Finishes c d snap.1 files₁ pushed response puts (ground (arith, f, g)) in
              let (manifest, computed, answered) = push-ok b snap.1 pushed g in
              (
                manifest,
                pushed,
                ground (arith, f, same),
                subst (λ fs. compute_local_manifest text parsing sha256_hex fs ≡ ok manifest) same
                    computed,
                answered,
                subst (λ fs. AllMade fs pushed.upload puts) same all,
                done,
              )
        ]
      ]
