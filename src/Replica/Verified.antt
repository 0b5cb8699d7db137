-- ===== src/Replica/Verified.antt =====
-- What a pull may leave in the files, however it ends.
use tekbreed_oss.Prelude.{
  String, ◌≡◌, ◌⊎◌, refl, inl, inr, Bool, true, false, Option, none, some, List, [], ◌∷◌, arith,
  ◌==◌, eq_iff, Bool-cases, Option-cases,
}
use mathlib.Core.List.{Memᴰ}
use mathlib.Core.Path.{subst}
use tekbreed_oss.Prelude.Result.{ok, Result-cases}
use tekbreed_oss.JsMap
use tekbreed_oss.JsMap.{get-set, get-delete}
use tekbreed_oss.Memory.Paths.{PathText, assert_memory_path, safe_memory_path}
use tekbreed_oss.Memory.Store.{Files}
use tekbreed_oss.Memory.Store
use tekbreed_oss.Sync.Manifest.{FileManifest}
use tekbreed_oss.Sync.Handlers.{PullFile, PullResponse}
use tekbreed_oss.Replica.{
  Parsing, Hooks, write_target, download, remove_files, apply_response, pull,
  create_pre_sync_snapshot, manifest_of,
}

module _ (text : PathText) (parsing : Parsing) {E : Type 0} (hooks : Hooks E) where
  open hooks use {sha256_hex, fetch_text, client_pull}

  -- The text fetched for one of the targets, with the digest that it promises.
  abbrev pub Verified : List PullFile → String → String → Type 0
  Verified targets path content =
      (t : PullFile) × Memᴰ t targets
      × (safe_memory_path text t.path ≡ some path)
      × (fetch_text t.presigned_get_url ≡ ok content)
      × (sha256_hex content ≡ t.sha256)

  -- What a round writes.
  abbrev Wrote : Files → PullFile → Files → Type 0
  Wrote files t after =
      (path content : String) × (after ≡ JsMap.set files path content)
      × (safe_memory_path text t.path ≡ some path)
      × (fetch_text t.presigned_get_url ≡ ok content)
      × (sha256_hex content ≡ t.sha256)

  write_target-Wrote :
      (files after : Files) (t : PullFile)
      → write_target text parsing hooks files t ≡ ok after
      → Wrote files t after
  unfolding write_target Store.write
  write_target-Wrote files after t h = elim (Result-cases (fetch_text t.presigned_get_url)) [
    | inr (e, f) ↦ ground (arith, f)
    | inl (content, f) ↦ elim (Option-cases (safe_memory_path text t.path)) [
      | inl g ↦ ground (arith, f, g)
      | inr (path, g) ↦ (
        path,
        content,
        ground (arith, f, g),
        g,
        f,
        ground (arith, f, g, eq_iff (sha256_hex content) t.sha256),
      )
    ]
  ]

  -- A text there after a round and the later ones was there before, or is verified.
  earlier :
      (files after : Files) (t : PullFile) (targets : List PullFile) (path content : String)
      → Wrote files t after
      → (JsMap.get after path ≡ some content) ⊎ Verified targets path content
      → (JsMap.get files path ≡ some content) ⊎ Verified (t ∷ targets) path content
  earlier files after t targets path content wrote (inr (u, mem, a, b, c)) =
      inr (u, Memᴰ.tail mem, a, b, c)
  earlier files after t targets path content (p, c, same, safe, got, digest) (inl there) =
      let found : JsMap.get (JsMap.set files p c) path ≡ some content =
        subst (λ m. JsMap.get m path ≡ some content) same there in
      elim (Bool-cases (p == path)) [
        | inr other ↦ inl (ground (arith, found, get-set files p path c))
        | inl here ↦
            let text_same : c ≡ content = ground (arith, found, get-set files p path c) in
            let path_same : p ≡ path = (eq_iff p path).0 here in
            inr
              (t, Memᴰ.head refl, ground (arith, safe), ground (arith, got), ground (arith, digest))
      ]

  download-Verified :
      (files : Files) (targets : List PullFile) (path content : String)
      → JsMap.get (download text parsing hooks files targets).1 path ≡ some content
      → (JsMap.get files path ≡ some content) ⊎ Verified targets path content
  unfolding download
  download-Verified files [] path content h = inl h
  download-Verified files (t ∷ targets) path content h =
      elim (Result-cases (write_target text parsing hooks files t)) [
        | inr (e, f) ↦ inl (ground (arith, f))
        | inl (after, f) ↦
            earlier files after t targets path content (write_target-Wrote files after t f)
              (download-Verified after targets path content (ground (arith, f)))
      ]

  remove_files-kept :
      (files : Files) (removed : List String) (path content : String)
      → JsMap.get (remove_files text parsing hooks files removed).1 path ≡ some content
      → JsMap.get files path ≡ some content
  unfolding remove_files Store.delete
  remove_files-kept files [] path content h = h
  remove_files-kept files (r ∷ removed) path content h =
      elim (Option-cases (safe_memory_path text r)) [
        | inl e ↦ remove_files-kept files removed path content (ground (arith, e))
        | inr (p, e) ↦ elim (Result-cases (assert_memory_path text p)) [
          | inr (thrown, d) ↦ ground (arith, e, d)
          | inl (_, d) ↦
              let later =
                remove_files-kept (JsMap.delete files p) removed path content
                  (ground (arith, e, d)) in
              ground (arith, later, get-delete files p path)
        ]
      ]

  module _ (derives : hooks.reindex ≡ none) (path content : String) where
    apply_response-Verified :
        (response : PullResponse) (files : Files)
        → JsMap.get (apply_response text parsing hooks response files).1 path ≡ some content
        → (JsMap.get files path ≡ some content) ⊎ Verified response.files path content
    unfolding apply_response
    apply_response-Verified response files h =
        let loaded = download text parsing hooks files response.files in
        download-Verified files response.files path content (elim (Result-cases loaded.0) [
          | inr (e, f) ↦ ground (arith, f)
          | inl (u, f) ↦
              remove_files-kept loaded.1 response.removed path content
                (elim (Result-cases (remove_files text parsing hooks loaded.1 response.removed).0) [
                  | inr (e, g) ↦ ground (arith, f, g)
                  | inl (v, g) ↦ ground (arith, f, g, derives)
                ])
        ])

    -- Without reindexing, and however pull ends, also where it throws in the middle: a text that
    -- a path then has stood there before, or after the pre-sync snapshot, or was fetched for a
    -- target of the server's answer, under the target's path as the client takes it, and has the
    -- target's digest.
    pub pull_verified :
        (is_aborted : Bool) (input : Option FileManifest) (since : Option String) (files : Files)
        → JsMap.get (pull text parsing hooks is_aborted input since files).1 path ≡ some content
        → (JsMap.get files path ≡ some content)
          ⊎ (JsMap.get (create_pre_sync_snapshot text parsing hooks files).1 path ≡ some content)
          ⊎ ((manifest : FileManifest) × (response : PullResponse) × (client_pull manifest since
                ≡ ok response)
              × Verified response.files path content)
    unfolding pull
    pull_verified true input since files h = inl h
    pull_verified false input since files h =
        let snap = create_pre_sync_snapshot text parsing hooks files in
        elim (Result-cases snap.0) [
          | inr (e, f) ↦ inr (inl (ground (arith, f)))
          | inl (u, f) ↦ elim (Result-cases (manifest_of text parsing sha256_hex snap.1 input)) [
            | inr (e, g) ↦ inr (inl (ground (arith, f, g)))
            | inl (manifest, g) ↦ elim (Result-cases (client_pull manifest since)) [
              | inr (e, k) ↦ inr (inl (ground (arith, f, g, k)))
              | inl (response, k) ↦
                  elim (apply_response-Verified response snap.1 (ground (arith, f, g, k))) [
                    | inl there ↦ inr (inl there)
                    | inr from ↦ inr (inr (manifest, response, k, from))
                  ]
            ]
          ]
        ]
