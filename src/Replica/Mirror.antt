-- ===== src/Replica/Mirror.antt =====
-- A pull that goes through, composed with the server's answer (Sync.Handlers.pull).
use tekbreed_oss.Prelude.{
  String, ◌≡◌, refl, sym, ap, ◌∙◌, Bool, true, false, not, ◌&&◌, ◌||◌, Option, none, some, List, [],
  ◌∷◌, map, arith, inl, inr, Bool-cases, ◌==◌, eq_iff, eq_refl, All, includes, if◌then◌else◌,
  is_some,
}
use mathlib.Core.Path.{subst}
use tekbreed_oss.Prelude.Result.{ok}
use tekbreed_oss.JsMap
use tekbreed_oss.JsMap.{JsMap, has, Distinct}
use tekbreed_oss.JsMap.Bulk.{
  map_option, map_values, set_all, delete_all, last_of, or_else, get-set_all, get-delete_all,
  get-map_values, map_values-set_all,
}
use tekbreed_oss.Memory.Paths.{PathText}
use tekbreed_oss.Memory.Store.{Files}
use tekbreed_oss.Memory.Store
use tekbreed_oss.Sync.Manifest.{CloudFile, FileManifest}
use tekbreed_oss.Sync.Manifest.Diffs.{
  digest_at, listed, last_of-diff_pull_targets, includes-diff_removed,
}
use tekbreed_oss.Sync.Handlers.{PullFile, PullResponse}
use tekbreed_oss.Replica.{
  Parsing, Hooks, write_target, download, remove_files, apply_response, pull,
  create_pre_sync_snapshot, compute_local_manifest, reindexed,
}
use tekbreed_oss.Replica.Answers.{Answers, target_of}
use tekbreed_oss.Replica.Listing.{Good, SnapshotText, compute_local_manifest-lem}

module _ {ℓ} (P : String → Type ℓ) where
  All-includes : (xs : List String) (p : String) → All P xs → includes xs p ≡ true → P p
  unfolding includes
  All-includes [] p all h = cc
  All-includes (x ∷ xs) p all h = elim (Bool-cases (x == p)) [
    | inl e ↦ subst P ((eq_iff x p).0 e) all.0
    | inr e ↦ All-includes xs p all.1 (ground arith)
  ]

  All-of-includes : (xs : List String) → ((p : String) → includes xs p ≡ true → P p) → All P xs
  unfolding includes
  All-of-includes [] f = tt
  All-of-includes (x ∷ xs) f =
      (f x (ground (arith, eq_refl x)), All-of-includes xs (λ p h. f p (ground arith)))

module _ (text : PathText) (parsing : Parsing) {E : Type 0} (hooks : Hooks E) where
  open hooks use {sha256_hex, fetch_text}

  -- The bytes behind a target's URL are those that its digest promises.
  abbrev pub Fetched : PullFile → Type 0
  Fetched t =
      Good text t.path
      × (content : String) × (fetch_text t.presigned_get_url ≡ ok content)
      × (sha256_hex content ≡ t.sha256)

  write_target-Fetched :
      (files : Files) (t : PullFile) (fetched : Fetched t)
      → write_target text parsing hooks files t ≡ ok (JsMap.set files t.path fetched.1)
  unfolding write_target Store.write
  write_target-Fetched files t (good, content, got, same) =
      ground (arith, good.safe, good.passes, eq_iff (sha256_hex content) t.sha256)

  download-Fetched :
      (files : Files) (targets : List PullFile)
      → All Fetched targets
      → (written : List (String × String)) × (download text parsing hooks files targets
          ≡ (ok tt, set_all files written))
        × (map_values sha256_hex written ≡ map target_of targets)
  unfolding download set_all map_values
  download-Fetched files [] all = ([], refl, refl)
  download-Fetched files (t ∷ targets) all =
      let (good, content, got, same) = all.0 in
      let (written, done, digests) =
        download-Fetched (JsMap.set files t.path content) targets all.1 in
      (
        (t.path, content) ∷ written,
        ground (arith, write_target-Fetched files t all.0, done),
        ground (arith, digests),
      )

  remove_files-Good :
      (files : Files) (removed : List String)
      → All (Good text) removed
      → remove_files text parsing hooks files removed ≡ (ok tt, delete_all files removed)
  unfolding remove_files Store.delete delete_all
  remove_files-Good files [] all = refl
  remove_files-Good files (p ∷ removed) all =
      ground
        (arith, all.0.safe, all.0.passes, remove_files-Good (JsMap.delete files p) removed all.1)

  -- The digest at a path after the changes, where the manifest speaks of the files: a case of
  -- the cloud's entry, the manifest's, and the file's.
  merged :
      (cloud : Option CloudFile) (known : Bool) (have : Option String)
      → (if not (is_some cloud) && is_some (if known then have else none)
          then none
          else or_else
              (listed
                (map_option (λ (e : CloudFile). e.sha256) cloud)
                (if known then have else none))
              have)
        ≡ (if is_some cloud || is_some (if known then have else none)
            then map_option (λ (e : CloudFile). e.sha256) cloud
            else have)
  merged none known have = ground arith
  merged (some e) true none = refl
  merged (some e) true (some s) = ground (arith, eq_iff s e.sha256)
  merged (some e) false have = refl

  kept :
      (b : Bool) (o : Option String)
      → map_option sha256_hex (if b then none else o)
        ≡ (if b then none else map_option sha256_hex o)
  kept true o = refl
  kept false o = refl

  module _ (files : Files) (manifest : FileManifest) (response : PullResponse)
      (answers : Answers response manifest) (paths : List String)
      (known : (path : String)
        → JsMap.get manifest path ≡ (
            if includes paths path
            then map_option sha256_hex (JsMap.get files path)
            else none)) where
    open answers use {removed, distinct}

    -- What the manifest and the server make of the digest at a path.
    abbrev pub mirrored : String → Option String
    mirrored path =
        if has response.manifest path || has manifest path
        then digest_at response.manifest path
        else map_option sha256_hex (JsMap.get files path)

    removed-Good : All (Good text) paths → All (Good text) response.removed
    removed-Good good = All-of-includes (Good text) response.removed (λ p h.
        All-includes (Good text) paths p good
          (ground (arith, h, removed, includes-diff_removed manifest response.manifest p, known p)))

    get-written :
        (written : List (String × String)) (path : String)
        → map_values sha256_hex written ≡ map target_of response.files
        → map_option sha256_hex (JsMap.get (set_all files written) path)
          ≡ or_else
              (listed (digest_at response.manifest path) (JsMap.get manifest path))
              (map_option sha256_hex (JsMap.get files path))
    get-written written path digests =
        sym (get-map_values sha256_hex (set_all files written) path)
        ∙ ap (λ m. JsMap.get m path) (map_values-set_all sha256_hex files written)
        ∙ get-set_all (map_values sha256_hex files) (map_values sha256_hex written) path
        ∙ ap (λ l. or_else (last_of l path) (JsMap.get (map_values sha256_hex files) path))
            (digests ∙ answers.files)
        ∙ rw
            (
              last_of-diff_pull_targets response.manifest manifest path distinct,
              get-map_values sha256_hex files path,
            )
            refl

    pub get-changed :
        (written : List (String × String)) (path : String)
        → map_values sha256_hex written ≡ map target_of response.files
        → map_option sha256_hex
            (JsMap.get (delete_all (set_all files written) response.removed) path)
          ≡ mirrored path
    get-changed written path digests =
        ap (map_option sha256_hex) (
          get-delete_all (set_all files written) response.removed path
          ∙ ap (λ ks. if includes ks path then none else JsMap.get (set_all files written) path)
              removed
          ∙ ap (λ b. if b then none else JsMap.get (set_all files written) path)
              (includes-diff_removed manifest response.manifest path))
        ∙ kept (not (has response.manifest path) && has manifest path)
            (JsMap.get (set_all files written) path)
        ∙ rw (get-written written path digests, known path)
            (merged (JsMap.get response.manifest path) (includes paths path)
              (map_option sha256_hex (JsMap.get files path)))

  -- A pull that gets an answer with the differences and the bytes that it promises.
  pub pull_applies :
      (laws : SnapshotText text) (files files₁ : Files) (manifest : FileManifest)
      (since : Option String) (response : PullResponse)
      → create_pre_sync_snapshot text parsing hooks files ≡ (ok tt, files₁)
      → compute_local_manifest text parsing sha256_hex files₁ ≡ ok manifest
      → hooks.client_pull manifest since ≡ ok response
      → Answers response manifest
      → All Fetched response.files
      → (after : Files) × (pull text parsing hooks false none since files
          ≡ (ok response, reindexed text parsing hooks after))
        × ((path : String)
            → map_option sha256_hex (JsMap.get after path) ≡ (
                if has response.manifest path || has manifest path
                then digest_at response.manifest path
                else map_option sha256_hex (JsMap.get files₁ path)))
  unfolding pull apply_response
  pull_applies laws files files₁ manifest since response taken listed_ answered answers fetched =
      let (paths, good, known) =
        compute_local_manifest-lem text parsing laws sha256_hex files₁ manifest listed_ in
      let (written, downloaded, digests) = download-Fetched files₁ response.files fetched in
      let removed =
        remove_files-Good (set_all files₁ written) response.removed
          (removed-Good files₁ manifest response answers paths known good) in
      (
        delete_all (set_all files₁ written) response.removed,
        ground (arith, taken, listed_, answered, downloaded, removed),
        λ path. get-changed files₁ manifest response answers paths known written path digests,
      )
