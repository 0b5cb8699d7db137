-- ===== src/Sync/Manifest.antt =====
-- Manifests and their differences (apps/cloud/src/api/sync/shared.ts). A manifest is a plain
-- JavaScript object with file paths as keys; the order of its keys is that of insertion (a path
-- that reads as an index, which the language lists first, keeps its place here). A write to
-- a plain object under the name `__proto__` makes no key.
pub mod Diffs
use tekbreed_oss.Prelude.{
  ℕ, String, Bool, true, not, Option, none, some, List, [], ◌∷◌, ◌==◌, if◌then◌else◌, map, filter,
}
use tekbreed_oss.JsMap
use tekbreed_oss.JsMap.{JsMap, has}
use tekbreed_oss.JsMap.Bulk.{set_all, map_values}
use tekbreed_oss.JsMap.Totals.{total}
use tekbreed_oss.Sync.Tables.{FileRow, files_of}

-- A value of CloudFileManifest.
pub record CloudFile : Type 0 where
  pub path : String
  pub sha256 : String
  pub size_bytes : ℕ
  pub r2_key : String
  pub updated_at : String

abbrev pub CloudFileManifest : Type 0
CloudFileManifest = JsMap CloudFile

-- path → sha256
abbrev pub FileManifest : Type 0
FileManifest = JsMap String

abbrev pub cloud_file : FileRow → CloudFile
cloud_file r = record {
  path = r.path;
  sha256 = r.sha256;
  size_bytes = r.size_bytes;
  r2_key = r.r2_key;
  updated_at = r.updated_at;
}

-- The writes to a plain object that make a key.
abbrev pub own_entries {ℓ} : {V : Type ℓ} → List (String × V) → List (String × V)
own_entries l = JsMap.delete l "__proto__"

-- `object[k] = v` on a plain object
abbrev pub set_own {ℓ} : {V : Type ℓ} → JsMap V → String → V → JsMap V
set_own m k v = if k == "__proto__" then m else JsMap.set m k v

-- loadCloudManifest, loadCloudManifestTx
unfoldable pub load_cloud_manifest : String → List FileRow → CloudFileManifest
load_cloud_manifest project rows =
    set_all [] (own_entries (map (λ r. (r.path, cloud_file r)) (files_of project rows)))

-- cloudManifestToLocal
unfoldable pub cloud_manifest_to_local : CloudFileManifest → FileManifest
cloud_manifest_to_local cloud =
    set_all [] (own_entries (map_values (λ (e : CloudFile). e.sha256) cloud))

-- `object[path] !== sha`
abbrev pub differs : Option String → String → Bool
differs none sha = true
differs (some s) sha = not (s == sha)

-- A path and the digest that it should have: `{ path, sha256 }`.
abbrev pub Target : Type 0
Target = String × String

-- diffPushTargets: the loop over the client's entries, with `out.push` as consing
unfoldable pub diff_push_targets : FileManifest → FileManifest → List Target
diff_push_targets [] cloud = []
diff_push_targets ((path, sha) ∷ client) cloud =
    let rest = diff_push_targets client cloud in
    if differs (JsMap.get cloud path) sha then (path, sha) ∷ rest else rest

-- diffPullTargets
unfoldable pub diff_pull_targets : CloudFileManifest → FileManifest → List Target
diff_pull_targets [] client = []
diff_pull_targets ((path, entry) ∷ cloud) client =
    let rest = diff_pull_targets cloud client in
    if differs (JsMap.get client path) entry.sha256 then (path, entry.sha256) ∷ rest else rest

-- diffRemoved
unfoldable pub diff_removed : FileManifest → CloudFileManifest → List String
diff_removed client cloud = filter (λ p. not (has cloud p)) (JsMap.keys client)

-- An entry whose upload has been verified: `{ path, sha256, r2Key, sizeBytes }`.
pub record Verified : Type 0 where
  pub path : String
  pub sha256 : String
  pub r2_key : String
  pub size_bytes : ℕ

-- projectedStorageBytes
unfoldable pub projected_storage_bytes : CloudFileManifest → List Verified → ℕ
projected_storage_bytes cloud uploaded =
    total (λ n. n)
      (set_all (set_all [] (map_values (λ (e : CloudFile). e.size_bytes) cloud))
        (map (λ (e : Verified). (e.path, e.size_bytes)) uploaded))
