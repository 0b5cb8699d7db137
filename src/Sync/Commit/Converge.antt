-- ===== src/Sync/Commit/Converge.antt =====
-- A push that uploads what the server asked for leaves nothing to upload.
use tekbreed_oss.Prelude.{
  ℕ, String, ◌≡◌, ap, ◌∙◌, sym, Option, none, some, List, [], arith, eq_iff, ◌==◌, false,
}
use tekbreed_oss.JsMap
use tekbreed_oss.JsMap.{Distinct, Distinct-delete, has}
use tekbreed_oss.JsMap.Bulk.{last_of, or_else, map_values, Distinct-map_values}
use tekbreed_oss.Sync.Tables.{Db}
use tekbreed_oss.Sync.Manifest.{
  FileManifest, Verified, diff_push_targets, cloud_manifest_to_local, load_cloud_manifest,
  cloud_file,
}
use tekbreed_oss.Sync.Manifest.Diffs.{
  digest_at, listed, get-cloud_manifest_to_local, last_of-diff_push_targets, diff_push_targets-nil,
}
use tekbreed_oss.Sync.Commit.{commit_push}
use tekbreed_oss.Sync.Commit.Rows.{by_path, IsUnique, load_cloud_manifest-by_path}
use tekbreed_oss.Sync.Commit.Totals.{digests, get-commit_push, IsUnique-upsert_files}

pub Distinct-load_cloud_manifest :
    (project : String) (db : Db)
    → IsUnique db.project_files
    → Distinct (load_cloud_manifest project db.project_files)
Distinct-load_cloud_manifest project db u =
    let m = map_values cloud_file (by_path project db.project_files) in
    rw (load_cloud_manifest-by_path project db.project_files (u project)) (
      Distinct-delete m "__proto__"
        (Distinct-map_values cloud_file (by_path project db.project_files) (u project)))

-- A wanted digest is there after the listed one is written over what there was.
written :
    (want have : Option String) (sha : String)
    → want ≡ some sha
    → or_else (listed want have) have ≡ some sha
written none have sha e = cc
written (some s) none sha e = e
written (some s) (some t) sha e = ground (arith, eq_iff t s)

module _ (show : ℕ → String) (db : Db) (project : String) (uploaded : List Verified) (now : String)
    (client : FileManifest) where
  -- On a table with its unique index, for a client manifest with distinct paths, none of which is
  -- `__proto__`: after a commit of exactly the paths and digests that diffPushTargets asked for,
  -- diffPushTargets against the returned manifest is empty.
  pub push_converges :
      IsUnique db.project_files
      → Distinct client
      → has client "__proto__" ≡ false
      → digests uploaded
        ≡ diff_push_targets client
            (cloud_manifest_to_local (load_cloud_manifest project db.project_files))
      → diff_push_targets client
          (cloud_manifest_to_local (commit_push show db project uploaded now).0.1)
        ≡ []
  push_converges u d own_keys asked =
      diff_push_targets-nil client
        (cloud_manifest_to_local (commit_push show db project uploaded now).0.1) d
        (λ path sha e.
          let keyed : ("__proto__" == path) ≡ false =
            ground (arith, own_keys, e, eq_iff "__proto__" path) in
          let local = cloud_manifest_to_local (load_cloud_manifest project db.project_files) in
          let before =
            get-cloud_manifest_to_local (load_cloud_manifest project db.project_files) path
              (Distinct-load_cloud_manifest project db u) keyed in
          get-cloud_manifest_to_local (commit_push show db project uploaded now).0.1 path
            (unfold commit_push in
              Distinct-load_cloud_manifest project (commit_push show db project uploaded now).1
                (IsUnique-upsert_files project now db.project_files uploaded u))
            keyed
          ∙ get-commit_push show db project uploaded now u path keyed
          ∙ ap
              (λ l.
                or_else (last_of l path)
                  (digest_at (load_cloud_manifest project db.project_files) path))
              asked
          ∙ ap (λ o. or_else o (digest_at (load_cloud_manifest project db.project_files) path))
              (last_of-diff_push_targets client local path d)
          ∙ ap (λ h. or_else (listed (JsMap.get client path) (JsMap.get local path)) h) (sym before)
          ∙ written (JsMap.get client path) (JsMap.get local path) sha e)
