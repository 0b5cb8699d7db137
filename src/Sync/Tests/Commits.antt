-- ===== src/Sync/Tests/Commits.antt =====
-- The theorems on commits and differences of manifests at concrete tables.
use tekbreed_oss.Prelude.{String, ◌≡◌, ◌≢◌, refl, false, some, List, [], ◌∷◌, arith, eq_iff}
use tekbreed_oss.JsMap
use tekbreed_oss.JsMap.{Distinct, has}
use tekbreed_oss.JsMap.Bulk.{set_all, delete_all}
use tekbreed_oss.Sync.Manifest.{
  FileManifest, Verified, load_cloud_manifest, cloud_manifest_to_local, diff_push_targets,
  diff_pull_targets, diff_removed, projected_storage_bytes,
}
use tekbreed_oss.Sync.Manifest.Diffs.{digest_at, pull_converges}
use tekbreed_oss.Sync.Commit.{load_project, last_sync_at, current_cursor, commit_push}
use tekbreed_oss.Sync.Commit.Totals.{commit_push-total, digests, HasNoProto}
use tekbreed_oss.Sync.Commit.Cursors.{commit_push_isolated}
use tekbreed_oss.Sync.Commit.Converge.{push_converges}
use tekbreed_oss.Sync.Tests.{
  show, program, sha, upload, after_other, project_after, after_other-IsUnique, after_other-project,
  ungated,
}

after_other-HasNoProto : HasNoProto "p" after_other.project_files
unfolding program
after_other-HasNoProto = refl

commit_push-total_example :
    load_project (commit_push show after_other "p" ungated.verified "one").1 "p"
    ≡ some (record project_after {
      total_storage_bytes =
          projected_storage_bytes
            (load_cloud_manifest "p" after_other.project_files)
            ungated.verified;
    })
commit_push-total_example =
    commit_push-total show after_other "p" ungated.verified "one" after_other-IsUnique project_after
      after_other-project after_other-HasNoProto

p_not_q : ◌≢◌ {A = String} "q" "p"
p_not_q = ground (arith, eq_iff "q" "p")

commit_push_isolated_example :
    (load_project (commit_push show after_other "q" ungated.verified "one").1 "p"
      ≡ load_project after_other "p")
    × (load_cloud_manifest "p"
          (commit_push show after_other "q" ungated.verified "one").1.project_files
        ≡ load_cloud_manifest "p" after_other.project_files)
    × (current_cursor show (commit_push show after_other "q" ungated.verified "one").1 "p"
        ≡ current_cursor show after_other "p")
    × (last_sync_at (commit_push show after_other "q" ungated.verified "one").1 "p"
        ≡ last_sync_at after_other "p")
commit_push_isolated_example =
    commit_push_isolated show after_other "q" ungated.verified "one" "p" after_other-IsUnique
      p_not_q

abbrev client : FileManifest
client = ("a.md", sha) ∷ ("c.md", sha) ∷ []

client-Distinct : Distinct client
unfolding program
client-Distinct = (refl, (refl, tt))

client-own : has client "__proto__" ≡ false
unfolding program
client-own = refl

abbrev asked : List Verified
asked = upload "a.md" ∷ upload "c.md" ∷ []

asked_is_diff :
    digests asked
    ≡ diff_push_targets client
        (cloud_manifest_to_local (load_cloud_manifest "p" after_other.project_files))
unfolding program
asked_is_diff = refl

push_converges_example :
    diff_push_targets client
      (cloud_manifest_to_local (commit_push show after_other "p" asked "one").0.1)
    ≡ []
push_converges_example =
    push_converges show after_other "p" asked "one" client after_other-IsUnique client-Distinct
      client-own asked_is_diff

cloud-Distinct : Distinct (load_cloud_manifest "p" after_other.project_files)
unfolding program
cloud-Distinct = (refl, tt)

pull_converges_example :
    JsMap.get
      (delete_all
        (set_all client
          (diff_pull_targets (load_cloud_manifest "p" after_other.project_files) client))
        (diff_removed client (load_cloud_manifest "p" after_other.project_files)))
      "b.md"
    ≡ digest_at (load_cloud_manifest "p" after_other.project_files) "b.md"
pull_converges_example =
    pull_converges (load_cloud_manifest "p" after_other.project_files) client "b.md" cloud-Distinct
