-- ===== src/Sync/Tests/Gate.antt =====
-- The theorems on `/push/complete` at concrete requests.
use tekbreed_oss.Prelude.{◌<◌, String, ◌≡◌, refl, ◌⊎◌, some, none, List, [], ◌∷◌, arith}
use tekbreed_oss.Prelude.Json.{Json}
use tekbreed_oss.Prelude.Result.{ok, throw, Result}
use tekbreed_oss.Sync.Tables.{Db}
use tekbreed_oss.Sync.Manifest.{CloudFileManifest, load_cloud_manifest, projected_storage_bytes}
use tekbreed_oss.Sync.Commit.{ApiError, commit_push}
use tekbreed_oss.Sync.Commit.Totals.{HasNoProto}
use tekbreed_oss.Sync.Blobs.{verify_all}
use tekbreed_oss.Sync.Handlers.{Prepared, prepare, locked, complete}
use tekbreed_oss.Sync.Handlers.Gate.{Within, Event, happen_all, gated_cap}
use tekbreed_oss.Sync.Handlers.Outcomes.{complete_outcome, ungated_overrun}
use tekbreed_oss.Sync.Tests.{
  show, number, show_injective, identity, never, program, sha, digest, blobs, account, db,
  db-IsUnique, body, upload, after_other, project_after, after_other-IsUnique, after_other-project,
  ungated,
}

abbrev gated : Prepared
gated = record { base_cursor_seq = some 0; verified = upload "a.md" ∷ [] }

gated_passes :
    prepare identity show number digest blobs db account "p" (body (Json.text "0") "a.md")
    ≡ ok gated
unfolding program
gated_passes = refl

abbrev events : List Event
events = Event.provision "other" "q" ∷ Event.commit "q" (upload "b.md" ∷ []) "noon" ∷ []

gated_cap_example :
    Within account "p" (commit_push show (happen_all show db events) "p" gated.verified "one").1
unfolding program
gated_cap_example =
    gated_cap identity show number digest blobs db account "p" (body (Json.text "0") "a.md") gated
      db-IsUnique gated_passes 0 events "one" _ _ show_injective refl refl refl (omega arith) refl

db-HasNoProto : HasNoProto "p" db.project_files
unfolding program
db-HasNoProto = refl

complete_runs :
    (complete identity show number digest blobs identity never none none db account "p"
      (body (Json.text "0") "a.md")
      "one").0
    ≡ ok (commit_push show db "p" gated.verified "one").0
unfolding program
complete_runs = refl

abbrev completed : Result ApiError (String × CloudFileManifest) × Db
completed =
    complete identity show number digest blobs identity never none none db account "p"
      (body (Json.text "0") "a.md") "one"

complete_outcome_example :
    ((e : ApiError) × (completed ≡ (throw e, db)))
    ⊎ ((prepared : Prepared) × (answer : String × CloudFileManifest) × (prepare identity show number
            digest blobs db account "p"
            (body (Json.text "0") "a.md")
          ≡ ok prepared)
        × (completed ≡ (ok answer, (commit_push show db "p" prepared.verified "one").1))
        × (answer ≡ (commit_push show db "p" prepared.verified "one").0)
        × Within account "p" completed.1)
complete_outcome_example =
    complete_outcome identity show number digest blobs identity never none none db account "p"
      (body (Json.text "0") "a.md") "one" db-IsUnique db-HasNoProto

ungated_passes :
    prepare identity show number digest blobs db account "p" (body Json.null "a.md") ≡ ok ungated
unfolding program
ungated_passes = refl

after_other_over :
    100
    < projected_storage_bytes (load_cloud_manifest "p" after_other.project_files) ungated.verified
unfolding program
after_other_over = omega arith

ungated_overrun_example :
    ((locked show "p" ungated "one" after_other).0
      ≡ ok (commit_push show after_other "p" ungated.verified "one").0)
    × (¬ Within account "p" (locked show "p" ungated "one" after_other).1)
ungated_overrun_example =
    ungated_overrun show account "p" ungated "one" after_other project_after after_other-IsUnique
      refl after_other-project after_other_over

verify_all_runs : verify_all digest blobs (("a.md", sha) ∷ []) ≡ ok gated.verified
unfolding program
verify_all_runs = refl
