-- ===== src/Sync/Handlers/Outcomes.antt =====
-- How `/push/complete` ends, when nothing comes between its two parts, and what the gate misses
-- when something does.
use tekbreed_oss.Prelude.{
  ℕ, ◌<◌, String, ◌≡◌, refl, sym, ◌∙◌, inl, inr, ◌⊎◌, Bool, Option, none, some, List, arith,
}
use mathlib.Core.Path.{subst}
use tekbreed_oss.Prelude.Json.{Json}
use tekbreed_oss.Prelude.Number.{JsNumber}
use tekbreed_oss.Prelude.Result.{Result, ok, throw, Result-cases}
use tekbreed_oss.Sync.Tables.{Project, Db, sum_size_bytes}
use tekbreed_oss.Sync.Manifest.{CloudFileManifest, load_cloud_manifest, projected_storage_bytes}
use tekbreed_oss.Sync.Commit.{ApiError, load_project, commit_push, upsert_files}
use tekbreed_oss.Sync.Commit.Rows.{IsUnique}
use tekbreed_oss.Sync.Commit.Totals.{projected-le-sum, load_project-commit_push, HasNoProto}
use tekbreed_oss.Sync.Blobs.{Blob}
use tekbreed_oss.Sync.Lock.{TxError, finish, acquire_write_lock}
use tekbreed_oss.Sync.Handlers.{Account, Prepared, prepare, locked, complete}
use tekbreed_oss.Sync.Handlers.Gate.{Within, locked-eq_ok, commit-Within, start-Follows}

module _ (lower : String → String) (contains : String → String → Bool) where
  finish-cases :
      {A : Type 0} (end : Option TxError) (db : Db) (r : Result TxError A) (tx : Db)
      → ((a : A) × (r ≡ ok a) × (finish lower contains end db r tx ≡ (ok a, tx)))
        ⊎ ((e : ApiError) × (finish lower contains end db r tx ≡ (throw e, db)))
  unfolding finish
  finish-cases end db (throw err) tx = inr (_, refl)
  finish-cases (some err) db (ok a) tx = inr (_, refl)
  finish-cases none db (ok a) tx = inl (a, refl, refl)

  -- The lock takes all that the function made, or leaves the tables as they were.
  acquire_write_lock-cases :
      {A : Type 0} (begin end : Option TxError) (db : Db) (fn : Db → Result TxError A × Db)
      → ((a : A) × ((fn db).0 ≡ ok a)
          × (acquire_write_lock lower contains begin end db fn ≡ (ok a, (fn db).1)))
        ⊎ ((e : ApiError) × (acquire_write_lock lower contains begin end db fn ≡ (throw e, db)))
  unfolding acquire_write_lock
  acquire_write_lock-cases (some err) end db fn = inr (_, refl)
  acquire_write_lock-cases none end db fn = finish-cases end db (fn db).0 (fn db).1

module _ (trim : String → String) (show : ℕ → String) (number : String → JsNumber)
    (digest : List ℕ → List ℕ) (blobs : String → Option Blob) (lower : String → String)
    (contains : String → String → Bool) (begin end : Option TxError) (db : Db) (account : Account)
    (project : String) (body : Option Json) (now : String) where
  abbrev result : Result ApiError (String × CloudFileManifest) × Db
  result =
      complete trim show number digest blobs lower contains begin end db account project body now

  -- Either an error and the tables as they were, or the answer and tables of the locked part on
  -- what was prepared.
  complete-cases :
      ((e : ApiError) × (result ≡ (throw e, db)))
      ⊎ ((prepared : Prepared) × (answer : String × CloudFileManifest) × (prepare trim show number
              digest blobs db account project body
            ≡ ok prepared)
          × (locked show project prepared now db ≡ (ok answer, result.1))
          × (result.0 ≡ ok answer))
  unfolding complete
  complete-cases =
      elim (Result-cases (prepare trim show number digest blobs db account project body)) [
        | inr (e, h) ↦ inl (e, rw (h, complete) refl)
        | inl (prepared, h) ↦
            elim (acquire_write_lock-cases lower contains begin end db
              (locked show project prepared now)) [
                | inl (answer, made, taken) ↦ inr (
                  prepared,
                  answer,
                  h,
                  ground (arith, h, made, taken),
                  ground (arith, h, made, taken),
                )
                | inr (e, kept) ↦ inl (e, rw (h, complete) kept)
              ]
      ]

  -- On a table with its unique index, where no row of the project has the path `__proto__`,
  -- `/push/complete` with nothing between its two parts either throws and leaves the tables as
  -- they were, or its checks passed, it answers with and stores the commit of the verified
  -- entries, and the project's total is then within the account's cap.
  pub complete_outcome :
      IsUnique db.project_files
      → HasNoProto project db.project_files
      → ((e : ApiError) × (result ≡ (throw e, db)))
        ⊎ ((prepared : Prepared) × (answer : String × CloudFileManifest) × (prepare trim show number
                digest blobs db account project body
              ≡ ok prepared)
            × (result ≡ (ok answer, (commit_push show db project prepared.verified now).1))
            × (answer ≡ (commit_push show db project prepared.verified now).0)
            × Within account project result.1)
  complete_outcome unique keyed = elim complete-cases [
    | inl failed ↦ inl failed
    | inr (prepared, answer, passed, done, answered) ↦
        let (_, same, told) =
          locked-eq_ok trim show number digest blobs db account project body prepared unique passed
            db result.1 now answer done in
        let started =
          start-Follows trim show number digest blobs db account project body prepared unique
            passed in
        inr (
          prepared,
          answer,
          passed,
          ground (arith, same, answered),
          sym told,
          subst (Within account project) same (
              commit-Within trim show number digest blobs db account project body prepared unique
                passed db now started refl keyed),
        )
  ]

-- Under the lock, a prepared push with no base cursor is committed without a look at the cap: on
-- a table with its unique index that has the project, if the files there together with the push
-- exceed the cap, the commit succeeds and the stored total is not within the cap.
pub ungated_overrun :
    (show : ℕ → String) (account : Account) (project : String) (prepared : Prepared) (now : String)
    (tx : Db) (p : Project)
    → IsUnique tx.project_files
    → prepared.base_cursor_seq ≡ none
    → load_project tx project ≡ some p
    → account.max_hosted_storage_bytes
      < projected_storage_bytes (load_cloud_manifest project tx.project_files) prepared.verified
    → ((locked show project prepared now tx).0
        ≡ ok (commit_push show tx project prepared.verified now).0)
      × (¬ Within account project (locked show project prepared now tx).1)
unfolding locked
ungated_overrun show account project prepared now tx p unique base found over =
    let foreseen =
      projected-le-sum project now tx.project_files prepared.verified (unique project) in
    let stored = load_project-commit_push show tx project prepared.verified now unique p found in
    (
      ground (arith, base),
      rw base (λ w.
          let same : some w.0
              ≡ some (record p {
                total_storage_bytes =
                    sum_size_bytes project
                      (upsert_files project now tx.project_files prepared.verified);
              }) =
            sym w.1 ∙ stored in
          ground (arith, same, w.2, foreseen)),
    )
