-- ===== src/Sync/Handlers/Gate.antt =====
-- The storage cap of an account and the base cursor of a client, when several clients push to one
-- project: what other clients commit between the two parts of `/push/complete`.
use tekbreed_oss.Prelude.{
  ℕ, ◌≤◌, String, ◌≡◌, ◌≢◌, refl, sym, ap, ◌∙◌, inl, inr, false, Option, some, List, [], ◌∷◌, arith,
  ◌==◌, eq_iff, Bool-cases, Option-cases,
}
use mathlib.Core.Path.{subst}
use tekbreed_oss.Prelude.Json.{Json}
use tekbreed_oss.Prelude.Number.{JsNumber}
use tekbreed_oss.Prelude.Result.{ok}
use tekbreed_oss.JsMap.{get-set, has}
use tekbreed_oss.JsMap.Bulk.{map_values}
use tekbreed_oss.Sync.Tables.{Project, Db, max_seq, latest_cursor}
use tekbreed_oss.Sync.Manifest.{
  Verified, CloudFileManifest, load_cloud_manifest, projected_storage_bytes, own_entries,
  cloud_file,
}
use tekbreed_oss.Sync.Commit.{
  initial_cursor, load_project, ensure_project, commit_push, current_cursor,
}
use tekbreed_oss.Sync.Commit.Rows.{IsUnique, by_path, load_cloud_manifest-by_path}
use tekbreed_oss.Sync.Commit.Totals.{commit_push-total, load_project-commit_push, HasNoProto}
use tekbreed_oss.Sync.Commit.Cursors.{
  seq_of-latest_cursor, commit_push-cursor, commit_push_isolated, max_seq-commit_push_ne,
  IsUnique-commit_push, by_path-commit_push_ne,
}
use tekbreed_oss.Sync.Blobs.{Blob}
use tekbreed_oss.Sync.Handlers.{Account, Prepared, prepare, locked, is_stale}
use tekbreed_oss.Sync.Handlers.Complete.{prepare-eq_ok}

-- The project has a stored total within the cap.
abbrev pub Within : Account → String → Db → Type 0
Within account project db =
    (p : Project) × (load_project db project ≡ some p)
    × (p.total_storage_bytes ≤ account.max_hosted_storage_bytes)

-- What other clients do to the tables: a commit to some project, or a first push that makes one.
pub data Event : Type 0 where
  commit : String → List Verified → String → Event
  provision : String → String → Event

module _ (show : ℕ → String) where
  unfoldable pub happen : Db → Event → Db
  happen db (commit project uploaded now) = (commit_push show db project uploaded now).1
  happen db (provision account project) = (ensure_project db account project).0

  unfoldable pub happen_all : Db → List Event → Db
  happen_all db [] = db
  happen_all db (e ∷ events) = happen_all (happen db e) events

  -- The cursor as a number, where `String(0)` is "0".
  pub current_cursor-eq-max_seq :
      (db : Db) (project : String)
      → show 0 ≡ initial_cursor
      → current_cursor show db project ≡ show (max_seq project db.sync_cursors)
  unfolding current_cursor
  current_cursor-eq-max_seq db project zero_text =
      elim (Option-cases (latest_cursor project db.sync_cursors)) [
        | inl e ↦
            rw (e, current_cursor)
              (rw (← seq_of-latest_cursor project db.sync_cursors, e) (sym zero_text))
        | inr (r, e) ↦
            rw (e, current_cursor) (rw (← seq_of-latest_cursor project db.sync_cursors, e) refl)
      ]

  -- A first push adds a project and changes no other thing.
  load_project-ensure_project :
      (db : Db) (account id project : String) (q : Project)
      → load_project db project ≡ some q
      → load_project (ensure_project db account id).0 project ≡ some q
  unfolding ensure_project load_project
  load_project-ensure_project db account id project q h = ground (
    arith,
    eq_iff id project,
    get-set db.projects id project
        (record { account_id = account; name = id; total_storage_bytes = 0 }),
  )

  tables-ensure_project :
      (db : Db) (account id : String)
      → ((ensure_project db account id).0.project_files ≡ db.project_files)
        × ((ensure_project db account id).0.sync_cursors ≡ db.sync_cursors)
  unfolding ensure_project
  tables-ensure_project db account id = ground arith

  module _ (project : String) (db : Db) where
    -- The project is still there, and its files are as they were in `db`, unless its cursor moved.
    pub record Follows (db' : Db) : Type 0 where
      pub unique : IsUnique db'.project_files
      pub grows : max_seq project db.sync_cursors ≤ max_seq project db'.sync_cursors
      pub present : (q : Project) × (load_project db' project ≡ some q)
      pub same :
          max_seq project db'.sync_cursors ≡ max_seq project db.sync_cursors
          → by_path project db'.project_files ≡ by_path project db.project_files

    commit-Follows :
        (db' : Db) (uploaded : List Verified) (now : String)
        → Follows db'
        → Follows (commit_push show db' project uploaded now).1
    commit-Follows db' uploaded now f =
        let bumped = (commit_push-cursor show db' project uploaded now).0 in
        record {
          unique = IsUnique-commit_push show db' project uploaded now f.unique;
          grows = omega (arith, f.grows);
          present = (
            _,
            load_project-commit_push show db' project uploaded now f.unique f.present.0 f.present.1,
          );
          same = λ e. absurd (omega (arith, f.grows));
        }

    commit_ne-Follows :
        (db' : Db) (other : String) (uploaded : List Verified) (now : String)
        → other ≢ project
        → Follows db'
        → Follows (commit_push show db' other uploaded now).1
    commit_ne-Follows db' other uploaded now ne f =
        let kept = max_seq-commit_push_ne show db' other uploaded now project ne in
        let files = by_path-commit_push_ne show db' other uploaded now project ne in
        let isolated = commit_push_isolated show db' other uploaded now project f.unique ne in
        record {
          unique = IsUnique-commit_push show db' other uploaded now f.unique;
          grows = omega (arith, f.grows);
          present = (f.present.0, isolated.0 ∙ f.present.1);
          same = λ e. files ∙ f.same (sym kept ∙ e);
        }

    happen-Follows : (db' : Db) (e : Event) → Follows db' → Follows (happen db' e)
    unfolding happen
    happen-Follows db' (commit other uploaded now) f = elim (Bool-cases (other == project)) [
      | inl e ↦ rw ((eq_iff other project).0 e) (commit-Follows db' uploaded now f)
      | inr e ↦ commit_ne-Follows db' other uploaded now (λ p. cc (e, (eq_iff other project).1 p)) f
    ]
    happen-Follows db' (provision account other) f =
        let (files, cursors) = tables-ensure_project db' account other in
        record {
          unique = rw files f.unique;
          grows = rw cursors f.grows;
          present = (
            f.present.0,
            load_project-ensure_project db' account other project f.present.0 f.present.1,
          );
          same = rw (files, cursors) f.same;
        }

    happen_all-Follows :
        (db' : Db) (events : List Event) → Follows db' → Follows (happen_all db' events)
    unfolding happen_all
    happen_all-Follows db' [] f = f
    happen_all-Follows db' (e ∷ events) f =
        happen_all-Follows (happen db' e) events (happen-Follows db' e f)

module _ (trim : String → String) (show : ℕ → String) (number : String → JsNumber)
    (digest : List ℕ → List ℕ) (blobs : String → Option Blob) (db : Db) (account : Account)
    (project : String) (body : Option Json) (prepared : Prepared)
    (unique : IsUnique db.project_files)
    (passed : prepare trim show number digest blobs db account project body ≡ ok prepared) where
  -- What the lock lets through is a commit of what was prepared.
  pub locked-eq_ok :
      (tx db' : Db) (now : String) (answer : String × CloudFileManifest)
      → locked show project prepared now tx ≡ (ok answer, db')
      → (is_stale show prepared.base_cursor_seq (current_cursor show tx project) ≡ false)
        × ((commit_push show tx project prepared.verified now).1 ≡ db')
        × ((commit_push show tx project prepared.verified now).0 ≡ answer)
  unfolding locked
  locked-eq_ok tx db' now answer h =
      elim (Bool-cases (is_stale show prepared.base_cursor_seq (current_cursor show tx project))) [
        | inl e ↦ absurd (ground arith)
        | inr e ↦ (e, ground arith, ground arith)
      ]

  -- The gate reads the rows of the project alone.
  projected-by_path :
      (tx : Db) (uploaded : List Verified)
      → IsUnique tx.project_files
      → by_path project tx.project_files ≡ by_path project db.project_files
      → projected_storage_bytes (load_cloud_manifest project tx.project_files) uploaded
        ≡ projected_storage_bytes (load_cloud_manifest project db.project_files) uploaded
  projected-by_path tx uploaded u same =
      ap (λ c. projected_storage_bytes c uploaded)
        (load_cloud_manifest-by_path project tx.project_files (u project)
          ∙ ap (λ m. own_entries (map_values cloud_file m)) same
          ∙ sym (load_cloud_manifest-by_path project db.project_files (unique project)))

  -- A commit over tables with the files that was prepared on keeps to the cap.
  pub commit-Within :
      (tx : Db) (now : String)
      → Follows show project db tx
      → max_seq project tx.sync_cursors ≡ max_seq project db.sync_cursors
      → HasNoProto project db.project_files
      → Within account project (commit_push show tx project prepared.verified now).1
  commit-Within tx now f e h =
      let (p, uploaded, found, owned, checked, fits) =
        prepare-eq_ok trim show number digest blobs db account project body prepared passed in
      (
        _,
        commit_push-total show tx project prepared.verified now f.unique f.present.0 f.present.1
            (ap (λ m. has m "__proto__") (f.same e) ∙ h),
        rw (projected-by_path tx prepared.verified f.unique (f.same e)) fits,
      )

  pub start-Follows : Follows show project db db
  start-Follows =
      let (p, _, found, _, _, _) =
        prepare-eq_ok trim show number digest blobs db account project body prepared passed in
      record { unique = unique; grows = omega arith; present = (p, found); same = λ e. refl }

  -- On a table with its unique index, where no row of the project has the path `__proto__`: where
  -- the checks of `/push/complete` pass with a base cursor that is no larger than the project's
  -- cursor at that time, and the commit under the lock succeeds after any commits and
  -- provisionings by others, the project's stored total is within the account's cap. It supposes
  -- that `String(n)` is injective and sends 0 to "0".
  pub gated_cap :
      (n : ℕ) (events : List Event) (now : String) (answer : String × CloudFileManifest) (db' : Db)
      → ((a b : ℕ) → show a ≡ show b → a ≡ b)
      → show 0 ≡ initial_cursor
      → HasNoProto project db.project_files
      → prepared.base_cursor_seq ≡ some n
      → n ≤ max_seq project db.sync_cursors
      → locked show project prepared now (happen_all show db events) ≡ (ok answer, db')
      → Within account project db'
  gated_cap n events now answer db' show_injective zero_text keyed base honest h =
      let tx = happen_all show db events in
      let f = happen_all-Follows show project db db events start-Follows in
      let (fresh, same, _) = locked-eq_ok tx db' now answer h in
      let current : current_cursor show tx project ≡ show n =
        (eq_iff (current_cursor show tx project) (show n)).0 (ground (arith, base, fresh)) in
      let at : max_seq project tx.sync_cursors ≡ n =
        show_injective (max_seq project tx.sync_cursors) n
          (sym (current_cursor-eq-max_seq show tx project zero_text) ∙ current) in
      subst (Within account project) same (commit-Within tx now f (omega (arith, f.grows)) keyed)
