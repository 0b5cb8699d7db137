-- ===== src/Sync/Commit/Cursors.antt =====
-- The cursor of a project grows by one with each commit, and a commit touches its project alone.
use tekbreed_oss.Prelude.{
  ℕ, ◌+◌, ◌<◌, String, ◌≡◌, ◌≢◌, refl, sym, ap, ◌∙◌, inl, inr, Option, none, some, List, [], ◌∷◌,
  ◌++◌, arith, eq_iff, Option-cases, ne→eq_false,
}
use tekbreed_oss.JsMap
use tekbreed_oss.JsMap.{JsMap, get-set}
use tekbreed_oss.JsMap.Bulk.{map_values}
use tekbreed_oss.Sync.Tables.{
  Project, Db, CursorRow, latest_cursor, max_seq, update_total, sum_size_bytes, push,
}
use tekbreed_oss.Sync.Manifest.{cloud_file, load_cloud_manifest, Verified, own_entries}
use tekbreed_oss.Sync.Commit.{commit_push, current_cursor, last_sync_at, upsert_files, load_project}
use tekbreed_oss.Sync.Commit.Rows.{
  IsUnique, by_path, load_cloud_manifest-by_path, by_path-upsert_files_ne,
}
use tekbreed_oss.Sync.Commit.Totals.{IsUnique-upsert_files}

-- `ORDER BY seq DESC LIMIT 1` finds the row that `max(seq)` speaks of.
abbrev pub seq_of : Option CursorRow → ℕ
seq_of none = 0
seq_of (some r) = r.seq

pub seq_of-latest_cursor :
    (project : String) (rows : List CursorRow)
    → seq_of (latest_cursor project rows) ≡ max_seq project rows
unfolding latest_cursor max_seq
seq_of-latest_cursor project [] = refl
seq_of-latest_cursor project (r ∷ rows) = ground (arith, seq_of-latest_cursor project rows)

module _ (project : String) (new : CursorRow) where
  latest_cursor-append :
      (rows : List CursorRow)
      → new.project_id ≡ project
      → max_seq project rows < new.seq
      → latest_cursor project (rows ++ new ∷ []) ≡ some new
  unfolding latest_cursor max_seq
  latest_cursor-append [] same lt = ground (arith, eq_iff new.project_id project)
  latest_cursor-append (r ∷ rows) same lt = ground (arith, latest_cursor-append rows same)

  latest_cursor-append_ne :
      (rows : List CursorRow)
      → new.project_id ≢ project
      → latest_cursor project (rows ++ new ∷ []) ≡ latest_cursor project rows
  unfolding latest_cursor
  latest_cursor-append_ne [] ne = ground (arith, eq_iff new.project_id project)
  latest_cursor-append_ne (r ∷ rows) ne = rw (latest_cursor-append_ne rows ne)

pub get-update_total :
    (projects : JsMap Project) (id other : String) (total : ℕ)
    → id ≢ other
    → JsMap.get (update_total projects id total) other ≡ JsMap.get projects other
unfolding update_total
get-update_total projects id other total ne = elim (Option-cases (JsMap.get projects id)) [
  | inl e ↦ rw (e, update_total) refl
  | inr (p, e) ↦ rw (e, update_total) (rw (get-set, ne→eq_false id other ne) refl)
]

module _ (show : ℕ → String) (db : Db) (project : String) (uploaded : List Verified)
    (now : String) where
  abbrev committed : Db
  committed = (commit_push show db project uploaded now).1

  abbrev new_row : CursorRow
  new_row = record {
    project_id = project;
    seq = max_seq project db.sync_cursors + 1;
    kind = push;
    created_at = now;
  }

  latest_cursor-commit_push : latest_cursor project committed.sync_cursors ≡ some new_row
  unfolding commit_push
  latest_cursor-commit_push =
      latest_cursor-append project new_row db.sync_cursors refl (omega arith)

  -- A commit raises the project's largest sequence number by one; the cursor that it returns is
  -- the one read afterwards, and the last sync time read afterwards is the time of the commit.
  pub commit_push-cursor :
      (max_seq project committed.sync_cursors ≡ max_seq project db.sync_cursors + 1)
      × (current_cursor show committed project ≡ (commit_push show db project uploaded now).0.0)
      × (last_sync_at committed project ≡ some now)
  unfolding commit_push current_cursor last_sync_at
  commit_push-cursor = (
    sym (seq_of-latest_cursor project committed.sync_cursors) ∙ ap seq_of latest_cursor-commit_push,
    rw (latest_cursor-commit_push, current_cursor) refl,
    rw (latest_cursor-commit_push, last_sync_at) refl,
  )

  pub max_seq-commit_push_ne :
      (other : String)
      → project ≢ other
      → max_seq other committed.sync_cursors ≡ max_seq other db.sync_cursors
  unfolding commit_push
  max_seq-commit_push_ne other ne =
      sym (seq_of-latest_cursor other committed.sync_cursors)
      ∙ ap seq_of (latest_cursor-append_ne other new_row db.sync_cursors ne)
      ∙ seq_of-latest_cursor other db.sync_cursors

  pub by_path-commit_push_ne :
      (other : String)
      → project ≢ other
      → by_path other committed.project_files ≡ by_path other db.project_files
  unfolding commit_push
  by_path-commit_push_ne other ne =
      by_path-upsert_files_ne other project now db.project_files uploaded ne

  pub IsUnique-commit_push : IsUnique db.project_files → IsUnique committed.project_files
  unfolding commit_push
  IsUnique-commit_push u = IsUnique-upsert_files project now db.project_files uploaded u

  -- On a table with its unique index, a commit to one project leaves another project's row,
  -- manifest, cursor and last sync time as they were.
  pub commit_push_isolated :
      (other : String)
      → IsUnique db.project_files
      → project ≢ other
      → (load_project committed other ≡ load_project db other)
        × (load_cloud_manifest other committed.project_files
            ≡ load_cloud_manifest other db.project_files)
        × (current_cursor show committed other ≡ current_cursor show db other)
        × (last_sync_at committed other ≡ last_sync_at db other)
  unfolding commit_push load_project current_cursor last_sync_at
  commit_push_isolated other u ne =
      let cursors = latest_cursor-append_ne other new_row db.sync_cursors ne in
      (
        get-update_total db.projects project other
            (sum_size_bytes project (upsert_files project now db.project_files uploaded)) ne,
        load_cloud_manifest-by_path other (upsert_files project now db.project_files uploaded)
              (IsUnique-upsert_files project now db.project_files uploaded u other)
            ∙ ap (λ m. own_entries (map_values cloud_file m))
                (by_path-upsert_files_ne other project now db.project_files uploaded ne)
            ∙ sym (load_cloud_manifest-by_path other db.project_files (u other)),
        rw (cursors, current_cursor) refl,
        rw (cursors, last_sync_at) refl,
      )
