-- ===== src/Sync/Commit/Rows.antt =====
-- The rows of one project as a map from path to row, and what an upsert does to it.
use tekbreed_oss.Prelude.{
  String, ◌≡◌, ◌≢◌, refl, ap, ◌∙◌, inl, inr, List, [], ◌∷◌, map, arith, ◌==◌, eq_iff, if◌then◌else◌,
  Bool-cases,
}
use tekbreed_oss.JsMap
use tekbreed_oss.JsMap.{JsMap, Distinct, Distinct-delete}
use tekbreed_oss.JsMap.Bulk.{set_all, map_values, set_all_nil, Distinct-map_values}
use tekbreed_oss.JsMap.Totals.{total}
use tekbreed_oss.Sync.Tables.{FileRow, files_of, upsert_file, sum_size_bytes}
use tekbreed_oss.Sync.Manifest.{cloud_file, load_cloud_manifest, Verified, own_entries}
use tekbreed_oss.Sync.Commit.{file_row, upsert_files}

unfoldable pub by_path : String → List FileRow → JsMap FileRow
by_path project [] = []
by_path project (r ∷ rows) =
    let rest = by_path project rows in if r.project_id == project then (r.path, r) ∷ rest else rest

-- The unique index of project_files: in every project a path has one row.
abbrev pub IsUnique : List FileRow → Type 0
IsUnique rows = (project : String) → Distinct (by_path project rows)

module _ (project : String) where
  by_path-upsert :
      (rows : List FileRow) (new : FileRow)
      → new.project_id ≡ project
      → by_path project (upsert_file rows new) ≡ JsMap.set (by_path project rows) new.path new
  unfolding by_path upsert_file JsMap.set
  by_path-upsert [] new h = ground (arith, eq_iff new.project_id project)
  by_path-upsert (r ∷ rows) new h = ground (
    arith,
    by_path-upsert rows new,
    eq_iff new.project_id project,
    eq_iff r.project_id project,
    eq_iff r.project_id new.project_id,
    eq_iff r.path new.path,
  )

  by_path-upsert_ne :
      (rows : List FileRow) (new : FileRow)
      → new.project_id ≢ project
      → by_path project (upsert_file rows new) ≡ by_path project rows
  unfolding by_path upsert_file
  by_path-upsert_ne [] new h = ground (arith, eq_iff new.project_id project)
  by_path-upsert_ne (r ∷ rows) new h = ground (
    arith,
    by_path-upsert_ne rows new,
    eq_iff new.project_id project,
    eq_iff r.project_id project,
    eq_iff r.project_id new.project_id,
  )

  pub sum-by_path :
      (rows : List FileRow)
      → sum_size_bytes project rows ≡ total (λ r. r.size_bytes) (by_path project rows)
  unfolding sum_size_bytes by_path total
  sum-by_path [] = refl
  sum-by_path (r ∷ rows) = ground (arith, sum-by_path rows)

  files_of-by_path :
      (rows : List FileRow)
      → map (λ r. (r.path, cloud_file r)) (files_of project rows)
        ≡ map_values cloud_file (by_path project rows)
  unfolding files_of by_path map_values
  files_of-by_path [] = refl
  files_of-by_path (r ∷ rows) = elim (Bool-cases (r.project_id == project)) [
    | inl e ↦ rw e (ap (◌∷◌ (r.path, cloud_file r)) (files_of-by_path rows))
    | inr e ↦ rw e (files_of-by_path rows)
  ]

  -- On a table that keeps its unique index, the manifest is the rows, one entry for each path that
  -- makes a key.
  pub load_cloud_manifest-by_path :
      (rows : List FileRow)
      → Distinct (by_path project rows)
      → load_cloud_manifest project rows
        ≡ own_entries (map_values cloud_file (by_path project rows))
  unfolding load_cloud_manifest
  load_cloud_manifest-by_path rows d =
      let m = map_values cloud_file (by_path project rows) in
      ap (λ l. set_all [] (own_entries l)) (files_of-by_path rows)
      ∙ set_all_nil (own_entries m)
          (Distinct-delete m "__proto__" (Distinct-map_values cloud_file (by_path project rows) d))

  abbrev pub entries : String → List Verified → JsMap FileRow
  entries now uploaded = map (λ (e : Verified). (e.path, file_row project now e)) uploaded

  pub by_path-upsert_files :
      (now : String) (rows : List FileRow) (uploaded : List Verified)
      → by_path project (upsert_files project now rows uploaded)
        ≡ set_all (by_path project rows) (entries now uploaded)
  unfolding upsert_files set_all
  by_path-upsert_files now rows [] = refl
  by_path-upsert_files now rows (e ∷ uploaded) =
      by_path-upsert_files now (upsert_file rows (file_row project now e)) uploaded
      ∙ ap (λ m. set_all m (entries now uploaded))
          (by_path-upsert rows (file_row project now e) refl)

  pub by_path-upsert_files_ne :
      (other now : String) (rows : List FileRow) (uploaded : List Verified)
      → other ≢ project
      → by_path project (upsert_files other now rows uploaded) ≡ by_path project rows
  unfolding upsert_files
  by_path-upsert_files_ne other now rows [] h = refl
  by_path-upsert_files_ne other now rows (e ∷ uploaded) h =
      by_path-upsert_files_ne other now (upsert_file rows (file_row other now e)) uploaded h
      ∙ by_path-upsert_ne rows (file_row other now e) h
