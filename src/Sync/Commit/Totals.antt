-- ===== src/Sync/Commit/Totals.antt =====
-- The storage total: what the entitlement gate foresees is what the commit stores.
use tekbreed_oss.Prelude.{
  ℕ, ◌≤◌, String, ◌≡◌, refl, sym, ap, ◌∙◌, inl, inr, Bool, true, false, Option, none, some, List,
  [], ◌∷◌, map, arith, ◌==◌, eq_iff, eq_refl, if◌then◌else◌, Bool-cases,
}
use mathlib.Core.Path.{subst}
use tekbreed_oss.JsMap
use tekbreed_oss.JsMap.{JsMap, Distinct, get-set, has, Distinct-delete}
use tekbreed_oss.JsMap.Bulk.{
  last_of, or_else, map_option, get-set_all, get-map_values, set_all, map_values, set_all_nil,
  map_values-set_all, map_values-delete, Distinct-map_values, Distinct-set_all,
}
use tekbreed_oss.JsMap.Totals.{total, delete_absent, total-set_all-le, IsLess-delete}
use tekbreed_oss.Sync.Tables.{Project, FileRow, Db, sum_size_bytes, update_total}
use tekbreed_oss.Sync.Manifest.{
  CloudFile, CloudFileManifest, cloud_file, load_cloud_manifest, Verified, projected_storage_bytes,
  own_entries,
}
use tekbreed_oss.Sync.Manifest.Diffs.{digest_at, get-own_entries}
use tekbreed_oss.Sync.Commit.{file_row, load_project, upsert_files, commit_push}
use tekbreed_oss.Sync.Commit.Rows.{
  by_path, IsUnique, entries, sum-by_path, load_cloud_manifest-by_path, by_path-upsert_files,
  by_path-upsert_files_ne,
}

pub IsUnique-upsert_files :
    (project now : String) (rows : List FileRow) (uploaded : List Verified)
    → IsUnique rows
    → IsUnique (upsert_files project now rows uploaded)
IsUnique-upsert_files project now rows uploaded u q = elim (Bool-cases (project == q)) [
  | inl e ↦
      subst (λ p. Distinct (by_path p (upsert_files project now rows uploaded)))
        ((eq_iff project q).0 e)
        (rw (by_path-upsert_files project now rows uploaded)
          (Distinct-set_all (by_path project rows) (entries project now uploaded) (u project)))
  | inr e ↦
      rw (by_path-upsert_files_ne q project now rows uploaded (λ p. cc (e, (eq_iff project q).1 p)))
        (u q)
]

abbrev size : FileRow → ℕ
size r = r.size_bytes

total-map_values {ℓ} :
    {V : Type ℓ} (f : V → ℕ) (m : JsMap V) → total (λ n. n) (map_values f m) ≡ total f m
unfolding total map_values
total-map_values f [] = refl
total-map_values f ((k, v) ∷ m) = omega (arith, total-map_values f m)

map_values-map_values :
    (m : JsMap FileRow)
    → map_values (λ (e : CloudFile). e.size_bytes) (map_values cloud_file m) ≡ map_values size m
unfolding map_values
map_values-map_values [] = refl
map_values-map_values ((k, r) ∷ m) = ap (◌∷◌ (k, size r)) (map_values-map_values m)

map_values-entries :
    (project now : String) (uploaded : List Verified)
    → map_values size (entries project now uploaded)
      ≡ map (λ (e : Verified). (e.path, e.size_bytes)) uploaded
unfolding map_values
map_values-entries project now [] = refl
map_values-entries project now (e ∷ uploaded) =
    ap (◌∷◌ (e.path, e.size_bytes)) (map_values-entries project now uploaded)

abbrev stored_bytes : CloudFile → ℕ
stored_bytes e = e.size_bytes

-- What the gate reads of the manifest: the sizes of the rows whose path makes a key.
sizes-load :
    (project : String) (rows : List FileRow)
    → Distinct (by_path project rows)
    → map_values stored_bytes (load_cloud_manifest project rows)
      ≡ own_entries (map_values size (by_path project rows))
sizes-load project rows d =
    let m = by_path project rows in
    ap (map_values stored_bytes) (load_cloud_manifest-by_path project rows d)
    ∙ map_values-delete stored_bytes (map_values cloud_file m) "__proto__"
    ∙ ap own_entries (map_values-map_values m)

projected-own_entries :
    (project now : String) (rows : List FileRow) (uploaded : List Verified)
    → Distinct (by_path project rows)
    → projected_storage_bytes (load_cloud_manifest project rows) uploaded
      ≡ total
          (λ n. n)
          (set_all
            (own_entries (map_values size (by_path project rows)))
            (map_values size (entries project now uploaded)))
unfolding projected_storage_bytes
projected-own_entries project now rows uploaded d =
    let sizes = map_values size (by_path project rows) in
    rw
      (
        sizes-load project rows d,
        set_all_nil (own_entries sizes)
            (Distinct-delete sizes "__proto__" (Distinct-map_values size (by_path project rows) d)),
        map_values-entries project now uploaded,
      )
      refl

sum-set_all :
    (project now : String) (rows : List FileRow) (uploaded : List Verified)
    → sum_size_bytes project (upsert_files project now rows uploaded)
      ≡ total
          (λ n. n)
          (set_all
            (map_values size (by_path project rows))
            (map_values size (entries project now uploaded)))
sum-set_all project now rows uploaded =
    let m = by_path project rows in
    rw
      (
        sum-by_path project (upsert_files project now rows uploaded),
        by_path-upsert_files project now rows uploaded,
        ← map_values-set_all size m (entries project now uploaded),
      )
      (sym (total-map_values size (set_all m (entries project now uploaded))))

-- No row of the project has the path that makes no key.
abbrev pub HasNoProto : String → List FileRow → Type 0
HasNoProto project rows = has (by_path project rows) "__proto__" ≡ false

pub projected-eq-sum :
    (project now : String) (rows : List FileRow) (uploaded : List Verified)
    → Distinct (by_path project rows)
    → HasNoProto project rows
    → projected_storage_bytes (load_cloud_manifest project rows) uploaded
      ≡ sum_size_bytes project (upsert_files project now rows uploaded)
projected-eq-sum project now rows uploaded d h =
    let sizes = map_values size (by_path project rows) in
    projected-own_entries project now rows uploaded d
    ∙ ap (λ m. total (λ n. n) (set_all m (map_values size (entries project now uploaded))))
        (sym (map_values-delete size (by_path project rows) "__proto__")
          ∙ ap (map_values size) (delete_absent size (by_path project rows) "__proto__" h))
    ∙ sym (sum-set_all project now rows uploaded)

-- The gate never foresees more than what is stored.
pub projected-le-sum :
    (project now : String) (rows : List FileRow) (uploaded : List Verified)
    → Distinct (by_path project rows)
    → projected_storage_bytes (load_cloud_manifest project rows) uploaded
      ≤ sum_size_bytes project (upsert_files project now rows uploaded)
projected-le-sum project now rows uploaded d =
    let sizes = map_values size (by_path project rows) in
    rw (projected-own_entries project now rows uploaded d, sum-set_all project now rows uploaded)
      (total-set_all-le (λ n. n) "__proto__" (own_entries sizes) sizes
        (map_values size (entries project now uploaded))
        (IsLess-delete (λ n. n) sizes "__proto__"
          (Distinct-map_values size (by_path project rows) d)))

abbrev pub digests : List Verified → List (String × String)
digests uploaded = map (λ (e : Verified). (e.path, e.sha256)) uploaded

abbrev row_digest : Option FileRow → Option String
row_digest = map_option (λ (r : FileRow). r.sha256)

digest_at-load :
    (project : String) (rows : List FileRow) (path : String)
    → Distinct (by_path project rows)
    → ("__proto__" == path) ≡ false
    → digest_at (load_cloud_manifest project rows) path
      ≡ row_digest (JsMap.get (by_path project rows) path)
digest_at-load project rows path d e =
    rw
      (
        load_cloud_manifest-by_path project rows d,
        get-own_entries (map_values cloud_file (by_path project rows)) path e,
        get-map_values cloud_file (by_path project rows) path,
      )
      (both (JsMap.get (by_path project rows) path))
  where
    both :
        (o : Option FileRow)
        → map_option (λ (e : CloudFile). e.sha256) (map_option cloud_file o) ≡ row_digest o
    both none = refl
    both (some r) = refl

-- One step of `last_of`: a later entry wins over this one.
abbrev later_or {ℓ} : {A : Type ℓ} → Bool → A → Option A → Option A
later_or b a none = if b then some a else none
later_or b a (some w) = some w

row_digest-later_or :
    (b : Bool) (r : FileRow) (o : Option FileRow)
    → row_digest (later_or b r o) ≡ later_or b r.sha256 (row_digest o)
row_digest-later_or true r none = refl
row_digest-later_or false r none = refl
row_digest-later_or b r (some w) = refl

row_digest-last_of :
    (project now : String) (uploaded : List Verified) (path : String)
    → row_digest (last_of (entries project now uploaded) path) ≡ last_of (digests uploaded) path
unfolding last_of
row_digest-last_of project now [] path = refl
row_digest-last_of project now (e ∷ uploaded) path =
    row_digest-later_or (e.path == path) (file_row project now e)
      (last_of (entries project now uploaded) path)
    ∙ ap (later_or (e.path == path) e.sha256) (row_digest-last_of project now uploaded path)

row_digest-or_else :
    (p o : Option FileRow) → row_digest (or_else p o) ≡ or_else (row_digest p) (row_digest o)
row_digest-or_else none o = refl
row_digest-or_else (some r) o = refl

module _ (show : ℕ → String) (db : Db) (project : String) (uploaded : List Verified) (now : String)
    (unique : IsUnique db.project_files) where
  abbrev committed : Db
  committed = (commit_push show db project uploaded now).1

  abbrev returned : CloudFileManifest
  returned = (commit_push show db project uploaded now).0.1

  -- A commit stores the sum over the rows as the project's total.
  pub load_project-commit_push :
      (p : Project)
      → load_project db project ≡ some p
      → load_project committed project
        ≡ some (record p {
          total_storage_bytes =
              sum_size_bytes project (upsert_files project now db.project_files uploaded);
        })
  unfolding commit_push update_total load_project
  load_project-commit_push p found = rw (found, update_total) (simp (get-set, eq_refl))

  -- On a table with its unique index, for a project that exists and has no row with the path
  -- `__proto__`, a commit changes the project's row only in its total, which becomes the number
  -- that projectedStorageBytes gives for the manifest before the commit and the uploaded entries.
  pub commit_push-total :
      (p : Project)
      → load_project db project ≡ some p
      → HasNoProto project db.project_files
      → load_project committed project
        ≡ some (record p {
          total_storage_bytes =
              projected_storage_bytes (load_cloud_manifest project db.project_files) uploaded;
        })
  commit_push-total p found h =
      rw (projected-eq-sum project now db.project_files uploaded (unique project) h)
        (load_project-commit_push p found)

  -- On a table with its unique index, the manifest that a commit returns has at every path but
  -- `__proto__` the digest of the last uploaded entry for the path, and where there is none, the
  -- digest from before.
  pub get-commit_push :
      (path : String)
      → ("__proto__" == path) ≡ false
      → digest_at returned path
        ≡ or_else
            (last_of (digests uploaded) path)
            (digest_at (load_cloud_manifest project db.project_files) path)
  unfolding commit_push
  get-commit_push path e =
      let rows = upsert_files project now db.project_files uploaded in
      let later = IsUnique-upsert_files project now db.project_files uploaded unique in
      digest_at-load project rows path (later project) e
      ∙ ap (λ m. row_digest (JsMap.get m path))
          (by_path-upsert_files project now db.project_files uploaded)
      ∙ ap row_digest
          (get-set_all (by_path project db.project_files) (entries project now uploaded) path)
      ∙ row_digest-or_else (last_of (entries project now uploaded) path)
          (JsMap.get (by_path project db.project_files) path)
      ∙ ap (λ d. or_else d (row_digest (JsMap.get (by_path project db.project_files) path)))
          (row_digest-last_of project now uploaded path)
      ∙ ap (or_else (last_of (digests uploaded) path))
          (sym (digest_at-load project db.project_files path (unique project) e))
