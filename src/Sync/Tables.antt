-- ===== src/Sync/Tables.antt =====
-- The tables that sync reads and writes (apps/cloud/src/db/schema.ts), with the SQL statements of
-- apps/cloud/src/api/sync/shared.ts as functions on them. A table is the list of its rows. The
-- generated row ids, which no statement reads, are left out.
use tekbreed_oss.Prelude.{
  ℕ, ◌+◌, String, Option, none, some, List, [], ◌∷◌, ◌==◌, ◌&&◌, leb, if◌then◌else◌, filter,
}
use tekbreed_oss.JsMap
use tekbreed_oss.JsMap.{JsMap}

-- `projects`: the primary key `id` is the map's key.
pub record Project : Type 0 where
  pub account_id : String
  pub name : String
  pub total_storage_bytes : ℕ

pub record FileRow : Type 0 where
  pub project_id : String
  pub path : String
  pub sha256 : String
  pub r2_key : String
  pub size_bytes : ℕ
  pub updated_at : String

pub data CursorKind : Type 0 where
  push pull init : CursorKind

pub record CursorRow : Type 0 where
  pub project_id : String
  pub seq : ℕ
  pub kind : CursorKind
  pub created_at : String

pub record Db : Type 0 where
  pub projects : JsMap Project
  pub project_files : List FileRow
  pub sync_cursors : List CursorRow

-- SELECT … FROM project_files WHERE project_id = ?
unfoldable pub files_of : String → List FileRow → List FileRow
files_of project rows = filter (λ r. r.project_id == project) rows

-- INSERT INTO project_files … ON CONFLICT (project_id, path) DO UPDATE SET sha256, r2_key,
-- size_bytes, updated_at
unfoldable pub upsert_file : List FileRow → FileRow → List FileRow
upsert_file [] new = new ∷ []
upsert_file (r ∷ rows) new =
    if r.project_id == new.project_id && r.path == new.path
    then record r {
      sha256 = new.sha256;
      r2_key = new.r2_key;
      size_bytes = new.size_bytes;
      updated_at = new.updated_at;
    }
      ∷ rows
    else r ∷ upsert_file rows new

-- SELECT coalesce(sum(size_bytes), 0) FROM project_files WHERE project_id = ?
unfoldable pub sum_size_bytes : String → List FileRow → ℕ
sum_size_bytes project [] = 0
sum_size_bytes project (r ∷ rows) =
    (if r.project_id == project then r.size_bytes else 0) + sum_size_bytes project rows

-- UPDATE projects SET total_storage_bytes = ? WHERE id = ?
unfoldable pub update_total : JsMap Project → String → ℕ → JsMap Project
update_total projects id total = elim (JsMap.get projects id) [
  | none ↦ projects
  | some p ↦ JsMap.set projects id (record p { total_storage_bytes = total })
]

-- SELECT … FROM sync_cursors WHERE project_id = ? ORDER BY seq DESC LIMIT 1
unfoldable pub latest_cursor : String → List CursorRow → Option CursorRow
latest_cursor project [] = none
latest_cursor project (r ∷ rows) = elim (latest_cursor project rows) [
  | none ↦ if r.project_id == project then some r else none
  | some s ↦ if (r.project_id == project) && leb s.seq r.seq then some r else some s
]

-- SELECT coalesce(max(seq), 0) FROM sync_cursors WHERE project_id = ?
unfoldable pub max_seq : String → List CursorRow → ℕ
max_seq project [] = 0
max_seq project (r ∷ rows) =
    let rest = max_seq project rows in
    if (r.project_id == project) && leb rest r.seq then r.seq else rest
