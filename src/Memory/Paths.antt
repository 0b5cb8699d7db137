-- ===== src/Memory/Paths.antt =====
-- packages/tekmemo/src/core/constants/memory-paths.ts: which paths a memory store may use.
use tekbreed_oss.Prelude.{
  String, Bool, true, false, ◌||◌, not, Option, none, some, List, [], ◌∷◌, ◌==◌, if◌then◌else◌,
  includes,
}
use tekbreed_oss.Prelude.Result.{Result, ok, throw, ◌>>◌}

-- MemoryPathError by its message, and MemoryNotFoundError
pub data MemoryError : Type 0 where
  null_byte unsafe_path parent_segment outside_dir unsupported_path : MemoryError
  snapshot_id_empty snapshot_id_unsupported not_found : MemoryError

-- What the language does with texts; `snapshot_file` is the test of SNAPSHOT_FILE_PATTERN and
-- `snapshot_name` that of /^[a-zA-Z0-9_.-]+$/, `parts` is split("/") and `inner s` the slice of
-- `s` between ".tekmemo/snapshots/" and ".json".
pub record PathText : Type 0 where
  pub trim : String → String
  pub contains : String → String → Bool
  pub starts_with : String → String → Bool
  pub ends_with : String → String → Bool
  pub parts : String → List String
  pub inner : String → String
  pub snapshot_path : String → String
  pub snapshot_file : String → Bool
  pub snapshot_name : String → Bool

abbrev pub manifest_path : String
manifest_path = ".tekmemo/manifest.json"

abbrev pub core_memory_path : String
core_memory_path = ".tekmemo/memory/core.md"

abbrev pub notes_memory_path : String
notes_memory_path = ".tekmemo/memory/notes.md"

abbrev pub memory_events_path : String
memory_events_path = ".tekmemo/events/memory-events.jsonl"

abbrev pub conversations_memory_path : String
conversations_memory_path = ".tekmemo/events/conversations.jsonl"

abbrev pub chunks_index_path : String
chunks_index_path = ".tekmemo/indexes/chunks.jsonl"

abbrev pub embeddings_index_path : String
embeddings_index_path = ".tekmemo/indexes/embeddings.jsonl"

abbrev pub graph_nodes_path : String
graph_nodes_path = ".tekmemo/graph/nodes.jsonl"

abbrev pub graph_edges_path : String
graph_edges_path = ".tekmemo/graph/edges.jsonl"

abbrev pub snapshots_index_path : String
snapshots_index_path = ".tekmemo/snapshots/snapshots.jsonl"

abbrev pub connectors_path : String
connectors_path = ".tekmemo/connectors.json"

abbrev pub canonical_tekmemo_files : List String
canonical_tekmemo_files =
    manifest_path ∷ core_memory_path ∷ notes_memory_path ∷ memory_events_path
    ∷ conversations_memory_path ∷ chunks_index_path ∷ embeddings_index_path ∷ graph_nodes_path
    ∷ graph_edges_path ∷ snapshots_index_path ∷ connectors_path ∷ []

abbrev pub refuse : Bool → MemoryError → Result MemoryError (Unit {0})
refuse true e = throw e
refuse false e = ok tt

module _ (text : PathText) where
  open text use {
    trim, contains, starts_with, ends_with, parts, inner, snapshot_path, snapshot_file,
    snapshot_name,
  }

  unfoldable pub is_memory_path : String → Bool
  unfolding includes
  is_memory_path path = includes canonical_tekmemo_files path || snapshot_file path

  unfoldable pub assert_memory_path : String → Result MemoryError (Unit {0})
  unfolding is_memory_path
  assert_memory_path path = do
    refuse (contains path "\0") null_byte
    refuse (starts_with path "/" || contains path "\\") unsafe_path
    refuse (includes (parts path) "..") parent_segment
    refuse (not (starts_with path ".tekmemo/")) outside_dir
    refuse (not (is_memory_path path)) unsupported_path

  unfoldable pub create_snapshot_path : String → Result MemoryError String
  unfolding assert_memory_path
  create_snapshot_path id = do
    refuse (trim id == "") snapshot_id_empty
    refuse (not (snapshot_name (trim id))) snapshot_id_unsupported
    assert_memory_path (snapshot_path (trim id))
    ok (snapshot_path (trim id))

  -- `try { return createSnapshotPath(id) } catch { return undefined }`
  unfoldable pub safe_snapshot_path : String → Option String
  unfolding create_snapshot_path
  safe_snapshot_path id = elim (create_snapshot_path id) [ ok path ↦ some path | throw e ↦ none ]

  unfoldable pub safe_snapshot_path_from_path : String → Option String
  unfolding safe_snapshot_path
  safe_snapshot_path_from_path path =
      if not (starts_with path ".tekmemo/snapshots/")
      then none
      else if not (ends_with path ".json")
      then none
      else safe_snapshot_path (inner path)

  -- the file-replication layer's own test: a canonical path is itself
  unfoldable pub safe_memory_path : String → Option String
  unfolding safe_snapshot_path_from_path includes
  safe_memory_path path =
      if includes canonical_tekmemo_files path then some path else safe_snapshot_path_from_path path
