-- ===== src/Memory/Store.antt =====
-- packages/tekmemo/src/core/stores/in-memory-store.ts: a store that keeps its files in a Map. An
-- operation that throws leaves the files as they were.
use tekbreed_oss.Prelude.{String, Bool, none, some, List, [], ◌∷◌, ◌==◌, if◌then◌else◌, get_or}
use tekbreed_oss.Prelude.Result.{Result, ok, throw, ◌>>◌}
use tekbreed_oss.JsMap
use tekbreed_oss.JsMap.{JsMap, has}
use tekbreed_oss.Memory.Paths.{PathText, MemoryError, not_found, assert_memory_path}

abbrev pub Files : Type 0
Files = JsMap String

module _ (text : PathText) (concat : String → String → String) where
  -- the constructor's loop over its initial files
  unfoldable pub new_store : Files → List (String × String) → Result MemoryError Files
  new_store files [] = ok files
  new_store files ((path, content) ∷ initial) = do
    assert_memory_path text path
    new_store (JsMap.set files path content) initial

  unfoldable pub append : Files → String → String → Result MemoryError Files
  append files path content = do
    assert_memory_path text path
    if content == ""
        then ok files
        else ok (JsMap.set files path (concat (get_or (JsMap.get files path) "") content))

module _ (text : PathText) where
  unfoldable pub read : Files → String → Result MemoryError String
  read files path = do
    assert_memory_path text path
    elim (JsMap.get files path) [ none ↦ throw not_found | some content ↦ ok content ]

  unfoldable pub write : Files → String → String → Result MemoryError Files
  write files path content = do assert_memory_path text path; ok (JsMap.set files path content)

  unfoldable pub exists : Files → String → Result MemoryError Bool
  exists files path = do assert_memory_path text path; ok (has files path)

  unfoldable pub delete : Files → String → Result MemoryError Files
  delete files path = do assert_memory_path text path; ok (JsMap.delete files path)
