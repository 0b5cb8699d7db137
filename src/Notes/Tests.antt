-- ===== src/Notes/Tests.antt =====
-- Notes written to the in-memory strategy. A rule matches the text "secret" alone, a new id is "2".
use tekbreed_oss.Prelude.{
  ℕ, String, ◌≡◌, refl, true, false, Option, none, some, List, [], ◌∷◌, ◌==◌, if◌then◌else◌,
  includes, map,
}
use tekbreed_oss.Prelude.Number.{pos}
use tekbreed_oss.Prelude.Result.{ok}
use tekbreed_oss.Prelude.Whole.{whole}
use tekbreed_oss.JsMap
use tekbreed_oss.Security.{
  Texts, BlocklistRule, MemoryKind, blocklist_rules, redact, detect, detect_blocked_content,
  violations_of, assert_write_allowed, classify_durability,
}
use tekbreed_oss.Notes.{WriteMemoryInput, write_memory, list_recent_memories, recent, stored}
use tekbreed_oss.Notes.Clean.{Write, AllClean, run, run-AllClean}
use tekbreed_oss.Notes.Recent.{Written, write_memory_lem}

program : Unit {0}
unfolding includes JsMap.get JsMap.set redact detect detect_blocked_content violations_of
    assert_write_allowed classify_durability write_memory list_recent_memories run
program = tt

abbrev texts : Texts
texts = record {
  length = λ s. if s == "short" then 5 else 30;
  slice = λ s a b. s;
  last = λ s. s;
  concat = λ a b. b;
  trim = λ s. s;
}

abbrev rules : List BlocklistRule
rules = blocklist_rules (λ id text. if text == "secret" then some text else none)

abbrev show : ℕ → String
show n = "2"

abbrev input : String → Option String → WriteMemoryInput ℕ
input content id = record {
  title = none;
  content = content;
  kind = some MemoryKind.decision;
  workspace_id = none;
  project_id = none;
  tags = none;
  confidence = none;
  id = id;
  tier = none;
}

abbrev writes : List (Write texts whole rules show)
writes =
    (false, "now", input "fact" (some "1"))
    ∷ (false, "now", input "secret" none)
    ∷ (true, "now", input "other" none)
    ∷ (false, "later", input "short" none)
    ∷ []

two_stored : map (λ e. e.0) (run texts whole rules show [] writes) ≡ "1" ∷ "2" ∷ []
unfolding program
two_stored = refl

-- A note whose writer chose the id that the next new one gets is lost.
id_taken :
    run texts whole rules show []
      ((false, "now", input "fact" (some "2")) ∷ (false, "later", input "other" none) ∷ [])
    ≡ ("2", stored texts whole rules show "2" "later" (input "other" none)) ∷ []
unfolding program
id_taken = refl

-- A limit of 0 lists every note.
limit_zero :
    list_recent_memories texts whole rules show false
      (some (pos 0))
      (run texts whole rules show [] writes)
    ≡ ok (
        recent texts whole rules show
          (stored texts whole rules show "2" "later" (input "short" none))
        ∷ recent texts whole rules show
            (stored texts whole rules show "1" "now" (input "fact" (some "1")))
        ∷ [])
unfolding program
limit_zero = refl

run-AllClean_example : AllClean texts whole rules show (run texts whole rules show [] writes)
run-AllClean_example = run-AllClean texts whole rules show writes

write_memory_lem_example :
    Written texts whole rules show "now"
      (input "fact" none)
      []
      3
      (write_memory texts whole rules show false "now" (input "fact" none) [])
unfolding program
write_memory_lem_example =
    write_memory_lem texts whole rules show "now" (input "fact" none) [] 3 refl
