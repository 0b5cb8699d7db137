-- ===== src/Notes.antt =====
-- packages/tekmemo/src/tekmemo/memory-strategy.ts: the notes of the in-memory strategy, which
-- writeMemory adds to and listRecentMemories lists. `String(n)` and Array.slice stand as the code
-- uses them; the source references that are handed back unchanged are left out.
pub mod Clean
pub mod Recent
mod Tests
use tekbreed_oss.Prelude.{
  ℕ, zero, suc, ◌+◌, ◌-◌, String, Bool, Option, none, some, List, [], ◌∷◌, ◌++◌, map, if◌then◌else◌,
  get_or, length, drop,
}
use mathlib.Core.List.{reverse}
use tekbreed_oss.Prelude.Number.{JsNumber, nan, infinity, neg_infinity, pos, negsuc}
use tekbreed_oss.Prelude.Floats.{Floats}
use tekbreed_oss.Prelude.Result.{Result, ok, throw}
use tekbreed_oss.JsMap
use tekbreed_oss.JsMap.{JsMap, values, size}
use tekbreed_oss.Security.{
  Texts, BlocklistRule, BlocklistViolation, assert_write_allowed, DurabilityTier, DurabilityReason,
  MemoryKind, DurabilityDecision, classify_durability,
}

pub record StoredNote : Type 0 where
  pub id : String
  pub title : Option String
  pub content : String
  pub kind : Option MemoryKind
  pub workspace_id : Option String
  pub project_id : Option String
  pub tags : Option (List String)
  pub created_at : String

pub record WriteMemoryInput (Float : Type 0) : Type 0 where
  pub title : Option String
  pub content : String
  pub kind : Option MemoryKind
  pub workspace_id : Option String
  pub project_id : Option String
  pub tags : Option (List String)
  pub confidence : Option Float
  pub id : Option String
  pub tier : Option DurabilityTier

-- `created` is true in every answer.
pub record WriteMemoryResult : Type 0 where
  pub id : String
  pub decision : DurabilityDecision

pub data WriteError : Type 0 where
  aborted : WriteError
  blocked : List BlocklistViolation → WriteError

pub record RecentMemory : Type 0 where
  pub id : String
  pub kind : Option MemoryKind
  pub timestamp : String
  pub summary : String
  pub tags : List String

abbrev pub Notes : Type 0
Notes = JsMap StoredNote

-- Array.prototype.slice(-limit)
abbrev pub slice_last : {A : Type 0} → JsNumber → List A → List A
slice_last (pos zero) xs = xs
slice_last (pos (suc n)) xs = drop (length xs - suc n) xs
slice_last (negsuc n) xs = drop (suc n) xs
slice_last neg_infinity xs = []
slice_last _ xs = xs

module _ (texts : Texts) (floats : Floats) (rules : List BlocklistRule) (show : ℕ → String) where
  open floats use {Float}

  -- `[input.content, ...(input.title === undefined ? [] : [input.title])]`
  abbrev pub scanned : WriteMemoryInput Float → List String
  scanned input = elim input.title [ none ↦ input.content ∷ [] | some t ↦ input.content ∷ t ∷ [] ]

  -- `input.id ?? note_${notes.size + 1}`
  abbrev pub note_id : Notes → WriteMemoryInput Float → String
  note_id notes input = get_or input.id (texts.concat "note_" (show (size notes + 1)))

  abbrev pub stored : String → String → WriteMemoryInput Float → StoredNote
  stored id now input = record {
    id = id;
    title = input.title;
    content = input.content;
    kind = input.kind;
    workspace_id = input.workspace_id;
    project_id = input.project_id;
    tags = input.tags;
    created_at = now;
  }

  abbrev pub decide : WriteMemoryInput Float → DurabilityDecision
  decide input =
      classify_durability texts floats input.tier input.confidence input.content input.kind

  -- writeMemory; `now` is the clock's ISO date
  unfoldable pub write_memory :
      Bool → String → WriteMemoryInput Float → Notes → Result WriteError WriteMemoryResult × Notes
  write_memory is_aborted now input notes =
      if is_aborted
      then (throw aborted, notes)
      else elim (assert_write_allowed texts rules (scanned input)) [
        | throw found ↦ (throw (blocked found), notes)
        | ok _ ↦
            let id = note_id notes input in
            (
              ok (record { id = id; decision = decide input }),
              JsMap.set notes id (stored id now input),
            )
      ]

  abbrev pub recent : StoredNote → RecentMemory
  recent n = record {
    id = n.id;
    kind = n.kind;
    timestamp = n.created_at;
    summary = get_or n.title (texts.slice n.content 0 160);
    tags = get_or n.tags [];
  }

  -- listRecentMemories; the text of `type` stands as the kind it is made of
  unfoldable pub list_recent_memories :
      Bool → Option JsNumber → Notes → Result WriteError (List RecentMemory)
  list_recent_memories is_aborted limit notes =
      if is_aborted
      then throw aborted
      else ok (map recent (reverse (slice_last (get_or limit (pos 20)) (values notes))))
