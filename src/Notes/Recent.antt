-- ===== src/Notes/Recent.antt =====
-- A note just written is the first of the recent ones.
use tekbreed_oss.Prelude.{
  ℕ, zero, ◌==◌, suc, ◌-◌, ◌≤◌, String, ◌≡◌, ◌⊎◌, ◌∙◌, refl, ap, inl, inr, false, some, List, [],
  ◌∷◌, ◌++◌, map, arith, length, length-append, drop, if◌then◌else◌,
}
use mathlib.Core.List.{reverse, reverse-append}
use tekbreed_oss.Prelude.Floats.{Floats}
use tekbreed_oss.Prelude.Number.{pos}
use tekbreed_oss.Prelude.Result.{Result, ok, throw, Result-cases}
use tekbreed_oss.JsMap
use tekbreed_oss.JsMap.{JsMap, has, values, get-set}
use tekbreed_oss.JsMap.Bulk.{set_new}
use tekbreed_oss.Security.{Texts, BlocklistRule, BlocklistViolation, assert_write_allowed}
use tekbreed_oss.Notes.{
  StoredNote, WriteMemoryInput, WriteMemoryResult, WriteError, blocked, RecentMemory, Notes,
  slice_last, scanned, note_id, stored, decide, write_memory, recent, list_recent_memories,
}

drop_append :
    {A : Type 0} (n : ℕ) (xs ys : List A) → n ≤ length xs → drop n (xs ++ ys) ≡ drop n xs ++ ys
drop_append zero xs ys h = refl
drop_append (suc n) [] ys h = absurd (omega arith)
drop_append (suc n) (x ∷ xs) ys h = drop_append n xs ys (omega arith)

map-append-values : {V : Type 0} (m l : JsMap V) → values (m ++ l) ≡ values m ++ values l
map-append-values [] l = refl
map-append-values ((k, v) ∷ m) l = ap (◌∷◌ v) (map-append-values m l)

-- The last of a list is among its last n + 1.
reverse-slice_last :
    {A : Type 0} (n : ℕ) (xs : List A) (x : A)
    → reverse (slice_last (pos (suc n)) (xs ++ x ∷ []))
      ≡ x ∷ reverse (drop (length (xs ++ x ∷ []) - suc n) xs)
reverse-slice_last n xs x =
    ap reverse (
      drop_append (length (xs ++ x ∷ []) - suc n) xs (x ∷ [])
        (omega (arith, length-append xs (x ∷ []))))
    ∙ reverse-append (drop (length (xs ++ x ∷ []) - suc n) xs) (x ∷ [])

module _ (texts : Texts) (floats : Floats) (rules : List BlocklistRule) (show : ℕ → String)
    (now : String) (input : WriteMemoryInput floats.Float) (notes : Notes) (n : ℕ) where
  abbrev pub new_id : String
  new_id = note_id texts floats rules show notes input

  abbrev pub new_note : StoredNote
  new_note = stored texts floats rules show new_id now input

  -- The write is refused with what the blocklist found, or is there and comes first.
  abbrev pub Written : Result WriteError WriteMemoryResult × Notes → Type 0
  Written (outcome, after) =
      ((found : List BlocklistViolation) × (assert_write_allowed texts rules
            (scanned texts floats rules show input)
          ≡ throw found)
        × (outcome ≡ throw (blocked found))
        × (after ≡ notes))
      ⊎ ((later : List RecentMemory) × (outcome
            ≡ ok (record { id = new_id; decision = decide texts floats rules show input }))
          × ((key : String)
              → JsMap.get after key
                ≡ (if new_id == key then some new_note else JsMap.get notes key))
          × (list_recent_memories texts floats rules show false (some (pos (suc n))) after
              ≡ ok (recent texts floats rules show new_note ∷ later)))

  listed :
      has notes new_id ≡ false
      → list_recent_memories texts floats rules show false
          (some (pos (suc n)))
          (JsMap.set notes new_id new_note)
        ≡ ok (
            map (recent texts floats rules show) (
              new_note
              ∷ reverse (drop (length (values notes ++ new_note ∷ []) - suc n) (values notes))))
  unfolding list_recent_memories
  listed fresh =
      ap (λ vs. ok (map (recent texts floats rules show) (reverse (slice_last (pos (suc n)) vs))))
        (ap values (set_new notes new_id new_note fresh)
          ∙ map-append-values notes ((new_id, new_note) ∷ []))
      ∙ ap (λ vs. ok (map (recent texts floats rules show) vs))
          (reverse-slice_last n (values notes) new_note)

  -- Where no note has the id that a new one gets, writeMemory either throws what the blocklist
  -- found and leaves the notes as they were, or returns the id and the decided tier, sets that
  -- note alone under its id, and listRecentMemories with any limit of at least 1 then lists it
  -- first.
  pub write_memory_lem :
      has notes new_id ≡ false
      → Written (write_memory texts floats rules show false now input notes)
  unfolding write_memory
  write_memory_lem fresh =
      elim (Result-cases
        (assert_write_allowed texts rules (scanned texts floats rules show input))) [
          | inr (found, e) ↦ rw e (inl (found, refl, refl, refl))
          | inl (u, e) ↦ rw e (
              inr (
                map (recent texts floats rules show) (
                    reverse (drop (length (values notes ++ new_note ∷ []) - suc n) (values notes))),
                refl,
                λ key. get-set notes new_id key new_note,
                listed fresh,
              ))
        ]
