-- ===== src/Notes/Clean.antt =====
-- The content and the title of the notes that are stored, which writeMemory scans by the rules of
-- the blocklist. It stores the tags and the ids unscanned.
use tekbreed_oss.Prelude.{
  ℕ, String, ◌≡◌, refl, Bool, true, false, Option, none, some, List, [], ◌∷◌, ◌++◌, arith, ◌==◌,
  All, Bool-cases, Option-cases, inl, inr, ◌⊎◌, sym, ap, ◌∙◌, eq_iff, includes,
}
use mathlib.Core.Path.{subst}
use tekbreed_oss.Prelude.Floats.{Floats}
use tekbreed_oss.Prelude.Result.{ok, Result-cases}
use tekbreed_oss.JsMap
use tekbreed_oss.JsMap.{JsMap}
use tekbreed_oss.Security.{
  Texts, BlocklistRule, detect, matched, detect_blocked_content, violations_of,
  assert_write_allowed,
}
use tekbreed_oss.Notes.{StoredNote, WriteMemoryInput, Notes, scanned, note_id, stored, write_memory}

All-set :
    {V : Type 0} (P : String → V → Type 0) (m : JsMap V) (k : String) (v : V)
    → All (λ (e : String × V). P e.0 e.1) m
    → P k v
    → All (λ (e : String × V). P e.0 e.1) (JsMap.set m k v)
unfolding JsMap.set
All-set P [] k v all new = (new, tt)
All-set P ((j, w) ∷ m) k v all new = elim (Bool-cases (j == k)) [
  | inl e ↦ rw e (subst (λ i. P i v) (sym ((eq_iff j k).0 e)) new, all.1)
  | inr e ↦ rw e (all.0, All-set P m k v all.1 new)
]

append-nil_both : {A : Type 0} (xs ys : List A) → xs ++ ys ≡ [] → (xs ≡ []) × (ys ≡ [])
append-nil_both [] ys h = (refl, h)
append-nil_both (x ∷ xs) ys h = cc

module _ (texts : Texts) (floats : Floats) (rules : List BlocklistRule) (show : ℕ → String) where
  -- The pattern of the rule has no match in the text, or matches nothing of it.
  abbrev pub IsSilent : String → BlocklistRule → Type 0
  IsSilent text r = (r.exec text ≡ none) ⊎ (r.exec text ≡ some "")

  -- The text is empty, or every rule is silent on it.
  abbrev pub IsSecretFree : String → Type 0
  IsSecretFree text = (text ≡ "") ⊎ All (IsSilent text) rules

  abbrev pub CleanTitle : Option String → Type 0
  CleanTitle none = Unit {0}
  CleanTitle (some t) = IsSecretFree t

  -- The note's content and title, and the key that it stands under.
  abbrev pub IsClean : String → StoredNote → Type 0
  IsClean key n = (key ≡ n.id) × IsSecretFree n.content × CleanTitle n.title

  abbrev pub AllClean : Notes → Type 0
  AllClean notes = All (λ (e : String × StoredNote). IsClean e.0 e.1) notes

  assert_write_allowed-ok :
      (written : List String)
      → assert_write_allowed texts rules written ≡ ok tt
      → violations_of texts rules written ≡ []
  unfolding assert_write_allowed
  assert_write_allowed-ok written h = ground arith

  IsSilent-cases :
      (r : BlocklistRule) (text : String)
      → IsSilent text r ⊎ ((s : String) × (matched texts (r.exec text) ≡ some s))
  IsSilent-cases r text = elim (Option-cases (r.exec text)) [
    | inl e ↦ inl (inl e)
    | inr (s, e) ↦ elim (Bool-cases (s == "")) [
      | inl empty ↦ inl (inr (e ∙ ap some ((eq_iff s "").0 empty)))
      | inr full ↦ inr (s, rw e (rw full refl))
    ]
  ]

  -- A scan that reports nothing has been through every rule.
  detect-nil :
      (text : String) (rs : List BlocklistRule)
      → detect texts text [] rs ≡ []
      → All (IsSilent text) rs
  unfolding detect includes
  detect-nil text [] h = tt
  detect-nil text (r ∷ rs) h = elim (IsSilent-cases r text) [
    | inr (s, e) ↦ absurd (ground (arith, e))
    | inl silent ↦ (silent, detect-nil text rs (quiet silent))
  ]
    where
      quiet : IsSilent text r → detect texts text [] rs ≡ []
      quiet (inl e) = rw e at h
      quiet (inr e) = rw e at h

  detect_blocked_content-nil :
      (text : String) → detect_blocked_content texts rules text ≡ [] → IsSecretFree text
  unfolding detect_blocked_content
  detect_blocked_content-nil text h = elim (Bool-cases (text == "")) [
    | inl e ↦ inl ((eq_iff text "").0 e)
    | inr e ↦ inr (detect-nil text rules (rw e at h))
  ]

  scanned-clean :
      (content : String) (title : Option String)
      → violations_of texts rules (elim title [ none ↦ content ∷ [] | some t ↦ content ∷ t ∷ [] ])
        ≡ []
      → IsSecretFree content × CleanTitle title
  unfolding violations_of
  scanned-clean content none h = (detect_blocked_content-nil content (append-nil_both _ _ h).0, tt)
  scanned-clean content (some t) h =
      let (first, rest) = append-nil_both (detect_blocked_content texts rules content) _ h in
      (
        detect_blocked_content-nil content first,
        detect_blocked_content-nil t
            (append-nil_both (detect_blocked_content texts rules t) [] rest).0,
      )

  -- A call of writeMemory: whether it was aborted, the clock's date, and the input.
  abbrev pub Write : Type 0
  Write = Bool × String × WriteMemoryInput floats.Float

  unfoldable pub run : Notes → List Write → Notes
  run notes [] = notes
  run notes ((is_aborted, now, input) ∷ later) =
      run (write_memory texts floats rules show is_aborted now input notes).1 later

  write_memory-AllClean :
      (is_aborted : Bool) (now : String) (input : WriteMemoryInput floats.Float) (notes : Notes)
      → AllClean notes
      → AllClean (write_memory texts floats rules show is_aborted now input notes).1
  unfolding write_memory
  write_memory-AllClean true now input notes all = all
  write_memory-AllClean false now input notes all =
      elim (Result-cases
        (assert_write_allowed texts rules (scanned texts floats rules show input))) [
          | inr (found, e) ↦ rw e all
          | inl (u, e) ↦
              let (content, title) =
                scanned-clean input.content input.title
                  (assert_write_allowed-ok (scanned texts floats rules show input) e) in
              rw e (
                All-set IsClean notes (note_id texts floats rules show notes input)
                  (stored texts floats rules show (note_id texts floats rules show notes input) now
                    input)
                  all (refl, content, title))
        ]

  run-AllClean_from :
      (notes : Notes) (writes : List Write) → AllClean notes → AllClean (run notes writes)
  unfolding run
  run-AllClean_from notes [] all = all
  run-AllClean_from notes ((is_aborted, now, input) ∷ later) all =
      run-AllClean_from (write_memory texts floats rules show is_aborted now input notes).1 later
        (write_memory-AllClean is_aborted now input notes all)

  -- After any calls of writeMemory on a strategy without notes, also aborted ones and ones that
  -- throw, the content of each stored note is empty or every rule of the blocklist has no match
  -- or an empty one in it, so has its title where it has one, and each note stands under its own
  -- id. The tags and ids of a note are not spoken of.
  pub run-AllClean : (writes : List Write) → AllClean (run [] writes)
  run-AllClean writes = run-AllClean_from [] writes tt
