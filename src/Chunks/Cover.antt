-- ===== src/Chunks/Cover.antt =====
-- The rounds of chunk-text.ts end, and cover the text.
use tekbreed_oss.Prelude.{
  ℕ, zero, suc, ◌+◌, ◌-◌, ◌≤◌, ◌<◌, ◌≡◌, refl, true, false, some, List, [], ◌∷◌, arith, leb, length,
  Bool-cases, inl, inr, lt→ltb, eqb,
}
use tekbreed_oss.Prelude.Result.{ok}
use tekbreed_oss.Chunks.{chunk_text, push_chunks, has_null, Text, end_of, min_of, max_of, windows}
use tekbreed_oss.Chunks.Search.{find_soft_boundary_within}

-- The windows go on from `at` to the end of a text of this length without a gap: each starts at or
-- before the end of the one before, is not empty, has at most `max` units, and the last one ends at
-- the end of the text.
abbrev pub Cover : ℕ → ℕ → ℕ → List (ℕ × ℕ) → Type 0
Cover at len max [] = at ≡ len
Cover at len max ((start, end) ∷ ws) =
    (start ≤ at) × (start < end) × (end ≤ start + max) × (end ≤ len) × Cover end len max ws

end_of_within :
    (text : Text) (max start : ℕ)
    → 0 < max
    → start < length text
    → (start < end_of text max start)
      × (end_of text max start ≤ start + max)
      × (end_of text max start ≤ length text)
end_of_within text max start m h = ground (
  arith,
  find_soft_boundary_within text start (min_of (start + max) (length text)) (ground arith)
      (ground arith),
)

last_end : (end len : ℕ) → end ≤ len → leb len end ≡ true → end ≡ len
last_end end len h e = ground arith

-- The next start is above this one, at most this end, and below the end of the text.
next_at_most : (end start overlap : ℕ) → start < end → max_of (end - overlap) (start + 1) ≤ end
next_at_most end start overlap h = ground arith

next_below :
    (end len start overlap : ℕ)
    → start < end
    → leb len end ≡ false
    → max_of (end - overlap) (start + 1) < len
next_below end len start overlap h e = ground arith

next_above :
    (end start overlap fuel len : ℕ)
    → len < start + suc fuel
    → len < max_of (end - overlap) (start + 1) + fuel
next_above end start overlap fuel len h = ground arith

windows-Cover :
    (fuel : ℕ) (text : Text) (max overlap start at : ℕ)
    → 0 < max
    → start < length text
    → start ≤ at
    → length text < start + fuel
    → (ws : List (ℕ × ℕ)) × (windows fuel text max overlap start ≡ some ws)
      × Cover at (length text) max ws
unfolding windows
windows-Cover zero text max overlap start at m h l f = absurd (omega arith)
windows-Cover (suc fuel) text max overlap start at m h l f =
    elim (Bool-cases (leb (length text) end)) [
      | inl e ↦ (
        (start, end) ∷ [],
        rw (lt→ltb start (length text) h, e) refl,
        (l, within.0, within.1, within.2, last_end end (length text) within.2 e),
      )
      | inr e ↦
          let (ws, g, c) =
            windows-Cover fuel text max overlap (max_of (end - overlap) (start + 1)) end m
              (next_below end (length text) start overlap within.0 e)
              (next_at_most end start overlap within.0)
              (next_above end start overlap fuel (length text) f) in
          (
            (start, end) ∷ ws,
            rw (lt→ltb start (length text) h, e, g) refl,
            (l, within.0, within.1, within.2, c),
          )
    ]
  where
    end : ℕ
    end = end_of text max start

    within : (start < end) × (end ≤ start + max) × (end ≤ length text)
    within = end_of_within text max start m h

-- One unit of fuel more than the text is long is enough.
all_windows-Cover :
    (text : Text) (max overlap : ℕ)
    → 0 < max
    → (ws : List (ℕ × ℕ)) × (windows (length text + 1) text max overlap 0 ≡ some ws)
      × Cover 0 (length text) max ws
unfolding windows
all_windows-Cover [] max overlap m = ([], refl, refl)
all_windows-Cover (x ∷ xs) max overlap m =
    windows-Cover (length (x ∷ xs) + 1) (x ∷ xs) max overlap 0 0 m (omega arith) (omega arith)
      (omega arith)

-- On a text that is not blank and has no null character, with an overlap smaller than the largest
-- size, chunkText returns: it pushes the chunks of windows that start at the beginning of the
-- normalized text and end at its end, each non-empty, at most the largest size long, and starting
-- at or before the end of the one before.
pub chunk_text_covers :
    (trim normalize : Text → Text) (text : Text) (max overlap : ℕ)
    → 0 < length (trim text)
    → has_null text ≡ false
    → overlap < max
    → (ws : List (ℕ × ℕ)) × (chunk_text trim normalize text (some max) (some overlap)
        ≡ ok (some (push_chunks trim (trim (normalize text)) 0 ws)))
      × Cover 0 (length (trim (normalize text))) max ws
unfolding chunk_text
chunk_text_covers trim normalize text max overlap h z l =
    let (ws, g, c) = all_windows-Cover (trim (normalize text)) max overlap (omega arith) in
    (ws, rw (present, z, positive, larger, g) refl, c)
  where
    present : eqb (length (trim text)) 0 ≡ false
    present = ground arith

    positive : eqb max 0 ≡ false
    positive = ground arith

    larger : leb max overlap ≡ false
    larger = ground arith
