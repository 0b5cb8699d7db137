-- ===== src/Chunks.antt =====
-- packages/tekmemo/src/core/chunking/chunk-text.ts: a text, as its list of UTF-16 code units, cut
-- into pieces that overlap. The loop runs on fuel, and gives `none` where that is used up. Its
-- rounds (windows) and what it pushes in each (push_chunks) are two passes here: no push has a
-- part in the next round. A chunk's id, the fields copied from the options, and the checks of these
-- fields are left out.
pub mod Search
pub mod Cover
mod Tests
use tekbreed_oss.Prelude.{
  ℕ, zero, suc, ◌+◌, ◌-◌, ◌*◌, ◌/◌, ◌%◌, Bool, true, false, ◌&&◌, ◌||◌, not, Option, none, some,
  List, [], ◌∷◌, ltb, leb, eqb, if◌then◌else◌, length, take, drop, get_or,
}
use tekbreed_oss.Prelude.Result.{Result, ok, throw}

abbrev pub Text : Type 0
Text = List ℕ

-- String.prototype.startsWith, lastIndexOf and slice
unfoldable pub starts_with : Text → Text → Bool
starts_with xs [] = true
starts_with [] (c ∷ cs) = false
starts_with (x ∷ xs) (c ∷ cs) = eqb x c && starts_with xs cs

unfoldable pub last_index_of : Text → Text → Option ℕ
last_index_of [] c = if starts_with [] c then some 0 else none
last_index_of (x ∷ xs) c = elim (last_index_of xs c) [
  | some p ↦ some (suc p)
  | none ↦ if starts_with (x ∷ xs) c then some 0 else none
]

abbrev pub slice : Text → ℕ → ℕ → Text
slice text start end = take (end - start) (drop start text)

-- "\n\n", "\n", ". ", "? ", "! ", " "
abbrev pub candidates : List Text
candidates =
    (10 ∷ 10 ∷ []) ∷ (10 ∷ []) ∷ (46 ∷ 32 ∷ []) ∷ (63 ∷ 32 ∷ []) ∷ (33 ∷ 32 ∷ []) ∷ (32 ∷ []) ∷ []

-- the loop of findSoftBoundary
unfoldable pub first_boundary : List Text → Text → ℕ → ℕ → ℕ
first_boundary [] window start hard_end = hard_end
first_boundary (c ∷ cs) window start hard_end =
    let next = first_boundary cs window start hard_end in
    elim (last_index_of window c) [
      | none ↦ next
      | some position ↦
          if ltb (length window / 2) position then start + position + length c else next
    ]

-- findSoftBoundary
unfoldable pub find_soft_boundary : Text → ℕ → ℕ → ℕ
find_soft_boundary text start hard_end =
    if leb (length text) hard_end
    then length text
    else first_boundary candidates (slice text start hard_end) start hard_end

abbrev pub min_of : ℕ → ℕ → ℕ
min_of a b = if leb a b then a else b

abbrev pub max_of : ℕ → ℕ → ℕ
max_of a b = if leb a b then b else a

-- `end` of a round
abbrev pub end_of : Text → ℕ → ℕ → ℕ
end_of text max_chars start =
    find_soft_boundary text start (min_of (start + max_chars) (length text))

abbrev cons_some : ℕ × ℕ → Option (List (ℕ × ℕ)) → Option (List (ℕ × ℕ))
cons_some w none = none
cons_some w (some ws) = some (w ∷ ws)

-- The rounds of chunkText's loop, each by its `start` and `end`.
unfoldable pub windows : ℕ → Text → ℕ → ℕ → ℕ → Option (List (ℕ × ℕ))
windows zero text max_chars overlap start = none
windows (suc fuel) text max_chars overlap start =
    let end = end_of text max_chars start in
    let rest = windows fuel text max_chars overlap (max_of (end - overlap) (start + 1)) in
    if ltb start (length text)
    then (if leb (length text) end then some ((start, end) ∷ []) else cons_some (start, end) rest)
    else some []

-- MemoryChunk
pub record MemoryChunk : Type 0 where
  pub text : Text
  pub index : ℕ
  pub start_offset : ℕ
  pub end_offset : ℕ
  pub hash : ℕ

-- `hash ^= unit` on 32 bits, bit by bit.
abbrev pub xor_bits : ℕ → ℕ → ℕ → ℕ
xor_bits zero a b = 0
xor_bits (suc n) a b = (if eqb (a % 2) (b % 2) then 0 else 1) + 2 * xor_bits n (a / 2) (b / 2)

-- hashString, before its hexadecimal form: FNV-1a, with Math.imul as a product on 32 bits
unfoldable pub hash_units : ℕ → Text → ℕ
hash_units hash [] = hash
hash_units hash (x ∷ xs) = hash_units (xor_bits 32 hash x * 16777619 % 4294967296) xs

unfoldable pub hash_string : Text → ℕ
hash_string input = hash_units 2166136261 input

-- The errors of assertNonEmptyString, assertPositiveInteger and the test of the overlap.
pub data ChunkError : Type 0 where
  text_empty text_has_null max_chars_not_positive overlap_too_large : ChunkError

-- text.includes("\0")
unfoldable pub has_null : Text → Bool
has_null [] = false
has_null (x ∷ xs) = eqb x 0 || has_null xs

-- `chunks.push` in each round with a piece that is not blank.
module _ (trim : Text → Text) where
  unfoldable pub push_chunks : Text → ℕ → List (ℕ × ℕ) → List MemoryChunk
  push_chunks text index [] = []
  push_chunks text index ((start, end) ∷ ws) =
      let chunk = trim (slice text start end) in
      let skipped = push_chunks text index ws in
      let pushed = push_chunks text (index + 1) ws in
      if eqb (length chunk) 0
      then skipped
      else record {
        text = chunk;
        index = index;
        start_offset = start;
        end_offset = end;
        hash = hash_string chunk;
      }
        ∷ pushed

  abbrev pub push_all : Text → Option (List (ℕ × ℕ)) → Option (List MemoryChunk)
  push_all text none = none
  push_all text (some ws) = some (push_chunks text 0 ws)

  -- chunkText; `normalize` makes the line ends "\n"
  unfoldable pub chunk_text :
      (Text → Text) → Text → Option ℕ → Option ℕ → Result ChunkError (Option (List MemoryChunk))
  chunk_text normalize text max_chars overlap_chars =
      let max = get_or max_chars 1200 in
      let overlap = get_or overlap_chars 120 in
      let normalized = trim (normalize text) in
      if eqb (length (trim text)) 0
      then throw text_empty
      else if has_null text
      then throw text_has_null
      else if eqb max 0
      then throw max_chars_not_positive
      else if leb max overlap
      then throw overlap_too_large
      else ok (push_all normalized (windows (length normalized + 1) normalized max overlap 0))
