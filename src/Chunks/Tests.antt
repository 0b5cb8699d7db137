-- ===== src/Chunks/Tests.antt =====
-- A small text cut by chunk-text.ts.
use tekbreed_oss.Prelude.{ℕ, ◌≡◌, false, refl, some, List, [], ◌∷◌, arith}
use tekbreed_oss.Prelude.Result.{ok}
use tekbreed_oss.Chunks.{
  Text, chunk_text, push_chunks, has_null, windows, hash_string, hash_units, find_soft_boundary,
  first_boundary, last_index_of, starts_with,
}
use tekbreed_oss.Chunks.Cover.{Cover, chunk_text_covers}

abbrev same : Text → Text
same text = text

-- "ab. cdefg"
abbrev sample : Text
sample = 97 ∷ 98 ∷ 46 ∷ 32 ∷ 99 ∷ 100 ∷ 101 ∷ 102 ∷ 103 ∷ []

no_null : has_null sample ≡ false
unfolding has_null
no_null = refl

chunk_text_covers_example :
    (ws : List (ℕ × ℕ)) × (chunk_text same same sample (some 5) (some 1)
      ≡ ok (some (push_chunks same sample 0 ws)))
    × Cover 0 9 5 ws
chunk_text_covers_example =
    chunk_text_covers same same sample 5 1 (omega arith) no_null (omega arith)

-- The boundary after ". " is taken, and the next window starts one unit before it.
sample_pieces : windows 10 sample 5 1 0 ≡ some ((0, 4) ∷ (3, 8) ∷ (7, 9) ∷ [])
unfolding windows find_soft_boundary first_boundary last_index_of starts_with
sample_pieces = refl

-- FNV-1a of "a"
hash_of_a : hash_string (97 ∷ []) ≡ 3826002220
unfolding hash_string hash_units
hash_of_a = refl
