-- ===== src/Chunks/Search.antt =====
-- findSoftBoundary of chunk-text.ts stays in its window.
use tekbreed_oss.Prelude.{
  ℕ, zero, suc, ◌+◌, ◌-◌, ◌≤◌, ◌<◌, ◌≡◌, true, Option, none, some, List, [], ◌∷◌, arith, length,
  take, drop,
}
use tekbreed_oss.Chunks.{
  Text, starts_with, last_index_of, slice, candidates, first_boundary, find_soft_boundary,
}

starts_with-length : (xs c : Text) → starts_with xs c ≡ true → length c ≤ length xs
unfolding starts_with
starts_with-length xs [] h = omega arith
starts_with-length [] (c ∷ cs) h = cc
starts_with-length (x ∷ xs) (c ∷ cs) h = ground (arith, starts_with-length xs cs)

-- Where a match ends, and 0 where there is none.
abbrev match_end : Text → Option ℕ → ℕ
match_end c none = 0
match_end c (some p) = p + length c

match_end-last_index_of : (xs c : Text) → match_end c (last_index_of xs c) ≤ length xs
unfolding last_index_of
match_end-last_index_of [] c = ground (arith, starts_with-length [] c)
match_end-last_index_of (x ∷ xs) c =
    ground (arith, starts_with-length (x ∷ xs) c, match_end-last_index_of xs c)

length-take : (n : ℕ) (xs : Text) → length (take n xs) ≤ n
length-take zero xs = omega arith
length-take (suc n) [] = omega arith
length-take (suc n) (x ∷ xs) = omega (arith, length-take n xs)

first_boundary_within :
    (cs : List Text) (window : Text) (start hard_end : ℕ)
    → start < hard_end
    → start + length window ≤ hard_end
    → (start < first_boundary cs window start hard_end)
      × (first_boundary cs window start hard_end ≤ hard_end)
unfolding first_boundary
first_boundary_within [] window start hard_end h g = (h, omega arith)
first_boundary_within (c ∷ cs) window start hard_end h g =
    ground
      (arith, match_end-last_index_of window c, first_boundary_within cs window start hard_end h g)

-- The boundary is after the start, and not after the hard end or the end of the text.
pub find_soft_boundary_within :
    (text : Text) (start hard_end : ℕ)
    → start < hard_end
    → hard_end ≤ length text
    → (start < find_soft_boundary text start hard_end)
      × (find_soft_boundary text start hard_end ≤ hard_end)
unfolding find_soft_boundary
find_soft_boundary_within text start hard_end h g = ground (
  arith,
  first_boundary_within candidates (slice text start hard_end) start hard_end h
      (omega (arith, length-take (hard_end - start) (drop start text))),
)
