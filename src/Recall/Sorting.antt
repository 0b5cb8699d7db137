-- ===== src/Recall/Sorting.antt =====
-- The sort of the results: it keeps what holds of the items, and ranks them.
use mathlib.Core.Path.{subst}
use mathlib.Core.List.{Memᴰ}
use tekbreed_oss.Prelude.{
  ℕ, zero, suc, ◌≡◌, refl, sym, ap, Bool, true, false, List, [], ◌∷◌, length, take, All, Bool-cases,
  inl, inr, ◌⊎◌,
}
use tekbreed_oss.Recall.Scoring.{sort_by, insert}

module _ {A : Type 0} (before : A → A → Bool) (P : A → Type 0) where
  pub All-insert : (x : A) (ys : List A) → P x → All P ys → All P (insert before x ys)
  unfolding insert
  All-insert x [] p all = (p, tt)
  All-insert x (y ∷ ys) p all = elim (Bool-cases (before y x)) [
    | inl b ↦ rw (b, insert) (all.0, All-insert x ys p all.1)
    | inr b ↦ rw (b, insert) (p, all)
  ]

  pub All-sort_by : (xs : List A) → All P xs → All P (sort_by before xs)
  unfolding sort_by
  All-sort_by [] all = tt
  All-sort_by (x ∷ xs) all = All-insert x (sort_by before xs) all.0 (All-sort_by xs all.1)

  pub All-take : (n : ℕ) (xs : List A) → All P xs → All P (take n xs)
  All-take zero xs all = tt
  All-take (suc n) [] all = tt
  All-take (suc n) (x ∷ xs) all = (all.0, All-take n xs all.1)

-- A strict order whose ties are transitive, among the items that satisfy P.
pub record IsOrder {A : Type 0} (P : A → Type 0) (lt : A → A → Bool) : Type 0 where
  pub asymmetric : (a b : A) → P a → P b → lt a b ≡ true → lt b a ≡ false
  pub tied : (a b c : A) → P a → P b → P c → lt a b ≡ false → lt b c ≡ false → lt a c ≡ false

All-map₂ :
    {A : Type 0} {P Q R : A → Type 0} (xs : List A)
    → ((a : A) → P a → Q a → R a)
    → All P xs
    → All Q xs
    → All R xs
All-map₂ [] f ps qs = tt
All-map₂ (x ∷ xs) f ps qs = (f x ps.0 qs.0, All-map₂ xs f ps.1 qs.1)

module _ {A : Type 0} (before : A → A → Bool) where
  -- No item is before an earlier one.
  abbrev pub IsRanked : List A → Type 0
  IsRanked [] = Unit {0}
  IsRanked (x ∷ xs) = All (λ y. before y x ≡ false) xs × IsRanked xs

  IsRanked-insert :
      {P : A → Type 0} (x : A) (ys : List A)
      → IsOrder P before
      → P x
      → All P ys
      → IsRanked ys
      → IsRanked (insert before x ys)
  unfolding insert
  IsRanked-insert x [] o p ps r = (tt, tt)
  IsRanked-insert {P} x (y ∷ ys) o p ps r = elim (Bool-cases (before y x)) [
    | inl b ↦
        rw (b, insert)
          (
            All-insert before (λ z. before z y ≡ false) x ys (o.asymmetric y x ps.0 p b) r.0,
            IsRanked-insert x ys o p ps.1 r.1,
          )
    | inr b ↦
        rw (b, insert) ((b, All-map₂ {P = P} ys (λ z k h. o.tied z y x k ps.0 p h b) ps.1 r.0), r)
  ]

  pub IsRanked-sort_by :
      {P : A → Type 0} (xs : List A) → IsOrder P before → All P xs → IsRanked (sort_by before xs)
  unfolding sort_by
  IsRanked-sort_by [] o ps = tt
  IsRanked-sort_by {P} (x ∷ xs) o ps =
      IsRanked-insert x (sort_by before xs) o ps.0 (All-sort_by before P xs ps.1)
        (IsRanked-sort_by xs o ps.1)

  insert-head : (x : A) (ys : List A) → Memᴰ x (insert before x ys)
  unfolding insert
  insert-head x [] = Memᴰ.head refl
  insert-head x (y ∷ ys) = elim (Bool-cases (before y x)) [
    | inl b ↦ rw (b, insert) (Memᴰ.tail (insert-head x ys))
    | inr b ↦ rw (b, insert) (Memᴰ.head refl)
  ]

  insert-tail : (x : A) {z : A} (ys : List A) → Memᴰ z ys → Memᴰ z (insert before x ys)
  unfolding insert
  insert-tail x [] m = elim m [ ]
  insert-tail x (y ∷ ys) (Memᴰ.head e) = elim (Bool-cases (before y x)) [
    | inr b ↦ rw (b, insert) (Memᴰ.tail (Memᴰ.head e))
    | inl b ↦ rw (b, insert) (Memᴰ.head e)
  ]
  insert-tail x (y ∷ ys) (Memᴰ.tail m) = elim (Bool-cases (before y x)) [
    | inr b ↦ rw (b, insert) (Memᴰ.tail (Memᴰ.tail m))
    | inl b ↦ rw (b, insert) (Memᴰ.tail (insert-tail x ys m))
  ]

  pub sort_by-Memᴰ : {z : A} (xs : List A) → Memᴰ z xs → Memᴰ z (sort_by before xs)
  unfolding sort_by
  sort_by-Memᴰ [] m = elim m [ ]
  sort_by-Memᴰ (x ∷ xs) (Memᴰ.head e) =
      subst (λ y. Memᴰ y (insert before x (sort_by before xs))) (sym e)
        (insert-head x (sort_by before xs))
  sort_by-Memᴰ (x ∷ xs) (Memᴰ.tail m) = insert-tail x (sort_by before xs) (sort_by-Memᴰ xs m)

  -- What the first n of a ranked list leave out is before none of them.
  pub take-IsRanked :
      (n : ℕ) (xs : List A) {z : A}
      → IsRanked xs
      → Memᴰ z xs
      → Memᴰ z (take n xs) ⊎ ((length (take n xs) ≡ n) × All (λ y. before z y ≡ false) (take n xs))
  take-IsRanked zero xs r m = inr (refl, tt)
  take-IsRanked (suc n) [] r m = elim m [ ]
  take-IsRanked (suc n) (x ∷ xs) r (Memᴰ.head e) = inl (Memᴰ.head e)
  take-IsRanked (suc n) (x ∷ xs) {z} r (Memᴰ.tail m) = elim (take-IsRanked n xs r.1 m) [
    | inl k ↦ inl (Memᴰ.tail k)
    | inr (len, all) ↦ inr (ap suc len, (at xs r.0 m, all))
  ]
    where
      at : (ys : List A) → All (λ y. before y x ≡ false) ys → Memᴰ z ys → before z x ≡ false
      at [] all m = elim m [ ]
      at (y ∷ ys) all (Memᴰ.head e) = subst (λ w. before w x ≡ false) (sym e) all.0
      at (y ∷ ys) all (Memᴰ.tail k) = at ys all.1 k
