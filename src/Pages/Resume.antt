-- ===== src/Pages/Resume.antt =====
-- The page after a page of pagination.ts.
use tekbreed_oss.Prelude.{
  ℕ, zero, suc, ◌+◌, ◌-◌, ◌≤◌, String, ◌≡◌, refl, ap, sym, ◌∙◌, Option, none, some, List, [], ◌∷◌,
  ◌++◌, arith, ltb, leb, if◌then◌else◌, length, take, drop, Bool-cases, inl, inr,
}
use tekbreed_oss.Prelude.Json.{Json}
use tekbreed_oss.Prelude.Result.{Result, ok}
use tekbreed_oss.Pages.{
  PageError, PaginationOptions, Page, normalize_limit, encode_cursor, decode_cursor, paginate_array,
  page_at,
}

suc_add : (n m : ℕ) → suc n + m ≡ suc (n + m)
suc_add n m = omega arith

zero_add : (m : ℕ) → 0 + m ≡ m
zero_add m = omega arith

-- The smaller of two numbers.
abbrev pub at_most : ℕ → ℕ → ℕ
at_most a b = if leb a b then a else b

module _ {ℓ} {A : Type ℓ} where
  drop-nil : (m : ℕ) → drop {A = A} m [] ≡ []
  drop-nil zero = refl
  drop-nil (suc m) = refl

  drop-add : (n m : ℕ) (xs : List A) → drop (n + m) xs ≡ drop m (drop n xs)
  drop-add zero m xs = ap (λ i. drop i xs) (zero_add m)
  drop-add (suc n) m [] = ap (λ i. drop {A = A} i []) (suc_add n m) ∙ sym (drop-nil m)
  drop-add (suc n) m (x ∷ xs) = ap (λ i. drop i (x ∷ xs)) (suc_add n m) ∙ drop-add n m xs

  -- A piece and what follows it.
  take-drop : (k : ℕ) (xs : List A) → xs ≡ take k xs ++ drop (length (take k xs)) xs
  take-drop zero xs = refl
  take-drop (suc k) [] = refl
  take-drop (suc k) (x ∷ xs) = ap (◌∷◌ x) (take-drop k xs)

  length-take : (k : ℕ) (xs : List A) → length (take k xs) ≡ at_most k (length xs)
  length-take zero xs = ground arith
  length-take (suc k) [] = ground arith
  length-take (suc k) (x ∷ xs) = ground (arith, length-take k xs)

  length-drop : (n : ℕ) (xs : List A) → length (drop n xs) ≡ length xs - n
  length-drop zero xs = omega arith
  length-drop (suc n) [] = omega arith
  length-drop (suc n) (x ∷ xs) = omega (arith, length-drop n xs)

  drop_all : (n : ℕ) (xs : List A) → length xs ≤ n → drop n xs ≡ []
  drop_all zero [] h = refl
  drop_all zero (x ∷ xs) h = absurd (omega arith)
  drop_all (suc n) [] h = refl
  drop_all (suc n) (x ∷ xs) h = drop_all n xs (omega arith)

  -- What is left at an offset, and nothing where the list is over.
  rest_of : (n : ℕ) (xs : List A) → (if ltb n (length xs) then drop n xs else []) ≡ drop n xs
  rest_of n xs = elim (Bool-cases (ltb n (length xs))) [
    | inl e ↦ rw e refl
    | inr e ↦ rw e (sym (drop_all n xs (ground arith)))
  ]

module _ (parse : String → Option Json) (stringify : Json → String) (btoa : String → String)
    (atob : String → Option String) (to_binary from_binary : String → String)
    (replace_all : String → String → String → String) (pad_end : String → ℕ → String → String)
    (units : String → ℕ) where
  abbrev decode : Option String → String → Result PageError ℕ
  decode = decode_cursor parse stringify btoa atob to_binary from_binary replace_all pad_end units

  abbrev encode : ℕ → String → String
  encode = encode_cursor parse stringify btoa atob to_binary from_binary replace_all pad_end units

  abbrev paginate : {A : Type 0} → List A → PaginationOptions → String → Result PageError (Page A)
  paginate =
      paginate_array parse stringify btoa atob to_binary from_binary replace_all pad_end units

  -- Where the limit is accepted and the cursor decodes to an offset, paginateArray returns a page
  -- of as many items as the limit allows and the list has from there; there is a next cursor
  -- exactly if the list goes on after the page, it is the encoded offset after the page, and the
  -- page followed by the items from that offset on are the items from the offset on.
  pub paginate_array_resumes :
      {A : Type 0} (items : List A) (options : PaginationOptions) (namespace : String)
      (limit offset : ℕ)
      → normalize_limit options.limit options.default_limit options.max_limit ≡ ok limit
      → decode options.cursor namespace ≡ ok offset
      → (page : Page A) × (next : ℕ) × (paginate items options namespace ≡ ok page)
        × (next ≡ offset + length page.items)
        × (length page.items ≡ at_most limit (length items - offset))
        × (page.next_cursor
            ≡ (if ltb next (length items) then some (encode next namespace) else none))
        × (page.items ++ (if ltb next (length items) then drop next items else [])
            ≡ drop offset items)
  unfolding paginate_array page_at
  paginate_array_resumes items options namespace limit offset l o =
      let page_items = take limit (drop offset items) in
      let next = offset + length page_items in
      (
        record {
          items = page_items;
          next_cursor = if ltb next (length items) then some (encode next namespace) else none;
        },
        next,
        rw (l, o) refl,
        refl,
        length-take limit (drop offset items) ∙ ap (at_most limit) (length-drop offset items),
        refl,
        ap (◌++◌ page_items) (rest_of next items ∙ drop-add offset (length page_items) items)
            ∙ sym (take-drop limit (drop offset items)),
      )
