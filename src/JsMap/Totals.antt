-- ===== src/JsMap/Totals.antt =====
-- Sums over the values of a map, and what one write does to them.
use tekbreed_oss.Prelude.{
  ℕ, ◌+◌, ◌≤◌, String, ◌≡◌, refl, eq_iff, eq_refl, Option, none, some, List, [], ◌∷◌, arith, false,
  ◌==◌,
}
use tekbreed_oss.JsMap.{JsMap, get, set, delete, Distinct, has, get-set, get-delete}
use tekbreed_oss.JsMap.Bulk.{set_all}

module _ {ℓ} {V : Type ℓ} (f : V → ℕ) where
  unfoldable pub total : JsMap V → ℕ
  total [] = 0
  total ((k, v) ∷ m) = f v + total m

  -- What the entry under a key adds to the sum.
  abbrev pub share : Option V → ℕ
  share none = 0
  share (some v) = f v

  pub total-set :
      (m : JsMap V) (k : String) (v : V) → total (set m k v) + share (get m k) ≡ total m + f v
  unfolding total set get
  total-set [] k v = omega arith
  total-set ((j, w) ∷ m) k v = ground (arith, total-set m k v)

  pub share-le-total : (m : JsMap V) (k : String) → share (get m k) ≤ total m
  unfolding total get
  share-le-total [] k = omega arith
  share-le-total ((j, w) ∷ m) k = ground (arith, share-le-total m k)

  pub delete_absent : (m : JsMap V) (k : String) → has m k ≡ false → delete m k ≡ m
  unfolding delete get
  delete_absent [] k h = refl
  delete_absent ((j, w) ∷ m) k h = ground (arith, delete_absent m k)

  pub total-delete :
      (m : JsMap V) (k : String) → Distinct m → total (delete m k) + share (get m k) ≡ total m
  unfolding total delete get
  total-delete [] k d = omega arith
  total-delete ((j, w) ∷ m) k d =
      ground (arith, total-delete m k d.1, eq_iff j k, delete_absent m k)

  -- Two maps that differ at one key alone, where the second has the more.
  pub record IsLess (k : String) (a b : JsMap V) : Type ℓ where
    pub agree : (j : String) → (k == j) ≡ false → get a j ≡ get b j
    pub balance : total a + share (get b k) ≡ total b + share (get a k)
    pub le : share (get a k) ≤ share (get b k)

  IsLess-set :
      (k : String) (a b : JsMap V) (j : String) (v : V)
      → IsLess k a b
      → IsLess k (set a j v) (set b j v)
  IsLess-set k a b j v h = record {
    agree = λ i e. rw (get-set a j i v, get-set b j i v) (ground (arith, h.agree i e));
    balance = ground (
      arith,
      h.balance,
      h.agree j,
      total-set a j v,
      total-set b j v,
      get-set a j k v,
      get-set b j k v,
      eq_iff j k,
      eq_iff k j,
    );
    le = ground (arith, h.le, get-set a j k v, get-set b j k v);
  }

  -- The same writes keep the order of the sums.
  pub total-set_all-le :
      (k : String) (a b : JsMap V) (l : List (String × V))
      → IsLess k a b
      → total (set_all a l) ≤ total (set_all b l)
  unfolding set_all
  total-set_all-le k a b [] h = omega (arith, h.balance, h.le)
  total-set_all-le k a b ((j, v) ∷ l) h =
      total-set_all-le k (set a j v) (set b j v) l (IsLess-set k a b j v h)

  pub IsLess-delete : (m : JsMap V) (k : String) → Distinct m → IsLess k (delete m k) m
  IsLess-delete m k d = record {
    agree = λ j e. rw (get-delete m k j, e) refl;
    balance = ground (arith, total-delete m k d, get-delete m k k, eq_refl k);
    le = ground (arith, get-delete m k k, eq_refl k);
  }
