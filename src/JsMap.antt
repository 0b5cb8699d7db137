-- ===== src/JsMap.antt =====
-- JavaScript's Map with text keys: an association list in insertion order. `set` writes a present
-- key in place and appends a new one, as the language does; `delete` takes the key out.
pub mod Bulk
pub mod Totals
pub mod Entries
use tekbreed_oss.Prelude.{
  ℕ, String, ◌≡◌, refl, Bool, false, Option, none, some, List, [], ◌∷◌, map, arith, ◌==◌, eq_iff,
  if◌then◌else◌, is_some, length,
}

abbrev pub JsMap {ℓ} : Type ℓ → Type ℓ
JsMap V = List (String × V)

module _ {ℓ} {V : Type ℓ} where
  unfoldable pub get : JsMap V → String → Option V
  get [] k = none
  get ((j, v) ∷ m) k = if j == k then some v else get m k

  unfoldable pub set : JsMap V → String → V → JsMap V
  set [] k v = (k, v) ∷ []
  set ((j, w) ∷ m) k v = if j == k then (j, v) ∷ m else (j, w) ∷ set m k v

  unfoldable pub delete : JsMap V → String → JsMap V
  delete [] k = []
  delete ((j, w) ∷ m) k = let rest = delete m k in if j == k then rest else (j, w) ∷ rest

  abbrev pub has : JsMap V → String → Bool
  has m k = is_some (get m k)

  abbrev pub size : JsMap V → ℕ
  size m = length m

  abbrev pub values : JsMap V → List V
  values m = map (λ e. e.1) m

  abbrev pub keys : JsMap V → List String
  keys m = map (λ e. e.0) m

  -- No key twice: what the language guarantees, and every operation keeps.
  abbrev pub Distinct : JsMap V → Type 0
  Distinct [] = Unit {0}
  Distinct ((k, v) ∷ m) = (has m k ≡ false) × Distinct m

  pub get-set :
      (m : JsMap V) (k j : String) (v : V)
      → get (set m k v) j ≡ (if k == j then some v else get m j)
  unfolding get set
  get-set [] k j v = refl
  get-set ((i, w) ∷ m) k j v = ground (arith, eq_iff k j, eq_iff i k, eq_iff i j, get-set m k j v)

  pub get-delete :
      (m : JsMap V) (k j : String) → get (delete m k) j ≡ (if k == j then none else get m j)
  unfolding get delete
  get-delete [] k j = ground arith
  get-delete ((i, w) ∷ m) k j = ground (arith, eq_iff k j, eq_iff i k, eq_iff i j, get-delete m k j)

  pub Distinct-set : (m : JsMap V) (k : String) (v : V) → Distinct m → Distinct (set m k v)
  unfolding set get
  Distinct-set [] k v d = (refl, tt)
  Distinct-set ((i, w) ∷ m) k v d =
      ground (arith, get-set m k i v, Distinct-set m k v d.1, eq_iff k i, eq_iff i k)

  pub Distinct-delete : (m : JsMap V) (k : String) → Distinct m → Distinct (delete m k)
  unfolding delete
  Distinct-delete [] k d = tt
  Distinct-delete ((i, w) ∷ m) k d = ground (arith, get-delete m k i, Distinct-delete m k d.1)
