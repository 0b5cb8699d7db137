-- ===== src/JsMap/Bulk.antt =====
-- Writing many entries to a map in a loop, and changing every value of a map.
use tekbreed_oss.Prelude.{
  String, ◌≡◌, refl, sym, ◌∙◌, ap, Bool, false, Option, none, some, List, [], ◌∷◌, ◌++◌, arith,
  ◌==◌, eq_iff, eq_refl, if◌then◌else◌, is_some, ◌&&◌, includes, filter, inl, inr, Bool-cases,
}
use tekbreed_oss.JsMap.{
  JsMap, get, set, has, keys, delete, Distinct, get-set, get-delete, Distinct-set,
}
use mathlib.Core.List.{append-nil, append_assoc}

module _ {ℓ} {V : Type ℓ} where
  -- `for (const [k, v] of entries) m.set(k, v)`
  unfoldable pub set_all : JsMap V → List (String × V) → JsMap V
  set_all m [] = m
  set_all m ((k, v) ∷ l) = set_all (set m k v) l

  -- The value that the last entry for the key brings.
  unfoldable pub last_of : List (String × V) → String → Option V
  last_of [] k = none
  last_of ((j, v) ∷ l) k = elim (last_of l k) [
    | none ↦ if j == k then some v else none
    | some w ↦ some w
  ]

  abbrev pub or_else : Option V → Option V → Option V
  or_else none o = o
  or_else (some v) o = some v

  -- The last entry written for a key wins; other keys keep their value.
  pub get-set_all :
      (m : JsMap V) (l : List (String × V)) (k : String)
      → get (set_all m l) k ≡ or_else (last_of l k) (get m k)
  unfolding set_all last_of
  get-set_all m [] k = refl
  get-set_all m ((j, v) ∷ l) k = ground (arith, get-set_all (set m j v) l k, get-set m j k v)

  pub Distinct-set_all : (m : JsMap V) (l : List (String × V)) → Distinct m → Distinct (set_all m l)
  unfolding set_all
  Distinct-set_all m [] d = d
  Distinct-set_all m ((k, v) ∷ l) d = Distinct-set_all (set m k v) l (Distinct-set m k v d)

  -- A new key goes to the end.
  pub set_new : (m : JsMap V) (k : String) (v : V) → has m k ≡ false → set m k v ≡ m ++ (k, v) ∷ []
  unfolding get set
  set_new [] k v h = refl
  set_new ((j, w) ∷ m) k v h = ground (arith, set_new m k v)

  -- No key of the second is in the first.
  abbrev Apart : JsMap V → JsMap V → Type 0
  Apart m [] = Unit {0}
  Apart m ((k, v) ∷ l) = (has m k ≡ false) × Apart m l

  get-append : (m l : JsMap V) (k : String) → get (m ++ l) k ≡ or_else (get m k) (get l k)
  unfolding get
  get-append [] l k = refl
  get-append ((j, w) ∷ m) l k = ground (arith, get-append m l k)

  Apart-append :
      (m : JsMap V) (k : String) (v : V) (l : JsMap V)
      → has l k ≡ false
      → Apart m l
      → Apart (m ++ (k, v) ∷ []) l
  unfolding get
  Apart-append m k v [] h a = tt
  Apart-append m k v ((j, w) ∷ l) h a = (
    ground (arith, get-append m ((k, v) ∷ []) j, eq_iff k j, eq_iff j k),
    Apart-append m k v l (ground arith) a.1,
  )

  set_all-Apart : (m l : JsMap V) → Apart m l → Distinct l → set_all m l ≡ m ++ l
  unfolding set_all
  set_all-Apart m [] a d = sym (append-nil m)
  set_all-Apart m ((k, v) ∷ l) a d = rw (set_new m k v a.0) (
      set_all-Apart (m ++ (k, v) ∷ []) l (Apart-append m k v l d.0 a.1) d.1
      ∙ append_assoc m ((k, v) ∷ []) l)

  Apart-nil : (l : JsMap V) → Apart [] l
  unfolding get
  Apart-nil [] = tt
  Apart-nil ((k, v) ∷ l) = (refl, Apart-nil l)

  -- A map written out anew from its own entries is the same map.
  pub set_all_nil : (m : JsMap V) → Distinct m → set_all [] m ≡ m
  set_all_nil m d = set_all-Apart [] m (Apart-nil m) d

module _ {ℓ κ} {V : Type ℓ} {W : Type κ} (f : V → W) where
  unfoldable pub map_values : List (String × V) → List (String × W)
  map_values [] = []
  map_values ((k, v) ∷ m) = (k, f v) ∷ map_values m

  abbrev pub map_option : Option V → Option W
  map_option none = none
  map_option (some v) = some (f v)

  pub get-map_values : (m : JsMap V) (k : String) → get (map_values m) k ≡ map_option (get m k)
  unfolding get map_values
  get-map_values [] k = refl
  get-map_values ((j, v) ∷ m) k = elim (Bool-cases (j == k)) [
    | inl e ↦ rw e refl
    | inr e ↦ rw e (get-map_values m k)
  ]

  pub Distinct-map_values : (m : JsMap V) → Distinct m → Distinct (map_values m)
  unfolding map_values
  Distinct-map_values [] d = tt
  Distinct-map_values ((k, v) ∷ m) d = (has-map_values, Distinct-map_values m d.1)
    where
      option : (o : Option V) → is_some o ≡ false → is_some (map_option o) ≡ false
      option none h = refl
      option (some v) h = h

      has-map_values : has (map_values m) k ≡ false
      has-map_values = rw (get-map_values m k) (option (get m k) d.0)

  pub map_values-set :
      (m : JsMap V) (k : String) (v : V) → map_values (set m k v) ≡ set (map_values m) k (f v)
  unfolding set map_values
  map_values-set [] k v = refl
  map_values-set ((j, w) ∷ m) k v = elim (Bool-cases (j == k)) [
    | inl e ↦ rw e refl
    | inr e ↦ rw e (ap (◌∷◌ (j, f w)) (map_values-set m k v))
  ]

  pub map_values-delete :
      (m : JsMap V) (k : String) → map_values (delete m k) ≡ delete (map_values m) k
  unfolding delete map_values
  map_values-delete [] k = refl
  map_values-delete ((j, w) ∷ m) k = elim (Bool-cases (j == k)) [
    | inl e ↦ rw e (map_values-delete m k)
    | inr e ↦ rw e (ap (◌∷◌ (j, f w)) (map_values-delete m k))
  ]

  pub map_values-set_all :
      (m : JsMap V) (l : List (String × V))
      → map_values (set_all m l) ≡ set_all (map_values m) (map_values l)
  unfolding set_all map_values
  map_values-set_all m [] = refl
  map_values-set_all m ((k, v) ∷ l) =
      map_values-set_all (set m k v) l ∙ ap (λ n. set_all n (map_values l)) (map_values-set m k v)

module _ {ℓ} {V : Type ℓ} where
  -- `for (const k of ks) m.delete(k)`
  unfoldable pub delete_all : JsMap V → List String → JsMap V
  delete_all m [] = m
  delete_all m (k ∷ ks) = delete_all (delete m k) ks

  pub get-delete_all :
      (m : JsMap V) (ks : List String) (k : String)
      → get (delete_all m ks) k ≡ (if includes ks k then none else get m k)
  unfolding delete_all includes
  get-delete_all m [] k = refl
  get-delete_all m (j ∷ ks) k = ground (arith, get-delete_all (delete m j) ks k, get-delete m j k)

  pub includes-filter-keys :
      (p : String → Bool) (m : JsMap V) (k : String)
      → includes (filter p (keys m)) k ≡ (p k && has m k)
  unfolding includes get
  includes-filter-keys p [] k = ground arith
  includes-filter-keys p ((j, v) ∷ m) k = elim (Bool-cases (j == k)) [
    | inl e ↦ rw ((eq_iff j k).0 e) (ground (arith, includes-filter-keys p m k, eq_refl k))
    | inr e ↦ ground (arith, includes-filter-keys p m k)
  ]

pub includes-keys {ℓ} : {V : Type ℓ} (m : JsMap V) (k : String) → includes (keys m) k ≡ has m k
unfolding get includes
includes-keys [] k = refl
includes-keys ((j, v) ∷ m) k = ground (arith, includes-keys m k)
