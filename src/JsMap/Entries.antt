-- ===== src/JsMap/Entries.antt =====
-- A predicate on the entries of a map, through its writes.
use mathlib.Core.Path.{subst}
use tekbreed_oss.Prelude.{
  String, ◌≡◌, sym, true, false, some, [], ◌∷◌, arith, ◌==◌, eq_iff, if◌then◌else◌, inl, inr,
  Bool-cases,
}
use tekbreed_oss.JsMap
use tekbreed_oss.JsMap.{JsMap, get, set}

module _ {ℓ} {V : Type ℓ} (P : String → V → Type 0) where
  abbrev pub Entries : JsMap V → Type 0
  Entries [] = Unit {0}
  Entries ((k, v) ∷ m) = P k v × Entries m

  pub Entries-set : (m : JsMap V) (k : String) (v : V) → Entries m → P k v → Entries (set m k v)
  unfolding set
  Entries-set [] k v all p = (p, tt)
  Entries-set ((j, w) ∷ m) k v all p = elim (Bool-cases (j == k)) [
    | inl e ↦ rw e (subst (λ i. P i v) (sym ((eq_iff j k).0 e)) p, all.1)
    | inr e ↦ rw e (all.0, Entries-set m k v all.1 p)
  ]

  pub Entries-delete : (m : JsMap V) (k : String) → Entries m → Entries (JsMap.delete m k)
  unfolding JsMap.delete
  Entries-delete [] k all = tt
  Entries-delete ((j, w) ∷ m) k all = elim (Bool-cases (j == k)) [
    | inl e ↦ rw e (Entries-delete m k all.1)
    | inr e ↦ rw e (all.0, Entries-delete m k all.1)
  ]

  pub Entries-get : (m : JsMap V) (k : String) {v : V} → Entries m → get m k ≡ some v → P k v
  unfolding get
  Entries-get [] k all h = cc
  Entries-get ((j, w) ∷ m) k {v} all h = elim (Bool-cases (j == k)) [
    | inl e ↦ subst (λ i. P i v) ((eq_iff j k).0 e) (subst (P j) (first e h) all.0)
    | inr e ↦ Entries-get m k all.1 (rest e h)
  ]
    where
      first : (j == k) ≡ true → (if j == k then some w else get m k) ≡ some v → w ≡ v
      first e h = ground arith

      rest : (j == k) ≡ false → (if j == k then some w else get m k) ≡ some v → get m k ≡ some v
      rest e h = ground arith
