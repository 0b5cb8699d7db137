-- ===== src/Leases/Methods.antt =====
-- What each method of the lease manager does, in terms of who holds the store.
use tekbreed_oss.Prelude.{
  ℕ, suc, ◌+◌, ◌≤◌, String, ◌≡◌, ◌≢◌, ◌⊎◌, refl, inl, inr, Option-cases, true, false, Option, none,
  some, arith, ◌==◌, eq_iff, eq_refl, leb, if◌then◌else◌,
}
use tekbreed_oss.Prelude.Number.{pos}
use tekbreed_oss.Prelude.Result.{ok}
use tekbreed_oss.JsMap
use tekbreed_oss.JsMap.{get-set, get-delete}
use tekbreed_oss.Leases.{
  Leases, MemoryLeaseRecord, is_blank, assert_lease_input, lease, drop_expired, acquire, extend,
  cannot_release, release, get_lease, holder,
}

-- `s` differs from `leases` at `store` alone, where `now` on the holder is as `who` says.
abbrev pub Grants : Leases → Leases → String → (ℕ → Option String) → Type 0
Grants leases s store who =
    ((t : ℕ) → holder s store t ≡ who t)
    × ((other : String) (t : ℕ) → other ≢ store → holder s other t ≡ holder leases other t)

-- The owner holds the lease up to the deadline, and nobody after it.
abbrev pub until : String → ℕ → ℕ → Option String
until owner deadline t = if leb deadline t then none else some owner

-- The holder after `owner` gives up its lease.
abbrev pub without : Option String → String → Option String
without none owner = none
without (some o) owner = if o == owner then none else some o

abbrev pub owner_of : Option MemoryLeaseRecord → Option String
owner_of none = none
owner_of (some e) = some e.owner_id

-- A record that still runs.
abbrev running : Option MemoryLeaseRecord → ℕ → Option MemoryLeaseRecord
running none now = none
running (some e) now = if leb e.expires_at now then none else some e

module _ (trim : String → String) (leases : Leases) (store owner : String) where
  get-drop_expired :
      (now : ℕ)
      → JsMap.get (drop_expired trim leases store now) store ≡ running (JsMap.get leases store) now
  unfolding drop_expired
  get-drop_expired now = ground (arith, get-delete leases store store, eq_iff store store)

  get-drop_expired_ne :
      (other : String) (now : ℕ)
      → other ≢ store
      → JsMap.get (drop_expired trim leases store now) other ≡ JsMap.get leases other
  unfolding drop_expired
  get-drop_expired_ne other now ne =
      ground (arith, get-delete leases store other, eq_iff store other)

  -- The state after a grant.
  abbrev granted : ℕ → ℕ → Leases
  granted ttl now =
      JsMap.set (drop_expired trim leases store now) store (lease trim store owner (pos ttl) now)

  Grants-set :
      (s : Leases) (ttl now : ℕ)
      → ((other : String) → other ≢ store → JsMap.get s other ≡ JsMap.get leases other)
      → Grants leases
          (JsMap.set s store (lease trim store owner (pos ttl) now))
          store
          (until owner (now + ttl))
  unfolding holder
  Grants-set s ttl now same = (
    λ t.
        ground (arith, get-set s store store (lease trim store owner (pos ttl) now), eq_refl store),
    λ other t ne. ground (
      arith,
      get-set s store other (lease trim store owner (pos ttl) now),
      eq_iff store other,
      same other ne,
    ),
  )

  module _ (store_ok : is_blank trim store ≡ false) (owner_ok : is_blank trim owner ≡ false) where
    passes : (n : ℕ) → assert_lease_input trim store owner (some (pos (suc n))) ≡ ok tt
    unfolding assert_lease_input
    passes n = ground arith

    module _ (n now : ℕ) where
      -- With non-blank ids and a positive ttl, `acquire` by `owner` on a store that nobody or
      -- `owner` itself holds now returns true; from then on `owner` holds the store at exactly
      -- the times before now + ttl, and the holders of other stores are unchanged.
      pub acquire_free :
          (holder leases store now ≡ none) ⊎ (holder leases store now ≡ some owner)
          → (s : Leases) × (acquire trim leases store owner (pos (suc n)) now ≡ ok (true, s))
            × Grants leases s store (until owner (now + suc n))
      unfolding acquire holder
      acquire_free h = (
        granted (suc n) now,
        ground (arith, passes n, get-drop_expired now, eq_iff owner owner),
        Grants-set (drop_expired trim leases store now) (suc n) now
            (λ other ne. get-drop_expired_ne other now ne),
      )

      -- With non-blank ids and a positive ttl, `acquire` on a store that another owner holds now
      -- returns false and leaves the state as it was.
      pub acquire_held :
          (o : String)
          → holder leases store now ≡ some o
          → o ≢ owner
          → acquire trim leases store owner (pos (suc n)) now ≡ ok (false, leases)
      unfolding acquire holder drop_expired
      acquire_held o h ne = ground (arith, passes n, eq_iff o owner)

      -- With non-blank ids and a positive ttl: if `owner` holds the store now, `extend` returns
      -- true and `owner` then holds it at exactly the times before now + ttl, other stores'
      -- holders unchanged; if not, it returns false and leaves the state as it was.
      pub extend_lem :
          (holder leases store now ≡ some owner
            → (s : Leases) × (extend trim leases store owner (pos (suc n)) now ≡ ok (true, s))
              × Grants leases s store (until owner (now + suc n)))
          × (holder leases store now ≢ some owner
              → extend trim leases store owner (pos (suc n)) now ≡ ok (false, leases))
      unfolding extend holder
      extend_lem = (
        λ h. (
          JsMap.set leases store (lease trim store owner (pos (suc n)) now),
          ground (arith, passes n, eq_iff owner owner),
          Grants-set leases (suc n) now (λ other ne. refl),
        ),
        λ h. elim (Option-cases (JsMap.get leases store)) [
          | inl e ↦ ground (arith, passes n)
          | inr (r, e) ↦ ground (arith, passes n, eq_iff r.owner_id owner)
        ],
      )

    release_passes : assert_lease_input trim store owner none ≡ ok tt
    unfolding assert_lease_input
    release_passes = ground arith

    -- The state after a release.
    abbrev freed : Leases
    freed =
        if cannot_release trim (JsMap.get leases store) owner
        then leases
        else JsMap.delete leases store

    -- With non-blank ids, `release` by `owner` returns, and at every time the store's holder is
    -- as before, except that it is nobody where it was `owner`; other stores' holders are
    -- unchanged.
    pub release_lem :
        (s : Leases) × (release trim leases store owner ≡ ok s)
        × Grants leases s store (λ t. without (holder leases store t) owner)
    unfolding release holder
    release_lem = (
      freed,
      ground (arith, release_passes),
      (
        λ t. ground (arith, get-delete leases store store, eq_refl store),
        λ other t ne. ground (arith, get-delete leases store other, eq_iff store other),
      ),
    )

module _ (trim : String → String) (leases : Leases) (store : String) where
  -- The state after a read.
  abbrev swept : ℕ → Leases
  swept now = elim (JsMap.get leases store) [
    | none ↦ JsMap.delete leases store
    | some e ↦ if leb e.expires_at now then JsMap.delete leases store else leases
  ]

  -- With a non-blank store id, `getLease` returns a record whose owner is the store's holder now,
  -- or none if there is no holder, and no holder of any store at any time from now on changes.
  pub get_lease_lem :
      is_blank trim store ≡ false
      → (now : ℕ)
      → (o : Option MemoryLeaseRecord) × (s : Leases) × (get_lease trim leases store now
          ≡ ok (o, s))
        × (owner_of o ≡ holder leases store now)
        × ((other : String) (t : ℕ) → now ≤ t → holder s other t ≡ holder leases other t)
  unfolding get_lease holder
  get_lease_lem ok_store now = (
    running (JsMap.get leases store) now,
    swept now,
    ground arith,
    ground arith,
    λ other t le. ground (arith, get-delete leases store other, eq_iff store other),
  )
