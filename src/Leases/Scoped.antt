-- ===== src/Leases/Scoped.antt =====
-- packages/tekmemo/src/agentfs/leases/with-memory-lease.ts: an operation that runs while a lease is
-- held. The operation is a function of the lease map, which it may change through the manager.
use tekbreed_oss.Prelude.{
  ℕ, suc, ◌+◌, arith, inl, inr, Option-cases, Bool-cases, ◌==◌, eq_iff, String, ◌≡◌, ◌≢◌, ◌⊎◌, true,
  false, none, some, refl,
}
use tekbreed_oss.Prelude.Number.{JsNumber, pos}
use tekbreed_oss.Prelude.Result.{Result, ok, throw}
use tekbreed_oss.Leases.{Leases, LeaseError, is_blank, acquire, release, holder}
use tekbreed_oss.Leases.Methods.{Grants, until, without, acquire_free, acquire_held, release_lem}

pub data ScopeError (E : Type 0) : Type 0 where
  manager : LeaseError → ScopeError E
  could_not_acquire : ScopeError E
  thrown : E → ScopeError E

-- What the operation comes to, once it has run.
abbrev outcome : {E T : Type 0} → Result E T → Result (ScopeError E) T
outcome (ok value) = ok value
outcome (throw e) = throw (thrown e)

-- the `finally` block: an error of the release takes the place of the outcome
abbrev finally_release :
    {E T : Type 0}
    → (String → String)
    → String
    → String
    → Result E T × Leases
    → Result (ScopeError E) T × Leases
finally_release trim store owner (r, s) = elim (release trim s store owner) [
  | throw e ↦ (throw (manager e), s)
  | ok s' ↦ (outcome r, s')
]

unfoldable pub with_memory_lease :
    {E T : Type 0}
    → (String → String)
    → Leases
    → String
    → String
    → JsNumber
    → ℕ
    → (Leases → Result E T × Leases)
    → Result (ScopeError E) T × Leases
with_memory_lease trim leases store owner ttl now operation =
    elim (acquire trim leases store owner ttl now) [
      | throw e ↦ (throw (manager e), leases)
      | ok (false, s) ↦ (throw could_not_acquire, s)
      | ok (true, s) ↦ finally_release trim store owner (operation s)
    ]

-- Nobody holds the store, or the owner itself.
abbrev pub Free : Leases → String → String → ℕ → Type 0
Free leases store owner now =
    (holder leases store now ≡ none) ⊎ (holder leases store now ≡ some owner)

module _ {E T : Type 0} (trim : String → String) (leases : Leases) (store owner : String) where
  -- The operation runs on a state in which the owner holds the store for the ttl. Its outcome is
  -- the outcome, and afterwards the owner does not hold the store.
  abbrev pub Runs : ℕ → ℕ → (Leases → Result E T × Leases) → Type 0
  Runs ttl now operation =
      (during after : Leases) × Grants leases during store (until owner (now + ttl))
      × Grants (operation during).1 after store
          (λ t. without (holder (operation during).1 store t) owner)
      × (with_memory_lease trim leases store owner (pos ttl) now operation
          ≡ (outcome (operation during).0, after))

  -- Another owner holds the store: the operation does not run, and the map stays.
  abbrev pub Refuses : ℕ → ℕ → (Leases → Result E T × Leases) → Type 0
  Refuses ttl now operation =
      (o : String) × (holder leases store now ≡ some o)
      × (o ≢ owner)
      × (with_memory_lease trim leases store owner (pos ttl) now operation
          ≡ (throw could_not_acquire, leases))

  with_memory_lease-acquire :
      (ttl : JsNumber) (now : ℕ) (operation : Leases → Result E T × Leases) (during after : Leases)
      → acquire trim leases store owner ttl now ≡ ok (true, during)
      → release trim (operation during).1 store owner ≡ ok after
      → with_memory_lease trim leases store owner ttl now operation
        ≡ (outcome (operation during).0, after)
  unfolding with_memory_lease
  with_memory_lease-acquire ttl now operation during after a r =
      rw (a, with_memory_lease) (rw (r, finally_release) refl)

  module _ (store_ok : is_blank trim store ≡ false) (owner_ok : is_blank trim owner ≡ false)
      (n now : ℕ) (operation : Leases → Result E T × Leases) where
    runs : Free leases store owner now → Runs (suc n) now operation
    runs free =
        let (during, acquired, grants) =
          acquire_free trim leases store owner store_ok owner_ok n now free in
        let (after, released, gone) =
          release_lem trim (operation during).1 store owner store_ok owner_ok in
        (
          during,
          after,
          grants,
          gone,
          with_memory_lease-acquire (pos (suc n)) now operation during after acquired released,
        )

    refuses :
        (o : String) → holder leases store now ≡ some o → o ≢ owner → Refuses (suc n) now operation
    unfolding with_memory_lease
    refuses o held other = (
      o,
      held,
      other,
      rw
          (
            acquire_held trim leases store owner store_ok owner_ok n now o held other,
            with_memory_lease,
          )
          refl,
    )

    -- With non-blank ids and a positive ttl, one of two things happens. Nobody or the owner
    -- itself holds the store, the operation runs on a state in which the owner holds it for the
    -- ttl, its outcome is the outcome of withMemoryLease, and afterwards the holder is as the
    -- operation left it, except nobody where that was the owner, other stores' holders unchanged.
    -- Or another owner holds the store, the error is thrown, and the state stays as it was.
    pub with_memory_lease_lem :
        (Free leases store owner now × Runs (suc n) now operation) ⊎ Refuses (suc n) now operation
    with_memory_lease_lem = elim (Option-cases (holder leases store now)) [
      | inl e ↦ inl (inl e, runs (inl e))
      | inr (o, e) ↦ elim (Bool-cases (o == owner)) [
        | inl same ↦
            let free : Free leases store owner now = inr (ground (arith, eq_iff o owner)) in
            inl (free, runs free)
        | inr other ↦ inr (refuses o e (ground (arith, eq_iff o owner)))
      ]
    ]
