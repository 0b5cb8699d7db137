-- ===== src/Leases/Holding.antt =====
-- Sequences of calls by several agents on one lease manager.
use tekbreed_oss.Prelude.{
  ℕ, ◌≤◌, String, ◌≡◌, ◌≢◌, refl, inl, inr, ◌⊎◌, some, none, List, [], ◌∷◌, All, arith, eq_iff,
  Bool-cases,
}
use tekbreed_oss.Prelude.Number.{JsNumber}
use tekbreed_oss.Prelude.Result.{Result, ok, throw}
use tekbreed_oss.JsMap
use tekbreed_oss.JsMap.{get-set, get-delete}
use tekbreed_oss.Leases
use tekbreed_oss.Leases.{Leases, LeaseError, holder, drop_expired, assert_lease_input, lease}

-- A call of the manager's interface, with the clock's reading at its `now()`.
pub data Call : Type 0 where
  acquire extend : String → String → JsNumber → ℕ → Call
  release : String → String → Call
  get_lease : String → ℕ → Call

-- The state that a call leaves, whether it returns or throws.
abbrev pub left : {A : Type 0} → Leases → Result LeaseError (A × Leases) → Leases
left s (ok (a, s')) = s'
left s (throw e) = s

abbrev pub left_unit : Leases → Result LeaseError Leases → Leases
left_unit s (ok s') = s'
left_unit s (throw e) = s

-- A call that `owner` does not make, at a time up to `t`.
abbrev pub IsByOther : String → ℕ → Call → Type 0
IsByOther owner t (acquire store o ttl now) = (o ≢ owner) × (now ≤ t)
IsByOther owner t (extend store o ttl now) = (o ≢ owner) × (now ≤ t)
IsByOther owner t (release store o) = o ≢ owner
IsByOther owner t (get_lease store now) = now ≤ t

module _ (trim : String → String) where
  unfoldable pub step : Leases → Call → Leases
  step s (acquire store owner ttl now) = left s (Leases.acquire trim s store owner ttl now)
  step s (extend store owner ttl now) = left s (Leases.extend trim s store owner ttl now)
  step s (release store owner) = left_unit s (Leases.release trim s store owner)
  step s (get_lease store now) = left s (Leases.get_lease trim s store now)

  unfoldable pub run : Leases → List Call → Leases
  run s [] = s
  run s (c ∷ calls) = run (step s c) calls

  module _ (store owner : String) (t : ℕ) where
    abbrev Holds : Leases → Type 0
    Holds s = holder s store t ≡ some owner

    Result-cases :
        (r : Result LeaseError (Unit {0})) → (r ≡ ok tt) ⊎ ((e : LeaseError) × (r ≡ throw e))
    Result-cases (ok x) = inl refl
    Result-cases (throw e) = inr (e, refl)

    step-Holds : (s : Leases) (c : Call) → IsByOther owner t c → Holds s → Holds (step s c)
    unfolding step Leases.acquire Leases.extend Leases.release Leases.get_lease Leases.holder
        Leases.drop_expired
    step-Holds s (acquire st o ttl now) b h =
        elim (Result-cases (assert_lease_input trim st o (some ttl))) [
          | inl e ↦
              let new = lease trim st o ttl now in
              rw e (
                ground (
                  arith,
                  eq_iff o owner,
                  eq_iff owner o,
                  eq_iff st store,
                  get-delete s st store,
                  get-delete s st st,
                  get-set s st store new,
                  get-set (JsMap.delete s st) st store new,
                ))
          | inr (x, e) ↦ rw e h
        ]
    step-Holds s (extend st o ttl now) b h =
        elim (Result-cases (assert_lease_input trim st o (some ttl))) [
          | inl e ↦
              let new = lease trim st o ttl now in
              rw e (
                ground
                  (arith, eq_iff o owner, eq_iff owner o, eq_iff st store, get-set s st store new))
          | inr (x, e) ↦ rw e h
        ]
    step-Holds s (release st o) b h = elim (Result-cases (assert_lease_input trim st o none)) [
      | inl e ↦
          rw e
            (ground (arith, eq_iff o owner, eq_iff owner o, eq_iff st store, get-delete s st store))
      | inr (x, e) ↦ rw e h
    ]
    step-Holds s (get_lease st now) b h = elim (Bool-cases (Leases.is_blank trim st)) [
      | inl e ↦ rw e h
      | inr e ↦ rw e (ground (arith, eq_iff st store, get-delete s st store))
    ]

    pub run-Holds :
        (s : Leases) (calls : List Call)
        → All (IsByOther owner t) calls
        → Holds s
        → Holds (run s calls)
    unfolding run
    run-Holds s [] b h = h
    run-Holds s (c ∷ calls) b h = run-Holds (step s c) calls b.1 (step-Holds s c b.0 h)
