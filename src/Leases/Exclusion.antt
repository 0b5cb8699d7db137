-- ===== src/Leases/Exclusion.antt =====
-- Mutual exclusion between the agents that share one lease manager.
use tekbreed_oss.Prelude.{ℕ, suc, ◌≤◌, String, ◌≡◌, ◌≢◌, false, some, List, All, arith}
use tekbreed_oss.Prelude.Number.{pos}
use tekbreed_oss.Prelude.Result.{ok}
use tekbreed_oss.Leases.{Leases, is_blank, acquire, holder}
use tekbreed_oss.Leases.Methods.{acquire_held}
use tekbreed_oss.Leases.Holding.{Call, IsByOther, run, run-Holds}

-- Who holds a store at one time held it at every earlier time.
holder-earlier :
    (s : Leases) (store owner : String) (now t : ℕ)
    → now ≤ t
    → holder s store t ≡ some owner
    → holder s store now ≡ some owner
unfolding holder
holder-earlier s store owner now t le h = ground arith

module _ (trim : String → String) (s : Leases) (store owner : String) (t : ℕ)
    (calls : List Call) where
  -- If `owner` holds a store at time t, then after any calls up to time t that `owner` does not
  -- make, also calls that throw, `owner` still holds it at t; and an `acquire` by another owner
  -- at a time up to t, with non-blank ids and a positive ttl, returns false and changes nothing.
  pub exclusive :
      (other : String) (n now : ℕ)
      → holder s store t ≡ some owner
      → All (IsByOther owner t) calls
      → owner ≢ other
      → now ≤ t
      → is_blank trim store ≡ false
      → is_blank trim other ≡ false
      → (holder (run trim s calls) store t ≡ some owner)
        × (acquire trim (run trim s calls) store other (pos (suc n)) now
            ≡ ok (false, run trim s calls))
  exclusive other n now h by ne le ok_store ok_other =
      let held = run-Holds trim store owner t s calls by h in
      (
        held,
        acquire_held trim (run trim s calls) store other ok_store ok_other n now owner
            (holder-earlier (run trim s calls) store owner now t le held) ne,
      )
