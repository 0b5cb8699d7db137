-- ===== src/Leases/Tests.antt =====
-- The lease manager run on inputs of agentfs tests, and its theorems at such inputs.
use tekbreed_oss.Prelude.{
  ◌⊎◌, ℕ, String, ◌≡◌, ◌≢◌, refl, true, false, some, List, [], ◌∷◌, arith, eq_iff,
}
use tekbreed_oss.Prelude.Number.{pos, nan}
use tekbreed_oss.Prelude.Result.{Result, ok, throw}
use tekbreed_oss.JsMap
use tekbreed_oss.Leases.{
  Leases, ttl_not_positive, is_blank, assert_lease_input, drop_expired, acquire, extend, release,
  get_lease, holder,
}
use tekbreed_oss.Leases.Scoped.{Runs, Refuses, Free, with_memory_lease_lem}
use tekbreed_oss.Leases.Holding.{Call, step, run}
use tekbreed_oss.Leases.Exclusion.{exclusive}

abbrev trim : String → String
trim s = s

program : Unit {0}
unfolding is_blank assert_lease_input drop_expired acquire extend release get_lease holder JsMap.get
    JsMap.set JsMap.delete step run
program = tt

-- "a" holds "store" up to time 150.
abbrev held : Leases
held = ("store", record { store_id = "store"; owner_id = "a"; expires_at = 150 }) ∷ []

first_acquire : acquire trim [] "store" "a" (pos 50) 100 ≡ ok (true, held)
unfolding program
first_acquire = refl

second_refused : acquire trim held "store" "b" (pos 50) 149 ≡ ok (false, held)
unfolding program
second_refused = refl

takes_over :
    acquire trim held "store" "b" (pos 50) 150
    ≡ ok (true, ("store", record { store_id = "store"; owner_id = "b"; expires_at = 200 }) ∷ [])
unfolding program
takes_over = refl

nan_refused : acquire trim held "store" "a" nan 100 ≡ throw ttl_not_positive
unfolding program
nan_refused = refl

holds_until : holder held "store" 149 ≡ some "a"
unfolding program
holds_until = refl

not_blank : is_blank trim "store" ≡ false
unfolding program
not_blank = refl

a_not_blank : is_blank trim "a" ≡ false
unfolding program
a_not_blank = refl

b_not_blank : is_blank trim "b" ≡ false
unfolding program
b_not_blank = refl

a_not_b : ◌≢◌ {A = String} "a" "b"
a_not_b = ground (arith, eq_iff "a" "b")

b_not_a : ◌≢◌ {A = String} "b" "a"
b_not_a = ground (arith, eq_iff "b" "a")

abbrev others : List Call
others =
    Call.acquire "store" "b" (pos 5) 110
    ∷ Call.release "store" "b"
    ∷ Call.get_lease "store" 149
    ∷ Call.extend "store" "b" nan 120
    ∷ []

exclusive_example :
    (holder (run trim held others) "store" 149 ≡ some "a")
    × (acquire trim (run trim held others) "store" "b" (pos 10) 140
        ≡ ok (false, run trim held others))
exclusive_example =
    exclusive trim held "store" "a" 149 others "b" 9 140 holds_until
      ((b_not_a, omega arith), (b_not_a, (omega arith, ((b_not_a, omega arith), tt)))) a_not_b
      (omega arith) not_blank b_not_blank

-- An operation that extends its own lease and returns 7.
abbrev operation : Leases → Result (Unit {0}) ℕ × Leases
operation s =
    (ok 7, ("store", record { store_id = "store"; owner_id = "a"; expires_at = 500 }) ∷ [])

with_memory_lease_lem_example :
    (Free held "store" "a" 149 × Runs trim held "store" "a" 30 149 operation)
    ⊎ Refuses trim held "store" "a" 30 149 operation
with_memory_lease_lem_example =
    with_memory_lease_lem trim held "store" "a" not_blank a_not_blank 29 149 operation
