-- ===== src/AdvisoryLock/Progress.antt =====
-- An acquire ends, whatever the other processes do between its turns.
use tekbreed_oss.Prelude.{
  ℕ, ◌+◌, ◌-◌, ◌≤◌, String, ◌≡◌, Bool, true, false, List, [], ◌∷◌, arith, eqb,
}
use tekbreed_oss.AdvisoryLock.{Platform, Disk, Pc, acquire, release, turn, fail}
use tekbreed_oss.AdvisoryLock.Processes.{System, Action, step, run, kill}

-- How many turns the acquire in flight may still take.
abbrev pub remaining : Pc → ℕ
remaining (Pc.opening t) = 5
remaining (Pc.reading t) = 4
remaining (Pc.unlinking t) = 3
remaining (Pc.reopening t) = 2
remaining (Pc.rereading t) = 1
remaining (Pc.writing t inode) = 1
remaining (Pc.rewriting t inode) = 1
remaining _ = 0

-- No acquire is in flight: the last one returned or threw.
abbrev pub is_settled : Pc → Bool
is_settled p = eqb (remaining p) 0

abbrev count : Bool → ℕ
count true = 1
count false = 0

-- The turns that a process takes, failed ones too, and the acquires that it calls.
abbrev turn_of : ℕ → Action → ℕ
turn_of i (Action.turns j) = count (eqb j i)
turn_of i (Action.fails j left) = count (eqb j i)
turn_of i _ = 0

abbrev pub turns_of : ℕ → List Action → ℕ
turns_of i [] = 0
turns_of i (a ∷ later) = turn_of i a + turns_of i later

abbrev acquire_of : ℕ → Action → ℕ
acquire_of i (Action.acquires j) = count (eqb j i)
acquire_of i _ = 0

abbrev pub acquires_of : ℕ → List Action → ℕ
acquires_of i [] = 0
acquires_of i (a ∷ later) = acquire_of i a + acquires_of i later

module _ (platform : Platform) (max_age : ℕ) where
  remaining-turn :
      (s : System) (i : ℕ) (p : Pc)
      → remaining (turn platform max_age (kill s.pc) s.now i s.disk p).1 ≤ remaining p - 1
  unfolding turn
  remaining-turn s i p = ground arith

  remaining-fail :
      (left : String) (disk : Disk) (p : Pc)
      → remaining (fail platform max_age left disk p).1 ≤ remaining p - 1
  unfolding fail
  remaining-fail left disk p = ground arith

  remaining-step :
      (s : System) (a : Action) (i : ℕ)
      → acquire_of i a ≡ 0
      → remaining ((step platform max_age s a).pc i) ≤ remaining (s.pc i) - turn_of i a
  unfolding step acquire release
  remaining-step s (Action.turns j) i none_called = ground (arith, remaining-turn s j (s.pc j))
  remaining-step s (Action.fails j left) i none_called =
      ground (arith, remaining-fail left s.disk (s.pc j))
  remaining-step s a i none_called = ground arith

  remaining-run :
      (s : System) (actions : List Action) (i : ℕ)
      → acquires_of i actions ≡ 0
      → remaining ((run platform max_age s actions).pc i) ≤ remaining (s.pc i) - turns_of i actions
  unfolding run
  remaining-run s [] i none_called = omega arith
  remaining-run s (a ∷ later) i none_called = omega (
    arith,
    remaining-step s a i (omega arith),
    remaining-run (step platform max_age s a) later i (omega arith),
  )

  -- In any state and along any actions among which process i calls no further acquire and takes
  -- at least five turns, failing ones included, the acquire of process i that was in flight has
  -- returned or thrown.
  pub acquire_ends :
      (s : System) (actions : List Action) (i : ℕ)
      → acquires_of i actions ≡ 0
      → 5 ≤ turns_of i actions
      → is_settled ((run platform max_age s actions).pc i) ≡ true
  acquire_ends s actions i none_called enough =
      ground (arith, remaining-run s actions i none_called)
