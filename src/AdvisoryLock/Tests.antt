-- ===== src/AdvisoryLock/Tests.antt =====
-- The advisory lock run on schedules of two processes, and its theorems at such inputs.
use tekbreed_oss.Prelude.{
  ℕ, zero, suc, ◌≡◌, refl, Bool, true, ◌&&◌, none, some, List, [], ◌∷◌, ◌++◌, arith, ◌==◌,
  if◌then◌else◌,
}
use tekbreed_oss.Prelude.Number.{JsNumber, pos}
use tekbreed_oss.AdvisoryLock.{
  Platform, Signal, Disk, Pc, LockFailure, is_process_alive, is_stale, read_lock,
  parse_lock_contents, acquire, release, unlink_again, turn, fail, release_sync, is_held, lock_json,
}
use tekbreed_oss.AdvisoryLock.Processes.{System, Action, init, step, run, at_exit}
use tekbreed_oss.AdvisoryLock.Exclusion.{robbed}
use tekbreed_oss.AdvisoryLock.Outcomes.{ReadsBack, contents_at, acquire_alone, second_acquire}
use tekbreed_oss.AdvisoryLock.Progress.{is_settled, acquire_ends}

program : Unit {0}
unfolding is_process_alive is_stale read_lock parse_lock_contents acquire release unlink_again turn
    fail release_sync step run at_exit robbed
program = tt

-- A runtime for locks of process 0 started at time 0, whose contents are "lock".
abbrev blank : Platform
blank = record {
  json_parse = λ s. none;
  json_stringify = λ j. "lock";
  date_parse = λ s. pos 0;
  to_iso_string = λ n. "1970-01-01T00:00:00.000Z";
}

abbrev node : Platform
node = record blank {
  json_parse = λ s. if s == "lock" then some (lock_json blank 100 0 0) else none;
}

abbrev empty : Disk
empty = record { file = none; next_inode = 0 }

-- Process `i` starts and acquires with `n` turns.
abbrev turns : ℕ → ℕ → List Action
turns i zero = []
turns i (suc n) = Action.turns i ∷ turns i n

abbrev begins : ℕ → List Action
begins i = Action.starts i ∷ Action.acquires i ∷ []

-- Process 0 takes the lock, and process 1 is refused.
abbrev in_turn : List Action
in_turn = begins 0 ++ turns 0 2 ++ begins 1 ++ turns 1 2

abbrev both_hold : ℕ → ℕ → System → Bool
both_hold i j s = is_held (s.pc i) && is_held (s.pc j)

refused :
    (run node 100 (init empty) in_turn).pc 1
    ≡ Pc.failed (LockFailure.lock_held (some (contents_at node 0 0)))
unfolding program
refused = refl

-- Process 0 crashes. Processes 1 and 2 both read its file; the second one to unlink removes the
-- fresh file of the first.
two_reclaimers :
    both_hold 1 2 (
      run node 100 (init empty) (
        begins 0
        ++ turns 0 2
        ++ Action.crashes 0 ∷ begins 1
        ++ turns 1 2
        ++ begins 2
        ++ turns 2 2
        ++ turns 1 3
        ++ turns 2 3))
    ≡ true
unfolding program
two_reclaimers = refl

-- Process 1 reads the file between its creation and the write of process 0.
unwritten :
    both_hold 0 1
      (run node 100 (init empty) (begins 0 ++ turns 0 1 ++ begins 1 ++ turns 1 5 ++ turns 0 1))
    ≡ true
unfolding program
unwritten = refl

-- Process 1 comes when the live process 0 has held the lock for longer than the maximal age.
too_old :
    both_hold 0 1 (
      run node 100 (init empty) (begins 0 ++ turns 0 2 ++ Action.ticks 101 ∷ begins 1 ++ turns 1 5))
    ≡ true
unfolding program
too_old = refl

-- Process 0 calls `release` twice; its second unlink removes the fresh file of process 1.
released_twice :
    both_hold 1 2 (
      run node 100 (init empty) (
        begins 0
        ++ turns 0 2
        ++ Action.releases 0 ∷ Action.releases 0 ∷ turns 0 1
        ++ begins 1
        ++ turns 1 2
        ++ Action.unlinks_again 0 true ∷ begins 2
        ++ turns 2 2))
    ≡ true
unfolding program
released_twice = refl

abbrev alive : JsNumber → Signal
alive pid = Signal.delivered

abbrev node_reads : ReadsBack node 100 0 0
node_reads = record { json = refl; date = refl }

-- At time 50 process 1 finds the lock that process 0 took at time 0.
second_acquire_example :
    acquire_alone node 100 alive 50 1
      (acquire_alone node 100 alive 0 0 empty 0 Pc.idle).0
      50
      Pc.idle
    ≡ (
      (acquire_alone node 100 alive 0 0 empty 0 Pc.idle).0,
      Pc.failed (LockFailure.lock_held (some (contents_at node 0 0))),
    )
unfolding program
second_acquire_example = second_acquire node 100 alive 0 0 node_reads empty 0 1 50 Pc.idle refl refl

-- Process 0 leaves while process 1 tries; process 1 has come to an end after five turns.
acquire_ends_example :
    is_settled (
      (run node 100
          (record { disk = empty; pc = λ i. Pc.opening 0; now = 0; further = λ i. 0 })
          (turns 0 2 ++ turns 1 2 ++ Action.exits 0 true ∷ turns 1 3)).pc
        1)
    ≡ true
unfolding program
acquire_ends_example =
    acquire_ends node 100
      (record { disk = empty; pc = λ i. Pc.opening 0; now = 0; further = λ i. 0 })
      (turns 0 2 ++ turns 1 2 ++ Action.exits 0 true ∷ turns 1 3) 1 refl (omega arith)
