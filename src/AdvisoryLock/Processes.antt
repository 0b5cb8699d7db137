-- ===== src/AdvisoryLock/Processes.antt =====
-- Processes that share one lock file, their turns in any order. A process without a number below
-- is another program, which leaves the file alone. Process exits run `releaseSync` or, on a crash,
-- nothing; a pid may be used again.
use tekbreed_oss.Prelude.{ℕ, suc, ◌+◌, String, Bool, true, false, List, [], ◌∷◌, eqb, if◌then◌else◌}
use tekbreed_oss.Prelude.Number.{JsNumber, pos}
use tekbreed_oss.AdvisoryLock.{
  Signal, Platform, Disk, Pc, acquire, release, unlink_again, turn, fail, release_sync,
}

pub record System : Type 0 where
  pub disk : Disk
  pub pc : ℕ → Pc
  pub now : ℕ
  -- For each process, the unlinks in flight of releases that were called during another one.
  pub further : ℕ → ℕ

pub data Action : Type 0 where
  starts acquires turns releases crashes : ℕ → Action
  fails : ℕ → String → Action
  exits unlinks_again : ℕ → Bool → Action
  ticks : ℕ → Action

-- No process runs, and the file, if there is one, was left by an earlier run.
abbrev pub init : Disk → System
init disk = record { disk = disk; pc = λ _. Pc.exited; now = 0; further = λ _. 0 }

abbrev pub is_exited : Pc → Bool
is_exited Pc.exited = true
is_exited _ = false

-- process.kill(pid, 0) by any of the processes
abbrev pub kill : (ℕ → Pc) → JsNumber → Signal
kill pc (pos (suc i)) = if is_exited (pc i) then Signal.no_such_process else Signal.delivered
kill pc _ = Signal.no_such_process

abbrev pub update : (ℕ → Pc) → ℕ → Pc → ℕ → Pc
update pc i p j = if eqb i j then p else pc j

abbrev pub place : System → ℕ → Disk × Pc → System
place s i (disk, p) = record s { disk = disk; pc = update s.pc i p }

abbrev pub place_further : System → ℕ → (Disk × Pc) × ℕ → System
place_further s i (at, n) = record (place s i at) {
  further = λ j. if eqb i j then n else s.further j;
}

-- A process that has exited takes no part until it starts again.
abbrev pub start : Pc → Pc
start Pc.exited = Pc.idle
start p = p

-- The exit handler stands from the acquire to the release.
abbrev pub is_registered : Pc → Bool
is_registered (Pc.holding inode) = true
is_registered _ = false

module _ (platform : Platform) (max_age : ℕ) where
  unfoldable pub at_exit : Bool → Disk → Pc → Disk
  unfolding release_sync
  at_exit unlinks disk p =
      if is_registered p then (release_sync platform max_age unlinks disk p).0 else disk

  unfoldable pub step : System → Action → System
  unfolding acquire release unlink_again turn fail at_exit
  step s (Action.starts i) = place s i (s.disk, start (s.pc i))
  step s (Action.acquires i) = place s i (s.disk, acquire platform max_age s.now (s.pc i))
  step s (Action.turns i) = place s i (turn platform max_age (kill s.pc) s.now i s.disk (s.pc i))
  step s (Action.releases i) =
      let (pc, further) = release platform max_age (s.pc i) (s.further i) in
      place_further s i ((s.disk, pc), further)
  step s (Action.crashes i) = place_further s i ((s.disk, Pc.exited), 0)
  step s (Action.fails i left) = place s i (fail platform max_age left s.disk (s.pc i))
  step s (Action.exits i unlinks) =
      place_further s i ((at_exit unlinks s.disk (s.pc i), Pc.exited), 0)
  step s (Action.unlinks_again i unlinks) =
      place_further s i (unlink_again platform max_age unlinks s.disk (s.pc i) (s.further i))
  step s (Action.ticks n) = record s { now = s.now + n }

  unfoldable pub run : System → List Action → System
  unfolding step
  run s [] = s
  run s (a ∷ later) = run (step s a) later
