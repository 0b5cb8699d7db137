-- ===== src/AdvisoryLock/Exclusion.antt =====
-- Who holds the lock along a run. A reclaimer may remove the file of a process that still has it:
-- between its read of a stale file and its unlink another reclaimer has made a fresh one, or the
-- file it read was not written yet, or the holder is older than the maximal age. So may the second
-- unlink of a process that called `release` again before the first call ended.
use tekbreed_oss.Prelude.{
  ℕ, ◌≡◌, Bool, true, false, ◌||◌, ◌&&◌, not, ltb, Option, none, some, List, [], ◌∷◌, eqb,
  if◌then◌else◌,
}
use tekbreed_oss.AdvisoryLock.{Platform, File, Disk, Pc, is_releasing, let_go}
use tekbreed_oss.AdvisoryLock.Processes.{System, Action, update, step, run, init}

-- The file that a process made and has neither given up nor failed to write.
abbrev pub handle : Pc → Option ℕ
handle (Pc.writing started inode) = some inode
handle (Pc.rewriting started inode) = some inode
handle (Pc.holding inode) = some inode
handle (Pc.releasing inode) = some inode
handle _ = none

abbrev pub owner : Option File → Option (ℕ × ℕ)
owner none = none
owner (some f) = some (f.creator, f.inode)

abbrev is_unlinking : Pc → Bool
is_unlinking (Pc.unlinking started) = true
is_unlinking _ = false

abbrev has_owner : (ℕ → Pc) → Option (ℕ × ℕ) → Bool
has_owner pc none = false
has_owner pc (some (i, inode)) = elim (handle (pc i)) [ none ↦ false | some h ↦ eqb h inode ]

-- The unlink of a reclaimer, or of a release called again, removes the file of a process that has
-- it, and that process does not let go of the lock with it.
abbrev pub robs : System → Action → Bool
robs s (Action.turns i) =
    if is_unlinking (s.pc i) then has_owner s.pc (owner s.disk.file) else false
robs s (Action.unlinks_again i unlinks) =
    if not (is_releasing (s.pc i)) && ltb 0 (s.further i) && unlinks
    then has_owner (update s.pc i (let_go (s.pc i))) (owner s.disk.file)
    else false
robs s _ = false

module _ (platform : Platform) (max_age : ℕ) where
  unfoldable pub robbed : System → List Action → Bool
  robbed s [] = false
  robbed s (a ∷ later) = robs s a || robbed (step platform max_age s a) later

  abbrev pub Inv : System → Type 0
  Inv s = (i inode : ℕ) → handle (s.pc i) ≡ some inode → owner s.disk.file ≡ some (i, inode)

  module _ (disk : Disk) (actions : List Action) (safe : robbed (init disk) actions ≡ false) where
    abbrev last : System
    last = run platform max_age (init disk) actions
