-- ===== src/AdvisoryLock/Outcomes.antt =====
-- What an acquire comes to when no other process moves between its turns.
use tekbreed_oss.Prelude.{
  ℕ, zero, suc, ◌+◌, ◌≡◌, refl, Bool, true, false, ◌||◌, not, none, some, arith, ltb, if◌then◌else◌,
}
use tekbreed_oss.Prelude.Number.{JsNumber, pos, is_finite}
use tekbreed_oss.AdvisoryLock.{
  Platform, Signal, Disk, Pc, LockFailure, LockFileContents, acquire, turn, lock_text, lock_json,
  pid_of, is_reclaimable, read_lock, is_stale, parse_lock_contents, is_process_alive,
}

module _ (platform : Platform) (max_age : ℕ) (kill : JsNumber → Signal) (now i : ℕ) where
  -- Turns of the process with nothing in between.
  abbrev pub settle : ℕ → Disk × Pc → Disk × Pc
  settle zero at = at
  settle (suc n) (disk, p) = settle n (turn platform max_age kill now i disk p)

  -- A whole acquire, called at time `started`.
  abbrev pub acquire_alone : Disk → ℕ → Pc → Disk × Pc
  acquire_alone disk started p = settle 5 (disk, acquire platform max_age started p)

  -- The disk with a new lock file of this process.
  abbrev pub with_lock : Disk → ℕ → Disk
  with_lock disk started = record {
    file = some (record {
      inode = disk.next_inode;
      creator = i;
      content = lock_text platform max_age i started;
    });
    next_inode = suc disk.next_inode;
  }

  abbrev pub is_blocked : Disk → Bool
  is_blocked disk = elim disk.file [
    | none ↦ false
    | some f ↦
        not (
          is_reclaimable platform max_age kill now (parse_lock_contents platform max_age f.content))
  ]

  -- Not in an acquire, nor with the lock.
  abbrev pub is_free : Pc → Bool
  is_free Pc.idle = true
  is_free (Pc.failed why) = true
  is_free _ = false

  -- An acquire by a free process, with no other process moving between its turns, ends with the
  -- lock held and a new lock file of this process, unless there is a well-formed lock file that
  -- is not stale: then it throws LockHeldError with what the file says and leaves the file as it
  -- was.
  pub acquire_alone_lem :
      (disk : Disk) (started : ℕ) (p : Pc)
      → is_free p ≡ true
      → acquire_alone disk started p ≡ (
          if is_blocked disk
          then (disk, Pc.failed (LockFailure.lock_held (read_lock platform max_age disk)))
          else (with_lock disk started, Pc.holding disk.next_inode))
  unfolding turn acquire read_lock parse_lock_contents
  acquire_alone_lem disk started p free = ground arith

-- The contents that process `i` writes at time `started`.
abbrev pub contents_at : Platform → ℕ → ℕ → LockFileContents
contents_at platform i started = record {
  pid = pid_of i;
  started_at = platform.to_iso_string started;
}

-- What is used of the runtime: the contents written read back, the date among them.
pub record ReadsBack (platform : Platform) (max_age i started : ℕ) : Type 0 where
  pub json :
      platform.json_parse (lock_text platform max_age i started)
      ≡ some (lock_json platform max_age i started)
  pub date : platform.date_parse (platform.to_iso_string started) ≡ pos started

module _ (platform : Platform) (max_age : ℕ) (kill : JsNumber → Signal) (first started : ℕ)
    (reads : ReadsBack platform max_age first started) where
  open reads use {json, date}

  read-own :
      parse_lock_contents platform max_age (lock_text platform max_age first started)
      ≡ some (contents_at platform first started)
  unfolding parse_lock_contents
  read-own = ground (arith, json)

  is_stale-own :
      (now : ℕ)
      → is_stale platform max_age kill now (contents_at platform first started)
        ≡ (not (is_process_alive kill (pid_of first)) || ltb (started + max_age) now)
  unfolding is_stale is_finite
  is_stale-own now = ground (arith, date)

  -- Where the contents written read back, after a process acquired the lock alone at some time,
  -- an acquire by another process alone at a later time takes the lock if the first process is
  -- dead or the lock is older than the maximal age, and otherwise throws LockHeldError with the
  -- first process's contents and leaves the file as it was.
  pub second_acquire :
      (disk : Disk) (now second later : ℕ) (p : Pc)
      → is_free platform max_age kill later second p ≡ true
      → is_blocked platform max_age kill now first disk ≡ false
      → let at = acquire_alone platform max_age kill now first disk started Pc.idle in
        acquire_alone platform max_age kill later second at.0 later p ≡ (
          if not (is_process_alive kill (pid_of first)) || ltb (started + max_age) later
          then (with_lock platform max_age kill later second at.0 later, Pc.holding at.0.next_inode)
          else (
            at.0,
            Pc.failed (LockFailure.lock_held (some (contents_at platform first started))),
          ))
  unfolding read_lock
  second_acquire disk now second later p free open_ = ground (
    arith,
    acquire_alone_lem platform max_age kill now first disk started Pc.idle refl,
    acquire_alone_lem platform max_age kill later second
        (with_lock platform max_age kill now first disk started) later p free,
    read-own,
    is_stale-own later,
  )
