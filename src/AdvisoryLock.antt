-- ===== src/AdvisoryLock.antt =====
-- packages/tekmemo/src/fs/utils/advisory-lock.ts: the lock file `.tekmemo/.lock` that serializes
-- the writers of one folder across processes. Each `await` of an operation on the file system is
-- one turn of the process, so the turns of several processes may come in any order (Processes).
-- JSON, dates and signals are the runtime's (Platform). A file system call that fails with another
-- error than the two the code tests for is the turn `fail`.
pub mod Processes
pub mod Exclusion
pub mod Outcomes
pub mod Progress
mod Tests
use tekbreed_oss.Prelude.{
  ℕ, zero, suc, ◌+◌, String, Bool, true, false, ◌&&◌, ◌||◌, not, Option, none, some, ltb, eqb,
  if◌then◌else◌,
}
use tekbreed_oss.Prelude.Number.{
  JsNumber, is_finite, le-zero, nan, infinity, neg_infinity, pos, negsuc,
}
use tekbreed_oss.Prelude.Json.{Json, Fields, number, text, object, field, end, field_of}

pub record LockFileContents : Type 0 where
  pub pid : JsNumber
  pub started_at : String

-- What `process.kill(pid, 0)` does: it returns, or throws ESRCH or another error.
pub data Signal : Type 0 where
  delivered no_such_process other_error : Signal

-- `JSON.parse` (none where it throws), `JSON.stringify`, `Date.parse` and `toISOString`
pub record Platform : Type 0 where
  pub json_parse : String → Option Json
  pub json_stringify : Json → String
  pub date_parse : String → JsNumber
  pub to_iso_string : ℕ → String

-- One file of the file system: the inode that a handle keeps, and the text. `creator` is the
-- process that made it, which the code does not read.
pub record File : Type 0 where
  pub inode : ℕ
  pub creator : ℕ
  pub content : String

-- What stands at `lockPath`, and the inode that the next file gets.
pub record Disk : Type 0 where
  pub file : Option File
  pub next_inode : ℕ

-- Why an acquire threw.
pub data LockFailure : Type 0 where
  lock_held : Option LockFileContents → LockFailure
  io_error : LockFailure

-- Where a process stands. `started` is the time in the contents that the acquire writes, `inode`
-- the file that the process made. `held` is set in `holding` and `releasing`.
pub data Pc : Type 0 where
  idle exited : Pc
  opening reading unlinking reopening rereading : (started : ℕ) → Pc
  writing rewriting : (started inode : ℕ) → Pc
  holding releasing : (inode : ℕ) → Pc
  failed : LockFailure → Pc

-- get isHeld
abbrev pub is_held : Pc → Bool
is_held (Pc.holding inode) = true
is_held (Pc.releasing inode) = true
is_held _ = false

abbrev pub is_releasing : Pc → Bool
is_releasing (Pc.releasing inode) = true
is_releasing _ = false

-- `this.held = false`
abbrev pub let_go : Pc → Pc
let_go (Pc.holding inode) = Pc.idle
let_go (Pc.releasing inode) = Pc.idle
let_go pc = pc

-- `process.pid` of the process with this number; pids start at 1.
abbrev pub pid_of : ℕ → JsNumber
pid_of i = pos (suc i)

unfoldable pub is_process_alive : (JsNumber → Signal) → JsNumber → Bool
unfolding is_finite le-zero
is_process_alive kill pid =
    if not (is_finite pid) || le-zero pid
    then false
    else elim (kill pid) [ Signal.no_such_process ↦ false | _ ↦ true ]

-- The value that parsed, if it is an object with a numeric pid and a textual startedAt.
abbrev pub lock_contents : Option Json → Option Json → Option LockFileContents
lock_contents (some (number pid)) (some (text started_at)) =
    some (record { pid = pid; started_at = started_at })
lock_contents _ _ = none

abbrev pub contents_of : Option Json → Option LockFileContents
contents_of (some (object fields)) =
    lock_contents (field_of fields "pid") (field_of fields "startedAt")
contents_of _ = none

-- `Date.now() - startedAt > maxAgeMs`, where `startedAt` is no NaN
abbrev pub is_older : ℕ → JsNumber → ℕ → Bool
is_older now (pos started) max_age = ltb (started + max_age) now
is_older now (negsuc n) max_age = ltb max_age (now + suc n)
is_older now neg_infinity max_age = true
is_older now _ max_age = false

abbrev pub is_nan : JsNumber → Bool
is_nan nan = true
is_nan _ = false

-- fs.open(path, "wx") where it succeeds: the file is there, and empty
abbrev pub create : Disk → ℕ → Disk
create disk i = record {
  file = some (record { inode = disk.next_inode; creator = i; content = "" });
  next_inode = suc disk.next_inode;
}

-- handle.writeFile: the text goes to the inode of the handle, wherever that file now is
abbrev pub write_handle : Disk → ℕ → String → Disk
write_handle disk inode content = elim disk.file [
  | none ↦ disk
  | some f ↦
      if eqb f.inode inode
      then record disk { file = some (record f { content = content }) }
      else disk
]

-- fs.unlink: ENOENT, which the code passes over, leaves the folder as it was too
abbrev pub unlink : Disk → Disk
unlink disk = record disk { file = none }

module _ (platform : Platform) (max_age : ℕ) where
  open platform use {json_parse, json_stringify, date_parse, to_iso_string}

  unfoldable pub parse_lock_contents : String → Option LockFileContents
  parse_lock_contents raw = contents_of (json_parse raw)

  -- JSON.stringify(contents)
  abbrev pub lock_json : ℕ → ℕ → Json
  lock_json i started =
      object
        (field "pid" (number (pid_of i)) (field "startedAt" (text (to_iso_string started)) end))

  abbrev pub lock_text : ℕ → ℕ → String
  lock_text i started = json_stringify (lock_json i started)

  unfoldable pub is_stale : (JsNumber → Signal) → ℕ → LockFileContents → Bool
  unfolding is_process_alive is_finite
  is_stale kill now contents =
      not (is_finite contents.pid)
      || not (is_process_alive kill contents.pid)
      || is_nan (date_parse contents.started_at)
      || is_older now (date_parse contents.started_at) max_age

  -- readLock: none for a missing or malformed file
  unfoldable pub read_lock : Disk → Option LockFileContents
  unfolding parse_lock_contents
  read_lock disk = elim disk.file [ none ↦ none | some f ↦ parse_lock_contents f.content ]

  -- `existing === null || this.isStale(existing)`
  abbrev pub is_reclaimable : (JsNumber → Signal) → ℕ → Option LockFileContents → Bool
  is_reclaimable kill now none = true
  is_reclaimable kill now (some contents) = is_stale kill now contents

  -- The call of `acquire`: nothing if the lock is held or an acquire is in flight.
  unfoldable pub acquire : ℕ → Pc → Pc
  acquire now Pc.idle = Pc.opening now
  acquire now (Pc.failed why) = Pc.opening now
  acquire now pc = pc

  -- The call of `release`, up to its first `await`. `held` is still set while an unlink is in
  -- flight, so a call then sends a further one; the number counts these.
  unfoldable pub release : Pc → ℕ → Pc × ℕ
  release (Pc.holding inode) further = (Pc.releasing inode, further)
  release (Pc.releasing inode) further = (Pc.releasing inode, suc further)
  release pc further = (pc, further)

  -- The end of a further unlink, which may fail, and `held = false` after it. While the process is
  -- in `releasing`, its turn is the first of its unlinks to end, and no other comes before.
  unfoldable pub unlink_again : Bool → Disk → Pc → ℕ → (Disk × Pc) × ℕ
  unlink_again unlinks disk pc further =
      if is_releasing pc then ((disk, pc), further) else elim further [
        | zero ↦ ((disk, pc), zero)
        | suc n ↦ ((if unlinks then unlink disk else disk, let_go pc), n)
      ]

  -- The next call on the file system of process `i`, and the code up to the one after it.
  unfoldable pub turn : (JsNumber → Signal) → ℕ → ℕ → Disk → Pc → Disk × Pc
  unfolding is_stale read_lock
  turn kill now i disk (Pc.opening t) = elim disk.file [
    | none ↦ (create disk i, Pc.writing t disk.next_inode)
    | some f ↦ (disk, Pc.reading t)
  ]
  turn kill now i disk (Pc.writing t inode) =
      (write_handle disk inode (lock_text i t), Pc.holding inode)
  turn kill now i disk (Pc.reading t) =
      if is_reclaimable kill now (read_lock disk)
      then (disk, Pc.unlinking t)
      else (disk, Pc.failed (LockFailure.lock_held (read_lock disk)))
  turn kill now i disk (Pc.unlinking t) = (unlink disk, Pc.reopening t)
  turn kill now i disk (Pc.reopening t) = elim disk.file [
    | none ↦ (create disk i, Pc.rewriting t disk.next_inode)
    | some f ↦ (disk, Pc.rereading t)
  ]
  turn kill now i disk (Pc.rewriting t inode) =
      (write_handle disk inode (lock_text i t), Pc.holding inode)
  turn kill now i disk (Pc.rereading t) = (disk, Pc.failed (LockFailure.lock_held (read_lock disk)))
  turn kill now i disk (Pc.releasing inode) = (unlink disk, Pc.idle)
  turn kill now i disk pc = (disk, pc)

  -- The same where that call fails; `left` is what a failed write leaves in the file.
  unfoldable pub fail : String → Disk → Pc → Disk × Pc
  fail left disk (Pc.opening t) = (disk, Pc.failed LockFailure.io_error)
  fail left disk (Pc.writing t inode) =
      (write_handle disk inode left, Pc.failed LockFailure.io_error)
  fail left disk (Pc.reading t) = (disk, Pc.unlinking t)
  fail left disk (Pc.unlinking t) = (disk, Pc.failed LockFailure.io_error)
  fail left disk (Pc.reopening t) = (disk, Pc.failed LockFailure.io_error)
  fail left disk (Pc.rewriting t inode) =
      (write_handle disk inode left, Pc.failed LockFailure.io_error)
  fail left disk (Pc.rereading t) = (disk, Pc.failed (LockFailure.lock_held none))
  fail left disk (Pc.releasing inode) = (disk, Pc.idle)
  fail left disk pc = (disk, pc)

  -- releaseSync, where the unlink may fail
  unfoldable pub release_sync : Bool → Disk → Pc → Disk × Pc
  release_sync unlinks disk pc =
      if is_held pc then (if unlinks then unlink disk else disk, Pc.idle) else (disk, pc)
