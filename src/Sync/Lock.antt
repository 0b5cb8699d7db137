-- ===== src/Sync/Lock.antt =====
-- The write lock around a commit, apps/cloud/src/api/sync/concurrency.ts. The transaction is the
-- database driver's: `begin` and `commit` say with what error `transaction("write")` and
-- `tx.commit()` reject, if they do. `lower` is the language's toLowerCase and `contains` its
-- String.prototype.includes.
use tekbreed_oss.Prelude.{
  String, Bool, false, ◌||◌, Option, none, some, List, [], ◌∷◌, if◌then◌else◌,
}
use tekbreed_oss.Prelude.Result.{Result, ok, throw}
use tekbreed_oss.Sync.Tables.{Db}
use tekbreed_oss.Sync.Commit.{ApiError, stale_cursor, concurrency, other}

-- What can be thrown while the transaction is open: the handler's ConflictError, or an error of
-- the driver by its text.
pub data TxError : Type 0 where
  stale : String → String → TxError
  driver : String → TxError

-- LOCK_TIMEOUT_PATTERNS
abbrev pub lock_timeout_patterns : List String
lock_timeout_patterns =
    "database is locked" ∷ "sqlite_busy" ∷ "transaction timed out" ∷ "write transaction" ∷ []

-- `err.message`
abbrev pub message : TxError → String
message (stale base current) =
    "Stale base cursor: another agent committed since your push. Re-diff and retry."
message (driver text) = text

-- The same error, as the route throws it on.
abbrev pub as_api_error : TxError → ApiError
as_api_error (stale base current) = stale_cursor base current
as_api_error (driver text) = other text

module _ (lower : String → String) (contains : String → String → Bool) where
  abbrev pub some_pattern : String → List String → Bool
  some_pattern text [] = false
  some_pattern text (p ∷ ps) = contains text p || some_pattern text ps

  -- isLockTimeout
  unfoldable pub is_lock_timeout : TxError → Bool
  is_lock_timeout err = some_pattern (lower (message err)) lock_timeout_patterns

  -- classify
  unfoldable pub classify : TxError → ApiError
  classify err = if is_lock_timeout err then concurrency else as_api_error err

  -- how acquireWriteLock leaves its `try`
  unfoldable pub finish :
      {A : Type 0} → Option TxError → Db → Result TxError A → Db → Result ApiError A × Db
  finish commit db (throw err) tx = (throw (classify err), db)
  finish (some err) db (ok a) tx = (throw (classify err), db)
  finish none db (ok a) tx = (ok a, tx)

  -- acquireWriteLock: `fn` runs on the transaction's own view of the tables, which becomes the
  -- database at the commit and is dropped at a rollback. The transaction is opened above the `try`.
  unfoldable pub acquire_write_lock :
      {A : Type 0}
      → Option TxError
      → Option TxError
      → Db
      → (Db → Result TxError A × Db)
      → Result ApiError A × Db
  unfolding finish
  acquire_write_lock (some err) commit db fn = (throw (as_api_error err), db)
  acquire_write_lock none commit db fn = let (r, tx) = fn db in finish commit db r tx
