-- ===== src/Sync.antt =====
-- The cloud's file-replication sync, apps/cloud/src/api/sync/*.ts: the tables (Tables), the
-- manifests and their differences (Manifest), a commit (Commit), the write lock (Lock), the
-- handlers (Handlers), and what is proved of them.
pub mod Tables
pub mod Manifest
pub mod Commit
pub mod Lock
pub mod Requests
pub mod Blobs
pub mod Handlers
mod Tests
