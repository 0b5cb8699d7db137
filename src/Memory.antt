-- ===== src/Memory.antt =====
-- packages/tekmemo/src/core: the files of one memory folder, and the records kept in them.
--
-- Paths has constants/memory-paths.ts, Store the in-memory store of stores/in-memory-store.ts,
-- Records validation/jsonl.ts with the snapshot records of snapshots/snapshot-records.ts.
pub mod Paths
pub mod Store
pub mod Records
pub mod Jsonl
mod Tests
