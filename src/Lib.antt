-- ===== src/Lib.antt =====
-- Verification of the stateful core of this repository. A module stands for each of these parts:
--
-- - Leases: packages/tekmemo/src/agentfs/leases, the lease manager that says which agent may
--   write to a store. A method is a function of the lease map and the clock's reading (acquire,
--   extend, release, get_lease for getLease). Leases.Holding runs sequences of calls, and
--   Leases.Scoped is withMemoryLease.
-- - AdvisoryLock: packages/tekmemo/src/fs/utils/advisory-lock.ts, the lock file that serializes
--   the processes of one folder. A process is where it stands between two awaits (Pc), turn is
--   the next call on the file system and the code up to the one after it, fail the same where the
--   call throws. A release called during another one has its own unlink (unlink_again).
--   AdvisoryLock.Processes runs the turns of any processes in any order.
-- - Memory: packages/tekmemo/src/core, the paths of a memory folder (Memory.Paths, with the path
--   tests of the file-replication layer), the in-memory store (Memory.Store), and parseJsonl with
--   the records of the snapshots index (Memory.Records).
-- - Security: packages/tekmemo/src/security, the blocklist that a write passes
--   (assert_write_allowed) and the tier that it gets (classify_durability). Notes:
--   packages/tekmemo/src/tekmemo/memory-strategy.ts, writeMemory and listRecentMemories of the
--   in-memory strategy; Notes.Clean runs sequences of writes.
-- - Transport: packages/tekmemo/src/cloud-client/transport.ts, request with requestOnce and the
--   retries; the answers of fetch are a function of the number of the attempt.
-- - Replica: packages/tekmemo/src/tekmemo/sync/file-replication.ts, the client half of the sync:
--   computeLocalManifest and pull here, push, upload, complete and pushFull in Replica.Uploads.
--   The files are those of the in-memory store, and Replica.Composed puts pull together with the
--   server's route of Sync.Handlers.
-- - Sync: apps/cloud/src/api/sync, the server that keeps a project's files for several clients.
--   Sync.Tables has the tables of apps/cloud/src/db/schema.ts and the SQL statements as functions
--   on them, Sync.Manifest the manifests and their differences, Sync.Commit the commit of a push
--   with its cursor and total (commit_push for commitPush and commitPushTx), Sync.Lock the write
--   transaction of concurrency.ts, Sync.Requests the checks on request bodies, Sync.Blobs the
--   verification of uploads and presignMany of apps/cloud/src/api/r2-presign.ts, and
--   Sync.Handlers the four routes of index.ts. `/push/complete` reads and checks before the write
--   lock (prepare) and commits under it (locked), so that other commits can stand between the
--   two.
-- - Lexical: packages/tekmemo/src/recall/lexical, the BM25 index: its three maps by namespace
--   (Bm25Store), upsert, delete, clear, count, and tokenize and termFrequency. An upsert throws
--   in the middle of its batch, with what came before kept.
-- - Graph: packages/tekmemo/src/graph/store/in-memory-graph-store.ts, the maps of nodes and edges
--   with their three indices: setEdge, removeEdge, deleteNode, clear, getNode, getEdge,
--   neighborEdgeIds and neighborCandidates. Graph.Filters has graph/utils/time.ts,
--   Graph.Neighbors neighbors, Graph.Paths fewestHopsPath, Graph.Metadata
--   graph/filters/metadata-filter.ts, Graph.Queries queryEdges and Graph.Decay decayEdges; a weight
--   is a number of Prelude.Floats. Graph.Upserts has upsertNodes and upsertEdges,
--   Graph.Normalize normalizeNode and normalizeEdge of graph/utils/validation.ts, Graph.Normal the
--   checks of its fields and ids.ts, Graph.Refs graph/utils/metadata.ts and source-refs.ts.
--   Graph.Upserts.Closed runs sequences of calls on one store.
-- - Recall: packages/tekmemo/src/recall, the in-memory recall store: its map of documents by
--   namespace and id, upsert, delete, deleteBySource, clear, count and query (Recall.Query).
--   Recall.Validation and Recall.Conditions have validation/assertions.ts, Recall.Filter
--   filters/filter-match.ts and Recall.Scoring scoring/cosine.ts. Recall.History runs sequences
--   of calls.
-- - Chunks: packages/tekmemo/src/core/chunking/chunk-text.ts, the loop of chunkText with
--   findSoftBoundary and hashString, over UTF-16 code units.
-- - Pages: packages/tekmemo-mcp-server/src/utils/pagination.ts, limits, cursors and pages.
--
-- JsMap is the JavaScript Map, or object with string keys, as an association list in insertion
-- order. The manifests of the server are plain objects, where a write to `__proto__` makes no key;
-- Sync.Manifest leaves such a path out, while the tables have its row. Prelude has the Boolean
-- tests on the native numbers, results and JSON values.
--
-- Loops are structural recursion on the list that they walk. chunkText's has one unit of fuel
-- more than the text has code units: each round starts further on. fewestHopsPath's has two more
-- than there are nodes: a node enters the queue at most once. Sizes, sequence numbers and times
-- are natural numbers: sums stay below 2 ^ 53 in use and are not rounded. hashString keeps its 32
-- bits.
--
-- Parameters: the operations on floating-point numbers, the times and the parsing of dates, the
-- bucket's objects, the digest, the signing of a URL, what fetch answers, the database driver's
-- errors, the clock (one reading for all of an upsert), process signals, the snapshot and the
-- reindexing of a sync, and of the language `String(n)`, `Number(s)`, trim, toLowerCase,
-- includes, replaceAll, padEnd, localeCompare, the sort of texts, the tests and replacements of
-- patterns, the parser of URLs, the split of a text, and the JSON, base64 and text codecs. Not
-- modelled: authentication, HTTP framing and expiry times of URLs, which no decision of these
-- parts depends on; an abort signal that fires within a step; the ranking of `search`; the graph
-- store's queryNodes, weighted path, merging and snapshots; the ids of chunks; the stores over
-- the file system, to which the sync is not tied; the other packages.
pub mod Prelude
pub mod JsMap
pub mod Leases
pub mod AdvisoryLock
pub mod Memory
pub mod Security
pub mod Notes
pub mod Transport
pub mod Replica
pub mod Sync
pub mod Lexical
pub mod Graph
pub mod Recall
pub mod Chunks
pub mod Pages
