-- ===== src/Lib.antt =====
-- Verification library of neural-sgdb, a database of agent memories: the memory documents and
-- their causal clocks, the exchange of versions between nodes, the storage backends, the
-- radix tree of the keys, and the registry of trusted peers.
--
-- The program. A memory is a `MemoryDoc` (a layer, a key, a payload, a vector clock, provenance),
-- stored as a `MemoryRecord` under its storage key in a backend that implements `Storage`. Nodes
-- announce the versions that they know (`CrdtMemorySync`), ask each other for what is missing, and
-- send records in deltas and snapshots, inside a `SignedEnvelope`. Which of two memories is the
-- later one, or whether they conflict, is decided by comparing their clocks. The keys are indexed
-- in an adaptive radix tree, which the engine asks for a key or for the keys of a prefix.
--
-- The files and the code.
--   Prelude       numbers, tests, lists, bytes and association lists that the components share
--   Wire          readers over a byte slice, as the decoders of src/memory_doc.rs and src/crdt.rs
--                 use `off`, `rd_u16`, `rd_u32`, `rd_u64`; Wire/Utf8 is `core::str::from_utf8`
--   Clock         `VectorClock` of src/memory_doc.rs: `set_counter`, `tick`, `counter_of`, `eq`,
--                 `happens_before`, `concurrent`, `merge`; the eight slots are a list of pairs,
--                 `nodes` with `counts`. Clock/Wire has its `encode` and `decode`, Clock/Invariant
--                 the well-formedness, Clock/Laws, Clock/Order and Clock/Causality its theorems
--   Layer         `MemoryLayer`, `MemoryState` and `RelationKind` of src/memory_doc.rs
--   Meta          `ScopeDims` and `MemoryMeta` of src/memory_doc.rs, and the format MDM1
--   Doc           `MemoryDoc`, `MemoryDocView` and `MemoryRecord` of src/memory_doc.rs, and the
--                 formats NMD1 and MDR1
--   Conflict      `ConflictRecord` of src/conflict.rs and the format CFL1; Conflict/Id is
--                 `generate_conflict_id`, with FNV-1a modulo 2 ^ 64
--   Crdt          `CrdtMemorySync`, `MergePolicy` and `Transport` of src/crdt.rs: the verdicts of
--                 `apply_remote_version`, `announce`, `missing_after`, `sync`, `restore`
--   Packets       `SignedEnvelope`, `CrdtState`, `MemoryDelta` and `MemorySnapshot` of src/crdt.rs
--   Storage       src/storage.rs: Storage/Map is the `BTreeMap` of its backends, Storage/Snapshot
--                 `InMemory` and `SnapshotStorage`, Storage/Crc the checksum, Storage/File
--                 `FileStorage`; Storage/Log, Sizes, Recovery, Reopen, Durable, Reads and
--                 Compact have the theorems of the append log, Storage/Scan of prefix scans
--   Art           src/art.rs: `Node` with its four widths, `insert_rec` and `get`; Art/Removal is
--                 `delete_rec`, Art/Index is `ArtIndex` with the prefix guard and the scans.
--                 Art/Paths, Slots, Rows and Reordering have the lemmas on keys and slots, Art/Wf
--                 the well-formed trees, Art/Changes, Insertion, Growing, Freedom and Stored those
--                 on insertion, Art/Shrinking, Deletion, Sizes and Count those on deletion, Art/Laws,
--                 Refinement, Guard, Missed, Scan, Entries and Pages those on the index
--   Tickv         the volume format TKLV of src/tickv.rs: `encode_record`, the overwrite of
--                 `invalidate_in_place`, and `scan_volume`; Tickv/File is `put` and `delete` of
--                 `TickvFile` without its buffered mode, Tickv/Durable what a put leaves
--                 on the disk, Tickv/Torn the scan behind a torn append
--   Trust         `TrustStore` of src/trust.rs, the bounded registry of peers
-- The files named Runs hold concrete runs and the theorems at concrete inputs.
--
-- Conventions. A byte is a number below 256, a text is the list of its bytes, an f32 is its bit
-- pattern. A `&mut self` operation returns the new state; a `Result` is a `Result` with one
-- constructor for each message. What the operating system answers (`AppendIo`, `CompactIo`,
-- `OpenIo`, `TickvIo`) and the medium of `sync` (`Transport`) are arguments.
--
-- The slot arrays of a radix tree node are the list of its children with their bytes, in slot order;
-- the SSE search of `find_child_byte16` gives what its loop gives. The tree holds no two keys of
-- which one begins with the other: the theorems on insertion assume it of the new key, as the
-- comment above `has_prefix_conflict` asks of the callers.
--
-- Bounds. u64 counters saturate where the code saturates, and the difference of two times in
-- `sync` wraps modulo 2 ^ 64. Lengths that an encoder casts with `as u16` or `as u32` are cut to
-- that many bytes, so the round trips assume that they fit. The recovery loop of `open` runs on
-- fuel, and the length of the file is enough, since each record takes twelve bytes at least. The
-- loop of `scan_volume` runs on fuel too and gives nothing where it runs out, which it never does on
-- more fuel than bytes, since each step takes a byte at least.
--
-- Not modelled. The facade src/sgdb.rs and the indexes behind it (src/engine.rs,
-- src/bq.rs, src/ann.rs and others), the checkpoints, the fast
-- mount, the compaction and the buffered mode of src/tickv.rs, arbitration and lifecycle
-- (src/arbitration.rs, src/lifecycle.rs), `UdpTransport`, which is
-- socket input and output, `generate_memory_id`, the demonstration signer of src/trust.rs, and the
-- bindings and examples.
pub mod Prelude
pub mod Wire
pub mod Clock
pub mod Layer
pub mod Meta
pub mod Doc
pub mod Conflict
pub mod Crdt
pub mod Packets
pub mod Storage
pub mod Tickv
pub mod Trust
pub mod Art
