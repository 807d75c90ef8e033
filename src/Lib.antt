-- ===== src/Lib.antt =====
-- Verification library of plugmem, an embedded memory database: facts, entities and edges in flat
-- byte pools, a snapshot file, and a journal of the operations since the snapshot.
--
-- The program's parts, from the bottom: crates/plugmem-arena holds byte containers (pages of sorted
-- slots, blobs, chunk lists, interned strings); crates/plugmem-core builds indexes and the engine on
-- them and defines the formats of journal and snapshot; crates/plugmem-host binds the engine to files.
-- A verb of the engine changes the state in memory and then appends its operation to the journal, but for the claim
-- of a vector space, which is appended first; the journal's records are replayed at open.
--
-- Files and the code they model:
--
-- - Base: numbers, lists, results, bytes. `to_le` and `from_le` are the standard library's
--   `to_le_bytes` and `from_le_bytes` at a width of n bytes; `is_utf8` is `core::str::from_utf8`.
-- - Errors: crates/plugmem-core/src/error.rs, crates/plugmem-arena/src/error.rs, and the sentinel of
--   crates/plugmem-core/src/id.rs. A message of an error is kept as the source spells it.
-- - Varint: crates/plugmem-core/src/index/varint.rs.
-- - Journal: crates/plugmem-core/src/journal.rs. Journal/Fields has the readers and writers of fields,
--   Journal/Ops the operations, Journal/Frames the framing and `scan`. The journal's hash is a
--   parameter of every definition that uses it, and nothing is assumed of it.
-- - Metadata: crates/plugmem-core/src/metadata.rs.
-- - Key: crates/plugmem-arena/src/key.rs. Bytes compare as `[u8]::cmp` does.
-- - Paged: crates/plugmem-arena/src/paged.rs, over a page size that is a parameter. Paged/Copy has the copy
--   before the first write, Paged/Write a write, Paged/Overlay the whole life of a pool.
-- - Chunks: crates/plugmem-arena/src/chunk.rs over Paged. Chunks/Walk has the walks along chains, the dumps and
--   the loads.
-- - Arena: crates/plugmem-arena/src/arena.rs over Paged, and the constants of the trait in
--   crates/plugmem-arena/src/slot.rs: the state, the shard function, the directory and the allocation of pages.
--   Arena/Find has the searches and reads, Arena/Edit insertion with page splits and removal, Arena/Scan the
--   three cursors, Arena/Image the dumps and the loads. A slot is the bytes that its `write` makes; the memory
--   of a new page is a parameter, since the source does not initialise it.
-- - Blob: crates/plugmem-arena/src/blob.rs, the heap and its builder.
-- - Model: crates/plugmem-core/src/model.rs, the records that the arenas hold, as writes of fields into slots.
--   Model/Facts, Model/Entities and Model/Edges have the records, their keys and the windows of keys;
--   Model/Codec says what a write and a read of a slot owe each other.
-- - Memory: crates/plugmem-core/src/memory.rs, the engine, over interfaces `Table` and `Stores` of what it is
--   made of. Memory/Inputs has the checks, Memory/Entities, Memory/Edges, Memory/Facts, Memory/Store and
--   Memory/Tags the changes of the state, Memory/Verbs the verbs over a storage
--   (crates/plugmem-core/src/storage.rs), Memory/Replay the replay. A session (Memory/Session) is a sequence of
--   verbs that succeed; Memory/Examples has stores that are lists, on which the verbs run.
-- - Interner: crates/plugmem-arena/src/interner.rs over Blob. Interner/Table has the dumped table. The hash is a
--   parameter, as in Journal.
--
-- Conventions. A byte string is a list of numbers, with a hypothesis that they are below 256 where that
-- matters. A cursor into a buffer is the part that it has not passed. An integer keeps its width: `as
-- u32` is `% 2 ^ 32`, and `checked_add` on `usize` tests against 2 ^ 64, as on a 64-bit host. A
-- function that can panic returns an option, whose `none` is the panic, or an `Outcome`; a slice that is out of range
-- panics (Base/Slices). A `&str` is its bytes with the
-- hypothesis that they are valid UTF-8, and an `f32` is its 32-bit pattern.
--
-- Fuel. `encode_loop` runs on the places left in its array of five, so that `none` is a write past the
-- end. `scan_loop` runs on the length of the journal, and a round that goes on takes nine bytes at
-- least; `scan` returns an option whose `none` means that the fuel ran out. A walk along chunks runs on one more
-- than the chunks that can be marked, and comes to an `Outcome`, which tells a return from a panic and from
-- fuel that ran out. A probe of the interner's table runs on the number of its slots. A
-- binary search of an arena runs on one more than the entries it starts with, and a walk of its loads on one
-- more than the pages that can be marked.
--
-- Not modelled: of the engine the opening of a snapshot, the similarity search and what it guards, the listing
-- of tags and the counters; recall, the snapshot container, maintenance, which the replay takes as a parameter,
-- the inverted indexes and the vectors, the tokenizer, and the host crate with its wrappers.
pub mod Arena
pub mod Base
pub mod Model
pub mod Memory
pub mod Errors
pub mod Key
pub mod Metadata
pub mod Paged
pub mod Chunks
pub mod Varint
pub mod Journal
pub mod Blob
pub mod Interner
