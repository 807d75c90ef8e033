-- ===== src/Blob.antt =====
-- crates/plugmem-arena/src/blob.rs: `BlobHeap`, an append-only heap of byte strings over a borrowed
-- base and an owned tail, its dumps and loads, and `BlobHeapBuilder`. A `usize` has 64 bits.
pub mod Pool
pub mod Push
pub mod Iter
pub mod Load
pub mod Accept
pub mod Builder
mod Tests
use plugmem.Base.{ℕ, zero, suc, ◌+◌, ◌-◌, ◌*◌, ◌%◌, ◌^◌, List, [], ◌∷◌, ◌++◌, length, take, drop}
use plugmem.Base.{
  Option, none, some, get_elem?, ltb, leb, ◌==◌, if◌then◌else◌, not, Result, ok, err,
}
use plugmem.Base.{◌>>=◌}
use plugmem.Base.Bytes.{Bytes, to_le, from_le}
use plugmem.Errors.{ArenaError}

pub record BlobHeapCfg : Type 0 where
  pub max_bytes : ℕ
  pub max_blob : ℕ

pub record BlobHeap : Type 0 where
  pub base : Bytes
  pub tail : Bytes
  pub index : List (ℕ × ℕ)
  pub cfg : BlobHeapCfg

abbrev pub new : BlobHeapCfg → BlobHeap
new cfg = record { base = []; tail = []; index = []; cfg = cfg }

unfoldable pub pool_len : BlobHeap → ℕ
pool_len h = length h.base + length h.tail

-- `&bytes[at..at + len]`; `none` is the panic of a range that does not fit.
unfoldable pub range : Bytes → ℕ → ℕ → Option Bytes
range bytes at len = if leb (at + len) (length bytes) then some (take len (drop at bytes)) else none

unfoldable pub slice : BlobHeap → ℕ → ℕ → Option Bytes
unfolding range
slice h offset len =
    if ltb offset (length h.base)
    then range h.base offset len
    else range h.tail (offset - length h.base) len

-- `u32::try_from(n).ok().filter(|&i| i != u32::MAX)`
unfoldable pub blob_id : ℕ → Option ℕ
blob_id n = if ltb n (2 ^ 32) then (if n == 2 ^ 32 - 1 then none else some n) else none

-- `offset.checked_add(len)` on `usize`.
unfoldable pub checked_add : ℕ → ℕ → Option ℕ
checked_add a b = if ltb (a + b) (2 ^ 64) then some (a + b) else none

-- `Option::ok_or`
abbrev pub ok_or : {E A : Type 0} → Option A → E → Result E A
ok_or none e = err e
ok_or (some a) e = ok a

unfoldable pub push : BlobHeap → Bytes → Result ArenaError (ℕ × BlobHeap)
push h bytes =
    let full = ArenaError.capacity_exceeded h.cfg.max_bytes in
    if ltb h.cfg.max_blob (length bytes)
    then err (ArenaError.blob_too_large (length bytes) h.cfg.max_blob)
    else do
      end ← ok_or (checked_add (pool_len h) (length bytes)) full
      if ltb h.cfg.max_bytes end then err full else do
        id ← ok_or (blob_id (length h.index)) full
        ok (
          id,
          record h {
            tail = h.tail ++ bytes;
            index = h.index ++ ((pool_len h, length bytes % 2 ^ 32) ∷ []);
          },
        )

-- `none` is the panic of a dangling id.
unfoldable pub get : BlobHeap → ℕ → Option Bytes
get h id = elim (get_elem? h.index id) [ none ↦ none | some entry ↦ slice h entry.0 entry.1 ]

unfoldable pub len : BlobHeap → ℕ
len h = length h.index

unfoldable pub put_lens : List (ℕ × ℕ) → Bytes
put_lens [] = []
put_lens ((offset, len) ∷ index) = to_le 4 len ++ put_lens index

unfoldable pub dump_index : BlobHeap → Bytes
dump_index h = to_le 4 (length h.index % 2 ^ 32) ++ put_lens h.index

unfoldable pub dump_pool : BlobHeap → Bytes
dump_pool h = h.base ++ h.tail

-- The loop of `validate_index` and the test behind it, from a length entry on: `rest` is what the
-- loop has not read of the index.
unfoldable pub read_lens :
    BlobHeapCfg → ℕ → ℕ → Bytes → ℕ → List (ℕ × ℕ) → Result ArenaError (List (ℕ × ℕ))
read_lens cfg pool_len zero rest offset rebuilt =
    if offset == pool_len
    then ok rebuilt
    else err (ArenaError.corrupt "blob lengths do not cover the pool")
read_lens cfg pool_len (suc blobs) rest offset rebuilt =
    let len = from_le (take 4 rest) in
    let end = offset + len in
    let more = read_lens cfg pool_len blobs (drop 4 rest) end (rebuilt ++ ((offset, len) ∷ [])) in
    if ltb cfg.max_blob len
    then err (ArenaError.corrupt "blob length exceeds the configured max_blob")
    else if leb end pool_len
    then more
    else err (ArenaError.corrupt "blob lengths overrun the pool")

unfoldable pub validate_index : BlobHeapCfg → Bytes → ℕ → Result ArenaError (List (ℕ × ℕ))
validate_index cfg index pool_len =
    let blobs = from_le (take 4 index) in
    if ltb (length index) 4
    then err (ArenaError.corrupt "blob index shorter than its header")
    else if blobs == 2 ^ 32 - 1
    then err (ArenaError.corrupt "blob count overflows the id space")
    else if not (length index == 4 + blobs * 4)
    then err (ArenaError.corrupt "blob index length mismatch")
    else if ltb cfg.max_bytes pool_len
    then err (ArenaError.corrupt "blob pool exceeds the configured ceiling")
    else read_lens cfg pool_len blobs (drop 4 index) 0 []

unfoldable pub load : BlobHeapCfg → Bytes → Bytes → Result ArenaError BlobHeap
load cfg index pool = do
  rebuilt ← validate_index cfg index (length pool)
  ok (record { base = []; tail = pool; index = rebuilt; cfg = cfg })

-- `load_overlay` is this function under another name.
unfoldable pub load_borrowed : BlobHeapCfg → Bytes → Bytes → Result ArenaError BlobHeap
load_borrowed cfg index pool = do
  rebuilt ← validate_index cfg index (length pool)
  ok (record { base = pool; tail = []; index = rebuilt; cfg = cfg })

pub record BlobHeapBuilder : Type 0 where
  pub lens : List ℕ
  pub pool_len : ℕ
  pub cfg : BlobHeapCfg

abbrev pub new_builder : BlobHeapCfg → BlobHeapBuilder
new_builder cfg = record { lens = []; pool_len = 0; cfg = cfg }

unfoldable pub push_len : BlobHeapBuilder → ℕ → Result ArenaError (ℕ × BlobHeapBuilder)
push_len b len =
    let full = ArenaError.capacity_exceeded b.cfg.max_bytes in
    if ltb b.cfg.max_blob len then err (ArenaError.blob_too_large len b.cfg.max_blob) else do
      end ← ok_or (checked_add b.pool_len len) full
      if ltb b.cfg.max_bytes end then err full else do
        id ← ok_or (blob_id (length b.lens)) full
        ok (id, record b { lens = b.lens ++ (len % 2 ^ 32 ∷ []); pool_len = end })

unfoldable pub put_each : List ℕ → Bytes
put_each [] = []
put_each (len ∷ lens) = to_le 4 len ++ put_each lens

unfoldable pub builder_dump_index : BlobHeapBuilder → Bytes
builder_dump_index b = to_le 4 (length b.lens % 2 ^ 32) ++ put_each b.lens
