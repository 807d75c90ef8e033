-- ===== src/Interner/Table.antt =====
-- The dumped table of crates/plugmem-arena/src/interner.rs, and its validation on load.
use plugmem.Base.{ℕ, zero, suc, ◌+◌, ◌-◌, ◌*◌, ◌%◌, ◌^◌, List, [], ◌∷◌, ◌++◌, length, take, drop}
use plugmem.Base.{
  Option, none, some, get_elem?, ltb, ◌==◌, if◌then◌else◌, not, ◌||◌, ◌&&◌, Bool, true, false,
}
use plugmem.Base.{Result, ok, err, ◌>>=◌, bit_and}
use plugmem.Base.Bytes.{Bytes, to_le, from_le}
use plugmem.Base.Utf8.{is_utf8}
use plugmem.Errors.{ArenaError}
use plugmem.Paged.{replicate, set}
use plugmem.Blob.{BlobHeapCfg, BlobHeap}
use plugmem.Blob
use plugmem.Interner.{Interner, initial_slots, load_num, load_den}

unfoldable pub put_entries : List ℕ → Bytes
put_entries [] = []
put_entries (e ∷ es) = to_le 4 e ++ put_entries es

unfoldable pub dump_table : Interner → Bytes
dump_table t = to_le 4 (length t.table % 2 ^ 32) ++ (to_le 4 t.len ++ put_entries t.table)

-- `for (_, blob) in heap.iter()`, from id `id` on; a blob that cannot be sliced is a panic.
unfoldable pub all_utf8 : BlobHeap → ℕ → ℕ → Option Bool
all_utf8 heap zero id = some true
all_utf8 heap (suc n) id =
    let rest = all_utf8 heap n (id + 1) in
    elim (Blob.get heap id) [ none ↦ none | some blob ↦ if is_utf8 blob then rest else some false ]

-- `slots.is_power_of_two()`
unfoldable pub is_power_of_two : ℕ → Bool
is_power_of_two n = not (n == 0) && (bit_and n (n - 1) == 0)

-- What an entry does to the map of ids and to the count of filled slots.
unfoldable pub see : List Bool → ℕ → ℕ → Result ArenaError (List Bool × ℕ)
see seen filled zero = ok (seen, filled)
see seen filled (suc id) = elim (get_elem? seen id) [
  | none ↦ err (ArenaError.corrupt "interner table entry out of bounds")
  | some true ↦ err (ArenaError.corrupt "interner table stores an id twice")
  | some false ↦ ok (set seen id true, filled + 1)
]

-- `for i in 0..slots`, over what is left of the table's bytes.
unfoldable pub read_entries : ℕ → Bytes → List Bool → ℕ → Result ArenaError (List ℕ × ℕ)
read_entries zero rest seen filled = ok ([], filled)
read_entries (suc n) rest seen filled = do
  (after, count) ← see seen filled (from_le (take 4 rest))
  (entries, total) ← read_entries n (drop 4 rest) after count
  ok (from_le (take 4 rest) ∷ entries, total)

unfoldable pub check_filled : BlobHeap → ℕ → List ℕ × ℕ → Result ArenaError Interner
check_filled heap len (entries, filled) =
    if not (filled == len)
    then err (ArenaError.corrupt "interner table entry count disagrees with len")
    else ok (record { heap = heap; table = entries; len = len })

-- `from_heap_and_table` behind its test for UTF-8.
unfoldable pub check_table : BlobHeap → Bytes → Result ArenaError Interner
check_table heap table =
    let slots : ℕ = from_le (take 4 table) in
    let len : ℕ = from_le (take 4 (drop 4 table)) in
    if ltb (length table) 8
    then err (ArenaError.corrupt "interner table shorter than its header")
    else if ltb slots initial_slots || not (is_power_of_two slots)
    then err (ArenaError.corrupt "interner table size is not a power of two")
    else if not (length table == 8 + slots * 4)
    then err (ArenaError.corrupt "interner table length mismatch")
    else if not (len == Blob.len heap)
    then err (ArenaError.corrupt "interner length disagrees with its heap")
    else if ltb (slots * load_num) (len * load_den)
    then err (ArenaError.corrupt "interner table over the load factor")
    else do
      read ← read_entries slots (drop 8 table) (replicate (Blob.len heap) false) 0
      check_filled heap len read

-- `none` is the panic of a blob that cannot be sliced.
unfoldable pub from_heap_and_table : BlobHeap → Bytes → Option (Result ArenaError Interner)
from_heap_and_table heap table = elim (all_utf8 heap (Blob.len heap) 0) [
  | none ↦ none
  | some false ↦ some (err (ArenaError.corrupt "interned term is not valid UTF-8"))
  | some true ↦ some (check_table heap table)
]

unfoldable pub load : BlobHeapCfg → Bytes → Bytes → Bytes → Option (Result ArenaError Interner)
load cfg index pool table = elim (Blob.load cfg index pool) [
  | err e ↦ some (err e)
  | ok heap ↦ from_heap_and_table heap table
]

unfoldable pub load_borrowed :
    BlobHeapCfg → Bytes → Bytes → Bytes → Option (Result ArenaError Interner)
load_borrowed cfg index pool table = elim (Blob.load_borrowed cfg index pool) [
  | err e ↦ some (err e)
  | ok heap ↦ from_heap_and_table heap table
]
