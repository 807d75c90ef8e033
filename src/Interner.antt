-- ===== src/Interner.antt =====
-- crates/plugmem-arena/src/interner.rs: strings stored once, found through an open-addressing table. The
-- hash xxh3_64 of the crate xxhash_rust is a parameter. A loop runs on fuel, and `Outcome` tells a return
-- from a panic and from fuel that ran out. The probe counters of a test feature are left out. An error of
-- `intern` carries no state: a table that was doubled before the heap refused the string is not returned.
pub mod Table
pub mod Probe
pub mod Lookup
mod Tests
use plugmem.Base.Outcomes.{Outcome, returned, panicked, ran_out}
use Prim.Native.Nat.{Ordering}
use plugmem.Base.{ℕ, zero, suc, ◌+◌, ◌-◌, ◌*◌, ◌%◌, ◌^◌, List, [], ◌∷◌, ◌++◌, length, take, drop}
use plugmem.Base.{
  Option, none, some, get_elem?, ltb, ◌==◌, if◌then◌else◌, not, ◌||◌, ◌&&◌, Bool, true, false,
}
use plugmem.Base.{Result, ok, err, ◌>>=◌, bit_and}
use plugmem.Base.Bytes.{Bytes, to_le, from_le}
use plugmem.Base.Order.{cmp_bytes}
use plugmem.Base.Utf8.{is_utf8}
use plugmem.Errors.{ArenaError}
use plugmem.Paged.{replicate, set}
use plugmem.Blob.{BlobHeapCfg, BlobHeap}
use plugmem.Blob

abbrev pub initial_slots : ℕ
initial_slots = 16

abbrev pub load_num : ℕ
load_num = 7

abbrev pub load_den : ℕ
load_den = 10

pub record Interner : Type 0 where
  pub heap : BlobHeap
  pub table : List ℕ
  pub len : ℕ

unfoldable pub new : BlobHeapCfg → Interner
new cfg = record { heap = Blob.new cfg; table = replicate initial_slots 0; len = 0 }

-- `==` on slices.
unfoldable pub same_bytes : Bytes → Bytes → Bool
same_bytes a b = elim (cmp_bytes a b) [
  | Ordering.lt ↦ false
  | Ordering.eq ↦ true
  | Ordering.gt ↦ false
]

-- What a probe finds: an empty slot, the string's id, or neither yet.
pub data Found : Type 0 where
  empty_at : ℕ → Found
  known : ℕ → Found

-- One inspection of a slot, and the rest of the loop.
unfoldable pub inspect : BlobHeap → Bytes → ℕ → Option ℕ → Outcome Found → Outcome Found
inspect heap bytes idx none rest = panicked
inspect heap bytes idx (some zero) rest = returned (empty_at idx)
inspect heap bytes idx (some (suc id)) rest = elim (Blob.get heap id) [
  | none ↦ panicked
  | some stored ↦ if same_bytes stored bytes then returned (known id) else rest
]

-- The loop that `intern` and `lookup` share, up to what they do at its end.
unfoldable pub probe : BlobHeap → List ℕ → Bytes → ℕ → ℕ → Outcome Found
probe heap table bytes zero idx = ran_out
probe heap table bytes (suc fuel) idx =
    inspect heap bytes idx (get_elem? table idx)
      (probe heap table bytes fuel (bit_and (idx + 1) (length table - 1)))

unfoldable pub lookup_found : Found → Option ℕ
lookup_found (empty_at idx) = none
lookup_found (known id) = some id

-- `while table[idx] != 0` of `rehash`.
unfoldable pub find_empty : List ℕ → ℕ → ℕ → Option ℕ
find_empty table zero idx = none
find_empty table (suc fuel) idx =
    let more = find_empty table fuel (bit_and (idx + 1) (length table - 1)) in
    elim (get_elem? table idx) [ none ↦ none | some zero ↦ some idx | some (suc id) ↦ more ]

-- The end of `intern`: a new string is pushed, and its entry takes the empty slot.
unfoldable pub intern_found : Interner → Bytes → Found → Result ArenaError (ℕ × Interner)
intern_found t bytes (known id) = ok (id, t)
intern_found t bytes (empty_at idx) = do
  (id, heap) ← Blob.push t.heap bytes
  ok (id, record { heap = heap; table = set t.table idx (id + 1); len = (t.len + 1) % 2 ^ 32 })

module _ (xxh3_64 : Bytes → ℕ) where
  unfoldable pub start : List ℕ → Bytes → ℕ
  start table bytes = bit_and (xxh3_64 bytes) (length table - 1)

  unfoldable pub lookup : Interner → Bytes → Outcome (Option ℕ)
  lookup t bytes = elim (probe t.heap t.table bytes (length t.table) (start t.table bytes)) [
    | returned f ↦ returned (lookup_found f)
    | panicked ↦ panicked
    | ran_out ↦ ran_out
  ]

  -- An entry is hung into the new table.
  unfoldable pub reinsert : BlobHeap → List ℕ → ℕ → Option (List ℕ)
  reinsert heap table zero = some table
  reinsert heap table (suc id) = elim (Blob.get heap id) [
    | none ↦ none
    | some stored ↦ elim (find_empty table (length table) (start table stored)) [
      | none ↦ none
      | some idx ↦ some (set table idx (suc id))
    ]
  ]

  unfoldable pub reinsert_all : BlobHeap → List ℕ → List ℕ → Option (List ℕ)
  reinsert_all heap table [] = some table
  reinsert_all heap table (e ∷ es) = elim (reinsert heap table e) [
    | none ↦ none
    | some after ↦ reinsert_all heap after es
  ]

  unfoldable pub rehash : Interner → Option Interner
  rehash t = elim (reinsert_all t.heap (replicate (length t.table * 2) 0) t.table) [
    | none ↦ none
    | some table ↦ some (record t { table = table })
  ]

  unfoldable pub intern_grown : Interner → Bytes → Outcome (Result ArenaError (ℕ × Interner))
  intern_grown t bytes = elim (probe t.heap t.table bytes (length t.table) (start t.table bytes)) [
    | returned f ↦ returned (intern_found t bytes f)
    | panicked ↦ panicked
    | ran_out ↦ ran_out
  ]

  -- A table that would be too full is doubled first. A `rehash` that comes to nothing is a panic or an
  -- endless search.
  unfoldable pub intern : Interner → Bytes → Outcome (Result ArenaError (ℕ × Interner))
  intern t bytes =
      if ltb (length t.table * load_num) ((t.len + 1) * load_den)
      then elim (rehash t) [ none ↦ panicked | some grown ↦ intern_grown grown bytes ]
      else intern_grown t bytes

unfoldable pub resolve : Interner → ℕ → Option Bytes
resolve t id = elim (Blob.get t.heap id) [
  | none ↦ none
  | some bytes ↦ if is_utf8 bytes then some bytes else none
]
