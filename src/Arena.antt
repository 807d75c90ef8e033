-- ===== src/Arena.antt =====
-- crates/plugmem-arena/src/arena.rs and slot.rs: slots of a fixed size, kept in key order in chains of pages
-- that shards own, with a directory of the pages' first keys. The state, the shard function, the directory
-- and the allocation of pages; the counters of a measuring build are left out.

pub mod Find
pub mod Edit
pub mod Scan
pub mod Image
pub mod Bisect
pub mod Cover
pub mod Shards
pub mod Slots
pub mod PageSet
pub mod PageRemove
pub mod Loads
pub mod Accept
pub mod Header
pub mod Loaded
mod Tests
use plugmem.Base.{
  ℕ, zero, suc, ◌+◌, ◌-◌, ◌*◌, ◌/◌, ◌%◌, ◌^◌, List, [], ◌∷◌, ◌++◌, length, take, drop, map,
}
use plugmem.Base.{
  Option, none, some, get_elem?, ltb, leb, ◌==◌, if◌then◌else◌, not, ◌&&◌, ◌||◌, Bool, true, false,
}
use plugmem.Base.{Result, ok, err}
use plugmem.Base.Bytes.{Bytes, from_be}
use plugmem.Base.Outcomes.{Outcome, returned, panicked, ran_out, ◌>>=◌, lift}
unfoldable pub use plugmem.Base.Slices.{window}
use plugmem.Errors.{ArenaError, none_id}
use plugmem.Paged.{Paged, owned_empty, len, page_of, page_mut, grow_tail, replicate, set}
use Prim.Native.Nat.{min}

-- The constants of `trait Slot`. A slot is the bytes that `write` puts into a buffer of `size` zeroes.
pub record Slot : Type 0 where
  pub size : ℕ
  pub key_len : ℕ

abbrev pub page_bytes : ℕ
page_bytes = 4096

abbrev pub dir_key_bytes : ℕ
dir_key_bytes = 16

-- `FIB`, 2^64 over the golden ratio.
abbrev pub fib : ℕ
fib = 11400714819323198485

pub data ShardMode : Type 0 where
  uniform : ShardMode
  ordered : ShardMode

pub record ArenaCfg : Type 0 where
  pub shards : ℕ
  pub max_bytes : ℕ
  pub mode : ShardMode

pub record PageEntry : Type 0 where
  pub key : Bytes
  pub page : ℕ

-- `PageEntry::pending`: the first key is filled in later.
unfoldable pub pending : ℕ → PageEntry
pending page = record { key = replicate dir_key_bytes 0; page = page }

pub record Target : Type 0 where
  pub prev : ℕ
  pub page : ℕ
  pub at : ℕ

pub record Arena : Type 0 where
  pub pool : Paged
  pub heads : List ℕ
  pub next : List ℕ
  pub prev : List ℕ
  pub counts : List ℕ
  pub tails : List ℕ
  pub dir : List PageEntry
  pub dir_at : List ℕ
  pub free_head : ℕ
  pub total : ℕ
  pub cfg : ArenaCfg

-- `usize::is_power_of_two` and `usize::trailing_zeros` of a number that is one, at 64 bits.
unfoldable pub log2_below : ℕ → ℕ → Option ℕ
log2_below zero n = none
log2_below (suc k) n = if n == 2 ^ k then some k else log2_below k n

unfoldable pub log2 : ℕ → Option ℕ
log2 n = log2_below 64 n

unfoldable pub is_power_of_two : ℕ → Bool
is_power_of_two n = elim (log2 n) [ none ↦ false | some k ↦ true ]

unfoldable pub bad_slot : Slot → Bool
bad_slot T = T.size == 0 || (ltb page_bytes T.size || (T.key_len == 0 || ltb T.size T.key_len))

unfoldable pub new : Slot → ArenaCfg → Result ArenaError Arena
new T cfg =
    if bad_slot T
    then err (ArenaError.bad_slot T.size T.key_len)
    else if cfg.shards == 0 || not (is_power_of_two cfg.shards)
    then err (ArenaError.bad_shard_count cfg.shards)
    else ok (record {
      pool = owned_empty;
      heads = replicate cfg.shards none_id;
      next = [];
      prev = [];
      counts = [];
      tails = replicate cfg.shards none_id;
      dir = [];
      dir_at = replicate (cfg.shards + 1) 0;
      free_head = none_id;
      total = 0;
      cfg = cfg;
    })

unfoldable pub slots_per_page : Slot → ℕ
slots_per_page T = page_bytes / T.size

-- The first eight bytes of a key, padded with zeroes, as a big-endian number.
unfoldable pub key_word : Bytes → ℕ
key_word key = let n : ℕ = min (length key) 8 in from_be (take n key ++ replicate (8 - n) 0)

unfoldable pub hash : ShardMode → ℕ → ℕ
hash ShardMode.ordered v = v
hash ShardMode.uniform v = v * fib % 2 ^ 64

-- `bits` is the logarithm of the shard count; a count that is no power of two is no configuration of an
-- arena, since `new` refuses it.
unfoldable pub shard_at : ShardMode → Option ℕ → Bytes → ℕ
shard_at mode none key = 0
shard_at mode (some zero) key = 0
shard_at mode (some (suc b)) key = hash mode (key_word key) / 2 ^ (64 - suc b)

unfoldable pub shard_of : ArenaCfg → Bytes → ℕ
shard_of cfg key = shard_at cfg.mode (log2 cfg.shards) key

unfoldable pub page_at : Arena → ℕ → Outcome Bytes
page_at a page = lift (page_of page_bytes a.pool page)

unfoldable pub first_key : Slot → Arena → ℕ → Outcome Bytes
first_key T a page = do bytes ← page_at a page; window 0 T.key_len bytes

unfoldable pub dir_run : Arena → ℕ → Outcome (ℕ × ℕ)
dir_run a shard = do
  lo ← lift (get_elem? a.dir_at shard)
  hi ← lift (get_elem? a.dir_at (shard + 1))
  returned (lo, hi)

-- `for start in &mut self.dir_at[from..]`
unfoldable pub each_from : ℕ → (ℕ → ℕ) → List ℕ → Outcome (List ℕ)
each_from from f starts =
    if leb from (length starts)
    then returned (take from starts ++ map f (drop from starts))
    else panicked

-- `Vec::insert` and `Vec::remove`
unfoldable pub insert_at : {A : Type 0} → ℕ → A → List A → Outcome (List A)
insert_at at x v = if leb at (length v) then returned (take at v ++ (x ∷ drop at v)) else panicked

unfoldable pub remove_at : {A : Type 0} → ℕ → List A → Outcome (List A)
remove_at at v = if ltb at (length v) then returned (take at v ++ drop (at + 1) v) else panicked

unfoldable pub dir_insert : Arena → ℕ → ℕ → ℕ → Outcome Arena
dir_insert a shard at page = do
  dir ← insert_at at (pending page) a.dir
  starts ← each_from (shard + 1) (λ start. (start + 1) % 2 ^ 32) a.dir_at
  returned (record a { dir = dir; dir_at = starts })

-- The starts behind a shard that owns a page are positive.
unfoldable pub dir_remove : Arena → ℕ → ℕ → Outcome Arena
dir_remove a shard at = do
  dir ← remove_at at a.dir
  starts ← each_from (shard + 1) (λ start. start - 1) a.dir_at
  returned (record a { dir = dir; dir_at = starts })

-- The cached part of a first key, in a `[u8; 16]`.
unfoldable pub cached_key : Slot → Bytes → Bytes
cached_key T first =
    let n : ℕ = min T.key_len dir_key_bytes in take n first ++ replicate (dir_key_bytes - n) 0

unfoldable pub refresh_dir_key : Slot → Arena → ℕ → Outcome Arena
refresh_dir_key T a at = do
  entry ← lift (get_elem? a.dir at)
  first ← first_key T a entry.page
  returned
      (record a { dir = set a.dir at (record { key = cached_key T first; page = entry.page }) })

-- `v[i] = x`
unfoldable pub put : {A : Type 0} → List A → ℕ → A → Outcome (List A)
put v i x = if ltb i (length v) then returned (set v i x) else panicked

-- The head of the free-list.
unfoldable pub reuse_page : Arena → Outcome (Arena × Result ArenaError ℕ)
reuse_page a = do
  successor ← lift (get_elem? a.next a.free_head)
  next ← put a.next a.free_head none_id
  prev ← put a.prev a.free_head none_id
  counts ← put a.counts a.free_head 0
  returned (
    record a { free_head = successor; next = next; prev = prev; counts = counts },
    ok a.free_head,
  )

-- The bytes of a new page are not initialised: `stale` is what the memory holds.
unfoldable pub new_page : Bytes → Arena → Arena × Result ArenaError ℕ
new_page stale a =
    if ltb a.cfg.max_bytes (len a.pool + page_bytes)
    then (a, err (ArenaError.capacity_exceeded a.cfg.max_bytes))
    else (
      record a {
        pool = grow_tail a.pool stale;
        next = a.next ++ (none_id ∷ []);
        prev = a.prev ++ (none_id ∷ []);
        counts = a.counts ++ (0 ∷ []);
      },
      ok (len a.pool / page_bytes % 2 ^ 32),
    )

unfoldable pub alloc_page : Bytes → Arena → Outcome (Arena × Result ArenaError ℕ)
alloc_page stale a =
    if not (a.free_head == none_id) then reuse_page a else returned (new_page stale a)
