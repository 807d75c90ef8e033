-- ===== src/Arena/Tests.antt =====
-- An arena of two-byte slots with one-byte keys at work, and the theorems on arenas at concrete inputs.
use plugmem.Base.{
  ℕ, zero, suc, ◌*◌, ◌<◌, ◌≤◌, ◌≡◌, ◌≢◌, ◌⊎◌, ◌↔◌, refl, arith, [], ◌∷◌, ◌++◌, length, some,
  get_elem?, true, ok, err,
}
use plugmem.Base.Bytes.{Bytes}
use plugmem.Base.Order.{◌≺◌, cmp_bytes}
use plugmem.Base.Outcomes.{returned, ReturnsSuch, OkSuch}
use plugmem.Errors.{none_id}
use plugmem.Paged.{owned, replicate, page_of, slice_of}
use plugmem.Arena.{
  Slot, Arena, ArenaCfg, ShardMode, dir_run, cached_key, first_key, window, shard_of, log2,
  log2_below, is_power_of_two, page_at,
}
use plugmem.Arena.Find.{search, search_loop, find_page}
use plugmem.Arena.Edit.{insert_slot, remove_slot}
use plugmem.Arena.Bisect.{IsSortedPage, Locates, search-Locates}
use plugmem.Arena.Cover.{IsRun, Covers, find_page-Covers}
use plugmem.Arena.Shards.{shard_of_mono}
use plugmem.Arena.Slots.{Holds, key}
use plugmem.Arena.PageSet.{insert_slot-Holds}
use plugmem.Arena.PageRemove.{remove_slot-Holds}
use plugmem.Arena.Image.{load, load_overlay}
use plugmem.Arena.Loaded.{IsArena, load-Returns-IsArena}

abbrev small_slot : Slot
small_slot = record { size = 2; key_len = 1 }

abbrev three : Bytes
three = 1 ∷ 10 ∷ 3 ∷ 30 ∷ 5 ∷ 50 ∷ []

three-IsSortedPage : IsSortedPage small_slot three 3
unfolding cmp_bytes
three-IsSortedPage zero (suc zero) h k = refl
three-IsSortedPage zero (suc (suc zero)) h k = refl
three-IsSortedPage (suc zero) (suc (suc zero)) h k = refl
three-IsSortedPage i zero h k = absurd (omega arith)
three-IsSortedPage (suc i) (suc zero) h k = absurd (omega arith)
three-IsSortedPage (suc (suc i)) (suc (suc zero)) h k = absurd (omega arith)
three-IsSortedPage i (suc (suc (suc j))) h k = absurd (omega arith)

search-Locates_example :
    ReturnsSuch (Locates small_slot three 3 (4 ∷ [])) (search small_slot three 3 (4 ∷ []))
search-Locates_example =
    search-Locates small_slot three (4 ∷ []) 3 (omega arith) (omega arith) three-IsSortedPage

abbrev two : Bytes
two = 1 ∷ 10 ∷ 5 ∷ 50 ∷ 0 ∷ 0 ∷ []

two-IsSortedPage : IsSortedPage small_slot two 2
unfolding cmp_bytes
two-IsSortedPage zero (suc zero) h k = refl
two-IsSortedPage i zero h k = absurd (omega arith)
two-IsSortedPage (suc i) (suc zero) h k = absurd (omega arith)
two-IsSortedPage i (suc (suc j)) h k = absurd (omega arith)

three_is_absent : search small_slot two 2 (3 ∷ []) ≡ returned (err 1)
unfolding search search_loop window cmp_bytes
three_is_absent = refl

inserted : insert_slot 2 4 (3 ∷ 30 ∷ []) two ≡ three
unfolding insert_slot
inserted = refl

insert_slot-Holds_example :
    IsSortedPage small_slot (insert_slot (1 * 2) (2 * 2) (3 ∷ 30 ∷ []) two) 3
    × ((s : Bytes)
        → Holds small_slot (insert_slot (1 * 2) (2 * 2) (3 ∷ 30 ∷ []) two) 3 s
          ↔ ((s ≡ 3 ∷ 30 ∷ []) ⊎ Holds small_slot two 2 s))
insert_slot-Holds_example =
    insert_slot-Holds small_slot two (3 ∷ 30 ∷ []) 2 1 (omega arith) (omega arith) refl
      two-IsSortedPage three_is_absent

three_is_present : search small_slot three 3 (3 ∷ []) ≡ returned (ok 1)
unfolding search search_loop window cmp_bytes
three_is_present = refl

remove_slot-Holds_example :
    IsSortedPage small_slot (remove_slot (1 * 2) (3 * 2) 2 three) 2
    × ((s : Bytes)
        → Holds small_slot (remove_slot (1 * 2) (3 * 2) 2 three) 2 s
          ↔ (Holds small_slot three 3 s × (key small_slot s ≢ 3 ∷ [])))
remove_slot-Holds_example =
    remove_slot-Holds small_slot three (3 ∷ []) 2 1 (omega arith) (omega arith) three-IsSortedPage
      three_is_present

abbrev four_shards : ArenaCfg
four_shards = record { shards = 4; max_bytes = 16384; mode = ShardMode.ordered }

four_is_power : is_power_of_two 4 ≡ true
unfolding is_power_of_two log2 log2_below
four_is_power = refl

shard_of_mono_example :
    (shard_of four_shards (64 ∷ []) < 4)
    × ((ShardMode.ordered ≡ ShardMode.ordered)
        → 64 ∷ [] ≺ 130 ∷ []
        → shard_of four_shards (64 ∷ []) ≤ shard_of four_shards (130 ∷ []))
shard_of_mono_example =
    shard_of_mono four_shards four_is_power (64 ∷ []) (130 ∷ []) (omega arith, tt) (omega arith, tt)

-- The single shard's pages are the second and the first.
abbrev one_chain : Arena
one_chain = record {
  pool = owned (8 ∷ (replicate 4095 0 ++ (3 ∷ replicate 4095 0)));
  heads = 1 ∷ [];
  next = none_id ∷ 0 ∷ [];
  prev = 1 ∷ none_id ∷ [];
  counts = 1 ∷ 1 ∷ [];
  tails = 0 ∷ [];
  dir =
      record { key = 3 ∷ replicate 15 0; page = 1 }
      ∷ record { key = 8 ∷ replicate 15 0; page = 0 }
      ∷ [];
  dir_at = 0 ∷ 2 ∷ [];
  free_head = none_id;
  total = 2;
  cfg = record { shards = 1; max_bytes = 8192; mode = ShardMode.ordered };
}

abbrev first_of : ℕ → Bytes
first_of zero = 3 ∷ []
first_of (suc i) = 8 ∷ []

abbrev page_of_entry : ℕ → ℕ
page_of_entry zero = 1
page_of_entry (suc i) = 0

entry_known :
    (i : ℕ)
    → i < 2
    → get_elem? one_chain.dir i
      ≡ some (record { key = cached_key small_slot (first_of i); page = page_of_entry i })
unfolding cached_key replicate
entry_known zero h = refl
entry_known (suc zero) h = refl
entry_known (suc (suc i)) h = absurd (omega arith)

first_read :
    (i : ℕ) → i < 2 → first_key small_slot one_chain (page_of_entry i) ≡ returned (first_of i)
unfolding first_key page_at page_of slice_of window replicate
first_read zero h = refl
first_read (suc zero) h = refl
first_read (suc (suc i)) h = absurd (omega arith)

first_sized : (i : ℕ) → length (first_of i) ≡ 1
first_sized zero = refl
first_sized (suc i) = refl

first_sorted : (i j : ℕ) → i < j → j < 2 → first_of i ≺ first_of j
unfolding cmp_bytes
first_sorted zero (suc j) h k = refl
first_sorted (suc i) (suc zero) h k = absurd (omega arith)
first_sorted i zero h k = absurd (omega arith)
first_sorted i (suc (suc j)) h k = absurd (omega arith)

one_chain-IsRun : IsRun small_slot one_chain 0 0 2
unfolding dir_run
one_chain-IsRun = record {
  run = refl;
  ordered = omega arith;
  page = page_of_entry;
  first = first_of;
  entries = λ i l h. entry_known i h;
  reads = λ i l h. first_read i h;
  sized = first_sized;
  sorted = λ i j l h k. first_sorted i j h k;
}

find_page-Covers_example :
    ReturnsSuch
      (Covers small_slot one_chain 0 0 2 one_chain-IsRun (5 ∷ []))
      (find_page small_slot one_chain 0 (5 ∷ []))
find_page-Covers_example = find_page-Covers small_slot one_chain 0 0 2 one_chain-IsRun (5 ∷ []) refl

-- The dump of that arena: one shard of two pages, its chain from the second to the first.
abbrev dumped_meta : Bytes
dumped_meta =
    1 ∷ 0 ∷ 0 ∷ 0 ∷ 2 ∷ 0 ∷ 0 ∷ 0 ∷ 255 ∷ 255 ∷ 255 ∷ 255 ∷ 2 ∷ 0 ∷ 0 ∷ 0 ∷ 0 ∷ 0 ∷ 0 ∷ 0 ∷ 1 ∷ 0
    ∷ 0 ∷ 0 ∷ 1 ∷ 0 ∷ 0 ∷ 0 ∷ 255 ∷ 255 ∷ 255 ∷ 255 ∷ 0 ∷ 0 ∷ 0 ∷ 0 ∷ 1 ∷ 0 ∷ 1 ∷ 0 ∷ []

abbrev dumped : Bytes
dumped = 8 ∷ (replicate 4095 0 ++ (3 ∷ replicate 4095 0))

accepted :
    (a : Arena) × (load small_slot one_chain.cfg dumped_meta dumped ≡ returned (ok a))
    × (a.total ≡ 2)
unfolding plugmem.Arena.Image.mode_byte plugmem.Arena.Image.get_all plugmem.Arena.Image.any_above
    plugmem.Arena.Image.read_header plugmem.Arena.Image.read_arrays plugmem.Arena.Image.check_counts
    plugmem.Arena.Image.check_sizes plugmem.Arena.Image.check_header plugmem.Arena.Image.ascends
    plugmem.Arena.Image.visited plugmem.Arena.Image.settle_page plugmem.Arena.Image.visit_page
    plugmem.Arena.Image.walk_chain plugmem.Arena.Image.walk_shards plugmem.Arena.Image.walk_free
    plugmem.Arena.Image.all_seen plugmem.Arena.Image.assemble plugmem.Arena.Image.finish
    plugmem.Arena.Image.blank plugmem.Arena.Image.load_walks plugmem.Arena.Image.load_impl
    plugmem.Arena.Image.load plugmem.Arena.log2_below plugmem.Arena.log2
    plugmem.Arena.is_power_of_two plugmem.Arena.bad_slot plugmem.Arena.new
    plugmem.Arena.slots_per_page plugmem.Arena.shard_at plugmem.Arena.shard_of plugmem.Arena.put
    plugmem.Base.Slices.window plugmem.Base.Slices.read_le plugmem.Base.Bytes.from_le
    plugmem.Base.Order.cmp_bytes plugmem.Paged.set plugmem.Paged.replicate
    plugmem.Arena.Scan.at_least
accepted = (_, refl, refl)

load-Returns-IsArena_example :
    ReturnsSuch (OkSuch (IsArena small_slot)) (load small_slot one_chain.cfg dumped_meta dumped)
    × ReturnsSuch
        (OkSuch (IsArena small_slot))
        (load_overlay small_slot one_chain.cfg dumped_meta dumped)
load-Returns-IsArena_example = load-Returns-IsArena small_slot one_chain.cfg dumped_meta dumped
