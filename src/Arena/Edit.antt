-- ===== src/Arena/Edit.antt =====
-- `insert_bytes` with its page splits, and `remove`. The memory that a new page gets is `stale`.
use plugmem.Base.{ℕ, ◌+◌, ◌-◌, ◌*◌, ◌/◌, ◌%◌, ◌^◌, ◌++◌, length, take, drop}
use plugmem.Base.{
  none, some, get_elem?, leb, ◌==◌, if◌then◌else◌, Bool, true, false, Result, ok, err,
}
use plugmem.Base.Bytes.{Bytes}
use plugmem.Base.Outcomes.{Outcome, returned, panicked, ◌>>=◌, lift}
use plugmem.Errors.{ArenaError, none_id}
use plugmem.Paged.{page_mut}
use plugmem.Arena.{
  Slot, Target, Arena, page_bytes, shard_of, slots_per_page, window, page_at, put, alloc_page,
  dir_insert, dir_remove, refresh_dir_key,
}
use plugmem.Arena.Find.{search_in, find_page}

-- `copy_within` to open a gap at `start`, and the slot copied into it: the used bytes end at `used`.
unfoldable pub insert_slot : ℕ → ℕ → Bytes → Bytes → Bytes
insert_slot start used slot page =
    take start page
    ++ (slot ++ (take (used - start) (drop start page) ++ drop (used + length slot) page))

-- `copy_within` over the slot of `size` bytes at `start`.
unfoldable pub remove_slot : ℕ → ℕ → ℕ → Bytes → Bytes
remove_slot start used size page =
    take start page
    ++ (take (used - (start + size)) (drop (start + size) page) ++ drop (used - size) page)

unfoldable pub move_slots : Arena → ℕ → ℕ → ℕ → ℕ → Outcome Arena
move_slots a src_page src_off dst_page len = do
  src ← page_at a src_page
  buf ← window src_off len src
  pool ← lift (page_mut page_bytes a.pool dst_page λ page. buf ++ drop len page)
  returned (record a { pool = pool })

unfoldable pub set_next : Arena → ℕ → ℕ → Outcome Arena
set_next a page to = put a.next page to >>= λ next. returned (record a { next = next })

unfoldable pub set_prev : Arena → ℕ → ℕ → Outcome Arena
set_prev a page to = put a.prev page to >>= λ prev. returned (record a { prev = prev })

unfoldable pub set_head : Arena → ℕ → ℕ → Outcome Arena
set_head a shard to = put a.heads shard to >>= λ heads. returned (record a { heads = heads })

unfoldable pub set_tail : Arena → ℕ → ℕ → Outcome Arena
set_tail a shard to = put a.tails shard to >>= λ tails. returned (record a { tails = tails })

unfoldable pub set_count : Arena → ℕ → ℕ → Outcome Arena
set_count a page to = put a.counts page to >>= λ counts. returned (record a { counts = counts })

-- The page behind a link, or the end of the shard's chain, is told of its new predecessor.
unfoldable pub set_back : Arena → ℕ → ℕ → ℕ → Outcome Arena
set_back a shard successor to =
    if successor == none_id then set_tail a shard to else set_prev a successor to

-- A fresh page, linked right behind the page.
unfoldable pub link_after : Arena → ℕ → ℕ → ℕ → ℕ → Outcome Arena
link_after a shard at page fresh = do
  successor ← lift (get_elem? a.next page)
  b ← set_next a fresh successor
  c ← set_prev b fresh page
  d ← set_next c page fresh
  e ← set_back d shard successor fresh
  dir_insert e shard (at + 1) fresh

-- Where the next record goes: the page, the position in it, and its count.
abbrev pub Place : Type 0
Place = ℕ × ℕ × ℕ

unfoldable pub share_out : Slot → Arena → ℕ → ℕ → ℕ → ℕ → ℕ → ℕ → Outcome Arena
share_out T a at page fresh from left moved = do
  b ← move_slots a page (from * T.size) fresh (moved * T.size)
  c ← set_count b page (left % 2 ^ 16)
  d ← set_count c fresh (moved % 2 ^ 16)
  refresh_dir_key T d (at + 1)

unfoldable pub split_linked : Slot → Arena → ℕ → ℕ → ℕ → ℕ → Outcome (Arena × Place)
split_linked T a at page fresh pos =
    let spp : ℕ = slots_per_page T in
    let half : ℕ = spp / 2 in
    let moved : ℕ = spp - half in
    if pos == spp
    then returned (a, (fresh, 0, 0))
    else if spp == 1
    then share_out T a at page fresh 0 0 1 >>= (λ b. returned (b, (page, 0, 0)))
    else share_out T a at page fresh half half moved >>= λ b.
        returned (b, if leb pos half then (page, pos, half) else (fresh, pos - half, moved))

unfoldable pub split : Slot → Bytes → Arena → ℕ → ℕ → ℕ → Outcome (Arena × Result ArenaError Place)
split T stale a shard at pos = lift (get_elem? a.dir at) >>= λ entry.
    alloc_page stale a >>= λ allocated. elim allocated.1 [
      | err e ↦ returned (allocated.0, err e)
      | ok fresh ↦ link_after allocated.0 shard at entry.page fresh >>= λ linked.
          split_linked T linked at entry.page fresh pos >>= λ done. returned (done.0, ok done.1)
    ]

-- The end of `insert_bytes`: the bytes, the counts, and the directory where the first key changed.
unfoldable pub write_slot : Slot → Arena → ℕ → ℕ → ℕ → ℕ → Bytes → Outcome Arena
write_slot T a at page pos count slot = do
  pool ← lift (page_mut page_bytes a.pool page (insert_slot (pos * T.size) (count * T.size) slot))
  old ← lift (get_elem? a.counts page)
  counts ← put a.counts page ((old + 1) % 2 ^ 16)
  let b : Arena = record a { pool = pool; counts = counts; total = a.total + 1 }
  if pos == 0 then refresh_dir_key T b at else returned b

unfoldable pub make_room :
    Slot → Bytes → Arena → ℕ → ℕ → ℕ → ℕ → ℕ → Outcome (Arena × Result ArenaError Place)
make_room T stale a shard at page pos count =
    if count == slots_per_page T
    then split T stale a shard at pos
    else returned (a, ok (page, pos, count))

-- The directory entry of the page that a split left the record to.
unfoldable pub entry_of : Arena → ℕ → ℕ → Outcome ℕ
entry_of a at page =
    lift (get_elem? a.dir at) >>= λ entry. returned (if entry.page == page then at else at + 1)

unfoldable pub insert_absent :
    Slot → Bytes → Arena → ℕ → Target → ℕ → ℕ → Bytes → Outcome (Arena × Result ArenaError Bool)
insert_absent T stale a shard t count pos slot =
    make_room T stale a shard t.at t.page pos count >>= λ room. elim room.1 [
      | err e ↦ returned (room.0, err e)
      | ok place ↦ entry_of room.0 t.at place.0 >>= λ at.
          write_slot T room.0 at place.0 place.1 place.2 slot >>= λ b. returned (b, ok true)
    ]

unfoldable pub insert_in :
    Slot → Bytes → Arena → ℕ → Bytes → Bytes → Target → Outcome (Arena × Result ArenaError Bool)
insert_in T stale a shard key slot t = do
  count ← lift (get_elem? a.counts t.page)
  found ← search_in T a t.page count key
  elim found [
    | ok pos ↦ returned (a, ok false)
    | err pos ↦ insert_absent T stale a shard t count pos slot
  ]

-- The first page of a shard.
unfoldable pub open_shard : Arena → ℕ → ℕ → Outcome (Arena × Target)
open_shard a shard page = do
  b ← set_head a shard page
  c ← set_tail b shard page
  at ← lift (get_elem? c.dir_at shard)
  d ← dir_insert c shard at page
  returned (d, record { prev = none_id; page = page; at = at })

unfoldable pub insert_bytes :
    Slot → Bytes → Arena → Bytes → Outcome (Arena × Result ArenaError Bool)
insert_bytes T stale a slot = do
  key ← window 0 T.key_len slot
  found ← find_page T a (shard_of a.cfg key) key
  elim found [
    | some t ↦ insert_in T stale a (shard_of a.cfg key) key slot t
    | none ↦ alloc_page stale a >>= λ allocated. elim allocated.1 [
      | err e ↦ returned (allocated.0, err e)
      | ok page ↦ open_shard allocated.0 (shard_of a.cfg key) page >>= λ opened.
          insert_in T stale opened.0 (shard_of a.cfg key) key slot opened.1
    ]
  ]

-- A page that its last record left goes to the free-list.
unfoldable pub unlink_page : Arena → ℕ → Target → Outcome Arena
unlink_page a shard t = do
  successor ← lift (get_elem? a.next t.page)
  b ← (if t.prev == none_id then set_head a shard successor else set_next a t.prev successor)
  c ← set_back b shard successor t.prev
  d ← set_next c t.page c.free_head
  e ← set_prev d t.page none_id
  dir_remove (record e { free_head = t.page }) shard t.at

unfoldable pub after_remove : Slot → Arena → ℕ → Target → ℕ → ℕ → Outcome Arena
after_remove T a shard t pos count =
    if count == 0
    then unlink_page a shard t
    else if pos == 0
    then refresh_dir_key T a t.at
    else returned a

-- A found record makes the counts positive.
unfoldable pub remove_found : Slot → Arena → ℕ → Target → ℕ → ℕ → Outcome Arena
remove_found T a shard t count pos = do
  pool ←
      lift (page_mut page_bytes a.pool t.page (remove_slot (pos * T.size) (count * T.size) T.size))
  old ← lift (get_elem? a.counts t.page)
  counts ← put a.counts t.page (old - 1)
  let b : Arena = record a { pool = pool; counts = counts; total = a.total - 1 }
  after_remove T b shard t pos (old - 1)

unfoldable pub remove_in : Slot → Arena → ℕ → Bytes → Target → Outcome (Arena × Bool)
remove_in T a shard key t = do
  count ← lift (get_elem? a.counts t.page)
  found ← search_in T a t.page count key
  elim found [
    | err pos ↦ returned (a, false)
    | ok pos ↦ remove_found T a shard t count pos >>= λ b. returned (b, true)
  ]

unfoldable pub remove : Slot → Arena → Bytes → Outcome (Arena × Bool)
remove T a key =
    if length key == T.key_len
    then find_page T a (shard_of a.cfg key) key >>= (λ found. elim found [
      | none ↦ returned (a, false)
      | some t ↦ remove_in T a (shard_of a.cfg key) key t
    ])
    else panicked
