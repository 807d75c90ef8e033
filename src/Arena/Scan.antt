-- ===== src/Arena/Scan.antt =====
-- `iter`, `range` and `range_rev`: a cursor in a chain of pages. A round of a cursor's loop either yields,
-- ends, or moves on.
use plugmem.Base.{ℕ, zero, suc, ◌+◌, ◌*◌}
use plugmem.Base.{
  Option, none, some, get_elem?, ltb, leb, ◌==◌, if◌then◌else◌, Bool, true, false, Result, ok, err,
}
use plugmem.Base.{length}
use plugmem.Base.Bytes.{Bytes}
use plugmem.Base.Order.{cmp_bytes}
use plugmem.Base.Outcomes.{Outcome, returned, panicked, ran_out, ◌>>=◌, lift}
use plugmem.Errors.{none_id}
use plugmem.Arena.{Slot, ShardMode, Target, Arena, shard_of, window, page_at}
use plugmem.Arena.Find.{search_in, find_page}
use Prim.Native.Nat.{Ordering}

-- The fields that `Iter`, `Range` and `RangeRev` share.
pub record Cursor : Type 0 where
  pub shard : ℕ
  pub page : ℕ
  pub idx : ℕ

pub data Round : Type 0 where
  yields : Bytes → Cursor → Round
  ends : Round
  moves : Cursor → Round

unfoldable pub rounds : (Cursor → Outcome Round) → ℕ → Cursor → Outcome (Option (Bytes × Cursor))
rounds step zero c = ran_out
rounds step (suc fuel) c = step c >>= λ round. elim round [
  | yields slot d ↦ returned (some (slot, d))
  | ends ↦ returned none
  | moves d ↦ rounds step fuel d
]

-- The first page of the next shard.
unfoldable pub next_shard : Arena → Cursor → Outcome Round
next_shard a c =
    if leb a.cfg.shards c.shard
    then returned ends
    else lift (get_elem? a.heads c.shard) >>= λ head.
        returned (moves (record { shard = c.shard + 1; page = head; idx = 0 }))

unfoldable pub next_page : Arena → Cursor → Outcome Round
next_page a c = lift (get_elem? a.next c.page) >>= λ page.
    returned (moves (record { shard = c.shard; page = page; idx = 0 }))

-- One round of the loops of `Iter::next` and `Range::next`, where `stops` tests the slot for the end.
unfoldable pub forward : Slot → Arena → (Bytes → Outcome Bool) → Cursor → Outcome Round
forward T a stops c =
    if c.page == none_id
    then next_shard a c
    else lift (get_elem? a.counts c.page) >>= λ count.
        if ltb c.idx count
        then page_at a c.page >>= (λ page. window (c.idx * T.size) T.size page >>= λ slot.
            stops slot >>= λ stop. returned (
              if stop
              then ends
              else yields slot (record { shard = c.shard; page = c.page; idx = c.idx + 1 })))
        else next_page a c

abbrev pub start : Cursor
start = record { shard = 0; page = none_id; idx = 0 }

unfoldable pub iter_round : Slot → Arena → Cursor → Outcome Round
iter_round T a c = forward T a (λ slot. returned false) c

-- `Iter::next`, without the count of what remains.
unfoldable pub iter_next : Slot → Arena → ℕ → Cursor → Outcome (Option (Bytes × Cursor))
iter_next T a fuel c = rounds (iter_round T a) fuel c

unfoldable pub key_of : Slot → Bytes → Outcome Bytes
key_of T slot = window 0 T.key_len slot

-- `page[..] >= *self.to`
unfoldable pub at_least : Bytes → Bytes → Bool
at_least key to = elim (cmp_bytes key to) [
  | Ordering.lt ↦ false
  | Ordering.eq ↦ true
  | Ordering.gt ↦ true
]

unfoldable pub range_round : Slot → Arena → Bytes → Cursor → Outcome Round
range_round T a to c = forward T a (λ slot. key_of T slot >>= λ key. returned (at_least key to)) c

unfoldable pub range_next : Slot → Arena → Bytes → ℕ → Cursor → Outcome (Option (Bytes × Cursor))
range_next T a to fuel c = rounds (range_round T a to) fuel c

unfoldable pub position : Result ℕ ℕ → ℕ
position (ok pos) = pos
position (err pos) = pos

unfoldable pub seek_from : Arena → ℕ → ℕ → ℕ → Outcome (ℕ × ℕ)
seek_from a page count pos =
    if ltb pos count
    then returned (page, pos)
    else lift (get_elem? a.next page) >>= λ next. returned (next, 0)

-- Where a scan that starts at `from` finds its first record.
unfoldable pub seek : Slot → Arena → Bytes → Target → Outcome (ℕ × ℕ)
seek T a from t = do
  count ← lift (get_elem? a.counts t.page)
  found ← search_in T a t.page count from
  seek_from a t.page count (position found)

unfoldable pub is_ordered : ShardMode → Bool
is_ordered ShardMode.uniform = false
is_ordered ShardMode.ordered = true

-- The assertions of both range scans.
unfoldable pub can_range : Slot → Arena → Bytes → Bytes → Bool
can_range T a from to =
    if is_ordered a.cfg.mode
    then if length from == T.key_len then length to == T.key_len else false
    else false

-- The cursor of a scan that goes on in `shard` when its first chain is done.
unfoldable pub opened : ℕ → (Target → Outcome (ℕ × ℕ)) → Option Target → Outcome Cursor
opened shard look none = returned (record { shard = shard; page = none_id; idx = 0 })
opened shard look (some t) =
    look t >>= λ spot. returned (record { shard = shard; page = spot.0; idx = spot.1 })

unfoldable pub range : Slot → Arena → Bytes → Bytes → Outcome Cursor
range T a from to =
    if can_range T a from to
    then find_page T a (shard_of a.cfg from) from
      >>= (λ found. opened (shard_of a.cfg from + 1) (seek T a from) found)
    else panicked

-- The index behind the last record of a page.
unfoldable pub end_of : Arena → ℕ → Outcome ℕ
end_of a page = if page == none_id then returned 0 else lift (get_elem? a.counts page)

unfoldable pub seek_below : Arena → ℕ → ℕ → Outcome (ℕ × ℕ)
seek_below a page pos =
    if ltb 0 pos
    then returned (page, pos)
    else lift (get_elem? a.prev page) >>= λ back. end_of a back >>= λ idx. returned (back, idx)

-- Where a reverse scan that starts below `to` finds its first record, behind it.
unfoldable pub seek_rev : Slot → Arena → Bytes → Target → Outcome (ℕ × ℕ)
seek_rev T a to t = do
  count ← lift (get_elem? a.counts t.page)
  found ← search_in T a t.page count to
  seek_below a t.page (position found)

unfoldable pub range_rev : Slot → Arena → Bytes → Bytes → Outcome Cursor
range_rev T a from to =
    if can_range T a from to
    then if at_least from to
      then returned (record { shard = 0; page = none_id; idx = 0 })
      else find_page T a (shard_of a.cfg to) to
        >>= (λ found. opened (shard_of a.cfg to) (seek_rev T a to) found)
    else panicked

unfoldable pub to_page : Arena → ℕ → ℕ → Outcome Round
to_page a shard page =
    end_of a page >>= λ idx. returned (moves (record { shard = shard; page = page; idx = idx }))

-- One round of the loop of `RangeRev::next`.
unfoldable pub backward : Slot → Arena → Bytes → Cursor → Outcome Round
backward T a from c =
    if c.page == none_id
    then elim c.shard [
      | zero ↦ returned ends
      | suc s ↦ lift (get_elem? a.tails s) >>= λ tail. to_page a s tail
    ]
    else elim c.idx [
      | zero ↦ lift (get_elem? a.prev c.page) >>= λ page. to_page a c.shard page
      | suc i ↦ page_at a c.page >>= λ page. window (i * T.size) T.size page >>= λ slot.
          key_of T slot >>= λ key. returned (
            if at_least key from
            then yields slot (record { shard = c.shard; page = c.page; idx = i })
            else ends)
    ]

unfoldable pub range_rev_next :
    Slot → Arena → Bytes → ℕ → Cursor → Outcome (Option (Bytes × Cursor))
range_rev_next T a from fuel c = rounds (backward T a from) fuel c
