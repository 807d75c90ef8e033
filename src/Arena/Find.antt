-- ===== src/Arena/Find.antt =====
-- Finding a key: `search` in a page, `find_page` in the directory, and the reads that rest on them.
use plugmem.Base.{ℕ, zero, suc, ◌+◌, ◌-◌, ◌*◌, ◌/◌, ◌%◌, ◌++◌, length, take, drop}
use plugmem.Base.{
  Option, none, some, get_elem?, ltb, ◌==◌, if◌then◌else◌, Bool, true, false, Result, ok, err,
}
use plugmem.Base.Bytes.{Bytes}
use plugmem.Base.Order.{cmp_bytes}
use plugmem.Base.Outcomes.{Outcome, returned, panicked, ran_out, ◌>>=◌, lift}
use plugmem.Errors.{none_id}
use plugmem.Paged.{page_mut}
use plugmem.Arena.{
  Slot, PageEntry, Target, Arena, page_bytes, dir_key_bytes, shard_of, window, page_at, first_key,
  dir_run,
}
use Prim.Native.Nat.{Ordering, min}
use mathlib.Core.Option

-- The loop of `search`: the index of the key, or the one to insert it at.
unfoldable pub search_loop : Slot → Bytes → Bytes → ℕ → ℕ → ℕ → Outcome (Result ℕ ℕ)
search_loop T page key zero lo hi = ran_out
search_loop T page key (suc fuel) lo hi = elim (ltb lo hi) [
  | false ↦ returned (err lo)
  | true ↦
      let mid : ℕ = lo + (hi - lo) / 2 in
      window (mid * T.size) T.key_len page >>= λ found. elim (cmp_bytes found key) [
        | Ordering.lt ↦ search_loop T page key fuel (mid + 1) hi
        | Ordering.gt ↦ search_loop T page key fuel lo mid
        | Ordering.eq ↦ returned (ok mid)
      ]
]

unfoldable pub search : Slot → Bytes → ℕ → Bytes → Outcome (Result ℕ ℕ)
search T page count key = search_loop T page key (suc count) 0 count

unfoldable pub search_in : Slot → Arena → ℕ → ℕ → Bytes → Outcome (Result ℕ ℕ)
search_in T a page count key = do bytes ← page_at a page; search T bytes count key

-- The cached part of a first key decides; where it is equal and the keys are longer, the page does.
unfoldable pub dir_cmp : Slot → Arena → PageEntry → Bytes → Outcome Ordering
dir_cmp T a entry key =
    let n : ℕ = min T.key_len dir_key_bytes in
    elim (cmp_bytes (take n entry.key) (take n key)) [
      | Ordering.eq ↦ elim (ltb dir_key_bytes T.key_len) [
        | true ↦ first_key T a entry.page >>= λ first. returned (cmp_bytes first key)
        | false ↦ returned Ordering.eq
      ]
      | Ordering.lt ↦ returned Ordering.lt
      | Ordering.gt ↦ returned Ordering.gt
    ]

-- The loop of `find_page`: the first entry whose first key is above the key.
unfoldable pub find_loop : Slot → Arena → Bytes → ℕ → ℕ → ℕ → Outcome ℕ
find_loop T a key zero left right = ran_out
find_loop T a key (suc fuel) left right = elim (ltb left right) [
  | false ↦ returned left
  | true ↦
      let mid : ℕ = left + (right - left) / 2 in
      lift (get_elem? a.dir mid) >>= λ entry. dir_cmp T a entry key >>= λ order. elim order [
        | Ordering.lt ↦ find_loop T a key fuel (mid + 1) right
        | Ordering.eq ↦ find_loop T a key fuel (mid + 1) right
        | Ordering.gt ↦ find_loop T a key fuel left mid
      ]
]

unfoldable pub predecessor : Arena → ℕ → ℕ → Outcome ℕ
predecessor a lo at =
    if ltb lo at
    then lift (get_elem? a.dir (at - 1)) >>= (λ entry. returned entry.page)
    else returned none_id

unfoldable pub target_at : Arena → ℕ → ℕ → Outcome (Option Target)
target_at a lo at = do
  prev ← predecessor a lo at
  entry ← lift (get_elem? a.dir at)
  returned (some (record { prev = prev; page = entry.page; at = at }))

unfoldable pub find_page : Slot → Arena → ℕ → Bytes → Outcome (Option Target)
find_page T a shard key = dir_run a shard >>= λ run.
    if run.0 == run.1
    then returned none
    else find_loop T a key (suc run.1) (run.0 + 1) run.1 >>= λ left. target_at a run.0 (left - 1)

-- `locate` from the page that covers the key on.
unfoldable pub locate_in : Slot → Arena → Bytes → Target → Outcome (Option ℕ)
locate_in T a key t = do
  count ← lift (get_elem? a.counts t.page)
  found ← search_in T a t.page count key
  returned (elim found [ ok pos ↦ some (t.page * page_bytes + pos * T.size) | err pos ↦ none ])

-- The byte offset of the slot of a key.
unfoldable pub locate : Slot → Arena → Bytes → Outcome (Option ℕ)
locate T a key =
    if length key == T.key_len
    then find_page T a (shard_of a.cfg key) key
      >>= (λ found. elim found [ none ↦ returned none | some t ↦ locate_in T a key t ])
    else panicked

unfoldable pub slot_at : Slot → Arena → ℕ → Outcome Bytes
slot_at T a off = do page ← page_at a (off / page_bytes); window (off % page_bytes) T.size page

unfoldable pub get_slot : Slot → Arena → Bytes → Outcome (Option Bytes)
get_slot T a key = locate T a key >>= λ found. elim found [
  | none ↦ returned none
  | some off ↦ slot_at T a off >>= λ slot. returned (some slot)
]

-- `T::read` is the parameter.
unfoldable pub get : {A : Type 0} → Slot → (Bytes → A) → Arena → Bytes → Outcome (Option A)
get T read a key = get_slot T a key >>= λ slot. returned (Option.map read slot)

unfoldable pub contains : Slot → Arena → Bytes → Outcome Bool
contains T a key =
    locate T a key >>= λ found. returned (elim found [ none ↦ false | some off ↦ true ])

-- What the holder of the payload does to it, a function that keeps its length.
unfoldable pub payload_mut : Slot → Arena → Bytes → (Bytes → Bytes) → Outcome (Option Arena)
payload_mut T a key f = locate T a key >>= λ found. elim found [
  | none ↦ returned none
  | some off ↦
      let rel : ℕ = off % page_bytes in
      let write : Bytes → Bytes = λ page.
        take (rel + T.key_len) page
        ++ (f (take (T.size - T.key_len) (drop (rel + T.key_len) page))
            ++ drop (rel + T.size) page) in
      lift (page_mut page_bytes a.pool (off / page_bytes) write) >>= λ pool.
      returned (some (record a { pool = pool }))
]
