-- ===== src/Arena/Slots.antt =====
-- A page as a set of slots: what the copies of `insert_bytes` and `remove` do to it.
use plugmem.Base.{ℕ, suc, ◌+◌, ◌-◌, ◌*◌, ◌≤◌, ◌<◌, ◌≡◌, refl, arith}
use plugmem.Base.{
  ◌++◌, length, take, drop, length-take, length-drop, drop-append_ge, drop-drop, drop_front,
  take_front, take-take,
}
use plugmem.Base.Bytes.{Bytes}
use plugmem.Paged.Slices.{window_left}
use plugmem.Arena.{Slot}
use plugmem.Arena.Edit.{insert_slot, remove_slot}
use plugmem.Arena.Bisect.{key_at}

-- The windows of a page with a gap opened and filled.
module _ (start used : ℕ) (slot page : Bytes) (inside : start ≤ used)
    (room : used ≤ length page) where
  length-front : length (take start page) ≡ start
  length-front = omega (arith, length-take start page)

  pub insert_before :
      (n q : ℕ)
      → q + n ≤ start
      → take n (drop q (insert_slot start used slot page)) ≡ take n (drop q page)
  unfolding insert_slot
  insert_before n q h =
      window_left start n q page
        (slot ++ (take (used - start) (drop start page) ++ drop (used + length slot) page)) h
        (omega arith)

  pub insert_here :
      (n : ℕ) → length slot ≡ n → take n (drop start (insert_slot start used slot page)) ≡ slot
  unfolding insert_slot
  insert_here n h =
      rw
        (drop_front start (take start page)
          (slot ++ (take (used - start) (drop start page) ++ drop (used + length slot) page))
          length-front)
        (take_front n slot (take (used - start) (drop start page) ++ drop (used + length slot) page)
          h)

  pub insert_behind :
      (n q : ℕ)
      → start ≤ q
      → q + n ≤ used
      → take n (drop (q + length slot) (insert_slot start used slot page)) ≡ take n (drop q page)
  unfolding insert_slot
  insert_behind n q h inner =
      let rest : Bytes = drop (used + length slot) page in
      let moved : Bytes = take (used - start) (drop start page) in
      let e : q + length slot - length (take start page) - length slot ≡ q - start =
        omega (arith, length-front) in
      let back : start + (q - start) ≡ q = omega arith in
      rw
        (
          drop-append_ge (q + length slot) (take start page) (slot ++ (moved ++ rest))
              (omega (arith, length-front)),
          drop-append_ge (q + length slot - length (take start page)) slot (moved ++ rest)
              (omega (arith, length-front)),
          e,
          window_left (used - start) n (q - start) (drop start page) rest (omega arith)
              (omega (arith, length-drop start page)),
          drop-drop (q - start) start page,
          back,
        )
        refl

-- The windows of a page with a gap closed.
module _ (start used size : ℕ) (page : Bytes) (inside : start + size ≤ used)
    (room : used ≤ length page) where
  pub remove_before :
      (n q : ℕ)
      → q + n ≤ start
      → take n (drop q (remove_slot start used size page)) ≡ take n (drop q page)
  unfolding remove_slot
  remove_before n q h =
      window_left start n q page
        (take (used - (start + size)) (drop (start + size) page) ++ drop (used - size) page) h
        (omega arith)

  pub remove_behind :
      (n q : ℕ)
      → start ≤ q
      → q + size + n ≤ used
      → take n (drop q (remove_slot start used size page)) ≡ take n (drop (q + size) page)
  unfolding remove_slot
  remove_behind n q h inner =
      let front : length (take start page) ≡ start = omega (arith, length-take start page) in
      let moved : Bytes = take (used - (start + size)) (drop (start + size) page) in
      let e : q - length (take start page) ≡ q - start = omega (arith, front) in
      let back : start + size + (q - start) ≡ q + size = omega arith in
      rw
        (
          drop-append_ge q (take start page) (moved ++ drop (used - size) page)
              (omega (arith, front)),
          e,
          window_left (used - (start + size)) n (q - start) (drop (start + size) page)
              (drop (used - size) page) (omega arith)
              (omega (arith, length-drop (start + size) page)),
          drop-drop (q - start) (start + size) page,
          back,
        )
        refl

-- A slot of a page.
abbrev pub slot_of : Slot → Bytes → ℕ → Bytes
slot_of T page i = take T.size (drop (i * T.size) page)

-- The slot is one of the first `count` of the page.
abbrev pub Holds : Slot → Bytes → ℕ → Bytes → Type 0
Holds T page count s = (i : ℕ) × (i < count) × (slot_of T page i ≡ s)

abbrev pub key : Slot → Bytes → Bytes
key T s = take T.key_len s

pub key-slot_of :
    (T : Slot) (page : Bytes) (i : ℕ)
    → T.key_len ≤ T.size
    → key T (slot_of T page i) ≡ key_at T page i
key-slot_of T page i small = take-take T.key_len T.size (drop (i * T.size) page) small

pub times_mono : (i j n : ℕ) → i ≤ j → i * n ≤ j * n
times_mono i j n h = grind arith

pub suc_times : (i n : ℕ) → suc i * n ≡ i * n + n
suc_times i n = grind arith
