-- ===== src/Arena/Bisect.antt =====
-- The binary search of a page, on keys in ascending order.
use plugmem.Base.{
  ℕ, zero, suc, ◌+◌, ◌-◌, ◌*◌, ◌/◌, ◌≤◌, ◌<◌, ◌≡◌, ◌⊎◌, inl, inr, refl, sym, ◌∙◌, arith,
}
use plugmem.Base.{length, take, drop, ltb, true, Result, ok, err}
use plugmem.Base.Bytes.{Bytes}
use plugmem.Base.Order.{cmp_bytes, ◌≺◌, cmp_bytes-eq, cmp_bytes-gt, ≺_trans}
use plugmem.Base.Outcomes.{returned, ReturnsSuch}
pub use plugmem.Base.Slices.{window_in}
use plugmem.Arena.{Slot}
use plugmem.Arena.Find.{search_loop, search}
use plugmem.Paged.Copy.{eq_cases, range_cases}
use Prim.Native.Nat.{Ordering}
use mathlib.Core.Path.{subst}

-- The key of a slot of a page.
abbrev pub key_at : Slot → Bytes → ℕ → Bytes
key_at T page i = take T.key_len (drop (i * T.size) page)

abbrev pub IsSortedPage : Slot → Bytes → ℕ → Type 0
IsSortedPage T page count = (i j : ℕ) → i < j → j < count → key_at T page i ≺ key_at T page j

-- What the index stands for that the search gives.
abbrev pub Locates : Slot → Bytes → ℕ → Bytes → Result ℕ ℕ → Type 0
Locates T page count key (ok pos) = (pos < count) × (key_at T page pos ≡ key)
Locates T page count key (err pos) =
    (pos ≤ count)
    × ((i : ℕ) → i < pos → key_at T page i ≺ key)
    × ((i : ℕ) → pos ≤ i → i < count → key ≺ key_at T page i)

pub orderings : (o : Ordering) → (o ≡ Ordering.lt) ⊎ ((o ≡ Ordering.eq) ⊎ (o ≡ Ordering.gt))
orderings Ordering.lt = inl refl
orderings Ordering.eq = inr (inl refl)
orderings Ordering.gt = inr (inr refl)

-- A slot below the count ends in the page.
pub slot_end : (i count size : ℕ) → i < count → i * size + size ≤ count * size
slot_end i count size h = grind arith

module _ (T : Slot) (page : Bytes) (key : Bytes) where
  search_loop-end :
      (fuel lo hi : ℕ) → hi ≤ lo → search_loop T page key (suc fuel) lo hi ≡ returned (err lo)
  unfolding search_loop
  search_loop-end fuel lo hi h = ground arith

  abbrev mid : ℕ → ℕ → ℕ
  mid lo hi = lo + (hi - lo) / 2

  search_loop-round :
      (fuel lo hi : ℕ)
      → lo < hi
      → mid lo hi * T.size + T.key_len ≤ length page
      → search_loop T page key (suc fuel) lo hi ≡ elim (cmp_bytes (key_at T page (mid lo hi)) key) [
        | Ordering.lt ↦ search_loop T page key fuel (mid lo hi + 1) hi
        | Ordering.gt ↦ search_loop T page key fuel lo (mid lo hi)
        | Ordering.eq ↦ returned (ok (mid lo hi))
      ]
  unfolding search_loop
  search_loop-round fuel lo hi h inside =
      let t : ltb lo hi ≡ true = ground arith in
      rw (search_loop, t, window_in (mid lo hi * T.size) T.key_len page inside) refl

module _ (T : Slot) (page : Bytes) (key : Bytes) (count : ℕ) (small : T.key_len ≤ T.size)
    (room : count * T.size ≤ length page) (sorted : IsSortedPage T page count) where
  below_mid : (m : ℕ) → m < count → key_at T page m ≺ key → (i : ℕ) → i ≤ m → key_at T page i ≺ key
  below_mid m inside lt i h = elim (eq_cases i m) [
    | inl e ↦ subst (λ (j : ℕ). key_at T page j ≺ key) (sym e) lt
    | inr n ↦ ≺_trans (key_at T page i) (key_at T page m) key (sorted i m (omega arith) inside) lt
  ]

  above_mid : (m : ℕ) → key ≺ key_at T page m → (i : ℕ) → m ≤ i → i < count → key ≺ key_at T page i
  above_mid m gt i h inside = elim (eq_cases i m) [
    | inl e ↦ subst (λ (j : ℕ). key ≺ key_at T page j) (sym e) gt
    | inr n ↦ ≺_trans key (key_at T page m) (key_at T page i) gt (sorted m i (omega arith) inside)
  ]

  search_loop-Locates :
      (fuel lo hi : ℕ)
      → lo ≤ hi
      → hi ≤ count
      → hi - lo < fuel
      → ((i : ℕ) → i < lo → key_at T page i ≺ key)
      → ((i : ℕ) → hi ≤ i → i < count → key ≺ key_at T page i)
      → ReturnsSuch (Locates T page count key) (search_loop T page key fuel lo hi)
  search_loop-Locates zero lo hi ordered inside enough below above = absurd (omega arith)
  search_loop-Locates (suc fuel) lo hi ordered inside enough below above =
      elim (range_cases hi lo) [
        | inl done ↦ (
          err lo,
          search_loop-end T page key fuel lo hi done,
          (omega arith, below, λ i at_least below_count. above i (omega arith) below_count),
        )
        | inr more ↦
            let m : ℕ = lo + (hi - lo) / 2 in
            let m_lt : m < count = omega arith in
            let round =
              search_loop-round T page key fuel lo hi more
                (omega (arith, slot_end m count T.size m_lt, room, small)) in
            elim (orderings (cmp_bytes (key_at T page m) key)) [
              | inl lt ↦
                  let (r, e, p) =
                    search_loop-Locates fuel (m + 1) hi (omega arith) inside (omega arith)
                      (λ i h. below_mid m m_lt lt i (omega arith)) above in
                  (r, rw lt at round ∙ e, p)
              | inr (inl eq) ↦ (ok m, rw eq at round, (m_lt, cmp_bytes-eq (key_at T page m) key eq))
              | inr (inr gt) ↦
                  let (r, e, p) =
                    search_loop-Locates fuel lo m (omega arith) (omega arith) (omega arith) below
                      (above_mid m (cmp_bytes-gt (key_at T page m) key gt)) in
                  (r, rw gt at round ∙ e, p)
            ]
      ]

  -- On a page that holds `count` slots in ascending order of their keys, the binary search returns: the index
  -- of the slot with that key, or the index that has all smaller keys before it and all greater ones from it on.
  pub search-Locates : ReturnsSuch (Locates T page count key) (search T page count key)
  unfolding search
  search-Locates =
      search_loop-Locates (suc count) 0 count (omega arith) (omega arith) (omega arith)
        (λ i h. absurd (omega arith)) (λ i h k. absurd (omega arith))
