-- ===== src/Arena/PageRemove.antt =====
-- Removing from a page, as an operation on the set of its slots.
use plugmem.Base.{
  ℕ, zero, suc, ◌+◌, ◌*◌, ◌≤◌, ◌<◌, ◌≡◌, ◌≢◌, ◌⊎◌, ◌↔◌, inl, inr, refl, sym, ap, ◌∙◌, arith,
}
use plugmem.Base.{length, take, drop, ok}
use plugmem.Base.Bytes.{Bytes}
use plugmem.Base.Order.{◌≺◌, ≺_irrefl}
use plugmem.Base.Outcomes.{returned}
use plugmem.Paged.Copy.{range_cases}
use plugmem.Arena.{Slot}
use plugmem.Arena.Find.{search}
use plugmem.Arena.Edit.{remove_slot}
use plugmem.Arena.Bisect.{key_at, IsSortedPage, Locates, slot_end}
use plugmem.Arena.Slots.{
  remove_before, remove_behind, slot_of, Holds, key, key-slot_of, times_mono, suc_times,
}
use plugmem.Arena.PageSet.{ascends, found_at}
use mathlib.Core.Path.{subst}

module _ (T : Slot) (page k : Bytes) (count pos : ℕ) (small : T.key_len ≤ T.size)
    (room : suc count * T.size ≤ length page) (sorted : IsSortedPage T page (suc count))
    (present : search T page (suc count) k ≡ returned (ok pos)) where
  abbrev after : Bytes
  after = remove_slot (pos * T.size) (suc count * T.size) T.size page

  spot : Locates T page (suc count) k (ok pos)
  spot = found_at T page (suc count) k small room sorted (ok pos) present

  abbrev end_in : pos * T.size + T.size ≤ suc count * T.size
  end_in = slot_end pos (suc count) T.size spot.0

  slot_before : (i : ℕ) → i < pos → slot_of T after i ≡ slot_of T page i
  slot_before i h =
      remove_before (pos * T.size) (suc count * T.size) T.size page end_in room T.size (i * T.size)
        (slot_end i pos T.size h)

  slot_behind : (i : ℕ) → pos ≤ i → i < count → slot_of T after i ≡ slot_of T page (suc i)
  slot_behind i h inside =
      remove_behind (pos * T.size) (suc count * T.size) T.size page end_in room T.size (i * T.size)
        (times_mono pos i T.size h)
        (omega (arith, suc_times i T.size, slot_end (suc i) (suc count) T.size (omega arith)))
      ∙ ap (λ (n : ℕ). take T.size (drop n page)) (sym (suc_times i T.size))

  -- Where a slot of the page after the removal comes from.
  abbrev Origin : ℕ → ℕ → Type 0
  Origin j l =
      (slot_of T after j ≡ slot_of T page l) × (((l ≡ j) × (l < pos)) ⊎ ((l ≡ suc j) × (pos < l)))

  origin : (j : ℕ) → j < count → (l : ℕ) × (l < suc count) × Origin j l
  origin j h = elim (range_cases pos j) [
    | inr before ↦ (j, omega arith, (slot_before j before, inl (refl, before)))
    | inl behind ↦ (suc j, omega arith, (slot_behind j behind h, inr (refl, omega arith)))
  ]

  apart : (j l : ℕ) → Origin j l → l ≢ pos
  apart j l o e = elim o.1 [ inl h ↦ omega (arith, h.1, e) | inr h ↦ omega (arith, h.1, e) ]

  in_order : (i j k' l : ℕ) → i < j → Origin i k' → Origin j l → k' < l
  in_order i j k' l less o p = elim o.1 [
    | inl h ↦ elim p.1 [ inl g ↦ omega (arith, h.0, g.0) | inr g ↦ omega (arith, h.0, g.0) ]
    | inr h ↦ elim p.1 [
      | inl g ↦ absurd (omega (arith, h.0, h.1, g.0, g.1))
      | inr g ↦ omega (arith, h.0, g.0)
    ]
  ]

  after-sorted : IsSortedPage T after count
  after-sorted i j less inside =
      let (l, lc, p) = origin j inside in
      let (m, mc, o) = origin i (omega arith) in
      ascends T small after page page i j m l o.0 p.0 (sorted m l (in_order i j m l less o p) lc)

  -- Slots at different places have different keys.
  distinct : (i : ℕ) → i < suc count → i ≢ pos → key_at T page i ≢ key_at T page pos
  distinct i h n e = elim (range_cases pos i) [
    | inr before ↦
        ≺_irrefl (key_at T page pos)
          (subst (λ (x : Bytes). x ≺ key_at T page pos) e (sorted i pos before spot.0))
    | inl behind ↦
        ≺_irrefl (key_at T page pos)
          (subst (λ (x : Bytes). key_at T page pos ≺ x) e (sorted pos i (omega arith) h))
  ]

  other_key : (i : ℕ) (s : Bytes) → i < suc count → i ≢ pos → slot_of T page i ≡ s → key T s ≢ k
  other_key i s h n e same =
      distinct i h n
        (sym (key-slot_of T page i small) ∙ ap (λ (x : Bytes). key T x) e ∙ same ∙ sym spot.1)

  gives : (s : Bytes) → Holds T after count s → Holds T page (suc count) s × (key T s ≢ k)
  gives s (i, h, e) =
      let (l, lc, o) = origin i h in
      let same : slot_of T page l ≡ s = sym o.0 ∙ e in
      ((l, lc, same), other_key l s lc (apart i l o) same)

  not_there : (i : ℕ) (s : Bytes) → slot_of T page i ≡ s → key T s ≢ k → i ≢ pos
  not_there i s e n same = n (
      ap (λ (x : Bytes). key T x) (sym e)
      ∙ key-slot_of T page i small
      ∙ ap (λ (j : ℕ). key_at T page j) same
      ∙ spot.1)

  keeps_at :
      (i : ℕ) (s : Bytes) → i < suc count → i ≢ pos → slot_of T page i ≡ s → Holds T after count s
  keeps_at zero s h n e = (0, omega (arith, spot.0), slot_before 0 (omega arith) ∙ e)
  keeps_at (suc i) s h n e = elim (range_cases pos (suc i)) [
    | inr before ↦ (suc i, omega (arith, spot.0), slot_before (suc i) before ∙ e)
    | inl behind ↦ (i, omega arith, slot_behind i (omega arith) (omega arith) ∙ e)
  ]

  keeps : (s : Bytes) → Holds T page (suc count) s × (key T s ≢ k) → Holds T after count s
  keeps s ((i, h, e), n) = keeps_at i s h (not_there i s e n) e

  -- On a page in ascending order: where the search finds the key, the copy of `remove` at the index that it gives
  -- leaves a page in ascending order with one slot less, which holds just the slots with another key.
  pub remove_slot-Holds :
      IsSortedPage T (remove_slot (pos * T.size) (suc count * T.size) T.size page) count
      × ((s : Bytes)
          → Holds T (remove_slot (pos * T.size) (suc count * T.size) T.size page) count s
            ↔ (Holds T page (suc count) s × (key T s ≢ k)))
  remove_slot-Holds = (after-sorted, λ s. (gives s, keeps s))
