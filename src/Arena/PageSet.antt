-- ===== src/Arena/PageSet.antt =====
-- Inserting into a page and removing from it, as operations on the set of its slots.
use plugmem.Base.{
  ℕ, zero, suc, ◌+◌, ◌*◌, ◌≤◌, ◌<◌, ◌≡◌, ◌≢◌, ◌⊎◌, ◌↔◌, inl, inr, refl, sym, ap, ◌∙◌, arith,
}
use plugmem.Base.{[], ◌∷◌, length, take, drop, Result, err}
use plugmem.Base.Bytes.{Bytes}
use plugmem.Base.Order.{◌≺◌}
use plugmem.Base.Outcomes.{returned, returned_inj}
use plugmem.Paged.Copy.{eq_cases, range_cases}
use plugmem.Arena.{Slot}
use plugmem.Arena.Find.{search}
use plugmem.Arena.Edit.{insert_slot}
use plugmem.Arena.Bisect.{key_at, IsSortedPage, Locates, search-Locates, slot_end}
use plugmem.Arena.Slots.{
  insert_before, insert_here, insert_behind, slot_of, Holds, key, key-slot_of, times_mono,
  suc_times,
}
use mathlib.Core.Path.{subst}

-- Two slots are in the order of their keys.
module _ (T : Slot) (small : T.key_len ≤ T.size) where
  key_at-same :
      (p q : Bytes) (i k : ℕ) → slot_of T p i ≡ slot_of T q k → key_at T p i ≡ key_at T q k
  key_at-same p q i k e =
      sym (key-slot_of T p i small) ∙ ap (λ (s : Bytes). key T s) e ∙ key-slot_of T q k small

  pub ascends :
      (p q r : Bytes) (i j k l : ℕ)
      → slot_of T p i ≡ slot_of T q k
      → slot_of T p j ≡ slot_of T r l
      → key_at T q k ≺ key_at T r l
      → key_at T p i ≺ key_at T p j
  ascends p q r i j k l e f h =
      subst (λ (x : Bytes). x ≺ key_at T p j) (sym (key_at-same p q i k e))
        (subst (λ (y : Bytes). key_at T q k ≺ y) (sym (key_at-same p r j l f)) h)

-- What the search found, from what it says.
pub found_at :
    (T : Slot) (page : Bytes) (count : ℕ) (k : Bytes)
    → T.key_len ≤ T.size
    → count * T.size ≤ length page
    → IsSortedPage T page count
    → (r : Result ℕ ℕ) → search T page count k ≡ returned r
    → Locates T page count k r
found_at T page count k small room sorted r e =
    let (q, f, p) = search-Locates T page k count small room sorted in
    subst (Locates T page count k) (returned_inj (sym f ∙ e)) p

module _ (T : Slot) (page slot : Bytes) (count pos : ℕ) (small : T.key_len ≤ T.size)
    (room : suc count * T.size ≤ length page) (size : length slot ≡ T.size)
    (sorted : IsSortedPage T page count)
    (absent : search T page count (key T slot) ≡ returned (err pos)) where
  abbrev after : Bytes
  after = insert_slot (pos * T.size) (count * T.size) slot page

  fits : count * T.size ≤ length page
  fits = omega (arith, suc_times count T.size)

  spot : Locates T page count (key T slot) (err pos)
  spot = found_at T page count (key T slot) small fits sorted (err pos) absent

  abbrev start_in : pos * T.size ≤ count * T.size
  start_in = times_mono pos count T.size spot.0

  slot_before : (i : ℕ) → i < pos → slot_of T after i ≡ slot_of T page i
  slot_before i h =
      insert_before (pos * T.size) (count * T.size) slot page start_in fits T.size (i * T.size)
        (slot_end i pos T.size h)

  slot_here : slot_of T after pos ≡ slot
  slot_here = insert_here (pos * T.size) (count * T.size) slot page start_in fits T.size size

  slot_behind : (i : ℕ) → pos ≤ i → i < count → slot_of T after (suc i) ≡ slot_of T page i
  slot_behind i h inside =
      let e : suc i * T.size ≡ i * T.size + length slot = omega (arith, suc_times i T.size) in
      ap (λ (n : ℕ). take T.size (drop n after)) e
      ∙ insert_behind (pos * T.size) (count * T.size) slot page start_in fits T.size (i * T.size)
          (times_mono pos i T.size h) (slot_end i count T.size inside)

  -- Where a slot of the page after the insertion comes from.
  abbrev Origin : ℕ → Type 0
  Origin j =
      ((j < pos) × (slot_of T after j ≡ slot_of T page j))
      ⊎ (((j ≡ pos) × (slot_of T after j ≡ slot))
          ⊎ ((k : ℕ) × (j ≡ suc k)
              × (pos ≤ k)
              × (k < count)
              × (slot_of T after j ≡ slot_of T page k)))

  origin : (j : ℕ) → j < suc count → Origin j
  origin j h = elim (range_cases pos j) [
    | inr before ↦ inl (before, slot_before j before)
    | inl behind ↦ elim (eq_cases j pos) [
      | inl e ↦ inr (inl (e, ap (λ (n : ℕ). slot_of T after n) e ∙ slot_here))
      | inr n ↦ inr (inr (moved j behind n h))
    ]
  ]
    where
      moved :
          (j : ℕ)
          → pos ≤ j
          → j ≢ pos
          → j < suc count
          → (k : ℕ) × (j ≡ suc k) × (pos ≤ k) × (k < count) × (slot_of T after j ≡ slot_of T page k)
      moved zero b n h = absurd (n (omega arith))
      moved (suc k) b n h =
          (k, refl, omega arith, omega arith, slot_behind k (omega arith) (omega arith))

  -- The key of the new slot, as the key of a page of its own.
  slot_alone : slot_of T slot 0 ≡ slot
  slot_alone = let e : 0 * T.size ≡ 0 = omega arith in rw e (whole T.size slot size)
    where
      whole : (n : ℕ) (xs : Bytes) → length xs ≡ n → take n xs ≡ xs
      whole zero [] h = refl
      whole zero (x ∷ xs) h = absurd (omega arith)
      whole (suc n) [] h = absurd (omega arith)
      whole (suc n) (x ∷ xs) h = ap (λ t. x ∷ t) (whole n xs (omega arith))

  key_alone : key_at T slot 0 ≡ key T slot
  key_alone = let e : 0 * T.size ≡ 0 = omega arith in rw e refl

  after-sorted : IsSortedPage T after (suc count)
  after-sorted i j less inside = elim (origin j inside) [
    | inl (jp, ej) ↦
        ascends T small after page page i j i j (slot_before i (omega arith)) ej
          (sorted i j less (omega (arith, spot.0)))
    | inr (inl (jp, ej)) ↦
        ascends T small after page slot i j i 0 (slot_before i (omega arith)) (ej ∙ sym slot_alone)
          (subst (λ (x : Bytes). key_at T page i ≺ x) (sym key_alone) (spot.1 i (omega arith)))
    | inr (inr (k, js, pk, kc, ej)) ↦ elim (origin i (omega arith)) [
      | inl (ip, ei) ↦ ascends T small after page page i j i k ei ej (sorted i k (omega arith) kc)
      | inr (inl (ip, ei)) ↦
          ascends T small after slot page i j 0 k (ei ∙ sym slot_alone) ej
            (subst (λ (x : Bytes). x ≺ key_at T page k) (sym key_alone) (spot.2 k pk kc))
      | inr (inr (l, is, pl, lc, ei)) ↦
          ascends T small after page page i j l k ei ej (sorted l k (omega arith) kc)
    ]
  ]

  gives : (s : Bytes) → Holds T after (suc count) s → (s ≡ slot) ⊎ Holds T page count s
  gives s (i, h, e) = elim (origin i h) [
    | inl (ip, ei) ↦ inr (i, omega (arith, spot.0), sym ei ∙ e)
    | inr (inl (ip, ei)) ↦ inl (sym e ∙ ei)
    | inr (inr (k, is, pk, kc, ei)) ↦ inr (k, kc, sym ei ∙ e)
  ]

  keeps : (s : Bytes) → (s ≡ slot) ⊎ Holds T page count s → Holds T after (suc count) s
  keeps s (inl e) = (pos, omega (arith, spot.0), slot_here ∙ sym e)
  keeps s (inr (i, h, e)) = elim (range_cases pos i) [
    | inr before ↦ (i, omega arith, slot_before i before ∙ e)
    | inl behind ↦ (suc i, omega arith, slot_behind i behind h ∙ e)
  ]

  -- On a page in ascending order with room for one more slot: where the search does not find the key of the slot,
  -- the copies of `insert_bytes` at the index that it gives leave a page in ascending order that holds the slot
  -- and what it held, and nothing else.
  pub insert_slot-Holds :
      IsSortedPage T (insert_slot (pos * T.size) (count * T.size) slot page) (suc count)
      × ((s : Bytes)
          → Holds T (insert_slot (pos * T.size) (count * T.size) slot page) (suc count) s
            ↔ ((s ≡ slot) ⊎ Holds T page count s))
  insert_slot-Holds = (after-sorted, λ s. (gives s, keeps s))
