-- ===== src/Paged/Copy.antt =====
-- Copying a base page up changes no page and keeps the invariant.
use plugmem.Base.{ℕ, zero, suc, ◌+◌, ◌*◌, ◌/◌, ◌%◌, ◌^◌, ◌≤◌, ◌<◌, ◌≡◌, ◌≢◌, refl, sym, ap, ◌∙◌}
use plugmem.Base.{List, [], ◌++◌, length, take, drop, Option, some, get_elem?, arith, ◌⊎◌, inl, inr}
use plugmem.Base.{length-append, length-take, length-drop, take_front, drop_front, append-nil}
use plugmem.Base.Bytes.{Bytes}
use plugmem.Errors.{none_id}
use plugmem.Paged.{cow, set, slice_of, page_of, copy_up}
use plugmem.Paged.Slices.{slice_of-in, window_front, page_before}
use plugmem.Paged.Place.{
  IsCow, uncopied-set, uncopied_pos, length-set, get-set_same, get-set_other, get-in, page_of_grown,
  page_of_base, page_of_copy,
}
use native.Mathlib.Nat.{mul-div_cancel}
use mathlib.Core.Path.{subst}
use mathlib.Core.Option

some_inj : {a b : ℕ} → ◌≡◌ {A = Option ℕ} (some a) (some b) → a ≡ b
some_inj e = cc

pub eq_cases : (a b : ℕ) → (a ≡ b) ⊎ (a ≢ b)
eq_cases zero zero = inl refl
eq_cases zero (suc b) = inr λ e. absurd (omega arith)
eq_cases (suc a) zero = inr λ e. absurd (omega arith)
eq_cases (suc a) (suc b) = elim (eq_cases a b) [
  | inl e ↦ inl (ap suc e)
  | inr n ↦ inr λ e. n (omega arith)
]

quotient : (n page : ℕ) → 0 < page → (n * page) / page ≡ n
quotient n page h = mul-div_cancel n h

pub range_cases : (n i : ℕ) → (n ≤ i) ⊎ (i < n)
range_cases zero i = inl (omega arith)
range_cases (suc n) zero = inr (omega arith)
range_cases (suc n) (suc i) = elim (range_cases n i) [
  | inl h ↦ inl (omega (arith, h))
  | inr h ↦ inr (omega (arith, h))
]

pub inside_mul : (i n page : ℕ) → i < n → i * page + page ≤ n * page
inside_mul i n page h = page_before i n page h

copy_up-fresh :
    (page : ℕ) (base pool : Bytes) (slots : List ℕ) (idx : ℕ)
    → get_elem? slots idx ≡ some none_id
    → copy_up page base pool slots idx
      ≡ Option.map
          (λ copy. (pool ++ copy, set slots idx (length pool / page % 2 ^ 32)))
          (slice_of page base idx)
unfolding copy_up
copy_up-fresh page base pool slots idx e = rw (e, copy_up) refl

module _ (page : ℕ) (base : Bytes) (base_pages : ℕ) (grown pool : Bytes) (slots : List ℕ) (idx : ℕ)
    (pos : 0 < page) (w : IsCow page base base_pages grown pool slots)
    (low : idx < base_pages) where
  -- What copying gives: the same pages, and a place of its own for the page.
  pub record Copied (pool' : Bytes) (slots' : List ℕ) : Type 0 where
    pub result : copy_up page base pool slots idx ≡ some (pool', slots')
    pub well : IsCow page base base_pages grown pool' slots'
    pub same :
        (j : ℕ)
        → page_of page (cow base base_pages grown pool' slots') j
          ≡ page_of page (cow base base_pages grown pool slots) j
    pub slot : ℕ
    pub at_slot : get_elem? slots' idx ≡ some slot
    pub private : slot ≢ none_id

  Copied-already : (s : ℕ) → get_elem? slots idx ≡ some s → s ≢ none_id → Copied pool slots
  unfolding copy_up
  Copied-already s e n = record {
    result = rw (e, copy_up) (ground arith);
    well = w;
    same = λ j. refl;
    slot = s;
    at_slot = e;
    private = n;
  }

  module _ (e : get_elem? slots idx ≡ some none_id) where
    abbrev copy : Bytes
    copy = take page (drop (idx * page) base)

    abbrev slots_after : List ℕ
    slots_after = set slots idx w.copies

    in_base : idx * page + page ≤ length base
    in_base = omega (arith, w.base_size, inside_mul idx base_pages page low)

    length-copy : length copy ≡ page
    length-copy =
        omega
          (arith, length-take page (drop (idx * page) base), length-drop (idx * page) base, in_base)

    fresh_slot : w.copies ≢ none_id
    fresh_slot h = absurd (omega (arith, w.counted, uncopied_pos slots idx e, w.few))

    copy_result : copy_up page base pool slots idx ≡ some (pool ++ copy, slots_after)
    copy_result =
        let slot : length pool / page % 2 ^ 32 ≡ w.copies =
          rw (w.pool_size, quotient w.copies page pos)
            (omega (arith, w.counted, uncopied_pos slots idx e, w.few)) in
        copy_up-fresh page base pool slots idx e ∙ rw (slice_of-in page base idx in_base, slot) refl

    other : (j : ℕ) → j ≢ idx → get_elem? slots_after j ≡ get_elem? slots j
    other j n = get-set_other slots idx j w.copies n

    -- A copy that was there before reads as before.
    old_copy : (s : ℕ) → s < w.copies → slice_of page (pool ++ copy) s ≡ slice_of page pool s
    old_copy s h =
        let fits : s * page + page ≤ length pool =
          omega (arith, w.pool_size, inside_mul s w.copies page h) in
        slice_of-in page (pool ++ copy) s (omega (arith, fits, length-append pool copy))
        ∙ ap some (window_front page (s * page) pool copy fits)
        ∙ sym (slice_of-in page pool s fits)

    new_copy : slice_of page (pool ++ copy) w.copies ≡ slice_of page base idx
    new_copy =
        slice_of-in page (pool ++ copy) w.copies
          (omega (arith, w.pool_size, length-append pool copy, length-copy))
        ∙ ap some (
            rw (drop_front (w.copies * page) pool copy w.pool_size) (
              ap (λ (t : Bytes). take page t) (sym (append-nil copy))
              ∙ take_front page copy [] length-copy))
        ∙ sym (slice_of-in page base idx in_base)

    slot_set : get_elem? slots_after idx ≡ some w.copies
    slot_set = get-set_same slots idx w.copies (omega (arith, w.slot_count))

    copy_there :
        (j : ℕ)
        → j < base_pages
        → j ≢ idx
        → page_of page (cow base base_pages grown (pool ++ copy) slots_after) j
          ≡ page_of page (cow base base_pages grown pool slots) j
    copy_there j small there =
        let (s, es) = get-in slots j (omega (arith, w.slot_count)) in
        elim (eq_cases s none_id) [
          | inl z ↦
              let es' : get_elem? slots j ≡ some none_id = es ∙ ap some z in
              page_of_base page base base_pages grown (pool ++ copy) slots_after j small
                (other j there ∙ es')
              ∙ sym (page_of_base page base base_pages grown pool slots j small es')
          | inr n ↦
              page_of_copy page base base_pages grown (pool ++ copy) slots_after j s small
                (other j there ∙ es) n
              ∙ old_copy s (w.in_pool j s es n)
              ∙ sym (page_of_copy page base base_pages grown pool slots j s small es n)
        ]

    copy_here :
        page_of page (cow base base_pages grown (pool ++ copy) slots_after) idx
        ≡ page_of page (cow base base_pages grown pool slots) idx
    copy_here =
        page_of_copy page base base_pages grown (pool ++ copy) slots_after idx w.copies low slot_set
          fresh_slot
        ∙ new_copy
        ∙ sym (page_of_base page base base_pages grown pool slots idx low e)

    copy_same :
        (j : ℕ)
        → page_of page (cow base base_pages grown (pool ++ copy) slots_after) j
          ≡ page_of page (cow base base_pages grown pool slots) j
    copy_same j = elim (range_cases base_pages j) [
      | inl high ↦
          page_of_grown page base base_pages grown (pool ++ copy) slots_after j high
          ∙ sym (page_of_grown page base base_pages grown pool slots j high)
      | inr small ↦ elim (eq_cases j idx) [
        | inl here ↦
            subst
              (λ (t : ℕ).
                page_of page (cow base base_pages grown (pool ++ copy) slots_after) t
                ≡ page_of page (cow base base_pages grown pool slots) t)
              (sym here) copy_here
        | inr there ↦ copy_there j small there
      ]
    ]

    -- The slots after a copy: the new one, and those that were there.
    slot_of :
        (i s : ℕ)
        → get_elem? slots_after i ≡ some s
        → ((i ≡ idx) × (s ≡ w.copies)) ⊎ (get_elem? slots i ≡ some s)
    slot_of i s h = elim (eq_cases i idx) [
      | inl here ↦
          inl (here, some_inj (sym h ∙ ap (λ (t : ℕ). get_elem? slots_after t) here ∙ slot_set))
      | inr there ↦ inr (sym (other i there) ∙ h)
    ]

    in_pool_after : (i s : ℕ) → get_elem? slots_after i ≡ some s → s ≢ none_id → s < suc w.copies
    in_pool_after i s h n = elim (slot_of i s h) [
      | inl new ↦ omega (arith, new.1)
      | inr old ↦ omega (arith, w.in_pool i s old n)
    ]

    unshared_after :
        (i j s : ℕ)
        → get_elem? slots_after i ≡ some s
        → get_elem? slots_after j ≡ some s
        → s ≢ none_id
        → i ≡ j
    unshared_after i j s hi hj n = elim (slot_of i s hi) [
      | inl new ↦ elim (slot_of j s hj) [
        | inl new' ↦ new.0 ∙ sym new'.0
        | inr old' ↦ absurd (omega (arith, new.1, w.in_pool j s old' n))
      ]
      | inr old ↦ elim (slot_of j s hj) [
        | inl new' ↦ absurd (omega (arith, new'.1, w.in_pool i s old n))
        | inr old' ↦ w.unshared i j s old old' n
      ]
    ]

    Copied-now : Copied (pool ++ copy) slots_after
    Copied-now = record {
      result = copy_result;
      well = record {
        copies = suc w.copies;
        grown_pages = w.grown_pages;
        base_size = w.base_size;
        grown_size = w.grown_size;
        pool_size = omega (arith, length-append pool copy, length-copy, w.pool_size);
        slot_count = length-set slots idx w.copies ∙ w.slot_count;
        in_pool = in_pool_after;
        unshared = unshared_after;
        counted = omega (arith, uncopied-set slots idx w.copies e fresh_slot, w.counted);
        few = w.few;
      };
      same = copy_same;
      slot = w.copies;
      at_slot = slot_set;
      private = fresh_slot;
    }

  pub copy_up-Copied : (pool' : Bytes) × (slots' : List ℕ) × Copied pool' slots'
  copy_up-Copied =
      let (s, es) = get-in slots idx (omega (arith, w.slot_count)) in
      elim (eq_cases s none_id) [
        | inl z ↦ (
          pool ++ take page (drop (idx * page) base),
          set slots idx w.copies,
          Copied-now (es ∙ ap some z),
        )
        | inr n ↦ (pool, slots, Copied-already s es n)
      ]
