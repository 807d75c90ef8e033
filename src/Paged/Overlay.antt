-- ===== src/Paged/Overlay.antt =====
-- The life of a paged pool: it is opened over a borrowed base, written page by page, and grown.
use plugmem.Base.{ℕ, zero, suc, ◌+◌, ◌-◌, ◌*◌, ◌/◌, ◌^◌, ◌≤◌, ◌<◌, ◌≡◌, sym, ap, ◌∙◌}
use plugmem.Base.{List, [], ◌++◌, length, take, some, get_elem?, arith, inl, inr}
use plugmem.Base.{length-append, take_front, drop_front, append-nil}
use plugmem.Base.Bytes.{Bytes}
use plugmem.Errors.{none_id}
use plugmem.Paged.{Paged, owned, cow, replicate, borrowed, slice_of, len, page_of, grow_tail}
use plugmem.Paged.Slices.{KeepsLength, slice_of-in, window_front}
use plugmem.Paged.Place.{
  IsCow, IsPaged, uncopied-replicate, length-replicate, get-replicate, page_of_grown, page_of_base,
  page_of_copy, get-in, page_of_copy, get-in,
}
use plugmem.Paged.Copy.{eq_cases, range_cases, inside_mul}
use plugmem.Paged.Write.{
  Rewritten, slice-Changed, owned-Rewritten, grown-Rewritten, base_write, page_of_near,
}
use native.Mathlib.Nat.{mul-div_cancel}

past_base :
    (idx bp page n : ℕ)
    → bp ≤ idx
    → idx * page + page ≤ bp * page + n
    → (idx - bp) * page + page ≤ n
past_base idx bp page n h fits =
    let split : (bp + (idx - bp)) * page ≡ bp * page + (idx - bp) * page = grind arith in
    let whole : bp + (idx - bp) ≡ idx = omega arith in
    omega (arith, split, ap (λ (t : ℕ). t * page) whole)

-- For every well-formed pool and a page that lies in it: a write to the page does not panic and keeps the
-- invariant; the page then reads as what was done to it, every other page reads as before, the number of
-- bytes stays, and the borrowed base is not written.
pub page_mut-Rewritten :
    (page : ℕ) (p : Paged) (idx : ℕ) (f : Bytes → Bytes)
    → 0 < page
    → KeepsLength f
    → IsPaged page p
    → idx * page + page ≤ len p
    → (p' : Paged) × Rewritten page p idx f p'
unfolding len
page_mut-Rewritten page (owned v) idx f pos keeps w fits =
    let (v', c) = slice-Changed page f keeps v idx fits in
    (owned v', owned-Rewritten page f keeps v v' w.0 idx w.1 c)
page_mut-Rewritten page (cow base base_pages grown pool slots) idx f pos keeps w fits =
    elim (range_cases base_pages idx) [
      | inl high ↦
          let (g, c) = slice-Changed page f keeps grown (idx - base_pages) (
            past_base idx base_pages page (length grown) high (omega (arith, w.base_size, fits))) in
          (
            cow base base_pages g pool slots,
            grown-Rewritten page f keeps base base_pages grown pool slots idx w g high c,
          )
      | inr low ↦ base_write page f keeps base base_pages grown pool slots idx pos w low
    ]

get-replicate_only : (n i s x : ℕ) → get_elem? (replicate n x) i ≡ some s → s ≡ x
unfolding replicate
get-replicate_only zero i s x h = cc
get-replicate_only (suc n) zero s x h = cc
get-replicate_only (suc n) (suc i) s x h = get-replicate_only n i s x h

module _ (page : ℕ) (base : Bytes) (pages : ℕ) (pos : 0 < page) (size : length base ≡ pages * page)
    (few : pages < 2 ^ 32) where
  base_count : length base / page ≡ pages
  base_count = ap (λ (t : ℕ). t / page) size ∙ mul-div_cancel pages pos

  opened : Paged
  opened = cow base pages [] [] (replicate pages none_id)

  opened-IsCow : IsCow page base pages [] [] (replicate pages none_id)
  opened-IsCow = record {
    copies = 0;
    grown_pages = 0;
    base_size = size;
    grown_size = omega arith;
    pool_size = omega arith;
    slot_count = length-replicate pages none_id;
    in_pool = λ i s h n. absurd (n (get-replicate_only pages i s none_id h));
    unshared = λ i j s hi hj n. absurd (n (get-replicate_only pages i s none_id hi));
    counted = omega (arith, uncopied-replicate pages);
    few = few;
  }

  -- A pool that borrows whole pages is well formed, and each of its pages is the page of the base.
  pub borrowed-IsPaged :
      IsPaged page (borrowed page base)
      × ((idx : ℕ) → idx < pages → page_of page (borrowed page base) idx ≡ slice_of page base idx)
  unfolding borrowed
  borrowed-IsPaged = rw base_count (
    opened-IsCow,
    λ idx low.
        page_of_base page base pages [] [] (replicate pages none_id) idx low
          (get-replicate pages none_id idx low),
  )

slice_of-append_old :
    (page : ℕ) (v more : Bytes) (i : ℕ)
    → i * page + page ≤ length v
    → slice_of page (v ++ more) i ≡ slice_of page v i
slice_of-append_old page v more i fits =
    slice_of-in page (v ++ more) i (omega (arith, fits, length-append v more))
    ∙ ap some (window_front page (i * page) v more fits)
    ∙ sym (slice_of-in page v i fits)

slice_of-append_new :
    (page : ℕ) (v more : Bytes) (i : ℕ)
    → length v ≡ i * page
    → length more ≡ page
    → slice_of page (v ++ more) i ≡ some more
slice_of-append_new page v more i at size =
    slice_of-in page (v ++ more) i (omega (arith, at, size, length-append v more))
    ∙ ap some (
        rw (drop_front (i * page) v more at)
          (ap (λ (t : Bytes). take page t) (sym (append-nil more)) ∙ take_front page more [] size))

-- The pool after a page was appended.
pub record Grown (page : ℕ) (p : Paged) (more : Bytes) : Type 0 where
  pub well : IsPaged page (grow_tail p more)
  pub size : len (grow_tail p more) ≡ len p + page
  pub old :
      (idx : ℕ)
      → idx * page + page ≤ len p
      → page_of page (grow_tail p more) idx ≡ page_of page p idx
  pub new : (idx : ℕ) → idx * page ≡ len p → page_of page (grow_tail p more) idx ≡ some more

past_base_new : (idx bp page n : ℕ) → bp ≤ idx → idx * page ≡ bp * page + n → n ≡ (idx - bp) * page
past_base_new idx bp page n h fits =
    let split : (bp + (idx - bp)) * page ≡ bp * page + (idx - bp) * page = grind arith in
    let whole : bp + (idx - bp) ≡ idx = omega arith in
    omega (arith, split, ap (λ (t : ℕ). t * page) whole)

not_before : (idx bp page n : ℕ) → 0 < page → idx * page ≡ bp * page + n → bp ≤ idx
not_before idx bp page n pos e = elim (range_cases bp idx) [
  | inl h ↦ h
  | inr h ↦ absurd (omega (arith, inside_mul idx bp page h))
]

module _ (page : ℕ) (more : Bytes) (pos : 0 < page) (whole : length more ≡ page) where
  Grown-owned : (v : Bytes) (pages : ℕ) → length v ≡ pages * page → Grown page (owned v) more
  unfolding grow_tail len page_of
  Grown-owned v pages size = record {
    well = (suc pages, omega (arith, length-append v more, size, whole));
    size = omega (arith, length-append v more, whole);
    old = λ idx fits. slice_of-append_old page v more idx fits;
    new = λ idx at. slice_of-append_new page v more idx (sym at) whole;
  }

  module _ (base : Bytes) (base_pages : ℕ) (grown pool : Bytes) (slots : List ℕ)
      (w : IsCow page base base_pages grown pool slots) where
    after_old :
        (idx : ℕ)
        → idx * page + page ≤ length base + length grown
        → page_of page (cow base base_pages (grown ++ more) pool slots) idx
          ≡ page_of page (cow base base_pages grown pool slots) idx
    after_old idx fits = elim (range_cases base_pages idx) [
      | inl high ↦
          page_of_grown page base base_pages (grown ++ more) pool slots idx high
          ∙ slice_of-append_old page grown more (idx - base_pages)
              (past_base idx base_pages page (length grown) high (omega (arith, w.base_size, fits)))
          ∙ sym (page_of_grown page base base_pages grown pool slots idx high)
      | inr low ↦ page_of_near page base base_pages (grown ++ more) grown pool slots idx low
    ]

    after_new :
        (idx : ℕ)
        → idx * page ≡ length base + length grown
        → page_of page (cow base base_pages (grown ++ more) pool slots) idx ≡ some more
    after_new idx at =
        let far : idx * page ≡ base_pages * page + length grown = omega (arith, at, w.base_size) in
        let high : base_pages ≤ idx = not_before idx base_pages page (length grown) pos far in
        page_of_grown page base base_pages (grown ++ more) pool slots idx high
        ∙ slice_of-append_new page grown more (idx - base_pages)
            (past_base_new idx base_pages page (length grown) high far) whole

    Grown-cow : Grown page (cow base base_pages grown pool slots) more
    unfolding grow_tail len
    Grown-cow = record {
      well = record {
        copies = w.copies;
        grown_pages = suc w.grown_pages;
        base_size = w.base_size;
        grown_size = omega (arith, length-append grown more, w.grown_size, whole);
        pool_size = w.pool_size;
        slot_count = w.slot_count;
        in_pool = w.in_pool;
        unshared = w.unshared;
        counted = w.counted;
        few = w.few;
      };
      size = omega (arith, length-append grown more, whole);
      old = after_old;
      new = after_new;
    }

-- For every well-formed pool to whose tail a page is appended: the invariant stays, the pool is one page
-- longer, the old pages read as before, and the page behind them is the one that was appended.
pub grow_tail-Grown :
    (page : ℕ) (p : Paged) (more : Bytes)
    → 0 < page
    → length more ≡ page
    → IsPaged page p
    → Grown page p more
grow_tail-Grown page (owned v) more pos whole w = Grown-owned page more pos whole v w.0 w.1
grow_tail-Grown page (cow base base_pages grown pool slots) more pos whole w =
    Grown-cow page more pos whole base base_pages grown pool slots w

-- Every page in the range of a well-formed pool can be read.
pub page_of-total :
    (page : ℕ) (p : Paged) (idx : ℕ)
    → IsPaged page p
    → idx * page + page ≤ len p
    → (b : Bytes) × (page_of page p idx ≡ some b)
unfolding page_of len
page_of-total page (owned v) idx w fits = (_, slice_of-in page v idx fits)
page_of-total page (cow base base_pages grown pool slots) idx w fits =
    elim (range_cases base_pages idx) [
      | inl high ↦ (
        _,
        page_of_grown page base base_pages grown pool slots idx high
            ∙ slice_of-in page grown (idx - base_pages) (
                past_base idx base_pages page (length grown) high
                  (omega (arith, w.base_size, fits))),
      )
      | inr low ↦
          let (s, es) = get-in slots idx (omega (arith, w.slot_count)) in
          elim (eq_cases s none_id) [
            | inl z ↦ (
              _,
              page_of_base page base base_pages grown pool slots idx low (es ∙ ap some z)
                  ∙ slice_of-in page base idx
                      (omega (arith, w.base_size, inside_mul idx base_pages page low)),
            )
            | inr n ↦ (
              _,
              page_of_copy page base base_pages grown pool slots idx s low es n
                  ∙ slice_of-in page pool s (
                      omega
                        (arith, w.pool_size, inside_mul s w.copies page (w.in_pool idx s es n))),
            )
          ]
    ]
