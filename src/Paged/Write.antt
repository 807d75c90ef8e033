-- ===== src/Paged/Write.antt =====
-- A write through `page_mut` changes one page and nothing else.
use plugmem.Base.{ℕ, ◌+◌, ◌-◌, ◌*◌, ◌≤◌, ◌<◌, ◌≡◌, ◌≢◌, refl, sym, ap, ◌∙◌}
use plugmem.Base.{List, [], length, some, get_elem?, arith, inl, inr}
use plugmem.Base.Bytes.{Bytes}
use plugmem.Errors.{none_id}
use plugmem.Paged.{Paged, owned, cow, slice_of, slice_mut, len, page_of, copy_up, page_mut}
use plugmem.Paged.Slices.{KeepsLength, slice_of-in, slice_mut-Written}
use plugmem.Paged.Place.{IsCow, IsPaged, page_of_grown, page_of_base, page_of_copy, get-in}
use plugmem.Paged.Copy.{Copied, copy_up-Copied, eq_cases, range_cases, inside_mul}
use mathlib.Core.Option

abbrev pub base_of : Paged → Bytes
base_of (owned v) = []
base_of (cow base base_pages grown over_pool over_slot) = base

-- A base page does not depend on the tail.
pub page_of_near :
    (page : ℕ) (base : Bytes) (base_pages : ℕ) (g grown pool : Bytes) (slots : List ℕ) (j : ℕ)
    → j < base_pages
    → page_of page (cow base base_pages g pool slots) j
      ≡ page_of page (cow base base_pages grown pool slots) j
unfolding page_of
page_of_near page base base_pages g grown pool slots j near = ground arith

-- The pool after a write: the page reads as what was done to it, the others and the borrowed base as before.
pub record Rewritten (page : ℕ) (p : Paged) (idx : ℕ) (f : Bytes → Bytes) (p' : Paged)
    : Type 0 where
  pub result : page_mut page p idx f ≡ some p'
  pub well : IsPaged page p'
  pub here : page_of page p' idx ≡ Option.map f (page_of page p idx)
  pub elsewhere : (j : ℕ) → j ≢ idx → page_of page p' j ≡ page_of page p j
  pub size : len p' ≡ len p
  pub base_kept : base_of p' ≡ base_of p

module _ (page : ℕ) (f : Bytes → Bytes) (keeps : KeepsLength f) where
  -- What a write inside a buffer gives, in terms of the page that was read.
  pub record Changed (v : Bytes) (i : ℕ) (v' : Bytes) : Type 0 where
    pub done : slice_mut page v i f ≡ some v'
    pub same : length v' ≡ length v
    pub new : slice_of page v' i ≡ Option.map f (slice_of page v i)
    pub old : (j : ℕ) → j ≢ i → slice_of page v' j ≡ slice_of page v j

  pub slice-Changed :
      (v : Bytes) (i : ℕ) → i * page + page ≤ length v → (v' : Bytes) × Changed v i v'
  slice-Changed v i inside =
      let w = slice_mut-Written page v i f keeps inside in
      (
        _,
        record {
          done = w.0;
          same = w.1.size;
          new = w.1.here ∙ ap (Option.map f) (sym (slice_of-in page v i inside));
          old = w.1.elsewhere;
        },
      )

  pub owned-Rewritten :
      (v v' : Bytes) (pages idx : ℕ)
      → length v ≡ pages * page
      → Changed v idx v'
      → Rewritten page (owned v) idx f (owned v')
  unfolding page_mut page_of len
  owned-Rewritten v v' pages idx size c = record {
    result = rw c.done refl;
    well = (pages, c.same ∙ size);
    here = c.new;
    elsewhere = c.old;
    size = c.same;
    base_kept = refl;
  }

  module _ (base : Bytes) (base_pages : ℕ) (grown pool : Bytes) (slots : List ℕ) (idx : ℕ)
      (w : IsCow page base base_pages grown pool slots) where
    page_mut-grown :
        base_pages ≤ idx
        → page_mut page (cow base base_pages grown pool slots) idx f
          ≡ Option.map
              (λ g. cow base base_pages g pool slots)
              (slice_mut page grown (idx - base_pages) f)
    unfolding page_mut
    page_mut-grown h = ground arith

    page_mut-base :
        idx < base_pages
        → page_mut page (cow base base_pages grown pool slots) idx f
          ≡ Option.bind (copy_up page base pool slots idx) λ copied.
            Option.bind (get_elem? copied.1 idx) λ slot.
              Option.map
                (λ after. cow base base_pages grown after copied.1)
                (slice_mut page copied.0 slot f)
    unfolding page_mut
    page_mut-base h = ground arith

    module _ (g : Bytes) (high : base_pages ≤ idx) (c : Changed grown (idx - base_pages) g) where
      grown_elsewhere :
          (j : ℕ)
          → j ≢ idx
          → page_of page (cow base base_pages g pool slots) j
            ≡ page_of page (cow base base_pages grown pool slots) j
      grown_elsewhere j n = elim (range_cases base_pages j) [
        | inl far ↦
            page_of_grown page base base_pages g pool slots j far
            ∙ c.old (j - base_pages) (λ e. n (omega arith))
            ∙ sym (page_of_grown page base base_pages grown pool slots j far)
        | inr near ↦ page_of_near page base base_pages g grown pool slots j near
      ]

      pub grown-Rewritten :
          Rewritten page
            (cow base base_pages grown pool slots)
            idx
            f
            (cow base base_pages g pool slots)
      unfolding len
      grown-Rewritten = record {
        result = page_mut-grown high ∙ rw c.done refl;
        well = record {
          copies = w.copies;
          grown_pages = w.grown_pages;
          base_size = w.base_size;
          grown_size = c.same ∙ w.grown_size;
          pool_size = w.pool_size;
          slot_count = w.slot_count;
          in_pool = w.in_pool;
          unshared = w.unshared;
          counted = w.counted;
          few = w.few;
        };
        here =
            page_of_grown page base base_pages g pool slots idx high
            ∙ c.new
            ∙ ap (Option.map f)
                (sym (page_of_grown page base base_pages grown pool slots idx high));
        elsewhere = grown_elsewhere;
        size = omega (arith, c.same);
        base_kept = refl;
      }

    -- A page that has a copy of its own.
    module _ (after : Bytes) (s : ℕ) (low : idx < base_pages)
        (at_slot : get_elem? slots idx ≡ some s) (private : s ≢ none_id)
        (c : Changed pool s after) where
      copy_here :
          page_of page (cow base base_pages grown after slots) idx
          ≡ Option.map f (page_of page (cow base base_pages grown pool slots) idx)
      copy_here =
          page_of_copy page base base_pages grown after slots idx s low at_slot private
          ∙ c.new
          ∙ ap (Option.map f)
              (sym (page_of_copy page base base_pages grown pool slots idx s low at_slot private))

      copy_near :
          (j : ℕ)
          → j ≢ idx
          → j < base_pages
          → page_of page (cow base base_pages grown after slots) j
            ≡ page_of page (cow base base_pages grown pool slots) j
      copy_near j n near =
          let (t, et) = get-in slots j (omega (arith, w.slot_count)) in
          elim (eq_cases t none_id) [
            | inl z ↦
                let et' : get_elem? slots j ≡ some none_id = et ∙ ap some z in
                page_of_base page base base_pages grown after slots j near et'
                ∙ sym (page_of_base page base base_pages grown pool slots j near et')
            | inr own ↦
                page_of_copy page base base_pages grown after slots j t near et own
                ∙ c.old t (λ e. n (w.unshared j idx t et (at_slot ∙ ap some (sym e)) own))
                ∙ sym (page_of_copy page base base_pages grown pool slots j t near et own)
          ]

      copy_elsewhere :
          (j : ℕ)
          → j ≢ idx
          → page_of page (cow base base_pages grown after slots) j
            ≡ page_of page (cow base base_pages grown pool slots) j
      copy_elsewhere j n = elim (range_cases base_pages j) [
        | inl far ↦
            page_of_grown page base base_pages grown after slots j far
            ∙ sym (page_of_grown page base base_pages grown pool slots j far)
        | inr near ↦ copy_near j n near
      ]

      copy_well : IsCow page base base_pages grown after slots
      copy_well = record {
        copies = w.copies;
        grown_pages = w.grown_pages;
        base_size = w.base_size;
        grown_size = w.grown_size;
        pool_size = c.same ∙ w.pool_size;
        slot_count = w.slot_count;
        in_pool = w.in_pool;
        unshared = w.unshared;
        counted = w.counted;
        few = w.few;
      }

  module _ (base : Bytes) (base_pages : ℕ) (grown pool : Bytes) (slots : List ℕ) (idx : ℕ)
      (pos : 0 < page) (w : IsCow page base base_pages grown pool slots)
      (low : idx < base_pages) where
    base-Rewritten :
        (pool' after : Bytes) (slots' : List ℕ)
        (d : Copied page base base_pages grown pool slots idx pos w low pool' slots')
        → Changed pool' d.slot after
        → Rewritten page
            (cow base base_pages grown pool slots)
            idx
            f
            (cow base base_pages grown after slots')
    unfolding len Option.bind
    base-Rewritten pool' after slots' d c = record {
      result =
          page_mut-base base base_pages grown pool slots idx w low
          ∙ rw (d.result, d.at_slot, c.done) refl;
      well =
          copy_well base base_pages grown pool' slots' idx d.well after d.slot low d.at_slot
            d.private c;
      here =
          copy_here base base_pages grown pool' slots' idx d.well after d.slot low d.at_slot
            d.private c
          ∙ ap (Option.map f) (d.same idx);
      elsewhere = λ j n.
          copy_elsewhere base base_pages grown pool' slots' idx d.well after d.slot low d.at_slot
            d.private c j n
          ∙ d.same j;
      size = refl;
      base_kept = refl;
    }

    pub base_write : (p' : Paged) × Rewritten page (cow base base_pages grown pool slots) idx f p'
    base_write =
        let (pool', slots', d) =
          copy_up-Copied page base base_pages grown pool slots idx pos w low in
        let inside : d.slot * page + page ≤ length pool' = omega (
          arith,
          d.well.pool_size,
          inside_mul d.slot d.well.copies page (d.well.in_pool idx d.slot d.at_slot d.private),
        ) in
        let (after, c) = slice-Changed pool' d.slot inside in
        (cow base base_pages grown after slots', base-Rewritten pool' after slots' d c)
