-- ===== src/Paged/Place.antt =====
-- The invariant of a paged pool, and copying a base page up.
use plugmem.Base.{ℕ, zero, suc, ◌+◌, ◌-◌, ◌*◌, ◌^◌, ◌≤◌, ◌<◌, ◌≡◌, ◌≢◌, refl, ap}
use plugmem.Base.{List, [], ◌∷◌, length, some, get_elem?, arith, ◌==◌, if◌then◌else◌}
use plugmem.Base.Bytes.{Bytes}
use plugmem.Errors.{none_id}
use plugmem.Paged.{Paged, owned, cow, replicate, set, slice_of, page_of}

module _ {ℓ} {A : Type ℓ} where
  pub length-set : (xs : List A) (i : ℕ) (x : A) → length (set xs i x) ≡ length xs
  unfolding set
  length-set [] i x = refl
  length-set (y ∷ ys) zero x = refl
  length-set (y ∷ ys) (suc i) x = ap suc (length-set ys i x)

  pub get-set_same :
      (xs : List A) (i : ℕ) (x : A) → i < length xs → get_elem? (set xs i x) i ≡ some x
  unfolding set
  get-set_same [] i x h = absurd (omega arith)
  get-set_same (y ∷ ys) zero x h = refl
  get-set_same (y ∷ ys) (suc i) x h = get-set_same ys i x (omega arith)

  pub get-set_other :
      (xs : List A) (i j : ℕ) (x : A) → j ≢ i → get_elem? (set xs i x) j ≡ get_elem? xs j
  unfolding set
  get-set_other [] i j x n = refl
  get-set_other (y ∷ ys) zero zero x n = absurd (n refl)
  get-set_other (y ∷ ys) zero (suc j) x n = refl
  get-set_other (y ∷ ys) (suc i) zero x n = refl
  get-set_other (y ∷ ys) (suc i) (suc j) x n = get-set_other ys i j x λ e. n (ap suc e)

  pub length-replicate : (n : ℕ) (x : A) → length (replicate n x) ≡ n
  unfolding replicate
  length-replicate zero x = refl
  length-replicate (suc n) x = ap suc (length-replicate n x)

  pub get-replicate : (n : ℕ) (x : A) (i : ℕ) → i < n → get_elem? (replicate n x) i ≡ some x
  unfolding replicate
  get-replicate zero x i h = absurd (omega arith)
  get-replicate (suc n) x zero h = refl
  get-replicate (suc n) x (suc i) h = get-replicate n x i (omega arith)

  pub get-in : (xs : List A) (i : ℕ) → i < length xs → (x : A) × (get_elem? xs i ≡ some x)
  get-in [] i h = absurd (omega arith)
  get-in (y ∷ ys) zero h = (y, refl)
  get-in (y ∷ ys) (suc i) h = get-in ys i (omega arith)

-- The base pages that were not copied.
pub uncopied : List ℕ → ℕ
uncopied [] = 0
uncopied (s ∷ ss) = if s == none_id then suc (uncopied ss) else uncopied ss

pub uncopied-set :
    (ss : List ℕ) (i s : ℕ)
    → get_elem? ss i ≡ some none_id
    → s ≢ none_id
    → uncopied ss ≡ suc (uncopied (set ss i s))
unfolding uncopied set
uncopied-set [] i s h n = cc
uncopied-set (x ∷ ss) zero s h n = ground arith
uncopied-set (x ∷ ss) (suc i) s h n = ground (arith, uncopied-set ss i s h n)

pub uncopied_pos : (ss : List ℕ) (i : ℕ) → get_elem? ss i ≡ some none_id → 0 < uncopied ss
unfolding uncopied
uncopied_pos [] i h = cc
uncopied_pos (s ∷ ss) zero h = ground arith
uncopied_pos (s ∷ ss) (suc i) h = ground (arith, uncopied_pos ss i h)

pub uncopied-replicate : (n : ℕ) → uncopied (replicate n none_id) ≡ n
unfolding uncopied replicate
uncopied-replicate zero = refl
uncopied-replicate (suc n) = ap suc (uncopied-replicate n)

-- What holds of the parts of a pool with a borrowed base of `base_pages` pages: every redirect points at a
-- copy, no two base pages share one, and there are as many copies as copied pages.
pub record IsCow (page : ℕ) (base : Bytes) (base_pages : ℕ) (grown over_pool : Bytes)
    (over_slot : List ℕ) : Type 0 where
  pub copies : ℕ
  pub grown_pages : ℕ
  pub base_size : length base ≡ base_pages * page
  pub grown_size : length grown ≡ grown_pages * page
  pub pool_size : length over_pool ≡ copies * page
  pub slot_count : length over_slot ≡ base_pages
  pub in_pool : (i s : ℕ) → get_elem? over_slot i ≡ some s → s ≢ none_id → s < copies
  pub unshared :
      (i j s : ℕ)
      → get_elem? over_slot i ≡ some s
      → get_elem? over_slot j ≡ some s
      → s ≢ none_id
      → i ≡ j
  pub counted : copies + uncopied over_slot ≡ base_pages
  pub few : base_pages < 2 ^ 32

abbrev pub IsPaged : ℕ → Paged → Type 0
IsPaged page (owned v) = (pages : ℕ) × (length v ≡ pages * page)
IsPaged page (cow base base_pages grown over_pool over_slot) =
    IsCow page base base_pages grown over_pool over_slot

module _ (page : ℕ) (base : Bytes) (base_pages : ℕ) (grown pool : Bytes) (slots : List ℕ)
    (idx : ℕ) where
  pub page_of_grown :
      base_pages ≤ idx
      → page_of page (cow base base_pages grown pool slots) idx
        ≡ slice_of page grown (idx - base_pages)
  unfolding page_of
  page_of_grown h = ground arith

  pub page_of_base :
      idx < base_pages
      → get_elem? slots idx ≡ some none_id
      → page_of page (cow base base_pages grown pool slots) idx ≡ slice_of page base idx
  unfolding page_of
  page_of_base h e = rw e (ground arith)

  pub page_of_copy :
      (s : ℕ)
      → idx < base_pages
      → get_elem? slots idx ≡ some s
      → s ≢ none_id
      → page_of page (cow base base_pages grown pool slots) idx ≡ slice_of page pool s
  unfolding page_of
  page_of_copy s h e n = rw e (ground arith)
