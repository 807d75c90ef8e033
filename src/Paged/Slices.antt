-- ===== src/Paged/Slices.antt =====
-- Reading a page of a buffer after a page of it was written.
use plugmem.Base.{
  ℕ, zero, suc, ◌+◌, ◌-◌, ◌*◌, ◌≤◌, ◌<◌, ◌≡◌, ◌≢◌, refl, sym, ap, ◌∙◌, arith, ◌⊎◌, inl, inr,
}
use plugmem.Base.{◌++◌, length, take, drop, some}
use plugmem.Base.{
  length-append, length-take, length-drop, take-append_le, drop-append_le, drop-append_ge,
}
use plugmem.Base.{take_front, drop_front, drop-drop, append_assoc, take-append-drop}
use plugmem.Base.Bytes.{Bytes}
use plugmem.Paged.{slice_of, slice_mut}

pub slice_of-in :
    (page : ℕ) (v : Bytes) (i : ℕ)
    → i * page + page ≤ length v
    → slice_of page v i ≡ some (take page (drop (i * page) v))
unfolding slice_of
slice_of-in page v i h = ground arith

pub slice_mut-in :
    (page : ℕ) (v : Bytes) (i : ℕ) (f : Bytes → Bytes)
    → i * page + page ≤ length v
    → slice_mut page v i f
      ≡ some (take (i * page) v ++ (f (take page (drop (i * page) v)) ++ drop (i * page + page) v))
unfolding slice_mut
slice_mut-in page v i f h = ground arith

apart : (a b : ℕ) → a ≢ b → (a < b) ⊎ (b < a)
apart zero zero h = absurd (h refl)
apart zero (suc b) h = inl (omega arith)
apart (suc a) zero h = inr (omega arith)
apart (suc a) (suc b) h = elim (apart a b λ e. h (ap suc e)) [
  | inl l ↦ inl (omega (arith, l))
  | inr g ↦ inr (omega (arith, g))
]

-- Different pages do not overlap.
pub page_before : (i j page : ℕ) → i < j → i * page + page ≤ j * page
page_before i j page h = grind arith

-- A window that lies in the first of two parts, and one that lies in the second.
pub window_front :
    (page p : ℕ) (xs ys : Bytes)
    → p + page ≤ length xs
    → take page (drop p (xs ++ ys)) ≡ take page (drop p xs)
window_front page p xs ys h =
    rw (drop-append_le p xs ys (omega arith))
      (take-append_le page (drop p xs) ys (omega (arith, length-drop p xs)))

pub window_left :
    (at page p : ℕ) (v rest : Bytes)
    → p + page ≤ at
    → at ≤ length v
    → take page (drop p (take at v ++ rest)) ≡ take page (drop p v)
window_left at page p v rest h hl =
    let size : length (take at v) ≡ at = omega (arith, length-take at v) in
    window_front page p (take at v) rest (omega (arith, size))
    ∙ sym (window_front page p (take at v) (drop at v) (omega (arith, size)))
    ∙ ap (λ (t : Bytes). take page (drop p t)) (take-append-drop at v)

window_right :
    (at page p : ℕ) (front v : Bytes)
    → length front ≡ at
    → at ≤ p
    → take page (drop p (front ++ drop at v)) ≡ take page (drop p v)
window_right at page p front v h hl =
    let gap : at + (p - length front) ≡ p = omega arith in
    rw (drop-append_ge p front (drop at v) (omega arith), drop-drop (p - length front) at v, gap)
      refl

-- A function that keeps the length of a page.
abbrev pub KeepsLength : (Bytes → Bytes) → Type 0
KeepsLength f = (b : Bytes) → length (f b) ≡ length b

-- The buffer after a write to page `i`.
pub record Written (page : ℕ) (v : Bytes) (i : ℕ) (f : Bytes → Bytes) (v' : Bytes) : Type 0 where
  pub size : length v' ≡ length v
  pub here : slice_of page v' i ≡ some (f (take page (drop (i * page) v)))
  pub elsewhere : (j : ℕ) → j ≢ i → slice_of page v' j ≡ slice_of page v j

module _ (page : ℕ) (v : Bytes) (i : ℕ) (f : Bytes → Bytes) (keeps : KeepsLength f)
    (inside : i * page + page ≤ length v) where
  abbrev mid : Bytes
  mid = f (take page (drop (i * page) v))

  abbrev after : Bytes
  after = take (i * page) v ++ (mid ++ drop (i * page + page) v)

  length-front : length (take (i * page) v) ≡ i * page
  length-front = omega (arith, length-take (i * page) v)

  length-mid : length mid ≡ page
  length-mid =
      keeps (take page (drop (i * page) v))
      ∙ omega (arith, length-take page (drop (i * page) v), length-drop (i * page) v)

  length-after : length after ≡ length v
  length-after = omega (
    arith,
    length-append (take (i * page) v) (mid ++ drop (i * page + page) v),
    length-append mid (drop (i * page + page) v),
    length-front,
    length-mid,
    length-drop (i * page + page) v,
  )

  after-here : take page (drop (i * page) after) ≡ mid
  after-here =
      rw (drop_front (i * page) (take (i * page) v) (mid ++ drop (i * page + page) v) length-front)
        (take_front page mid (drop (i * page + page) v) length-mid)

  length-two : length (take (i * page) v ++ mid) ≡ i * page + page
  length-two = omega (arith, length-append (take (i * page) v) mid, length-front, length-mid)

  after-elsewhere :
      (j : ℕ) → j ≢ i → take page (drop (j * page) after) ≡ take page (drop (j * page) v)
  after-elsewhere j n = elim (apart j i n) [
    | inl l ↦
        window_left (i * page) page (j * page) v (mid ++ drop (i * page + page) v)
          (page_before j i page l) (omega (arith, inside))
    | inr g ↦
        ap (λ (t : Bytes). take page (drop (j * page) t))
          (sym (append_assoc (take (i * page) v) mid (drop (i * page + page) v)))
        ∙ window_right (i * page + page) page (j * page) (take (i * page) v ++ mid) v length-two
            (page_before i j page g)
  ]

  slice_of-after : (j : ℕ) → j ≢ i → slice_of page after j ≡ slice_of page v j
  unfolding slice_of
  slice_of-after j n = rw (length-after, after-elsewhere j n) refl

  -- A page inside the buffer is written, it alone changes, and it reads as what was done to it.
  pub slice_mut-Written : slice_mut page v i f ≡ some after × Written page v i f after
  slice_mut-Written = (
    slice_mut-in page v i f inside,
    record {
      size = length-after;
      here = slice_of-in page after i (omega (arith, length-after, inside)) ∙ ap some after-here;
      elsewhere = slice_of-after;
    },
  )
