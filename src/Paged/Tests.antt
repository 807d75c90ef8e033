-- ===== src/Paged/Tests.antt =====
-- A small paged pool at work, and the theorems on paged pools at concrete inputs.
use plugmem.Base.{ℕ, ◌+◌, ◌*◌, ◌≤◌, ◌<◌, ◌≡◌, refl, arith, [], ◌∷◌}
use plugmem.Base.{some, none}
use plugmem.Base.Bytes.{Bytes}
use plugmem.Errors.{none_id}
use plugmem.Paged.{
  Paged, cow, replicate, set, slice_of, slice_mut, borrowed, len, page_of, copy_up, page_mut,
}
use plugmem.Paged.Slices.{KeepsLength}
use plugmem.Paged.Place.{IsPaged}
use plugmem.Paged.Write.{Rewritten}
use plugmem.Paged.Overlay.{page_mut-Rewritten, borrowed-IsPaged, Grown, grow_tail-Grown}
use mathlib.Core.Option

-- Two pages of two bytes, borrowed.
abbrev base : Bytes
base = 1 ∷ 2 ∷ 3 ∷ 4 ∷ []

abbrev first_seven : Bytes → Bytes
first_seven [] = []
first_seven (b ∷ bs) = 7 ∷ bs

first_seven-KeepsLength : KeepsLength first_seven
first_seven-KeepsLength [] = refl
first_seven-KeepsLength (b ∷ bs) = refl

-- The written page is in the pool of copies, and the base is as it was.
copied :
    page_mut 2 (borrowed 2 base) 1 first_seven
    ≡ some (cow base 2 [] (7 ∷ 4 ∷ []) (none_id ∷ 0 ∷ []))
unfolding page_mut borrowed replicate copy_up slice_of slice_mut set Option.bind
copied = refl

outside : page_mut 2 (borrowed 2 base) 2 first_seven ≡ none
unfolding page_mut borrowed replicate slice_mut
outside = refl

borrowed-IsPaged_example :
    IsPaged 2 (borrowed 2 base)
    × ((idx : ℕ) → idx < 2 → page_of 2 (borrowed 2 base) idx ≡ slice_of 2 base idx)
borrowed-IsPaged_example = borrowed-IsPaged 2 base 2 (omega arith) refl (omega arith)

len_base : 1 * 2 + 2 ≤ len (borrowed 2 base)
unfolding len borrowed
len_base = omega arith

page_mut-Rewritten_example : (p' : Paged) × Rewritten 2 (borrowed 2 base) 1 first_seven p'
page_mut-Rewritten_example =
    page_mut-Rewritten 2 (borrowed 2 base) 1 first_seven (omega arith) first_seven-KeepsLength
      borrowed-IsPaged_example.0 len_base

grow_tail-Grown_example : Grown 2 (borrowed 2 base) (8 ∷ 9 ∷ [])
grow_tail-Grown_example =
    grow_tail-Grown 2 (borrowed 2 base) (8 ∷ 9 ∷ []) (omega arith) refl borrowed-IsPaged_example.0
