-- ===== src/Paged.antt =====
-- crates/plugmem-arena/src/paged.rs: bytes addressed by pages, owned or borrowed with copies of the pages
-- that were written. `none` is the panic of an index out of range. A `&mut [u8]` that is given out is the
-- function `f` that its holder applies to the page.
pub mod Slices
pub mod Place
pub mod Copy
pub mod Write
pub mod Overlay
mod Tests
use plugmem.Base.{
  ℕ, zero, suc, ◌+◌, ◌-◌, ◌*◌, ◌/◌, ◌%◌, ◌^◌, List, [], ◌∷◌, ◌++◌, length, take, drop,
}
use plugmem.Base.{Option, none, some, get_elem?, ltb, leb, ◌==◌, if◌then◌else◌}
use plugmem.Base.Bytes.{Bytes}
use plugmem.Errors.{none_id}
use mathlib.Core.Option

pub data Paged : Type 0 where
  owned : Bytes → Paged
  cow : Bytes → ℕ → Bytes → Bytes → List ℕ → Paged

-- `vec![x; n]`
unfoldable pub replicate {ℓ} : {A : Type ℓ} → ℕ → A → List A
replicate zero x = []
replicate (suc n) x = x ∷ replicate n x

-- `v[i] = x`, where `i` is in range.
unfoldable pub set {ℓ} : {A : Type ℓ} → List A → ℕ → A → List A
set [] i x = []
set (y ∷ ys) zero x = x ∷ ys
set (y ∷ ys) (suc i) x = y ∷ set ys i x

-- `&v[i * PAGE..i * PAGE + PAGE]`
unfoldable pub slice_of : ℕ → Bytes → ℕ → Option Bytes
slice_of page v i =
    if leb (i * page + page) (length v) then some (take page (drop (i * page) v)) else none

-- `&mut v[i * PAGE..i * PAGE + PAGE]`, with what is done to it.
unfoldable pub slice_mut : ℕ → Bytes → ℕ → (Bytes → Bytes) → Option Bytes
slice_mut page v i f =
    if leb (i * page + page) (length v)
    then some (take (i * page) v ++ (f (take page (drop (i * page) v)) ++ drop (i * page + page) v))
    else none

abbrev pub owned_empty : Paged
owned_empty = owned []

abbrev pub owned_from : Bytes → Paged
owned_from bytes = owned bytes

unfoldable pub borrowed : ℕ → Bytes → Paged
borrowed page base =
    let base_pages : ℕ = length base / page in
    cow base base_pages [] [] (replicate base_pages none_id)

unfoldable pub len : Paged → ℕ
len (owned v) = length v
len (cow base base_pages grown over_pool over_slot) = length base + length grown

unfoldable pub page_of : ℕ → Paged → ℕ → Option Bytes
page_of page (owned v) idx = slice_of page v idx
page_of page (cow base base_pages grown over_pool over_slot) idx =
    if leb base_pages idx
    then slice_of page grown (idx - base_pages)
    else elim (get_elem? over_slot idx) [
      | none ↦ none
      | some slot ↦ if slot == none_id then slice_of page base idx else slice_of page over_pool slot
    ]

-- A base page is copied before its first write.
unfoldable pub copy_up : ℕ → Bytes → Bytes → List ℕ → ℕ → Option (Bytes × List ℕ)
copy_up page base over_pool over_slot idx = elim (get_elem? over_slot idx) [
  | none ↦ none
  | some slot ↦
      if slot == none_id
      then Option.map
          (λ copy. (over_pool ++ copy, set over_slot idx (length over_pool / page % 2 ^ 32)))
          (slice_of page base idx)
      else some (over_pool, over_slot)
]

unfoldable pub page_mut : ℕ → Paged → ℕ → (Bytes → Bytes) → Option Paged
page_mut page (owned v) idx f = Option.map owned (slice_mut page v idx f)
page_mut page (cow base base_pages grown over_pool over_slot) idx f =
    if leb base_pages idx
    then Option.map (λ g. cow base base_pages g over_pool over_slot)
        (slice_mut page grown (idx - base_pages) f)
    else Option.bind (copy_up page base over_pool over_slot idx) λ copied.
      Option.bind (get_elem? copied.1 idx) λ slot.
        Option.map (λ pool. cow base base_pages grown pool copied.1)
          (slice_mut page copied.0 slot f)

-- `grown_tail_mut`, with what is appended to the tail that it gives out.
unfoldable pub grow_tail : Paged → Bytes → Paged
grow_tail (owned v) more = owned (v ++ more)
grow_tail (cow base base_pages grown over_pool over_slot) more =
    cow base base_pages (grown ++ more) over_pool over_slot
