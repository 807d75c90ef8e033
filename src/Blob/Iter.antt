-- ===== src/Blob/Iter.antt =====
-- `BlobHeap::iter`, the substrate of the owner's compaction pass.
use plugmem.Base.{
  ℕ, ◌+◌, ◌-◌, ◌%◌, ◌^◌, ◌≤◌, ◌<◌, ◌≡◌, refl, arith, List, [], ◌∷◌, ◌++◌, map, length, All,
}
use plugmem.Base.{Option, some}
use plugmem.Base.Bytes.{Bytes}
use plugmem.Blob.{BlobHeap, slice}
use plugmem.Blob.Pool.{IsHeap, blobs, cut, Found, All-Found}
use mathlib.Core.Option
use native.Mathlib.Nat.{mod-eq_of_lt}

-- From number `i` on; `none` is the panic of an entry that cannot be sliced.
unfoldable pub iter_from : BlobHeap → ℕ → List (ℕ × ℕ) → Option (List (ℕ × Bytes))
iter_from h i [] = some []
iter_from h i (e ∷ index) =
    Option.bind (slice h e.0 e.1)
      λ blob. Option.map (λ rest. (i % 2 ^ 32, blob) ∷ rest) (iter_from h (i + 1) index)

unfoldable pub iter : BlobHeap → Option (List (ℕ × Bytes))
iter h = iter_from h 0 h.index

-- Blobs with their numbers, from `i` on.
abbrev pub numbered : ℕ → List Bytes → List (ℕ × Bytes)
numbered i [] = []
numbered i (b ∷ bs) = (i, b) ∷ numbered (i + 1) bs

module _ (h : BlobHeap) where
  iter_from-numbered :
      (i : ℕ) (index : List (ℕ × ℕ))
      → All (Found h) index
      → i + length index ≤ 2 ^ 32 - 1
      → iter_from h i index ≡ some (numbered i (map (cut (h.base ++ h.tail)) index))
  unfolding iter_from Option.bind
  iter_from-numbered i [] f few = refl
  iter_from-numbered i (e ∷ index) f few =
      let small : i < 2 ^ 32 = omega (arith, few) in
      rw (f.0, iter_from-numbered (i + 1) index f.1 (omega (arith, few)), mod-eq_of_lt small) refl

  -- In a well-formed heap the iteration does not panic and gives every blob with its id, in order.
  pub iter-blobs : IsHeap h → iter h ≡ some (numbered 0 (blobs h))
  unfolding iter blobs
  iter-blobs w = iter_from-numbered 0 h.index (All-Found h w) (omega (arith, w.count))
