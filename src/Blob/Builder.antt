-- ===== src/Blob/Builder.antt =====
-- `BlobHeapBuilder` is the index side of a heap: it accepts and refuses in step with the heap, and
-- dumps the same index.
use plugmem.Base.{ℕ, ◌+◌, ◌%◌, ◌^◌, ◌≡◌, refl, ap, arith}
use plugmem.Base.{List, [], ◌∷◌, ◌++◌, map, length, length-append, length-map}
use plugmem.Base.{Result, ok, err}
use plugmem.Base.Bytes.{Bytes, to_le}
use plugmem.Errors.{ArenaError}
use plugmem.Blob.{BlobHeap, BlobHeapBuilder, pool_len, blob_id, checked_add, push}
use plugmem.Blob.{push_len, put_lens, put_each, dump_index, builder_dump_index}
use plugmem.Blob.Push.{pushed}
use mathlib.Core.List.{map-append}
use mathlib.Core.Path.{ap₂}

abbrev lens_of : List (ℕ × ℕ) → List ℕ
lens_of index = map (λ (e : ℕ × ℕ). e.1) index

-- What a builder keeps of a heap.
unfoldable pub builder_of : BlobHeap → BlobHeapBuilder
builder_of h = record { lens = lens_of h.index; pool_len = pool_len h; cfg = h.cfg }

abbrev pub on_builder : Result ArenaError (ℕ × BlobHeap) → Result ArenaError (ℕ × BlobHeapBuilder)
on_builder (ok (id, h)) = ok (id, builder_of h)
on_builder (err e) = err e

put_each-lens_of : (index : List (ℕ × ℕ)) → put_each (lens_of index) ≡ put_lens index
unfolding put_each put_lens
put_each-lens_of [] = refl
put_each-lens_of ((offset, len) ∷ index) = ap (λ t. to_le 4 len ++ t) (put_each-lens_of index)

module _ (h : BlobHeap) (bytes : Bytes) where
  lens_of-pushed : lens_of (pushed h bytes).index ≡ lens_of h.index ++ (length bytes % 2 ^ 32 ∷ [])
  lens_of-pushed = rw map-append

  pool_len-pushed : pool_len (pushed h bytes) ≡ pool_len h + length bytes
  unfolding pool_len
  pool_len-pushed = omega (arith, length-append h.tail bytes)

-- A builder that is told the lengths of the blobs that a heap is given accepts the same ones, refuses
-- the others with the same error, hands out the same ids, and dumps the same index bytes.
pub push_len-push :
    (h : BlobHeap) (bytes : Bytes)
    → (push_len (builder_of h) (length bytes) ≡ on_builder (push h bytes))
      × (builder_dump_index (builder_of h) ≡ dump_index h)
unfolding push_len push builder_dump_index dump_index builder_of checked_add blob_id
push_len-push h bytes =
    let count : length (lens_of h.index) ≡ length h.index = length-map h.index _ in
    (
      rw count (ground (arith, lens_of-pushed h bytes, pool_len-pushed h bytes)),
      ap₂ (λ n t. to_le 4 (n % 2 ^ 32) ++ t) count (put_each-lens_of h.index),
    )
