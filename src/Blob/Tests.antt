-- ===== src/Blob/Tests.antt =====
-- Concrete runs of the heap, and its theorems at concrete inputs.
use plugmem.Base.{◌%◌, ◌^◌, ◌≡◌, inl, refl, arith, [], ◌∷◌, ◌++◌}
use plugmem.Base.{length, take, some, get_elem?, ok, err}
use plugmem.Base.Bytes.{Bytes, to_le, from_le}
use plugmem.Errors.{ArenaError}
use plugmem.Blob.{BlobHeapCfg, BlobHeap, pool_len, blob_id, checked_add, push, get}
use plugmem.Blob.{new, dump_index, dump_pool, load, load_borrowed}
use plugmem.Blob.{read_lens, validate_index, push_len, builder_dump_index}
use plugmem.Blob.Pool.{blobs, IsHeap, IsHeap-new, get-blobs, owned, borrowed}
use plugmem.Blob.Iter.{iter, numbered, iter-blobs}
use plugmem.Blob.Push.{pushed, push-IsHeap, get-push_low}
use plugmem.Blob.Load.{load-dump}
use plugmem.Blob.Accept.{load_sound}
use plugmem.Blob.Builder.{builder_of, on_builder, push_len-push}

abbrev small : BlobHeapCfg
small = record { max_bytes = 8; max_blob = 4 }

abbrev empty : BlobHeap
empty = new small

-- An old blob in the base and a new one in the tail.
abbrev two : BlobHeap
two = record { base = 1 ∷ 2 ∷ []; tail = 3 ∷ []; index = (0, 2) ∷ (2, 1) ∷ []; cfg = small }

two-IsHeap : IsHeap two
two-IsHeap = record {
  old = (0, 2) ∷ [];
  fresh = (2, 1) ∷ [];
  index = refl;
  in_base = (refl, refl);
  in_tail = (refl, refl);
  bounded = omega arith;
  lens = omega arith;
  count = omega arith;
}

push-two : push two (7 ∷ 8 ∷ []) ≡ ok (2, pushed two (7 ∷ 8 ∷ []))
unfolding push checked_add blob_id pool_len
push-two = refl

push_past : push two (1 ∷ 2 ∷ 3 ∷ 4 ∷ 5 ∷ []) ≡ err (ArenaError.blob_too_large 5 4)
unfolding push checked_add blob_id pool_len
push_past = refl

load_overrun :
    load small (to_le 4 1 ++ to_le 4 3) (1 ∷ [])
    ≡ err (ArenaError.corrupt "blob lengths overrun the pool")
unfolding load validate_index read_lens to_le from_le
load_overrun = refl

get-blobs_example : get two 1 ≡ get_elem? (blobs two) 1
get-blobs_example = get-blobs two 1 two-IsHeap

push-IsHeap_example :
    IsHeap (pushed two (7 ∷ 8 ∷ []))
    × (blobs (pushed two (7 ∷ 8 ∷ [])) ≡ blobs two ++ ((7 ∷ 8 ∷ []) ∷ []))
    × (2 ≡ length (blobs two))
push-IsHeap_example =
    push-IsHeap two (pushed two (7 ∷ 8 ∷ [])) (7 ∷ 8 ∷ []) 2 two-IsHeap (omega arith) push-two

get-push_low_example : get (pushed two (7 ∷ 8 ∷ [])) 2 ≡ some (take (2 % 2 ^ 32) (7 ∷ 8 ∷ []))
get-push_low_example = get-push_low two (7 ∷ 8 ∷ []) 2 (pushed two (7 ∷ 8 ∷ [])) push-two

load-dump_example :
    (load small (dump_index two) (dump_pool two) ≡ ok (owned small two.index (dump_pool two)))
    × (load_borrowed small (dump_index two) (dump_pool two)
        ≡ ok (borrowed small two.index (dump_pool two)))
load-dump_example = load-dump two two-IsHeap (omega arith) (omega arith)

abbrev three_bytes : BlobHeap
three_bytes = owned small ((0, 1) ∷ (1, 2) ∷ []) (5 ∷ 6 ∷ 7 ∷ [])

abbrev three_index : Bytes
three_index = 2 ∷ 0 ∷ 0 ∷ 0 ∷ 1 ∷ 0 ∷ 0 ∷ 0 ∷ 2 ∷ 0 ∷ 0 ∷ 0 ∷ []

load_three : load small three_index (5 ∷ 6 ∷ 7 ∷ []) ≡ ok three_bytes
unfolding load validate_index read_lens from_le
load_three = refl

load_sound_example :
    IsHeap three_bytes
    × (dump_index three_bytes ≡ three_index)
    × (dump_pool three_bytes ≡ 5 ∷ 6 ∷ 7 ∷ [])
load_sound_example =
    load_sound small three_index (5 ∷ 6 ∷ 7 ∷ []) three_bytes (omega arith) (inl load_three)

push_len-push_example :
    (push_len (builder_of two) 2 ≡ on_builder (push two (7 ∷ 8 ∷ [])))
    × (builder_dump_index (builder_of two) ≡ dump_index two)
push_len-push_example = push_len-push two (7 ∷ 8 ∷ [])

empty-IsHeap : IsHeap empty
empty-IsHeap = IsHeap-new small

iter-blobs_example : iter two ≡ some (numbered 0 (blobs two))
iter-blobs_example = iter-blobs two two-IsHeap
