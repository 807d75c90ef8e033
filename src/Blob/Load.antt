-- ===== src/Blob/Load.antt =====
-- `load` and `load_borrowed` give a dumped heap back.
use plugmem.Base.{ℕ, ◌+◌, ◌-◌, ◌*◌, ◌%◌, ◌^◌, ◌≤◌, ◌<◌, ◌≡◌, refl, sym, arith}
use plugmem.Base.{List, [], ◌∷◌, ◌++◌, length, take, drop, All, length-append, append_assoc}
use plugmem.Base.{append-nil, take_front, drop_front}
use plugmem.Base.{ok, err}
use plugmem.Base.Bytes.{to_le, from_le, length-to_le, from_le-to_le}
use plugmem.Errors.{ArenaError}
use plugmem.Blob.{BlobHeapCfg, BlobHeap, put_lens, dump_index, dump_pool, read_lens, validate_index}
use plugmem.Blob.{load, load_borrowed}
use plugmem.Blob.Pool.{Laid, Laid-append, Laid-le, IsHeap, Narrow, owned, borrowed}
use mathlib.Core.Path.{subst}

length-put_lens : (index : List (ℕ × ℕ)) → length (put_lens index) ≡ length index * 4
unfolding put_lens
length-put_lens [] = refl
length-put_lens ((offset, len) ∷ index) =
    omega (
      arith,
      length-append (to_le 4 len) (put_lens index),
      length-to_le 4 len,
      length-put_lens index,
    )

module _ (cfg : BlobHeapCfg) (pool_len : ℕ) where
  -- The loop reads back the entries that were written.
  read_lens-put_lens :
      (index : List (ℕ × ℕ)) (offset : ℕ) (acc : List (ℕ × ℕ))
      → cfg.max_blob < 2 ^ 32
      → Laid offset index pool_len
      → All (Narrow cfg) index
      → read_lens cfg pool_len (length index) (put_lens index) offset acc ≡ ok (acc ++ index)
  unfolding read_lens put_lens
  read_lens-put_lens [] offset acc hc hl hn = rw append-nil (ground arith)
  read_lens-put_lens ((start, len) ∷ index) offset acc hc hl hn =
      let four : length (to_le 4 len) ≡ 4 = length-to_le 4 len in
      let here : start ≡ offset = hl.0 in
      rw
        (
          take_front 4 (to_le 4 len) (put_lens index) four,
          drop_front 4 (to_le 4 len) (put_lens index) four,
          from_le-to_le 4 len (omega (arith, hn.0)),
          here,
          read_lens-put_lens index (offset + len) (acc ++ ((offset, len) ∷ [])) hc hl.1 hn.1,
          append_assoc acc,
        )
        (ground (arith, hn.0, Laid-le (offset + len) pool_len index hl.1))

module _ (h : BlobHeap) (i : IsHeap h) where
  all-Laid : Laid 0 h.index (length (dump_pool h))
  unfolding dump_pool
  all-Laid = rw (length-append h.base h.tail) (
      subst (λ ix. Laid 0 ix (length h.base + length h.tail)) (sym i.index)
        (Laid-append 0 (length h.base) _ i.old i.fresh i.in_base i.in_tail))

  length-dump_pool : length (dump_pool h) ≤ h.cfg.max_bytes
  unfolding dump_pool
  length-dump_pool = omega (arith, length-append h.base h.tail, i.bounded)

  count_field : from_le (take 4 (dump_index h)) ≡ length h.index
  unfolding dump_index
  count_field =
      let n : ℕ = length h.index % 2 ^ 32 in
      rw (take_front 4 (to_le 4 n) (put_lens h.index) (length-to_le 4 n))
        (omega (arith, from_le-to_le 4 n (omega arith), i.count))

  length-dump_index : length (dump_index h) ≡ 4 + length h.index * 4
  unfolding dump_index
  length-dump_index =
      let n : ℕ = length h.index % 2 ^ 32 in
      omega (
        arith,
        length-append (to_le 4 n) (put_lens h.index),
        length-to_le 4 n,
        length-put_lens h.index,
      )

  lens_field : drop 4 (dump_index h) ≡ put_lens h.index
  unfolding dump_index
  lens_field =
      let n : ℕ = length h.index % 2 ^ 32 in
      drop_front 4 (to_le 4 n) (put_lens h.index) (length-to_le 4 n)

  validate_index-dump :
      h.cfg.max_blob < 2 ^ 32
      → length h.index < 2 ^ 32 - 1
      → validate_index h.cfg (dump_index h) (length (dump_pool h)) ≡ ok h.index
  unfolding validate_index
  validate_index-dump narrow few =
      rw
        (
          count_field,
          length-dump_index,
          lens_field,
          read_lens-put_lens h.cfg (length (dump_pool h)) h.index 0 [] narrow all-Laid i.lens,
        )
        (ground (arith, length-dump_pool))

  -- A dumped heap loads again, owned or borrowed, with the same index over the same pool, if its blobs
  -- are held to less than 2 ^ 32 bytes and it has fewer than 2 ^ 32 - 1 of them.
  pub load-dump :
      h.cfg.max_blob < 2 ^ 32
      → length h.index < 2 ^ 32 - 1
      → (load h.cfg (dump_index h) (dump_pool h) ≡ ok (owned h.cfg h.index (dump_pool h)))
        × (load_borrowed h.cfg (dump_index h) (dump_pool h)
            ≡ ok (borrowed h.cfg h.index (dump_pool h)))
  unfolding load load_borrowed
  load-dump narrow few = (rw (validate_index-dump narrow few), rw (validate_index-dump narrow few))

  -- `push` hands out the id 2 ^ 32 - 2, but the dump of a heap with 2 ^ 32 - 1 blobs is refused.
  pub load-dump_full :
      length h.index ≡ 2 ^ 32 - 1
      → load h.cfg (dump_index h) (dump_pool h)
        ≡ err (ArenaError.corrupt "blob count overflows the id space")
  unfolding load validate_index
  load-dump_full full = rw (count_field, length-dump_index, full) refl
