-- ===== src/Blob/Accept.antt =====
-- `load` and `load_borrowed` accept nothing but the dump of a well-formed heap.
use plugmem.Base.{
  ℕ, zero, suc, ◌+◌, ◌-◌, ◌*◌, ◌%◌, ◌^◌, ◌≤◌, ◌<◌, ◌≡◌, ◌≢◌, ◌⊎◌, inl, inr, refl, sym, ap, ◌∙◌,
  arith,
}
use plugmem.Base.{List, [], ◌∷◌, ◌++◌, length, take, drop, All, append_assoc}
use plugmem.Base.{append-nil, All-drop, take-append-drop, length-drop}
use plugmem.Base.{ok, ok_of_bind}
use plugmem.Base.Bytes.{Bytes, IsByte, from_le, to_le-field, field-lt}
use plugmem.Blob.{BlobHeapCfg, BlobHeap, put_lens, dump_index, dump_pool, read_lens, validate_index}
use plugmem.Blob.{load, load_borrowed}
use plugmem.Blob.Pool.{Laid, IsHeap, Narrow, owned, borrowed}
use mathlib.Core.Path.{subst}

no_bytes : (rest : Bytes) → length rest ≡ 0 → put_lens [] ≡ rest
unfolding put_lens
no_bytes [] h = refl
no_bytes (b ∷ rest) h = absurd (omega arith)

module _ (cfg : BlobHeapCfg) (pool_len : ℕ) where
  -- What the loop adds to the entries that it has.
  record Added (blobs : ℕ) (rest : Bytes) (offset : ℕ) (acc rebuilt : List (ℕ × ℕ)) : Type 0 where
    index : List (ℕ × ℕ)
    whole : rebuilt ≡ acc ++ index
    laid : Laid offset index pool_len
    narrow : All (Narrow cfg) index
    count : length index ≡ blobs
    bytes : put_lens index ≡ rest

  read_lens_done :
      (rest : Bytes) (offset : ℕ) (acc rebuilt : List (ℕ × ℕ))
      → read_lens cfg pool_len zero rest offset acc ≡ ok rebuilt
      → (offset ≡ pool_len) × (rebuilt ≡ acc)
  unfolding read_lens
  read_lens_done rest offset acc rebuilt e = ground arith

  read_lens_more :
      (blobs : ℕ) (rest : Bytes) (offset : ℕ) (acc rebuilt : List (ℕ × ℕ))
      → read_lens cfg pool_len (suc blobs) rest offset acc ≡ ok rebuilt
      → (from_le (take 4 rest) ≤ cfg.max_blob)
        × (read_lens cfg pool_len blobs
              (drop 4 rest)
              (offset + from_le (take 4 rest))
              (acc ++ ((offset, from_le (take 4 rest)) ∷ []))
            ≡ ok rebuilt)
  unfolding read_lens
  read_lens_more blobs rest offset acc rebuilt e = ground arith

  put_lens-field :
      (rest : Bytes) (offset : ℕ) (index : List (ℕ × ℕ))
      → All IsByte rest
      → 4 ≤ length rest
      → put_lens index ≡ drop 4 rest
      → put_lens ((offset, from_le (take 4 rest)) ∷ index) ≡ rest
  unfolding put_lens
  put_lens-field rest offset index hb long e =
      rw (to_le-field 4 rest hb long, e) (take-append-drop 4 rest)

  read_lens-Added :
      (blobs : ℕ) (rest : Bytes) (offset : ℕ) (acc rebuilt : List (ℕ × ℕ))
      → All IsByte rest
      → length rest ≡ blobs * 4
      → read_lens cfg pool_len blobs rest offset acc ≡ ok rebuilt
      → Added blobs rest offset acc rebuilt
  read_lens-Added zero rest offset acc rebuilt hb hl e =
      let (done, same) = read_lens_done rest offset acc rebuilt e in
      record {
        index = [];
        whole = same ∙ sym (append-nil acc);
        laid = done;
        narrow = tt;
        count = refl;
        bytes = no_bytes rest (omega arith);
      }
  read_lens-Added (suc blobs) rest offset acc rebuilt hb hl e =
      let len : ℕ = from_le (take 4 rest) in
      let (small, more) = read_lens_more blobs rest offset acc rebuilt e in
      let r : Added blobs (drop 4 rest) (offset + len) (acc ++ ((offset, len) ∷ [])) rebuilt =
        read_lens-Added blobs (drop 4 rest) (offset + len) (acc ++ ((offset, len) ∷ [])) rebuilt
          (All-drop IsByte 4 rest hb) (omega (arith, length-drop 4 rest)) more in
      record {
        index = (offset, len) ∷ r.index;
        whole = r.whole ∙ append_assoc acc ((offset, len) ∷ []) r.index;
        laid = (refl, r.laid);
        narrow = (small, r.narrow);
        count = ap suc r.count;
        bytes = put_lens-field rest offset r.index hb (omega arith) r.bytes;
      }

-- What `validate_index` has tested when it accepts.
record Accepted (cfg : BlobHeapCfg) (bytes : Bytes) (pool_len : ℕ) (index : List (ℕ × ℕ))
    : Type 0 where
  prefix : 4 ≤ length bytes
  count : from_le (take 4 bytes) ≢ 2 ^ 32 - 1
  size : length bytes ≡ 4 + from_le (take 4 bytes) * 4
  bounded : pool_len ≤ cfg.max_bytes
  entries : read_lens cfg pool_len (from_le (take 4 bytes)) (drop 4 bytes) 0 [] ≡ ok index

module _ (cfg : BlobHeapCfg) (bytes pool : Bytes) (index : List (ℕ × ℕ)) where
  validate_index-Accepted :
      validate_index cfg bytes (length pool) ≡ ok index → Accepted cfg bytes (length pool) index
  unfolding validate_index
  validate_index-Accepted e = record {
    prefix = ground arith;
    count = ground arith;
    size = ground arith;
    bounded = ground arith;
    entries = ground arith;
  }

  module _ (hb : All IsByte bytes) (v : validate_index cfg bytes (length pool) ≡ ok index) where
    accepted : Accepted cfg bytes (length pool) index
    accepted = validate_index-Accepted v

    added : Added cfg (length pool) (from_le (take 4 bytes)) (drop 4 bytes) 0 [] index
    added =
        read_lens-Added cfg (length pool) (from_le (take 4 bytes)) (drop 4 bytes) 0 [] index
          (All-drop IsByte 4 bytes hb) (omega (arith, length-drop 4 bytes, accepted.size))
          accepted.entries

    count-lt : length index < 2 ^ 32 - 1
    count-lt = omega (
      arith,
      added.count,
      ap (λ (l : List (ℕ × ℕ)). length l) added.whole,
      accepted.count,
      field-lt 4 bytes hb accepted.prefix,
    )

    laid : Laid 0 index (length pool)
    laid = subst (λ ix. Laid 0 ix (length pool)) (sym added.whole) added.laid

    IsHeap-owned : IsHeap (owned cfg index pool)
    IsHeap-owned = record {
      old = [];
      fresh = index;
      index = refl;
      in_base = refl;
      in_tail = subst (Laid 0 index) (omega arith) laid;
      bounded = omega (arith, accepted.bounded);
      lens = subst (All (Narrow cfg)) (sym added.whole) added.narrow;
      count = omega (arith, count-lt);
    }

    IsHeap-borrowed : IsHeap (borrowed cfg index pool)
    IsHeap-borrowed = record {
      old = index;
      fresh = [];
      index = sym (append-nil index);
      in_base = laid;
      in_tail = omega arith;
      bounded = omega (arith, accepted.bounded);
      lens = subst (All (Narrow cfg)) (sym added.whole) added.narrow;
      count = omega (arith, count-lt);
    }

    index-dumped : (h : BlobHeap) → h.index ≡ index → dump_index h ≡ bytes
    unfolding dump_index
    index-dumped h same =
        let n : length index ≡ from_le (take 4 bytes) =
          ap (λ (l : List (ℕ × ℕ)). length l) added.whole ∙ added.count in
        let whole : length index % 2 ^ 32 ≡ from_le (take 4 bytes) = omega (arith, n, count-lt) in
        let rest : put_lens index ≡ drop 4 bytes = ap put_lens added.whole ∙ added.bytes in
        rw (same, whole, rest, to_le-field 4 bytes hb accepted.prefix) (take-append-drop 4 bytes)

-- When a load accepts an index and a pool, the heap that it gives is well formed, and its dumps are
-- exactly the bytes that were loaded.
pub load_sound :
    (cfg : BlobHeapCfg) (bytes pool : Bytes) (h : BlobHeap)
    → All IsByte bytes
    → (load cfg bytes pool ≡ ok h) ⊎ (load_borrowed cfg bytes pool ≡ ok h)
    → IsHeap h × (dump_index h ≡ bytes) × (dump_pool h ≡ pool)
unfolding load load_borrowed dump_pool
load_sound cfg bytes pool h hb (inl e) =
    let (index, same, v) = ok_of_bind (validate_index cfg bytes (length pool)) _ h e in
    let r : owned cfg index pool ≡ h = cc in
    (
      subst IsHeap r (IsHeap-owned cfg bytes pool index hb v),
      index-dumped cfg bytes pool index hb v h (ap (λ (g : BlobHeap). g.index) (sym r)),
      ap (λ (g : BlobHeap). g.base ++ g.tail) (sym r),
    )
load_sound cfg bytes pool h hb (inr e) =
    let (index, same, v) = ok_of_bind (validate_index cfg bytes (length pool)) _ h e in
    let r : borrowed cfg index pool ≡ h = cc in
    (
      subst IsHeap r (IsHeap-borrowed cfg bytes pool index hb v),
      index-dumped cfg bytes pool index hb v h (ap (λ (g : BlobHeap). g.index) (sym r)),
      ap (λ (g : BlobHeap). g.base ++ g.tail) (sym r) ∙ append-nil pool,
    )
