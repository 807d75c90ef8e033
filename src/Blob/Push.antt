-- ===== src/Blob/Push.antt =====
-- `BlobHeap::push`: what it adds, what it keeps, and when it refuses.
use plugmem.Base.{ℕ, ◌+◌, ◌-◌, ◌%◌, ◌^◌, ◌≤◌, ◌<◌, ◌≡◌, refl, sym, ap, ◌∙◌, arith}
use plugmem.Base.{List, [], ◌∷◌, ◌++◌, map, length, take, All, length-append, append_assoc}
use plugmem.Base.{All-append, some, get_elem?}
use plugmem.Base.{ok, drop-append, drop_front, length-map}
use plugmem.Base.Bytes.{Bytes, IsU32}
use plugmem.Blob.{BlobHeap, pool_len, slice, blob_id, checked_add, push, get}
use plugmem.Blob.Pool.{Laid-append, Laid-Within, Within, cut, cut-left, blobs, IsHeap}
use mathlib.Core.List.{map-append}
use mathlib.Core.Path.{subst, ap₂}

-- The four limits that `push` tests.
pub record Fits (h : BlobHeap) (bytes : Bytes) : Type 0 where
  pub blob : length bytes ≤ h.cfg.max_blob
  pub pool : pool_len h + length bytes ≤ h.cfg.max_bytes
  pub usize : pool_len h + length bytes < 2 ^ 64
  pub ids : length h.index < 2 ^ 32 - 1

-- The heap behind a push.
abbrev pub pushed : BlobHeap → Bytes → BlobHeap
pushed h bytes = record h {
  tail = h.tail ++ bytes;
  index = h.index ++ ((pool_len h, length bytes % 2 ^ 32) ∷ []);
}

module _ (h : BlobHeap) (bytes : Bytes) where
  pub push-Fits : Fits h bytes → push h bytes ≡ ok (length h.index, pushed h bytes)
  unfolding push checked_add blob_id
  push-Fits f = ground arith

  pub Fits-push :
      (id : ℕ) (h' : BlobHeap)
      → push h bytes ≡ ok (id, h')
      → Fits h bytes × (id ≡ length h.index) × (h' ≡ pushed h bytes)
  unfolding push checked_add blob_id
  Fits-push id h' e = (
    record { blob = ground arith; pool = ground arith; usize = ground arith; ids = ground arith },
    ground arith,
    ground arith,
  )

-- What stands behind an index of entries is the next one.
get_elem?-end :
    (index : List (ℕ × ℕ)) (e : ℕ × ℕ) → get_elem? (index ++ (e ∷ [])) (length index) ≡ some e
get_elem?-end [] e = refl
get_elem?-end (x ∷ index) e = get_elem?-end index e

map-cut_left :
    (p q : Bytes) (index : List (ℕ × ℕ))
    → All (Within 0 (length p)) index
    → map (cut (p ++ q)) index ≡ map (cut p) index
map-cut_left p q [] w = refl
map-cut_left p q ((offset, len) ∷ index) w =
    ap₂ (λ x xs. x ∷ xs) (cut-left p q offset len w.0.1) (map-cut_left p q index w.1)

take-all {ℓ} : {A : Type ℓ} (xs : List A) → take (length xs) xs ≡ xs
take-all [] = refl
take-all (x ∷ xs) = ap (λ t. x ∷ t) (take-all xs)

module _ (h : BlobHeap) (bytes : Bytes) where
  slice-pushed :
      slice (pushed h bytes) (pool_len h) (length bytes % 2 ^ 32)
      ≡ some (take (length bytes % 2 ^ 32) bytes)
  unfolding slice pool_len
  slice-pushed =
      let past : (length h.base + length h.tail) - length h.base ≡ length h.tail = omega arith in
      rw (past, drop-append h.tail bytes) (ground (arith, length-append h.tail bytes))

  pushed_low : get (pushed h bytes) (length h.index) ≡ some (take (length bytes % 2 ^ 32) bytes)
  unfolding get
  pushed_low = rw (get_elem?-end h.index (pool_len h, length bytes % 2 ^ 32), get) slice-pushed

  -- Whatever the limits are, a new blob is found again up to the length that its 32-bit entry holds.
  pub get-push_low :
      (id : ℕ) (h' : BlobHeap)
      → push h bytes ≡ ok (id, h')
      → get h' id ≡ some (take (length bytes % 2 ^ 32) bytes)
  get-push_low id h' e =
      let (f, new_id, same) = Fits-push h bytes id h' e in rw (same, new_id) pushed_low

  module _ (i : IsHeap h) where
    index-Within : All (Within 0 (pool_len h)) h.index
    unfolding pool_len
    index-Within = subst (All (Within 0 (length h.base + length h.tail))) (sym i.index) (
        Laid-Within 0 0 _ _ (i.old ++ i.fresh) (omega arith) (omega arith)
          (Laid-append 0 (length h.base) _ i.old i.fresh i.in_base i.in_tail))

    blobs-pushed : IsU32 (length bytes) → blobs (pushed h bytes) ≡ blobs h ++ (bytes ∷ [])
    unfolding blobs pool_len
    blobs-pushed short =
        let pool : Bytes = h.base ++ h.tail in
        let size : length pool ≡ length h.base + length h.tail = length-append h.base h.tail in
        let whole : h.base ++ (h.tail ++ bytes) ≡ pool ++ bytes =
          sym (append_assoc h.base h.tail bytes) in
        let small : length bytes % 2 ^ 32 ≡ length bytes = omega arith in
        rw (whole, map-append, small)
          (ap₂ (λ l b. l ++ (b ∷ [])) (map-cut_left pool bytes h.index (rw size index-Within))
            (ap (take (length bytes)) (drop_front (pool_len h) pool bytes size) ∙ take-all bytes))

    IsHeap-pushed : IsU32 (length bytes) → Fits h bytes → IsHeap (pushed h bytes)
    unfolding pool_len
    IsHeap-pushed short f = record {
      old = i.old;
      fresh = i.fresh ++ ((pool_len h, length bytes % 2 ^ 32) ∷ []);
      index = rw i.index (append_assoc i.old i.fresh _);
      in_base = i.in_base;
      in_tail =
          Laid-append (length h.base) (pool_len h) _ i.fresh _ i.in_tail
            (refl, omega (arith, length-append h.tail bytes));
      bounded = omega (arith, length-append h.tail bytes, f.pool);
      lens = All-append _ h.index _ i.lens (omega (arith, f.blob), tt);
      count =
          omega (arith, length-append h.index ((pool_len h, length bytes % 2 ^ 32) ∷ []), f.ids);
    }

-- Behind a push that succeeds on a well-formed heap whose blobs are held to less than 2 ^ 32 bytes,
-- the heap is well formed, its blobs are those before with the new one at the end, and the id that
-- is returned is the number of that blob.
pub push-IsHeap :
    (h h' : BlobHeap) (bytes : Bytes) (id : ℕ)
    → IsHeap h
    → h.cfg.max_blob < 2 ^ 32
    → push h bytes ≡ ok (id, h')
    → IsHeap h' × (blobs h' ≡ blobs h ++ (bytes ∷ [])) × (id ≡ length (blobs h))
push-IsHeap h h' bytes id i narrow e =
    let (f, new_id, same) = Fits-push h bytes id h' e in
    let short : length bytes < 2 ^ 32 = omega (arith, f.blob) in
    (
      subst IsHeap (sym same) (IsHeap-pushed h bytes i short f),
      ap blobs same ∙ blobs-pushed h bytes i short,
      new_id ∙ sym (unfold blobs in length-map h.index (cut (h.base ++ h.tail))),
    )
