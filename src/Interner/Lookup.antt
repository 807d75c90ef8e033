-- ===== src/Interner/Lookup.antt =====
-- `lookup` comes to an end, and an id that it returns is the string's.
use plugmem.Base.Outcomes.{returned, Returns}
use plugmem.Base.{ℕ, suc, ◌+◌, ◌-◌, ◌<◌, ◌≡◌, inl, inr, refl, sym, ap, ◌∙◌, arith}
use plugmem.Base.{length, Option, some}
use plugmem.Base.Bytes.{Bytes}
use plugmem.Paged.Copy.{range_cases}
use plugmem.Blob.{BlobHeap}
use plugmem.Blob
use plugmem.Interner.{Interner, Found, empty_at, known, probe, start, lookup_found, lookup}
use plugmem.Interner.Probe.{IsTable, mask, hole_lt, probe-Returns, probe-known}
use native.Mathlib.Nat.{mod-lt}

module _ (xxh3_64 : Bytes → ℕ) (t : Interner) (bytes : Bytes) (w : IsTable t.heap t.table) where
  start_low : start xxh3_64 t.table bytes < length t.table
  unfolding start
  start_low =
      let pos : 0 < length t.table = omega (arith, hole_lt t.heap bytes t.table w) in
      rw (mask t.heap bytes t.table w (xxh3_64 bytes)) (mod-lt (xxh3_64 bytes) pos)

  probe_ends : Returns (probe t.heap t.table bytes (length t.table) (start xxh3_64 t.table bytes))
  probe_ends =
      let at : ℕ = start xxh3_64 t.table bytes in
      let low : at < length t.table = start_low in
      let h : w.hole < length t.table = hole_lt t.heap bytes t.table w in
      elim (range_cases (suc w.hole) at) [
        | inl behind ↦
            probe-Returns t.heap bytes t.table w (w.hole + length t.table - at) (length t.table) at
              (omega arith) low (inr (omega arith))
        | inr before ↦
            probe-Returns t.heap bytes t.table w (w.hole - at) (length t.table) at (omega arith) low
              (inl (omega arith))
      ]

  lookup-returned :
      (f : Found)
      → probe t.heap t.table bytes (length t.table) (start xxh3_64 t.table bytes) ≡ returned f
      → lookup xxh3_64 t bytes ≡ returned (lookup_found f)
  unfolding lookup
  lookup-returned f e = rw (e, lookup) refl

  found_id :
      (f : Found) (id : ℕ)
      → probe t.heap t.table bytes (length t.table) (start xxh3_64 t.table bytes) ≡ returned f
      → lookup_found f ≡ some id
      → Blob.get t.heap id ≡ some bytes
  unfolding lookup_found
  found_id (empty_at idx) id e h = cc
  found_id (known n) id e h =
      let same : n ≡ id = cc in
      ap (λ (u : ℕ). Blob.get t.heap u) (sym same)
      ∙ probe-known t.heap bytes t.table (length t.table) (start xxh3_64 t.table bytes) n e

-- For every hash function, every string and every table of a power of two of slots with an empty one, whose
-- entries are ids of the heap: the lookup returns within as many probes as there are slots and does not
-- panic, and an id that it returns is the id of that very string in the heap.
pub lookup_sound :
    (xxh3_64 : Bytes → ℕ) (t : Interner) (bytes : Bytes)
    → IsTable t.heap t.table
    → (r : Option ℕ) × (lookup xxh3_64 t bytes ≡ returned r)
      × ((id : ℕ) → r ≡ some id → Blob.get t.heap id ≡ some bytes)
lookup_sound xxh3_64 t bytes w =
    let (f, e) = probe_ends xxh3_64 t bytes w in
    (
      lookup_found f,
      lookup-returned xxh3_64 t bytes w f e,
      λ id h. found_id xxh3_64 t bytes w f id e h,
    )
