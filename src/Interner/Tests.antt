-- ===== src/Interner/Tests.antt =====
-- A small interner at work, and its theorem at a concrete input.
use plugmem.Base.Outcomes.{returned}
use plugmem.Base.{ℕ, zero, suc, ◌≡◌, refl, arith, [], ◌∷◌, some, none, get_elem?, Option}
use plugmem.Base.Bytes.{Bytes}
use plugmem.Base.Order.{cmp_bytes}
use plugmem.Blob.{BlobHeap, range, slice}
use plugmem.Blob
use plugmem.Interner.{Interner, same_bytes, inspect, probe, start, lookup_found, lookup}
use plugmem.Interner.Probe.{IsTable}
use plugmem.Interner.Lookup.{lookup_sound}

-- "a" in the third of four slots, to which every string hashes.
abbrev one_term : Interner
one_term = record {
  heap = record {
    base = [];
    tail = 97 ∷ [];
    index = (0, 1) ∷ [];
    cfg = record { max_bytes = 8; max_blob = 4 };
  };
  table = 0 ∷ 0 ∷ 1 ∷ 0 ∷ [];
  len = 1;
}

abbrev hash : Bytes → ℕ
hash bytes = 6

looked_up : lookup hash one_term (97 ∷ []) ≡ returned (some 0)
unfolding lookup probe inspect start lookup_found same_bytes cmp_bytes Blob.get slice range
looked_up = refl

missing : lookup hash one_term (98 ∷ []) ≡ returned none
unfolding lookup probe inspect start lookup_found same_bytes cmp_bytes Blob.get slice range
missing = refl

one_term-IsTable : IsTable one_term.heap one_term.table
unfolding Blob.get slice range
one_term-IsTable = record { bits = 2; slots = refl; hole = 3; empty = refl; held = entries }
  where
    entries :
        (i id : ℕ)
        → get_elem? one_term.table i ≡ some (suc id)
        → (b : Bytes) × (Blob.get one_term.heap id ≡ some b)
    entries zero id h = let e : ◌≡◌ {A = ℕ} 0 (suc id) = cc in absurd (omega arith)
    entries (suc zero) id h = let e : ◌≡◌ {A = ℕ} 0 (suc id) = cc in absurd (omega arith)
    entries (suc (suc zero)) zero h = (97 ∷ [], refl)
    entries (suc (suc zero)) (suc id) h =
        let e : ◌≡◌ {A = ℕ} 1 (suc (suc id)) = cc in absurd (omega arith)
    entries (suc (suc (suc zero))) id h =
        let e : ◌≡◌ {A = ℕ} 0 (suc id) = cc in absurd (omega arith)
    entries (suc (suc (suc (suc i)))) id h = cc

lookup_sound_example :
    (r : Option ℕ) × (lookup hash one_term (97 ∷ []) ≡ returned r)
    × ((id : ℕ) → r ≡ some id → Blob.get one_term.heap id ≡ some (97 ∷ []))
lookup_sound_example = lookup_sound hash one_term (97 ∷ []) one_term-IsTable
