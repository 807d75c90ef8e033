-- ===== src/Blob/Pool.antt =====
-- The blobs that a heap holds, as a list, and the invariant under which `get` finds them.
use plugmem.Base.{ℕ, zero, suc, ◌+◌, ◌-◌, ◌^◌, ◌≤◌, ◌≡◌, refl, sym, arith}
use plugmem.Base.{List, [], ◌∷◌, ◌++◌, map, length, take, drop, All}
use plugmem.Base.{length-drop, drop-append_le, drop-append_ge, take-append_le}
use plugmem.Base.{All-append, All-mono}
use mathlib.Core.Path.{subst}
use plugmem.Base.{none, some, get_elem?}
use plugmem.Base.Bytes.{Bytes}
use plugmem.Blob.{BlobHeapCfg, BlobHeap, slice, get, new}
use native.Mathlib.Decide.{dec_lt}

-- `index` lists blobs that lie one behind the other from `start` up to `end`.
abbrev pub Laid : ℕ → List (ℕ × ℕ) → ℕ → Type 0
Laid start [] end = start ≡ end
Laid start ((offset, len) ∷ index) end = (offset ≡ start) × Laid (start + len) index end

pub Laid-append :
    (start mid end : ℕ) (xs ys : List (ℕ × ℕ))
    → Laid start xs mid
    → Laid mid ys end
    → Laid start (xs ++ ys) end
Laid-append start mid end [] ys h k = rw h k
Laid-append start mid end ((offset, len) ∷ xs) ys h k =
    (h.0, Laid-append (start + len) mid end xs ys h.1 k)

pub Laid-le : (start end : ℕ) (index : List (ℕ × ℕ)) → Laid start index end → start ≤ end
Laid-le start end [] h = omega arith
Laid-le start end ((offset, len) ∷ index) h = omega (arith, Laid-le (start + len) end index h.1)

-- An entry within the bytes from `low` up to `high`.
abbrev pub Within : ℕ → ℕ → ℕ × ℕ → Type 0
Within low high (offset, len) = (low ≤ offset) × (offset + len ≤ high)

pub Laid-Within :
    (low start end high : ℕ) (index : List (ℕ × ℕ))
    → low ≤ start
    → end ≤ high
    → Laid start index end
    → All (Within low high) index
Laid-Within low start end high [] hl hh h = tt
Laid-Within low start end high ((offset, len) ∷ index) hl hh h = (
  (omega (arith, h.0), omega (arith, h.0, Laid-le (start + len) end index h.1)),
  Laid-Within low (start + len) end high index (omega arith) hh h.1,
)

-- The entries that a heap with a bound below 2 ^ 32 holds.
abbrev pub Narrow : BlobHeapCfg → ℕ × ℕ → Type 0
Narrow cfg e = e.1 ≤ cfg.max_blob

-- The two ways to hold a loaded pool.
abbrev pub owned : BlobHeapCfg → List (ℕ × ℕ) → Bytes → BlobHeap
owned cfg index pool = record { base = []; tail = pool; index = index; cfg = cfg }

abbrev pub borrowed : BlobHeapCfg → List (ℕ × ℕ) → Bytes → BlobHeap
borrowed cfg index pool = record { base = pool; tail = []; index = index; cfg = cfg }

-- The bytes of an entry in a pool, and the blobs of an index.
abbrev pub cut : Bytes → ℕ × ℕ → Bytes
cut pool (offset, len) = take len (drop offset pool)

unfoldable pub blobs : BlobHeap → List Bytes
blobs h = map (cut (h.base ++ h.tail)) h.index

-- The base holds the blobs of `old`, the tail those of `fresh`: no blob straddles the boundary.
pub record IsHeap (h : BlobHeap) : Type 0 where
  pub old : List (ℕ × ℕ)
  pub fresh : List (ℕ × ℕ)
  pub index : h.index ≡ old ++ fresh
  pub in_base : Laid 0 old (length h.base)
  pub in_tail : Laid (length h.base) fresh (length h.base + length h.tail)
  pub bounded : length h.base + length h.tail ≤ h.cfg.max_bytes
  pub lens : All (λ (e : ℕ × ℕ). e.1 ≤ h.cfg.max_blob) h.index
  pub count : length h.index ≤ 2 ^ 32 - 1

pub IsHeap-new : (cfg : BlobHeapCfg) → IsHeap (new cfg)
IsHeap-new cfg = record {
  old = [];
  fresh = [];
  index = refl;
  in_base = refl;
  in_tail = omega arith;
  bounded = omega arith;
  lens = tt;
  count = omega arith;
}

module _ (p q : Bytes) (offset len : ℕ) where
  pub cut-left : offset + len ≤ length p → cut (p ++ q) (offset, len) ≡ cut p (offset, len)
  cut-left h =
      let room : len ≤ length (drop offset p) = omega (arith, length-drop offset p) in
      rw (drop-append_le offset p q (omega arith)) (take-append_le len (drop offset p) q room)

  pub cut-right : length p ≤ offset → cut (p ++ q) (offset, len) ≡ cut q (offset - length p, len)
  cut-right h = rw (drop-append_ge offset p q h)

module _ (h : BlobHeap) where
  -- An entry at which `slice` gives the bytes of the pool.
  abbrev pub Found : ℕ × ℕ → Type 0
  Found e = slice h e.0 e.1 ≡ some (cut (h.base ++ h.tail) e)

  Found-tail : (e : ℕ × ℕ) → Within (length h.base) (length h.base + length h.tail) e → Found e
  unfolding slice
  Found-tail (offset, len) w =
      rw (cut-right h.base h.tail offset len w.0) (ground (arith, w.0, w.1))

  -- An empty blob at the end of the base is looked up in the tail.
  Found-base : (e : ℕ × ℕ) → Within 0 (length h.base) e → Found e
  unfolding slice
  Found-base (offset, len) w = elim (dec_lt offset (length h.base)) [
    | yes inside ↦ rw (cut-left h.base h.tail offset len w.1) (ground (arith, w.1))
    | no outside ↦ unfold slice in Found-tail (offset, len) (omega arith, omega (arith, w.1))
  ]

  Found-All :
      (index : List (ℕ × ℕ)) (id : ℕ)
      → All Found index
      → (elim (get_elem? index id) [ none ↦ none | some e ↦ slice h e.0 e.1 ])
        ≡ get_elem? (map (cut (h.base ++ h.tail)) index) id
  Found-All [] id f = refl
  Found-All (e ∷ index) zero f = f.0
  Found-All (e ∷ index) (suc id) f = Found-All index id f.1

  pub All-Found : IsHeap h → All Found h.index
  All-Found i = subst (All Found) (sym i.index) (
      All-append Found i.old i.fresh
        (All-mono (Within 0 (length h.base)) Found Found-base i.old (
          Laid-Within 0 0 (length h.base) (length h.base) i.old (omega arith) (omega arith)
            i.in_base))
        (All-mono (Within (length h.base) (length h.base + length h.tail)) Found Found-tail i.fresh
          (Laid-Within (length h.base) _ _ _ i.fresh (omega arith) (omega arith) i.in_tail)))

  -- In a well-formed heap `get` of an id that was handed out gives the blob of that number, and it
  -- panics at any other id.
  pub get-blobs : (id : ℕ) → IsHeap h → get h id ≡ get_elem? (blobs h) id
  unfolding get blobs
  get-blobs id i = Found-All h.index id (All-Found i)
