-- ===== src/Interner/Probe.antt =====
-- A probe comes to an end, and what it finds is what it says.
use plugmem.Base.Outcomes.{Outcome, returned, Returns}
use plugmem.Base.{
  ℕ, zero, suc, ◌+◌, ◌-◌, ◌%◌, ◌^◌, ◌≤◌, ◌<◌, ◌≡◌, ◌⊎◌, inl, inr, refl, sym, ap, ◌∙◌, arith,
}
use plugmem.Base.{
  List, length, Option, none, some, get_elem?, true, Bool-cases, Option-cases, bit_and,
}
use plugmem.Base.Bytes.{Bytes}
use plugmem.Base.Mask.{bit_and_mask}
use plugmem.Base.Order.{cmp_bytes-eq}
use plugmem.Paged.Place.{get-in}
use plugmem.Blob.{BlobHeap}
use plugmem.Blob
use plugmem.Paged.Copy.{range_cases}
use plugmem.Chunks.Chains.{get-lt}
use plugmem.Interner.{same_bytes, Found, known, inspect, probe}
use mathlib.Core.Path.{subst}
use native.Mathlib.Nat.{mod-eq_of_lt, mod_self}

-- A table of a power of two of slots, of which one at least is empty, whose entries are ids of the heap.
pub record IsTable (heap : BlobHeap) (table : List ℕ) : Type 0 where
  pub bits : ℕ
  pub slots : length table ≡ 2 ^ bits
  pub hole : ℕ
  pub empty : get_elem? table hole ≡ some 0
  pub held :
      (i id : ℕ) → get_elem? table i ≡ some (suc id) → (b : Bytes) × (Blob.get heap id ≡ some b)

pub same_bytes-eq : (a b : Bytes) → same_bytes a b ≡ true → a ≡ b
unfolding same_bytes
same_bytes-eq a b h = cmp_bytes-eq a b (ground arith)

known_inj : {a b : ℕ} → ◌≡◌ {A = Outcome Found} (returned (known a)) (returned (known b)) → a ≡ b
known_inj e = cc

module _ (heap : BlobHeap) (bytes : Bytes) where
  inspect-Returns :
      (idx entry : ℕ) (rest : Outcome Found)
      → ((id : ℕ) → entry ≡ suc id → (b : Bytes) × (Blob.get heap id ≡ some b))
      → Returns rest
      → Returns (inspect heap bytes idx (some entry) rest)
  unfolding inspect
  inspect-Returns idx zero rest held r = (_, refl)
  inspect-Returns idx (suc id) rest held r =
      let (stored, e) = held id refl in
      elim (Bool-cases (same_bytes stored bytes)) [
        | inl t ↦ rw (e, inspect, t) (_, refl)
        | inr f ↦ rw (e, inspect, f) r
      ]

  inspect-known :
      (idx id : ℕ) (entry : Option ℕ) (rest : Outcome Found)
      → inspect heap bytes idx entry rest ≡ returned (known id)
      → (Blob.get heap id ≡ some bytes) ⊎ (rest ≡ returned (known id))
  unfolding inspect
  inspect-known idx id none rest e = cc
  inspect-known idx id (some zero) rest e = cc
  inspect-known idx id (some (suc n)) rest e = elim (Option-cases (Blob.get heap n)) [
    | inl gone ↦ let bad = rw (gone, inspect) at e in cc
    | inr (stored, held) ↦ elim (Bool-cases (same_bytes stored bytes)) [
      | inl t ↦
          let now : ◌≡◌ {A = Outcome Found} (returned (known n)) (returned (known id)) =
            rw (held, inspect, t) at e in
          let same : n ≡ id = known_inj now in
          inl (
            ap (λ (t : ℕ). Blob.get heap t) (sym same)
            ∙ held
            ∙ ap some (same_bytes-eq stored bytes t))
      | inr f ↦ inr (rw (held, inspect, f) at e)
    ]
  ]

  pub probe-known :
      (table : List ℕ) (fuel idx id : ℕ)
      → probe heap table bytes fuel idx ≡ returned (known id)
      → Blob.get heap id ≡ some bytes
  unfolding probe
  probe-known table zero idx id e = cc
  probe-known table (suc fuel) idx id e = elim (inspect-known idx id (get_elem? table idx) _ e) [
    | inl found ↦ found
    | inr later ↦ probe-known table fuel (bit_and (idx + 1) (length table - 1)) id later
  ]

  probe-hole :
      (table : List ℕ) (fuel hole : ℕ)
      → get_elem? table hole ≡ some 0
      → Returns (probe heap table bytes (suc fuel) hole)
  unfolding probe inspect
  probe-hole table fuel hole e = rw e (_, refl)

  probe-step :
      (table : List ℕ) (fuel idx entry : ℕ)
      → get_elem? table idx ≡ some entry
      → probe heap table bytes (suc fuel) idx
        ≡ inspect heap bytes idx
            (some entry)
            (probe heap table bytes fuel (bit_and (idx + 1) (length table - 1)))
  unfolding probe
  probe-step table fuel idx entry e = rw e refl

  module _ (table : List ℕ) (w : IsTable heap table) where
    pub mask : (a : ℕ) → bit_and a (length table - 1) ≡ a % length table
    mask a = rw w.slots (bit_and_mask w.bits a)

    -- `d` slots ahead lies the empty slot, the end of the table passed once at most.
    abbrev pub Ahead : ℕ → ℕ → Type 0
    Ahead idx d = (idx + d ≡ w.hole) ⊎ (idx + d ≡ w.hole + length table)

    pub hole_lt : w.hole < length table
    hole_lt = get-lt table w.hole 0 w.empty

    next_slot :
        (idx d : ℕ)
        → idx < length table
        → Ahead idx (suc d)
        → (bit_and (idx + 1) (length table - 1) < length table)
          × Ahead (bit_and (idx + 1) (length table - 1)) d
    next_slot idx d low ahead =
        let h : w.hole < length table = hole_lt in
        let m : bit_and (idx + 1) (length table - 1) ≡ (idx + 1) % length table = mask (idx + 1) in
        elim (range_cases (length table) (idx + 1)) [
          | inl past ↦
              let n : bit_and (idx + 1) (length table - 1) ≡ 0 =
                m ∙ ap (λ (t : ℕ). t % length table) (omega arith) ∙ mod_self (length table) in
              (omega arith, wrapped (bit_and (idx + 1) (length table - 1)) n past ahead)
          | inr inside ↦
              let n : bit_and (idx + 1) (length table - 1) ≡ idx + 1 = m ∙ mod-eq_of_lt inside in
              (omega arith, straight (bit_and (idx + 1) (length table - 1)) n ahead)
        ]
      where
        wrapped : (next : ℕ) → next ≡ 0 → length table ≤ idx + 1 → Ahead idx (suc d) → Ahead next d
        wrapped next n past (inl a) = absurd (omega (arith, hole_lt))
        wrapped next n past (inr a) = inl (omega arith)

        straight : (next : ℕ) → next ≡ idx + 1 → Ahead idx (suc d) → Ahead next d
        straight next n (inl a) = inl (omega arith)
        straight next n (inr a) = inr (omega arith)

    pub probe-Returns :
        (d fuel idx : ℕ)
        → d < fuel
        → idx < length table
        → Ahead idx d
        → Returns (probe heap table bytes fuel idx)
    probe-Returns d zero idx enough low ahead = absurd (omega arith)
    probe-Returns zero (suc fuel) idx enough low (inl a) =
        let here : idx ≡ w.hole = omega arith in
        probe-hole table fuel idx (ap (λ (t : ℕ). get_elem? table t) here ∙ w.empty)
    probe-Returns zero (suc fuel) idx enough low (inr a) = absurd (omega arith)
    probe-Returns (suc d) (suc fuel) idx enough low ahead =
        let (entry, e) = get-in table idx low in
        let next = next_slot idx d low ahead in
        subst Returns (sym (probe-step table fuel idx entry e)) (
          inspect-Returns idx entry _ (λ id n. w.held idx id (e ∙ ap some n))
            (probe-Returns d fuel _ (omega arith) next.0 next.1))
