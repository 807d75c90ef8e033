-- ===== src/Varint/RoundTrip.antt =====
-- `decode_u32` reads back what `encode_u32` wrote.
use plugmem.Base.{ℕ, zero, suc, ◌+◌, ◌-◌, ◌*◌, ◌/◌, ◌%◌, ◌^◌, ◌≤◌, ◌<◌, ◌≡◌, refl, ap, ◌∙◌, arith}
use plugmem.Base.{bit_and, bit_or, [], ◌∷◌, ◌++◌, some, length, take, All, ◌==◌, take-append_more}
use plugmem.Base.{true, false, Bool-cases, inl, inr}
use native.Mathlib.Decide.{dec_lt}
use plugmem.Base.Bytes.{Bytes, IsByte, IsU32}
use plugmem.Base.Bits.{low_bits, top_bit, set_top_bit, bit_or_above}
use plugmem.Varint.{encode_loop, encode_u32, decode_loop, decode_u32}
use native.Mathlib.Numerals.{towards_suc}
use native.Mathlib.Nat.{div-add-mod}

pub shift_seven : (i : ℕ) → 2 ^ (7 * (i + 1)) ≡ 128 * 2 ^ (7 * i)
shift_seven i =
    let e : 7 * (i + 1) ≡ 7 * i + 7 = omega arith in rw e (simp towards_suc (omega arith))

fourth_shift : (i : ℕ) → i ≡ 4 → 2 ^ (7 * i) ≡ 2 ^ 28
fourth_shift i e = ap (λ (t : ℕ). 2 ^ (7 * t)) e

field_fits : (acc g p : ℕ) → acc + g * p < 2 ^ 32 → g * p % 2 ^ 32 ≡ g * p
field_fits acc g p h = omega arith

-- One round on a last byte.
last_round :
    (i acc w : ℕ) (more : Bytes)
    → i ≤ 4
    → w < 128
    → acc < 2 ^ (7 * i)
    → acc + w * 2 ^ (7 * i) < 2 ^ 32
    → decode_loop i acc (w ∷ more) ≡ some (acc + w * 2 ^ (7 * i), i + 1)
unfolding decode_loop
last_round i acc w more hi hw ha fits =
    let small : i ≡ 4 → w < 16 = λ e. omega (arith, ap (λ (t : ℕ). w * t) (fourth_shift i e)) in
    let or : bit_or acc (w * 2 ^ (7 * i) % 2 ^ 32) ≡ acc + w * 2 ^ (7 * i) =
      rw (field_fits acc w (2 ^ (7 * i)) fits) (bit_or_above (7 * i) acc w ha) in
    let low : bit_and w 0x7f ≡ w = omega (arith, low_bits w (omega arith)) in
    let top : bit_and w 0x80 ≡ 0 = omega (arith, top_bit w (omega arith)) in
    rw (low, top, or) (ground (arith, small))

-- One round on a byte that says that more follow.
inner_round :
    (i acc g : ℕ) (more : Bytes)
    → i < 4
    → g < 128
    → acc < 2 ^ (7 * i)
    → acc + g * 2 ^ (7 * i) < 2 ^ 32
    → decode_loop i acc ((g + 128) ∷ more) ≡ decode_loop (i + 1) (acc + g * 2 ^ (7 * i)) more
unfolding decode_loop
inner_round i acc g more hi hg ha fits =
    let or : bit_or acc (g * 2 ^ (7 * i) % 2 ^ 32) ≡ acc + g * 2 ^ (7 * i) =
      rw (field_fits acc g (2 ^ (7 * i)) fits) (bit_or_above (7 * i) acc g ha) in
    let low : bit_and (g + 128) 0x7f ≡ g = omega (arith, low_bits (g + 128) (omega arith)) in
    let top : bit_and (g + 128) 0x80 ≡ 128 = omega (arith, top_bit (g + 128) (omega arith)) in
    rw (low, top, or) (ground arith)

-- What the encoder writes with `room` places left, and what the decoder makes of it from index `i`.
record Reads (room i acc v : ℕ) (bs : Bytes) : Type 0 where
  written : encode_loop room v ≡ some bs
  fits : length bs ≤ room
  some_byte : 1 ≤ length bs
  bytes : All IsByte bs
  reads :
      (more : Bytes) → decode_loop i acc (bs ++ more) ≡ some (acc + v * 2 ^ (7 * i), i + length bs)

inner_byte_room : (room i acc v : ℕ) → i ≤ 4 → acc + v * 2 ^ (7 * i) < 2 ^ 32 → 0 < v / 128 → i < 4
inner_byte_room room i acc v hi hv big = elim (dec_lt i 4) [
  | yes h ↦ h
  | no h ↦
      let e : v * 2 ^ (7 * i) ≡ v * 2 ^ 28 = ap (λ (t : ℕ). v * t) (fourth_shift i (omega arith)) in
      absurd (omega (arith, e))
]

split_low :
    (i acc v : ℕ)
    → acc + v % 128 * 2 ^ (7 * i) + v / 128 * 2 ^ (7 * (i + 1)) ≡ acc + v * 2 ^ (7 * i)
split_low i acc v = omega (
  arith,
  ap (λ (t : ℕ). t * 2 ^ (7 * i)) (div-add-mod v 128),
  ap (λ (t : ℕ). v / 128 * t) (shift_seven i),
)

low_lt : (i acc v : ℕ) → acc < 2 ^ (7 * i) → acc + v % 128 * 2 ^ (7 * i) < 2 ^ (7 * (i + 1))
low_lt i acc v h = rw (shift_seven i) (grind arith)

module _ (room i acc v : ℕ) (hi : i ≤ 4) (ha : acc < 2 ^ (7 * i))
    (hv : acc + v * 2 ^ (7 * i) < 2 ^ 32) where
  Reads-last : v / 128 == 0 ≡ true → Reads (suc room) i acc v (v % 128 ∷ [])
  unfolding encode_loop
  Reads-last last = record {
    written = rw last;
    fits = omega arith;
    some_byte = omega arith;
    bytes = omega arith;
    reads = λ more.
        let small : v % 128 ≡ v = ground arith in
        rw small (last_round i acc v more hi (ground arith) ha hv);
  }

  Reads-inner :
      (bs : Bytes)
      → v / 128 == 0 ≡ false
      → Reads room (i + 1) (acc + v % 128 * 2 ^ (7 * i)) (v / 128) bs
      → Reads (suc room) i acc v ((v % 128 + 128) ∷ bs)
  unfolding encode_loop
  Reads-inner bs inner r = record {
    written = rw (inner, r.written, set_top_bit (v % 128) (omega arith));
    fits = omega (arith, r.fits);
    some_byte = omega arith;
    bytes = (omega arith, r.bytes);
    reads = λ more.
        inner_round i acc (v % 128) (bs ++ more) (inner_byte_room room i acc v hi hv (ground arith))
          (omega arith) ha (omega (arith, split_low i acc v))
        ∙ r.reads more
        ∙ ap some (ground (arith, split_low i acc v));
  }

encode-Reads :
    (room i acc v : ℕ)
    → i + room ≡ 5
    → i ≤ 4
    → acc < 2 ^ (7 * i)
    → acc + v * 2 ^ (7 * i) < 2 ^ 32
    → (bs : Bytes) × Reads room i acc v bs
encode-Reads zero i acc v hr hi ha hv = absurd (omega arith)
encode-Reads (suc room) i acc v hr hi ha hv = elim (Bool-cases (v / 128 == 0)) [
  | inl last ↦ (v % 128 ∷ [], Reads-last room i acc v hi ha hv last)
  | inr inner ↦
      let room_left : i < 4 = inner_byte_room room i acc v hi hv (ground arith) in
      let rest =
        encode-Reads room (i + 1) (acc + v % 128 * 2 ^ (7 * i)) (v / 128) (omega arith)
          (omega arith) (low_lt i acc v ha) (omega (arith, split_low i acc v)) in
      ((v % 128 + 128) ∷ rest.0, Reads-inner room i acc v hi ha hv rest.0 inner rest.1)
]

-- `encode_u32` writes every `u32` in one to five bytes, never past the end of its array, and
-- `decode_u32` reads the value back, whatever follows, together with the number of bytes used.
pub decode-encode :
    (v : ℕ) (rest : Bytes)
    → IsU32 v
    → (bs : Bytes) × (encode_u32 v ≡ some bs)
      × (1 ≤ length bs)
      × (length bs ≤ 5)
      × All IsByte bs
      × (decode_u32 (bs ++ rest) ≡ some (v, length bs))
unfolding encode_u32 decode_u32
decode-encode v rest h =
    let (bs, r) = encode-Reads 5 0 0 v refl (omega arith) (omega arith) (omega arith) in
    (
      bs,
      r.written,
      r.some_byte,
      r.fits,
      r.bytes,
      rw (take-append_more 5 bs rest r.fits)
          (r.reads (take (5 - length bs) rest) ∙ ap some (ground arith)),
    )
