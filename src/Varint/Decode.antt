-- ===== src/Varint/Decode.antt =====
-- `decode_u32` on any bytes, well formed or not.
use plugmem.Base.{ℕ, zero, suc, ◌+◌, ◌-◌, ◌*◌, ◌%◌, ◌^◌, ◌≤◌, ◌<◌, ◌≡◌, arith}
use plugmem.Base.{
  bit_and, bit_or, [], ◌∷◌, ◌++◌, some, length, take, All, take-append_more, drop, take-append-drop,
  All-append_left,
}
use plugmem.Base.{take-take, length-take}
use plugmem.Base.Bytes.{Bytes, IsByte, IsU32}
use plugmem.Base.Bits.{low_bits, bit_or_above}
use native.Mathlib.Decide.{dec_lt}
use plugmem.Varint.{decode_loop, decode_u32}
use plugmem.Varint.RoundTrip.{shift_seven}

pow_small : (i : ℕ) → i ≤ 3 → 128 * 2 ^ (7 * i) ≤ 2 ^ 28
pow_small zero h = omega arith
pow_small (suc zero) h = omega arith
pow_small (suc (suc zero)) h = omega arith
pow_small (suc (suc (suc zero))) h = omega arith
pow_small (suc (suc (suc (suc i)))) h = absurd (omega arith)

-- The value after one more byte, in plain arithmetic.
round_value :
    (i v b : ℕ)
    → i ≤ 3
    → v < 2 ^ (7 * i)
    → IsByte b
    → bit_or v (bit_and b 0x7f * 2 ^ (7 * i) % 2 ^ 32) < 2 ^ (7 * (i + 1))
round_value i v b hi hv hb =
    let g : ℕ = bit_and b 0x7f in
    let p : ℕ = 2 ^ (7 * i) in
    let small : g < 128 = omega (arith, low_bits b hb) in
    let product : g * p + p ≤ 128 * p = grind arith in
    let fits : g * p % 2 ^ 32 ≡ g * p = omega (arith, pow_small i hi) in
    rw (fits, bit_or_above (7 * i) v g hv, shift_seven i) (omega arith)

last_value :
    (v b : ℕ)
    → v < 2 ^ 28
    → bit_and b 0x7f ≤ 0x0f
    → IsU32 (bit_or v (bit_and b 0x7f * 2 ^ 28 % 2 ^ 32))
last_value v b hv hb =
    let fits : bit_and b 0x7f * 2 ^ 28 % 2 ^ 32 ≡ bit_and b 0x7f * 2 ^ 28 = omega arith in
    rw fits (omega (arith, bit_or_above 28 v (bit_and b 0x7f) hv))

last_round_sound :
    (v b : ℕ) (bs : Bytes) (w n : ℕ)
    → v < 2 ^ 28
    → decode_loop 4 v (b ∷ bs) ≡ some (w, n)
    → IsU32 w × (n ≡ 5)
unfolding decode_loop
last_round_sound v b bs w n hv e = ground (arith, last_value v b hv)

decode_loop_sound :
    (i v : ℕ) (bytes : Bytes) (w n : ℕ)
    → i ≤ 4
    → v < 2 ^ (7 * i)
    → All IsByte bytes
    → decode_loop i v bytes ≡ some (w, n)
    → IsU32 w × (i < n) × (n ≤ i + length bytes) × (n ≤ 5)
unfolding decode_loop
decode_loop_sound i v [] w n hi hv hb e = cc
decode_loop_sound i v (b ∷ bs) w n hi hv hb e = elim (dec_lt i 4) [
  | yes h ↦
      let v' : ℕ = bit_or v (bit_and b 0x7f * 2 ^ (7 * i) % 2 ^ 32) in
      let next : v' < 2 ^ (7 * (i + 1)) = round_value i v b (omega arith) hv hb.0 in
      let low : v' < 2 ^ 32 = omega (arith, next, shift_seven i, pow_small i (omega arith)) in
      ground (arith, low, decode_loop_sound (i + 1) v' bs w n (omega arith) next hb.1)
  | no h ↦
      let four : i ≡ 4 = omega arith in
      let (fits, five) = last_round_sound v b bs w n (rw four at hv) (rw four at e) in
      (fits, omega arith, omega arith, omega arith)
]

decode_loop_grows :
    (i v : ℕ) (bytes : Bytes) (w n : ℕ) → decode_loop i v bytes ≡ some (w, n) → i < n
unfolding decode_loop
decode_loop_grows i v [] w n e = cc
decode_loop_grows i v (b ∷ bs) w n e =
    ground
      (arith, decode_loop_grows (i + 1) (bit_or v (bit_and b 0x7f * 2 ^ (7 * i) % 2 ^ 32)) bs w n)

-- Only the bytes that are used decide.
decode_loop_local :
    (i v : ℕ) (bytes more : Bytes) (w n k : ℕ)
    → n ≡ i + k
    → decode_loop i v bytes ≡ some (w, n)
    → decode_loop i v (take k bytes ++ more) ≡ some (w, n)
unfolding decode_loop
decode_loop_local i v [] more w n k hk e = cc
decode_loop_local i v (b ∷ bs) more w n zero hk e =
    absurd (omega (arith, decode_loop_grows i v (b ∷ bs) w n e))
decode_loop_local i v (b ∷ bs) more w n (suc k) hk e =
    let v' : ℕ = bit_or v (bit_and b 0x7f * 2 ^ (7 * i) % 2 ^ 32) in
    ground (arith, decode_loop_local (i + 1) v' bs more w n k (omega arith))

-- Whatever the bytes are, a decoded value is a `u32`, one to five bytes are used, never more than
-- there are, and the bytes behind those that are used do not matter.
pub decode_sound :
    (bytes : Bytes) (v n : ℕ)
    → All IsByte bytes
    → decode_u32 bytes ≡ some (v, n)
    → IsU32 v
      × (1 ≤ n)
      × (n ≤ 5)
      × (n ≤ length bytes)
      × ((more : Bytes) → decode_u32 (take n bytes ++ more) ≡ some (v, n))
unfolding decode_u32
decode_sound bytes v n hb e =
    let five : Bytes = take 5 bytes in
    let split : All IsByte (five ++ drop 5 bytes) = rw take-append-drop hb in
    let (fits, pos, used, most) =
      decode_loop_sound 0 0 five v n (omega arith) (omega arith)
        (All-append_left IsByte five (drop 5 bytes) split) e in
    let taken : length (take n bytes) ≤ 5 = omega (arith, length-take n bytes) in
    (
      fits,
      pos,
      most,
      omega (arith, length-take 5 bytes),
      λ more. rw (take-append_more 5 (take n bytes) more taken) (
          rw (take-take n 5 bytes most) at (
            decode_loop_local 0 0 five (take (5 - length (take n bytes)) more) v n n (omega arith)
              e)),
    )
