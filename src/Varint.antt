-- ===== src/Varint.antt =====
-- crates/plugmem-core/src/index/varint.rs: LEB128 coding of `u32` posting deltas.
-- A byte slice is a list of numbers. A mask of the low seven bits of a `u32` is `% 128`, its shift
-- `>>= 7` is `/ 128`.
pub mod RoundTrip
pub mod Decode
mod Tests
use plugmem.Base.{ℕ, zero, suc, ◌+◌, ◌*◌, ◌/◌, ◌%◌, ◌^◌, bit_and, bit_or}
use plugmem.Base.{
  List, [], ◌∷◌, Option, none, some, take, ltb, ◌==◌, if◌then◌else◌, ◌&&◌, ◌||◌, not,
}
use plugmem.Base.Bytes.{Bytes}
use mathlib.Core.Option

abbrev pub max_varint : ℕ
max_varint = 5

-- The rounds of the loop: `room` is what is left of the array `out`, so that `none` is the panic of
-- a write past its end. The result is what the loop writes from here on.
unfoldable pub encode_loop : ℕ → ℕ → Option Bytes
encode_loop zero v = none
encode_loop (suc room) v =
    let byte = v % 128 in
    let v' = v / 128 in
    let rest = encode_loop room v' in
    if v' == 0 then some (byte ∷ []) else Option.map (λ bs. bit_or byte 0x80 ∷ bs) rest

unfoldable pub encode_u32 : ℕ → Option Bytes
encode_u32 v = encode_loop max_varint v

-- `for (i, &byte) in bytes.iter().take(MAX_VARINT).enumerate()`, from index `i` on.
unfoldable pub decode_loop : ℕ → ℕ → Bytes → Option (ℕ × ℕ)
decode_loop i v [] = none
decode_loop i v (byte ∷ bytes) =
    let payload = bit_and byte 0x7f in
    let v' = bit_or v (payload * 2 ^ (7 * i) % 2 ^ 32) in
    let more = decode_loop (i + 1) v' bytes in
    if i == 4 && (not (bit_and byte 0x80 == 0) || ltb 0x0f payload)
    then none
    else if bit_and byte 0x80 == 0
    then some (v', i + 1)
    else more

unfoldable pub decode_u32 : Bytes → Option (ℕ × ℕ)
decode_u32 bytes = decode_loop 0 0 (take max_varint bytes)
