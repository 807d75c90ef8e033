-- ===== src/Varint/Tests.antt =====
-- Concrete runs of the coder, and its theorems at concrete inputs.
use plugmem.Base.{◌≤◌, ◌≡◌, refl, arith, [], ◌∷◌, ◌++◌, none, some, length, All}
use plugmem.Base.Bytes.{Bytes, IsByte, IsU32}
use plugmem.Varint.{encode_loop, encode_u32, decode_loop, decode_u32}
use plugmem.Varint.RoundTrip.{decode-encode}
use plugmem.Varint.Decode.{decode_sound}

encode_300 : encode_u32 300 ≡ some (0xac ∷ 0x02 ∷ [])
unfolding encode_u32 encode_loop
encode_300 = refl

encode_max : encode_u32 0xffff_ffff ≡ some (0xff ∷ 0xff ∷ 0xff ∷ 0xff ∷ 0x0f ∷ [])
unfolding encode_u32 encode_loop
encode_max = refl

decode_too_wide : decode_u32 (0xff ∷ 0xff ∷ 0xff ∷ 0xff ∷ 0x1f ∷ []) ≡ none
unfolding decode_u32 decode_loop
decode_too_wide = refl

decode_cut : decode_u32 (0xac ∷ []) ≡ none
unfolding decode_u32 decode_loop
decode_cut = refl

-- A padded form, which the encoder never writes, is accepted.
decode_padded : decode_u32 (0x80 ∷ 0x00 ∷ 7 ∷ []) ≡ some (0, 2)
unfolding decode_u32 decode_loop
decode_padded = refl

decode-encode_example :
    (bs : Bytes) × (encode_u32 300 ≡ some bs)
    × (1 ≤ length bs)
    × (length bs ≤ 5)
    × All IsByte bs
    × (decode_u32 (bs ++ (9 ∷ [])) ≡ some (300, length bs))
decode-encode_example = decode-encode 300 (9 ∷ []) (omega arith)

decode_sound_example :
    IsU32 0
    × (1 ≤ 2)
    × (2 ≤ 5)
    × (2 ≤ 3)
    × ((more : Bytes) → decode_u32 ((0x80 ∷ 0x00 ∷ []) ++ more) ≡ some (0, 2))
decode_sound_example = decode_sound (0x80 ∷ 0x00 ∷ 7 ∷ []) 0 2 (omega arith) decode_padded
