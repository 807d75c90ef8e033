-- ===== src/Key/Tests.antt =====
-- Concrete keys, and the theorems on keys at concrete inputs.
use Prim.Native.Nat.{Ordering}
use plugmem.Base.{◌≡◌, refl, arith, [], ◌∷◌, length, take, drop, some, none}
use plugmem.Base.Bytes.{Bytes, to_be}
use plugmem.Key.{write_u32, write_u64, write_pair, read_pair}
use plugmem.Base.Order.{cmp_bytes}
use plugmem.Key.RoundTrip.{read_pair-write_pair}
use plugmem.Key.Sorted.{write_pair-order}
use mathlib.Core.Option

-- A buffer with one byte behind the key.
abbrev buffer : Bytes
buffer = 1 ∷ 2 ∷ 3 ∷ 4 ∷ 5 ∷ 6 ∷ 7 ∷ 8 ∷ 9 ∷ 10 ∷ 11 ∷ 12 ∷ 13 ∷ []

written : write_pair buffer 258 7 ≡ some (0 ∷ 0 ∷ 0 ∷ 0 ∷ 0 ∷ 0 ∷ 1 ∷ 2 ∷ 0 ∷ 0 ∷ 0 ∷ 7 ∷ 13 ∷ [])
unfolding write_pair write_u64 write_u32 to_be Option.bind
written = refl

short : write_pair (0 ∷ []) 258 7 ≡ none
unfolding write_pair write_u64 Option.bind
short = refl

read_pair-write_pair_example :
    (o : Bytes) × (write_pair buffer 258 7 ≡ some o)
    × (read_pair o ≡ some (258, 7))
    × (length o ≡ 13)
    × (drop 12 o ≡ 13 ∷ [])
read_pair-write_pair_example =
    read_pair-write_pair buffer 258 7 (omega arith) (omega arith) (omega arith)

-- 255 is below 256, though its lowest byte is greater.
write_pair-order_example :
    (o : Bytes) × (o' : Bytes) × (write_pair buffer 255 9 ≡ some o)
    × (write_pair buffer 256 1 ≡ some o')
    × (cmp_bytes (take 12 o) (take 12 o') ≡ Ordering.lt)
write_pair-order_example =
    write_pair-order buffer buffer 255 9 256 1 (omega arith) (omega arith) (omega arith)
      (omega arith) (omega arith) (omega arith)
