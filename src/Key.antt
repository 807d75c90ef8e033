-- ===== src/Key.antt =====
-- crates/plugmem-arena/src/key.rs: big-endian keys. A writer gives the buffer that it leaves, and `none`
-- is the panic of a buffer that is too short.
pub mod RoundTrip
pub mod Order
pub mod Sorted
mod Tests
use plugmem.Base.{ℕ, List, [], ◌∷◌, ◌++◌, length, take, drop, Option, none, some, ltb}
use plugmem.Base.{if◌then◌else◌}
use plugmem.Base.Bytes.{Bytes, to_be, from_be}
use mathlib.Core.Option

unfoldable pub write_u32 : Bytes → ℕ → Option Bytes
write_u32 out v = if ltb (length out) 4 then none else some (to_be 4 v ++ drop 4 out)

unfoldable pub read_u32 : Bytes → Option ℕ
read_u32 bytes = if ltb (length bytes) 4 then none else some (from_be (take 4 bytes))

unfoldable pub write_u64 : Bytes → ℕ → Option Bytes
write_u64 out v = if ltb (length out) 8 then none else some (to_be 8 v ++ drop 8 out)

unfoldable pub read_u64 : Bytes → Option ℕ
read_u64 bytes = if ltb (length bytes) 8 then none else some (from_be (take 8 bytes))

-- `write_u32(&mut out[8..], lo)` writes behind the first eight bytes.
unfoldable pub write_pair : Bytes → ℕ → ℕ → Option Bytes
write_pair out hi lo =
    Option.bind (write_u64 out hi)
      λ o. Option.map (λ rest. take 8 o ++ rest) (write_u32 (drop 8 o) lo)

unfoldable pub read_pair : Bytes → Option (ℕ × ℕ)
read_pair bytes =
    Option.bind (read_u64 bytes) λ hi. Option.map (λ lo. (hi, lo)) (read_u32 (drop 8 bytes))
