-- ===== src/Base/Bytes.antt =====
-- Byte strings as lists of numbers, and the fixed-width integers of the standard library:
-- `to_le_bytes`, `from_le_bytes` and their big-endian twins at a width of `n` bytes.
use plugmem.Base.Lists.{length, take, All, All-take, length-take}
use Prim.Native.Nat.{ℕ, zero, suc, ◌+◌, ◌*◌, ◌/◌, ◌%◌, ◌^◌, ◌≤◌, ◌<◌}
use mathlib.Core.Path.{◌≡◌, refl, ap}
use mathlib.Core.List.{List, [], ◌∷◌}
use native.Mathlib.Omega.{arith}
use native.Mathlib.Nat.{pow-suc}

abbrev pub Bytes : Type 0
Bytes = List ℕ

abbrev pub IsByte : ℕ → Type 0
IsByte b = b < 256

abbrev pub IsU32 : ℕ → Type 0
IsU32 v = v < 2 ^ 32

abbrev pub IsU64 : ℕ → Type 0
IsU64 v = v < 2 ^ 64

unfoldable pub to_le : ℕ → ℕ → Bytes
to_le zero v = []
to_le (suc n) v = v % 256 ∷ to_le n (v / 256)

unfoldable pub from_le : Bytes → ℕ
from_le [] = 0
from_le (b ∷ bs) = b + 256 * from_le bs

unfoldable pub to_be : ℕ → ℕ → Bytes
to_be zero v = []
to_be (suc n) v = v / 256 ^ n % 256 ∷ to_be n v

unfoldable pub from_be : Bytes → ℕ
from_be [] = 0
from_be (b ∷ bs) = b * 256 ^ length bs + from_be bs

pub length-to_le : (n v : ℕ) → length (to_le n v) ≡ n
unfolding to_le
length-to_le zero v = refl
length-to_le (suc n) v = ap suc (length-to_le n (v / 256))

pub to_le-IsByte : (n v : ℕ) → All IsByte (to_le n v)
unfolding to_le
to_le-IsByte zero v = tt
to_le-IsByte (suc n) v = (omega arith, to_le-IsByte n (v / 256))

pub from_le-to_le : (n v : ℕ) → v < 256 ^ n → from_le (to_le n v) ≡ v
unfolding to_le from_le
from_le-to_le zero v h = omega arith
from_le-to_le (suc n) v h = omega (arith, from_le-to_le n (v / 256) (omega (arith, pow-suc 256 n)))

pub from_le-lt : (bs : Bytes) → All IsByte bs → from_le bs < 256 ^ length bs
unfolding from_le
from_le-lt [] h = omega arith
from_le-lt (b ∷ bs) h = omega (arith, from_le-lt bs h.1, h.0, pow-suc 256 (length bs))

pub to_le-from_le : (bs : Bytes) → All IsByte bs → to_le (length bs) (from_le bs) ≡ bs
unfolding to_le from_le
to_le-from_le [] h = refl
to_le-from_le (b ∷ bs) h =
    let low : (b + 256 * from_le bs) % 256 ≡ b = omega (arith, h.0) in
    let high : (b + 256 * from_le bs) / 256 ≡ from_le bs = omega (arith, h.0) in
    rw (low, high) (ap (λ t. b ∷ t) (to_le-from_le bs h.1))

-- A field of `n` bytes at the front of a buffer.
pub to_le-field :
    (n : ℕ) (bytes : Bytes)
    → All IsByte bytes
    → n ≤ length bytes
    → to_le n (from_le (take n bytes)) ≡ take n bytes
to_le-field n bytes hb long =
    let size : length (take n bytes) ≡ n = omega (arith, length-take n bytes) in
    rw size at (to_le-from_le (take n bytes) (All-take IsByte n bytes hb))

pub field-lt :
    (n : ℕ) (bytes : Bytes) → All IsByte bytes → n ≤ length bytes → from_le (take n bytes) < 256 ^ n
field-lt n bytes hb long =
    let size : length (take n bytes) ≡ n = omega (arith, length-take n bytes) in
    rw size at (from_le-lt (take n bytes) (All-take IsByte n bytes hb))
