-- ===== src/Base/Bits.antt =====
-- Masks on one byte, and `|` of disjoint bit fields, as arithmetic.
use Prim.Native.Nat.{
  ℕ, zero, suc, ◌+◌, ◌*◌, ◌/◌, ◌%◌, ◌^◌, ◌≤◌, ◌<◌, max, bit_and, bit_or, digits, bit_or-bitwise,
}
use mathlib.Core.Path.{◌≡◌, refl, ap}
use mathlib.Core.Bool.{Bool, true, false}
use mathlib.Core.Logic.{ite}
use native.Mathlib.Decide.{ℕ_discrete}
use native.Mathlib.Omega.{arith}
use native.Mathlib.Nat.{pow-suc}

module _ (f g : ℕ → ℕ) where
  agree_below : ℕ → Bool
  unfolding ℕ_discrete
  agree_below zero = true
  agree_below (suc n) = ite (ℕ_discrete (f n) (g n)) (agree_below n) false

  agree_below→eq : (n : ℕ) → agree_below n ≡ true → (i : ℕ) → i < n → f i ≡ g i
  unfolding agree_below
  agree_below→eq zero e i h = absurd (omega arith)
  agree_below→eq (suc n) e i h = ground (arith, agree_below→eq n (ground arith) i)

pub low_bits : (b : ℕ) → b < 256 → bit_and b 0x7f ≡ b % 128
unfolding agree_below
low_bits = agree_below→eq _ _ 256 refl

pub top_bit : (b : ℕ) → b < 256 → bit_and b 0x80 ≡ b / 128 * 128
unfolding agree_below
top_bit = agree_below→eq _ _ 256 refl

pub set_top_bit : (b : ℕ) → b < 128 → bit_or b 0x80 ≡ b + 128
unfolding agree_below
set_top_bit = agree_below→eq _ _ 128 refl

-- The recursion that `bit_or` stands for, run on a number of rounds.
abbrev or_rounds : ℕ → ℕ → ℕ → ℕ
or_rounds rounds a b = digits (λ y. y) max rounds a b

or_rounds_enough : (m n a b : ℕ) → a ≤ m → a ≤ n → or_rounds m a b ≡ or_rounds n a b
or_rounds_enough zero zero zero b hm hn = refl
or_rounds_enough zero (suc n) zero b hm hn = refl
or_rounds_enough (suc m) zero zero b hm hn = refl
or_rounds_enough (suc m) (suc n) zero b hm hn = refl
or_rounds_enough zero n (suc a) b hm hn = absurd (omega arith)
or_rounds_enough (suc m) zero (suc a) b hm hn = absurd (omega arith)
or_rounds_enough (suc m) (suc n) (suc a) b hm hn =
    omega (arith, or_rounds_enough m n (suc a / 2) (b / 2) (omega arith) (omega arith))

pub zero-bit_or : (b : ℕ) → bit_or 0 b ≡ b
zero-bit_or b = bit_or-bitwise 0 b

-- The lowest digit of a disjunction, and the rest.
bit_or_halves : (a b : ℕ) → bit_or a b ≡ max (a % 2) (b % 2) + 2 * bit_or (a / 2) (b / 2)
bit_or_halves zero b = omega (arith, zero-bit_or b, zero-bit_or (b / 2))
bit_or_halves (suc a) b =
    let fewer : suc a / 2 ≤ a = omega arith in
    omega (
      arith,
      bit_or-bitwise (suc a) b,
      bit_or-bitwise (suc a / 2) (b / 2),
      or_rounds_enough (suc a / 2) a (suc a / 2) (b / 2) (omega arith) fewer,
    )

-- A field shifted above the bits of `r` is added to it.
pub bit_or_above : (k r q : ℕ) → r < 2 ^ k → bit_or r (q * 2 ^ k) ≡ r + q * 2 ^ k
bit_or_above zero r q fits =
    let e : r ≡ 0 = omega arith in rw e (omega (arith, zero-bit_or (q * 2 ^ 0)))
bit_or_above (suc k) r q fits =
    let double : q * 2 ^ suc k ≡ 2 * (q * 2 ^ k) =
      omega (arith, ap (λ (t : ℕ). q * t) (pow-suc 2 k)) in
    let half : bit_or (r / 2) (q * 2 ^ k) ≡ r / 2 + q * 2 ^ k =
      bit_or_above k (r / 2) q (omega (arith, pow-suc 2 k)) in
    rw double (ground (arith, bit_or_halves r (2 * (q * 2 ^ k)), half))
