-- ===== src/Base/Mask.antt =====
-- A mask of the low bits is a remainder.
use Prim.Native.Nat.{
  ℕ, zero, suc, ◌+◌, ◌-◌, ◌*◌, ◌/◌, ◌%◌, ◌^◌, ◌≤◌, ◌<◌, bit_and, bit_and-bitwise, digits, min,
}
use mathlib.Core.Path.{◌≡◌, refl, sym, ap, ◌∙◌}
use native.Mathlib.Omega.{arith}
use native.Mathlib.Nat.{pow-suc, div-add-mod, mod-lt, mul-add-mod_self_left, mod-eq_of_lt}

abbrev and_rounds : ℕ → ℕ → ℕ → ℕ
and_rounds rounds a b = digits (λ y. zero) min rounds a b

and_rounds_enough : (m n a b : ℕ) → a ≤ m → a ≤ n → and_rounds m a b ≡ and_rounds n a b
and_rounds_enough zero zero zero b hm hn = refl
and_rounds_enough zero (suc n) zero b hm hn = refl
and_rounds_enough (suc m) zero zero b hm hn = refl
and_rounds_enough (suc m) (suc n) zero b hm hn = refl
and_rounds_enough zero n (suc a) b hm hn = absurd (omega arith)
and_rounds_enough (suc m) zero (suc a) b hm hn = absurd (omega arith)
and_rounds_enough (suc m) (suc n) (suc a) b hm hn =
    omega (arith, and_rounds_enough m n (suc a / 2) (b / 2) (omega arith) (omega arith))

zero-bit_and : (b : ℕ) → bit_and 0 b ≡ 0
zero-bit_and b = bit_and-bitwise 0 b

bit_and_halves : (a b : ℕ) → bit_and a b ≡ min (a % 2) (b % 2) + 2 * bit_and (a / 2) (b / 2)
bit_and_halves zero b = omega (arith, zero-bit_and b, zero-bit_and (b / 2))
bit_and_halves (suc a) b =
    let fewer : suc a / 2 ≤ a = omega arith in
    omega (
      arith,
      bit_and-bitwise (suc a) b,
      bit_and-bitwise (suc a / 2) (b / 2),
      and_rounds_enough (suc a / 2) a (suc a / 2) (b / 2) (omega arith) fewer,
    )

pub two_pow_pos : (k : ℕ) → 0 < 2 ^ k
two_pow_pos zero = omega arith
two_pow_pos (suc k) = omega (arith, two_pow_pos k, pow-suc 2 k)

-- The lowest bit and the rest of a remainder.
mod_twice : (a p : ℕ) → 0 < p → a % (2 * p) ≡ a % 2 + 2 * (a / 2 % p)
mod_twice a p h =
    let c : ℕ = a % 2 + 2 * (a / 2 % p) in
    let split : 2 * (p * (a / 2 / p)) ≡ 2 * p * (a / 2 / p) = grind arith in
    let whole : 2 * p * (a / 2 / p) + c ≡ a = omega (arith, div-add-mod (a / 2) p, split) in
    let small : c < 2 * p = omega (arith, mod-lt (a / 2) h) in
    ap (λ (t : ℕ). t % (2 * p)) (sym whole)
    ∙ mul-add-mod_self_left (2 * p) (a / 2 / p) c
    ∙ mod-eq_of_lt small

rounds-zero : (n a : ℕ) → a ≤ n → and_rounds n a 0 ≡ 0
rounds-zero zero zero h = refl
rounds-zero (suc n) zero h = refl
rounds-zero zero (suc a) h = absurd (omega arith)
rounds-zero (suc n) (suc a) h =
    let z : 0 / 2 ≡ 0 = omega arith in
    omega
      (arith, ap (λ (t : ℕ). and_rounds n (suc a / 2) t) z, rounds-zero n (suc a / 2) (omega arith))

pub bit_and_mask : (k a : ℕ) → bit_and a (2 ^ k - 1) ≡ a % 2 ^ k
bit_and_mask zero a = omega (arith, bit_and-bitwise a 0, rounds-zero a a (omega arith))
bit_and_mask (suc k) a =
    let p : ℕ = 2 ^ k in
    let pos : 0 < p = two_pow_pos k in
    let half : (2 * p - 1) / 2 ≡ p - 1 = omega arith in
    let low : (2 * p - 1) % 2 ≡ 1 = omega arith in
    let twice : 2 ^ suc k ≡ 2 * p = omega (arith, pow-suc 2 k) in
    rw twice (
      omega (
        arith,
        bit_and_halves a (2 * p - 1),
        low,
        ap (λ (t : ℕ). bit_and (a / 2) t) half,
        bit_and_mask k (a / 2),
        mod_twice a p pos,
      ))
