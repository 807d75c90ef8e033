-- ===== src/Key/Order.antt =====
-- The order of keys as bytes is the order of the numbers that they encode.
use Prim.Native.Nat.{compare, Ordering}
use plugmem.Base.{ℕ, zero, suc, ◌+◌, ◌*◌, ◌/◌, ◌%◌, ◌^◌, ◌≤◌, ◌<◌, ◌≡◌, refl, sym, ap, ◌∙◌, arith}
use plugmem.Base.{◌++◌}
use plugmem.Base.Order.{cmp_bytes, then_cmp}
use plugmem.Base.Bytes.{Bytes, to_be}
use native.Mathlib.Nat.{div-add-mod, mod-lt, pow-suc, mod-eq_of_lt, mul-add-mod_self_left}

mul_mono : (x y p : ℕ) → x ≤ y → x * p ≤ y * p
mul_mono x y p h = grind arith

digit_lt : (x y p : ℕ) → x < y → x * p + p ≤ y * p
digit_lt x y p h = omega (arith, mul_mono (suc x) y p h)

-- The highest byte and the rest.
pub split_top : (a p : ℕ) → 0 < p → a % (p * 256) ≡ a / p % 256 * p + a % p
split_top a p h =
    let q : ℕ = a / p in
    let c : ℕ = q % 256 * p + a % p in
    let whole : p * 256 * (q / 256) + c ≡ a =
      omega (arith, div-add-mod a p, ap (λ (t : ℕ). p * t) (div-add-mod q 256)) in
    let byte : q % 256 ≤ 255 = omega arith in
    let small : c < p * 256 = omega (arith, mul_mono (q % 256) 255 p byte, mod-lt a h) in
    ap (λ (t : ℕ). t % (p * 256)) (sym whole)
    ∙ mul-add-mod_self_left (p * 256) (q / 256) c
    ∙ mod-eq_of_lt small

compare_digits :
    (x y r s p : ℕ)
    → r < p
    → s < p
    → compare (x * p + r) (y * p + s) ≡ then_cmp (compare x y) (compare r s)
compare_digits x y r s p hr hs = ground (arith, digit_lt x y p, digit_lt y x p)

then_cmp-compare : (a : ℕ) (o : Ordering) → then_cmp (compare a a) o ≡ o
then_cmp-compare a o = ground arith

pub pow_pos : (n : ℕ) → 0 < 256 ^ n
pow_pos zero = omega arith
pow_pos (suc n) = omega (arith, pow_pos n, pow-suc 256 n)

-- Keys of `n` bytes compare as the numbers do, and what follows decides between equal keys.
pub cmp_bytes-to_be :
    (n a b : ℕ) (xs ys : Bytes)
    → cmp_bytes (to_be n a ++ xs) (to_be n b ++ ys)
      ≡ then_cmp (compare (a % 256 ^ n) (b % 256 ^ n)) (cmp_bytes xs ys)
unfolding to_be cmp_bytes
cmp_bytes-to_be zero a b xs ys =
    let z : a % 1 ≡ 0 = omega arith in let w : b % 1 ≡ 0 = omega arith in rw (z, w) refl
cmp_bytes-to_be (suc n) a b xs ys =
    let p : ℕ = 256 ^ n in
    let top : compare (a % (p * 256)) (b % (p * 256))
        ≡ then_cmp (compare (a / p % 256) (b / p % 256)) (compare (a % p) (b % p)) =
      rw (split_top a p (pow_pos n), split_top b p (pow_pos n))
        (compare_digits (a / p % 256) (b / p % 256) (a % p) (b % p) p (mod-lt a (pow_pos n))
          (mod-lt b (pow_pos n))) in
    rw (pow-suc 256 n, top) (ground (arith, cmp_bytes-to_be n a b xs ys))
