-- ===== src/Arena/Shards.antt =====
-- `shard_of`: where a key lives.
use plugmem.Base.{
  ◌≢◌, ℕ, zero, suc, ◌+◌, ◌-◌, ◌*◌, ◌/◌, ◌^◌, ◌≤◌, ◌<◌, ◌≡◌, ◌⊎◌, inl, inr, refl, sym, ap, ◌∙◌,
  arith,
}
use plugmem.Base.{
  Option, none, some, ◌==◌, true, false, [], ◌∷◌, ◌++◌, length, take, All, All-take, All-append,
  length-append, length-take, Option-cases, ==_iff,
}
use plugmem.Base.Bytes.{Bytes, IsByte, from_be}
use plugmem.Base.Order.{cmp_bytes, ◌≺◌}
use plugmem.Base.Mask.{two_pow_pos}
use plugmem.Paged.{replicate}
use plugmem.Paged.Place.{length-replicate}
use plugmem.Paged.Copy.{eq_cases}
use plugmem.Arena.{
  ArenaCfg, ShardMode, log2_below, log2, is_power_of_two, key_word, hash, shard_at, shard_of,
}
use plugmem.Arena.Bisect.{orderings}
use Prim.Native.Nat.{min, compare}
use native.Mathlib.Nat.{pow-suc, le-div_iff_mul-le, div-lt_iff_lt-mul, div-mul-le_self}

module _ where
  -- The first `n` bytes of a key, padded with zeroes.
  abbrev pad : ℕ → Bytes → Bytes
  pad n key = take (min (length key) n) key ++ replicate (n - min (length key) n) 0

  length-zeroes : (n : ℕ) → length (replicate n (let z : ℕ = 0 in z)) ≡ n
  length-zeroes n = length-replicate n 0

  length-pad : (n : ℕ) (key : Bytes) → length (pad n key) ≡ n
  length-pad n key = omega (
    arith,
    length-append (take (min (length key) n) key) (replicate (n - min (length key) n) 0),
    length-take (min (length key) n) key,
    length-zeroes (n - min (length key) n),
  )

  zeroes-IsByte : (n : ℕ) → All IsByte (replicate n 0)
  unfolding replicate
  zeroes-IsByte zero = tt
  zeroes-IsByte (suc n) = (omega arith, zeroes-IsByte n)

  pad-IsByte : (n : ℕ) (key : Bytes) → All IsByte key → All IsByte (pad n key)
  pad-IsByte n key h =
      All-append IsByte (take (min (length key) n) key) (replicate (n - min (length key) n) 0)
        (All-take IsByte (min (length key) n) key h) (zeroes-IsByte (n - min (length key) n))

  pad-cons : (n b : ℕ) (key : Bytes) → pad (suc n) (b ∷ key) ≡ b ∷ pad n key
  pad-cons n b key =
      let e : min (suc (length key)) (suc n) ≡ suc (min (length key) n) = omega arith in
      let f : suc n - suc (min (length key) n) ≡ n - min (length key) n = omega arith in
      rw (e, f) refl

  pad-nil : (n : ℕ) → pad n [] ≡ replicate n 0
  pad-nil n = let f : min 0 n ≡ 0 = omega arith in let e : n - 0 ≡ n = omega arith in rw (f, e) refl

  from_be-zeroes : (n : ℕ) → from_be (replicate n 0) ≡ 0
  unfolding from_be replicate
  from_be-zeroes zero = refl
  from_be-zeroes (suc n) = omega (arith, from_be-zeroes n)

  pub from_be-lt : (bs : Bytes) → All IsByte bs → from_be bs < 256 ^ length bs
  unfolding from_be
  from_be-lt [] h = omega arith
  from_be-lt (b ∷ bs) h = grind (arith, from_be-lt bs h.1, h.0, pow-suc 256 (length bs))

  digits_le : (x y r s p : ℕ) → r < p → x < y → x * p + r ≤ y * p + s
  digits_le x y r s p hr h = grind arith

  pad_small : (n : ℕ) (a : Bytes) → All IsByte a → from_be (pad n a) < 256 ^ n
  pad_small n a h = rw (length-pad n a) at (from_be-lt (pad n a) (pad-IsByte n a h))

  ≺-cons : (x y : ℕ) (a b : Bytes) → x ∷ a ≺ y ∷ b → (x < y) ⊎ ((x ≡ y) × (a ≺ b))
  unfolding cmp_bytes
  ≺-cons x y a b h = elim (orderings (compare x y)) [
    | inl lt ↦ inl (ground arith)
    | inr (inl eq) ↦ inr (ground arith, ground arith)
    | inr (inr gt) ↦ absurd (ground arith)
  ]

  pad_mono :
      (n : ℕ) (a b : Bytes)
      → All IsByte a
      → All IsByte b
      → a ≺ b
      → from_be (pad n a) ≤ from_be (pad n b)
  unfolding from_be cmp_bytes
  pad_mono zero a b ha hb h =
      let e : min (length a) 0 ≡ 0 = omega arith in
      let f : min (length b) 0 ≡ 0 = omega arith in rw (e, f) (omega arith)
  pad_mono (suc n) [] [] ha hb h = cc
  pad_mono (suc n) [] (y ∷ b) ha hb h = rw (pad-nil (suc n), from_be-zeroes (suc n)) (omega arith)
  pad_mono (suc n) (x ∷ a) [] ha hb h = cc
  pad_mono (suc n) (x ∷ a) (y ∷ b) ha hb h =
      rw (pad-cons n x a, pad-cons n y b, length-pad n a, length-pad n b)
        (elim (≺-cons x y a b h) [
          | inl lt ↦
              digits_le x y (from_be (pad n a)) (from_be (pad n b)) (256 ^ n) (pad_small n a ha.1)
                lt
          | inr (e, tail) ↦ rw e (omega (arith, pad_mono n a b ha.1 hb.1 tail))
        ])

key_word-lt : (key : Bytes) → All IsByte key → key_word key < 2 ^ 64
unfolding key_word
key_word-lt key h = pad_small 8 key h

key_word_mono : (a b : Bytes) → All IsByte a → All IsByte b → a ≺ b → key_word a ≤ key_word b
unfolding key_word
key_word_mono a b ha hb h = pad_mono 8 a b ha hb h

hash-lt : (mode : ShardMode) (v : ℕ) → v < 2 ^ 64 → hash mode v < 2 ^ 64
unfolding hash
hash-lt ShardMode.ordered v h = h
hash-lt ShardMode.uniform v h = omega arith

log2_below_sound : (k n r : ℕ) → log2_below k n ≡ some r → (n ≡ 2 ^ r) × (r < k)
unfolding log2_below
log2_below_sound zero n r h = cc
log2_below_sound (suc k) n r h = elim (eq_cases n (2 ^ k)) [
  | inl e ↦
      let t : (n == 2 ^ k) ≡ true = (==_iff n (2 ^ k)).1 e in
      let same : k ≡ r = some_inj (rw t at h) in
      (e ∙ ap (λ (x : ℕ). 2 ^ x) same, omega (arith, same))
  | inr d ↦
      let t : (n == 2 ^ k) ≡ false = not_equal n (2 ^ k) d in
      let (e, l) = log2_below_sound k n r (rw t at h) in (e, omega (arith, l))
]
  where
    some_inj : {x y : ℕ} → some x ≡ some y → x ≡ y
    some_inj e = cc

    not_equal : (x y : ℕ) → x ≢ y → (x == y) ≡ false
    not_equal x y d = ground arith

two_pow-add : (a b : ℕ) → 2 ^ (a + b) ≡ 2 ^ a * 2 ^ b
two_pow-add a zero = let e : a + 0 ≡ a = omega arith in rw e (omega arith)
two_pow-add a (suc b) =
    let e : a + suc b ≡ suc (a + b) = omega arith in
    rw (e, pow-suc 2 (a + b), pow-suc 2 b, two_pow-add a b) (grind arith)

div_mono : (x y k : ℕ) → 0 < k → x ≤ y → x / k ≤ y / k
div_mono x y k h le = (le-div_iff_mul-le h).1 (omega (arith, div-mul-le_self x k))

shard_at-lt :
    (mode : ShardMode) (bits : ℕ) (key : Bytes)
    → bits < 64
    → All IsByte key
    → shard_at mode (some bits) key < 2 ^ bits
unfolding shard_at
shard_at-lt mode zero key small h = omega arith
shard_at-lt mode (suc b) key small h =
    let e : suc b + (64 - suc b) ≡ 64 = omega arith in
    let whole : 2 ^ suc b * 2 ^ (64 - suc b) ≡ 2 ^ 64 =
      sym (two_pow-add (suc b) (64 - suc b)) ∙ ap (λ (x : ℕ). 2 ^ x) e in
    (div-lt_iff_lt-mul (two_pow_pos (64 - suc b))).1
      (omega (arith, whole, hash-lt mode (key_word key) (key_word-lt key h)))

shard_at_mono :
    (bits : Option ℕ) (a b : Bytes)
    → All IsByte a
    → All IsByte b
    → a ≺ b
    → shard_at ShardMode.ordered bits a ≤ shard_at ShardMode.ordered bits b
unfolding shard_at hash
shard_at_mono none a b ha hb h = omega arith
shard_at_mono (some zero) a b ha hb h = omega arith
shard_at_mono (some (suc k)) a b ha hb h =
    div_mono (key_word a) (key_word b) (2 ^ (64 - suc k)) (two_pow_pos (64 - suc k))
      (key_word_mono a b ha hb h)

log2_of_power : (n : ℕ) → is_power_of_two n ≡ true → (k : ℕ) × (log2 n ≡ some k)
unfolding is_power_of_two
log2_of_power n h = elim (Option-cases (log2 n)) [
  | inl none' ↦ let bad = rw (none', is_power_of_two) at h in cc
  | inr known ↦ known
]

module _ (cfg : ArenaCfg) (power : is_power_of_two cfg.shards ≡ true) where
  shard_of-lt : (key : Bytes) → All IsByte key → shard_of cfg key < cfg.shards
  unfolding shard_of log2
  shard_of-lt key h =
      let (k, e) = log2_of_power cfg.shards power in
      let (size, small) = log2_below_sound 64 cfg.shards k e in
      rw e (omega (arith, size, shard_at-lt cfg.mode k key small h))

  shard_of_ordered :
      (a b : Bytes)
      → All IsByte a
      → All IsByte b
      → (cfg.mode ≡ ShardMode.ordered)
      → a ≺ b
      → shard_of cfg a ≤ shard_of cfg b
  unfolding shard_of
  shard_of_ordered a b ha hb mode h = rw mode (shard_at_mono (log2 cfg.shards) a b ha hb h)

  -- On a number of shards that `new` accepts, every key belongs to one of the shards; and in the ordered mode a
  -- smaller key never belongs to a later shard, whatever the lengths of the two keys.
  pub shard_of_mono :
      (a b : Bytes)
      → All IsByte a
      → All IsByte b
      → (shard_of cfg a < cfg.shards)
        × ((cfg.mode ≡ ShardMode.ordered) → a ≺ b → shard_of cfg a ≤ shard_of cfg b)
  shard_of_mono a b ha hb = (shard_of-lt a ha, shard_of_ordered a b ha hb)
