-- ===== src/Key/RoundTrip.antt =====
-- What the writers of keys leave in the buffer, and that the readers give it back.
use plugmem.Base.{ℕ, zero, suc, ◌+◌, ◌-◌, ◌%◌, ◌^◌, ◌≤◌, ◌<◌, ◌≡◌, refl, sym, ap, ◌∙◌, arith}
use plugmem.Base.{◌++◌, length, take, drop, some}
use plugmem.Base.{length-append, append_assoc, length-drop, drop-drop, take_front, drop_front}
use plugmem.Base.Bytes.{Bytes, IsU32, IsU64, to_be, from_be}
use plugmem.Key.{write_u32, write_u64, read_u32, read_u64, write_pair, read_pair}
use plugmem.Key.Order.{split_top, pow_pos}
use native.Mathlib.Nat.{pow-suc, mod-eq_of_lt}
use mathlib.Core.Option

pub length-to_be : (n v : ℕ) → length (to_be n v) ≡ n
unfolding to_be
length-to_be zero v = refl
length-to_be (suc n) v = ap suc (length-to_be n v)

from_be-to_be_mod : (n v : ℕ) → from_be (to_be n v) ≡ v % 256 ^ n
unfolding to_be from_be
from_be-to_be_mod zero v = omega arith
from_be-to_be_mod (suc n) v =
    rw (length-to_be n v, from_be-to_be_mod n v, pow-suc 256 n)
      (sym (split_top v (256 ^ n) (pow_pos n)))

pub from_be-to_be : (n v : ℕ) → v < 256 ^ n → from_be (to_be n v) ≡ v
from_be-to_be n v h = from_be-to_be_mod n v ∙ mod-eq_of_lt h

write_u64-bytes :
    (out : Bytes) (v : ℕ) → 8 ≤ length out → write_u64 out v ≡ some (to_be 8 v ++ drop 8 out)
unfolding write_u64
write_u64-bytes out v room = ground arith

write_u32-bytes :
    (out : Bytes) (v : ℕ) → 4 ≤ length out → write_u32 out v ≡ some (to_be 4 v ++ drop 4 out)
unfolding write_u32
write_u32-bytes out v room = ground arith

-- A big-endian field at the front of a buffer.
read_u64-to_be : (v : ℕ) (rest : Bytes) → IsU64 v → read_u64 (to_be 8 v ++ rest) ≡ some v
unfolding read_u64
read_u64-to_be v rest h =
    let size : length (to_be 8 v ++ rest) ≡ 8 + length rest =
      length-append (to_be 8 v) rest ∙ ap (λ (t : ℕ). t + length rest) (length-to_be 8 v) in
    rw (take_front 8 (to_be 8 v) rest (length-to_be 8 v), from_be-to_be 8 v h) (ground arith)

read_u32-to_be : (v : ℕ) (rest : Bytes) → IsU32 v → read_u32 (to_be 4 v ++ rest) ≡ some v
unfolding read_u32
read_u32-to_be v rest h =
    let size : length (to_be 4 v ++ rest) ≡ 4 + length rest =
      length-append (to_be 4 v) rest ∙ ap (λ (t : ℕ). t + length rest) (length-to_be 4 v) in
    rw (take_front 4 (to_be 4 v) rest (length-to_be 4 v), from_be-to_be 4 v h) (ground arith)

-- A composite key is its two parts, one behind the other, and the rest of the buffer stays.
pub write_pair-bytes :
    (out : Bytes) (hi lo : ℕ)
    → 12 ≤ length out
    → write_pair out hi lo ≡ some (to_be 8 hi ++ (to_be 4 lo ++ drop 12 out))
unfolding write_pair Option.bind
write_pair-bytes out hi lo room =
    let back : length (drop 8 out) ≡ length out - 8 = length-drop 8 out in
    rw
      (
        write_u64-bytes out hi (omega arith),
        drop_front 8 (to_be 8 hi) (drop 8 out) (length-to_be 8 hi),
        take_front 8 (to_be 8 hi) (drop 8 out) (length-to_be 8 hi),
        write_u32-bytes (drop 8 out) lo (omega arith),
        drop-drop 4 8 out,
      )
      refl

read_pair-bytes :
    (hi lo : ℕ) (rest : Bytes)
    → IsU64 hi
    → IsU32 lo
    → read_pair (to_be 8 hi ++ (to_be 4 lo ++ rest)) ≡ some (hi, lo)
unfolding read_pair Option.bind
read_pair-bytes hi lo rest h l =
    rw
      (
        read_u64-to_be hi (to_be 4 lo ++ rest) h,
        drop_front 8 (to_be 8 hi) (to_be 4 lo ++ rest) (length-to_be 8 hi),
        read_u32-to_be lo rest l,
      )
      refl

-- The parts of a key and what follows it.
key-size :
    (hi lo : ℕ) (rest : Bytes) → length (to_be 8 hi ++ (to_be 4 lo ++ rest)) ≡ 12 + length rest
key-size hi lo rest = omega (
  arith,
  length-append (to_be 8 hi) (to_be 4 lo ++ rest),
  length-append (to_be 4 lo) rest,
  length-to_be 8 hi,
  length-to_be 4 lo,
)

pub key-front :
    (hi lo : ℕ) (rest : Bytes)
    → take 12 (to_be 8 hi ++ (to_be 4 lo ++ rest)) ≡ to_be 8 hi ++ to_be 4 lo
key-front hi lo rest = rw (← append_assoc (to_be 8 hi) (to_be 4 lo) rest) (
    take_front 12 (to_be 8 hi ++ to_be 4 lo) rest (
      omega (arith, length-append (to_be 8 hi) (to_be 4 lo), length-to_be 8 hi, length-to_be 4 lo)))

key-back : (hi lo : ℕ) (rest : Bytes) → drop 12 (to_be 8 hi ++ (to_be 4 lo ++ rest)) ≡ rest
key-back hi lo rest = rw (← append_assoc (to_be 8 hi) (to_be 4 lo) rest) (
    drop_front 12 (to_be 8 hi ++ to_be 4 lo) rest (
      omega (arith, length-append (to_be 8 hi) (to_be 4 lo), length-to_be 8 hi, length-to_be 4 lo)))

-- For a key of a u64 and a u32 and any buffer of at least twelve bytes: writing succeeds, the key is read
-- back from what it leaves, and the buffer keeps its length and everything behind the key.
pub read_pair-write_pair :
    (out : Bytes) (hi lo : ℕ)
    → 12 ≤ length out
    → IsU64 hi
    → IsU32 lo
    → (o : Bytes) × (write_pair out hi lo ≡ some o)
      × (read_pair o ≡ some (hi, lo))
      × (length o ≡ length out)
      × (drop 12 o ≡ drop 12 out)
read_pair-write_pair out hi lo room h l = (
  to_be 8 hi ++ (to_be 4 lo ++ drop 12 out),
  write_pair-bytes out hi lo room,
  read_pair-bytes hi lo (drop 12 out) h l,
  omega (arith, key-size hi lo (drop 12 out), length-drop 12 out),
  key-back hi lo (drop 12 out),
)
