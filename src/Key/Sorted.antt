-- ===== src/Key/Sorted.antt =====
-- Composite keys sort as pairs: first by the high part, then by the low part.
use Prim.Native.Nat.{compare, Ordering}
use plugmem.Base.{ℕ, ◌≤◌, ◌≡◌, refl, ◌++◌, length, take, drop, some, [], append-nil}
use plugmem.Base.Bytes.{Bytes, IsU32, IsU64, to_be}
use plugmem.Key.{write_pair}
use plugmem.Base.Order.{cmp_bytes, then_cmp}
use plugmem.Key.Order.{cmp_bytes-to_be}
use plugmem.Key.RoundTrip.{write_pair-bytes, key-front}
use native.Mathlib.Nat.{mod-eq_of_lt}

then_cmp-eq : (o : Ordering) → then_cmp o Ordering.eq ≡ o
then_cmp-eq Ordering.lt = refl
then_cmp-eq Ordering.eq = refl
then_cmp-eq Ordering.gt = refl

-- Keys of the same width, and nothing behind them.
cmp_bytes-parts :
    (hi lo hi' lo' : ℕ)
    → IsU64 hi
    → IsU64 hi'
    → IsU32 lo
    → IsU32 lo'
    → cmp_bytes (to_be 8 hi ++ to_be 4 lo) (to_be 8 hi' ++ to_be 4 lo')
      ≡ then_cmp (compare hi hi') (compare lo lo')
unfolding cmp_bytes
cmp_bytes-parts hi lo hi' lo' h h' l l' =
    let low : cmp_bytes (to_be 4 lo) (to_be 4 lo') ≡ compare lo lo' =
      rw
        (
          append-nil (to_be 4 lo),
          append-nil (to_be 4 lo'),
          mod-eq_of_lt l,
          mod-eq_of_lt l',
          then_cmp-eq (compare lo lo'),
        )
        at (cmp_bytes-to_be 4 lo lo' [] []) in
    rw (mod-eq_of_lt h, mod-eq_of_lt h', low) at
      (cmp_bytes-to_be 8 hi hi' (to_be 4 lo) (to_be 4 lo'))

-- For any two composite keys in any buffers of at least twelve bytes: both writes succeed, and the twelve
-- bytes of the keys compare as the pairs do, by the high part first and by the low part where they agree.
pub write_pair-order :
    (out out' : Bytes) (hi lo hi' lo' : ℕ)
    → 12 ≤ length out
    → 12 ≤ length out'
    → IsU64 hi
    → IsU64 hi'
    → IsU32 lo
    → IsU32 lo'
    → (o : Bytes) × (o' : Bytes) × (write_pair out hi lo ≡ some o)
      × (write_pair out' hi' lo' ≡ some o')
      × (cmp_bytes (take 12 o) (take 12 o') ≡ then_cmp (compare hi hi') (compare lo lo'))
write_pair-order out out' hi lo hi' lo' room room' h h' l l' = (
  to_be 8 hi ++ (to_be 4 lo ++ drop 12 out),
  to_be 8 hi' ++ (to_be 4 lo' ++ drop 12 out'),
  write_pair-bytes out hi lo room,
  write_pair-bytes out' hi' lo' room',
  rw (key-front hi lo (drop 12 out), key-front hi' lo' (drop 12 out'))
      (cmp_bytes-parts hi lo hi' lo' h h' l l'),
)
