-- ===== src/Base/Order.antt =====
-- `[u8]::cmp`, the lexicographic order of byte strings, is a strict linear order.
use Prim.Native.Nat.{compare, Ordering}
use plugmem.Base.Bytes.{Bytes}
use mathlib.Core.Path.{◌≡◌, refl}
use mathlib.Core.List.{[], ◌∷◌}
use native.Mathlib.Omega.{arith}

unfoldable pub cmp_bytes : Bytes → Bytes → Ordering
cmp_bytes [] [] = Ordering.eq
cmp_bytes [] (b ∷ bs) = Ordering.lt
cmp_bytes (a ∷ as') [] = Ordering.gt
cmp_bytes (a ∷ as') (b ∷ bs) = elim (compare a b) [
  | Ordering.lt ↦ Ordering.lt
  | Ordering.eq ↦ cmp_bytes as' bs
  | Ordering.gt ↦ Ordering.gt
]

-- A comparison that falls back on another where the first says equal.
abbrev pub then_cmp : Ordering → Ordering → Ordering
then_cmp Ordering.lt o = Ordering.lt
then_cmp Ordering.eq o = o
then_cmp Ordering.gt o = Ordering.gt

infix 4 ◌≺◌
abbrev pub ◌≺◌ : Bytes → Bytes → Type 0
a ≺ b = cmp_bytes a b ≡ Ordering.lt

pub cmp_bytes-eq : (a b : Bytes) → cmp_bytes a b ≡ Ordering.eq → a ≡ b
unfolding cmp_bytes
cmp_bytes-eq [] [] h = refl
cmp_bytes-eq [] (b ∷ bs) h = cc
cmp_bytes-eq (a ∷ as') [] h = cc
cmp_bytes-eq (a ∷ as') (b ∷ bs) h =
    let head : a ≡ b = ground arith in
    let tail : cmp_bytes as' bs ≡ Ordering.eq = ground arith in
    rw (head, cmp_bytes-eq as' bs tail) refl

pub cmp_bytes-gt : (a b : Bytes) → cmp_bytes a b ≡ Ordering.gt → b ≺ a
unfolding cmp_bytes
cmp_bytes-gt [] [] h = cc
cmp_bytes-gt [] (b ∷ bs) h = cc
cmp_bytes-gt (a ∷ as') [] h = refl
cmp_bytes-gt (a ∷ as') (b ∷ bs) h = ground (arith, cmp_bytes-gt as' bs)

pub ≺_irrefl : (a : Bytes) → ¬ (a ≺ a)
unfolding cmp_bytes
≺_irrefl [] h = cc
≺_irrefl (a ∷ as') h = ground (arith, ≺_irrefl as')

pub ≺_trans : (a b c : Bytes) → a ≺ b → b ≺ c → a ≺ c
unfolding cmp_bytes
≺_trans [] [] c p q = cc
≺_trans [] (b ∷ bs) [] p q = cc
≺_trans [] (b ∷ bs) (c ∷ cs) p q = refl
≺_trans (a ∷ as') [] c p q = cc
≺_trans (a ∷ as') (b ∷ bs) [] p q = cc
≺_trans (a ∷ as') (b ∷ bs) (c ∷ cs) p q = ground (arith, ≺_trans as' bs cs)
