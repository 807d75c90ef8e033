-- ===== src/Metadata/RoundTrip.antt =====
-- What the encoder writes is decoded to the sorted pairs.
use Prim.Native.Nat.{Ordering}
use plugmem.Base.{◌≡◌, refl, sym, inl, inr, ◌^◌, ◌%◌, ◌≤◌, ℕ, arith}
use plugmem.Base.{List, [], ◌∷◌, ◌++◌, true, length, ok, All, Option, none, some}
use plugmem.Base.{append_assoc, length-append, take_front, drop_front}
use plugmem.Base.Bytes.{Bytes, IsU32, to_le, length-to_le, from_le-to_le}
use plugmem.Base.Order.{cmp_bytes, ◌≺◌, cmp_bytes-eq, ≺_irrefl, ≺_trans}
use plugmem.Base.Utf8.{is_utf8}
use plugmem.Metadata.{
  Pair, insert, sort, put_str, put_each, encode, take_u32, take_text, take_str, test_order,
  decode_loop, at_end, decode,
}
use plugmem.Metadata.Sort.{IsAscending, IsDistinct, cmp_cases, sort-perm}
use plugmem.Metadata.Canonical.{encode_accepts, length-sort, sort-IsAscending}
use mathlib.Core.Path.{subst}
use mathlib.Core.List.{Perm, Pairwise, mem-cons_self}

-- What the type `&str` promises, and a length that fits its prefix.
pub record IsText (s : Bytes) : Type 0 where
  pub utf8 : is_utf8 s ≡ true
  pub short : IsU32 (length s)

abbrev pub AreTexts : Pair → Type 0
AreTexts p = IsText p.0 × IsText p.1

not_short : (n : ℕ) (front rest : Bytes) → length front ≡ n → n ≤ length (front ++ rest)
not_short n front rest h = omega (arith, length-append front rest)

take_u32-to_le : (v : ℕ) (rest : Bytes) → IsU32 v → take_u32 (to_le 4 v ++ rest) ≡ ok (v, rest)
unfolding take_u32
take_u32-to_le v rest h =
    let len : length (to_le 4 v) ≡ 4 = length-to_le 4 v in
    rw (take_front 4 (to_le 4 v) rest len, drop_front 4 (to_le 4 v) rest len, from_le-to_le 4 v h)
      (ground (arith, not_short 4 (to_le 4 v) rest len))

take_text-append : (s rest : Bytes) → IsText s → take_text (length s) (s ++ rest) ≡ ok (s, rest)
unfolding take_text
take_text-append s rest h =
    rw (take_front (length s) s rest refl, drop_front (length s) s rest refl, h.utf8)
      (ground (arith, not_short (length s) s rest refl))

take_str-put_str : (s rest : Bytes) → IsText s → take_str (put_str s ++ rest) ≡ ok (s, rest)
unfolding take_str put_str
take_str-put_str s rest h =
    let small : length s % 2 ^ 32 ≡ length s = omega (arith, h.short) in
    rw (small, append_assoc, take_u32-to_le (length s) (s ++ rest) h.short)
      (take_text-append s rest h)

pub cmp_bytes-flip : (a b : Bytes) → a ≺ b → cmp_bytes b a ≡ Ordering.gt
cmp_bytes-flip a b h = elim (cmp_cases b a) [
  | inl l ↦ absurd (≺_irrefl a (≺_trans a b a h l))
  | inr (inl e) ↦ absurd (≺_irrefl b (subst (λ (t : Bytes). t ≺ b) (sym (cmp_bytes-eq b a e)) h))
  | inr (inr g) ↦ g
]

-- The key before the pairs is below all of them.
abbrev pub Follows : Option Bytes → List Pair → Type 0
Follows none l = Unit
Follows (some k) [] = Unit
Follows (some k) (p ∷ l) = k ≺ p.0

test_order-Follows :
    (prev : Option Bytes) (p : Pair) (l : List Pair)
    → Follows prev (p ∷ l)
    → test_order prev p.0 ≡ ok tt
unfolding test_order
test_order-Follows none p l h = refl
test_order-Follows (some k) p l h = rw (cmp_bytes-flip k p.0 h, test_order) refl

Follows-tail : (p : Pair) (l : List Pair) → IsAscending (p ∷ l) → Follows (some p.0) l
Follows-tail p [] s = tt
Follows-tail p (q ∷ l) (Pairwise.cons below s) = below q mem-cons_self

decode_loop-put_each :
    (l : List Pair) (prev : Option Bytes)
    → All AreTexts l
    → IsAscending l
    → Follows prev l
    → decode_loop (length l) prev (put_each l) ≡ ok (l, [])
unfolding decode_loop put_each
decode_loop-put_each [] prev h s f = refl
decode_loop-put_each ((k, v) ∷ l) prev h (Pairwise.cons below s) f =
    let whole : IsAscending ((k, v) ∷ l) = Pairwise.cons below s in
    rw
      (
        take_str-put_str k (put_str v ++ put_each l) h.0.0,
        take_str-put_str v (put_each l) h.0.1,
        test_order-Follows prev (k, v) l f,
        decode_loop-put_each l (some k) h.1 s (Follows-tail (k, v) l whole),
      )
      refl

module _ (P : Pair → Type 0) where
  all-insert : (p : Pair) (l : List Pair) → P p → All P l → All P (insert p l)
  unfolding insert
  all-insert p [] hp h = (hp, tt)
  all-insert p (q ∷ qs) hp h = elim (cmp_cases p.0 q.0) [
    | inl e ↦ rw (e, insert) (hp, h)
    | inr (inl e) ↦ rw (e, insert) (hp, h)
    | inr (inr e) ↦ rw (e, insert) (h.0, all-insert p qs hp h.1)
  ]

  all-sort : (l : List Pair) → All P l → All P (sort l)
  unfolding sort
  all-sort [] h = tt
  all-sort (p ∷ ps) h = all-insert p (sort ps) h.0 (all-sort ps h.1)

decode-image :
    (l : List Pair)
    → All AreTexts l
    → IsU32 (length l)
    → IsAscending l
    → decode (to_le 4 (length l % 2 ^ 32) ++ put_each l) ≡ ok l
unfolding decode at_end
decode-image l h count s =
    let small : length l % 2 ^ 32 ≡ length l = omega (arith, count) in
    rw (small, take_u32-to_le (length l) (put_each l) count, decode_loop-put_each l none h s tt)
      refl

-- For fewer than 2^32 pairs of UTF-8 strings shorter than 2^32 bytes, whose keys all differ: encoding
-- succeeds, and decoding gives the same pairs back in ascending order of their keys.
pub decode-encode_pairs :
    (ps : List Pair)
    → All AreTexts ps
    → IsU32 (length ps)
    → IsDistinct ps
    → (blob : Bytes) × (out : List Pair) × (encode ps ≡ ok blob)
      × (decode blob ≡ ok out)
      × Perm out ps
      × IsAscending out
decode-encode_pairs ps h count d =
    let size : length (sort ps) ≡ length ps = length-sort ps in
    (
      to_le 4 (length ps % 2 ^ 32) ++ put_each (sort ps),
      sort ps,
      encode_accepts ps d,
      rw size at (
          decode-image (sort ps) (all-sort AreTexts ps h) (omega (arith, count, size))
            (sort-IsAscending ps d)),
      sort-perm ps,
      sort-IsAscending ps d,
    )
