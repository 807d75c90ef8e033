-- ===== src/Metadata/Accept.antt =====
-- The decoder accepts nothing but what the encoder writes.
use plugmem.Base.{◌≡◌, refl, sym, ap, ◌∙◌, inl, inr, ◌^◌, ◌%◌, ◌≤◌, ◌<◌, ℕ, zero, suc, arith}
use plugmem.Base.{List, [], ◌∷◌, ◌++◌, true, length, take, drop, ok, All, Option, none, some}
use plugmem.Base.{
  append_assoc, append-nil, All-drop, take-append-drop, length-take, from_bind, ok_inj,
}
use plugmem.Base.Bytes.{Bytes, IsByte, to_le, from_le, to_le-field, field-lt}
use plugmem.Base.Order.{cmp_bytes-gt}
use plugmem.Base.Utf8.{is_utf8}
use plugmem.Metadata.{
  Pair, put_str, put_each, encode, take_u32, take_text, take_str, test_order, decode_loop, at_end,
  decode,
}
use plugmem.Metadata.Sort.{IsAscending, cmp_cases, IsAscending-cons}
use plugmem.Metadata.Canonical.{encode_accepts, sort_ascending, ascending-IsDistinct}
use plugmem.Metadata.RoundTrip.{IsText, AreTexts, Follows}
use mathlib.Core.Path.{subst}
use mathlib.Core.List.{Pairwise, Pairwise-singleton}

-- A field that was read, and the bytes that are left.
record ReadU32 (bytes : Bytes) (v : ℕ) (rest : Bytes) : Type 0 where
  whole : bytes ≡ to_le 4 v ++ rest
  small : v < 2 ^ 32
  left : All IsByte rest

take_u32-ReadU32 :
    (bytes rest : Bytes) (v : ℕ)
    → All IsByte bytes
    → take_u32 bytes ≡ ok (v, rest)
    → ReadU32 bytes v rest
unfolding take_u32
take_u32-ReadU32 bytes rest v hb e =
    let long : 4 ≤ length bytes = ground arith in
    let value : from_le (take 4 bytes) ≡ v = ground arith in
    let back : drop 4 bytes ≡ rest = ground arith in
    record {
      whole = rw (← value, ← back, to_le-field 4 bytes hb long) (sym (take-append-drop 4 bytes));
      small = rw value at (field-lt 4 bytes hb long);
      left = rw back at (All-drop IsByte 4 bytes hb);
    }

record ReadStr (bytes s rest : Bytes) : Type 0 where
  whole : bytes ≡ put_str s ++ rest
  text : IsText s
  left : All IsByte rest

take_text-front :
    (len : ℕ) (bytes s rest : Bytes)
    → take_text len bytes ≡ ok (s, rest)
    → (len ≤ length bytes)
      × (take len bytes ≡ s)
      × (drop len bytes ≡ rest)
      × (is_utf8 (take len bytes) ≡ true)
unfolding take_text
take_text-front len bytes s rest e = (ground arith, ground arith, ground arith, ground arith)

take_text-ReadStr :
    (len : ℕ) (bytes mid s rest : Bytes)
    → ReadU32 bytes len mid
    → take_text len mid ≡ ok (s, rest)
    → ReadStr bytes s rest
unfolding put_str
take_text-ReadStr len bytes mid s rest r e =
    let front = take_text-front len mid s rest e in
    let size : length s ≡ len =
      omega (arith, ap (λ (t : Bytes). length t) front.1, length-take len mid, front.0) in
    let same : length s % 2 ^ 32 ≡ len = omega (arith, size, r.small) in
    record {
      whole = r.whole ∙ rw (same, append_assoc, ← take-append-drop len mid, front.1, front.2) refl;
      text = record { utf8 = rw front.1 at front.3; short = omega (arith, size, r.small) };
      left = rw front.2 at (All-drop IsByte len mid r.left);
    }

take_str-ReadStr :
    (bytes s rest : Bytes) → All IsByte bytes → take_str bytes ≡ ok (s, rest) → ReadStr bytes s rest
unfolding take_str
take_str-ReadStr bytes s rest hb e =
    from_bind (take_u32 bytes) (λ p. take_text p.0 p.1) (s, rest) e
      λ len first more.
        take_text-ReadStr len.0 bytes len.1 s rest (take_u32-ReadU32 bytes len.1 len.0 hb first)
          more

test_order-ok :
    (prev : Option Bytes) (k v : Bytes) (u : Unit)
    → test_order prev k ≡ ok u
    → Follows prev ((k, v) ∷ [])
unfolding test_order
test_order-ok none k v u e = tt
test_order-ok (some p) k v u e = elim (cmp_cases k p) [
  | inl h ↦ let bad = rw (h, test_order) at e in cc
  | inr (inl h) ↦ let bad = rw (h, test_order) at e in cc
  | inr (inr h) ↦ cmp_bytes-gt k p h
]

-- The pairs that the loop has read.
record Decoded (count : ℕ) (prev : Option Bytes) (bytes : Bytes) (l : List Pair) (end : Bytes)
    : Type 0 where
  whole : bytes ≡ put_each l ++ end
  texts : All AreTexts l
  ascending : IsAscending l
  follows : Follows prev l
  size : length l ≡ count

IsAscending-of_Follows :
    (k v : Bytes) (l : List Pair) → Follows (some k) l → IsAscending l → IsAscending ((k, v) ∷ l)
IsAscending-of_Follows k v [] f s = Pairwise-singleton _ (k, v)
IsAscending-of_Follows k v (q ∷ l) f s = IsAscending-cons (k, v) q f s

Follows-first :
    (prev : Option Bytes) (p : Pair) (l : List Pair) → Follows prev (p ∷ []) → Follows prev (p ∷ l)
Follows-first none p l f = tt
Follows-first (some k) p l f = f

Decoded-cons :
    (count : ℕ) (prev : Option Bytes) (k v bytes mid rest end : Bytes) (l : List Pair)
    → ReadStr bytes k mid
    → ReadStr mid v rest
    → Follows prev ((k, v) ∷ [])
    → Decoded count (some k) rest l end
    → Decoded (suc count) prev bytes ((k, v) ∷ l) end
unfolding put_each
Decoded-cons count prev k v bytes mid rest end l rk rv f d = record {
  whole =
      rk.whole
      ∙ ap (λ (t : Bytes). put_str k ++ t) (rv.whole ∙ ap (λ (t : Bytes). put_str v ++ t) d.whole)
      ∙ sym (
          append_assoc (put_str k) (put_str v ++ put_each l) end
          ∙ ap (λ (t : Bytes). put_str k ++ t) (append_assoc (put_str v) (put_each l) end));
  texts = ((rk.text, rv.text), d.texts);
  ascending = IsAscending-of_Follows k v l d.follows d.ascending;
  follows = Follows-first prev (k, v) l f;
  size = ap suc d.size;
}

decode_loop-Decoded :
    (count : ℕ) (prev : Option Bytes) (bytes end : Bytes) (l : List Pair)
    → All IsByte bytes
    → decode_loop count prev bytes ≡ ok (l, end)
    → Decoded count prev bytes l end
unfolding decode_loop put_each
decode_loop-Decoded zero prev bytes end l hb e =
    subst (λ (t : List Pair × Bytes). Decoded zero prev bytes t.0 t.1) (ok_inj e)
      (record {
        whole = refl;
        texts = tt;
        ascending = Pairwise.nil;
        follows = no_pairs prev;
        size = refl;
      })
  where
    no_pairs : (prev : Option Bytes) → Follows prev []
    no_pairs none = tt
    no_pairs (some k) = tt
decode_loop-Decoded (suc count) prev bytes end l hb e =
    from_bind (take_str bytes) _ (l, end) e
      λ key first e1.
        let rk : ReadStr bytes key.0 key.1 = take_str-ReadStr bytes key.0 key.1 hb first in
        from_bind (take_str key.1) _ (l, end) e1
          λ val second e2.
            let rv : ReadStr key.1 val.0 val.1 =
              take_str-ReadStr key.1 val.0 val.1 rk.left second in
            from_bind (test_order prev key.0) _ (l, end) e2
              λ u third e3.
                from_bind (decode_loop count (some key.0) val.1) _ (l, end) e3
                  λ tail fourth e4.
                    subst (λ (t : List Pair × Bytes). Decoded (suc count) prev bytes t.0 t.1)
                      (ok_inj e4)
                      (Decoded-cons count prev key.0 val.0 bytes key.1 val.1 tail.1 tail.0 rk rv
                        (test_order-ok prev key.0 val.0 u third)
                        (decode_loop-Decoded count (some key.0) val.1 tail.1 tail.0 rv.left fourth))

at_end-ok : (p : List Pair × Bytes) (out : List Pair) → at_end p ≡ ok out → p ≡ (out, [])
unfolding at_end
at_end-ok (l, []) out e = cc
at_end-ok (l, b ∷ rest) out e = cc

-- For any bytes that the decoder accepts: the pairs that it returns are UTF-8 strings in strictly ascending
-- order of their keys, and encoding them gives exactly the same bytes.
pub decode_canonical :
    (bytes : Bytes) (out : List Pair)
    → All IsByte bytes
    → decode bytes ≡ ok out
    → All AreTexts out × IsAscending out × (encode out ≡ ok bytes)
unfolding decode
decode_canonical bytes out hb e = from_bind (take_u32 bytes) _ out e λ count first e1.
    let r : ReadU32 bytes count.0 count.1 = take_u32-ReadU32 bytes count.1 count.0 hb first in
    from_bind (decode_loop count.0 none count.1) _ out e1 λ whole second e2.
      let d : Decoded count.0 none count.1 out [] =
        subst (λ (t : List Pair × Bytes). Decoded count.0 none count.1 t.0 t.1)
          (at_end-ok whole out e2)
          (decode_loop-Decoded count.0 none count.1 whole.1 whole.0 r.left second) in
      let small : length out % 2 ^ 32 ≡ count.0 = omega (arith, d.size, r.small) in
      let image : to_le 4 (length out % 2 ^ 32) ++ put_each out ≡ bytes = rw small (
        sym (
          r.whole
          ∙ ap (λ (t : Bytes). to_le 4 count.0 ++ t) (d.whole ∙ append-nil (put_each out)))) in
      let encoded = encode_accepts out (ascending-IsDistinct d.ascending) in
      (d.texts, d.ascending, rw (sort_ascending out d.ascending, image) at encoded)
