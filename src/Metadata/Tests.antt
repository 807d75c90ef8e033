-- ===== src/Metadata/Tests.antt =====
-- Concrete metadata, and the theorems on metadata at concrete inputs.
use plugmem.Base.{ℕ, ◌≡◌, refl, arith, List, [], ◌∷◌, ◌++◌, ok, err, All}
use plugmem.Base.Bytes.{Bytes, to_le, from_le, IsByte}
use plugmem.Base.Order.{cmp_bytes}
use plugmem.Errors.{Error}
use plugmem.Metadata.{Pair, insert, sort, has_duplicate, put_str, put_each, encode, decode}
use plugmem.Metadata.{take_u32, take_text, take_str, test_order, decode_loop, at_end}
use plugmem.Metadata.Sort.{IsAscending, IsDistinct}
use plugmem.Metadata.Canonical.{encode_lem, encode_any_order}
use plugmem.Metadata.RoundTrip.{AreTexts, decode-encode_pairs}
use plugmem.Metadata.Accept.{decode_canonical}
use plugmem.Base.Utf8.{is_utf8}
use mathlib.Core.HLevel.{¬_prop}
use mathlib.Core.List.{Perm, Pairwise-pair}
use mathlib.Core.List.Perm

-- "u" and "m", out of order.
abbrev unsorted : List Pair
unsorted = (117 ∷ [], 115 ∷ []) ∷ (109 ∷ [], []) ∷ []

abbrev image : Bytes
image =
    2 ∷ 0 ∷ 0 ∷ 0 ∷ 1 ∷ 0 ∷ 0 ∷ 0 ∷ 109 ∷ 0 ∷ 0 ∷ 0 ∷ 0 ∷ 1 ∷ 0 ∷ 0 ∷ 0 ∷ 117 ∷ 1 ∷ 0 ∷ 0 ∷ 0 ∷ 115
    ∷ []

encoded : encode unsorted ≡ ok image
unfolding encode sort insert has_duplicate put_each put_str to_le cmp_bytes
encoded = refl

decoded : decode image ≡ ok ((109 ∷ [], []) ∷ (117 ∷ [], 115 ∷ []) ∷ [])
unfolding decode decode_loop take_str take_u32 take_text test_order at_end from_le is_utf8 cmp_bytes
decoded = refl

twice :
    encode ((107 ∷ [], 97 ∷ []) ∷ (107 ∷ [], 98 ∷ []) ∷ [])
    ≡ err (Error.invalid "duplicate metadata key")
unfolding encode sort insert has_duplicate cmp_bytes
twice = refl

different : IsDistinct unsorted
different = (Pairwise-pair (λ p q. ¬_prop)).1 λ e. heads e
  where
    heads : ¬ (◌≡◌ {A = Bytes} (117 ∷ []) (109 ∷ []))
    heads e = let h : ◌≡◌ {A = ℕ} 117 109 = cc in absurd (omega arith)

texts : All AreTexts unsorted
unfolding is_utf8
texts = (
  (record { utf8 = refl; short = omega arith }, record { utf8 = refl; short = omega arith }),
  ((record { utf8 = refl; short = omega arith }, record { utf8 = refl; short = omega arith }), tt),
)

encode_lem_example :
    (IsDistinct unsorted
      → (blob : Bytes) × (encode unsorted ≡ ok blob)
        × (blob ≡ to_le 4 2 ++ put_each (sort unsorted)))
    × (¬ IsDistinct unsorted → encode unsorted ≡ err (Error.invalid "duplicate metadata key"))
encode_lem_example = encode_lem unsorted

encode_any_order_example : encode unsorted ≡ encode ((109 ∷ [], []) ∷ (117 ∷ [], 115 ∷ []) ∷ [])
encode_any_order_example =
    encode_any_order unsorted ((109 ∷ [], []) ∷ (117 ∷ [], 115 ∷ []) ∷ []) (Perm.swap _ _ [])

decode-encode_pairs_example :
    (blob : Bytes) × (out : List Pair) × (encode unsorted ≡ ok blob)
    × (decode blob ≡ ok out)
    × Perm out unsorted
    × IsAscending out
decode-encode_pairs_example = decode-encode_pairs unsorted texts (omega arith) different

bytes_small : All IsByte image
bytes_small = (
  omega arith,
  (
    omega arith,
    (
      omega arith,
      (
        omega arith,
        (
          omega arith,
          (
            omega arith,
            (
              omega arith,
              (
                omega arith,
                (
                  omega arith,
                  (
                    omega arith,
                    (
                      omega arith,
                      (
                        omega arith,
                        (
                          omega arith,
                          (
                            omega arith,
                            (
                              omega arith,
                              (
                                omega arith,
                                (
                                  omega arith,
                                  (
                                    omega arith,
                                    (
                                      omega arith,
                                      (
                                        omega arith,
                                        (omega arith, (omega arith, (omega arith, tt))),
                                      ),
                                    ),
                                  ),
                                ),
                              ),
                            ),
                          ),
                        ),
                      ),
                    ),
                  ),
                ),
              ),
            ),
          ),
        ),
      ),
    ),
  ),
)

decode_canonical_example :
    All AreTexts ((109 ∷ [], []) ∷ (117 ∷ [], 115 ∷ []) ∷ [])
    × IsAscending ((109 ∷ [], []) ∷ (117 ∷ [], 115 ∷ []) ∷ [])
    × (encode ((109 ∷ [], []) ∷ (117 ∷ [], 115 ∷ []) ∷ []) ≡ ok image)
decode_canonical_example =
    decode_canonical image ((109 ∷ [], []) ∷ (117 ∷ [], 115 ∷ []) ∷ []) bytes_small decoded
