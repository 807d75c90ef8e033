-- ===== src/Metadata/Canonical.antt =====
-- The encoder refuses duplicate keys and nothing else, and the order of its input does not matter.
use plugmem.Base.{◌≡◌, ◌≢◌, refl, sym, ap, ◌∙◌, inl, inr, ◌^◌, ◌%◌, suc}
use plugmem.Base.{List, [], ◌∷◌, ◌++◌, true, false, length, ok, err, Bool-cases}
use plugmem.Base.Bytes.{Bytes, to_le}
use plugmem.Base.Order.{◌≺◌, cmp_bytes-eq, cmp_bytes-gt, ≺_irrefl, ≺_trans}
use plugmem.Errors.{Error}
use plugmem.Metadata.{Pair, insert, sort, has_duplicate, put_each, encode}
use plugmem.Metadata.Sort.{
  IsAscending, IsWeak, IsDistinct, cmp_cases, sort-perm, sort-IsWeak, has_duplicate-IsAscending,
  ascending-has_duplicate,
}
use mathlib.Core.Path.{ap₂, subst}
use mathlib.Core.Logic.Or
use mathlib.Core.HLevel.{¬_prop, ⊥_prop}
use mathlib.Core.List.{Mem, Perm, Pairwise, mem-cons_self, eq-or-mem_of_mem-cons}
use mathlib.Core.List.Pairwise
use mathlib.Core.List.Perm

pub ascending-IsDistinct : {l : List Pair} → IsAscending l → IsDistinct l
ascending-IsDistinct Pairwise.nil = Pairwise.nil
ascending-IsDistinct (Pairwise.cons {a = p} below s) =
    Pairwise.cons (λ q m e. ≺_irrefl q.0 (subst (λ (t : Bytes). t ≺ q.0) e (below q m)))
      (ascending-IsDistinct s)

distinct-IsAscending : {l : List Pair} → IsWeak l → IsDistinct l → IsAscending l
distinct-IsAscending Pairwise.nil d = Pairwise.nil
distinct-IsAscending (Pairwise.cons {a = p} weak w) (Pairwise.cons apart d) =
    Pairwise.cons (λ q m. above p.0 q.0 (weak q m) (apart q m)) (distinct-IsAscending w d)
  where
    above : (a b : Bytes) → ¬ (b ≺ a) → a ≢ b → a ≺ b
    above a b h n = elim (cmp_cases a b) [
      | inl l ↦ l
      | inr (inl e) ↦ absurd (n (cmp_bytes-eq a b e))
      | inr (inr g) ↦ absurd (h (cmp_bytes-gt a b g))
    ]

IsDistinct-perm : {l r : List Pair} → Perm l r → IsDistinct l → IsDistinct r
IsDistinct-perm = Perm.pairwise (λ p q. ¬_prop) (λ p q n e. n (sym e))

pub sort-IsAscending : (ps : List Pair) → IsDistinct ps → IsAscending (sort ps)
sort-IsAscending ps d =
    distinct-IsAscending (sort-IsWeak ps) (IsDistinct-perm (Perm.symm (sort-perm ps)) d)

pair_eq-prop : (a b : Pair) → IsProp (a ≡ b)
pair_eq-prop a b = hlevel

-- Nothing of an ascending list is below its head.
head_least : (a b : Pair) {l : List Pair} → IsAscending (a ∷ l) → Mem b (a ∷ l) → ¬ (b.0 ≺ a.0)
head_least a b (Pairwise.cons below s) m k =
    Or.elim ⊥_prop (eq-or-mem_of_mem-cons m)
      (λ e. ≺_irrefl a.0 (subst (λ (t : Pair). t.0 ≺ a.0) e k))
      (λ m'. ≺_irrefl b.0 (≺_trans b.0 a.0 b.0 k (below b m')))

heads_agree :
    (a b : Pair) {l r : List Pair}
    → IsAscending (a ∷ l)
    → IsAscending (b ∷ r)
    → Perm (a ∷ l) (b ∷ r)
    → a ≡ b
heads_agree a b (Pairwise.cons below s) sr p =
    Or.elim (pair_eq-prop a b) (eq-or-mem_of_mem-cons ((Perm.mem_iff p).1 mem-cons_self))
      (λ e. sym e) (λ m. absurd (head_least b a sr ((Perm.mem_iff p).0 mem-cons_self) (below b m)))

-- Two ascending lists of the same pairs are one list.
ascending_unique : (l r : List Pair) → IsAscending l → IsAscending r → Perm l r → l ≡ r
ascending_unique [] r sl sr p = Perm.nil-eq p
ascending_unique (a ∷ l) [] sl sr p = Perm.eq-nil p
ascending_unique (a ∷ l) (b ∷ r) sl sr p =
    let heads : a ≡ b = heads_agree a b sl sr p in
    let tails : Perm l r = Perm.cons_inv (Perm.trans p (Perm.cons' (sym heads) (Perm.refl r))) in
    ap₂ ◌∷◌ heads (ascending_unique l r (Pairwise.of_cons sl) (Pairwise.of_cons sr) tails)

pub sort_ascending : (l : List Pair) → IsAscending l → sort l ≡ l
sort_ascending l s =
    ascending_unique (sort l) l (sort-IsAscending l (ascending-IsDistinct s)) s (sort-perm l)

-- Pairs with different keys are encoded in ascending order of the keys.
pub encode_accepts :
    (ps : List Pair)
    → IsDistinct ps
    → encode ps ≡ ok (to_le 4 (length ps % 2 ^ 32) ++ put_each (sort ps))
unfolding encode
encode_accepts ps d = rw (ascending-has_duplicate (sort-IsAscending ps d)) refl

encode_refuses :
    (ps : List Pair) → ¬ IsDistinct ps → encode ps ≡ err (Error.invalid "duplicate metadata key")
unfolding encode
encode_refuses ps n = elim (Bool-cases (has_duplicate (sort ps))) [
  | inl t ↦ rw t refl
  | inr f ↦ absurd (
      n (
        IsDistinct-perm (sort-perm ps)
          (ascending-IsDistinct (has_duplicate-IsAscending (sort ps) (sort-IsWeak ps) f))))
]

length-insert : (p : Pair) (l : List Pair) → length (insert p l) ≡ suc (length l)
unfolding insert
length-insert p [] = refl
length-insert p (q ∷ qs) = elim (cmp_cases p.0 q.0) [
  | inl h ↦ rw (h, insert) refl
  | inr (inl h) ↦ rw (h, insert) refl
  | inr (inr h) ↦ rw (h, insert) (ap suc (length-insert p qs))
]

pub length-sort : (ps : List Pair) → length (sort ps) ≡ length ps
unfolding sort
length-sort [] = refl
length-sort (p ∷ ps) = length-insert p (sort ps) ∙ ap suc (length-sort ps)

-- For all pairs: pairs whose keys all differ are encoded, as the count and the pairs in ascending order;
-- pairs of which two have the same key are refused as invalid.
pub encode_lem :
    (ps : List Pair)
    → (IsDistinct ps
        → (blob : Bytes) × (encode ps ≡ ok blob)
          × (blob ≡ to_le 4 (length ps % 2 ^ 32) ++ put_each (sort ps)))
      × (¬ IsDistinct ps → encode ps ≡ err (Error.invalid "duplicate metadata key"))
encode_lem ps = (
  λ d. (to_le 4 (length ps % 2 ^ 32) ++ put_each (sort ps), encode_accepts ps d, refl),
  encode_refuses ps,
)

distinct_cases : (ps : List Pair) → Dec (IsDistinct ps)
distinct_cases ps = elim (Bool-cases (has_duplicate (sort ps))) [
  | inl t ↦ no λ d.
      let f : has_duplicate (sort ps) ≡ false = ascending-has_duplicate (sort-IsAscending ps d) in
      let u : true ≡ false = sym t ∙ f in cc
  | inr f ↦ yes (
      IsDistinct-perm (sort-perm ps)
        (ascending-IsDistinct (has_duplicate-IsAscending (sort ps) (sort-IsWeak ps) f)))
]

sort-perm_eq : (ps qs : List Pair) → IsDistinct ps → Perm ps qs → sort ps ≡ sort qs
sort-perm_eq ps qs d p =
    ascending_unique (sort ps) (sort qs) (sort-IsAscending ps d)
      (sort-IsAscending qs (IsDistinct-perm p d))
      (Perm.trans (sort-perm ps) (Perm.trans p (Perm.symm (sort-perm qs))))

-- The order in which a caller passes the pairs does not matter: every rearrangement of them is encoded as
-- the same blob, or refused with the same error.
pub encode_any_order : (ps qs : List Pair) → Perm ps qs → encode ps ≡ encode qs
encode_any_order ps qs p = elim (distinct_cases ps) [
  | yes d ↦
      let same : sort ps ≡ sort qs = sort-perm_eq ps qs d p in
      let size : length ps ≡ length qs = sym (length-sort ps) ∙ ap length same ∙ length-sort qs in
      rw (encode_accepts ps d, encode_accepts qs (IsDistinct-perm p d), same, size) refl
  | no n ↦ encode_refuses ps n ∙ sym (encode_refuses qs λ d. n (IsDistinct-perm (Perm.symm p) d))
]
