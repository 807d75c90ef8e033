-- ===== src/Metadata/Sort.antt =====
-- The encoder's order: what sorting gives, and when its test for duplicates fires.
use Prim.Native.Nat.{Ordering}
use plugmem.Base.{◌≡◌, ◌≢◌, refl, sym, ◌⊎◌, inl, inr, List, [], ◌∷◌, true, false}
use plugmem.Base.Bytes.{Bytes}
use plugmem.Base.Order.{cmp_bytes, ◌≺◌, cmp_bytes-eq, cmp_bytes-gt, ≺_irrefl, ≺_trans}
use plugmem.Metadata.{Pair, insert, sort, has_duplicate}
use mathlib.Core.Path.{subst}
use mathlib.Core.HLevel.{¬_prop}
use mathlib.Core.List.{Mem, Perm, Pairwise, Pairwise-singleton, mem-cons_self, forall_mem-cons}
use mathlib.Core.List.Perm

abbrev pub IsAscending : List Pair → Type 0
IsAscending = Pairwise λ p q. p.0 ≺ q.0

abbrev pub IsWeak : List Pair → Type 0
IsWeak = Pairwise λ p q. ¬ (q.0 ≺ p.0)

abbrev pub IsDistinct : List Pair → Type 0
IsDistinct = Pairwise λ p q. p.0 ≢ q.0

pub cmp_cases :
    (a b : Bytes)
    → (cmp_bytes a b ≡ Ordering.lt)
      ⊎ ((cmp_bytes a b ≡ Ordering.eq) ⊎ (cmp_bytes a b ≡ Ordering.gt))
cmp_cases a b = go (cmp_bytes a b)
  where
    go : (o : Ordering) → (o ≡ Ordering.lt) ⊎ ((o ≡ Ordering.eq) ⊎ (o ≡ Ordering.gt))
    go Ordering.lt = inl refl
    go Ordering.eq = inr (inl refl)
    go Ordering.gt = inr (inr refl)

≺_prop : (a b : Bytes) → IsProp (a ≺ b)
≺_prop a b = hlevel

asymm : (a b : Bytes) → a ≺ b → ¬ (b ≺ a)
asymm a b p q = ≺_irrefl a (≺_trans a b a p q)

pub insert-perm : (p : Pair) (l : List Pair) → Perm (insert p l) (p ∷ l)
unfolding insert
insert-perm p [] = Perm.rfl
insert-perm p (q ∷ qs) = elim (cmp_cases p.0 q.0) [
  | inl h ↦ rw (h, insert) Perm.rfl
  | inr (inl h) ↦ rw (h, insert) Perm.rfl
  | inr (inr h) ↦ rw (h, insert) (Perm.trans (Perm.cons q (insert-perm p qs)) (Perm.swap p q qs))
]

pub sort-perm : (ps : List Pair) → Perm (sort ps) ps
unfolding sort
sort-perm [] = Perm.rfl
sort-perm (p ∷ ps) = Perm.trans (insert-perm p (sort ps)) (Perm.cons p (sort-perm ps))

-- A relation that holds of the head of a weakly sorted list holds of all of it.
weak_head :
    (p q : Pair) {l : List Pair}
    → ¬ (q.0 ≺ p.0)
    → IsWeak (q ∷ l)
    → (x : Pair) → Mem x (q ∷ l)
    → ¬ (x.0 ≺ p.0)
weak_head p q h (Pairwise.cons below s) =
    (forall_mem-cons λ x. ¬_prop).1 (h, λ x m k. not_below p.0 q.0 x.0 h (below x m) k)
  where
    not_below : (a b c : Bytes) → ¬ (b ≺ a) → ¬ (c ≺ b) → ¬ (c ≺ a)
    not_below a b c ba cb ca = elim (cmp_cases b c) [
      | inl bc ↦ ba (≺_trans b c a bc ca)
      | inr (inl bc) ↦ ba (subst (λ (t : Bytes). t ≺ a) (sym (cmp_bytes-eq b c bc)) ca)
      | inr (inr cb') ↦ cb (cmp_bytes-gt b c cb')
    ]

insert-IsWeak : (p : Pair) {l : List Pair} → IsWeak l → IsWeak (insert p l)
unfolding insert
insert-IsWeak p Pairwise.nil = Pairwise-singleton _ p
insert-IsWeak p (Pairwise.cons {a = q} {l = qs} below s) =
    let whole : IsWeak (q ∷ qs) = Pairwise.cons below s in
    elim (cmp_cases p.0 q.0) [
      | inl h ↦ rw (h, insert) (Pairwise.cons (weak_head p q (asymm p.0 q.0 h) whole) whole)
      | inr (inl h) ↦
          rw (h, insert)
            (Pairwise.cons
              (weak_head p q
                (subst (λ (t : Bytes). ¬ (q.0 ≺ t)) (sym (cmp_bytes-eq p.0 q.0 h)) (≺_irrefl q.0))
                whole)
              whole)
      | inr (inr h) ↦
          rw (h, insert)
            (Pairwise.cons
              (λ x m.
                (forall_mem-cons λ y. ¬_prop).1 (asymm q.0 p.0 (cmp_bytes-gt p.0 q.0 h), below) x
                  ((Perm.mem_iff (insert-perm p qs)).0 m))
              (insert-IsWeak p s))
    ]

pub sort-IsWeak : (ps : List Pair) → IsWeak (sort ps)
unfolding sort
sort-IsWeak [] = Pairwise.nil
sort-IsWeak (p ∷ ps) = insert-IsWeak p (sort-IsWeak ps)

pub ascending_head :
    (p q : Pair) {l : List Pair}
    → p.0 ≺ q.0
    → IsAscending (q ∷ l)
    → (x : Pair) → Mem x (q ∷ l)
    → p.0 ≺ x.0
ascending_head p q h (Pairwise.cons below s) =
    (forall_mem-cons λ x. ≺_prop p.0 x.0).1 (h, λ x m. ≺_trans p.0 q.0 x.0 h (below x m))

pub IsAscending-cons :
    (p q : Pair) {l : List Pair} → p.0 ≺ q.0 → IsAscending (q ∷ l) → IsAscending (p ∷ q ∷ l)
IsAscending-cons p q h s = Pairwise.cons (ascending_head p q h s) s

pub has_duplicate-IsAscending : (l : List Pair) → IsWeak l → has_duplicate l ≡ false → IsAscending l
unfolding has_duplicate
has_duplicate-IsAscending [] w e = Pairwise.nil
has_duplicate-IsAscending (p ∷ []) w e = Pairwise-singleton _ p
has_duplicate-IsAscending (p ∷ q ∷ l) (Pairwise.cons below w) e = elim (cmp_cases p.0 q.0) [
  | inl h ↦
      IsAscending-cons p q h (has_duplicate-IsAscending (q ∷ l) w (rw (h, has_duplicate) at e))
  | inr (inl h) ↦ let t : true ≡ false = rw (h, has_duplicate) at e in cc
  | inr (inr h) ↦ absurd (below q mem-cons_self (cmp_bytes-gt p.0 q.0 h))
]

pub ascending-has_duplicate : {l : List Pair} → IsAscending l → has_duplicate l ≡ false
unfolding has_duplicate
ascending-has_duplicate Pairwise.nil = refl
ascending-has_duplicate (Pairwise.cons {l = []} below s) = refl
ascending-has_duplicate (Pairwise.cons {a = p} {l = q ∷ l} below s) =
    rw (below q mem-cons_self, has_duplicate) (ascending-has_duplicate s)
