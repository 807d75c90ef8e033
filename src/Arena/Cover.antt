-- ===== src/Arena/Cover.antt =====
-- The binary search of the page directory.
use plugmem.Base.{ℕ, zero, suc, ◌+◌, ◌-◌, ◌/◌, ◌≤◌, ◌<◌, ◌≡◌, inl, inr, refl, sym, ap, ◌∙◌, arith}
use plugmem.Base.{
  Option, none, some, get_elem?, length, take, ltb, ◌==◌, true, false, length-take, [], ◌∷◌,
  if◌then◌else◌, take_front,
}
use plugmem.Base.Bytes.{Bytes}
use plugmem.Base.Order.{cmp_bytes, ◌≺◌, cmp_bytes-eq, cmp_bytes-gt, ≺_trans, ≺_irrefl}
use plugmem.Base.Outcomes.{returned, ReturnsSuch}
use plugmem.Errors.{none_id}
use plugmem.Paged.{replicate}
use plugmem.Paged.Copy.{eq_cases, range_cases}
use plugmem.Arena.{Slot, Target, Arena, dir_key_bytes, first_key, dir_run, cached_key}
use plugmem.Arena.Find.{dir_cmp, find_loop, predecessor, target_at, find_page}
use plugmem.Arena.Bisect.{orderings}
use Prim.Native.Nat.{Ordering, min}
use mathlib.Core.Path.{subst}

-- A shard's run of the directory: a page and a first key for every entry, as the pages hold them, with the
-- cached parts up to date, in ascending order.
pub record IsRun (T : Slot) (a : Arena) (shard lo hi : ℕ) : Type 0 where
  pub run : dir_run a shard ≡ returned (lo, hi)
  pub ordered : lo ≤ hi
  pub page : ℕ → ℕ
  pub first : ℕ → Bytes
  pub entries :
      (i : ℕ)
      → lo ≤ i
      → i < hi
      → get_elem? a.dir i ≡ some (record { key = cached_key T (first i); page = page i })
  pub reads : (i : ℕ) → lo ≤ i → i < hi → first_key T a (page i) ≡ returned (first i)
  pub sized : (i : ℕ) → length (first i) ≡ T.key_len
  pub sorted : (i j : ℕ) → lo ≤ i → i < j → j < hi → first i ≺ first j

-- The page that covers a key: no page behind it begins at or below the key, and neither it, unless it is the
-- run's first page, nor one before it begins above the key.
abbrev pub Covers :
    (T : Slot) (a : Arena) (shard lo hi : ℕ)
    → IsRun T a shard lo hi
    → Bytes
    → Option Target
    → Type 0
Covers T a shard lo hi w key none = lo ≡ hi
Covers T a shard lo hi w key (some t) =
    (lo ≤ t.at)
    × (t.at < hi)
    × (t.page ≡ w.page t.at)
    × (t.prev ≡ (if ltb lo t.at then w.page (t.at - 1) else none_id))
    × ((i : ℕ) → lo < i → i ≤ t.at → ¬ (key ≺ w.first i))
    × ((i : ℕ) → t.at < i → i < hi → key ≺ w.first i)

cmp-take_lt :
    (n : ℕ) (a b : Bytes)
    → n ≤ length a
    → n ≤ length b
    → cmp_bytes (take n a) (take n b) ≡ Ordering.lt
    → cmp_bytes a b ≡ Ordering.lt
unfolding cmp_bytes
cmp-take_lt zero a b ha hb h = cc
cmp-take_lt (suc n) [] b ha hb h = absurd (omega arith)
cmp-take_lt (suc n) (x ∷ a) [] ha hb h = absurd (omega arith)
cmp-take_lt (suc n) (x ∷ a) (y ∷ b) ha hb h =
    ground (arith, cmp-take_lt n a b (omega arith) (omega arith))

cmp-take_gt :
    (n : ℕ) (a b : Bytes)
    → n ≤ length a
    → n ≤ length b
    → cmp_bytes (take n a) (take n b) ≡ Ordering.gt
    → cmp_bytes a b ≡ Ordering.gt
unfolding cmp_bytes
cmp-take_gt zero a b ha hb h = cc
cmp-take_gt (suc n) [] b ha hb h = absurd (omega arith)
cmp-take_gt (suc n) (x ∷ a) [] ha hb h = absurd (omega arith)
cmp-take_gt (suc n) (x ∷ a) (y ∷ b) ha hb h =
    ground (arith, cmp-take_gt n a b (omega arith) (omega arith))

take_all : (n : ℕ) (a : Bytes) → length a ≡ n → take n a ≡ a
take_all zero [] h = refl
take_all zero (x ∷ a) h = absurd (omega arith)
take_all (suc n) [] h = absurd (omega arith)
take_all (suc n) (x ∷ a) h = ap (λ t. x ∷ t) (take_all n a (omega arith))

module _ (T : Slot) (a : Arena) (page : ℕ) (first key : Bytes) (hf : length first ≡ T.key_len)
    (hk : length key ≡ T.key_len) (reads : first_key T a page ≡ returned first) where
  abbrev n : ℕ
  n = min T.key_len dir_key_bytes

  take-cached_key : take n (cached_key T first) ≡ take n first
  unfolding cached_key
  take-cached_key =
      take_front n (take n first) (replicate (dir_key_bytes - n) 0)
        (omega (arith, length-take n first))

  -- The directory compares as the pages' first keys do.
  dir_cmp-first :
      dir_cmp T a (record { key = cached_key T first; page = page }) key
      ≡ returned (cmp_bytes first key)
  unfolding dir_cmp
  dir_cmp-first = elim (orderings (cmp_bytes (take n first) (take n key))) [
    | inl lt ↦
        rw (dir_cmp, take-cached_key, lt, cmp-take_lt n first key (omega arith) (omega arith) lt)
          refl
    | inr (inr gt) ↦
        rw (dir_cmp, take-cached_key, gt, cmp-take_gt n first key (omega arith) (omega arith) gt)
          refl
    | inr (inl eq) ↦ elim (range_cases 17 T.key_len) [
      | inl long ↦
          let t : ltb dir_key_bytes T.key_len ≡ true = ground arith in
          rw (dir_cmp, take-cached_key, eq, t, reads) refl
      | inr short ↦
          let t : ltb dir_key_bytes T.key_len ≡ false = ground arith in
          let whole : take n first ≡ first = take_all n first (omega arith) in
          let whole_key : take n key ≡ key = take_all n key (omega arith) in
          let e : cmp_bytes first key ≡ Ordering.eq = rw (whole, whole_key) at eq in
          rw (dir_cmp, take-cached_key, eq, t, e) refl
    ]
  ]

≺_not_lt : (a b : Bytes) → cmp_bytes a b ≡ Ordering.lt → ¬ (b ≺ a)
≺_not_lt a b lt gt = ≺_irrefl a (≺_trans a b a lt gt)

≺_not_eq : (a b : Bytes) → cmp_bytes a b ≡ Ordering.eq → ¬ (b ≺ a)
≺_not_eq a b eq gt = ≺_irrefl b (subst (λ (x : Bytes). b ≺ x) (cmp_bytes-eq a b eq) gt)

module _ (T : Slot) (a : Arena) (shard lo hi : ℕ) (w : IsRun T a shard lo hi) (key : Bytes)
    (hk : length key ≡ T.key_len) where
  abbrev mid : ℕ → ℕ → ℕ
  mid left right = left + (right - left) / 2

  find_loop-end :
      (fuel left right : ℕ) → right ≤ left → find_loop T a key (suc fuel) left right ≡ returned left
  unfolding find_loop
  find_loop-end fuel left right h = ground arith

  find_loop-round :
      (fuel left right : ℕ)
      → left < right
      → lo ≤ mid left right
      → mid left right < hi
      → find_loop T a key (suc fuel) left right ≡ elim (cmp_bytes (w.first (mid left right)) key) [
        | Ordering.lt ↦ find_loop T a key fuel (mid left right + 1) right
        | Ordering.eq ↦ find_loop T a key fuel (mid left right + 1) right
        | Ordering.gt ↦ find_loop T a key fuel left (mid left right)
      ]
  unfolding find_loop
  find_loop-round fuel left right h above inside =
      let m : ℕ = mid left right in
      let t : ltb left right ≡ true = ground arith in
      rw
        (
          find_loop,
          t,
          w.entries m above inside,
          dir_cmp-first T a (w.page m) (w.first m) key (w.sized m) hk (w.reads m above inside),
        )
        refl

  below_mid :
      (m : ℕ) → m < hi → ¬ (key ≺ w.first m) → (i : ℕ) → lo < i → i ≤ m → ¬ (key ≺ w.first i)
  below_mid m inside not_above i above h k = elim (eq_cases i m) [
    | inl e ↦ not_above (subst (λ (j : ℕ). key ≺ w.first j) e k)
    | inr n ↦
        not_above
          (≺_trans key (w.first i) (w.first m) k (w.sorted i m (omega arith) (omega arith) inside))
  ]

  above_mid : (m : ℕ) → lo ≤ m → key ≺ w.first m → (i : ℕ) → m ≤ i → i < hi → key ≺ w.first i
  above_mid m above gt i h inside = elim (eq_cases i m) [
    | inl e ↦ subst (λ (j : ℕ). key ≺ w.first j) (sym e) gt
    | inr n ↦ ≺_trans key (w.first m) (w.first i) gt (w.sorted m i above (omega arith) inside)
  ]

  -- The number that the loop gives.
  abbrev Splits : ℕ → Type 0
  Splits left =
      (lo < left)
      × (left ≤ hi)
      × ((i : ℕ) → lo < i → i < left → ¬ (key ≺ w.first i))
      × ((i : ℕ) → left ≤ i → i < hi → key ≺ w.first i)

  find_loop-Splits :
      (fuel left right : ℕ)
      → lo < left
      → left ≤ right
      → right ≤ hi
      → right - left < fuel
      → ((i : ℕ) → lo < i → i < left → ¬ (key ≺ w.first i))
      → ((i : ℕ) → right ≤ i → i < hi → key ≺ w.first i)
      → ReturnsSuch Splits (find_loop T a key fuel left right)
  find_loop-Splits zero left right above ordered inside enough before behind = absurd (omega arith)
  find_loop-Splits (suc fuel) left right above ordered inside enough before behind =
      elim (range_cases right left) [
        | inl done ↦ (
          left,
          find_loop-end fuel left right done,
          (above, omega arith, before, λ i h k. behind i (omega arith) k),
        )
        | inr more ↦
            let m : ℕ = left + (right - left) / 2 in
            let round = find_loop-round fuel left right more (omega arith) (omega arith) in
            let up = λ (n : ¬ (key ≺ w.first m)).
              find_loop-Splits fuel (m + 1) right (omega arith) (omega arith) inside (omega arith)
                (λ i l h. below_mid m (omega arith) n i l (omega arith)) behind in
            elim (orderings (cmp_bytes (w.first m) key)) [
              | inl lt ↦
                  let (r, e, p) = up (≺_not_lt (w.first m) key lt) in (r, rw lt at round ∙ e, p)
              | inr (inl eq) ↦
                  let (r, e, p) = up (≺_not_eq (w.first m) key eq) in (r, rw eq at round ∙ e, p)
              | inr (inr gt) ↦
                  let (r, e, p) =
                    find_loop-Splits fuel left m above (omega arith) (omega arith) (omega arith)
                      before (above_mid m (omega arith) (cmp_bytes-gt (w.first m) key gt)) in
                  (r, rw gt at round ∙ e, p)
            ]
      ]

  predecessor-page :
      (at : ℕ)
      → lo ≤ at
      → at < hi
      → predecessor a lo at ≡ returned (if ltb lo at then w.page (at - 1) else none_id)
  unfolding predecessor
  predecessor-page at above inside = elim (range_cases at lo) [
    | inl z ↦ let t : ltb lo at ≡ false = ground arith in rw t refl
    | inr s ↦
        let t : ltb lo at ≡ true = ground arith in
        rw (t, w.entries (at - 1) (omega arith) (omega arith)) refl
  ]

  target_at-entry :
      (at : ℕ)
      → lo ≤ at
      → at < hi
      → target_at a lo at
        ≡ returned (
            some (record {
              prev = if ltb lo at then w.page (at - 1) else none_id;
              page = w.page at;
              at = at;
            }))
  unfolding target_at
  target_at-entry at above inside =
      rw (predecessor-page at above inside, w.entries at above inside) refl

  find_page_empty : lo ≡ hi → find_page T a shard key ≡ returned none
  unfolding find_page
  find_page_empty e = let t : (lo == hi) ≡ true = ground arith in rw (w.run, t) refl

  find_page_some :
      (left : ℕ)
      → lo < hi
      → find_loop T a key (suc hi) (lo + 1) hi ≡ returned left
      → find_page T a shard key ≡ target_at a lo (left - 1)
  unfolding find_page
  find_page_some left h e = let t : (lo == hi) ≡ false = ground arith in rw (w.run, t, e) refl

  -- Where the entries of a shard's run hold the pages' first keys, with their cached parts up to date and in
  -- ascending order, `find_page` returns for any key of the right length. It gives no page just when the run is
  -- empty; otherwise it gives the page that covers the key, with its place in the directory and its predecessor.
  pub find_page-Covers : ReturnsSuch (Covers T a shard lo hi w key) (find_page T a shard key)
  find_page-Covers = elim (eq_cases lo hi) [
    | inl e ↦ (none, find_page_empty e, e)
    | inr n ↦
        let more : lo < hi = omega (arith, w.ordered) in
        let (left, e, p) =
          find_loop-Splits (suc hi) (lo + 1) hi (omega arith) (omega arith) (omega arith)
            (omega arith) (λ i l h. absurd (omega arith)) (λ i h k. absurd (omega arith)) in
        let place = target_at-entry (left - 1) (omega (arith, p.0)) (omega (arith, p.0, p.1)) in
        (
          _,
          find_page_some left more e ∙ place,
          (
            omega (arith, p.0),
            omega (arith, p.0, p.1),
            refl,
            refl,
            λ i l h. p.2 i l (omega (arith, p.0)),
            λ i h k. p.3 i (omega (arith, p.0)) k,
          ),
        )
  ]
