-- ===== src/Chunks/Checks.antt =====
-- The reads, tests and the walk of `validate_chunks`, on any bytes.
use plugmem.Base.Outcomes.{
  Outcome, returned, ReturnsSuch, ◌>>=◌, then_such, OkSuch, ok_such, test_such,
}
use plugmem.Base.Slices.{read_such, tail_such}
use plugmem.Base.{
  ℕ, zero, suc, ◌+◌, ◌*◌, ◌^◌, ◌≤◌, ◌<◌, ◌≡◌, ◌≢◌, inl, inr, refl, sym, ap, ◌∙◌, arith,
}
use plugmem.Base.{
  List, [], ◌∷◌, length, drop, some, get_elem?, Bool, true, false, ok, err, Result, not, ltb, ◌==◌,
  ◌||◌, if◌then◌else◌,
}
use plugmem.Base.{All, Option-cases, length-drop}
use plugmem.Base.Bytes.{Bytes, IsByte, field-lt}
use plugmem.Errors.{ArenaError, none_id}
use plugmem.Paged.{set, replicate}
use plugmem.Paged.Place.{length-set, length-replicate, get-in}
use plugmem.Paged.Copy.{eq_cases}
use plugmem.Chunks.{ChunkPoolCfg, chunk_bytes}
use plugmem.Chunks.Walk.{
  link_of, links_in_bounds, all_fit, visit_free, walk_free, check_links, check_used, check_sizes,
  validate_header, validate_free, validate_chunks,
}
use mathlib.Core.Path.{subst}
use plugmem.Chunks.Chains.{unclaimed, unclaimed-le, unclaimed-set, get-lt}

-- No matter how a run ends with `Ok`.
abbrev Any : {A : Type 0} → A → Type 0
Any a = Unit

-- The slice of a link lies in the pool.
link_of_such :
    {B : Type 0} (Q : B → Type 0) (pool : Bytes) (chunks chunk : ℕ) (rest : ℕ → Outcome B)
    → length pool ≡ chunks * chunk_bytes
    → chunk < chunks
    → ((next : ℕ) → ReturnsSuch Q (rest next))
    → ReturnsSuch Q (link_of pool chunk >>= rest)
unfolding link_of
link_of_such Q pool chunks chunk rest size inside more =
    read_such Q 4 (chunk * chunk_bytes) pool rest (omega (arith, size, inside)) (more _)

links_in_bounds-returned :
    (pool : Bytes) (chunks n : ℕ)
    → length pool ≡ chunks * chunk_bytes
    → n ≤ chunks
    → ReturnsSuch (Any {A = Bool}) (links_in_bounds pool chunks n)
unfolding links_in_bounds
links_in_bounds-returned pool chunks zero size h = (_, refl, tt)
links_in_bounds-returned pool chunks (suc n) size h =
    then_such (Any {A = Bool}) (Any {A = Bool}) _ _
      (links_in_bounds-returned pool chunks n size (omega arith)) λ before u. go before
  where
    go :
        (before : Bool)
        → ReturnsSuch (Any {A = Bool}) (
            if before
            then (link_of pool n >>= λ next. returned (next == none_id || ltb next chunks))
            else returned false)
    go false = (_, refl, tt)
    go true = link_of_such (Any {A = Bool}) pool chunks n _ size (omega arith) λ next. (_, refl, tt)

visit_free-returned :
    (used : List ℕ) (chunk : ℕ) (seen : List Bool) (rest : Outcome (Result ArenaError Unit))
    → length seen ≡ length used
    → ((get_elem? seen chunk ≡ some false) → ReturnsSuch (OkSuch Any) rest)
    → ReturnsSuch (OkSuch Any) (visit_free used chunk seen rest)
unfolding visit_free
visit_free-returned used chunk seen rest same more = elim (Option-cases (get_elem? seen chunk)) [
  | inl none' ↦ rw (none', visit_free) (_, refl, tt)
  | inr (true, e) ↦ rw (e, visit_free) (_, refl, tt)
  | inr (false, e) ↦
      let (u, eu) = get-in used chunk (omega (arith, same, get-lt seen chunk false e)) in
      rw (e, visit_free, eu) (fill u (more e))
]
  where
    fill :
        (u : ℕ)
        → ReturnsSuch (OkSuch Any) rest
        → ReturnsSuch (OkSuch Any) (elim u [
          | zero ↦ rest
          | suc n ↦ returned (err (ArenaError.corrupt "free chunk has nonzero used bytes"))
        ])
    fill zero r = r
    fill (suc n) r = (_, refl, tt)

module _ (pool : Bytes) (used : List ℕ) (size : length pool ≡ length used * chunk_bytes) where
  walk_free-end :
      (fuel chunk : ℕ) (seen : List Bool)
      → chunk ≡ none_id
      → walk_free pool used (suc fuel) chunk seen ≡ returned (ok tt)
  unfolding walk_free
  walk_free-end fuel chunk seen h = ground arith

  walk_free-round :
      (fuel chunk : ℕ) (seen : List Bool)
      → chunk ≢ none_id
      → walk_free pool used (suc fuel) chunk seen
        ≡ visit_free used chunk seen
            (link_of pool chunk >>= λ next. walk_free pool used fuel next (set seen chunk true))
  unfolding walk_free
  walk_free-round fuel chunk seen h = ground arith

  walk_free-returned :
      (fuel chunk : ℕ) (seen : List Bool)
      → length seen ≡ length used
      → unclaimed seen < fuel
      → ReturnsSuch (OkSuch Any) (walk_free pool used fuel chunk seen)
  walk_free-returned zero chunk seen same enough = absurd (omega arith)
  walk_free-returned (suc fuel) chunk seen same enough = elim (eq_cases chunk none_id) [
    | inl z ↦ (ok tt, walk_free-end fuel chunk seen z, tt)
    | inr n ↦ subst (ReturnsSuch (OkSuch Any)) (sym (walk_free-round fuel chunk seen n)) (
        visit_free-returned used chunk seen _ same λ free.
          link_of_such (OkSuch Any) pool (length used) chunk _ size
            (omega (arith, same, get-lt seen chunk false free))
            λ next.
              walk_free-returned fuel next (set seen chunk true) (length-set seen chunk true ∙ same)
                (omega (arith, unclaimed-set seen chunk free, enough)))
  ]

abbrev pub Fits : ℕ → Type 0
Fits u = u ≤ 60

all_fit-Fits : (us : List ℕ) → all_fit us ≡ true → All Fits us
unfolding all_fit
all_fit-Fits [] h = tt
all_fit-Fits (u ∷ us) h = (ground arith, all_fit-Fits us (ground arith))

-- What the tests say where none of them refuses.
pub record Accepted (cfg : ChunkPoolCfg) (pool : Bytes) (v : List ℕ × ℕ) : Type 0 where
  pub size : length pool ≡ length v.0 * chunk_bytes
  pub few : length v.0 < 2 ^ 32
  pub bounded : length pool ≤ cfg.max_bytes
  pub fit : All Fits v.0

module _ (cfg : ChunkPoolCfg) (meta pool : Bytes) where
  check_links-Accepted :
      (chunks free_head : ℕ) (used : List ℕ)
      → length pool ≡ chunks * chunk_bytes
      → Accepted cfg pool (used, free_head)
      → ReturnsSuch (OkSuch (Accepted cfg pool)) (check_links pool chunks free_head used)
  unfolding check_links
  check_links-Accepted chunks free_head used size a =
      then_such (Any {A = Bool}) (OkSuch (Accepted cfg pool)) _ _
        (links_in_bounds-returned pool chunks chunks size (omega arith))
        λ inside u. test_such (Accepted cfg pool) (not inside) _ _ λ t. (_, refl, a)

  check_used-Accepted :
      (chunks free_head : ℕ)
      → chunks < 2 ^ 32
      → length meta ≡ 8 + chunks
      → length pool ≡ chunks * chunk_bytes
      → length pool ≤ cfg.max_bytes
      → ReturnsSuch (OkSuch (Accepted cfg pool)) (check_used meta pool chunks free_head)
  unfolding check_used
  check_used-Accepted chunks free_head few whole size bounded =
      let count : length (drop 8 meta) ≡ chunks = omega (arith, length-drop 8 meta, whole) in
      tail_such (OkSuch (Accepted cfg pool)) 8 meta _ (omega (arith, whole)) (
        test_such (Accepted cfg pool) (not (all_fit (drop 8 meta))) _ _ λ fit.
          check_links-Accepted chunks free_head (drop 8 meta) size (record {
            size = size ∙ ap (λ (n : ℕ). n * chunk_bytes) (sym count);
            few = omega (arith, count, few);
            bounded = bounded;
            fit = all_fit-Fits (drop 8 meta) (ground (arith, fit));
          }))

  check_sizes-Accepted :
      (chunks free_head : ℕ)
      → chunks < 2 ^ 32
      → ReturnsSuch (OkSuch (Accepted cfg pool)) (check_sizes cfg meta pool chunks free_head)
  unfolding check_sizes
  check_sizes-Accepted chunks free_head few =
      test_such (Accepted cfg pool) (chunks == none_id) _ _ λ other.
        test_such (Accepted cfg pool) (not (length meta == 8 + chunks)) _ _ λ whole.
          test_such (Accepted cfg pool) (not (length pool == chunks * chunk_bytes)) _ _ λ size.
            test_such (Accepted cfg pool) (ltb cfg.max_bytes (length pool)) _ _ λ bounded.
              check_used-Accepted chunks free_head few (ground (arith, whole))
                (ground (arith, size)) (ground (arith, bounded))

  validate_header-Accepted :
      All IsByte meta → ReturnsSuch (OkSuch (Accepted cfg pool)) (validate_header cfg meta pool)
  unfolding validate_header
  validate_header-Accepted hb = test_such (Accepted cfg pool) (ltb (length meta) 8) _ _ λ long.
      let enough : 8 ≤ length meta = ground (arith, long) in
      read_such (OkSuch (Accepted cfg pool)) 4 0 meta _ (omega (arith, enough)) (
        read_such (OkSuch (Accepted cfg pool)) 4 4 meta _ (omega (arith, enough))
          (check_sizes-Accepted _ _ (field-lt 4 meta hb (omega (arith, enough)))))

  validate_free-Accepted :
      (v : List ℕ × ℕ)
      → Accepted cfg pool v
      → ReturnsSuch (OkSuch (Accepted cfg pool)) (validate_free pool v)
  unfolding validate_free
  validate_free-Accepted v a =
      ok_such Any (Accepted cfg pool) _ _
        (walk_free-returned pool v.0 a.size (suc (length v.0)) v.1 (replicate (length v.0) false)
          (length-replicate (length v.0) false)
          (omega (
            arith,
            unclaimed-le (replicate (length v.0) false),
            length-replicate (length v.0) false,
          )))
        λ u w. (_, refl, a)

  pub validate_chunks-Accepted :
      All IsByte meta → ReturnsSuch (OkSuch (Accepted cfg pool)) (validate_chunks cfg meta pool)
  unfolding validate_chunks
  validate_chunks-Accepted hb =
      ok_such (Accepted cfg pool) (Accepted cfg pool) _ _ (validate_header-Accepted hb)
        validate_free-Accepted
