-- ===== src/Chunks/Chains.antt =====
-- The validation of untrusted pools and chains ends and does not panic, and an accepted chain is one.
use plugmem.Base.{ℕ, zero, suc, ◌*◌, ◌≤◌, ◌<◌, ◌≡◌, ◌≢◌, ◌⊎◌, inl, inr, refl, ap, ◌∙◌, arith}
use plugmem.Base.{List, [], ◌∷◌, length, take, none, some, get_elem?, Bool, true, false, ok, err}
use plugmem.Base.{Option-cases}
use plugmem.Base.Bytes.{from_le}
use plugmem.Errors.{ArenaError, none_id}
use plugmem.Paged.{len, set}
use plugmem.Paged.Place.{IsPaged}
use plugmem.Paged.Overlay.{page_of-total}
use plugmem.Paged.Copy.{inside_mul, eq_cases}
use plugmem.Chunks.{ChunkPool, link, chunk_bytes}
use plugmem.Chunks.Walk.{stop, onward, follow, visit}
use mathlib.Core.Option

-- A pool has a page for each of its chunks.
pub record IsPool (p : ChunkPool) : Type 0 where
  pub paged : IsPaged chunk_bytes p.pool
  pub size : len p.pool ≡ length p.used * chunk_bytes

-- The chunks that no walk has claimed.
pub unclaimed : List Bool → ℕ
unclaimed [] = 0
unclaimed (true ∷ bs) = unclaimed bs
unclaimed (false ∷ bs) = suc (unclaimed bs)

pub unclaimed-le : (bs : List Bool) → unclaimed bs ≤ length bs
unfolding unclaimed
unclaimed-le [] = omega arith
unclaimed-le (true ∷ bs) = omega (arith, unclaimed-le bs)
unclaimed-le (false ∷ bs) = omega (arith, unclaimed-le bs)

pub unclaimed-set :
    (bs : List Bool) (i : ℕ)
    → get_elem? bs i ≡ some false
    → unclaimed bs ≡ suc (unclaimed (set bs i true))
unfolding unclaimed set
unclaimed-set [] i h = cc
unclaimed-set (true ∷ bs) zero h = cc
unclaimed-set (false ∷ bs) zero h = refl
unclaimed-set (true ∷ bs) (suc i) h = unclaimed-set bs i h
unclaimed-set (false ∷ bs) (suc i) h = ap suc (unclaimed-set bs i h)

pub get-lt {ℓ} :
    {A : Type ℓ} (xs : List A) (i : ℕ) (x : A) → get_elem? xs i ≡ some x → i < length xs
get-lt [] i x h = cc
get-lt (y ∷ ys) zero x h = omega arith
get-lt (y ∷ ys) (suc i) x h = omega (arith, get-lt ys i x h)

link-total : (p : ChunkPool) (c : ℕ) → IsPool p → c < length p.used → (n : ℕ) × (link p c ≡ some n)
unfolding link
link-total p c w h =
    let (page, e) =
      page_of-total chunk_bytes p.pool c w.paged
        (omega (arith, w.size, inside_mul c (length p.used) chunk_bytes h)) in
    (_, ap (Option.map λ b. from_le (take 4 b)) e)

-- A chunk that the walk goes on from.
pub record Onward (p : ChunkPool) (tail chunk : ℕ) (visited : List Bool) (next : ℕ) : Type 0 where
  pub unseen : get_elem? visited chunk ≡ some false
  pub linked : link p chunk ≡ some next
  pub inner : chunk ≢ tail
  pub goes_on : next ≢ none_id

-- The last chunk of a chain.
pub record Last (p : ChunkPool) (tail chunk : ℕ) (visited : List Bool) : Type 0 where
  pub unseen : get_elem? visited chunk ≡ some false
  pub linked : link p chunk ≡ some none_id
  pub end : chunk ≡ tail

visit-seen :
    (p : ChunkPool) (tail chunk next : ℕ) (visited : List Bool)
    → get_elem? visited chunk ≡ some false
    → link p chunk ≡ some next
    → visit p tail chunk visited ≡ follow chunk tail next (set visited chunk true)
unfolding visit
visit-seen p tail chunk next visited e l = rw (e, visit, l) refl

visit-out :
    (p : ChunkPool) (tail chunk : ℕ) (visited : List Bool)
    → get_elem? visited chunk ≡ none
    → visit p tail chunk visited
      ≡ stop (err (ArenaError.corrupt "chunk chain reaches out of bounds"))
unfolding visit
visit-out p tail chunk visited e = rw (e, visit) refl

visit-twice :
    (p : ChunkPool) (tail chunk : ℕ) (visited : List Bool)
    → get_elem? visited chunk ≡ some true
    → visit p tail chunk visited ≡ stop (err (ArenaError.corrupt "chunk claimed by two chains"))
unfolding visit
visit-twice p tail chunk visited e = rw (e, visit) refl

-- The three ways on from a chunk: an error, the end of the chain, and the next chunk.
abbrev pub Way : ChunkPool → ℕ → ℕ → List Bool → Type 0
Way p tail chunk visited =
    ((e : ArenaError) × (visit p tail chunk visited ≡ stop (err e)))
    ⊎ (((visit p tail chunk visited ≡ stop (ok (set visited chunk true)))
          × Last p tail chunk visited)
        ⊎ ((next : ℕ) × (visit p tail chunk visited ≡ onward next (set visited chunk true))
            × Onward p tail chunk visited next))

follow-tail :
    (chunk tail next : ℕ) (seen : List Bool)
    → chunk ≡ tail
    → next ≢ none_id
    → follow chunk tail next seen ≡ stop (err (ArenaError.corrupt "chunk chain tail links onward"))
unfolding follow
follow-tail chunk tail next seen h n = ground arith

follow-short :
    (chunk tail next : ℕ) (seen : List Bool)
    → chunk ≢ tail
    → next ≡ none_id
    → follow chunk tail next seen
      ≡ stop (err (ArenaError.corrupt "chunk chain ends before its tail"))
unfolding follow
follow-short chunk tail next seen h n = ground arith

follow-Way :
    (p : ChunkPool) (tail chunk next : ℕ) (visited : List Bool)
    → get_elem? visited chunk ≡ some false
    → link p chunk ≡ some next
    → Way p tail chunk visited
unfolding follow
follow-Way p tail chunk next visited e l =
    let v = visit-seen p tail chunk next visited e l in
    elim (eq_cases chunk tail) [
      | inl here ↦ elim (eq_cases next none_id) [
        | inl z ↦
            inr (inl (v ∙ ground arith, record { unseen = e; linked = l ∙ ap some z; end = here }))
        | inr n ↦ inl (_, v ∙ follow-tail chunk tail next (set visited chunk true) here n)
      ]
      | inr far ↦ elim (eq_cases next none_id) [
        | inl z ↦ inl (_, v ∙ follow-short chunk tail next (set visited chunk true) far z)
        | inr n ↦ inr (
            inr
              (next, v ∙ ground arith, record { unseen = e; linked = l; inner = far; goes_on = n }))
      ]
    ]

pub way :
    (p : ChunkPool) (tail chunk : ℕ) (visited : List Bool)
    → IsPool p
    → length visited ≡ length p.used
    → Way p tail chunk visited
way p tail chunk visited w same = elim (Option-cases (get_elem? visited chunk)) [
  | inl none' ↦ inl (_, visit-out p tail chunk visited none')
  | inr (true, e) ↦ inl (_, visit-twice p tail chunk visited e)
  | inr (false, e) ↦
      let (next, l) = link-total p chunk w (omega (arith, same, get-lt visited chunk false e)) in
      follow-Way p tail chunk next visited e l
]
