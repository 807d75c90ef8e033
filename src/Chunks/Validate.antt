-- ===== src/Chunks/Validate.antt =====
-- `validate_chain` on untrusted handles.
use plugmem.Base.Outcomes.{returned}
use plugmem.Base.{ℕ, zero, suc, ◌<◌, ◌≡◌, ◌≢◌, ◌⊎◌, inl, inr, refl, sym, ap, ◌∙◌, arith}
use plugmem.Base.{List, [], ◌∷◌, length, some, get_elem?, Bool, true, false, ok, err, Result}
use plugmem.Base.{ok_inj}
use plugmem.Errors.{ArenaError, none_id}
use plugmem.Paged.{set}
use plugmem.Paged.Place.{length-set}
use plugmem.Paged.Copy.{eq_cases}
use plugmem.Chunks.{ChunkPool, ListHandle, link}
use plugmem.Chunks.Walk.{stop, onward, visit, walk_chain, validate_chain}
use plugmem.Chunks.Chains.{IsPool, unclaimed, unclaimed-le, unclaimed-set, Onward, Last, way}

-- The chunks from `chunk` on, each linked to the next, up to `tail`, which links nowhere.
abbrev pub IsChain : ChunkPool → ℕ → ℕ → List ℕ → Type 0
IsChain p tail chunk [] = ⊥
IsChain p tail chunk (c ∷ []) = (chunk ≡ c) × (c ≡ tail) × (link p c ≡ some none_id)
IsChain p tail chunk (c ∷ d ∷ ds) =
    (chunk ≡ c) × (c ≢ tail) × (link p c ≡ some d) × IsChain p tail d (d ∷ ds)

-- The chunks were free to claim one after the other, and all of them are marked in the end.
abbrev pub Claims : List Bool → List ℕ → List Bool → Type 0
Claims visited [] seen = visited ≡ seen
Claims visited (c ∷ cs) seen =
    (get_elem? visited c ≡ some false) × Claims (set visited c true) cs seen

module _ (p : ChunkPool) (tail : ℕ) (w : IsPool p) where
  walk_stop :
      (fuel chunk : ℕ) (visited : List Bool) (r : Result ArenaError (List Bool))
      → visit p tail chunk visited ≡ stop r
      → walk_chain p tail (suc fuel) chunk visited ≡ returned r
  unfolding walk_chain
  walk_stop fuel chunk visited r e = rw (e, walk_chain) refl

  walk_onward :
      (fuel chunk next : ℕ) (visited seen : List Bool)
      → visit p tail chunk visited ≡ onward next seen
      → walk_chain p tail (suc fuel) chunk visited ≡ walk_chain p tail fuel next seen
  unfolding walk_chain
  walk_onward fuel chunk next visited seen e = rw (e, walk_chain) refl

  walk_chain-returned :
      (fuel chunk : ℕ) (visited : List Bool)
      → length visited ≡ length p.used
      → unclaimed visited < fuel
      → (r : Result ArenaError (List Bool)) × (walk_chain p tail fuel chunk visited ≡ returned r)
  walk_chain-returned zero chunk visited same enough = absurd (omega arith)
  walk_chain-returned (suc fuel) chunk visited same enough =
      elim (way p tail chunk visited w same) [
        | inl (e, v) ↦ (err e, walk_stop fuel chunk visited (err e) v)
        | inr (inl (v, last)) ↦ (_, walk_stop fuel chunk visited _ v)
        | inr (inr (next, v, o)) ↦
            let (r, done) =
              walk_chain-returned fuel next (set visited chunk true)
                (length-set visited chunk true ∙ same)
                (omega (arith, unclaimed-set visited chunk o.unseen, enough)) in
            (r, walk_onward fuel chunk next visited (set visited chunk true) v ∙ done)
      ]

  returned_inj : {a b : Result ArenaError (List Bool)} → returned a ≡ returned b → a ≡ b
  returned_inj e = cc

  stops_ok :
      (chunk : ℕ) (visited seen : List Bool)
      → Last p tail chunk visited
      → set visited chunk true ≡ seen
      → (cs : List ℕ) × IsChain p tail chunk cs × Claims visited cs seen
  stops_ok chunk visited seen l e = (chunk ∷ [], (refl, l.end, l.linked), (l.unseen, e))

  goes_on :
      (chunk next : ℕ) (visited seen : List Bool) (cs : List ℕ)
      → Onward p tail chunk visited next
      → IsChain p tail next cs
      → Claims (set visited chunk true) cs seen
      → (ds : List ℕ) × IsChain p tail chunk ds × Claims visited ds seen
  goes_on chunk next visited seen [] o c claims = absurd c
  goes_on chunk next visited seen (d ∷ []) o c claims = (
    chunk ∷ d ∷ [],
    (refl, o.inner, o.linked ∙ ap some c.0, (refl, c.1, c.2)),
    (o.unseen, claims),
  )
  goes_on chunk next visited seen (d ∷ e ∷ es) o c claims = (
    chunk ∷ d ∷ e ∷ es,
    (refl, o.inner, o.linked ∙ ap some c.0, (refl, c.1, c.2, c.3)),
    (o.unseen, claims),
  )

  walk_chain_sound :
      (fuel chunk : ℕ) (visited seen : List Bool)
      → length visited ≡ length p.used
      → walk_chain p tail fuel chunk visited ≡ returned (ok seen)
      → (cs : List ℕ) × IsChain p tail chunk cs × Claims visited cs seen
  unfolding walk_chain
  walk_chain_sound zero chunk visited seen same e = cc
  walk_chain_sound (suc fuel) chunk visited seen same e = elim (way p tail chunk visited w same) [
    | inl (bad, v) ↦
        let no = returned_inj (sym (walk_stop fuel chunk visited (err bad) v) ∙ e) in cc
    | inr (inl (v, last)) ↦
        let r = returned_inj (sym (walk_stop fuel chunk visited _ v) ∙ e) in
        stops_ok chunk visited seen last (ok_inj r)
    | inr (inr (next, v, o)) ↦
        let (cs, chain, claims) =
          walk_chain_sound fuel next (set visited chunk true) seen
            (length-set visited chunk true ∙ same)
            (sym (walk_onward fuel chunk next visited (set visited chunk true) v) ∙ e) in
        goes_on chunk next visited seen cs o chain claims
  ]

module _ (p : ChunkPool) (list : ListHandle) (visited : List Bool) where
  validate_walk :
      list.head ≢ none_id
      → list.tail ≢ none_id
      → validate_chain p list visited
        ≡ walk_chain p list.tail (suc (length visited)) list.head visited
  unfolding validate_chain
  validate_walk h t = ground arith

  validate_empty :
      list.head ≡ none_id
      → list.tail ≡ none_id
      → validate_chain p list visited ≡ returned (ok visited)
  unfolding validate_chain
  validate_empty h t = ground arith

  validate_half :
      (list.head ≡ none_id) ⊎ (list.tail ≡ none_id)
      → list.head ≢ list.tail
      → validate_chain p list visited
        ≡ returned (err (ArenaError.corrupt "chunk chain head/tail disagree"))
  unfolding validate_chain
  validate_half h n = ground arith

  -- The three forms of a handle.
  forms :
      ((list.head ≡ none_id) × (list.tail ≡ none_id))
      ⊎ ((((list.head ≡ none_id) ⊎ (list.tail ≡ none_id)) × (list.head ≢ list.tail))
          ⊎ ((list.head ≢ none_id) × (list.tail ≢ none_id)))
  forms = elim (eq_cases list.head none_id) [
    | inl h ↦ elim (eq_cases list.tail none_id) [
      | inl t ↦ inl (h, t)
      | inr t ↦ inr (inl (inl h, λ e. t (sym e ∙ h)))
    ]
    | inr h ↦ elim (eq_cases list.tail none_id) [
      | inl t ↦ inr (inl (inr t, λ e. h (e ∙ t)))
      | inr t ↦ inr (inr (h, t))
    ]
  ]

-- For any handle, trusted or not, in a pool that has a page for each chunk, with a map of that many chunks:
-- the validation neither panics nor runs on, but returns a verdict; and where the verdict is good, the
-- handle is empty and nothing was claimed, or a chain of chunks leads from its head to its tail, which links
-- nowhere, and exactly these chunks, none of them claimed before or twice, are now marked as claimed.
pub validate_chain_sound :
    (p : ChunkPool) (list : ListHandle) (visited : List Bool)
    → IsPool p
    → length visited ≡ length p.used
    → ((r : Result ArenaError (List Bool)) × (validate_chain p list visited ≡ returned r))
      × ((seen : List Bool)
          → validate_chain p list visited ≡ returned (ok seen)
          → ((list.head ≡ none_id) × (list.tail ≡ none_id) × (seen ≡ visited))
            ⊎ ((cs : List ℕ) × IsChain p list.tail list.head cs × Claims visited cs seen))
validate_chain_sound p list visited w same = elim (forms p list visited) [
  | inl (h, t) ↦
      let v = validate_empty p list visited h t in
      ((ok visited, v), λ seen e. inl (h, t, sym (ok_inj (returned_inj p list.tail w (sym v ∙ e)))))
  | inr (inl (half, n)) ↦
      let v = validate_half p list visited half n in
      ((_, v), λ seen e. let bad = returned_inj p list.tail w (sym v ∙ e) in cc)
  | inr (inr (h, t)) ↦
      let v = validate_walk p list visited h t in
      let (r, done) =
        walk_chain-returned p list.tail w (suc (length visited)) list.head visited same
          (omega (arith, unclaimed-le visited)) in
      (
        (r, v ∙ done),
        λ seen e. inr (
            walk_chain_sound p list.tail w (suc (length visited)) list.head visited seen same
              (sym v ∙ e)),
      )
]
