-- ===== src/Memory/Stored.antt =====
-- `apply_remember` gives the next id, and depends on its input only as far as the journal keeps it.
use plugmem.Base.{
  ℕ, ◌≤◌, ◌≡◌, refl, ap, arith, List, [], ◌∷◌, length, Option, none, some, false, not, ◌&&◌, ◌==◌,
  ok,
}
use plugmem.Base.Bytes.{Bytes}
use plugmem.Memory.{Stores, Memory, give}
use plugmem.Memory.Inputs.{
  RememberInput, RememberOutcome, is_nil, unwrap_or, validate, check_vector, validate_input,
  max_tags,
}
use plugmem.Memory.Facts.{store_metadata}
use plugmem.Memory.Store.{resolve_subject, store_fact, apply_remember}
use plugmem.Memory.Verbs.{recorded}
use plugmem.Memory.Replay.{non_empty, replayed_input, check_remembered}
use plugmem.Memory.Inversion.{Gives, of_bind, bind-Gives, of_give, of_attempt}

module _ (P : Stores) where
  pub apply_remember-id :
      (input : RememberInput) (revises : ℕ) (copy : Option ℕ) (m m' : Memory P)
      (outcome : RememberOutcome)
      → Gives (apply_remember P input revises copy) m m' outcome
      → m.next_fact ≡ outcome.id
  unfolding apply_remember
  apply_remember-id input revises copy m m' outcome h =
      of_bind (resolve_subject P input.entity input.now) _ m m' outcome h λ t entity named more.
        of_bind (store_fact P input revises copy m.next_fact entity) _ t m' outcome more
          λ s u stored last.
            ap (λ (o : RememberOutcome). o.id)
              (of_give (record { id = m.next_fact; entity = entity }) outcome s m' last).1

  kept_metadata :
      (metadata : Option (List (Bytes × Bytes)))
      → store_metadata P (non_empty (unwrap_or metadata [])) ≡ store_metadata P metadata
  unfolding store_metadata
  kept_metadata none = refl
  kept_metadata (some []) = refl
  kept_metadata (some (p ∷ ps)) = refl

  kept_vector :
      (dim : ℕ) (vector : Option (List ℕ))
      → check_vector dim vector ≡ ok tt
      → non_empty (unwrap_or vector []) ≡ vector
  unfolding check_vector
  kept_vector dim none h = refl
  kept_vector dim (some []) h = absurd (ground arith)
  kept_vector dim (some (x ∷ xs)) h = refl

  valid_vector :
      (max_text dim : ℕ) (input : RememberInput)
      → validate max_text dim input ≡ ok tt
      → check_vector dim input.vector ≡ ok tt
  unfolding validate
  valid_vector max_text dim input h = ground arith

  valid_tags :
      (max_text dim : ℕ) (input : RememberInput)
      → validate max_text dim input ≡ ok tt
      → length input.tags ≤ max_tags
  unfolding validate
  valid_tags max_text dim input h = ground arith

  store_fact_replayed :
      (input : RememberInput) (revises assigned dim id : ℕ) (entity : Option ℕ)
      → check_vector dim input.vector ≡ ok tt
      → store_fact P (replayed_input (recorded input revises assigned)) revises none id entity
        ≡ store_fact P input revises none id entity
  unfolding store_fact
  store_fact_replayed input revises assigned dim id entity h =
      rw (store_fact, kept_metadata input.metadata, kept_vector dim input.vector h) refl

  -- What the journal keeps of an input is enough to store the fact again.
  pub apply_remember_replayed :
      (input : RememberInput) (revises assigned dim : ℕ) (m m' : Memory P)
      (outcome : RememberOutcome)
      → check_vector dim input.vector ≡ ok tt
      → Gives (apply_remember P input revises none) m m' outcome
      → Gives
          (apply_remember P (replayed_input (recorded input revises assigned)) revises none)
          m
          m'
          outcome
  unfolding apply_remember
  apply_remember_replayed input revises assigned dim m m' outcome v h =
      of_bind (resolve_subject P input.entity input.now) _ m m' outcome h λ t entity named more.
        of_bind (store_fact P input revises none m.next_fact entity) _ t m' outcome more
          λ s u stored last.
            let again : Gives
                (store_fact P (replayed_input (recorded input revises assigned)) revises none
                  m.next_fact entity)
                t s u =
              rw (store_fact_replayed input revises assigned dim m.next_fact entity v) stored in
            bind-Gives (resolve_subject P input.entity input.now) _ m t m' entity outcome named (
              bind-Gives
                (store_fact P (replayed_input (recorded input revises assigned)) revises none
                  m.next_fact entity)
                (λ w. give (record { id = m.next_fact; entity = entity })) t s m' u outcome again
                last)

  vector_length :
      (dim : ℕ) (vector : Option (List ℕ))
      → check_vector dim vector ≡ ok tt
      → (not (is_nil (unwrap_or vector [])) && not (length (unwrap_or vector []) == dim)) ≡ false
  unfolding check_vector
  vector_length dim none h = refl
  vector_length dim (some []) h = refl
  vector_length dim (some (x ∷ xs)) h = ground arith

  pub check_remembered_ok :
      (max_text dim next_fact : ℕ) (input : RememberInput) (revises : ℕ)
      → validate max_text dim input ≡ ok tt
      → check_remembered next_fact dim (recorded input revises next_fact) ≡ ok tt
  unfolding check_remembered
  check_remembered_ok max_text dim next_fact input revises h =
      let v = vector_length dim input.vector (valid_vector max_text dim input h) in
      let t = valid_tags max_text dim input h in rw v (ground arith)

  pub of_validate_input :
      (input : RememberInput) (m m' : Memory P) (u : Unit {0})
      → Gives (validate_input P input) m m' u
      → (m ≡ m')
        × (check_vector m.cfg.dim input.vector ≡ ok tt)
        × ((next revises : ℕ)
            → check_remembered next m.cfg.dim (recorded input revises next) ≡ ok tt)
  unfolding validate_input
  of_validate_input input m m' u h =
      let (e, valid) = of_attempt (validate m.cfg.max_text m.cfg.dim input) m m' u h in
      (
        e,
        valid_vector m.cfg.max_text m.cfg.dim input valid,
        λ next revises. check_remembered_ok m.cfg.max_text m.cfg.dim next input revises valid,
      )
