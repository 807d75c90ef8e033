-- ===== src/Memory/Session.antt =====
-- A session: calls of the verbs that succeed, one after the other, and the operations that they record.
use plugmem.Base.{ℕ, ◌≡◌, ◌≢◌, inl, inr, List, [], ◌∷◌, Option, Bool, true, false, refl}
use plugmem.Base.Bytes.{Bytes}
use plugmem.Errors.{none_id}
use plugmem.Journal.Ops.{Op}
use plugmem.Memory.{Stores, Memory, Act}
use plugmem.Memory.Inputs.{RememberInput, RememberOutcome, unwrap_or}
use plugmem.Memory.Verbs.{
  Storage, Db, recorded, remember, revise, forget, link, unlink, remove_tag, claim_vector_space,
}
use plugmem.Memory.Inversion.{Gives}
use plugmem.Memory.Journalled.{Recorded, forget-Recorded, link-Recorded, unlink-Recorded}
use plugmem.Memory.Recorded.{remember-Recorded, revise-Recorded}
use plugmem.Memory.Optional.{RecordedIf}
use plugmem.Memory.Removal.{affects, remove_tag-Recorded}
use plugmem.Memory.Claims.{claims, claim_vector_space-Recorded}

module _ (xxh3_64 : Bytes → ℕ) (P : Stores) (S : Storage) where
  -- A call that records an operation.
  pub data Step : Db xxh3_64 P S → Op → Db xxh3_64 P S → Type 0 where
    remembers :
        {d e : Db xxh3_64 P S} (input : RememberInput) (outcome : RememberOutcome)
        → Gives (remember xxh3_64 P S input) d e outcome
        → Step d (Op.remember (recorded input none_id outcome.id)) e
    revises :
        {d e : Db xxh3_64 P S} (target : ℕ) (input : RememberInput) (outcome : RememberOutcome)
        → target ≢ none_id
        → Gives (revise xxh3_64 P S target input) d e outcome
        → Step d (Op.remember (recorded input target outcome.id)) e
    forgets :
        {d e : Db xxh3_64 P S} (now id : ℕ) (fresh : Bool)
        → Gives (forget xxh3_64 P S now id) d e fresh
        → Step d (Op.forget now id) e
    links :
        {d e : Db xxh3_64 P S} (now : ℕ) (src rel dst : Bytes) (provenance : Option ℕ)
        → Gives (link xxh3_64 P S now src rel dst provenance) d e tt
        → Step d (Op.link now src rel dst (unwrap_or provenance none_id)) e
    unlinks :
        {d e : Db xxh3_64 P S} (now : ℕ) (src rel dst : Bytes) (fresh : Bool)
        → Gives (unlink xxh3_64 P S now src rel dst) d e fresh
        → Step d (Op.unlink now src rel dst) e
    removes :
        {d e : Db xxh3_64 P S} (now : ℕ) (tag : Bytes) (affected : ℕ)
        → Gives (remove_tag xxh3_64 P S now tag) d e affected
        → affects affected ≡ true
        → Step d (Op.remove_tag now tag) e
    binds :
        {d e : Db xxh3_64 P S} (space : Bytes)
        → Gives (claim_vector_space xxh3_64 P S space) d e true
        → Step d (Op.set_vector_space space) e

  -- A call that has nothing to record.
  pub data Pass : Db xxh3_64 P S → Db xxh3_64 P S → Type 0 where
    removes_nothing :
        {d e : Db xxh3_64 P S} (now : ℕ) (tag : Bytes)
        → Gives (remove_tag xxh3_64 P S now tag) d e 0
        → Pass d e
    bound_already :
        {d e : Db xxh3_64 P S} (space : Bytes)
        → Gives (claim_vector_space xxh3_64 P S space) d e false
        → Pass d e

  pub data Session : Db xxh3_64 P S → List Op → Db xxh3_64 P S → Type 0 where
    ends : {d : Db xxh3_64 P S} → Session d [] d
    step :
        {d e f : Db xxh3_64 P S} {op : Op} {ops : List Op}
        → Step d op e
        → Session e ops f
        → Session d (op ∷ ops) f
    pass : {d e f : Db xxh3_64 P S} {ops : List Op} → Pass d e → Session e ops f → Session d ops f

module _ (xxh3_64 : Bytes → ℕ) (P : Stores) (S : Storage)
    (maintain : ℕ → ℕ → Act (Memory P) Unit) where
  recorded_one :
      {A : Type 0} (test : A → Bool) (a : A) (op : Op) (m m' : Memory P) (st st' : S.Store)
      → test a ≡ true
      → RecordedIf xxh3_64 P S maintain test a op m m' st st'
      → Recorded xxh3_64 P S maintain op m m' st st'
  recorded_one test a op m m' st st' t (inl (f, same, at)) = cc
  recorded_one test a op m m' st st' t (inr (t', r)) = r

  passed :
      {A : Type 0} (test : A → Bool) (a : A) (op : Op) (m m' : Memory P) (st st' : S.Store)
      → test a ≡ false
      → RecordedIf xxh3_64 P S maintain test a op m m' st st'
      → (m ≡ m') × (st ≡ st')
  passed test a op m m' st st' t (inl (f, same, at)) = (same, at)
  passed test a op m m' st st' t (inr (t', r)) = cc

  pub Step-Recorded :
      {d e : Db xxh3_64 P S} {op : Op}
      → Step xxh3_64 P S d op e
      → Recorded xxh3_64 P S maintain op d.0 e.0 d.1 e.1
  Step-Recorded {d} {e} (remembers input outcome h) =
      remember-Recorded xxh3_64 P S maintain input d.0 e.0 d.1 e.1 outcome h
  Step-Recorded {d} {e} (revises target input outcome n h) =
      revise-Recorded xxh3_64 P S maintain target input d.0 e.0 d.1 e.1 outcome n h
  Step-Recorded {d} {e} (forgets now id fresh h) =
      forget-Recorded xxh3_64 P S maintain now id d.0 e.0 d.1 e.1 fresh h
  Step-Recorded {d} {e} (links now src rel dst provenance h) =
      link-Recorded xxh3_64 P S maintain now src rel dst provenance d.0 e.0 d.1 e.1 tt h
  Step-Recorded {d} {e} (unlinks now src rel dst fresh h) =
      unlink-Recorded xxh3_64 P S maintain now src rel dst d.0 e.0 d.1 e.1 fresh h
  Step-Recorded {d} {e} (removes now tag affected h t) =
      recorded_one affects affected (Op.remove_tag now tag) d.0 e.0 d.1 e.1 t
        (remove_tag-Recorded xxh3_64 P S maintain now tag d.0 e.0 d.1 e.1 affected h)
  Step-Recorded {d} {e} (binds space h) =
      recorded_one claims true (Op.set_vector_space space) d.0 e.0 d.1 e.1 refl
        (claim_vector_space-Recorded xxh3_64 P S maintain space d.0 e.0 d.1 e.1 true h)

  pub Pass-same : {d e : Db xxh3_64 P S} → Pass xxh3_64 P S d e → (d.0 ≡ e.0) × (d.1 ≡ e.1)
  Pass-same {d} {e} (removes_nothing now tag h) =
      passed affects 0 (Op.remove_tag now tag) d.0 e.0 d.1 e.1 refl
        (remove_tag-Recorded xxh3_64 P S maintain now tag d.0 e.0 d.1 e.1 0 h)
  Pass-same {d} {e} (bound_already space h) =
      passed claims false (Op.set_vector_space space) d.0 e.0 d.1 e.1 refl
        (claim_vector_space-Recorded xxh3_64 P S maintain space d.0 e.0 d.1 e.1 false h)
