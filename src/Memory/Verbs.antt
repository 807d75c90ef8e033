-- ===== src/Memory/Verbs.antt =====
-- The verbs: a change of the engine's state, and its record in the journal of a storage.
use plugmem.Base.{ℕ, List, [], ◌∷◌, Option, none, some, Bool, true, false, ◌==◌, if◌then◌else◌}
use plugmem.Base.{Result, ok, err, String}
use plugmem.Base.Bytes.{Bytes}
use plugmem.Errors.{Error, none_id}
use plugmem.Journal.Ops.{Op, Remembered}
use plugmem.Journal.Frames.{encode}
use plugmem.Memory.{Stores, Memory, Act, Run, done, failed, panics, ◌>>=◌, give}
use plugmem.Memory.Inputs.{
  RememberInput, RememberOutcome, is_nil, unwrap_or, validate_input, check_vector_space_claim,
  set_vector_space,
}
use plugmem.Memory.Edges.{apply_link, apply_unlink}
use plugmem.Memory.Facts.{check_revisable, close_target, apply_forget}
use plugmem.Memory.Store.{apply_remember}
use plugmem.Memory.Tags.{apply_remove_tag}

-- What the verbs use of the trait `Storage`. The error is its debug text.
pub record Storage : Type 1 where
  pub Store : Type 0
  pub append_journal : Bytes → Store → Store × Result String Unit

-- The journal's record of a stored fact.
abbrev pub recorded : RememberInput → ℕ → ℕ → Remembered
recorded input revises assigned = record {
  now = input.now;
  valid_from = unwrap_or input.valid_from input.now;
  entity = input.entity;
  text = input.text;
  tags = input.tags;
  links = input.links;
  vector = unwrap_or input.vector [];
  metadata = unwrap_or input.metadata [];
  revises = revises;
  assigned = assigned;
}

module _ (xxh3_64 : Bytes → ℕ) (P : Stores) (S : Storage) where
  -- A database: the engine and its storage.
  abbrev pub Db : Type 0
  Db = Memory P × S.Store

  abbrev pub on_memory : {A : Type 0} → Act (Memory P) A → Act Db A
  on_memory act (m, store) = let ran = act m in ((ran.0, store), ran.1)

  abbrev pub stored_as : {A : Type 0} → Result String A → Run A
  stored_as (ok a) = done a
  stored_as (err e) = failed (Error.storage e)

  unfoldable pub append : Bytes → Act Db Unit
  append entry (m, store) =
      let written = S.append_journal entry store in ((m, written.0), stored_as written.1)

  -- `op.encode(&mut entry)` into an empty buffer, and the append.
  unfoldable pub journal : Op → Act Db Unit
  journal op db = elim (encode xxh3_64 op []) [ none ↦ (db, panics) | some entry ↦ append entry db ]

  unfoldable pub journal_remember : RememberInput → ℕ → ℕ → Act Db Unit
  journal_remember input revises assigned = journal (Op.remember (recorded input revises assigned))

  unfoldable pub claim_vector_space : Bytes → Act Db Bool
  claim_vector_space space = on_memory (check_vector_space_claim P space) >>= λ needs_claim.
      elim needs_claim [
        | false ↦ give false
        | true ↦ journal (Op.set_vector_space space) >>= λ u.
            on_memory (set_vector_space P space) >>= λ v. give true
      ]

  -- `find_similar`, which only fills the outcome's list of similar facts, is left out.
  unfoldable pub remember_valid : RememberInput → Act Db RememberOutcome
  remember_valid input = do
    outcome ← on_memory (apply_remember P input none_id none)
    u ← journal_remember input none_id outcome.id
    give outcome

  unfoldable pub remember : RememberInput → Act Db RememberOutcome
  remember input = on_memory (validate_input P input) >>= λ u. remember_valid input

  unfoldable pub remember_batch : List RememberInput → Act Db (List RememberOutcome)
  remember_batch [] = give []
  remember_batch (input ∷ inputs) = do
    outcome ← remember input
    outcomes ← remember_batch inputs
    give (outcome ∷ outcomes)

  unfoldable pub revise_valid : ℕ → RememberInput → Act Db RememberOutcome
  revise_valid target input = do
    outcome ← on_memory (apply_remember P input target none)
    u ← on_memory (close_target P target (unwrap_or input.valid_from input.now))
    v ← journal_remember input target outcome.id
    give outcome

  unfoldable pub revise_checked : ℕ → RememberInput → Act Db RememberOutcome
  revise_checked target input =
      on_memory (check_revisable P target) >>= λ u. revise_valid target input

  unfoldable pub revise : ℕ → RememberInput → Act Db RememberOutcome
  revise target input = on_memory (validate_input P input) >>= λ u. revise_checked target input

  unfoldable pub forget : ℕ → ℕ → Act Db Bool
  forget now id = do
    fresh ← on_memory (apply_forget P id)
    u ← journal (Op.forget now id)
    give fresh

  unfoldable pub link : ℕ → Bytes → Bytes → Bytes → Option ℕ → Act Db Unit
  link now src rel dst provenance = do
    u ← on_memory (apply_link P now src rel dst (unwrap_or provenance none_id))
    journal (Op.link now src rel dst (unwrap_or provenance none_id))

  unfoldable pub unlink : ℕ → Bytes → Bytes → Bytes → Act Db Bool
  unlink now src rel dst = do
    fresh ← on_memory (apply_unlink P now src rel dst)
    u ← journal (Op.unlink now src rel dst)
    give fresh

  unfoldable pub journal_removal : ℕ → Bytes → ℕ → Act Db ℕ
  journal_removal now tag affected =
      if affected == 0
      then give affected
      else journal (Op.remove_tag now tag) >>= λ u. give affected

  unfoldable pub remove_tag : ℕ → Bytes → Act Db ℕ
  remove_tag now tag db =
      if is_nil tag
      then (db, failed (Error.invalid "empty tag"))
      else (on_memory (apply_remove_tag P now tag) >>= journal_removal now tag) db
