-- ===== src/Memory/Replay.antt =====
-- `replay`: the journal's records, applied one after the other.
use plugmem.Base.{
  ℕ, ◌+◌, List, [], ◌∷◌, length, Option, none, some, Bool, not, ◌&&◌, ltb, ◌==◌, if◌then◌else◌,
  Result, ok, err,
}
use plugmem.Base.Bytes.{Bytes}
use plugmem.Errors.{Error, is_none}
use plugmem.Journal.Ops.{Op, Remembered, decode}
use plugmem.Journal.Frames.{JournalEntry, scan}
use plugmem.Memory.{Stores, Memory, Act, Run, done, failed, panics, ◌>>=◌, give, attempt}
use plugmem.Memory.Inputs.{RememberInput, is_nil, apply_set_vector_space, max_tags}
use plugmem.Memory.Edges.{apply_link, apply_unlink}
use plugmem.Memory.Facts.{check_revisable, close_target, apply_forget}
use plugmem.Memory.Store.{apply_remember}
use plugmem.Memory.Tags.{apply_remove_tag}

pub record OpenReport : Type 0 where
  pub replayed : ℕ
  pub skipped : ℕ
  pub truncated_tail : Bool

-- `(!v.is_empty()).then_some(v)`
abbrev pub non_empty {ℓ} : {A : Type ℓ} → List A → Option (List A)
non_empty [] = none
non_empty (x ∷ xs) = some (x ∷ xs)

abbrev pub replayed_input : Remembered → RememberInput
replayed_input r = record {
  now = r.now;
  text = r.text;
  entity = r.entity;
  tags = r.tags;
  links = r.links;
  vector = non_empty r.vector;
  valid_from = some r.valid_from;
  metadata = non_empty r.metadata;
}

abbrev pub counted : OpenReport → OpenReport
counted report = record report { replayed = report.replayed + 1 }

-- An error, whatever it is, as the given one.
abbrev pub map_err : {S A : Type 0} → (Error → Error) → Act S A → Act S A
map_err f act s = let ran = act s in (ran.0, failing f ran.1)
  where
    failing : {A : Type 0} → (Error → Error) → Run A → Run A
    failing f (done a) = done a
    failing f (failed e) = failed (f e)
    failing f panics = panics

-- `NotFound` of a forget means that the journal is corrupt.
unfoldable pub forget_error : Error → Error
forget_error (Error.not_found id) = Error.corrupt "journal forgets an unknown fact"
forget_error e = e

-- The tests on a stored fact's record against the state.
unfoldable pub check_remembered : ℕ → ℕ → Remembered → Result Error Unit
check_remembered next_fact dim r =
    if not (r.assigned == next_fact)
    then err (Error.corrupt "journal fact ids are not contiguous")
    else if not (is_nil r.vector) && not (length r.vector == dim)
    then err (Error.corrupt "journal vector dimension disagrees with dim")
    else if ltb max_tags (length r.tags)
    then err (Error.corrupt "journal record carries too many tags")
    else ok tt

module _ (P : Stores) where
  unfoldable pub replay_target : ℕ → Act (Memory P) Unit
  replay_target revises =
      if is_none revises
      then give tt
      else map_err (λ e. Error.corrupt "journal revises an unrevisable fact")
          (check_revisable P revises)

  unfoldable pub replay_close : ℕ → ℕ → Act (Memory P) Unit
  replay_close revises valid_from =
      if is_none revises then give tt else close_target P revises valid_from

  unfoldable pub replay_new : Remembered → Act (Memory P) Unit
  replay_new r = do
    u ← (λ m. attempt (check_remembered m.next_fact m.cfg.dim r) m)
    v ← replay_target r.revises
    outcome ← apply_remember P (replayed_input r) r.revises none
    replay_close r.revises r.valid_from

  module _ (maintain : ℕ → ℕ → Act (Memory P) Unit) where
    -- `MaintenanceOptions::from_journal` knows five modes.
    unfoldable pub replay_maintain : ℕ → ℕ → Act (Memory P) Unit
    replay_maintain mode max_hnsw_inserts =
        if ltb 4 mode
        then attempt (err (Error.corrupt "journal maintenance mode is invalid"))
        else maintain mode max_hnsw_inserts

    -- A fact that is there already is skipped.
    unfoldable pub replay_remember : Remembered → OpenReport → Act (Memory P) OpenReport
    replay_remember r report m =
        if ltb r.assigned m.next_fact
        then (m, done (record report { skipped = report.skipped + 1 }))
        else (replay_new r >>= λ u. give (counted report)) m

    unfoldable pub replay_op : Op → OpenReport → Act (Memory P) OpenReport
    replay_op (Op.remember r) report = replay_remember r report
    replay_op (Op.forget now fact) report =
        map_err forget_error (apply_forget P fact) >>= λ fresh. give (counted report)
    replay_op (Op.link now src rel dst provenance) report =
        apply_link P now src rel dst provenance >>= λ u. give (counted report)
    replay_op (Op.unlink now src rel dst) report =
        apply_unlink P now src rel dst >>= λ fresh. give (counted report)
    replay_op (Op.remove_tag now tag) report =
        apply_remove_tag P now tag >>= λ affected. give (counted report)
    replay_op (Op.set_vector_space space) report =
        apply_set_vector_space P space >>= λ u. give (counted report)
    replay_op (Op.maintain now mode max_hnsw_inserts) report =
        replay_maintain mode max_hnsw_inserts >>= λ u. give (counted report)

    unfoldable pub replay_entries : List JournalEntry → OpenReport → Act (Memory P) OpenReport
    replay_entries [] report = give report
    replay_entries (e ∷ es) report =
        attempt (decode e.op e.payload) >>= λ op. replay_op op report >>= replay_entries es

    abbrev pub no_report : Bool → OpenReport
    no_report truncated_tail = record { replayed = 0; skipped = 0; truncated_tail = truncated_tail }

    -- The fuel of `scan` is always enough, so that its `none` does not happen.
    unfoldable pub replay : (Bytes → ℕ) → Bytes → Act (Memory P) OpenReport
    replay xxh3_64 journal m = elim (scan xxh3_64 journal) [
      | none ↦ (m, panics)
      | some (err e) ↦ (m, failed e)
      | some (ok scanned) ↦ replay_entries scanned.entries (no_report scanned.truncated_tail) m
    ]
