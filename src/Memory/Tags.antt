-- ===== src/Memory/Tags.antt =====
-- Reading a fact back, and removing a tag: every open fact that has it is replaced by a copy without it.
use plugmem.Base.{
  ℕ, ◌+◌, ◌-◌, ◌^◌, List, [], ◌∷◌, map, Option, none, some, Bool, false, not, leb, ◌==◌, ◌||◌,
  if◌then◌else◌, Result, ok, err,
}
use plugmem.Base.Bytes.{Bytes, to_be}
use plugmem.Base.Utf8.{is_utf8}
use plugmem.Errors.{Error, none_id}
use plugmem.Blob.{get, len}
use plugmem.Metadata.{decode}
use plugmem.Model.Facts.{FactRecord, is_tombstone, is_closed, has_vector}
use plugmem.Memory.{Stores, Memory, Act, done, ◌>>=◌, give, some_or, expect}
use plugmem.Memory.Inputs.{RememberInput, is_nil, same_text}
use plugmem.Memory.Facts.{fact, close_target, all_ids}
use plugmem.Memory.Store.{apply_remember}
use Prim.Native.Nat.{min}
use mathlib.Core.Option

-- `core::str::from_utf8(…).ok()`
unfoldable pub readable : Bytes → Option Bytes
readable bytes = if is_utf8 bytes then some bytes else none

module _ (P : Stores) where
  -- `get`: a fact that is not deleted, with a text that can be read. The outer `none` is a panic.
  unfoldable pub get_fact : Memory P → ℕ → Option (Option (FactRecord × Bytes))
  get_fact m id = elim (fact P m id) [
    | none ↦ some none
    | some r ↦
        if is_tombstone r
        then some none
        else Option.map (λ text. Option.map (λ t. (r, t)) (readable text)) (get m.texts r.text)
  ]

  unfoldable pub tags_of : Memory P → ℕ → List ℕ
  tags_of m id = elim (fact P m id) [
    | none ↦ []
    | some r ↦ if is_tombstone r then [] else elim (P.fact_aux.get (to_be 4 id) m.fact_aux) [
      | none ↦ []
      | some aux ↦ all_ids (P.tag_chunks aux.tags m.tag_lists)
    ]
  ]

  unfoldable pub decoded : Result Error (List (Bytes × Bytes)) → List (Bytes × Bytes)
  decoded (ok pairs) = pairs
  decoded (err e) = []

  -- `metadata_of`; its answer is whether there are any pairs. `none` is a panic.
  unfoldable pub metadata_of : Memory P → ℕ → Option (List (Bytes × Bytes))
  metadata_of m id = elim (fact P m id) [
    | none ↦ some []
    | some r ↦ if is_tombstone r then some [] else elim (P.fact_aux.get (to_be 4 id) m.fact_aux) [
      | none ↦ some []
      | some aux ↦
          if aux.meta == none_id || leb (len m.metas) aux.meta
          then some []
          else Option.map (λ blob. decoded (decode blob)) (get m.metas aux.meta)
    ]
  ]

  -- The outer `none` is a panic.
  unfoldable pub entity_name : Memory P → ℕ → Option (Option Bytes)
  entity_name m id = elim (P.entities.get (to_be 4 id) m.entities) [
    | none ↦ some none
    | some r ↦ Option.map readable (get m.texts r.name)
  ]

  unfoldable pub subject_name : Memory P → ℕ → Option (Option Bytes)
  subject_name m id = if id == none_id then some none else entity_name m id

  unfoldable pub without : Bytes → List Bytes → List Bytes
  without removed [] = []
  without removed (name ∷ names) =
      if same_text name removed then without removed names else name ∷ without removed names

  -- The copy of a fact without a tag, as an input.
  unfoldable pub retagged :
      Memory P → ℕ → ℕ → Bytes → FactRecord → Bytes → Act (Memory P) RememberInput
  retagged m now target removed r text = expect (subject_name m r.entity) >>= λ entity.
      expect (metadata_of m target) >>= λ metadata. give (record {
        now = now;
        text = text;
        entity = entity;
        tags = without removed (map (λ term. P.resolve term m.terms) (tags_of m target));
        links = [];
        vector = none;
        valid_from = some now;
        metadata = if is_nil metadata then none else some metadata;
      })

  unfoldable pub retag_without : ℕ → ℕ → Bytes → Act (Memory P) Unit
  retag_without now target removed m =
      (some_or (fact P m target) (Error.not_found target) >>= λ r.
      expect (get_fact m target) >>= λ view. some_or view (Error.not_found target) >>= λ v.
      retagged m now target removed r v.1 >>= λ input.
      apply_remember P input target (if has_vector r then some r.vector else none) >>= λ outcome.
      close_target P target now)
        m

  unfoldable pub is_current : Memory P → ℕ → Bool
  is_current m id = elim (fact P m id) [
    | none ↦ false
    | some r ↦ if is_tombstone r then false else not (is_closed r)
  ]

  unfoldable pub current_only : Memory P → List ℕ → List ℕ
  current_only m [] = []
  current_only m (id ∷ ids) =
      let rest = current_only m ids in if is_current m id then id ∷ rest else rest

  unfoldable pub retag_all : ℕ → Bytes → List ℕ → ℕ → Act (Memory P) ℕ
  retag_all now tag [] affected = give affected
  retag_all now tag (target ∷ targets) affected = retag_without now target tag >>= λ u.
      retag_all now tag targets (min (affected + 1) (2 ^ 32 - 1))

  -- The number of facts that were replaced.
  unfoldable pub apply_remove_tag : ℕ → Bytes → Act (Memory P) ℕ
  apply_remove_tag now tag m = elim (P.lookup tag m.terms) [
    | none ↦ (m, done 0)
    | some term ↦ retag_all now tag (current_only m (P.ids term m.tags_idx)) 0 m
  ]
