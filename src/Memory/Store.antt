-- ===== src/Memory/Store.antt =====
-- `apply_remember`.
use plugmem.Base.{ℕ, ◌+◌, ◌%◌, ◌^◌, List, [], Option, none, some, Bool}
use plugmem.Base.Bytes.{Bytes}
use plugmem.Errors.{none_id}
use plugmem.Chunks.{empty_list}
use plugmem.Model.{valid_to_open}
use plugmem.Model.Facts.{FactRecord}
use plugmem.Model.Entities.{TemporalSlot}
use plugmem.Memory.{Stores, Memory, Act, done, ◌>>=◌, give, attempt, of_arena}
use plugmem.Memory.Inputs.{RememberInput, RememberOutcome, unwrap_or}
use plugmem.Memory.Entities.{resolve_or_create_entity, push_text}
use plugmem.Memory.Facts.{
  index_terms, index_doc, store_metadata, store_tags, insert_aux, link_fact, store_vector,
  change_all,
}

module _ (P : Stores) where
  unfoldable pub resolve_subject : Option Bytes → ℕ → Act (Memory P) (Option ℕ)
  resolve_subject none now = give none
  resolve_subject (some name) now = resolve_or_create_entity P name now >>= λ id. give (some id)

  unfoldable pub insert_fact : FactRecord → Act (Memory P) Bool
  insert_fact r m =
      let made = P.facts.insert r m.facts in attempt (of_arena made.1) (record m { facts = made.0 })

  unfoldable pub insert_temporal : TemporalSlot → Act (Memory P) Bool
  insert_temporal r m =
      let made = P.temporal.insert r m.temporal in
      attempt (of_arena made.1) (record m { temporal = made.0 })

  unfoldable pub count_tags : List ℕ → Act (Memory P) Unit
  count_tags seen m =
      (record m { tag_catalog = change_all P P.count_up m.terms seen m.tag_catalog }, done tt)

  unfoldable pub take_fact_id : Act (Memory P) Unit
  take_fact_id m = (record m { next_fact = (m.next_fact + 1) % 2 ^ 32 }, done tt)

  -- The record of a fact that is stored.
  abbrev pub new_fact : RememberInput → ℕ → ℕ → Option ℕ → ℕ → ℕ × ℕ → FactRecord
  new_fact input revises id entity text_id vector = record {
    id = id;
    entity = unwrap_or entity none_id;
    flags = vector.1;
    kind = 0;
    text = text_id;
    vector = vector.0;
    revises = revises;
    recorded_at = input.now;
    valid_from = unwrap_or input.valid_from input.now;
    valid_to = valid_to_open;
  }

  -- The text, its terms, the metadata, the tags, the links and the vector, and the record itself in the end.
  unfoldable pub store_fact : RememberInput → ℕ → Option ℕ → ℕ → Option ℕ → Act (Memory P) Unit
  store_fact input revises copy_vector id entity = do
    text_id ← push_text P input.text
    tfs ← index_terms P (P.tokens input.text) []
    u ← index_doc P id tfs
    meta ← store_metadata P input.metadata
    stored ← store_tags P id input.tags empty_list []
    aux ← insert_aux P (record { id = id; tags = stored.0; meta = meta })
    linked ← link_fact P input.now entity id input.links
    vector ← store_vector P id input.vector copy_vector
    fresh ← insert_fact (new_fact input revises id entity text_id vector)
    timed ← insert_temporal (record { recorded_at = input.now; fact = id })
    counted ← count_tags stored.1
    take_fact_id

  unfoldable pub apply_remember : RememberInput → ℕ → Option ℕ → Act (Memory P) RememberOutcome
  apply_remember input revises copy_vector m =
      (resolve_subject input.entity input.now >>= λ entity.
      store_fact input revises copy_vector m.next_fact entity >>= λ u.
      give (record { id = m.next_fact; entity = entity }))
        m
