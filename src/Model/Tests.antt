-- ===== src/Model/Tests.antt =====
-- Layouts of written slots, and the theorem on key windows at a concrete input.
use plugmem.Base.{◌-◌, ◌^◌, ◌≡◌, refl, [], ◌∷◌, ◌++◌, take, drop, true, false}
use plugmem.Base.Bytes.{Bytes, to_be, from_be}
use plugmem.Paged.{replicate}
use plugmem.Model.{write_field, write_fields, valid_to_open}
use plugmem.Model.Facts.{
  FactRecord, write_fact, fact_fields, is_live_at, is_tombstone, is_closed, has_vector, has_flag,
}
use plugmem.Model.Edges.{
  EdgeHistorySlot, write_history, history_fields, read_history, close_edge_history_payload,
  active_at, is_open,
}

abbrev fact : FactRecord
fact = record {
  id = 258;
  entity = 7;
  flags = 4;
  kind = 0;
  text = 9;
  vector = 1;
  revises = 2 ^ 32 - 1;
  recorded_at = 1000;
  valid_from = 900;
  valid_to = 2000;
}

fact_layout :
    take 24 (write_fact fact (replicate 48 7))
    ≡ 0 ∷ 0 ∷ 1 ∷ 2 ∷ 0 ∷ 0 ∷ 0 ∷ 7 ∷ 0 ∷ 4 ∷ 0 ∷ 0 ∷ 0 ∷ 0 ∷ 0 ∷ 9 ∷ 0 ∷ 0 ∷ 0 ∷ 1 ∷ 255 ∷ 255
      ∷ 255 ∷ 255 ∷ []
unfolding write_fact fact_fields write_fields write_field to_be replicate
fact_layout = refl

fact_at_times :
    (is_live_at fact 999 ≡ false) × (is_live_at fact 1000 ≡ true) × (is_live_at fact 2000 ≡ false)
unfolding is_live_at is_tombstone has_flag
fact_at_times = (refl, refl, refl)

fact_flags : (is_closed fact ≡ false) × (has_vector fact ≡ true)
unfolding is_closed has_vector has_flag
fact_flags = (refl, refl)

abbrev version : EdgeHistorySlot
version = record {
  a = 1;
  rel = 2;
  b = 3;
  edge = 4;
  fact = 5;
  flags = 0;
  kind = 0;
  recorded_at = 6;
  valid_from = 7;
  valid_to = valid_to_open;
}

abbrev slot : Bytes
slot = write_history version (replicate 48 0)

closed_version :
    read_history (take 16 slot ++ close_edge_history_payload 77 (drop 16 slot))
    ≡ record version { flags = 1; valid_to = 77 }
unfolding write_history history_fields write_fields write_field to_be from_be replicate read_history
    close_edge_history_payload
closed_version = refl

version_at_times :
    (active_at version 6 ≡ false) × (active_at version 7 ≡ true) × (is_open version ≡ true)
unfolding active_at is_open
version_at_times = (refl, refl, refl)
