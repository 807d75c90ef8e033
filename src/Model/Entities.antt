-- ===== src/Model/Entities.antt =====
-- `EntityRecord`, `EntityByName` and `TemporalSlot`.
use plugmem.Base.{ℕ, List, [], ◌∷◌, Option}
use plugmem.Base.Bytes.{Bytes}
use plugmem.Key.{write_pair, read_pair}
use plugmem.Arena.{Slot}
use plugmem.Model.{Field, u32, u64, write_fields, read_be}
use mathlib.Core.Option

pub record EntityRecord : Type 0 where
  pub id : ℕ
  pub name : ℕ
  pub name_term : ℕ
  pub created_at : ℕ
  pub flags : ℕ

abbrev pub entity_slot : Slot
entity_slot = record { size = 24; key_len = 4 }

unfoldable pub entity_fields : EntityRecord → List Field
entity_fields r =
    u32 0 r.id ∷ u32 4 r.name ∷ u32 8 r.name_term ∷ u64 12 r.created_at ∷ u32 20 r.flags ∷ []

unfoldable pub write_entity : EntityRecord → Bytes → Bytes
write_entity r out = write_fields (entity_fields r) out

unfoldable pub read_entity : Bytes → EntityRecord
read_entity bytes = record {
  id = read_be 4 0 bytes;
  name = read_be 4 4 bytes;
  name_term = read_be 4 8 bytes;
  created_at = read_be 8 12 bytes;
  flags = read_be 4 20 bytes;
}

pub record EntityByName : Type 0 where
  pub name_term : ℕ
  pub id : ℕ

abbrev pub by_name_slot : Slot
by_name_slot = record { size = 8; key_len = 8 }

unfoldable pub by_name_fields : EntityByName → List Field
by_name_fields r = u32 0 r.name_term ∷ u32 4 r.id ∷ []

unfoldable pub write_by_name : EntityByName → Bytes → Bytes
write_by_name r out = write_fields (by_name_fields r) out

unfoldable pub read_by_name : Bytes → EntityByName
read_by_name bytes = record { name_term = read_be 4 0 bytes; id = read_be 4 4 bytes }

pub record TemporalSlot : Type 0 where
  pub recorded_at : ℕ
  pub fact : ℕ

abbrev pub temporal_slot : Slot
temporal_slot = record { size = 12; key_len = 12 }

-- `none` is the panic of a buffer that is too short.
unfoldable pub write_temporal : TemporalSlot → Bytes → Option Bytes
write_temporal r out = write_pair out r.recorded_at r.fact

unfoldable pub read_temporal : Bytes → Option TemporalSlot
read_temporal bytes =
    Option.map (λ pair. record { recorded_at = pair.0; fact = pair.1 }) (read_pair bytes)
