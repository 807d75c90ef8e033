-- ===== src/Model/Facts.antt =====
-- `FactRecord` with its flags, and `FactAux`.
use plugmem.Base.{ℕ, bit_and, List, [], ◌∷◌, take, drop, Bool, not, ◌&&◌, ltb, leb, ◌==◌}
use plugmem.Base.Bytes.{Bytes}
use plugmem.Chunks.{ListHandle, to_bytes, from_bytes}
use plugmem.Arena.{Slot}
use plugmem.Model.{Field, u16, u32, u64, write_fields, read_be}

abbrev pub tombstone_flag : ℕ
tombstone_flag = 1

abbrev pub closed_flag : ℕ
closed_flag = 2

abbrev pub has_vector_flag : ℕ
has_vector_flag = 4

-- `flags & flag != 0`
unfoldable pub has_flag : ℕ → ℕ → Bool
has_flag flags flag = not (bit_and flags flag == 0)

pub record FactRecord : Type 0 where
  pub id : ℕ
  pub entity : ℕ
  pub flags : ℕ
  pub kind : ℕ
  pub text : ℕ
  pub vector : ℕ
  pub revises : ℕ
  pub recorded_at : ℕ
  pub valid_from : ℕ
  pub valid_to : ℕ

unfoldable pub is_tombstone : FactRecord → Bool
is_tombstone r = has_flag r.flags tombstone_flag

unfoldable pub is_closed : FactRecord → Bool
is_closed r = has_flag r.flags closed_flag

unfoldable pub has_vector : FactRecord → Bool
has_vector r = has_flag r.flags has_vector_flag

unfoldable pub is_live_at : FactRecord → ℕ → Bool
is_live_at r t =
    not (is_tombstone r) && (leb r.recorded_at t && (leb r.valid_from t && ltb t r.valid_to))

abbrev pub fact_slot : Slot
fact_slot = record { size = 48; key_len = 4 }

unfoldable pub fact_fields : FactRecord → List Field
fact_fields r =
    u32 0 r.id
    ∷ u32 4 r.entity
    ∷ u16 8 r.flags
    ∷ u16 10 r.kind
    ∷ u32 12 r.text
    ∷ u32 16 r.vector
    ∷ u32 20 r.revises
    ∷ u64 24 r.recorded_at
    ∷ u64 32 r.valid_from
    ∷ u64 40 r.valid_to
    ∷ []

unfoldable pub write_fact : FactRecord → Bytes → Bytes
write_fact r out = write_fields (fact_fields r) out

unfoldable pub read_fact : Bytes → FactRecord
read_fact bytes = record {
  id = read_be 4 0 bytes;
  entity = read_be 4 4 bytes;
  flags = read_be 2 8 bytes;
  kind = read_be 2 10 bytes;
  text = read_be 4 12 bytes;
  vector = read_be 4 16 bytes;
  revises = read_be 4 20 bytes;
  recorded_at = read_be 8 24 bytes;
  valid_from = read_be 8 32 bytes;
  valid_to = read_be 8 40 bytes;
}

pub record FactAux : Type 0 where
  pub id : ℕ
  pub tags : ListHandle
  pub meta : ℕ

abbrev pub aux_slot : Slot
aux_slot = record { size = 20; key_len = 4 }

unfoldable pub aux_fields : FactAux → List Field
aux_fields r = u32 0 r.id ∷ record { at = 4; bytes = to_bytes r.tags } ∷ u32 16 r.meta ∷ []

unfoldable pub write_aux : FactAux → Bytes → Bytes
write_aux r out = write_fields (aux_fields r) out

unfoldable pub read_aux : Bytes → FactAux
read_aux bytes = record {
  id = read_be 4 0 bytes;
  tags = from_bytes (take 12 (drop 4 bytes));
  meta = read_be 4 16 bytes;
}
