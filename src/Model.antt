-- ===== src/Model.antt =====
-- crates/plugmem-core/src/model.rs: the records of the data model as slots of fixed size. A slot is written
-- field by field into a buffer of its size; all integers are big-endian.
pub mod Facts
pub mod Entities
pub mod Edges
pub mod Layout
pub mod Codec
pub mod FactCodec
pub mod EntityCodec
pub mod EdgeCodec
pub mod RoundTrip
pub mod Windows
mod Tests
use plugmem.Base.{ℕ, ◌+◌, ◌-◌, ◌^◌, List, [], ◌∷◌, ◌++◌, length, take, drop}
use plugmem.Base.Bytes.{Bytes, to_be, from_be}

abbrev pub valid_to_open : ℕ
valid_to_open = 2 ^ 64 - 1

-- A write of some bytes at an offset of the buffer.
pub record Field : Type 0 where
  pub at : ℕ
  pub bytes : Bytes

-- `key::write_u32(&mut out[at..], v)` and its like at other widths.
abbrev pub u16 : ℕ → ℕ → Field
u16 at v = record { at = at; bytes = to_be 2 v }

abbrev pub u32 : ℕ → ℕ → Field
u32 at v = record { at = at; bytes = to_be 4 v }

abbrev pub u64 : ℕ → ℕ → Field
u64 at v = record { at = at; bytes = to_be 8 v }

unfoldable pub write_field : Field → Bytes → Bytes
write_field f out = take f.at out ++ (f.bytes ++ drop (f.at + length f.bytes) out)

unfoldable pub write_fields : List Field → Bytes → Bytes
write_fields [] out = out
write_fields (f ∷ fs) out = write_fields fs (write_field f out)

-- `key::read_u32(&bytes[at..])` and its like at other widths.
abbrev pub read_be : ℕ → ℕ → Bytes → ℕ
read_be width at bytes = from_be (take width (drop at bytes))
