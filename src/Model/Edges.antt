-- ===== src/Model/Edges.antt =====
-- `EdgeSlot`, `EdgeHistorySlot`, their keys, and the payload write that closes a version.
use plugmem.Base.{
  ℕ, ◌+◌, ◌-◌, ◌^◌, bit_or, List, [], ◌∷◌, Bool, ◌&&◌, ltb, leb, ◌==◌, if◌then◌else◌,
}
use plugmem.Base.Bytes.{Bytes}
use plugmem.Arena.{Slot}
use plugmem.Paged.{replicate}
use plugmem.Model.{Field, u16, u32, u64, write_fields, read_be, valid_to_open}

pub record EdgeSlot : Type 0 where
  pub a : ℕ
  pub rel : ℕ
  pub b : ℕ
  pub fact : ℕ
  pub edge : ℕ
  pub valid_from : ℕ

abbrev pub edge_slot : Slot
edge_slot = record { size = 28; key_len = 12 }

unfoldable pub edge_fields : EdgeSlot → List Field
edge_fields r =
    u32 0 r.a ∷ u32 4 r.rel ∷ u32 8 r.b ∷ u32 12 r.fact ∷ u32 16 r.edge ∷ u64 20 r.valid_from ∷ []

unfoldable pub write_edge : EdgeSlot → Bytes → Bytes
write_edge r out = write_fields (edge_fields r) out

unfoldable pub read_edge : Bytes → EdgeSlot
read_edge bytes = record {
  a = read_be 4 0 bytes;
  rel = read_be 4 4 bytes;
  b = read_be 4 8 bytes;
  fact = read_be 4 12 bytes;
  edge = read_be 4 16 bytes;
  valid_from = read_be 8 20 bytes;
}

unfoldable pub edge_key : ℕ → ℕ → ℕ → Bytes
edge_key a rel b = write_fields (u32 0 a ∷ u32 4 rel ∷ u32 8 b ∷ []) (replicate 12 0)

-- `saturating_add(1)` at a width of `w` bits.
unfoldable pub saturating_next : ℕ → ℕ → ℕ
saturating_next w v = if v + 1 == 2 ^ w then v else v + 1

unfoldable pub edge_floor : ℕ → Bytes
edge_floor a = edge_key a 0 0

unfoldable pub edge_end : ℕ → Bytes
edge_end a = edge_key (saturating_next 32 a) 0 0

pub record EdgeHistorySlot : Type 0 where
  pub a : ℕ
  pub rel : ℕ
  pub b : ℕ
  pub edge : ℕ
  pub fact : ℕ
  pub flags : ℕ
  pub kind : ℕ
  pub recorded_at : ℕ
  pub valid_from : ℕ
  pub valid_to : ℕ

unfoldable pub active_at : EdgeHistorySlot → ℕ → Bool
active_at r t = leb r.valid_from t && ltb t r.valid_to

unfoldable pub is_open : EdgeHistorySlot → Bool
is_open r = r.valid_to == valid_to_open

abbrev pub history_slot : Slot
history_slot = record { size = 48; key_len = 16 }

unfoldable pub history_fields : EdgeHistorySlot → List Field
history_fields r =
    u32 0 r.a
    ∷ u64 4 r.valid_from
    ∷ u32 12 r.edge
    ∷ u32 16 r.rel
    ∷ u32 20 r.b
    ∷ u32 24 r.fact
    ∷ u16 28 r.flags
    ∷ u16 30 r.kind
    ∷ u64 32 r.recorded_at
    ∷ u64 40 r.valid_to
    ∷ []

unfoldable pub write_history : EdgeHistorySlot → Bytes → Bytes
write_history r out = write_fields (history_fields r) out

unfoldable pub read_history : Bytes → EdgeHistorySlot
read_history bytes = record {
  a = read_be 4 0 bytes;
  rel = read_be 4 16 bytes;
  b = read_be 4 20 bytes;
  edge = read_be 4 12 bytes;
  fact = read_be 4 24 bytes;
  flags = read_be 2 28 bytes;
  kind = read_be 2 30 bytes;
  recorded_at = read_be 8 32 bytes;
  valid_from = read_be 8 4 bytes;
  valid_to = read_be 8 40 bytes;
}

unfoldable pub edge_history_key : ℕ → ℕ → ℕ → Bytes
edge_history_key a valid_from edge =
    write_fields (u32 0 a ∷ u64 4 valid_from ∷ u32 12 edge ∷ []) (replicate 16 0)

unfoldable pub edge_history_floor : ℕ → Bytes
edge_history_floor a = edge_history_key a 0 0

unfoldable pub edge_history_ceiling : ℕ → ℕ → Bytes
edge_history_ceiling a as_of = edge_history_key a (saturating_next 64 as_of) 0

abbrev pub edge_closed_flag : ℕ
edge_closed_flag = 1

-- The payload stands behind the sixteen bytes of the key.
unfoldable pub close_edge_history_payload : ℕ → Bytes → Bytes
close_edge_history_payload valid_to payload =
    write_fields
      (u16 (28 - 16) (bit_or (read_be 2 (28 - 16) payload) edge_closed_flag)
        ∷ u64 (40 - 16) valid_to
        ∷ [])
      payload
