-- ===== src/Model/EdgeCodec.antt =====
-- The slots of `EdgeSlot` and `EdgeHistorySlot`, read back.
use plugmem.Base.{◌≡◌, refl, ◌∙◌}
use plugmem.Base.Bytes.{IsU32, IsU64, to_be, from_be}
use plugmem.Key.RoundTrip.{from_be-to_be}
use plugmem.Model.Edges.{
  EdgeSlot, edge_slot, edge_fields, write_edge, read_edge, EdgeHistorySlot, history_slot,
  history_fields, write_history, read_history,
}
use plugmem.Model.Layout.{contents}
use plugmem.Model.Codec.{IsCodec, IsU16, fields-IsCodec}

pub record IsEdge (r : EdgeSlot) : Type 0 where
  pub a : IsU32 r.a
  pub rel : IsU32 r.rel
  pub b : IsU32 r.b
  pub fact : IsU32 r.fact
  pub edge : IsU32 r.edge
  pub valid_from : IsU64 r.valid_from

edge_parts :
    (r : EdgeSlot)
    → read_edge (contents (edge_fields r)) ≡ record {
      a = from_be (to_be 4 r.a);
      rel = from_be (to_be 4 r.rel);
      b = from_be (to_be 4 r.b);
      fact = from_be (to_be 4 r.fact);
      edge = from_be (to_be 4 r.edge);
      valid_from = from_be (to_be 8 r.valid_from);
    }
unfolding read_edge edge_fields to_be
edge_parts r = refl

edge_known : (r : EdgeSlot) → IsEdge r → read_edge (contents (edge_fields r)) ≡ r
edge_known r v =
    edge_parts r
    ∙ rw
        (
          from_be-to_be 4 r.a v.a,
          from_be-to_be 4 r.rel v.rel,
          from_be-to_be 4 r.b v.b,
          from_be-to_be 4 r.fact v.fact,
          from_be-to_be 4 r.edge v.edge,
          from_be-to_be 8 r.valid_from v.valid_from,
        )
        refl

pub edge_slot-IsCodec : IsCodec edge_slot IsEdge write_edge read_edge
unfolding write_edge edge_fields to_be
edge_slot-IsCodec =
    fields-IsCodec edge_slot IsEdge edge_fields read_edge
      (λ r. (refl, (refl, (refl, (refl, (refl, (refl, refl))))))) (λ r. refl) edge_known

pub record IsHistory (r : EdgeHistorySlot) : Type 0 where
  pub a : IsU32 r.a
  pub rel : IsU32 r.rel
  pub b : IsU32 r.b
  pub edge : IsU32 r.edge
  pub fact : IsU32 r.fact
  pub flags : IsU16 r.flags
  pub kind : IsU16 r.kind
  pub recorded_at : IsU64 r.recorded_at
  pub valid_from : IsU64 r.valid_from
  pub valid_to : IsU64 r.valid_to

history_parts :
    (r : EdgeHistorySlot)
    → read_history (contents (history_fields r)) ≡ record {
      a = from_be (to_be 4 r.a);
      rel = from_be (to_be 4 r.rel);
      b = from_be (to_be 4 r.b);
      edge = from_be (to_be 4 r.edge);
      fact = from_be (to_be 4 r.fact);
      flags = from_be (to_be 2 r.flags);
      kind = from_be (to_be 2 r.kind);
      recorded_at = from_be (to_be 8 r.recorded_at);
      valid_from = from_be (to_be 8 r.valid_from);
      valid_to = from_be (to_be 8 r.valid_to);
    }
unfolding read_history history_fields to_be
history_parts r = refl

history_known : (r : EdgeHistorySlot) → IsHistory r → read_history (contents (history_fields r)) ≡ r
history_known r v =
    history_parts r
    ∙ rw
        (
          from_be-to_be 4 r.a v.a,
          from_be-to_be 4 r.rel v.rel,
          from_be-to_be 4 r.b v.b,
          from_be-to_be 4 r.edge v.edge,
          from_be-to_be 4 r.fact v.fact,
          from_be-to_be 2 r.flags v.flags,
          from_be-to_be 2 r.kind v.kind,
          from_be-to_be 8 r.recorded_at v.recorded_at,
          from_be-to_be 8 r.valid_from v.valid_from,
          from_be-to_be 8 r.valid_to v.valid_to,
        )
        refl

pub history_slot-IsCodec : IsCodec history_slot IsHistory write_history read_history
unfolding write_history history_fields to_be
history_slot-IsCodec =
    fields-IsCodec history_slot IsHistory history_fields read_history
      (λ r. (refl, (refl, (refl, (refl, (refl, (refl, (refl, (refl, (refl, (refl, refl)))))))))))
      (λ r. refl) history_known
