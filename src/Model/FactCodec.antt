-- ===== src/Model/FactCodec.antt =====
-- The slots of `FactRecord` and `FactAux`, read back.
use plugmem.Base.{◌≡◌, refl, ◌∙◌}
use plugmem.Base.Bytes.{IsU32, IsU64, to_be, from_be}
use plugmem.Key.RoundTrip.{from_be-to_be}
use plugmem.Chunks.{to_bytes, from_bytes}
use plugmem.Model.Facts.{
  FactRecord, fact_slot, fact_fields, write_fact, read_fact, FactAux, aux_slot, aux_fields,
  write_aux, read_aux,
}
use plugmem.Model.Layout.{contents}
use plugmem.Model.Codec.{IsCodec, IsU16, fields-IsCodec}

pub record IsFact (r : FactRecord) : Type 0 where
  pub id : IsU32 r.id
  pub entity : IsU32 r.entity
  pub flags : IsU16 r.flags
  pub kind : IsU16 r.kind
  pub text : IsU32 r.text
  pub vector : IsU32 r.vector
  pub revises : IsU32 r.revises
  pub recorded_at : IsU64 r.recorded_at
  pub valid_from : IsU64 r.valid_from
  pub valid_to : IsU64 r.valid_to

fact_parts :
    (r : FactRecord)
    → read_fact (contents (fact_fields r)) ≡ record {
      id = from_be (to_be 4 r.id);
      entity = from_be (to_be 4 r.entity);
      flags = from_be (to_be 2 r.flags);
      kind = from_be (to_be 2 r.kind);
      text = from_be (to_be 4 r.text);
      vector = from_be (to_be 4 r.vector);
      revises = from_be (to_be 4 r.revises);
      recorded_at = from_be (to_be 8 r.recorded_at);
      valid_from = from_be (to_be 8 r.valid_from);
      valid_to = from_be (to_be 8 r.valid_to);
    }
unfolding read_fact fact_fields to_be
fact_parts r = refl

fact_known : (r : FactRecord) → IsFact r → read_fact (contents (fact_fields r)) ≡ r
fact_known r v =
    fact_parts r
    ∙ rw
        (
          from_be-to_be 4 r.id v.id,
          from_be-to_be 4 r.entity v.entity,
          from_be-to_be 2 r.flags v.flags,
          from_be-to_be 2 r.kind v.kind,
          from_be-to_be 4 r.text v.text,
          from_be-to_be 4 r.vector v.vector,
          from_be-to_be 4 r.revises v.revises,
          from_be-to_be 8 r.recorded_at v.recorded_at,
          from_be-to_be 8 r.valid_from v.valid_from,
          from_be-to_be 8 r.valid_to v.valid_to,
        )
        refl

pub fact_slot-IsCodec : IsCodec fact_slot IsFact write_fact read_fact
unfolding write_fact fact_fields to_be
fact_slot-IsCodec =
    fields-IsCodec fact_slot IsFact fact_fields read_fact
      (λ r. (refl, (refl, (refl, (refl, (refl, (refl, (refl, (refl, (refl, (refl, refl)))))))))))
      (λ r. refl) fact_known

pub record IsAux (r : FactAux) : Type 0 where
  pub id : IsU32 r.id
  pub head : IsU32 r.tags.head
  pub tail : IsU32 r.tags.tail
  pub len : IsU32 r.tags.len
  pub meta : IsU32 r.meta

aux_parts :
    (r : FactAux)
    → read_aux (contents (aux_fields r)) ≡ record {
      id = from_be (to_be 4 r.id);
      tags = record {
        head = from_be (to_be 4 r.tags.head);
        tail = from_be (to_be 4 r.tags.tail);
        len = from_be (to_be 4 r.tags.len);
      };
      meta = from_be (to_be 4 r.meta);
    }
unfolding read_aux aux_fields to_be to_bytes from_bytes
aux_parts r = refl

aux_known : (r : FactAux) → IsAux r → read_aux (contents (aux_fields r)) ≡ r
aux_known r v =
    aux_parts r
    ∙ rw
        (
          from_be-to_be 4 r.id v.id,
          from_be-to_be 4 r.tags.head v.head,
          from_be-to_be 4 r.tags.tail v.tail,
          from_be-to_be 4 r.tags.len v.len,
          from_be-to_be 4 r.meta v.meta,
        )
        refl

pub aux_slot-IsCodec : IsCodec aux_slot IsAux write_aux read_aux
unfolding write_aux aux_fields to_be to_bytes
aux_slot-IsCodec =
    fields-IsCodec aux_slot IsAux aux_fields read_aux (λ r. (refl, (refl, (refl, refl))))
      (λ r. refl) aux_known
