-- ===== src/Model/EntityCodec.antt =====
-- The slots of `EntityRecord` and `EntityByName`, read back.
use plugmem.Base.{◌≡◌, refl, ◌∙◌}
use plugmem.Base.Bytes.{IsU32, IsU64, to_be, from_be}
use plugmem.Key.RoundTrip.{from_be-to_be}
use plugmem.Model.Entities.{
  EntityRecord, entity_slot, entity_fields, write_entity, read_entity, EntityByName, by_name_slot,
  by_name_fields, write_by_name, read_by_name,
}
use plugmem.Model.Layout.{contents}
use plugmem.Model.Codec.{IsCodec, fields-IsCodec}

pub record IsEntity (r : EntityRecord) : Type 0 where
  pub id : IsU32 r.id
  pub name : IsU32 r.name
  pub name_term : IsU32 r.name_term
  pub created_at : IsU64 r.created_at
  pub flags : IsU32 r.flags

entity_parts :
    (r : EntityRecord)
    → read_entity (contents (entity_fields r)) ≡ record {
      id = from_be (to_be 4 r.id);
      name = from_be (to_be 4 r.name);
      name_term = from_be (to_be 4 r.name_term);
      created_at = from_be (to_be 8 r.created_at);
      flags = from_be (to_be 4 r.flags);
    }
unfolding read_entity entity_fields to_be
entity_parts r = refl

entity_known : (r : EntityRecord) → IsEntity r → read_entity (contents (entity_fields r)) ≡ r
entity_known r v =
    entity_parts r
    ∙ rw
        (
          from_be-to_be 4 r.id v.id,
          from_be-to_be 4 r.name v.name,
          from_be-to_be 4 r.name_term v.name_term,
          from_be-to_be 8 r.created_at v.created_at,
          from_be-to_be 4 r.flags v.flags,
        )
        refl

pub entity_slot-IsCodec : IsCodec entity_slot IsEntity write_entity read_entity
unfolding write_entity entity_fields to_be
entity_slot-IsCodec =
    fields-IsCodec entity_slot IsEntity entity_fields read_entity
      (λ r. (refl, (refl, (refl, (refl, (refl, refl)))))) (λ r. refl) entity_known

pub record IsByName (r : EntityByName) : Type 0 where
  pub name_term : IsU32 r.name_term
  pub id : IsU32 r.id

by_name_parts :
    (r : EntityByName)
    → read_by_name (contents (by_name_fields r))
      ≡ record { name_term = from_be (to_be 4 r.name_term); id = from_be (to_be 4 r.id) }
unfolding read_by_name by_name_fields to_be
by_name_parts r = refl

by_name_known : (r : EntityByName) → IsByName r → read_by_name (contents (by_name_fields r)) ≡ r
by_name_known r v =
    by_name_parts r ∙ rw (from_be-to_be 4 r.name_term v.name_term, from_be-to_be 4 r.id v.id) refl

pub by_name_slot-IsCodec : IsCodec by_name_slot IsByName write_by_name read_by_name
unfolding write_by_name by_name_fields to_be
by_name_slot-IsCodec =
    fields-IsCodec by_name_slot IsByName by_name_fields read_by_name (λ r. (refl, (refl, refl)))
      (λ r. refl) by_name_known
