-- ===== src/Journal/RoundTrip.antt =====
-- `Op::decode` reads back what `Op::encode` wrote.
use plugmem.Base.{◌%◌, ◌^◌, ◌≤◌, ◌≡◌, arith}
use plugmem.Base.{[], ◌∷◌, ◌++◌, length, All}
use plugmem.Base.{ok, Bool-cases, inl, inr}
use plugmem.Base.Bytes.{Bytes, IsByte, IsU32, IsU64, to_le}
use plugmem.Errors.{is_none}
use plugmem.Journal.Fields.{put_str, put_entity, put_strs, put_pairs, put_f32s, take_u8}
use plugmem.Journal.Fields.ReadBack.{IsStr, IsEntity, ArePairs}
use plugmem.Journal.Fields.ReadBack.{take_u32-to_le, take_u64-to_le, take_str-put_str}
use plugmem.Journal.Fields.ReadBack.{take_strs-put_strs, take_pairs-put_pairs}
use plugmem.Journal.Fields.ReadBack.{take_vec_f32-put_f32s, take_entity-put_entity}
use plugmem.Journal.Fields.ReadBack.{
  take_u32-to_le_end, take_str-put_str_end, take_pairs-put_pairs_end,
}
use plugmem.Journal.Ops.{
  Remembered, Op, remember, forget, link, maintain, unlink, remove_tag, set_vector_space,
  remember_payload, payload, op_byte, decode_fact, decode_remember, decode_forget, decode_link,
  decode_mode, decode_maintain, decode_unlink, decode_remove_tag, decode_space, decode_body, at_end,
  decode,
}

-- The ranges of the fields' types, and counts that fit the bytes that hold them.
pub record IsRemembered (r : Remembered) : Type 0 where
  pub now : IsU64 r.now
  pub valid_from : IsU64 r.valid_from
  pub entity : IsEntity r.entity
  pub text : IsStr r.text
  pub tags : All IsStr r.tags
  pub tag_count : length r.tags ≤ 255
  pub links : ArePairs r.links
  pub link_count : length r.links ≤ 255
  pub vector : All IsU32 r.vector
  pub vector_short : IsU32 (length r.vector)
  pub metadata : ArePairs r.metadata
  pub metadata_short : IsU32 (length r.metadata)
  pub revises : IsU32 r.revises
  pub assigned : IsU32 r.assigned

abbrev pub IsEncodable : Op → Type 0
IsEncodable (remember r) = IsRemembered r
IsEncodable (forget now fact) = IsU64 now × IsU32 fact
IsEncodable (link now src rel dst provenance) =
    IsU64 now × IsStr src × IsStr rel × IsStr dst × IsU32 provenance
IsEncodable (maintain now mode max_hnsw_inserts) = IsU64 now × IsByte mode × IsU32 max_hnsw_inserts
IsEncodable (unlink now src rel dst) = IsU64 now × IsStr src × IsStr rel × IsStr dst
IsEncodable (remove_tag now tag) = IsU64 now × IsStr tag
IsEncodable (set_vector_space space) = IsStr space

-- The bytes of a remembered fact from its entity on.
abbrev fact_bytes : Remembered → Bytes
fact_bytes r =
    put_entity r.entity
    ++ (put_str r.text
        ++ (length r.tags % 256
            ∷ (put_strs r.tags
                ++ (length r.links % 256
                    ∷ (put_pairs r.links
                        ++ (to_le 4 (length r.vector % 2 ^ 32)
                            ++ (put_f32s r.vector
                                ++ (to_le 4 (length r.metadata % 2 ^ 32)
                                    ++ put_pairs r.metadata))))))))

decode_fact-fact_bytes :
    (r : Remembered)
    → IsRemembered r
    → decode_fact r.now r.valid_from r.revises r.assigned (fact_bytes r) ≡ ok (remember r, [])
unfolding decode_fact take_u8
decode_fact-fact_bytes r h =
    let tags : length r.tags % 256 ≡ length r.tags = omega (arith, h.tag_count) in
    let links : length r.links % 256 ≡ length r.links = omega (arith, h.link_count) in
    let metas : length r.metadata % 2 ^ 32 ≡ length r.metadata = omega (arith, h.metadata_short) in
    rw (take_entity-put_entity r.entity _ h.entity) (
      rw (take_str-put_str r.text _ h.text) (
        rw (tags, take_strs-put_strs r.tags _ h.tags)
          (rw (links, take_pairs-put_pairs r.links _ h.links)
            (rw (take_vec_f32-put_f32s r.vector _ h.vector_short h.vector) (
              rw (metas, take_u32-to_le (length r.metadata) _ h.metadata_short)
                (rw (take_pairs-put_pairs_end r.metadata h.metadata)))))))

decode_remember-payload :
    (r : Remembered)
    → IsRemembered r
    → decode_remember (op_byte (remember r)) (remember_payload r) ≡ ok (remember r, [])
unfolding decode_remember remember_payload op_byte
decode_remember-payload r h = rw (take_u64-to_le r.now _ h.now) (
    rw (take_u64-to_le r.valid_from _ h.valid_from) (
      rw (take_u32-to_le r.revises _ h.revises) (
        rw (take_u32-to_le r.assigned _ h.assigned) (
          rw (decode_fact-fact_bytes r h) (elim (Bool-cases (is_none r.revises)) [
            | inl first ↦ rw first
            | inr later ↦ rw later
          ])))))

decode_body-payload :
    (op : Op) → IsEncodable op → decode_body (op_byte op) (payload op) ≡ ok (op, [])
unfolding decode_body payload op_byte decode_forget decode_link decode_mode decode_maintain
    decode_unlink decode_remove_tag decode_space
decode_body-payload (remember r) h = elim (Bool-cases (is_none r.revises)) [
  | inl first ↦ rw first (rw first at (decode_remember-payload r h))
  | inr later ↦ rw later (rw later at (decode_remember-payload r h))
]
decode_body-payload (forget now fact) h = rw (take_u64-to_le now _ h.0, take_u32-to_le_end fact h.1)
decode_body-payload (link now src rel dst provenance) h = rw (
  take_u64-to_le now _ h.0,
  take_u32-to_le provenance _ h.4,
  take_str-put_str src _ h.1,
  take_str-put_str rel _ h.2,
  take_str-put_str_end dst h.3,
)
decode_body-payload (maintain now mode max_hnsw_inserts) h =
    rw (take_u64-to_le now _ h.0, take_u32-to_le_end max_hnsw_inserts h.2)
decode_body-payload (unlink now src rel dst) h = rw (
  take_u64-to_le now _ h.0,
  take_str-put_str src _ h.1,
  take_str-put_str rel _ h.2,
  take_str-put_str_end dst h.3,
)
decode_body-payload (remove_tag now tag) h =
    rw (take_u64-to_le now _ h.0, take_str-put_str_end tag h.1)
decode_body-payload (set_vector_space space) h = rw (take_str-put_str_end space h)

-- `decode` gives back every operation from the op byte and the payload that `encode` writes, with
-- nothing left over, provided the fields are in the ranges of their types, there are at most 255
-- tags and 255 links, and the other counts and the lengths fit 32 bits.
pub decode-payload : (op : Op) → IsEncodable op → decode (op_byte op) (payload op) ≡ ok op
unfolding decode at_end
decode-payload op h = rw (decode_body-payload op h)
