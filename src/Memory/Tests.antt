-- ===== src/Memory/Tests.antt =====
-- Concrete runs of the verbs on stores that are lists, and the theorem on a session's journal at one of them.
use plugmem.Base.{
  ℕ, zero, suc, ◌+◌, ◌-◌, ◌^◌, ◌≡◌, ◌≢◌, refl, arith, List, [], ◌∷◌, ◌++◌, length, take, All,
  Option, none, some, true, false, not, ok, err,
}
use plugmem.Base.Bytes.{Bytes}
use plugmem.Base.{sym, ap, ◌<◌, Result, String}
use plugmem.Base.Bytes.{IsU32, to_le}
use plugmem.Base.Utf8.{is_utf8}
use plugmem.Errors.{none_id}
use plugmem.Journal.Fields.{put_str, put_strs, put_entity, put_pairs, put_f32s}
use plugmem.Journal.Fields.ReadBack.{IsStr}
use plugmem.Journal.Ops.{Op, op_byte, payload, remember_payload}
use plugmem.Journal.RoundTrip.{IsRemembered}
use plugmem.Journal.Frames.{frame, body_checksum}
use plugmem.Journal.Recovery.{IsWritable}
use plugmem.Memory.{Memory, Act, done}
use plugmem.Memory.Inputs.{RememberInput}
use plugmem.Memory.Verbs.{
  Db, recorded, remember, revise, forget, unlink, remove_tag, claim_vector_space,
}
use plugmem.Memory.Replay.{replay}
use plugmem.Memory.Inversion.{Gives}
use plugmem.Memory.Session.{Session, ends, step, pass, remembers, forgets, binds, bound_already}
use plugmem.Memory.Reopen.{IsStorage, replay-Session}
use plugmem.Memory.Examples.{lists, file, empty_memory}

abbrev sum_hash : Bytes → ℕ
sum_hash [] = 1
sum_hash (b ∷ bs) = b + sum_hash bs

abbrev abc : Bytes
abc = b'a' ∷ b'b' ∷ b'c' ∷ []

abbrev note : RememberInput
note = record {
  now = 1000;
  text = abc;
  entity = some abc;
  tags = abc ∷ [];
  links = (abc, abc) ∷ [];
  vector = some (1 ∷ 2 ∷ []);
  valid_from = none;
  metadata = some ((abc, abc) ∷ []);
}

abbrev start : Db sum_hash lists file
start = (empty_memory, [])

-- The states of a session: the first call binds the vector space, the second has nothing to record.
abbrev bound : Db sum_hash lists file
bound = (claim_vector_space sum_hash lists file abc start).0

abbrev noted : Db sum_hash lists file
noted = (remember sum_hash lists file note bound).0

abbrev forgotten : Db sum_hash lists file
forgotten = (forget sum_hash lists file 3000 0 noted).0

bound_run : Gives (claim_vector_space sum_hash lists file abc) start bound true
unfolding plugmem.Base.Bytes.to_le plugmem.Memory.Inputs.any_control
    plugmem.Memory.Inputs.validate_vector_space plugmem.Memory.Inputs.check_claim
    plugmem.Memory.Inputs.check_vector_space_claim plugmem.Memory.Inputs.set_vector_space
    plugmem.Memory.Verbs.append plugmem.Memory.Verbs.journal plugmem.Memory.Verbs.claim_vector_space
    plugmem.Journal.Frames.encode_entry plugmem.Journal.Frames.encode plugmem.Journal.Ops.payload
    plugmem.Journal.Fields.put_str
bound_run = refl

bound_again : Gives (claim_vector_space sum_hash lists file abc) bound bound false
unfolding plugmem.Base.Bytes.to_le plugmem.Base.Order.cmp_bytes plugmem.Memory.Inputs.same_text
    plugmem.Memory.Inputs.any_control plugmem.Memory.Inputs.validate_vector_space
    plugmem.Memory.Inputs.check_claim plugmem.Memory.Inputs.check_vector_space_claim
    plugmem.Memory.Inputs.set_vector_space plugmem.Memory.Verbs.append plugmem.Memory.Verbs.journal
    plugmem.Memory.Verbs.claim_vector_space plugmem.Journal.Frames.encode_entry
    plugmem.Journal.Frames.encode plugmem.Journal.Ops.payload plugmem.Journal.Fields.put_str
bound_again = refl

noted_run :
    Gives (remember sum_hash lists file note) bound noted (record { id = 0; entity = some 0 })
unfolding plugmem.Base.Bytes.to_le plugmem.Base.Bytes.to_be plugmem.Blob.pool_len
    plugmem.Blob.blob_id plugmem.Blob.checked_add plugmem.Blob.push plugmem.Metadata.insert
    plugmem.Metadata.sort plugmem.Metadata.has_duplicate plugmem.Metadata.put_str
    plugmem.Metadata.put_each plugmem.Metadata.encode plugmem.Model.write_field
    plugmem.Model.write_fields plugmem.Model.Entities.by_name_fields
    plugmem.Model.Entities.write_by_name plugmem.Memory.Inputs.any_nil
    plugmem.Memory.Inputs.same_text plugmem.Memory.Inputs.check_vector
    plugmem.Memory.Inputs.validate plugmem.Memory.Inputs.any_control
    plugmem.Memory.Inputs.validate_vector_space plugmem.Memory.Inputs.validate_input
    plugmem.Memory.Inputs.check_claim plugmem.Memory.Inputs.check_vector_space_claim
    plugmem.Memory.Inputs.set_vector_space plugmem.Memory.Entities.join
    plugmem.Memory.Entities.normalize_name plugmem.Memory.Entities.lookup_entity_by_norm
    plugmem.Memory.Entities.intern_term plugmem.Memory.Entities.push_text
    plugmem.Memory.Entities.insert_entity plugmem.Memory.Entities.insert_name
    plugmem.Memory.Entities.take_entity_id plugmem.Memory.Entities.create_entity
    plugmem.Memory.Entities.resolve_or_create_entity plugmem.Memory.Edges.current_edge
    plugmem.Memory.Edges.insert_out plugmem.Memory.Edges.insert_in plugmem.Memory.Edges.put_out
    plugmem.Memory.Edges.put_in plugmem.Memory.Edges.insert_current_edge
    plugmem.Memory.Edges.insert_hist_out plugmem.Memory.Edges.insert_hist_in
    plugmem.Memory.Edges.insert_history_edge plugmem.Memory.Edges.take_edge_id
    plugmem.Memory.Edges.add_edge plugmem.Memory.Edges.open_edge plugmem.Memory.Facts.contains
    plugmem.Memory.Facts.index_terms plugmem.Memory.Facts.index_doc plugmem.Memory.Facts.push_meta
    plugmem.Memory.Facts.store_metadata plugmem.Memory.Facts.push_tag plugmem.Memory.Facts.post_tag
    plugmem.Memory.Facts.store_tags plugmem.Memory.Facts.insert_aux plugmem.Memory.Facts.open_links
    plugmem.Memory.Facts.post_entity plugmem.Memory.Facts.link_fact plugmem.Memory.Facts.push_vector
    plugmem.Memory.Facts.store_vector plugmem.Memory.Store.resolve_subject
    plugmem.Memory.Store.insert_fact plugmem.Memory.Store.insert_temporal
    plugmem.Memory.Store.count_tags plugmem.Memory.Store.take_fact_id
    plugmem.Memory.Store.store_fact plugmem.Memory.Store.apply_remember plugmem.Memory.Verbs.append
    plugmem.Memory.Verbs.journal plugmem.Memory.Verbs.journal_remember
    plugmem.Memory.Verbs.claim_vector_space plugmem.Memory.Verbs.remember_valid
    plugmem.Memory.Verbs.remember plugmem.Memory.Examples.at_most plugmem.Memory.Examples.find
    plugmem.Memory.Examples.add plugmem.Memory.Examples.position plugmem.Memory.Examples.intern
    plugmem.Journal.Frames.encode_entry plugmem.Journal.Frames.encode plugmem.Journal.Ops.payload
    plugmem.Journal.Fields.put_str plugmem.Journal.Fields.put_entity plugmem.Journal.Fields.put_strs
    plugmem.Journal.Fields.put_pairs plugmem.Journal.Fields.put_f32s mathlib.Core.Option.bind
noted_run = refl

forgotten_run : Gives (forget sum_hash lists file 3000 0) noted forgotten true
unfolding plugmem.Base.Bytes.to_le plugmem.Base.Bytes.to_be plugmem.Base.Bytes.from_be
    plugmem.Blob.pool_len plugmem.Blob.blob_id plugmem.Blob.checked_add plugmem.Blob.push
    plugmem.Metadata.insert plugmem.Metadata.sort plugmem.Metadata.has_duplicate
    plugmem.Metadata.put_str plugmem.Metadata.put_each plugmem.Metadata.encode
    plugmem.Model.write_field plugmem.Model.write_fields plugmem.Model.Facts.has_flag
    plugmem.Model.Facts.is_tombstone plugmem.Model.Facts.fact_fields plugmem.Model.Facts.write_fact
    plugmem.Model.Facts.read_fact plugmem.Model.Entities.by_name_fields
    plugmem.Model.Entities.write_by_name plugmem.Memory.Inputs.any_nil
    plugmem.Memory.Inputs.same_text plugmem.Memory.Inputs.check_vector
    plugmem.Memory.Inputs.validate plugmem.Memory.Inputs.any_control
    plugmem.Memory.Inputs.validate_vector_space plugmem.Memory.Inputs.validate_input
    plugmem.Memory.Inputs.check_claim plugmem.Memory.Inputs.check_vector_space_claim
    plugmem.Memory.Inputs.set_vector_space plugmem.Memory.Entities.join
    plugmem.Memory.Entities.normalize_name plugmem.Memory.Entities.lookup_entity_by_norm
    plugmem.Memory.Entities.intern_term plugmem.Memory.Entities.push_text
    plugmem.Memory.Entities.insert_entity plugmem.Memory.Entities.insert_name
    plugmem.Memory.Entities.take_entity_id plugmem.Memory.Entities.create_entity
    plugmem.Memory.Entities.resolve_or_create_entity plugmem.Memory.Edges.current_edge
    plugmem.Memory.Edges.insert_out plugmem.Memory.Edges.insert_in plugmem.Memory.Edges.put_out
    plugmem.Memory.Edges.put_in plugmem.Memory.Edges.insert_current_edge
    plugmem.Memory.Edges.insert_hist_out plugmem.Memory.Edges.insert_hist_in
    plugmem.Memory.Edges.insert_history_edge plugmem.Memory.Edges.take_edge_id
    plugmem.Memory.Edges.add_edge plugmem.Memory.Edges.open_edge plugmem.Memory.Facts.contains
    plugmem.Memory.Facts.fact plugmem.Memory.Facts.mark_forgotten plugmem.Memory.Facts.apply_forget
    plugmem.Memory.Facts.index_terms plugmem.Memory.Facts.index_doc plugmem.Memory.Facts.push_meta
    plugmem.Memory.Facts.store_metadata plugmem.Memory.Facts.push_tag plugmem.Memory.Facts.post_tag
    plugmem.Memory.Facts.store_tags plugmem.Memory.Facts.insert_aux plugmem.Memory.Facts.open_links
    plugmem.Memory.Facts.post_entity plugmem.Memory.Facts.link_fact plugmem.Memory.Facts.push_vector
    plugmem.Memory.Facts.store_vector plugmem.Memory.Store.resolve_subject
    plugmem.Memory.Store.insert_fact plugmem.Memory.Store.insert_temporal
    plugmem.Memory.Store.count_tags plugmem.Memory.Store.take_fact_id
    plugmem.Memory.Store.store_fact plugmem.Memory.Store.apply_remember plugmem.Memory.Verbs.append
    plugmem.Memory.Verbs.journal plugmem.Memory.Verbs.journal_remember
    plugmem.Memory.Verbs.claim_vector_space plugmem.Memory.Verbs.remember_valid
    plugmem.Memory.Verbs.remember plugmem.Memory.Verbs.forget plugmem.Memory.Examples.at_most
    plugmem.Memory.Examples.find plugmem.Memory.Examples.change plugmem.Memory.Examples.add
    plugmem.Memory.Examples.position plugmem.Memory.Examples.intern
    plugmem.Journal.Frames.encode_entry plugmem.Journal.Frames.encode plugmem.Journal.Ops.payload
    plugmem.Journal.Fields.put_str plugmem.Journal.Fields.put_entity plugmem.Journal.Fields.put_strs
    plugmem.Journal.Fields.put_pairs plugmem.Journal.Fields.put_f32s mathlib.Core.Option.bind
forgotten_run = refl

abbrev ops : List Op
ops = Op.set_vector_space abc ∷ Op.remember (recorded note none_id 0) ∷ Op.forget 3000 0 ∷ []

session : Session sum_hash lists file start ops forgotten
session = step (binds abc bound_run) (
    pass (bound_already abc bound_again) (
      step (remembers note (record { id = 0; entity = some 0 }) noted_run)
        (step (forgets 3000 0 true forgotten_run) ends)))

file-IsStorage : IsStorage file (λ st. st)
file-IsStorage = record {
  appends = λ bytes st st' h. ap (λ (x : Bytes × Result String Unit). x.0) (sym h);
}

abc-IsStr : IsStr abc
unfolding is_utf8
abc-IsStr = record { utf8 = refl; short = omega arith }

note-IsRemembered : IsRemembered (recorded note none_id 0)
note-IsRemembered = record {
  now = omega arith;
  valid_from = omega arith;
  revises = omega arith;
  assigned = omega arith;
  entity = abc-IsStr;
  text = abc-IsStr;
  tags = (abc-IsStr, tt);
  tag_count = omega arith;
  links = (abc-IsStr, abc-IsStr, tt);
  link_count = omega arith;
  vector = (omega arith, (omega arith, tt));
  vector_short = omega arith;
  metadata = (abc-IsStr, abc-IsStr, tt);
  metadata_short = omega arith;
}

ops-IsWritable : All IsWritable ops
unfolding payload remember_payload put_str put_entity put_strs put_pairs put_f32s to_le
ops-IsWritable = (
  record { encodable = abc-IsStr; short = omega arith },
  (
    record { encodable = note-IsRemembered; short = omega arith },
    (record { encodable = (omega arith, omega arith); short = omega arith }, tt),
  ),
)

forget-IsWritable : IsWritable (Op.forget 6000 1)
unfolding payload to_le
forget-IsWritable = record { encodable = (omega arith, omega arith); short = omega arith }

short_of_frame :
    7 < length (frame sum_hash (op_byte (Op.forget 6000 1)) (payload (Op.forget 6000 1)))
unfolding frame payload op_byte body_checksum to_le
short_of_frame = omega arith

abbrev no_maintenance : ℕ → ℕ → Act (Memory lists) Unit
no_maintenance mode max_hnsw_inserts m = (m, done tt)

replay-Session_example :
    replay lists no_maintenance sum_hash
      (forgotten.1
        ++ take 7 (frame sum_hash (op_byte (Op.forget 6000 1)) (payload (Op.forget 6000 1))))
      empty_memory
    ≡ (forgotten.0, done (record { replayed = 3; skipped = 0; truncated_tail = true }))
replay-Session_example =
    replay-Session sum_hash lists file no_maintenance (λ st. st) (Op.forget 6000 1) 7 file-IsStorage
      refl ops-IsWritable forget-IsWritable short_of_frame session
