-- ===== src/Journal/Ops.antt =====
-- `Op`, the payload and the op byte that `Op::encode` computes, and `Op::decode`.
use plugmem.Base.{ℕ, ◌-◌, ◌%◌, ◌^◌, List, [], ◌∷◌, ◌++◌, length, Bool, true, false, ◌||◌}
use plugmem.Base.{Option, ◌==◌, if◌then◌else◌, Result, ok, err, ◌>>=◌}
use plugmem.Base.Bytes.{Bytes, to_le}
use plugmem.Errors.{Error, is_none}
use plugmem.Journal.Fields.{put_str, put_entity, put_strs, put_pairs, put_f32s, take_entity}
use plugmem.Journal.Fields.{
  take_u8, take_u32, take_u64, take_str, take_strs, take_pairs, take_vec_f32,
}

-- The fields of `Op::Remember`.
pub record Remembered : Type 0 where
  pub now : ℕ
  pub valid_from : ℕ
  pub entity : Option Bytes
  pub text : Bytes
  pub tags : List Bytes
  pub links : List (Bytes × Bytes)
  pub vector : List ℕ
  pub metadata : List (Bytes × Bytes)
  pub revises : ℕ
  pub assigned : ℕ

-- `Link` is `link now src rel dst provenance`, `Unlink` is `unlink now src rel dst`, `Maintain` is
-- `maintain now mode max_hnsw_inserts`.
pub data Op : Type 0 where
  remember : Remembered → Op
  forget : ℕ → ℕ → Op
  link : ℕ → Bytes → Bytes → Bytes → ℕ → Op
  maintain : ℕ → ℕ → ℕ → Op
  unlink : ℕ → Bytes → Bytes → Bytes → Op
  remove_tag : ℕ → Bytes → Op
  set_vector_space : Bytes → Op

unfoldable pub remember_payload : Remembered → Bytes
remember_payload r =
    to_le 8 r.now
    ++ (to_le 8 r.valid_from
        ++ (to_le 4 r.revises
            ++ (to_le 4 r.assigned
                ++ (put_entity r.entity
                    ++ (put_str r.text
                        ++ (length r.tags % 256
                            ∷ (put_strs r.tags
                                ++ (length r.links % 256
                                    ∷ (put_pairs r.links
                                        ++ (to_le 4 (length r.vector % 2 ^ 32)
                                            ++ (put_f32s r.vector
                                                ++ (to_le 4 (length r.metadata % 2 ^ 32)
                                                    ++ put_pairs r.metadata))))))))))))

unfoldable pub payload : Op → Bytes
unfolding remember_payload
payload (remember r) = remember_payload r
payload (forget now fact) = to_le 8 now ++ to_le 4 fact
payload (link now src rel dst provenance) =
    to_le 8 now ++ (to_le 4 provenance ++ (put_str src ++ (put_str rel ++ put_str dst)))
payload (unlink now src rel dst) = to_le 8 now ++ (put_str src ++ (put_str rel ++ put_str dst))
payload (maintain now mode max_hnsw_inserts) = to_le 8 now ++ (mode ∷ to_le 4 max_hnsw_inserts)
payload (remove_tag now tag) = to_le 8 now ++ put_str tag
payload (set_vector_space space) = put_str space

unfoldable pub op_byte : Op → ℕ
op_byte (remember r) = if is_none r.revises then 1 else 2
op_byte (forget now fact) = 3
op_byte (link now src rel dst provenance) = 4
op_byte (maintain now mode max_hnsw_inserts) = 5
op_byte (unlink now src rel dst) = 6
op_byte (remove_tag now tag) = 7
op_byte (set_vector_space space) = 8

-- `(op == 2) == revises.is_none()`
abbrev pub revises_disagrees : ℕ → ℕ → Bool
revises_disagrees op revises =
    if op == 2 then is_none revises else (if is_none revises then false else true)

-- The arm `1 | 2` behind the test on `revises`.
unfoldable pub decode_fact : ℕ → ℕ → ℕ → ℕ → Bytes → Result Error (Op × Bytes)
decode_fact now valid_from revises assigned bytes = do
  (entity, r1) ← take_entity bytes
  (text, r2) ← take_str r1
  (tag_cnt, r3) ← take_u8 r2
  (tags, r4) ← take_strs tag_cnt r3
  (link_cnt, r5) ← take_u8 r4
  (links, r6) ← take_pairs link_cnt r5
  (vector, r7) ← take_vec_f32 r6
  (meta_cnt, r8) ← take_u32 r7
  (metadata, r9) ← take_pairs meta_cnt r8
  ok (
    remember (record {
      now = now;
      valid_from = valid_from;
      entity = entity;
      text = text;
      tags = tags;
      links = links;
      vector = vector;
      metadata = metadata;
      revises = revises;
      assigned = assigned;
    }),
    r9,
  )

unfoldable pub decode_remember : ℕ → Bytes → Result Error (Op × Bytes)
decode_remember op bytes = do
  (now, r1) ← take_u64 bytes
  (valid_from, r2) ← take_u64 r1
  (revises, r3) ← take_u32 r2
  (assigned, r4) ← take_u32 r3
  if revises_disagrees op revises
      then err (Error.corrupt "journal revises field disagrees with op")
      else decode_fact now valid_from revises assigned r4

unfoldable pub decode_forget : Bytes → Result Error (Op × Bytes)
decode_forget bytes = do
  (now, r1) ← take_u64 bytes
  (fact, r2) ← take_u32 r1
  ok (forget now fact, r2)

unfoldable pub decode_link : Bytes → Result Error (Op × Bytes)
decode_link bytes = do
  (now, r1) ← take_u64 bytes
  (provenance, r2) ← take_u32 r1
  (src, r3) ← take_str r2
  (rel, r4) ← take_str r3
  (dst, r5) ← take_str r4
  ok (link now src rel dst provenance, r5)

-- A record that ends behind `now` is the form of an older writer.
unfoldable pub decode_mode : ℕ → Bytes → Result Error (Op × Bytes)
decode_mode now [] = ok (maintain now 0 (2 ^ 32 - 1), [])
decode_mode now (mode ∷ rest) = do
  (max_hnsw_inserts, end) ← take_u32 rest
  ok (maintain now mode max_hnsw_inserts, end)

unfoldable pub decode_maintain : Bytes → Result Error (Op × Bytes)
decode_maintain bytes = do (now, rest) ← take_u64 bytes; decode_mode now rest

unfoldable pub decode_unlink : Bytes → Result Error (Op × Bytes)
decode_unlink bytes = do
  (now, r1) ← take_u64 bytes
  (src, r2) ← take_str r1
  (rel, r3) ← take_str r2
  (dst, r4) ← take_str r3
  ok (unlink now src rel dst, r4)

unfoldable pub decode_remove_tag : Bytes → Result Error (Op × Bytes)
decode_remove_tag bytes = do
  (now, r1) ← take_u64 bytes
  (tag, r2) ← take_str r1
  ok (remove_tag now tag, r2)

unfoldable pub decode_space : Bytes → Result Error (Op × Bytes)
decode_space bytes = do (space, rest) ← take_str bytes; ok (set_vector_space space, rest)

unfoldable pub decode_body : ℕ → Bytes → Result Error (Op × Bytes)
decode_body op bytes =
    if op == 1 || op == 2
    then decode_remember op bytes
    else if op == 3
    then decode_forget bytes
    else if op == 4
    then decode_link bytes
    else if op == 5
    then decode_maintain bytes
    else if op == 6
    then decode_unlink bytes
    else if op == 7
    then decode_remove_tag bytes
    else if op == 8
    then decode_space bytes
    else err (Error.corrupt "unknown journal op")

-- `if *at != payload.len()`
unfoldable pub at_end : Op → Bytes → Result Error Op
at_end op [] = ok op
at_end op (b ∷ rest) = err (Error.corrupt "journal record has trailing bytes")

unfoldable pub decode : ℕ → Bytes → Result Error Op
decode op bytes = do (decoded, rest) ← decode_body op bytes; at_end decoded rest
