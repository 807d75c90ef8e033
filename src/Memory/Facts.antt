-- ===== src/Memory/Facts.antt =====
-- Facts: storing one with its terms, tags, links and vector, closing one, and marking one as deleted.
use plugmem.Base.{
  ℕ, zero, suc, ◌+◌, bit_or, List, [], ◌∷◌, ◌++◌, length, take, drop, Option, none, some, Bool,
  true, false, ltb, ◌==◌, if◌then◌else◌, Result, ok, err,
}
use plugmem.Base.Bytes.{Bytes, to_be, from_be}
use plugmem.Errors.{Error, none_id}
use plugmem.Blob.{push}
use plugmem.Metadata.{encode}
use plugmem.Chunks.{ListHandle}
use plugmem.Model.{u16, u64, write_fields}
use plugmem.Model.Facts.{
  FactRecord, FactAux, is_tombstone, is_closed, closed_flag, tombstone_flag, has_vector_flag,
}
use plugmem.Memory.{
  Stores, Memory, Act, done, failed, panics, ◌>>=◌, give, attempt, of_arena, some_or, expect,
}
use plugmem.Memory.Inputs.{is_nil, max_tags}
use plugmem.Memory.Entities.{resolve_or_create_entity, intern_term}
use plugmem.Memory.Edges.{open_edge}
use Prim.Native.Nat.{min}

-- A term counted once more, up to the limit of a byte; the probe table of `tally_term` is an index of this list.
unfoldable pub tally : List (ℕ × ℕ) → ℕ → List (ℕ × ℕ)
tally [] term = (term, 1) ∷ []
tally ((seen, count) ∷ tfs) term =
    let rest = tally tfs term in
    if seen == term then (seen, min (count + 1) 255) ∷ tfs else (seen, count) ∷ rest

unfoldable pub contains : List ℕ → ℕ → Bool
contains [] term = false
contains (t ∷ ts) term = if t == term then true else contains ts term

-- `chunk.chunks_exact(4)`, on fuel that the length of the chunk is enough for.
unfoldable pub ids_of : ℕ → Bytes → List ℕ
ids_of zero chunk = []
ids_of (suc fuel) chunk =
    let rest = ids_of fuel (drop 4 chunk) in
    if ltb (length chunk) 4 then [] else from_be (take 4 chunk) ∷ rest

unfoldable pub all_ids : List Bytes → List ℕ
all_ids [] = []
all_ids (chunk ∷ chunks) = ids_of (length chunk) chunk ++ all_ids chunks

module _ (P : Stores) where
  unfoldable pub fact : Memory P → ℕ → Option FactRecord
  fact m id = P.facts.get (to_be 4 id) m.facts

  unfoldable pub revisable : ℕ → Option FactRecord → Result Error Unit
  revisable target none = err (Error.not_found target)
  revisable target (some record') =
      if is_tombstone record'
      then err (Error.not_found target)
      else if is_closed record'
      then err (Error.already_closed target)
      else ok tt

  unfoldable pub check_revisable : ℕ → Act (Memory P) Unit
  check_revisable target m = attempt (revisable target (fact m target)) m

  -- The tags of a fact: the terms that its list names, at most as many as a fact may have.
  unfoldable pub listed_tags : Memory P → FactAux → List ℕ
  listed_tags m aux = take max_tags (all_ids (P.tag_chunks aux.tags m.tag_lists))

  unfoldable pub change_all :
      (P.Terms → ℕ → P.Catalog → P.Catalog) → P.Terms → List ℕ → P.Catalog → P.Catalog
  change_all change terms [] catalog = catalog
  change_all change terms (t ∷ ts) catalog = change_all change terms ts (change terms t catalog)

  unfoldable pub uncount_fact : ℕ → Memory P → Memory P
  uncount_fact id m = elim (P.fact_aux.get (to_be 4 id) m.fact_aux) [
    | none ↦ m
    | some aux ↦ record m {
      tag_catalog = change_all P.count_down m.terms (listed_tags m aux) m.tag_catalog;
    }
  ]

  -- The payload stands behind the four bytes of the key.
  unfoldable pub close_payload : ℕ → ℕ → Bytes → Bytes
  close_payload flags valid_to payload =
      write_fields (u16 4 (bit_or flags closed_flag) ∷ u64 36 valid_to ∷ []) payload

  unfoldable pub close_target : ℕ → ℕ → Act (Memory P) Unit
  close_target target valid_to m =
      (expect (fact m target) >>= λ record'.
      expect (P.facts.payload_mut (to_be 4 target) (close_payload record'.flags valid_to) m.facts)
      >>= λ rows n. (uncount_fact target (record n { facts = rows }), done tt))
        m

  unfoldable pub mark_payload : ℕ → Bytes → Bytes
  mark_payload flags payload = write_fields (u16 4 (bit_or flags tombstone_flag) ∷ []) payload

  unfoldable pub mark_forgotten : ℕ → FactRecord → Act (Memory P) Bool
  mark_forgotten id record' m =
      (expect (P.facts.payload_mut (to_be 4 id) (mark_payload record'.flags) m.facts) >>= λ rows n.
      let after : Memory P = record n { facts = rows; tombstones = n.tombstones + 1 } in
      (if is_closed record' then after else uncount_fact id after, done true))
        m

  unfoldable pub apply_forget : ℕ → Act (Memory P) Bool
  apply_forget id m =
      (some_or (fact m id) (Error.not_found id) >>= λ record'.
      if is_tombstone record' then give false else mark_forgotten id record')
        m

  unfoldable pub index_terms : List Bytes → List (ℕ × ℕ) → Act (Memory P) (List (ℕ × ℕ))
  index_terms [] tfs = give tfs
  index_terms (token ∷ tokens) tfs =
      intern_term P token >>= λ term. index_terms tokens (tally tfs term)

  unfoldable pub index_doc : ℕ → List (ℕ × ℕ) → Act (Memory P) Unit
  index_doc id tfs m =
      let made = P.index_doc id tfs m.bm25 in attempt made.1 (record m { bm25 = made.0 })

  unfoldable pub push_meta : Bytes → Act (Memory P) ℕ
  push_meta blob m = elim (push m.metas blob) [
    | err e ↦ (m, failed (Error.arena e))
    | ok pushed ↦ (record m { metas = pushed.1 }, done pushed.0)
  ]

  unfoldable pub store_metadata : Option (List (Bytes × Bytes)) → Act (Memory P) ℕ
  store_metadata none = give none_id
  store_metadata (some pairs) =
      if is_nil pairs then give none_id else attempt (encode pairs) >>= push_meta

  unfoldable pub push_tag : ListHandle → ℕ → Act (Memory P) ListHandle
  push_tag tags term m =
      let made = P.push_tag tags (to_be 4 term) m.tag_lists in
      attempt (of_arena made.1) (record m { tag_lists = made.0 })

  unfoldable pub post_tag : ℕ → ℕ → Act (Memory P) Unit
  post_tag term id m =
      let made = P.push_id term id 0 m.tags_idx in attempt made.1 (record m { tags_idx = made.0 })

  -- The distinct tags, in order; their number is that of the array they are kept in, or less.
  unfoldable pub store_tags :
      ℕ → List Bytes → ListHandle → List ℕ → Act (Memory P) (ListHandle × List ℕ)
  store_tags id [] tags seen = give (tags, seen)
  store_tags id (tag ∷ rest) tags seen = intern_term P tag >>= λ term. elim (contains seen term) [
    | true ↦ store_tags id rest tags seen
    | false ↦ elim (ltb (length seen) max_tags) [
      | false ↦ λ m. (m, panics)
      | true ↦ push_tag tags term >>= λ longer.
          post_tag term id >>= λ u. store_tags id rest longer (seen ++ (term ∷ []))
    ]
  ]

  unfoldable pub insert_aux : FactAux → Act (Memory P) Bool
  insert_aux aux m =
      let made = P.fact_aux.insert aux m.fact_aux in
      attempt (of_arena made.1) (record m { fact_aux = made.0 })

  unfoldable pub open_links : ℕ → ℕ → ℕ → List (Bytes × Bytes) → Act (Memory P) Unit
  open_links now src id [] = give tt
  open_links now src id ((rel, dst) ∷ links) = do
    d ← resolve_or_create_entity P dst now
    r ← intern_term P rel
    u ← open_edge P now src r d id
    open_links now src id links

  unfoldable pub post_entity : ℕ → ℕ → Act (Memory P) Unit
  post_entity src id m =
      let made = P.push_id src id 0 m.entity_facts in
      attempt made.1 (record m { entity_facts = made.0 })

  unfoldable pub link_fact : ℕ → Option ℕ → ℕ → List (Bytes × Bytes) → Act (Memory P) Unit
  link_fact now none id links = give tt
  link_fact now (some src) id links = open_links now src id links >>= λ u. post_entity src id

  unfoldable pub push_vector : ℕ → List ℕ → Act (Memory P) ℕ
  push_vector id v m =
      let made = P.push_vector id v m.vecs in attempt made.1 (record m { vecs = made.0 })

  unfoldable pub clone_slot : ℕ → ℕ → Act (Memory P) ℕ
  clone_slot id source m =
      let made = P.clone_slot id source m.vecs in attempt made.1 (record m { vecs = made.0 })

  -- The vector's slot and the flags.
  unfoldable pub store_vector : ℕ → Option (List ℕ) → Option ℕ → Act (Memory P) (ℕ × ℕ)
  store_vector id (some v) none = push_vector id v >>= λ slot. give (slot, has_vector_flag)
  store_vector id none (some source) = clone_slot id source >>= λ slot. give (slot, has_vector_flag)
  store_vector id none none = give (none_id, 0)
  store_vector id (some v) (some source) = λ m. (m, panics)
