-- ===== src/Memory/Examples.antt =====
-- Stores that are lists, to run the verbs on: the rows of a table are its slots in the order of insertion.
use plugmem.Base.{
  ℕ, ◌+◌, List, [], ◌∷◌, ◌++◌, length, take, drop, Option, none, some, Bool, true, false, ◌==◌,
  ◌&&◌, if◌then◌else◌, Result, ok,
}
use plugmem.Base.Bytes.{Bytes, to_be, from_be}
use plugmem.Base.Order.{cmp_bytes}
use plugmem.Errors.{ArenaError}
use plugmem.Paged.{replicate}
use plugmem.Blob.{new}
use plugmem.Arena.{Slot}
use plugmem.Model.Facts.{fact_slot, write_fact, read_fact, aux_slot, write_aux, read_aux}
use plugmem.Model.Entities.{
  entity_slot, write_entity, read_entity, by_name_slot, write_by_name, read_by_name, TemporalSlot,
}
use plugmem.Model.Edges.{
  edge_slot, write_edge, read_edge, history_slot, write_history, read_history,
}
use plugmem.Memory.{Table, Stores, Memory}
use plugmem.Memory.Inputs.{same_text}
use plugmem.Memory.Verbs.{Storage}
use Prim.Native.Nat.{Ordering}

unfoldable pub at_most : Bytes → Bytes → Bool
unfolding cmp_bytes
at_most a b = elim (cmp_bytes a b) [ Ordering.lt ↦ true | Ordering.eq ↦ true | Ordering.gt ↦ false ]

module _ {R : Type 0} (slot : Slot) (write : R → Bytes → Bytes) (read : Bytes → R) where
  unfoldable pub find : Bytes → Bytes → List Bytes → Option R
  find low high [] = none
  find low high (s ∷ ss) =
      let rest = find low high ss in
      if at_most low (take slot.key_len s) && at_most (take slot.key_len s) high
      then some (read s)
      else rest

  unfoldable pub change : Bytes → (Bytes → Bytes) → List Bytes → Option (List Bytes)
  change key f [] = none
  change key f (s ∷ ss) =
      let rest = change key f ss in
      if same_text key (take slot.key_len s)
      then some ((take slot.key_len s ++ f (drop slot.key_len s)) ∷ ss)
      else elim rest [ none ↦ none | some changed ↦ some (s ∷ changed) ]

  unfoldable pub without : Bytes → List Bytes → List Bytes × Bool
  without key [] = ([], false)
  without key (s ∷ ss) =
      let rest = without key ss in
      if same_text key (take slot.key_len s) then (ss, true) else (s ∷ rest.0, rest.1)

  unfoldable pub add : R → List Bytes → List Bytes × Result ArenaError Bool
  add r rows =
      let made : Bytes = write r (replicate slot.size 0) in
      elim (find (take slot.key_len made) (take slot.key_len made) rows) [
        | none ↦ (rows ++ (made ∷ []), ok true)
        | some old ↦ (rows, ok false)
      ]

  abbrev pub list_table : Table R
  list_table = record {
    Rows = List Bytes;
    insert = add;
    get = λ key rows. find key key rows;
    payload_mut = change;
    remove = without;
    first_in = find;
  }

-- Terms are numbered in the order of their first use.
unfoldable pub position : Bytes → List Bytes → Option ℕ
position t [] = none
position t (x ∷ xs) =
    let rest = position t xs in
    if same_text x t then some 0 else elim rest [ none ↦ none | some n ↦ some (1 + n) ]

unfoldable pub intern : Bytes → List Bytes → List Bytes × Result ArenaError ℕ
intern t terms = elim (position t terms) [
  | none ↦ (terms ++ (t ∷ []), ok (length terms))
  | some n ↦ (terms, ok n)
]

abbrev pub first_of : List Bytes → Bytes
first_of [] = []
first_of (t ∷ ts) = t

-- The one list of tags, the postings as pairs, and a catalogue that counts uses of tags.
unfoldable pub ids_in : ℕ → List (ℕ × ℕ) → List ℕ
ids_in term [] = []
ids_in term ((t, id) ∷ rest) = let ids = ids_in term rest in if t == term then id ∷ ids else ids

abbrev pub temporal_table : Table TemporalSlot
temporal_table =
    list_table (record { size = 12; key_len = 12 })
      (λ r out. to_be 8 r.recorded_at ++ to_be 4 r.fact)
      (λ bytes. record { recorded_at = from_be (take 8 bytes); fact = from_be (drop 8 bytes) })

abbrev pub lists : Stores
lists = record {
  facts = list_table fact_slot write_fact read_fact;
  fact_aux = list_table aux_slot write_aux read_aux;
  entities = list_table entity_slot write_entity read_entity;
  by_name = list_table by_name_slot write_by_name read_by_name;
  edges = list_table edge_slot write_edge read_edge;
  history = list_table history_slot write_history read_history;
  temporal = temporal_table;
  Terms = List Bytes;
  intern = intern;
  lookup = position;
  resolve = λ n terms. first_of (drop n terms);
  TagLists = Bytes;
  push_tag = λ tags tag all. (all ++ tag, ok (record tags { len = tags.len + 1 }));
  tag_chunks = λ tags all. all ∷ [];
  Bm25 = List (ℕ × List (ℕ × ℕ));
  index_doc = λ id terms docs. (docs ++ ((id, terms) ∷ []), ok tt);
  IdLists = List (ℕ × ℕ);
  push_id = λ term id n postings. (postings ++ ((term, id) ∷ []), ok tt);
  ids = ids_in;
  Catalog = List ℕ;
  count_up = λ terms tag catalog. tag ∷ catalog;
  count_down = λ terms tag catalog. catalog;
  Vectors = List (ℕ × List ℕ);
  push_vector = λ id v all. (all ++ ((id, v) ∷ []), ok (length all));
  clone_slot = λ id slot all. (all, ok slot);
  no_vectors = λ all. length all == 0;
  tokens = λ text. text ∷ [];
}

-- A journal of bytes.
abbrev pub file : Storage
file = record { Store = Bytes; append_journal = λ bytes st. (st ++ bytes, ok tt) }

abbrev pub empty_memory : Memory lists
empty_memory = record {
  cfg = record { max_text = 100; dim = 2 };
  facts = [];
  fact_aux = [];
  entities = [];
  by_name = [];
  edges_out = [];
  edges_in = [];
  hist_out = [];
  hist_in = [];
  temporal = [];
  texts = new (record { max_bytes = 1000; max_blob = 100 });
  metas = new (record { max_bytes = 1000; max_blob = 100 });
  terms = [];
  tag_lists = [];
  bm25 = [];
  tags_idx = [];
  tag_catalog = [];
  entity_facts = [];
  vecs = [];
  vector_space = none;
  next_fact = 0;
  next_entity = 0;
  next_edge = 0;
  tombstones = 0;
}
