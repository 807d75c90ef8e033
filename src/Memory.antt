-- ===== src/Memory.antt =====
-- crates/plugmem-core/src/memory.rs: the engine's state, over the interfaces of the stores that it is made of.
-- A method on `&mut self` that can fail is an `Act`: it gives the state that it leaves, on an error too.
pub mod Inputs
pub mod Entities
pub mod Edges
pub mod Facts
pub mod Store
pub mod Tags
pub mod Verbs
pub mod Replay
pub mod Inversion
pub mod Stored
pub mod Journalled
pub mod Recorded
pub mod Optional
pub mod Removal
pub mod Claims
pub mod Session
pub mod Reopen
mod Examples
mod Tests
use plugmem.Base.{ℕ, List, [], Option, none, some, Bool, Result, ok, err}
use plugmem.Base.Bytes.{Bytes}
use plugmem.Errors.{Error, ArenaError, none_id}
use plugmem.Blob.{BlobHeap}
use plugmem.Chunks.{ListHandle}
use plugmem.Model.Facts.{FactRecord, FactAux}
use plugmem.Model.Entities.{EntityRecord, EntityByName, TemporalSlot}
use plugmem.Model.Edges.{EdgeSlot, EdgeHistorySlot}

-- How a method ends: with a value, with an error, or in a panic.
pub data Run (A : Type 0) : Type 0 where
  done : A → Run A
  failed : Error → Run A
  panics : Run A

abbrev pub Act : Type 0 → Type 0 → Type 0
Act S A = S → S × Run A

abbrev pub then_run : {S A B : Type 0} → S × Run A → (A → S → S × Run B) → S × Run B
then_run (s, done a) f = f a s
then_run (s, failed e) f = (s, failed e)
then_run (s, panics) f = (s, panics)

infixl 5 ◌>>=◌
abbrev pub ◌>>=◌ : {S A B : Type 0} → Act S A → (A → Act S B) → Act S B
(m >>= f) s = then_run (m s) f

abbrev pub give : {S A : Type 0} → A → Act S A
give a s = (s, done a)

-- `?` on a value, and on an error of an arena.
abbrev pub attempt : {S A : Type 0} → Result Error A → Act S A
attempt (ok a) s = (s, done a)
attempt (err e) s = (s, failed e)

abbrev pub of_arena : {A : Type 0} → Result ArenaError A → Result Error A
of_arena (ok a) = ok a
of_arena (err e) = err (Error.arena e)

-- `option.ok_or(e)?` and `option.expect(…)`
abbrev pub some_or : {S A : Type 0} → Option A → Error → Act S A
some_or none e s = (s, failed e)
some_or (some a) e s = (s, done a)

abbrev pub expect : {S A : Type 0} → Option A → Act S A
expect none s = (s, panics)
expect (some a) s = (s, done a)

-- What the engine uses of an `Arena<R>`. `first_in` is the first record of `range`, and a payload is changed by
-- a function on its bytes.
pub record Table (R : Type 0) : Type 1 where
  pub Rows : Type 0
  pub insert : R → Rows → Rows × Result ArenaError Bool
  pub get : Bytes → Rows → Option R
  pub payload_mut : Bytes → (Bytes → Bytes) → Rows → Option Rows
  pub remove : Bytes → Rows → Rows × Bool
  pub first_in : Bytes → Bytes → Rows → Option R

-- What the engine uses of the other stores: the interner, the lists of tags in a chunk pool, the inverted lists
-- `Bm25Index` and `IdListIndex`, the tag catalogue, the vector pool, and the tokenizer.
pub record Stores : Type 1 where
  pub facts : Table FactRecord
  pub fact_aux : Table FactAux
  pub entities : Table EntityRecord
  pub by_name : Table EntityByName
  pub edges : Table EdgeSlot
  pub history : Table EdgeHistorySlot
  pub temporal : Table TemporalSlot
  pub Terms : Type 0
  pub intern : Bytes → Terms → Terms × Result ArenaError ℕ
  pub lookup : Bytes → Terms → Option ℕ
  pub resolve : ℕ → Terms → Bytes
  pub TagLists : Type 0
  pub push_tag : ListHandle → Bytes → TagLists → TagLists × Result ArenaError ListHandle
  pub tag_chunks : ListHandle → TagLists → List Bytes
  pub Bm25 : Type 0
  pub index_doc : ℕ → List (ℕ × ℕ) → Bm25 → Bm25 × Result Error Unit
  pub IdLists : Type 0
  pub push_id : ℕ → ℕ → ℕ → IdLists → IdLists × Result Error Unit
  pub ids : ℕ → IdLists → List ℕ
  pub Catalog : Type 0
  pub count_up : Terms → ℕ → Catalog → Catalog
  pub count_down : Terms → ℕ → Catalog → Catalog
  pub Vectors : Type 0
  pub push_vector : ℕ → List ℕ → Vectors → Vectors × Result Error ℕ
  pub clone_slot : ℕ → ℕ → Vectors → Vectors × Result Error ℕ
  pub no_vectors : Vectors → Bool
  pub tokens : Bytes → List Bytes

-- The settings that the verbs read.
pub record Limits : Type 0 where
  pub max_text : ℕ
  pub dim : ℕ

module _ (P : Stores) where
  -- The scratch buffers of `Memory` are emptied before each use, and are left out.
  pub record Memory : Type 0 where
    pub cfg : Limits
    pub facts : P.facts.Rows
    pub fact_aux : P.fact_aux.Rows
    pub entities : P.entities.Rows
    pub by_name : P.by_name.Rows
    pub edges_out : P.edges.Rows
    pub edges_in : P.edges.Rows
    pub hist_out : P.history.Rows
    pub hist_in : P.history.Rows
    pub temporal : P.temporal.Rows
    pub texts : BlobHeap
    pub metas : BlobHeap
    pub terms : P.Terms
    pub tag_lists : P.TagLists
    pub bm25 : P.Bm25
    pub tags_idx : P.IdLists
    pub tag_catalog : P.Catalog
    pub entity_facts : P.IdLists
    pub vecs : P.Vectors
    pub vector_space : Option Bytes
    pub next_fact : ℕ
    pub next_entity : ℕ
    pub next_edge : ℕ
    pub tombstones : ℕ
