-- ===== src/Chunks.antt =====
-- crates/plugmem-arena/src/chunk.rs: many lists threaded through the chunks of one pool. `none` is a panic.
pub mod Walk
pub mod Dump
pub mod Chains
pub mod Validate
pub mod Checks
pub mod Loads
pub mod Handles
mod Tests
use plugmem.Base.{ℕ, zero, suc, ◌+◌, ◌-◌, ◌*◌, ◌%◌, ◌^◌, List, [], ◌∷◌, ◌++◌, length, take, drop}
use plugmem.Base.{
  Option, none, some, get_elem?, ltb, leb, ◌==◌, if◌then◌else◌, not, ◌&&◌, Bool, true, false,
}
use plugmem.Base.{Result, ok, err}
use plugmem.Base.Bytes.{Bytes, to_le, from_le, to_be, from_be}
use plugmem.Errors.{ArenaError, none_id}
use plugmem.Paged.{Paged, owned_empty, len, page_of, page_mut, grow_tail, replicate, set}
use mathlib.Core.Option

abbrev pub chunk_bytes : ℕ
chunk_bytes = 64

abbrev pub link_bytes : ℕ
link_bytes = 4

abbrev pub chunk_payload : ℕ
chunk_payload = 60

pub record ChunkPoolCfg : Type 0 where
  pub max_bytes : ℕ

pub record ListHandle : Type 0 where
  pub head : ℕ
  pub tail : ℕ
  pub len : ℕ

abbrev pub empty_list : ListHandle
empty_list = record { head = none_id; tail = none_id; len = 0 }

unfoldable pub to_bytes : ListHandle → Bytes
to_bytes h = to_be 4 h.head ++ (to_be 4 h.tail ++ to_be 4 h.len)

-- The bytes are a `[u8; 12]`.
unfoldable pub from_bytes : Bytes → ListHandle
from_bytes bytes = record {
  head = from_be (take 4 bytes);
  tail = from_be (take 4 (drop 4 bytes));
  len = from_be (take 4 (drop 8 bytes));
}

pub record ChunkPool : Type 0 where
  pub pool : Paged
  pub used : List ℕ
  pub free_head : ℕ
  pub cfg : ChunkPoolCfg

abbrev pub new : ChunkPoolCfg → ChunkPool
new cfg = record { pool = owned_empty; used = []; free_head = none_id; cfg = cfg }

unfoldable pub link : ChunkPool → ℕ → Option ℕ
link p chunk =
    Option.map (λ page. from_le (take link_bytes page)) (page_of chunk_bytes p.pool chunk)

unfoldable pub set_link : ChunkPool → ℕ → ℕ → Option ChunkPool
set_link p chunk to =
    Option.map (λ pool. record p { pool = pool })
      (page_mut chunk_bytes p.pool chunk λ page. to_le link_bytes to ++ drop link_bytes page)

-- `u32::try_from(chunk).ok().filter(|&c| c != NONE)`
unfoldable pub chunk_id : ℕ → Option ℕ
chunk_id n = if ltb n (2 ^ 32) then (if n == none_id then none else some n) else none

-- The free-list's head, with its link taken out and its fill count reset.
unfoldable pub pop_free : ChunkPool → Option (ℕ × ChunkPool)
pop_free p = Option.bind (get_elem? p.used p.free_head) λ stale.
    Option.map
      (λ next. (p.free_head, record p { free_head = next; used = set p.used p.free_head 0 }))
      (link p p.free_head)

unfoldable pub grow : ChunkPool → Result ArenaError (ℕ × ChunkPool)
grow p =
    let full : ArenaError = ArenaError.capacity_exceeded p.cfg.max_bytes in
    let new_len : ℕ = len p.pool + chunk_bytes in
    if leb (2 ^ 64) new_len
    then err full
    else if ltb p.cfg.max_bytes new_len
    then err full
    else elim (chunk_id (length p.used)) [
      | none ↦ err full
      | some chunk ↦ ok (
        chunk,
        record p { pool = grow_tail p.pool (replicate chunk_bytes 0); used = p.used ++ (0 ∷ []) },
      )
    ]

-- The end of `alloc_chunk`.
unfoldable pub reset_link : ℕ × ChunkPool → Option (Result ArenaError (ℕ × ChunkPool))
reset_link (chunk, p) = Option.map (λ q. ok (chunk, q)) (set_link p chunk none_id)

unfoldable pub alloc_chunk : ChunkPool → Option (Result ArenaError (ℕ × ChunkPool))
alloc_chunk p =
    if not (p.free_head == none_id)
    then Option.bind (pop_free p) reset_link
    else elim (grow p) [ err e ↦ some (err e) | ok grown ↦ reset_link grown ]

-- `list.tail != NONE && self.used[list.tail] as usize + value.len() <= CHUNK_PAYLOAD`
unfoldable pub tail_fits : ChunkPool → ListHandle → Bytes → Option Bool
tail_fits p list value =
    if list.tail == none_id
    then some false
    else Option.map (λ used. leb (used + length value) chunk_payload) (get_elem? p.used list.tail)

-- A fresh chunk, hung behind the tail of the list.
unfoldable pub hang : ChunkPool → ListHandle → ℕ → Option (ListHandle × ChunkPool)
hang p list chunk =
    if list.tail == none_id
    then some (record list { head = chunk; tail = chunk }, p)
    else Option.map (λ q. (record list { tail = chunk }, q)) (set_link p list.tail chunk)

unfoldable pub make_room :
    ChunkPool → ListHandle → Bytes → Option (Result ArenaError (ListHandle × ChunkPool))
make_room p list value = Option.bind (tail_fits p list value) λ fits.
    if fits
    then some (ok (list, p))
    else Option.bind (alloc_chunk p) λ allocated. elim allocated [
      | err e ↦ some (err e)
      | ok fresh ↦ Option.map ok (hang fresh.1 list fresh.0)
    ]

-- `page[rel..rel + len].copy_from_slice(value)`, where the range is in the page.
unfoldable pub write_at : ℕ → Bytes → Bytes → Bytes
write_at rel value page = take rel page ++ (value ++ drop (rel + length value) page)

unfoldable pub write_value : ChunkPool → ℕ → Bytes → Option ChunkPool
write_value p tail value = Option.bind (get_elem? p.used tail) λ used.
    let rel : ℕ = link_bytes + used in
    if leb (rel + length value) chunk_bytes
    then Option.map
        (λ pool. record p { pool = pool; used = set p.used tail ((used + length value) % 256) })
        (page_mut chunk_bytes p.pool tail (write_at rel value))
    else none

unfoldable pub bump : ListHandle → ListHandle
bump list = record list { len = (list.len + 1) % 2 ^ 32 }

unfoldable pub push :
    ChunkPool → ListHandle → Bytes → Option (Result ArenaError (ListHandle × ChunkPool))
push p list [] = some (ok (bump list, p))
push p list (b ∷ bs) =
    let value : Bytes = b ∷ bs in
    if ltb chunk_payload (length value)
    then some (err (ArenaError.value_too_large (length value)))
    else Option.bind (make_room p list value) λ room. elim room [
      | err e ↦ some (err e)
      | ok (l, q) ↦ Option.map (λ after. ok (bump l, after)) (write_value q l.tail value)
    ]

unfoldable pub free : ChunkPool → ListHandle → Option (ListHandle × ChunkPool)
free p list =
    if list.head == none_id
    then some (empty_list, p)
    else Option.map (λ q. (empty_list, record q { free_head = list.head }))
        (set_link p list.tail p.free_head)
