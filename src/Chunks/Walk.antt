-- ===== src/Chunks/Walk.antt =====
-- The walks of crates/plugmem-arena/src/chunk.rs along chains: a list's iteration, its validation, the
-- free-list, and the dumps and the load that rest on them. A walk runs on fuel.
use plugmem.Base.Outcomes.{Outcome, returned, panicked, ran_out, ◌>>=◌}
use plugmem.Base.Slices.{read_le, tail_from}
use plugmem.Base.{ℕ, zero, suc, ◌+◌, ◌*◌, ◌%◌, ◌^◌, List, [], ◌∷◌, ◌++◌, length, take, drop}
use plugmem.Base.{
  Option, none, some, get_elem?, ltb, leb, ◌==◌, if◌then◌else◌, not, ◌&&◌, ◌||◌, Bool, true, false,
}
use plugmem.Base.{Result, ok, err, String}
use plugmem.Base.Bytes.{Bytes, to_le}
use plugmem.Errors.{ArenaError, none_id}
use plugmem.Paged.{owned_from, borrowed, page_of, replicate, set}
use plugmem.Chunks.{
  ChunkPoolCfg, ListHandle, ChunkPool, link, chunk_bytes, link_bytes, chunk_payload,
}
use mathlib.Core.Option

-- `mem::replace(&mut visited[c], true)` and the tests around it; the walk goes on where `next` is given.
pub data Visit : Type 0 where
  stop : Result ArenaError (List Bool) → Visit
  onward : ℕ → List Bool → Visit
  crash : Visit

unfoldable pub follow : ℕ → ℕ → ℕ → List Bool → Visit
follow chunk tail next visited =
    if chunk == tail
    then if next == none_id
      then stop (ok visited)
      else stop (err (ArenaError.corrupt "chunk chain tail links onward"))
    else if next == none_id
    then stop (err (ArenaError.corrupt "chunk chain ends before its tail"))
    else onward next visited

unfoldable pub visit : ChunkPool → ℕ → ℕ → List Bool → Visit
visit p tail chunk visited = elim (get_elem? visited chunk) [
  | none ↦ stop (err (ArenaError.corrupt "chunk chain reaches out of bounds"))
  | some true ↦ stop (err (ArenaError.corrupt "chunk claimed by two chains"))
  | some false ↦ elim (link p chunk) [
    | none ↦ crash
    | some next ↦ follow chunk tail next (set visited chunk true)
  ]
]

unfoldable pub walk_chain :
    ChunkPool → ℕ → ℕ → ℕ → List Bool → Outcome (Result ArenaError (List Bool))
walk_chain p tail zero chunk visited = ran_out
walk_chain p tail (suc fuel) chunk visited = elim (visit p tail chunk visited) [
  | stop r ↦ returned r
  | onward next seen ↦ walk_chain p tail fuel next seen
  | crash ↦ panicked
]

unfoldable pub validate_chain :
    ChunkPool → ListHandle → List Bool → Outcome (Result ArenaError (List Bool))
validate_chain p list visited =
    if list.head == none_id || list.tail == none_id
    then if list.head == list.tail
      then returned (ok visited)
      else returned (err (ArenaError.corrupt "chunk chain head/tail disagree"))
    else walk_chain p list.tail (suc (length visited)) list.head visited

-- `ChunkIter::next`: the bytes of the chunk at the cursor, and the cursor behind it.
unfoldable pub iter_next : ChunkPool → ℕ → Option (Option (Bytes × ℕ))
iter_next p chunk =
    if chunk == none_id
    then some none
    else Option.bind (link p chunk) λ next. Option.bind (get_elem? p.used chunk) λ used.
      Option.map (λ page. some (take used (drop link_bytes page), next))
        (page_of chunk_bytes p.pool chunk)

-- `while chunk != NONE` of `free_map`.
unfoldable pub mark_free : ChunkPool → ℕ → ℕ → List Bool → Outcome (List Bool)
mark_free p zero chunk free = ran_out
mark_free p (suc fuel) chunk free =
    if chunk == none_id then returned free else elim (link p chunk) [
      | none ↦ panicked
      | some next ↦
          let rest : Outcome (List Bool) = mark_free p fuel next (set free chunk true) in
          if ltb chunk (length free) then rest else panicked
    ]

unfoldable pub free_map : ChunkPool → Outcome (List Bool)
free_map p = mark_free p (suc (length p.used)) p.free_head (replicate (length p.used) false)

-- `filter(|&c| !claimed[c] && !free[c]).count()`
unfoldable pub count_orphans : List Bool → List Bool → ℕ
count_orphans (c ∷ cs) (f ∷ fs) =
    if not c && not f then suc (count_orphans cs fs) else count_orphans cs fs
count_orphans [] fs = 0
count_orphans (c ∷ cs) [] = 0

-- The loop of `dump_meta`.
unfoldable pub put_used : List Bool → List ℕ → Bytes
put_used (f ∷ fs) (u ∷ us) = (if f then 0 else u) ∷ put_used fs us
put_used [] us = []
put_used (f ∷ fs) [] = []

unfoldable pub put_meta : ChunkPool → List Bool → Bytes
put_meta p free = to_le 4 (length p.used % 2 ^ 32) ++ (to_le 4 p.free_head ++ put_used free p.used)

unfoldable pub dump_meta : ChunkPool → Outcome Bytes
dump_meta p = elim (free_map p) [
  | returned free ↦ returned (put_meta p free)
  | panicked ↦ panicked
  | ran_out ↦ ran_out
]

-- The reads and tests of `validate_chunks`, over the bytes of the pool.
unfoldable pub link_of : Bytes → ℕ → Outcome ℕ
link_of pool chunk = read_le link_bytes (chunk * chunk_bytes) pool

unfoldable pub links_in_bounds : Bytes → ℕ → ℕ → Outcome Bool
links_in_bounds pool chunks zero = returned true
links_in_bounds pool chunks (suc n) = links_in_bounds pool chunks n >>= λ before.
    if before
    then (link_of pool n >>= λ next. returned (next == none_id || ltb next chunks))
    else returned false

unfoldable pub all_fit : List ℕ → Bool
all_fit [] = true
all_fit (u ∷ us) = leb u chunk_payload && all_fit us

-- A chunk of the free-list is tested, and the walk goes on.
unfoldable pub visit_free :
    List ℕ → ℕ → List Bool → Outcome (Result ArenaError Unit) → Outcome (Result ArenaError Unit)
visit_free used chunk seen rest = elim (get_elem? seen chunk) [
  | none ↦ returned (err (ArenaError.corrupt "chunk free-list head out of bounds"))
  | some true ↦ returned (err (ArenaError.corrupt "chunk free-list contains a cycle"))
  | some false ↦ elim (get_elem? used chunk) [
    | none ↦ panicked
    | some zero ↦ rest
    | some (suc u) ↦ returned (err (ArenaError.corrupt "free chunk has nonzero used bytes"))
  ]
]

unfoldable pub walk_free : Bytes → List ℕ → ℕ → ℕ → List Bool → Outcome (Result ArenaError Unit)
walk_free pool used zero chunk seen = ran_out
walk_free pool used (suc fuel) chunk seen =
    let rest = link_of pool chunk >>= λ next. walk_free pool used fuel next (set seen chunk true) in
    if chunk == none_id then returned (ok tt) else visit_free used chunk seen rest

-- `Err(Error::Corrupt(what))`
abbrev pub corrupt : {A : Type 0} → String → Outcome (Result ArenaError A)
corrupt what = returned (err (ArenaError.corrupt what))

unfoldable pub check_links : Bytes → ℕ → ℕ → List ℕ → Outcome (Result ArenaError (List ℕ × ℕ))
check_links pool chunks free_head used = links_in_bounds pool chunks chunks >>= λ inside.
    if not inside then corrupt "chunk link out of bounds" else returned (ok (used, free_head))

unfoldable pub check_used : Bytes → Bytes → ℕ → ℕ → Outcome (Result ArenaError (List ℕ × ℕ))
check_used meta pool chunks free_head = tail_from 8 meta >>= λ used.
    if not (all_fit used)
    then corrupt "chunk used bytes exceed the payload size"
    else check_links pool chunks free_head used

unfoldable pub check_sizes :
    ChunkPoolCfg → Bytes → Bytes → ℕ → ℕ → Outcome (Result ArenaError (List ℕ × ℕ))
check_sizes cfg meta pool chunks free_head =
    if chunks == none_id
    then corrupt "chunk count overflows the index space"
    else if not (length meta == 8 + chunks)
    then corrupt "chunk meta length mismatch"
    else if not (length pool == chunks * chunk_bytes)
    then corrupt "chunk pool length mismatch"
    else if ltb cfg.max_bytes (length pool)
    then corrupt "chunk pool exceeds the configured ceiling"
    else check_used meta pool chunks free_head

-- What `validate_chunks` does in front of the walk.
unfoldable pub validate_header :
    ChunkPoolCfg → Bytes → Bytes → Outcome (Result ArenaError (List ℕ × ℕ))
validate_header cfg meta pool =
    if ltb (length meta) 8
    then corrupt "chunk meta shorter than its header"
    else read_le 4 0 meta >>= λ chunks.
        read_le 4 4 meta >>= λ free_head. check_sizes cfg meta pool chunks free_head

unfoldable pub validate_free : Bytes → List ℕ × ℕ → Outcome (Result ArenaError (List ℕ × ℕ))
validate_free pool (used, free_head) =
    walk_free pool used (suc (length used)) free_head (replicate (length used) false) >>= λ walked.
    elim walked [ err e ↦ returned (err e) | ok u ↦ returned (ok (used, free_head)) ]

unfoldable pub validate_chunks :
    ChunkPoolCfg → Bytes → Bytes → Outcome (Result ArenaError (List ℕ × ℕ))
validate_chunks cfg meta pool = validate_header cfg meta pool >>= λ checked. elim checked [
  | err e ↦ returned (err e)
  | ok v ↦ validate_free pool v
]

unfoldable pub loaded : ChunkPoolCfg → Bytes → List ℕ × ℕ → ChunkPool
loaded cfg pool (used, free_head) = record {
  pool = owned_from pool;
  used = used;
  free_head = free_head;
  cfg = cfg;
}

unfoldable pub overlaid : ChunkPoolCfg → Bytes → List ℕ × ℕ → ChunkPool
overlaid cfg pool (used, free_head) = record {
  pool = borrowed chunk_bytes pool;
  used = used;
  free_head = free_head;
  cfg = cfg;
}

unfoldable pub load : ChunkPoolCfg → Bytes → Bytes → Outcome (Result ArenaError ChunkPool)
load cfg meta pool = validate_chunks cfg meta pool >>= λ checked. elim checked [
  | err e ↦ returned (err e)
  | ok v ↦ returned (ok (loaded cfg pool v))
]

-- `load_borrowed` and `load_overlay` have the same body.
unfoldable pub load_overlay : ChunkPoolCfg → Bytes → Bytes → Outcome (Result ArenaError ChunkPool)
load_overlay cfg meta pool = validate_chunks cfg meta pool >>= λ checked. elim checked [
  | err e ↦ returned (err e)
  | ok v ↦ returned (ok (overlaid cfg pool v))
]
