-- ===== src/Chunks/Tests.antt =====
-- A pool of two chunks at work, and the theorems on chunk pools at concrete inputs.
use plugmem.Base.Outcomes.{returned, Returns}
use plugmem.Base.{ℕ, ◌*◌, ◌≤◌, ◌≡◌, ◌⊎◌, refl, arith, List, [], ◌∷◌, ◌++◌, length, All}
use plugmem.Base.{Bool, true, false, ok, Result}
use plugmem.Base.Bytes.{Bytes, IsByte, to_le, from_le}
use plugmem.Errors.{ArenaError, none_id}
use plugmem.Paged.{owned, replicate, len, page_of, slice_of, set}
use plugmem.Chunks.{ChunkPool, ListHandle, to_bytes, from_bytes, link}
use plugmem.Chunks.{chunk_bytes}
use plugmem.Chunks.Walk.{validate_chain, walk_chain, visit, follow, load, load_overlay}
use plugmem.Chunks.Chains.{IsPool}
use plugmem.Chunks.Handles.{from_bytes-to_bytes}
use plugmem.Chunks.Validate.{IsChain, Claims, validate_chain_sound}
use plugmem.Chunks.Checks.{Fits}
use plugmem.Chunks.Loads.{load-Returns-IsPool}
use plugmem.Base.Slices.{read_le, tail_from, window}
use plugmem.Chunks.Walk.{
  loaded, validate_chunks, validate_header, validate_free, check_sizes, check_used, check_links,
  links_in_bounds, link_of, all_fit, walk_free, visit_free,
}

-- The first chunk links to the second.
abbrev bytes : Bytes
bytes = to_le 4 1 ++ (replicate 60 0 ++ (to_le 4 none_id ++ replicate 60 0))

abbrev two_chunks : ChunkPool
two_chunks = record {
  pool = owned bytes;
  used = 60 ∷ 3 ∷ [];
  free_head = none_id;
  cfg = record { max_bytes = 128 };
}

abbrev handle : ListHandle
handle = record { head = 0; tail = 1; len = 4 }

two_chunks-IsPool : IsPool two_chunks
unfolding to_le replicate len
two_chunks-IsPool = record { paged = (2, refl); size = refl }

claimed : validate_chain two_chunks handle (false ∷ false ∷ []) ≡ returned (ok (true ∷ true ∷ []))
unfolding validate_chain walk_chain visit follow link page_of slice_of set to_le replicate from_le
claimed = refl

validate_chain_sound_example :
    ((r : Result ArenaError (List Bool)) × (validate_chain two_chunks handle (false ∷ false ∷ [])
        ≡ returned r))
    × ((seen : List Bool)
        → validate_chain two_chunks handle (false ∷ false ∷ []) ≡ returned (ok seen)
        → ((0 ≡ none_id) × (1 ≡ none_id) × (seen ≡ false ∷ false ∷ []))
          ⊎ ((cs : List ℕ) × IsChain two_chunks 1 0 cs × Claims (false ∷ false ∷ []) cs seen))
validate_chain_sound_example =
    validate_chain_sound two_chunks handle (false ∷ false ∷ []) two_chunks-IsPool refl

from_bytes-to_bytes_example :
    (from_bytes (to_bytes handle) ≡ handle) × (length (to_bytes handle) ≡ 12)
from_bytes-to_bytes_example =
    from_bytes-to_bytes handle
      (record { head = omega arith; tail = omega arith; len = omega arith })

-- A dumped pool: a list of two chunks, and the third chunk free.
abbrev dumped : Bytes
dumped = bytes ++ (to_le 4 none_id ++ replicate 60 0)

abbrev dumped_meta : Bytes
dumped_meta = 3 ∷ 0 ∷ 0 ∷ 0 ∷ 2 ∷ 0 ∷ 0 ∷ 0 ∷ 60 ∷ 3 ∷ 0 ∷ []

dumped_meta-All : All IsByte dumped_meta
dumped_meta-All = omega arith

accepted :
    (p : ChunkPool) × (load (record { max_bytes = 192 }) dumped_meta dumped ≡ returned (ok p))
    × (p.used ≡ 60 ∷ 3 ∷ 0 ∷ [])
unfolding load loaded validate_chunks validate_header validate_free check_sizes check_used
    check_links links_in_bounds link_of all_fit walk_free visit_free set read_le tail_from window
    to_le from_le replicate
accepted = (_, refl, refl)

load-Returns-IsPool_example :
    Returns (load (record { max_bytes = 192 }) dumped_meta dumped)
    × Returns (load_overlay (record { max_bytes = 192 }) dumped_meta dumped)
    × ((p : ChunkPool)
        → (load (record { max_bytes = 192 }) dumped_meta dumped ≡ returned (ok p))
          ⊎ (load_overlay (record { max_bytes = 192 }) dumped_meta dumped ≡ returned (ok p))
        → IsPool p × All Fits p.used × (length p.used * chunk_bytes ≤ 192))
load-Returns-IsPool_example =
    load-Returns-IsPool (record { max_bytes = 192 }) dumped_meta dumped dumped_meta-All
