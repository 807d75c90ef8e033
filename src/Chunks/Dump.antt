-- ===== src/Chunks/Dump.antt =====
-- The pool section of crates/plugmem-arena/src/chunk.rs, and the small accessors of pools and handles.
use plugmem.Base.Outcomes.{Outcome, returned, panicked, ran_out}
use plugmem.Base.{ℕ, ◌+◌, ◌-◌, ◌^◌, List, [], ◌∷◌, ◌++◌, length, take, Bool}
use plugmem.Base.{Option, none, some, leb, ◌==◌, if◌then◌else◌}
use plugmem.Base.Bytes.{Bytes}
use plugmem.Paged.{page_of, replicate}
use plugmem.Paged
use plugmem.Chunks.{ChunkPoolCfg, ListHandle, ChunkPool, chunk_bytes, link_bytes, chunk_payload}
use plugmem.Chunks.Walk.{free_map}
use mathlib.Core.Option

-- `ChunkPoolCfg::new` and `with_max_bytes`; a `usize` has 64 bits.
abbrev pub no_limit : ChunkPoolCfg
no_limit = record { max_bytes = 2 ^ 64 - 1 }

abbrev pub with_max_bytes : ChunkPoolCfg → ℕ → ChunkPoolCfg
with_max_bytes cfg max_bytes = record cfg { max_bytes = max_bytes }

abbrev pub handle_len : ListHandle → ℕ
handle_len list = list.len

unfoldable pub is_empty : ListHandle → Bool
is_empty list = list.len == 0

unfoldable pub pool_bytes : ChunkPool → ℕ
pool_bytes p = Paged.len p.pool

unfoldable pub chunks : ChunkPool → ℕ
chunks p = length p.used

-- What the dump keeps of a chunk: its link and its used bytes, with zeros behind them. `none` is the panic
-- of a fill count above the payload.
unfoldable pub dump_chunk : Bool → ℕ → Bytes → Option Bytes
dump_chunk free used page =
    let kept : ℕ = if free then 0 else used in
    if leb kept chunk_payload
    then some (take (link_bytes + kept) page ++ replicate (chunk_payload - kept) 0)
    else none

-- `for (chunk, &used) in self.used.iter().enumerate()`, from `chunk` on.
unfoldable pub put_chunks : ChunkPool → ℕ → List Bool → List ℕ → Option Bytes
put_chunks p chunk (f ∷ fs) (u ∷ us) = Option.bind (page_of chunk_bytes p.pool chunk) λ page.
    Option.bind (dump_chunk f u page)
      λ dumped. Option.map (λ rest. dumped ++ rest) (put_chunks p (chunk + 1) fs us)
put_chunks p chunk [] us = some []
put_chunks p chunk (f ∷ fs) [] = some []

unfoldable pub dump_pool : ChunkPool → Outcome Bytes
dump_pool p = elim (free_map p) [
  | returned free ↦ elim (put_chunks p 0 free p.used) [ none ↦ panicked | some out ↦ returned out ]
  | panicked ↦ panicked
  | ran_out ↦ ran_out
]
