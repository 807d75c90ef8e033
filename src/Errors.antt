-- ===== src/Errors.antt =====
-- The error types: crates/plugmem-arena/src/error.rs and crates/plugmem-core/src/error.rs, and the
-- ids of crates/plugmem-core/src/id.rs. An id is the number that it wraps.
use plugmem.Base.Bytes.{Bytes}
use plugmem.Base.{ℕ, ◌-◌, ◌^◌, Bool, String, ◌==◌}

pub data ArenaError : Type 0 where
  capacity_exceeded : ℕ → ArenaError
  bad_slot : ℕ → ℕ → ArenaError
  bad_shard_count : ℕ → ArenaError
  blob_too_large : ℕ → ℕ → ArenaError
  value_too_large : ℕ → ArenaError
  corrupt : String → ArenaError

pub data Error : Type 0 where
  capacity_exceeded : String → Error
  too_large : String → ℕ → ℕ → Error
  dim_mismatch : ℕ → ℕ → Error
  not_found : ℕ → Error
  already_closed : ℕ → Error
  stale_cursor : Error
  untracked_vector_space : Error
  vector_space_mismatch : Bytes → Bytes → Error
  config_mismatch : String → Error
  corrupt : String → Error
  unsupported_version : ℕ → Error
  invalid : String → Error
  storage : String → Error
  arena : ArenaError → Error

-- `NONE_U32`: the id that stands for no value.
abbrev pub none_id : ℕ
none_id = 2 ^ 32 - 1

abbrev pub is_none : ℕ → Bool
is_none id = id == none_id
