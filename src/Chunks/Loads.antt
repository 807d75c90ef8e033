-- ===== src/Chunks/Loads.antt =====
-- Loading a chunk pool from untrusted bytes.
use plugmem.Base.Outcomes.{returned, Returns, ReturnsSuch, OkSuch, ok_such, Returns-OkSuch}
use plugmem.Base.{ℕ, ◌*◌, ◌≤◌, ◌≡◌, ◌⊎◌, inl, inr, refl, arith}
use plugmem.Base.{List, length, ok}
use plugmem.Base.{All}
use plugmem.Base.Bytes.{Bytes, IsByte}
use plugmem.Paged.{borrowed, len}
use plugmem.Paged.Overlay.{borrowed-IsPaged}
use plugmem.Chunks.{ChunkPool, ChunkPoolCfg, chunk_bytes}
use plugmem.Chunks.Walk.{loaded, overlaid, load, load_overlay}
use plugmem.Chunks.Chains.{IsPool}
use plugmem.Chunks.Checks.{Fits, Accepted, validate_chunks-Accepted}

abbrev Sound : ChunkPoolCfg → ChunkPool → Type 0
Sound cfg p = IsPool p × All Fits p.used × (length p.used * chunk_bytes ≤ cfg.max_bytes)

module _ (cfg : ChunkPoolCfg) (pool : Bytes) (v : List ℕ × ℕ) (a : Accepted cfg pool v) where
  loaded-Sound : Sound cfg (loaded cfg pool v)
  unfolding loaded len
  loaded-Sound = (
    record { paged = (length v.0, a.size); size = a.size },
    a.fit,
    omega (arith, a.size, a.bounded),
  )

  overlaid-len : len (borrowed chunk_bytes pool) ≡ length v.0 * chunk_bytes
  unfolding borrowed len
  overlaid-len = omega (arith, a.size)

  overlaid-Sound : Sound cfg (overlaid cfg pool v)
  unfolding overlaid
  overlaid-Sound = (
    record {
      paged = (borrowed-IsPaged chunk_bytes pool (length v.0) (omega arith) a.size a.few).0;
      size = overlaid-len;
    },
    a.fit,
    omega (arith, a.size, a.bounded),
  )

module _ (cfg : ChunkPoolCfg) (meta pool : Bytes) (hb : All IsByte meta) where
  load-Sound : ReturnsSuch (OkSuch (Sound cfg)) (load cfg meta pool)
  unfolding load
  load-Sound =
      ok_such (Accepted cfg pool) (Sound cfg) _ _ (validate_chunks-Accepted cfg meta pool hb)
        λ v a. (_, refl, loaded-Sound cfg pool v a)

  load_overlay-Sound : ReturnsSuch (OkSuch (Sound cfg)) (load_overlay cfg meta pool)
  unfolding load_overlay
  load_overlay-Sound =
      ok_such (Accepted cfg pool) (Sound cfg) _ _ (validate_chunks-Accepted cfg meta pool hb)
        λ v a. (_, refl, overlaid-Sound cfg pool v a)

-- For any bytes, trusted or not: both loads return, neither panicking nor running on; and a pool that one of
-- them accepts has a page for each of its chunks, at most sixty used bytes in each, and keeps below the
-- configured ceiling.
pub load-Returns-IsPool :
    (cfg : ChunkPoolCfg) (meta pool : Bytes)
    → All IsByte meta
    → Returns (load cfg meta pool)
      × Returns (load_overlay cfg meta pool)
      × ((p : ChunkPool)
          → (load cfg meta pool ≡ returned (ok p)) ⊎ (load_overlay cfg meta pool ≡ returned (ok p))
          → IsPool p × All Fits p.used × (length p.used * chunk_bytes ≤ cfg.max_bytes))
load-Returns-IsPool cfg meta pool hb =
    let (owned, owned_sound) =
      Returns-OkSuch (Sound cfg) (load cfg meta pool) (load-Sound cfg meta pool hb) in
    let (over, over_sound) =
      Returns-OkSuch (Sound cfg) (load_overlay cfg meta pool)
        (load_overlay-Sound cfg meta pool hb) in
    (owned, over, λ p e. elim e [ inl f ↦ owned_sound p f | inr f ↦ over_sound p f ])
