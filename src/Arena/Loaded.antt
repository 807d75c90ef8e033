-- ===== src/Arena/Loaded.antt =====
-- An arena that a load accepts.
use plugmem.Base.{ℕ, suc, ◌*◌, ◌≤◌, ◌<◌, ◌≡◌, inl, inr, refl, ap, ◌∙◌, arith}
use plugmem.Base.{
  some, get_elem?, List, length, take, drop, Bool, Result, ok, err, All, All-mono, Bool-cases,
  take-take, length-take, length-drop, ◌==◌,
}
use plugmem.Base.Bytes.{Bytes}
use plugmem.Base.Outcomes.{returned, ReturnsSuch, ◌>>=◌, OkSuch, ok_such}
use plugmem.Errors.{ArenaError}
use plugmem.Paged.{Paged, owned_from, borrowed, len, page_of}
use plugmem.Paged.Place.{IsPaged}
use plugmem.Paged.Slices.{slice_of-in}
use plugmem.Paged.Overlay.{borrowed-IsPaged}
use plugmem.Arena.{
  Slot, ArenaCfg, PageEntry, Arena, page_bytes, new, first_key, cached_key, page_at,
}
use plugmem.Arena.Image.{
  Meta, Walk, check_header, assemble, finish, blank, load_walks, load_impl, load, load_overlay,
  all_seen,
}
use plugmem.Arena.Bisect.{window_in}
use plugmem.Arena.Loads.{IsMeta, IsEntry, IsWalk, page_fits}
use plugmem.Chunks.Chains.{unclaimed-le}
use plugmem.Arena.Accept.{Runs, walk_shards-Runs, walk_free-returned, blank-IsWalk}
use plugmem.Arena.Header.{Passed, check_header-Passed, new-IsSlot, Passed-IsMeta}

-- The directory entry of a page that holds slots, with the cached part of the page's first key up to date.
abbrev pub IsFresh : Slot → Arena → ℕ → PageEntry → Type 0
IsFresh T a pages e =
    (e.page < pages)
    × ((c : ℕ) × (get_elem? a.counts e.page ≡ some (suc c)))
    × ((first : Bytes) × (first_key T a e.page ≡ returned first) × (e.key ≡ cached_key T first))

-- The arrays of an arena have the lengths that its shards and pages ask for, each page's slots lie in it, and the
-- directory's entries are up to date.
pub record IsArena (T : Slot) (a : Arena) : Type 0 where
  pub pages : ℕ
  pub paged : IsPaged page_bytes a.pool
  pub size : len a.pool ≡ pages * page_bytes
  pub heads : length a.heads ≡ a.cfg.shards
  pub tails : length a.tails ≡ a.cfg.shards
  pub starts : length a.dir_at ≡ suc a.cfg.shards
  pub next : length a.next ≡ pages
  pub prev : length a.prev ≡ pages
  pub counts : length a.counts ≡ pages
  pub fits : (p c : ℕ) → get_elem? a.counts p ≡ some c → c * T.size ≤ page_bytes
  pub dir : All (IsFresh T a pages) a.dir

-- A backing that reads as the bytes of the image.
record IsBacking (pool : Bytes) (pages : ℕ) (backing : Paged) : Type 0 where
  paged : IsPaged page_bytes backing
  size : len backing ≡ pages * page_bytes
  reads :
      (p : ℕ)
      → p < pages
      → page_of page_bytes backing p ≡ some (take page_bytes (drop (p * page_bytes) pool))

module _ (T : Slot) (cfg : ArenaCfg) (pool : Bytes) (m : Meta) (g : IsMeta T cfg pool m)
    (t : T.key_len ≤ page_bytes) (backing : Paged) (b : IsBacking pool m.pages backing) where
  long : (p : ℕ) → p < m.pages → T.key_len ≤ length (take page_bytes (drop (p * page_bytes) pool))
  long p h = omega (
    arith,
    length-take page_bytes (drop (p * page_bytes) pool),
    length-drop (p * page_bytes) pool,
    page_fits T cfg pool m g p h,
    t,
  )

  first_key-read :
      (a : Arena) (p : ℕ)
      → a.pool ≡ backing
      → p < m.pages
      → first_key T a p ≡ returned (take T.key_len (drop (p * page_bytes) pool))
  unfolding first_key page_at
  first_key-read a p same h =
      let page : Bytes = take page_bytes (drop (p * page_bytes) pool) in
      rw
        (
          same,
          b.reads p h,
          window_in 0 T.key_len page (omega (arith, long p h)),
          take-take T.key_len page_bytes (drop (p * page_bytes) pool) t,
        )
        refl

  assemble-IsArena :
      (starts : List ℕ) (w : Walk)
      → length starts ≡ suc (length m.heads)
      → IsWalk T cfg pool m w
      → IsArena T (assemble cfg backing m starts w)
  unfolding assemble
  assemble-IsArena starts w count s = record {
    pages = m.pages;
    paged = b.paged;
    size = b.size;
    heads = g.heads;
    tails = s.tails;
    starts = count ∙ ap suc g.heads;
    next = g.next;
    prev = s.prev_links;
    counts = g.counts;
    fits = g.fits;
    dir =
        All-mono (IsEntry T pool m) (IsFresh T (assemble cfg backing m starts w) m.pages)
          (λ e h.
            (h.0, h.2, (_, first_key-read (assemble cfg backing m starts w) e.page refl h.0, h.1)))
          w.dir s.dir;
  }

  finish-IsArena :
      (starts : List ℕ) (w : Walk) (seen : List Bool)
      → length starts ≡ suc (length m.heads)
      → IsWalk T cfg pool m w
      → OkSuch (IsArena T) (finish cfg backing m starts w seen)
  unfolding finish
  finish-IsArena starts w seen count s = elim (Bool-cases (all_seen seen)) [
    | inr orphan ↦ rw orphan tt
    | inl whole ↦ elim (Bool-cases (w.live == m.total)) [
      | inr other ↦ rw (whole, other) tt
      | inl same ↦ rw (whole, same) (assemble-IsArena starts w count s)
    ]
  ]

  load_walks-IsArena : ReturnsSuch (OkSuch (IsArena T)) (load_walks T cfg pool backing m)
  unfolding load_walks
  load_walks-IsArena =
      ok_such (Runs T cfg pool m g m.heads) (IsArena T) _ _
        (walk_shards-Runs T cfg pool m g 0 m.heads (blank cfg m) (omega (arith, g.heads))
          (blank-IsWalk T cfg pool m))
        λ r p.
          ok_such (λ (v : List Bool). Unit) (IsArena T) _ _
            (walk_free-returned T cfg pool m g (suc m.pages) m.free_head r.1.seen p.1.seen
              (omega (arith, unclaimed-le r.1.seen, p.1.seen)))
            λ seen u. (_, refl, finish-IsArena r.0 r.1 seen p.0 p.1)

module _ (T : Slot) (cfg : ArenaCfg) (meta pool : Bytes) (backing : Paged)
    (backs : (m : Meta) → Passed T cfg meta pool m → IsBacking pool m.pages backing) where
  load_impl-IsArena : ReturnsSuch (OkSuch (IsArena T)) (load_impl T cfg meta pool backing)
  unfolding load_impl
  load_impl-IsArena = go (new T cfg) refl
    where
      go :
          (made : Result ArenaError Arena)
          → new T cfg ≡ made
          → ReturnsSuch (OkSuch (IsArena T)) (elim made [
            | err e ↦ returned (err e)
            | ok a ↦ check_header T cfg meta pool >>= λ checked. elim checked [
              | err e ↦ returned (err e)
              | ok m ↦ load_walks T cfg pool backing m
            ]
          ])
      go (err e) made = (_, refl, tt)
      go (ok a) made =
          let slot = new-IsSlot T cfg meta pool a made in
          ok_such (Passed T cfg meta pool) (IsArena T) _ _ (check_header-Passed T cfg meta pool)
            λ m passed.
              load_walks-IsArena T cfg pool m (Passed-IsMeta T cfg meta pool m slot passed)
                (omega (arith, slot.in_page, slot.keyed)) backing (backs m passed)

module _ (T : Slot) (cfg : ArenaCfg) (meta pool : Bytes) where
  owned-IsBacking : (m : Meta) → Passed T cfg meta pool m → IsBacking pool m.pages (owned_from pool)
  unfolding len page_of
  owned-IsBacking m p = record {
    paged = (m.pages, p.size);
    size = p.size;
    reads = λ i h. slice_of-in page_bytes pool i (omega (arith, p.size, h));
  }

  overlay-IsBacking :
      (m : Meta) → Passed T cfg meta pool m → IsBacking pool m.pages (borrowed page_bytes pool)
  unfolding len borrowed
  overlay-IsBacking m p =
      let (paged, same) =
        borrowed-IsPaged page_bytes pool m.pages (omega arith) p.size (omega (arith, p.few)) in
      record {
        paged = paged;
        size = omega (arith, p.size);
        reads = λ i h. same i h ∙ slice_of-in page_bytes pool i (omega (arith, p.size, h));
      }

  -- For any bytes, trusted or not: the loads of an arena return, neither panicking nor running on. An arena that
  -- they accept has arrays of the lengths that its shards and pages ask for, no page with more slots than fit in
  -- it, and a directory that names only pages of the image that hold slots, with the cached part of each page's
  -- first key as the page has it.
  pub load-Returns-IsArena :
      ReturnsSuch (OkSuch (IsArena T)) (load T cfg meta pool)
      × ReturnsSuch (OkSuch (IsArena T)) (load_overlay T cfg meta pool)
  unfolding load load_overlay
  load-Returns-IsArena = (
    load_impl-IsArena T cfg meta pool (owned_from pool) owned-IsBacking,
    load_impl-IsArena T cfg meta pool (borrowed page_bytes pool) overlay-IsBacking,
  )
