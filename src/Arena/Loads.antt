-- ===== src/Arena/Loads.antt =====
-- Loading an arena from untrusted bytes: the walks along the image's chains.
use plugmem.Base.{ℕ, zero, suc, ◌+◌, ◌-◌, ◌*◌, ◌≤◌, ◌<◌, ◌≡◌, ◌⊎◌, inl, inr, refl, ap, ◌∙◌, arith}
use plugmem.Base.{
  some, get_elem?, List, [], ◌∷◌, ◌++◌, length, take, drop, ltb, ◌==◌, Bool, true, false, Result,
  ok, err, All, All-append, Option-cases, Bool-cases, if◌then◌else◌, not,
}
use plugmem.Base.Bytes.{Bytes}
use plugmem.Base.Outcomes.{
  Outcome, returned, ReturnsSuch, then_such, lift_such, ◌>>=◌, lift, OkSuch,
}
use plugmem.Base.Slices.{window_such}
use plugmem.Errors.{ArenaError, none_id}
use plugmem.Paged.{set}
use plugmem.Paged.Place.{length-set, get-in}
use plugmem.Paged.Copy.{eq_cases}
use plugmem.Chunks.Chains.{unclaimed, unclaimed-set, get-lt}
use plugmem.Arena.{Slot, ArenaCfg, PageEntry, page_bytes, shard_of, window, cached_key, put}
use plugmem.Arena.Slots.{times_mono, suc_times}
use plugmem.Arena.Image.{Meta, Walk, ascends, visited, settle_page, visit_page, corrupt}

put_such :
    {A B : Type 0} (Q : B → Type 0) (v : List A) (i : ℕ) (x : A) (rest : List A → Outcome B)
    → i < length v
    → ReturnsSuch Q (rest (set v i x))
    → ReturnsSuch Q (put v i x >>= rest)
unfolding put
put_such Q v i x rest h more = let t : ltb i (length v) ≡ true = ground arith in rw t more

-- An image whose arrays have the lengths that its header says.
pub record IsMeta (T : Slot) (cfg : ArenaCfg) (pool : Bytes) (m : Meta) : Type 0 where
  pub heads : length m.heads ≡ cfg.shards
  pub next : length m.next ≡ m.pages
  pub counts : length m.counts ≡ m.pages
  pub pool_size : length pool ≡ m.pages * page_bytes
  pub small : T.key_len ≤ T.size
  pub fits : (p c : ℕ) → get_elem? m.counts p ≡ some c → c * T.size ≤ page_bytes

-- An entry of the directory: a page of the image that holds slots, with the cached part of its first key.
abbrev pub IsEntry : Slot → Bytes → Meta → PageEntry → Type 0
IsEntry T pool m e =
    (e.page < m.pages)
    × (e.key ≡ cached_key T (take T.key_len (drop (e.page * page_bytes) pool)))
    × ((c : ℕ) × (get_elem? m.counts e.page ≡ some (suc c)))

pub record IsWalk (T : Slot) (cfg : ArenaCfg) (pool : Bytes) (m : Meta) (w : Walk) : Type 0 where
  pub seen : length w.seen ≡ m.pages
  pub prev_links : length w.prev_links ≡ m.pages
  pub tails : length w.tails ≡ cfg.shards
  pub dir : All (IsEntry T pool m) w.dir

-- A page that a chain may have come from.
abbrev pub IsPredecessor : Meta → ℕ → Type 0
IsPredecessor m p =
    (p ≡ none_id) ⊎ ((p < m.pages) × ((c : ℕ) × (get_elem? m.counts p ≡ some (suc c))))

module _ (T : Slot) (cfg : ArenaCfg) (pool : Bytes) (m : Meta) (g : IsMeta T cfg pool m) where
  pub page_fits : (p : ℕ) → p < m.pages → p * page_bytes + page_bytes ≤ length pool
  page_fits p h = omega (arith, g.pool_size, times_mono (suc p) m.pages page_bytes h)

  -- A slot of a page that holds more ends in the image.
  last_fits :
      (p c : ℕ)
      → p < m.pages
      → get_elem? m.counts p ≡ some (suc c)
      → p * page_bytes + c * T.size + T.key_len ≤ length pool
  last_fits p c h e = omega (arith, page_fits p h, g.fits p (suc c) e, suc_times c T.size, g.small)

  first_fits :
      (p c : ℕ)
      → p < m.pages
      → get_elem? m.counts p ≡ some (suc c)
      → p * page_bytes + T.key_len ≤ length pool
  first_fits p c h e = omega (arith, last_fits p c h e)

  before_last : (c : ℕ) → (suc c - 1) * T.size ≡ c * T.size
  before_last c = ap (λ (n : ℕ). n * T.size) (omega arith)

  ascends-returned :
      (predecessor : ℕ) (first : Bytes)
      → IsPredecessor m predecessor
      → ReturnsSuch (λ (b : Bool). Unit) (ascends T pool m.counts predecessor first)
  unfolding ascends
  ascends-returned predecessor first valid = elim (eq_cases predecessor none_id) [
    | inl z ↦ let t : (predecessor == none_id) ≡ true = ground arith in rw t (true, refl, tt)
    | inr n ↦
        let t : (predecessor == none_id) ≡ false = ground arith in
        rw t (elim valid [
          | inl z ↦ absurd (n z)
          | inr (h, (c, e)) ↦
              lift_such (λ (b : Bool). Unit) (get_elem? m.counts predecessor) _ (suc c) e
                (window_such (λ (b : Bool). Unit) (predecessor * page_bytes + (suc c - 1) * T.size)
                  T.key_len pool _ (omega (arith, before_last c, last_fits predecessor c h e))
                  (_, refl, tt))
        ])
  ]

  module _ (shard page : ℕ) (w : Walk) (s : IsWalk T cfg pool m w) (inside : shard < cfg.shards)
      (unseen : get_elem? w.seen page ≡ some false) (c : ℕ)
      (counted : get_elem? m.counts page ≡ some (suc c)) where
    page_in : page < m.pages
    page_in = omega (arith, s.seen, get-lt w.seen page false unseen)

    -- What a round of a chain's walk comes to where it does not refuse.
    abbrev Moves : ℕ × Walk → Type 0
    Moves (next, v) = IsWalk T cfg pool m v × (unclaimed v.seen < unclaimed w.seen)

    abbrev first : Bytes
    first = take T.key_len (drop (page * page_bytes) pool)

    moved :
        (predecessor : ℕ) (tails : List ℕ)
        → length tails ≡ cfg.shards
        → IsWalk T cfg pool m (record {
          seen = set w.seen page true;
          live = w.live + suc c;
          dir = w.dir ++ (record { key = cached_key T first; page = page } ∷ []);
          prev_links = set w.prev_links page predecessor;
          tails = tails;
        })
    moved predecessor tails kept = record {
      seen = length-set w.seen page true ∙ s.seen;
      prev_links = length-set w.prev_links page predecessor ∙ s.prev_links;
      tails = kept;
      dir =
          All-append (IsEntry T pool m) w.dir
            (record { key = cached_key T first; page = page } ∷ []) s.dir
            ((page_in, refl, (c, counted)), tt);
    }

    tail_set :
        (next : ℕ)
        → ReturnsSuch
            (λ (v : List ℕ). length v ≡ cfg.shards)
            (if next == none_id then put w.tails shard page else returned w.tails)
    unfolding put
    tail_set next = elim (eq_cases next none_id) [
      | inl z ↦
          let t : (next == none_id) ≡ true = ground arith in
          let u : ltb shard (length w.tails) ≡ true = ground (arith, s.tails) in
          rw (t, u) (_, refl, length-set w.tails shard page ∙ s.tails)
      | inr n ↦ let t : (next == none_id) ≡ false = ground arith in rw t (_, refl, s.tails)
    ]

    visited-Moves :
        (predecessor next : ℕ)
        → ReturnsSuch
            (λ (v : Walk). Moves (next, v))
            (visited T w shard page predecessor next (suc c) first)
    unfolding visited
    visited-Moves predecessor next =
        put_such (λ (v : Walk). Moves (next, v)) w.prev_links page predecessor _
          (omega (arith, s.prev_links, page_in))
          (then_such (λ (v : List ℕ). length v ≡ cfg.shards) (λ (v : Walk). Moves (next, v)) _ _
            (tail_set next)
            λ tails kept. (
              _,
              refl,
              (moved predecessor tails kept, omega (arith, unclaimed-set w.seen page unseen)),
            ))

    -- The tests on a page, and what is noted of it.
    settle_page-Moves :
        (predecessor : ℕ)
        → IsPredecessor m predecessor
        → ReturnsSuch
            (OkSuch Moves)
            (settle_page T cfg pool m w shard page predecessor (suc c) first)
    unfolding settle_page
    settle_page-Moves predecessor valid = elim (Bool-cases (shard_of cfg first == shard)) [
      | inr other ↦ rw other (_, refl, tt)
      | inl own ↦ rw own (
          then_such (λ (b : Bool). Unit) (OkSuch Moves) _ _
            (ascends-returned predecessor first valid) (λ up u. order up))
    ]
      where
        order :
            (up : Bool)
            → ReturnsSuch (OkSuch Moves) (
                if not up
                then returned (corrupt "arena chain pages out of key order")
                else lift (get_elem? m.next page) >>= λ next.
                    visited T w shard page predecessor next (suc c) first >>= λ v.
                    returned (ok (next, v)))
        order false = (_, refl, tt)
        order true =
            let (next, e) = get-in m.next page (omega (arith, g.next, page_in)) in
            lift_such (OkSuch Moves) (get_elem? m.next page) _ next e (
              then_such (λ (v : Walk). Moves (next, v)) (OkSuch Moves) _ _
                (visited-Moves predecessor next) λ v p. (_, refl, p))

  -- A round of a chain's walk, from any page that it may be at.
  abbrev pub Visits : Walk → ℕ → ℕ × Walk → Type 0
  Visits w page (next, v) =
      IsWalk T cfg pool m v × (unclaimed v.seen < unclaimed w.seen) × IsPredecessor m page

  pub visit_page-Visits :
      (shard page predecessor : ℕ) (w : Walk)
      → IsWalk T cfg pool m w
      → shard < cfg.shards
      → IsPredecessor m predecessor
      → ReturnsSuch (OkSuch (Visits w page)) (visit_page T cfg pool m w shard page predecessor)
  unfolding visit_page
  visit_page-Visits shard page predecessor w s inside valid =
      elim (Option-cases (get_elem? w.seen page)) [
        | inl gone ↦ rw (gone, visit_page) (_, refl, tt)
        | inr (true, e) ↦ rw (e, visit_page) (_, refl, tt)
        | inr (false, e) ↦
            let (count, counted) =
              get-in m.counts page (omega (arith, g.counts, s.seen, get-lt w.seen page false e)) in
            rw (e, visit_page)
              (lift_such (OkSuch (Visits w page)) (get_elem? m.counts page) _ count counted
                (held count counted e))
      ]
    where
      held :
          (count : ℕ)
          → get_elem? m.counts page ≡ some count
          → get_elem? w.seen page ≡ some false
          → ReturnsSuch (OkSuch (Visits w page)) (elim count [
            | zero ↦ returned (corrupt "arena chain contains an empty page")
            | suc c ↦ window (page * page_bytes) T.key_len pool >>= λ first.
                settle_page T cfg pool m w shard page predecessor (suc c) first
          ])
      held zero counted e = (_, refl, tt)
      held (suc c) counted e =
          let here = page_in shard page w s inside e c counted in
          window_such (OkSuch (Visits w page)) (page * page_bytes) T.key_len pool _
            (first_fits page c here counted)
            (let (r, f, p) =
                settle_page-Moves shard page w s inside e c counted predecessor valid in
              (r, f, widen r p here))
        where
          widen :
              (r : Result ArenaError (ℕ × Walk))
              → OkSuch (Moves shard page w s inside e c counted) r
              → page < m.pages
              → OkSuch (Visits w page) r
          widen (err x) p here = tt
          widen (ok v) p here = (p.0, p.1, inr (here, (c, counted)))
