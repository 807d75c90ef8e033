-- ===== src/Arena/Accept.antt =====
-- What the walks of a load of an arena come to, on any bytes.
use plugmem.Base.{ℕ, zero, suc, ◌+◌, ◌<◌, ◌≡◌, inl, inr, refl, ap, ◌∙◌, arith}
use plugmem.Base.{
  get_elem?, List, [], ◌∷◌, length, ◌==◌, Bool, true, false, ok, Option-cases, Bool-cases,
}
use plugmem.Base.Bytes.{Bytes}
use plugmem.Base.Outcomes.{returned, ReturnsSuch, lift_such, OkSuch, ok_such}
use plugmem.Errors.{none_id}
use plugmem.Paged.{set}
use plugmem.Paged.Place.{length-set, length-replicate, get-in}
use plugmem.Chunks.Chains.{unclaimed, unclaimed-le, unclaimed-set, get-lt}
use plugmem.Arena.{Slot, ArenaCfg}
use plugmem.Arena.Image.{Meta, Walk, walk_chain, walk_shards, visit_free, walk_free, blank, corrupt}
use plugmem.Arena.Loads.{IsMeta, IsWalk, IsPredecessor, Visits, visit_page-Visits}

module _ (T : Slot) (cfg : ArenaCfg) (pool : Bytes) (m : Meta) (g : IsMeta T cfg pool m) where
  walk_chain-end :
      (shard fuel page predecessor : ℕ) (w : Walk)
      → page ≡ none_id
      → walk_chain T cfg pool m shard (suc fuel) page predecessor w ≡ returned (ok w)
  unfolding walk_chain
  walk_chain-end shard fuel page predecessor w h = ground arith

  walk_chain-IsWalk :
      (shard fuel page predecessor : ℕ) (w : Walk)
      → shard < cfg.shards
      → unclaimed w.seen < fuel
      → IsPredecessor m predecessor
      → IsWalk T cfg pool m w
      → ReturnsSuch
          (OkSuch (IsWalk T cfg pool m))
          (walk_chain T cfg pool m shard fuel page predecessor w)
  unfolding walk_chain
  walk_chain-IsWalk shard zero page predecessor w inside enough valid s = absurd (omega arith)
  walk_chain-IsWalk shard (suc fuel) page predecessor w inside enough valid s =
      elim (Bool-cases (page == none_id)) [
        | inl done ↦ rw (done, walk_chain) (_, refl, s)
        | inr more ↦
            rw (more, walk_chain)
              (ok_such (Visits T cfg pool m g w page) (IsWalk T cfg pool m) _ _
                (visit_page-Visits T cfg pool m g shard page predecessor w s inside valid)
                λ r p.
                  walk_chain-IsWalk shard fuel r.0 page r.1 inside (omega (arith, p.1)) p.2 p.0)
      ]

  abbrev pub Runs : List ℕ → List ℕ × Walk → Type 0
  Runs heads (starts, w) = (length starts ≡ suc (length heads)) × IsWalk T cfg pool m w

  pub walk_shards-Runs :
      (shard : ℕ) (heads : List ℕ) (w : Walk)
      → shard + length heads ≡ cfg.shards
      → IsWalk T cfg pool m w
      → ReturnsSuch (OkSuch (Runs heads)) (walk_shards T cfg pool m shard heads w)
  unfolding walk_shards
  walk_shards-Runs shard [] w e s = (_, refl, (refl, s))
  walk_shards-Runs shard (head ∷ heads) w e s =
      ok_such (IsWalk T cfg pool m) (Runs (head ∷ heads)) _ _
        (walk_chain-IsWalk shard (suc m.pages) head none_id w (omega (arith, e))
          (omega (arith, unclaimed-le w.seen, s.seen)) (inl refl) s)
        λ v p.
          ok_such (Runs heads) (Runs (head ∷ heads)) _ _
            (walk_shards-Runs (shard + 1) heads v (omega (arith, e)) p)
            λ r q. (_, refl, (ap suc q.0, q.1))

  -- The walk along the free-list only has to end.
  -- The page is marked for the first time.
  abbrev Fresh : List Bool → ℕ → Unit {0} → Type 0
  Fresh seen page u = (unclaimed seen ≡ suc (unclaimed (set seen page true))) × (page < m.pages)

  visit_free-Fresh :
      (page : ℕ) (seen : List Bool)
      → length seen ≡ m.pages
      → ReturnsSuch (OkSuch (Fresh seen page)) (visit_free m.counts page seen)
  unfolding visit_free
  visit_free-Fresh page seen same = elim (Option-cases (get_elem? seen page)) [
    | inl gone ↦ rw (gone, visit_free) (_, refl, tt)
    | inr (true, e) ↦ rw (e, visit_free) (_, refl, tt)
    | inr (false, e) ↦
        let inside : page < m.pages = omega (arith, same, get-lt seen page false e) in
        let (count, counted) = get-in m.counts page (omega (arith, g.counts, inside)) in
        rw (e, visit_free)
          (lift_such (OkSuch (Fresh seen page)) (get_elem? m.counts page) _ count counted
            (held count (unclaimed-set seen page e, inside)))
  ]
    where
      held :
          (count : ℕ)
          → Fresh seen page tt
          → ReturnsSuch (OkSuch (Fresh seen page)) (elim count [
            | zero ↦ returned (ok tt)
            | suc c ↦ returned (corrupt "arena free page has a nonzero count")
          ])
      held zero p = (_, refl, p)
      held (suc c) p = (_, refl, tt)

  pub walk_free-returned :
      (fuel page : ℕ) (seen : List Bool)
      → length seen ≡ m.pages
      → unclaimed seen < fuel
      → ReturnsSuch (OkSuch (λ (v : List Bool). Unit)) (walk_free m fuel page seen)
  unfolding walk_free
  walk_free-returned zero page seen same enough = absurd (omega arith)
  walk_free-returned (suc fuel) page seen same enough = elim (Bool-cases (page == none_id)) [
    | inl done ↦ rw (done, walk_free) (_, refl, tt)
    | inr more ↦
        rw (more, walk_free)
          (ok_such (Fresh seen page) (λ (v : List Bool). Unit) _ _ (visit_free-Fresh page seen same)
            λ u p.
              let (next, e) = get-in m.next page (omega (arith, g.next, p.1)) in
              lift_such (OkSuch (λ (v : List Bool). Unit)) (get_elem? m.next page) _ next e (
                walk_free-returned fuel next (set seen page true) (length-set seen page true ∙ same)
                  (omega (arith, p.0, enough))))
  ]

pub blank-IsWalk :
    (T : Slot) (cfg : ArenaCfg) (pool : Bytes) (m : Meta) → IsWalk T cfg pool m (blank cfg m)
unfolding blank
blank-IsWalk T cfg pool m = record {
  seen = length-replicate m.pages false;
  prev_links = length-replicate m.pages none_id;
  tails = length-replicate cfg.shards none_id;
  dir = tt;
}
