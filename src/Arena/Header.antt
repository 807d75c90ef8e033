-- ===== src/Arena/Header.antt =====
-- The reads and tests of a load in front of its walks, on any bytes.
use plugmem.Base.{ℕ, zero, suc, ◌+◌, ◌*◌, ◌≤◌, ◌<◌, ◌≡◌, refl, ap, ◌∙◌, arith}
use plugmem.Base.{some, get_elem?, List, [], ◌∷◌, length, ◌==◌, ltb, leb, not, false, ok}
use plugmem.Base.Bytes.{Bytes, from_le}
use plugmem.Base.Outcomes.{ReturnsSuch, then_such, OkSuch, test_such}
use plugmem.Base.Slices.{read_such, window_such}
use plugmem.Arena.Slots.{suc_times}
use plugmem.Errors.{none_id}
use plugmem.Arena.{Slot, ArenaCfg, Arena, page_bytes, bad_slot, new, slots_per_page}
use plugmem.Arena.Image.{
  Meta, Header, any_above, get_all, mode_byte, read_header, read_arrays, check_counts, check_sizes,
  check_header,
}
use plugmem.Arena.Loads.{IsMeta}
use native.Mathlib.Nat.{le-div_iff_mul-le}

-- The header's reads and tests, where none of them refuses.
abbrev Sized : ℕ → List ℕ → Type 0
Sized n vs = length vs ≡ n

get_all-Sized :
    (width at n : ℕ) (bytes : Bytes)
    → at + n * width ≤ length bytes
    → ReturnsSuch (Sized n) (get_all width at n bytes)
unfolding get_all
get_all-Sized width at zero bytes h = ([], refl, refl)
get_all-Sized width at (suc n) bytes h =
    read_such (Sized (suc n)) width at bytes _ (omega (arith, suc_times n width, h)) (
      then_such (Sized n) (Sized (suc n)) _ _
        (get_all-Sized width (at + width) n bytes (omega (arith, suc_times n width, h)))
        λ vs e. (_, refl, ap suc e))

module _ (T : Slot) (cfg : ArenaCfg) (meta pool : Bytes) where
  any_above-no :
      (bound : ℕ) (cs : List ℕ)
      → any_above bound cs ≡ false
      → (i c : ℕ) → get_elem? cs i ≡ some c
      → c ≤ bound
  unfolding any_above
  any_above-no bound [] h i c e = cc
  any_above-no bound (x ∷ cs) h zero c e = ground arith
  any_above-no bound (x ∷ cs) h (suc i) c e = any_above-no bound cs (ground arith) i c e

  pub record Passed (m : Meta) : Type 0 where
    pub heads : length m.heads ≡ cfg.shards
    pub next : length m.next ≡ m.pages
    pub counts : length m.counts ≡ m.pages
    pub few : m.pages < none_id
    pub size : length pool ≡ m.pages * page_bytes
    pub bounded : any_above (slots_per_page T) m.counts ≡ false

  -- What the tests on the lengths and counts have left open.
  record Read (m : Meta) : Type 0 where
    heads : length m.heads ≡ cfg.shards
    next : length m.next ≡ m.pages
    counts : length m.counts ≡ m.pages
    few : m.pages < none_id
    size : length pool ≡ m.pages * page_bytes

  read_arrays-Read :
      (h : Header)
      → h.shards ≡ cfg.shards
      → h.pages < none_id
      → length meta ≡ 24 + h.shards * 4 + h.pages * 6
      → length pool ≡ h.pages * page_bytes
      → ReturnsSuch Read (read_arrays h meta)
  unfolding read_arrays
  read_arrays-Read h same few whole size =
      then_such (Sized h.shards) Read _ _ (get_all-Sized 4 24 h.shards meta (omega (arith, whole)))
        λ heads a.
          then_such (Sized h.pages) Read _ _
            (get_all-Sized 4 (24 + h.shards * 4) h.pages meta (omega (arith, whole)))
            λ next b.
              then_such (Sized h.pages) Read _ _
                (get_all-Sized 2 (24 + h.shards * 4 + h.pages * 4) h.pages meta
                  (omega (arith, whole)))
                λ counts c. (
                  _,
                  refl,
                  record { heads = a ∙ same; next = b; counts = c; few = few; size = size },
                )

  check_counts-Passed : (m : Meta) → Read m → ReturnsSuch (OkSuch Passed) (check_counts T m)
  unfolding check_counts
  check_counts-Passed m r = test_such Passed (any_above (slots_per_page T) m.counts) _ _ λ bounded.
      (
        _,
        refl,
        record {
          heads = r.heads;
          next = r.next;
          counts = r.counts;
          few = r.few;
          size = r.size;
          bounded = bounded;
        },
      )

  check_sizes-Passed : (h : Header) → ReturnsSuch (OkSuch Passed) (check_sizes T cfg meta pool h)
  unfolding check_sizes
  check_sizes-Passed h = test_such Passed (not (from_le h.reserved == 0)) _ _ λ zeros.
      test_such Passed (not (h.shards == cfg.shards)) _ _ λ same.
        test_such Passed (not (h.mode == mode_byte cfg.mode)) _ _ λ mode.
          test_such Passed (leb none_id h.pages) _ _ λ few.
            test_such Passed (not (length meta == 24 + h.shards * 4 + h.pages * 6)) _ _ λ whole.
              test_such Passed (not (length pool == h.pages * page_bytes)) _ _ λ size.
                then_such Read (OkSuch Passed) _ _
                  (read_arrays-Read h (ground (arith, same)) (ground (arith, few))
                    (ground (arith, whole)) (ground (arith, size)))
                  check_counts-Passed

  read_header-returned : 24 ≤ length meta → ReturnsSuch (λ (h : Header). Unit) (read_header meta)
  unfolding read_header
  read_header-returned h =
      read_such (λ (h : Header). Unit) 4 0 meta _ (omega arith)
        (read_such (λ (h : Header). Unit) 4 4 meta _ (omega arith)
          (read_such (λ (h : Header). Unit) 4 8 meta _ (omega arith)
            (read_such (λ (h : Header). Unit) 8 12 meta _ (omega arith)
              (read_such (λ (h : Header). Unit) 1 20 meta _ (omega arith)
                (window_such (λ (h : Header). Unit) 21 3 meta _ (omega arith) (_, refl, tt))))))

  pub check_header-Passed : ReturnsSuch (OkSuch Passed) (check_header T cfg meta pool)
  unfolding check_header
  check_header-Passed = test_such Passed (ltb (length meta) 24) _ _ λ long.
      then_such (λ (h : Header). Unit) (OkSuch Passed) _ _
        (read_header-returned (ground (arith, long))) λ h u. check_sizes-Passed h

  pub record IsSlot : Type 0 where
    pub positive : 0 < T.size
    pub in_page : T.size ≤ page_bytes
    pub keyed : T.key_len ≤ T.size

  pub new-IsSlot : (a : Arena) → new T cfg ≡ ok a → IsSlot
  unfolding new bad_slot
  new-IsSlot a e = record { positive = ground arith; in_page = ground arith; keyed = ground arith }

  pub Passed-IsMeta : (m : Meta) → IsSlot → Passed m → IsMeta T cfg pool m
  unfolding slots_per_page
  Passed-IsMeta m t p = record {
    heads = p.heads;
    next = p.next;
    counts = p.counts;
    pool_size = p.size;
    small = t.keyed;
    fits = λ q c e.
        (le-div_iff_mul-le t.positive).0 (any_above-no (slots_per_page T) m.counts p.bounded q c e);
  }
