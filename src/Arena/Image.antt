-- ===== src/Arena/Image.antt =====
-- `dump_meta`, `dump_pool` and the loads, which accept or refuse any bytes. The walks along the chains of the
-- image run on fuel.
use plugmem.Base.{String}
use plugmem.Base.{ℕ, zero, suc, ◌+◌, ◌-◌, ◌*◌, ◌/◌, ◌%◌, ◌^◌, List, [], ◌∷◌, ◌++◌, length}
use plugmem.Base.{String}
use plugmem.Base.{
  none, some, get_elem?, ltb, leb, ◌==◌, if◌then◌else◌, not, Bool, true, false, Result, ok, err,
}
use plugmem.Base.Bytes.{Bytes, to_le, from_le}
use plugmem.Base.Outcomes.{Outcome, returned, ran_out, ◌>>=◌, lift}
use plugmem.Base.Slices.{read_le}
use plugmem.Errors.{ArenaError, none_id}
use plugmem.Paged.{Paged, owned_from, borrowed, len, replicate, set}
use plugmem.Arena.{
  Slot, ShardMode, ArenaCfg, PageEntry, Arena, page_bytes, new, slots_per_page, shard_of, window,
  page_at, cached_key, put,
}
use plugmem.Arena.Scan.{at_least}

unfoldable pub mode_byte : ShardMode → ℕ
mode_byte ShardMode.uniform = 0
mode_byte ShardMode.ordered = 1

unfoldable pub put_all : ℕ → List ℕ → Bytes
put_all width [] = []
put_all width (v ∷ vs) = to_le width v ++ put_all width vs

unfoldable pub dump_meta : Arena → Bytes
dump_meta a =
    to_le 4 (a.cfg.shards % 2 ^ 32)
    ++ (to_le 4 (len a.pool / page_bytes % 2 ^ 32)
        ++ (to_le 4 a.free_head
            ++ (to_le 8 a.total
                ++ (mode_byte a.cfg.mode
                    ∷ 0
                    ∷ 0
                    ∷ 0
                    ∷ (put_all 4 a.heads ++ (put_all 4 a.next ++ put_all 2 a.counts))))))

-- The used bytes of each page, filled up with zeroes.
unfoldable pub dump_pages : Slot → Arena → ℕ → List ℕ → Outcome Bytes
dump_pages T a page [] = returned []
dump_pages T a page (count ∷ counts) = do
  bytes ← page_at a page
  used ← window 0 (count * T.size) bytes
  rest ← dump_pages T a (page + 1) counts
  returned (used ++ (replicate (page_bytes - count * T.size) 0 ++ rest))

unfoldable pub dump_pool : Slot → Arena → Outcome Bytes
dump_pool T a = dump_pages T a 0 a.counts

-- `n` numbers of `width` bytes each, from the offset `at` on.
unfoldable pub get_all : ℕ → ℕ → ℕ → Bytes → Outcome (List ℕ)
get_all width at zero bytes = returned []
get_all width at (suc n) bytes = do
  v ← read_le width at bytes
  vs ← get_all width (at + width) n bytes
  returned (v ∷ vs)

pub record Meta : Type 0 where
  pub pages : ℕ
  pub free_head : ℕ
  pub total : ℕ
  pub heads : List ℕ
  pub next : List ℕ
  pub counts : List ℕ

unfoldable pub any_above : ℕ → List ℕ → Bool
any_above bound [] = false
any_above bound (c ∷ cs) = if ltb bound c then true else any_above bound cs

abbrev pub corrupt : {A : Type 0} → String → Result ArenaError A
corrupt what = err (ArenaError.corrupt what)

-- The fields of the header.
pub record Header : Type 0 where
  pub shards : ℕ
  pub pages : ℕ
  pub free_head : ℕ
  pub total : ℕ
  pub mode : ℕ
  pub reserved : Bytes

unfoldable pub read_header : Bytes → Outcome Header
read_header meta = do
  shards ← read_le 4 0 meta
  pages ← read_le 4 4 meta
  free_head ← read_le 4 8 meta
  total ← read_le 8 12 meta
  mode ← read_le 1 20 meta
  reserved ← window 21 3 meta
  returned (record {
    shards = shards;
    pages = pages;
    free_head = free_head;
    total = total;
    mode = mode;
    reserved = reserved;
  })

unfoldable pub read_arrays : Header → Bytes → Outcome Meta
read_arrays h meta = do
  heads ← get_all 4 24 h.shards meta
  next ← get_all 4 (24 + h.shards * 4) h.pages meta
  counts ← get_all 2 (24 + h.shards * 4 + h.pages * 4) h.pages meta
  returned (record {
    pages = h.pages;
    free_head = h.free_head;
    total = h.total;
    heads = heads;
    next = next;
    counts = counts;
  })

unfoldable pub check_counts : Slot → Meta → Outcome (Result ArenaError Meta)
check_counts T m =
    if any_above (slots_per_page T) m.counts
    then returned (corrupt "arena page count exceeds slots per page")
    else returned (ok m)

unfoldable pub check_sizes :
    Slot → ArenaCfg → Bytes → Bytes → Header → Outcome (Result ArenaError Meta)
check_sizes T cfg meta pool h =
    if not (from_le h.reserved == 0)
    then returned (corrupt "arena meta reserved bytes must be zero")
    else if not (h.shards == cfg.shards)
    then returned (corrupt "arena meta shard count disagrees with cfg")
    else if not (h.mode == mode_byte cfg.mode)
    then returned (corrupt "arena meta shard mode disagrees with cfg")
    else if leb none_id h.pages
    then returned (corrupt "arena page count overflows the index space")
    else if not (length meta == 24 + h.shards * 4 + h.pages * 6)
    then returned (corrupt "arena meta length mismatch")
    else if not (length pool == h.pages * page_bytes)
    then returned (corrupt "arena pool length mismatch")
    else read_arrays h meta >>= check_counts T

-- The reads and tests in front of the walks.
unfoldable pub check_header : Slot → ArenaCfg → Bytes → Bytes → Outcome (Result ArenaError Meta)
check_header T cfg meta pool =
    if ltb (length meta) 24
    then returned (corrupt "arena meta shorter than its header")
    else read_header meta >>= check_sizes T cfg meta pool

-- What the walks keep.
pub record Walk : Type 0 where
  pub seen : List Bool
  pub live : ℕ
  pub dir : List PageEntry
  pub prev_links : List ℕ
  pub tails : List ℕ

-- The first key of a page lies above the last key of its predecessor.
unfoldable pub ascends : Slot → Bytes → List ℕ → ℕ → Bytes → Outcome Bool
ascends T pool counts predecessor first =
    if predecessor == none_id
    then returned true
    else lift (get_elem? counts predecessor) >>= λ count.
        window (predecessor * page_bytes + (count - 1) * T.size) T.key_len pool >>= λ last.
        returned (not (at_least last first))

unfoldable pub visited : Slot → Walk → ℕ → ℕ → ℕ → ℕ → ℕ → Bytes → Outcome Walk
visited T w shard page predecessor next count first = do
  prev_links ← put w.prev_links page predecessor
  tails ← (if next == none_id then put w.tails shard page else returned w.tails)
  returned (record {
    seen = set w.seen page true;
    live = w.live + count;
    dir = w.dir ++ (record { key = cached_key T first; page = page } ∷ []);
    prev_links = prev_links;
    tails = tails;
  })

-- The tests on a page whose count and first key were read.
unfoldable pub settle_page :
    Slot
    → ArenaCfg
    → Bytes
    → Meta
    → Walk
    → ℕ
    → ℕ
    → ℕ
    → ℕ
    → Bytes
    → Outcome (Result ArenaError (ℕ × Walk))
settle_page T cfg pool m w shard page predecessor count first =
    if not (shard_of cfg first == shard)
    then returned (corrupt "arena page sits in the wrong shard")
    else ascends T pool m.counts predecessor first >>= λ up.
        if not up
        then returned (corrupt "arena chain pages out of key order")
        else lift (get_elem? m.next page) >>= λ next.
            visited T w shard page predecessor next count first >>= λ v. returned (ok (next, v))

-- A round of a chain's walk: what comes behind the page, and what was noted.
unfoldable pub visit_page :
    Slot → ArenaCfg → Bytes → Meta → Walk → ℕ → ℕ → ℕ → Outcome (Result ArenaError (ℕ × Walk))
visit_page T cfg pool m w shard page predecessor = elim (get_elem? w.seen page) [
  | none ↦ returned (corrupt "arena chain page out of bounds")
  | some true ↦ returned (corrupt "arena page linked more than once")
  | some false ↦ lift (get_elem? m.counts page) >>= λ count. elim count [
    | zero ↦ returned (corrupt "arena chain contains an empty page")
    | suc c ↦ window (page * page_bytes) T.key_len pool >>= λ first.
        settle_page T cfg pool m w shard page predecessor (suc c) first
  ]
]

unfoldable pub walk_chain :
    Slot → ArenaCfg → Bytes → Meta → ℕ → ℕ → ℕ → ℕ → Walk → Outcome (Result ArenaError Walk)
walk_chain T cfg pool m shard zero page predecessor w = ran_out
walk_chain T cfg pool m shard (suc fuel) page predecessor w = elim (page == none_id) [
  | true ↦ returned (ok w)
  | false ↦ visit_page T cfg pool m w shard page predecessor >>= λ v. elim v [
    | err e ↦ returned (err e)
    | ok r ↦ walk_chain T cfg pool m shard fuel r.0 page r.1
  ]
]

-- Shard after shard; the starts of the directory's runs come out with the walk's notes.
unfoldable pub walk_shards :
    Slot → ArenaCfg → Bytes → Meta → ℕ → List ℕ → Walk → Outcome (Result ArenaError (List ℕ × Walk))
walk_shards T cfg pool m shard [] w = returned (ok (length w.dir ∷ [], w))
walk_shards T cfg pool m shard (head ∷ heads) w =
    walk_chain T cfg pool m shard (suc m.pages) head none_id w >>= λ walked. elim walked [
      | err e ↦ returned (err e)
      | ok v ↦ walk_shards T cfg pool m (shard + 1) heads v >>= λ rest. elim rest [
        | err e ↦ returned (err e)
        | ok r ↦ returned (ok (length w.dir ∷ r.0, r.1))
      ]
    ]

unfoldable pub visit_free : List ℕ → ℕ → List Bool → Outcome (Result ArenaError Unit)
visit_free counts page seen = elim (get_elem? seen page) [
  | none ↦ returned (corrupt "arena free page out of bounds")
  | some true ↦ returned (corrupt "arena page linked more than once")
  | some false ↦ lift (get_elem? counts page) >>= λ count. elim count [
    | zero ↦ returned (ok tt)
    | suc c ↦ returned (corrupt "arena free page has a nonzero count")
  ]
]

unfoldable pub walk_free : Meta → ℕ → ℕ → List Bool → Outcome (Result ArenaError (List Bool))
walk_free m zero page seen = ran_out
walk_free m (suc fuel) page seen = elim (page == none_id) [
  | true ↦ returned (ok seen)
  | false ↦ visit_free m.counts page seen >>= λ v. elim v [
    | err e ↦ returned (err e)
    | ok u ↦ lift (get_elem? m.next page) >>= λ next. walk_free m fuel next (set seen page true)
  ]
]

unfoldable pub all_seen : List Bool → Bool
all_seen [] = true
all_seen (s ∷ ss) = if s then all_seen ss else false

unfoldable pub assemble : ArenaCfg → Paged → Meta → List ℕ → Walk → Arena
assemble cfg backing m dir_at w = record {
  pool = backing;
  heads = m.heads;
  next = m.next;
  prev = w.prev_links;
  counts = m.counts;
  tails = w.tails;
  dir = w.dir;
  dir_at = dir_at;
  free_head = m.free_head;
  total = m.total;
  cfg = cfg;
}

unfoldable pub finish :
    ArenaCfg → Paged → Meta → List ℕ → Walk → List Bool → Result ArenaError Arena
finish cfg backing m dir_at w seen =
    if not (all_seen seen)
    then corrupt "arena has an orphan page"
    else if not (w.live == m.total)
    then corrupt "arena record total disagrees with page counts"
    else ok (assemble cfg backing m dir_at w)

unfoldable pub blank : ArenaCfg → Meta → Walk
blank cfg m = record {
  seen = replicate m.pages false;
  live = 0;
  dir = [];
  prev_links = replicate m.pages none_id;
  tails = replicate cfg.shards none_id;
}

unfoldable pub load_walks :
    Slot → ArenaCfg → Bytes → Paged → Meta → Outcome (Result ArenaError Arena)
load_walks T cfg pool backing m = walk_shards T cfg pool m 0 m.heads (blank cfg m) >>= λ walked.
    elim walked [
      | err e ↦ returned (err e)
      | ok r ↦ walk_free m (suc m.pages) m.free_head r.1.seen >>= λ freed. elim freed [
        | err e ↦ returned (err e)
        | ok seen ↦ returned (finish cfg backing m r.0 r.1 seen)
      ]
    ]

unfoldable pub load_impl :
    Slot → ArenaCfg → Bytes → Bytes → Paged → Outcome (Result ArenaError Arena)
load_impl T cfg meta pool backing = elim (new T cfg) [
  | err e ↦ returned (err e)
  | ok a ↦ check_header T cfg meta pool >>= λ checked. elim checked [
    | err e ↦ returned (err e)
    | ok m ↦ load_walks T cfg pool backing m
  ]
]

unfoldable pub load : Slot → ArenaCfg → Bytes → Bytes → Outcome (Result ArenaError Arena)
load T cfg meta pool = load_impl T cfg meta pool (owned_from pool)

-- `load_borrowed` has the same body.
unfoldable pub load_overlay : Slot → ArenaCfg → Bytes → Bytes → Outcome (Result ArenaError Arena)
load_overlay T cfg meta pool = load_impl T cfg meta pool (borrowed page_bytes pool)
