-- ===== src/Base/Slices.antt =====
-- Slices of a buffer: `&bytes[at..at + n]` and `&bytes[at..]`, which panic where the buffer is shorter, and the
-- numbers read from them.
use plugmem.Base.{ℕ, ◌+◌, ◌≤◌, ◌≡◌, arith, length, take, drop, leb, true, if◌then◌else◌}
use plugmem.Base.Bytes.{Bytes, from_le}
use plugmem.Base.Outcomes.{Outcome, returned, panicked, ReturnsSuch, ◌>>=◌}

unfoldable pub window : ℕ → ℕ → Bytes → Outcome Bytes
window at n bytes =
    if leb (at + n) (length bytes) then returned (take n (drop at bytes)) else panicked

unfoldable pub tail_from : ℕ → Bytes → Outcome Bytes
tail_from at bytes = if leb at (length bytes) then returned (drop at bytes) else panicked

-- `from_le_bytes(bytes[at..at + width].try_into().unwrap())`
unfoldable pub read_le : ℕ → ℕ → Bytes → Outcome ℕ
read_le width at bytes = do field ← window at width bytes; returned (from_le field)

pub window_in :
    (at n : ℕ) (bytes : Bytes)
    → at + n ≤ length bytes
    → window at n bytes ≡ returned (take n (drop at bytes))
unfolding window
window_in at n bytes h = ground arith

pub window_such :
    {B : Type 0} (Q : B → Type 0) (at n : ℕ) (bytes : Bytes) (rest : Bytes → Outcome B)
    → at + n ≤ length bytes
    → ReturnsSuch Q (rest (take n (drop at bytes)))
    → ReturnsSuch Q (window at n bytes >>= rest)
window_such Q at n bytes rest h more = rw (window_in at n bytes h) more

pub tail_such :
    {B : Type 0} (Q : B → Type 0) (at : ℕ) (bytes : Bytes) (rest : Bytes → Outcome B)
    → at ≤ length bytes
    → ReturnsSuch Q (rest (drop at bytes))
    → ReturnsSuch Q (tail_from at bytes >>= rest)
unfolding tail_from
tail_such Q at bytes rest h more = let e : leb at (length bytes) ≡ true = ground arith in rw e more

pub read_such :
    {B : Type 0} (Q : B → Type 0) (width at : ℕ) (bytes : Bytes) (rest : ℕ → Outcome B)
    → at + width ≤ length bytes
    → ReturnsSuch Q (rest (from_le (take width (drop at bytes))))
    → ReturnsSuch Q (read_le width at bytes >>= rest)
unfolding read_le
read_such Q width at bytes rest h more = rw (window_in at width bytes h) more
