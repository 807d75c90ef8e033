-- ===== src/Metadata.antt =====
-- crates/plugmem-core/src/metadata.rs: the canonical form of a fact's metadata. A `&str` is its bytes, and
-- a cursor into the blob is what it has not passed.
pub mod Sort
pub mod Canonical
pub mod RoundTrip
pub mod Accept
mod Tests
use Prim.Native.Nat.{Ordering}
use plugmem.Base.{ℕ, zero, suc, ◌%◌, ◌^◌, List, [], ◌∷◌, ◌++◌, length, take, drop}
use plugmem.Base.{Bool, true, false, Option, none, some, ltb, if◌then◌else◌, Result, ok, err, ◌>>=◌}
use plugmem.Base.Bytes.{Bytes, to_le, from_le}
use plugmem.Base.Order.{cmp_bytes}
use plugmem.Base.Utf8.{is_utf8}
use plugmem.Errors.{Error}

abbrev pub Pair : Type 0
Pair = Bytes × Bytes

-- `order.sort_by(…)` is stable: a pair goes in front of what it is not greater than.
unfoldable pub insert : Pair → List Pair → List Pair
insert p [] = p ∷ []
insert p (q ∷ qs) = elim (cmp_bytes p.0 q.0) [
  | Ordering.lt ↦ p ∷ q ∷ qs
  | Ordering.eq ↦ p ∷ q ∷ qs
  | Ordering.gt ↦ q ∷ insert p qs
]

unfoldable pub sort : List Pair → List Pair
sort [] = []
sort (p ∷ ps) = insert p (sort ps)

-- `order.windows(2)`
unfoldable pub has_duplicate : List Pair → Bool
has_duplicate [] = false
has_duplicate (p ∷ []) = false
has_duplicate (p ∷ q ∷ qs) = elim (cmp_bytes p.0 q.0) [
  | Ordering.lt ↦ has_duplicate (q ∷ qs)
  | Ordering.eq ↦ true
  | Ordering.gt ↦ has_duplicate (q ∷ qs)
]

unfoldable pub put_str : Bytes → Bytes
put_str s = to_le 4 (length s % 2 ^ 32) ++ s

unfoldable pub put_each : List Pair → Bytes
put_each [] = []
put_each ((k, v) ∷ ps) = put_str k ++ (put_str v ++ put_each ps)

unfoldable pub encode : List Pair → Result Error Bytes
encode pairs =
    let order : List Pair = sort pairs in
    if has_duplicate order
    then err (Error.invalid "duplicate metadata key")
    else ok (to_le 4 (length pairs % 2 ^ 32) ++ put_each order)

unfoldable pub take_u32 : Bytes → Result Error (ℕ × Bytes)
take_u32 rest =
    if ltb (length rest) 4
    then err (Error.corrupt "metadata blob truncated inside a field")
    else ok (from_le (take 4 rest), drop 4 rest)

unfoldable pub take_text : ℕ → Bytes → Result Error (Bytes × Bytes)
take_text len rest =
    if ltb (length rest) len
    then err (Error.corrupt "metadata string overruns its blob")
    else if is_utf8 (take len rest)
    then ok (take len rest, drop len rest)
    else err (Error.corrupt "metadata string is not UTF-8")

unfoldable pub take_str : Bytes → Result Error (Bytes × Bytes)
take_str bytes = do (len, rest) ← take_u32 bytes; take_text len rest

-- `match prev { Some(p) if k.as_bytes() <= p.as_bytes() => … }`
unfoldable pub test_order : Option Bytes → Bytes → Result Error Unit
test_order none k = ok tt
test_order (some p) k = elim (cmp_bytes k p) [
  | Ordering.lt ↦ err (Error.corrupt "metadata keys are not strictly ascending")
  | Ordering.eq ↦ err (Error.corrupt "metadata keys are not strictly ascending")
  | Ordering.gt ↦ ok tt
]

-- `for _ in 0..count`
unfoldable pub decode_loop : ℕ → Option Bytes → Bytes → Result Error (List Pair × Bytes)
decode_loop zero prev bytes = ok ([], bytes)
decode_loop (suc count) prev bytes = do
  (k, mid) ← take_str bytes
  (v, rest) ← take_str mid
  _ ← test_order prev k
  (out, end) ← decode_loop count (some k) rest
  ok ((k, v) ∷ out, end)

unfoldable pub at_end : List Pair × Bytes → Result Error (List Pair)
at_end (out, []) = ok out
at_end (out, b ∷ rest) = err (Error.corrupt "metadata blob has trailing bytes")

unfoldable pub decode : Bytes → Result Error (List Pair)
decode bytes = do (count, rest) ← take_u32 bytes; whole ← decode_loop count none rest; at_end whole
