-- ===== src/Journal/Fields.antt =====
-- The fields of a journal payload. A cursor `at` into `bytes` is modelled by what it has not passed,
-- `bytes[at..]`. A `&str` is its bytes, and an `f32` is its 32-bit pattern.
pub mod ReadBack
use plugmem.Base.{ℕ, zero, suc, ◌+◌, ◌*◌, ◌%◌, ◌^◌, List, [], ◌∷◌, ◌++◌, length, take, drop}
use plugmem.Base.{Option, none, some, ltb, ◌==◌, if◌then◌else◌, Result, ok, err, ◌>>=◌}
use plugmem.Base.Bytes.{Bytes, to_le, from_le}
use plugmem.Base.Utf8.{is_utf8}
use plugmem.Errors.{Error}

unfoldable pub put_str : Bytes → Bytes
put_str s = to_le 4 (length s % 2 ^ 32) ++ s

unfoldable pub take_u32 : Bytes → Result Error (ℕ × Bytes)
take_u32 rest =
    if ltb (length rest) 4
    then err (Error.corrupt "journal record truncated inside a field")
    else ok (from_le (take 4 rest), drop 4 rest)

unfoldable pub take_u64 : Bytes → Result Error (ℕ × Bytes)
take_u64 rest =
    if ltb (length rest) 8
    then err (Error.corrupt "journal record truncated inside a field")
    else ok (from_le (take 8 rest), drop 8 rest)

-- `*payload.get(*at).ok_or(…)?` and `*at += 1`
unfoldable pub take_u8 : Bytes → Result Error (ℕ × Bytes)
take_u8 [] = err (Error.corrupt "journal record truncated inside a field")
take_u8 (b ∷ rest) = ok (b, rest)

-- The part of `take_str` behind the length.
unfoldable pub take_text : ℕ → Bytes → Result Error (Bytes × Bytes)
take_text len rest =
    if ltb (length rest) len
    then err (Error.corrupt "journal string overruns its record")
    else if is_utf8 (take len rest)
    then ok (take len rest, drop len rest)
    else err (Error.corrupt "journal string is not UTF-8")

unfoldable pub take_str : Bytes → Result Error (Bytes × Bytes)
take_str bytes = do (len, rest) ← take_u32 bytes; take_text len rest

-- `for _ in 0..n { v.push(take_str(payload, at)?) }`
unfoldable pub take_strs : ℕ → Bytes → Result Error (List Bytes × Bytes)
take_strs zero bytes = ok ([], bytes)
take_strs (suc n) bytes = do
  (s, rest) ← take_str bytes
  (ss, end) ← take_strs n rest
  ok (s ∷ ss, end)

-- The same for two strings a round: links, and metadata.
unfoldable pub take_pairs : ℕ → Bytes → Result Error (List (Bytes × Bytes) × Bytes)
take_pairs zero bytes = ok ([], bytes)
take_pairs (suc n) bytes = do
  (a, mid) ← take_str bytes
  (b, rest) ← take_str mid
  (ps, end) ← take_pairs n rest
  ok ((a, b) ∷ ps, end)

-- The loop of `take_vec_f32`, four bytes a round up to `end`.
unfoldable pub read_f32s : ℕ → Bytes → List ℕ
read_f32s zero bytes = []
read_f32s (suc n) bytes = from_le (take 4 bytes) ∷ read_f32s n (drop 4 bytes)

unfoldable pub take_vec_f32 : Bytes → Result Error (List ℕ × Bytes)
take_vec_f32 bytes = do
  (count, rest) ← take_u32 bytes
  if ltb (length rest) (count * 4)
      then err (Error.corrupt "journal vector overruns its record")
      else ok (read_f32s count rest, drop (count * 4) rest)

unfoldable pub take_entity : Bytes → Result Error (Option Bytes × Bytes)
take_entity [] = err (Error.corrupt "journal entity flag is invalid")
take_entity (flag ∷ rest) =
    if flag == 0
    then ok (none, rest)
    else if flag == 1
    then (do (name, end) ← take_str rest; ok (some name, end))
    else err (Error.corrupt "journal entity flag is invalid")

-- What `Op::encode` writes for the entity, a list of strings, a list of pairs and a vector.
unfoldable pub put_entity : Option Bytes → Bytes
put_entity none = 0 ∷ []
put_entity (some name) = 1 ∷ put_str name

unfoldable pub put_strs : List Bytes → Bytes
put_strs [] = []
put_strs (s ∷ ss) = put_str s ++ put_strs ss

unfoldable pub put_pairs : List (Bytes × Bytes) → Bytes
put_pairs [] = []
put_pairs ((a, b) ∷ ps) = put_str a ++ (put_str b ++ put_pairs ps)

unfoldable pub put_f32s : List ℕ → Bytes
put_f32s [] = []
put_f32s (x ∷ xs) = to_le 4 x ++ put_f32s xs
