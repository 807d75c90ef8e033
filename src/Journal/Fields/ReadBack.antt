-- ===== src/Journal/Fields/ReadBack.antt =====
-- Each reader of a field gives back what the writer wrote, and leaves what follows it.
use plugmem.Base.{ℕ, ◌*◌, ◌%◌, ◌^◌, ◌≤◌, ◌≡◌, refl, arith}
use plugmem.Base.{List, [], ◌∷◌, ◌++◌, length, All, append_assoc, append-nil, length-append}
use plugmem.Base.{Option, none, some, true, ok, take_front, drop_front}
use plugmem.Base.Bytes.{Bytes, IsU32, IsU64, to_le, length-to_le, from_le-to_le}
use plugmem.Base.Utf8.{is_utf8}
use plugmem.Journal.Fields.{put_str, put_entity, put_strs, put_pairs, put_f32s, take_entity}
use plugmem.Journal.Fields.{take_u32, take_u64, take_text, take_str, take_strs, take_pairs}
use plugmem.Journal.Fields.{read_f32s, take_vec_f32}

-- What the type `&str` promises, and that the length fits its prefix.
pub record IsStr (s : Bytes) : Type 0 where
  pub utf8 : is_utf8 s ≡ true
  pub short : IsU32 (length s)

abbrev pub IsEntity : Option Bytes → Type 0
IsEntity none = Unit
IsEntity (some name) = IsStr name

abbrev pub ArePairs : List (Bytes × Bytes) → Type 0
ArePairs [] = Unit
ArePairs ((a, b) ∷ ps) = IsStr a × IsStr b × ArePairs ps

not_short : (n : ℕ) (front rest : Bytes) → length front ≡ n → n ≤ length (front ++ rest)
not_short n front rest h = omega (arith, length-append front rest)

pub take_u32-to_le : (v : ℕ) (rest : Bytes) → IsU32 v → take_u32 (to_le 4 v ++ rest) ≡ ok (v, rest)
unfolding take_u32
take_u32-to_le v rest h =
    let len : length (to_le 4 v) ≡ 4 = length-to_le 4 v in
    rw (take_front 4 (to_le 4 v) rest len, drop_front 4 (to_le 4 v) rest len, from_le-to_le 4 v h)
      (ground (arith, not_short 4 (to_le 4 v) rest len))

pub take_u64-to_le : (v : ℕ) (rest : Bytes) → IsU64 v → take_u64 (to_le 8 v ++ rest) ≡ ok (v, rest)
unfolding take_u64
take_u64-to_le v rest h =
    let len : length (to_le 8 v) ≡ 8 = length-to_le 8 v in
    rw (take_front 8 (to_le 8 v) rest len, drop_front 8 (to_le 8 v) rest len, from_le-to_le 8 v h)
      (ground (arith, not_short 8 (to_le 8 v) rest len))

take_text-append : (s rest : Bytes) → IsStr s → take_text (length s) (s ++ rest) ≡ ok (s, rest)
unfolding take_text
take_text-append s rest h =
    rw (take_front (length s) s rest refl, drop_front (length s) s rest refl, h.utf8)
      (ground (arith, not_short (length s) s rest refl))

pub take_str-put_str : (s rest : Bytes) → IsStr s → take_str (put_str s ++ rest) ≡ ok (s, rest)
unfolding take_str put_str
take_str-put_str s rest h =
    let small : length s % 2 ^ 32 ≡ length s = omega (arith, h.short) in
    rw (small, append_assoc, take_u32-to_le (length s) (s ++ rest) h.short)
      (take_text-append s rest h)

pub take_strs-put_strs :
    (ss : List Bytes) (rest : Bytes)
    → All IsStr ss
    → take_strs (length ss) (put_strs ss ++ rest) ≡ ok (ss, rest)
unfolding take_strs put_strs
take_strs-put_strs [] rest h = refl
take_strs-put_strs (s ∷ ss) rest h =
    rw (append_assoc, take_str-put_str s (put_strs ss ++ rest) h.0, take_strs-put_strs ss rest h.1)

pub take_pairs-put_pairs :
    (ps : List (Bytes × Bytes)) (rest : Bytes)
    → ArePairs ps
    → take_pairs (length ps) (put_pairs ps ++ rest) ≡ ok (ps, rest)
unfolding take_pairs put_pairs
take_pairs-put_pairs [] rest h = refl
take_pairs-put_pairs ((a, b) ∷ ps) rest h = rw (
  append_assoc (put_str a),
  append_assoc (put_str b),
  take_str-put_str a (put_str b ++ (put_pairs ps ++ rest)) h.0,
  take_str-put_str b (put_pairs ps ++ rest) h.1,
  take_pairs-put_pairs ps rest h.2,
)

length-put_f32s : (xs : List ℕ) → length (put_f32s xs) ≡ length xs * 4
unfolding put_f32s
length-put_f32s [] = refl
length-put_f32s (x ∷ xs) =
    omega (arith, length-append (to_le 4 x) (put_f32s xs), length-to_le 4 x, length-put_f32s xs)

read_f32s-put_f32s :
    (xs : List ℕ) (rest : Bytes) → All IsU32 xs → read_f32s (length xs) (put_f32s xs ++ rest) ≡ xs
unfolding read_f32s put_f32s
read_f32s-put_f32s [] rest h = refl
read_f32s-put_f32s (x ∷ xs) rest h =
    let len : length (to_le 4 x) ≡ 4 = length-to_le 4 x in
    rw (
      append_assoc,
      take_front 4 (to_le 4 x) (put_f32s xs ++ rest) len,
      drop_front 4 (to_le 4 x) (put_f32s xs ++ rest) len,
      from_le-to_le 4 x h.0,
      read_f32s-put_f32s xs rest h.1,
    )

pub take_vec_f32-put_f32s :
    (xs : List ℕ) (rest : Bytes)
    → IsU32 (length xs)
    → All IsU32 xs
    → take_vec_f32 (to_le 4 (length xs % 2 ^ 32) ++ (put_f32s xs ++ rest)) ≡ ok (xs, rest)
unfolding take_vec_f32
take_vec_f32-put_f32s xs rest short h =
    let small : length xs % 2 ^ 32 ≡ length xs = omega arith in
    let len : length (put_f32s xs) ≡ length xs * 4 = length-put_f32s xs in
    rw
      (
        small,
        take_u32-to_le (length xs) (put_f32s xs ++ rest) short,
        read_f32s-put_f32s xs rest h,
        drop_front (length xs * 4) (put_f32s xs) rest len,
      )
      (ground (arith, not_short (length xs * 4) (put_f32s xs) rest len))

pub take_entity-put_entity :
    (e : Option Bytes) (rest : Bytes)
    → IsEntity e
    → take_entity (put_entity e ++ rest) ≡ ok (e, rest)
unfolding take_entity put_entity
take_entity-put_entity none rest h = refl
take_entity-put_entity (some name) rest h = rw (take_str-put_str name rest h)

-- At the end of a payload nothing follows.
pub take_u32-to_le_end : (v : ℕ) → IsU32 v → take_u32 (to_le 4 v) ≡ ok (v, [])
take_u32-to_le_end v h = rw append-nil at (take_u32-to_le v [] h)

pub take_str-put_str_end : (s : Bytes) → IsStr s → take_str (put_str s) ≡ ok (s, [])
take_str-put_str_end s h = rw append-nil at (take_str-put_str s [] h)

pub take_pairs-put_pairs_end :
    (ps : List (Bytes × Bytes)) → ArePairs ps → take_pairs (length ps) (put_pairs ps) ≡ ok (ps, [])
take_pairs-put_pairs_end ps h = rw append-nil at (take_pairs-put_pairs ps [] h)
