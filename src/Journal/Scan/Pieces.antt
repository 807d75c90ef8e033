-- ===== src/Journal/Scan/Pieces.antt =====
-- One round of the loop of `scan` on any bytes: what a round that goes on has taken.
use plugmem.Base.{ℕ, ◌+◌, ◌≤◌, ◌<◌, ◌≡◌, refl, sym, ap, arith}
use plugmem.Base.{[], ◌∷◌, ◌++◌, length, take, drop, All, append_assoc}
use plugmem.Base.{length-take, length-drop}
use plugmem.Base.{drop-drop, take-append-drop, All-take, All-drop}
use plugmem.Base.Bytes.{Bytes, IsByte, IsU32, from_le, to_le-field, field-lt}
use plugmem.Journal.Frames.{JournalEntry, next, header, entry_of}
use plugmem.Journal.Frames.{body_checksum, frame, scan_frame, scan_round}
use mathlib.Core.Path.{subst}

-- A record that a writer can frame.
pub record IsEntry (e : JournalEntry) : Type 0 where
  pub op : IsByte e.op
  pub payload : All IsByte e.payload
  pub short : IsU32 (1 + length e.payload)

-- A round that goes on has taken exactly one frame.
pub record Taken (xxh3_64 : Bytes → ℕ) (bytes : Bytes) (e : JournalEntry) (rest : Bytes)
    : Type 0 where
  pub whole : bytes ≡ frame xxh3_64 e.op e.payload ++ rest
  pub entry : IsEntry e
  pub left : All IsByte rest

-- The pieces of a buffer that a round looks at.
abbrev length_field : Bytes → ℕ
length_field bytes = from_le (take 4 bytes)

abbrev check_field : Bytes → ℕ
check_field bytes = from_le (take 4 (drop 4 bytes))

abbrev body_field : Bytes → Bytes
body_field bytes = take (length_field bytes) (drop header bytes)

pieces :
    (len : ℕ) (bytes : Bytes)
    → take 4 bytes ++ (take 4 (drop 4 bytes) ++ (take len (drop 8 bytes) ++ drop (8 + len) bytes))
      ≡ bytes
pieces len bytes =
    let inner : take len (drop 8 bytes) ++ drop (8 + len) bytes ≡ drop 4 (drop 4 bytes) =
      rw (← drop-drop len 8 bytes, take-append-drop, drop-drop 4 4 bytes) refl in
    rw (inner, take-append-drop 4 (drop 4 bytes)) (take-append-drop 4 bytes)

entry_of-cons :
    (body : Bytes) → 0 < length body → (entry_of body).op ∷ (entry_of body).payload ≡ body
unfolding entry_of
entry_of-cons [] h = absurd (omega arith)
entry_of-cons (b ∷ bs) h = refl

-- What a round that goes on has tested.
record Tested (xxh3_64 : Bytes → ℕ) (bytes : Bytes) (e : JournalEntry) (rest : Bytes) : Type 0 where
  some_body : 0 < length_field bytes
  fits : header + length_field bytes ≤ length bytes
  checked : body_checksum xxh3_64 (body_field bytes) ≡ check_field bytes
  entry : entry_of (body_field bytes) ≡ e
  left : drop (header + length_field bytes) bytes ≡ rest

module _ (xxh3_64 : Bytes → ℕ) (bytes : Bytes) (e : JournalEntry) (rest : Bytes) where
  scan_round-Tested : scan_round xxh3_64 bytes ≡ next e rest → Tested xxh3_64 bytes e rest
  unfolding scan_round scan_frame
  scan_round-Tested h = record {
    some_body = ground arith;
    fits = ground arith;
    checked = ground arith;
    entry = ground arith;
    left = ground arith;
  }

  pub length-next : scan_round xxh3_64 bytes ≡ next e rest → length rest < length bytes
  length-next h =
      let t = scan_round-Tested h in
      omega (
        arith,
        t.fits,
        ap (λ (l : Bytes). length l) t.left,
        length-drop (header + length_field bytes) bytes,
      )

  body-entry : Tested xxh3_64 bytes e rest → e.op ∷ e.payload ≡ body_field bytes
  body-entry t =
      let size : 0 < length (body_field bytes) = omega (
        arith,
        length-take (length_field bytes) (drop header bytes),
        length-drop header bytes,
        t.fits,
        t.some_body,
      ) in
      rw (← t.entry) (entry_of-cons (body_field bytes) size)

  length-entry : Tested xxh3_64 bytes e rest → 1 + length e.payload ≡ length_field bytes
  length-entry t = omega (
    arith,
    length-take (length_field bytes) (drop header bytes),
    length-drop header bytes,
    t.fits,
    ap (λ (l : Bytes). length l) (body-entry t),
  )

  -- The tested pieces are those of the entry's frame.
  frame-pieces :
      All IsByte bytes
      → Tested xxh3_64 bytes e rest
      → frame xxh3_64 e.op e.payload ≡ take 4 bytes ++ (take 4 (drop 4 bytes) ++ body_field bytes)
  unfolding frame
  frame-pieces hb t = rw (
    length-entry t,
    body-entry t,
    t.checked,
    to_le-field 4 bytes hb (omega (arith, t.fits)),
    to_le-field 4 (drop 4 bytes) (All-drop IsByte 4 bytes hb)
        (omega (arith, t.fits, length-drop 4 bytes)),
  )

  Tested-IsEntry : All IsByte bytes → Tested xxh3_64 bytes e rest → IsEntry e
  Tested-IsEntry hb t =
      let body : All IsByte (e.op ∷ e.payload) = subst (All IsByte) (sym (body-entry t)) (
        All-take IsByte (length_field bytes) (drop header bytes)
          (All-drop IsByte header bytes hb)) in
      record {
        op = body.0;
        payload = body.1;
        short = rw (length-entry t) (field-lt 4 bytes hb (omega (arith, t.fits)));
      }

  pub scan_round-Taken :
      All IsByte bytes → scan_round xxh3_64 bytes ≡ next e rest → Taken xxh3_64 bytes e rest
  scan_round-Taken hb h =
      let t = scan_round-Tested h in
      record {
        whole =
            rw
              (
                frame-pieces hb t,
                append_assoc (take 4 bytes),
                append_assoc (take 4 (drop 4 bytes)),
                ← t.left,
              )
              (sym (pieces (length_field bytes) bytes));
        entry = Tested-IsEntry hb t;
        left = rw (← t.left) (All-drop IsByte (header + length_field bytes) bytes hb);
      }
