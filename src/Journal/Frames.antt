-- ===== src/Journal/Frames.antt =====
-- The framing of journal records and `scan`. The hash `xxh3_64` comes from the crate xxhash_rust; it
-- is a parameter, a function from bytes to a number, of which nothing is assumed.
use plugmem.Base.{ℕ, zero, suc, ◌+◌, ◌%◌, ◌^◌, List, [], ◌∷◌, ◌++◌, length, take, drop}
use plugmem.Base.{Bool, true, false, Option, none, some, ltb, ◌==◌, if◌then◌else◌, Result, ok, err}
use plugmem.Base.{String}
use plugmem.Base.Bytes.{Bytes, to_le, from_le}
use plugmem.Errors.{Error}
use plugmem.Journal.Ops.{Op, op_byte, payload}

-- `HEADER`: the length and the checksum, four bytes each.
abbrev pub header : ℕ
header = 8

pub record JournalEntry : Type 0 where
  pub op : ℕ
  pub payload : Bytes

pub record JournalScan : Type 0 where
  pub entries : List JournalEntry
  pub truncated_tail : Bool

-- What one round of the loop of `scan` decides.
pub data Round : Type 0 where
  torn : Round
  bad : String → Round
  next : JournalEntry → Bytes → Round

-- `op: body[0], payload: &body[1..]`. A body is not empty where this is called: `len` is not 0.
unfoldable pub entry_of : Bytes → JournalEntry
entry_of [] = record { op = 0; payload = [] }
entry_of (op ∷ payload) = record { op = op; payload = payload }

module _ (xxh3_64 : Bytes → ℕ) where
  unfoldable pub body_checksum : Bytes → ℕ
  body_checksum body = xxh3_64 body % 2 ^ 32

  -- The bytes that one call of `encode_entry` adds.
  unfoldable pub frame : ℕ → Bytes → Bytes
  frame op payload =
      to_le 4 (1 + length payload) ++ (to_le 4 (body_checksum (op ∷ payload)) ++ (op ∷ payload))

  -- `none` is the panic of a payload whose length does not fit 32 bits.
  unfoldable pub encode_entry : Bytes → ℕ → Bytes → Option Bytes
  encode_entry out op payload =
      if ltb (1 + length payload) (2 ^ 32) then some (out ++ frame op payload) else none

  unfoldable pub encode : Op → Bytes → Option Bytes
  encode op out = encode_entry out (op_byte op) (payload op)

  -- The loop's body at `rest = &journal[pos..]`, from the read of `len` on.
  unfoldable pub scan_frame : ℕ → Bytes → Round
  scan_frame len rest =
      if len == 0
      then bad "journal record with zero length"
      else if ltb (length rest) (header + len)
      then torn
      else if body_checksum (take len (drop header rest)) == from_le (take 4 (drop 4 rest))
      then next (entry_of (take len (drop header rest))) (drop (header + len) rest)
      else if header + len == length rest
      then torn
      else bad "journal checksum mismatch mid-stream"

  unfoldable pub scan_round : Bytes → Round
  scan_round rest =
      if ltb (length rest) header then torn else scan_frame (from_le (take 4 rest)) rest

  -- `while pos < journal.len()`, on fuel: `none` means that the fuel ran out.
  unfoldable pub scan_loop : ℕ → Bytes → List JournalEntry → Option (Result Error JournalScan)
  scan_loop fuel [] entries = some (ok (record { entries = entries; truncated_tail = false }))
  scan_loop zero (b ∷ bs) entries = none
  scan_loop (suc fuel) (b ∷ bs) entries = elim (scan_round (b ∷ bs)) [
    | torn ↦ some (ok (record { entries = entries; truncated_tail = true }))
    | bad what ↦ some (err (Error.corrupt what))
    | next entry rest ↦ scan_loop fuel rest (entries ++ (entry ∷ []))
  ]

  -- A round that goes on takes a byte at least, so `length journal` rounds are enough.
  unfoldable pub scan : Bytes → Option (Result Error JournalScan)
  scan journal = scan_loop (length journal) journal []
