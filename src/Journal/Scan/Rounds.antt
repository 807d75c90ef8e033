-- ===== src/Journal/Scan/Rounds.antt =====
-- One round of the loop of `scan` on bytes that a writer left, and what a round takes.
use plugmem.Base.{ℕ, ◌+◌, ◌<◌, ◌≡◌, sym, ap, ◌∙◌, arith}
use plugmem.Base.{◌++◌, length, take, drop, length-append, append_assoc}
use plugmem.Base.{take_front, drop_front, take-take, length-take, ◌==◌, if◌then◌else◌}
use plugmem.Base.Bytes.{Bytes, IsU32, to_le, from_le, length-to_le, from_le-to_le}
use native.Mathlib.Decide.{dec_lt}
use plugmem.Journal.Frames.{torn, bad, next, header, entry_of}
use plugmem.Journal.Frames.{body_checksum, scan_frame, scan_round}

-- A length prefix, a check and a body, as they stand in a journal.
abbrev pub framed : ℕ → ℕ → Bytes → Bytes
framed len want body = to_le 4 len ++ (to_le 4 want ++ body)

module _ (len want : ℕ) (body : Bytes) where
  pub length-framed : length (framed len want body) ≡ header + length body
  length-framed = omega (
    arith,
    length-append (to_le 4 len) (to_le 4 want ++ body),
    length-append (to_le 4 want) body,
    length-to_le 4 len,
    length-to_le 4 want,
  )

  pub take-framed : take 4 (framed len want body) ≡ to_le 4 len
  take-framed = take_front 4 (to_le 4 len) _ (length-to_le 4 len)

  pub drop-len-framed : drop 4 (framed len want body) ≡ to_le 4 want ++ body
  drop-len-framed = drop_front 4 (to_le 4 len) _ (length-to_le 4 len)

  pub drop-framed : drop header (framed len want body) ≡ body
  drop-framed = rw (← append_assoc (to_le 4 len) (to_le 4 want) body) (
      drop_front 8 (to_le 4 len ++ to_le 4 want) body (
        omega (
          arith,
          length-append (to_le 4 len) (to_le 4 want),
          length-to_le 4 len,
          length-to_le 4 want,
        )))

module _ (xxh3_64 : Bytes → ℕ) (len want : ℕ) (body rest : Bytes) (size : length body ≡ len) where
  split-framed : framed len want (body ++ rest) ≡ framed len want body ++ rest
  split-framed = sym (
      append_assoc (to_le 4 len) (to_le 4 want ++ body) rest
      ∙ ap (λ t. to_le 4 len ++ t) (append_assoc (to_le 4 want) body rest))

  body-framed : take len (drop header (framed len want (body ++ rest))) ≡ body
  body-framed = rw (drop-framed len want (body ++ rest)) (take_front len body rest size)

  rest-framed : drop (header + len) (framed len want (body ++ rest)) ≡ rest
  rest-framed = rw split-framed (
      drop_front (header + len) (framed len want body) rest
        (omega (arith, length-framed len want body)))

  -- A complete frame is judged by its checksum, and a wrong checksum by what stands behind it.
  pub scan_round-framed :
      0 < len
      → IsU32 len
      → IsU32 want
      → scan_round xxh3_64 (framed len want (body ++ rest)) ≡ (
          if body_checksum xxh3_64 body == want
          then next (entry_of body) rest
          else if length rest == 0
          then torn
          else bad "journal checksum mismatch mid-stream")
  unfolding scan_round scan_frame
  scan_round-framed pos hl hw =
      let whole : length (framed len want (body ++ rest)) ≡ header + (len + length rest) =
        omega (arith, length-framed len want (body ++ rest), length-append body rest) in
      rw
        (
          take-framed len want (body ++ rest),
          drop-len-framed len want (body ++ rest),
          take_front 4 (to_le 4 want) (body ++ rest) (length-to_le 4 want),
          from_le-to_le 4 len hl,
          from_le-to_le 4 want hw,
          body-framed,
          rest-framed,
          whole,
        )
        (ground arith)

-- A frame that is cut short ends the scan, wherever the cut is.
pub scan_round-take :
    (xxh3_64 : Bytes → ℕ) (len want k : ℕ) (body : Bytes)
    → length body ≡ len
    → 0 < len
    → IsU32 len
    → k < header + len
    → scan_round xxh3_64 (take k (framed len want body)) ≡ torn
unfolding scan_round scan_frame
scan_round-take xxh3_64 len want k body size pos hl hk = elim (dec_lt k header) [
  | yes short ↦ ground (arith, cut_length)
  | no long ↦
      let prefix : take 4 (take k (framed len want body)) ≡ to_le 4 len =
        take-take 4 k (framed len want body) (omega arith) ∙ take-framed len want body in
      rw (prefix, from_le-to_le 4 len hl) (ground (arith, cut_length))
]
  where
    cut_length : length (take k (framed len want body)) ≡ k
    cut_length = omega (arith, length-take k (framed len want body), length-framed len want body)

-- No record has length zero.
pub scan_round-zero :
    (xxh3_64 : Bytes → ℕ) (want : ℕ) (body : Bytes)
    → scan_round xxh3_64 (framed 0 want body) ≡ bad "journal record with zero length"
unfolding scan_round scan_frame
scan_round-zero xxh3_64 want body =
    let zeros : from_le (take 4 (framed 0 want body)) ≡ 0 =
      rw (take-framed 0 want body) (from_le-to_le 4 0 (omega arith)) in
    rw zeros (ground (arith, length-framed 0 want body))
