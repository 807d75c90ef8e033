-- ===== src/Journal/Scan/Whole.antt =====
-- `scan` on a journal that was written by `encode_entry`: intact, cut short at any byte, or damaged.
use plugmem.Base.{ℕ, zero, suc, ◌+◌, ◌-◌, ◌≤◌, ◌<◌, ◌≡◌, ◌≢◌, refl, sym, ap, ◌∙◌, arith}
use plugmem.Base.{
  List, [], ◌∷◌, ◌++◌, length, take, All, length-append, length-take, append_assoc, append-nil,
}
use plugmem.Base.{String, true, false, not, ◌==◌, some, ok, err}
use plugmem.Base.Bytes.{Bytes, IsU32, to_le}
use plugmem.Errors.{Error}
use plugmem.Journal.Frames.{JournalEntry, torn, bad, next, header, entry_of}
use plugmem.Journal.Frames.{body_checksum, frame, scan_round, scan_loop, scan}
use plugmem.Journal.Scan.Rounds.{
  framed, length-framed, scan_round-framed, scan_round-take, scan_round-zero,
}

-- A record that `encode_entry` does not refuse.
abbrev pub IsShort : JournalEntry → Type 0
IsShort e = IsU32 (1 + length e.payload)

module _ (xxh3_64 : Bytes → ℕ) where
  -- The journal of a list of records.
  abbrev pub frames : List JournalEntry → Bytes
  frames [] = []
  frames (e ∷ es) = frame xxh3_64 e.op e.payload ++ frames es

  length-frame :
      (e : JournalEntry) → length (frame xxh3_64 e.op e.payload) ≡ header + (1 + length e.payload)
  unfolding frame
  length-frame e = omega (
    arith,
    length-framed (1 + length e.payload) (body_checksum xxh3_64 (e.op ∷ e.payload))
        (e.op ∷ e.payload),
  )

  scan_round-frame :
      (e : JournalEntry) (rest : Bytes)
      → IsShort e
      → scan_round xxh3_64 (frame xxh3_64 e.op e.payload ++ rest) ≡ next e rest
  unfolding frame body_checksum entry_of
  scan_round-frame e rest h =
      let len : ℕ = 1 + length e.payload in
      let body : Bytes = e.op ∷ e.payload in
      let want : ℕ = body_checksum xxh3_64 body in
      rw (append_assoc (to_le 4 len), append_assoc (to_le 4 want))
        (scan_round-framed xxh3_64 len want body rest (omega arith) (omega arith) h (omega arith)
          ∙ ground arith)

  scan_loop_next :
      (fuel : ℕ) (bytes rest : Bytes) (e : JournalEntry) (acc : List JournalEntry)
      → scan_round xxh3_64 bytes ≡ next e rest
      → scan_loop xxh3_64 (suc fuel) bytes acc ≡ scan_loop xxh3_64 fuel rest (acc ++ (e ∷ []))
  unfolding scan_loop
  scan_loop_next fuel [] rest e acc h = unfold scan_round in cc
  scan_loop_next fuel (b ∷ bs) rest e acc h = rw (h, scan_loop)

  scan_loop_torn :
      (fuel : ℕ) (bytes : Bytes) (acc : List JournalEntry)
      → 0 < length bytes
      → length bytes ≤ fuel
      → scan_round xxh3_64 bytes ≡ torn
      → scan_loop xxh3_64 fuel bytes acc
        ≡ some (ok (record { entries = acc; truncated_tail = true }))
  unfolding scan_loop
  scan_loop_torn fuel [] acc pos enough h = absurd (omega arith)
  scan_loop_torn zero (b ∷ bs) acc pos enough h = absurd (omega arith)
  scan_loop_torn (suc fuel) (b ∷ bs) acc pos enough h = rw (h, scan_loop)

  scan_loop_bad :
      (fuel : ℕ) (bytes : Bytes) (acc : List JournalEntry) (what : String)
      → 0 < length bytes
      → length bytes ≤ fuel
      → scan_round xxh3_64 bytes ≡ bad what
      → scan_loop xxh3_64 fuel bytes acc ≡ some (err (Error.corrupt what))
  unfolding scan_loop
  scan_loop_bad fuel [] acc what pos enough h = absurd (omega arith)
  scan_loop_bad zero (b ∷ bs) acc what pos enough h = absurd (omega arith)
  scan_loop_bad (suc fuel) (b ∷ bs) acc what pos enough h = rw (h, scan_loop)

  -- The loop takes the records one by one.
  scan_loop-frames :
      (es : List JournalEntry) (fuel : ℕ) (tail : Bytes) (acc : List JournalEntry)
      → All IsShort es
      → scan_loop xxh3_64 (length es + fuel) (frames es ++ tail) acc
        ≡ scan_loop xxh3_64 fuel tail (acc ++ es)
  scan_loop-frames [] fuel tail acc h = let e : 0 + fuel ≡ fuel = omega arith in rw (e, append-nil)
  scan_loop-frames (e ∷ es) fuel tail acc h =
      let count : suc (length es) + fuel ≡ suc (length es + fuel) = omega arith in
      rw (count, append_assoc (frame xxh3_64 e.op e.payload))
        (scan_loop_next (length es + fuel) _ (frames es ++ tail) e acc
            (scan_round-frame e (frames es ++ tail) h.0)
          ∙ scan_loop-frames es fuel tail (acc ++ (e ∷ [])) h.1
          ∙ ap (λ l. scan_loop xxh3_64 fuel tail l) (append_assoc acc (e ∷ []) es))

  length-frames : (es : List JournalEntry) → length es ≤ length (frames es)
  length-frames [] = omega arith
  length-frames (e ∷ es) = omega (
    arith,
    length-append (frame xxh3_64 e.op e.payload) (frames es),
    length-frame e,
    length-frames es,
  )

  -- The scan of a journal comes to whatever follows its records, with fuel left for it.
  scan-frames :
      (es : List JournalEntry) (tail : Bytes)
      → All IsShort es
      → (fuel : ℕ) × (length tail ≤ fuel)
        × (scan xxh3_64 (frames es ++ tail) ≡ scan_loop xxh3_64 fuel tail es)
  unfolding scan
  scan-frames es tail h =
      let fuel : ℕ = length (frames es ++ tail) - length es in
      let enough : length tail ≤ fuel =
        omega (arith, length-frames es, length-append (frames es) tail) in
      let whole : length es + fuel ≡ length (frames es ++ tail) =
        omega (arith, length-frames es, length-append (frames es) tail) in
      (
        fuel,
        enough,
        sym (ap (λ n. scan_loop xxh3_64 n (frames es ++ tail) []) whole)
            ∙ scan_loop-frames es fuel tail [] h,
      )

  -- The scan of a journal is decided by the first bytes that are no record.
  scan_torn_tail :
      (es : List JournalEntry) (tail : Bytes)
      → All IsShort es
      → 0 < length tail
      → scan_round xxh3_64 tail ≡ torn
      → scan xxh3_64 (frames es ++ tail)
        ≡ some (ok (record { entries = es; truncated_tail = true }))
  scan_torn_tail es tail h pos r =
      let (fuel, enough, e) = scan-frames es tail h in e ∙ scan_loop_torn fuel tail es pos enough r

  scan_bad_tail :
      (es : List JournalEntry) (tail : Bytes) (what : String)
      → All IsShort es
      → 0 < length tail
      → scan_round xxh3_64 tail ≡ bad what
      → scan xxh3_64 (frames es ++ tail) ≡ some (err (Error.corrupt what))
  scan_bad_tail es tail what h pos r =
      let (fuel, enough, e) = scan-frames es tail h in
      e ∙ scan_loop_bad fuel tail es what pos enough r

  pub scan_intact :
      (es : List JournalEntry)
      → All IsShort es
      → scan xxh3_64 (frames es ++ []) ≡ some (ok (record { entries = es; truncated_tail = false }))
  scan_intact es h = let (fuel, enough, e) = scan-frames es [] h in e ∙ unfold scan_loop in refl

  -- A journal whose last append was cut off after `k` bytes, short of the whole frame: the scan
  -- returns exactly the records before it, and reports a torn tail unless `k` is 0.
  pub scan_cut :
      (es : List JournalEntry) (e : JournalEntry) (k : ℕ)
      → All IsShort es
      → IsShort e
      → k < length (frame xxh3_64 e.op e.payload)
      → scan xxh3_64 (frames es ++ take k (frame xxh3_64 e.op e.payload))
        ≡ some (ok (record { entries = es; truncated_tail = not (k == 0) }))
  scan_cut es e zero hs he hk = scan_intact es hs
  scan_cut es e (suc k) hs he hk =
      let len : ℕ = 1 + length e.payload in
      let want : ℕ = body_checksum xxh3_64 (e.op ∷ e.payload) in
      let t : scan_round xxh3_64 (take (suc k) (frame xxh3_64 e.op e.payload)) ≡ torn =
        unfold frame in
        scan_round-take xxh3_64 len want (suc k) (e.op ∷ e.payload) (omega arith) (omega arith) he
          (omega (arith, length-frame e)) in
      scan_torn_tail es (take (suc k) (frame xxh3_64 e.op e.payload)) hs
        (omega (arith, length-take (suc k) (frame xxh3_64 e.op e.payload))) t
      ∙ ground arith

  -- A record whose checksum is wrong, behind good ones: as the last record it is dropped as a torn
  -- tail, and with anything behind it the whole journal is refused as corrupt. A record of length
  -- zero is refused as corrupt wherever it stands.
  pub scan_damaged :
      (es : List JournalEntry) (e : JournalEntry) (want : ℕ)
      → All IsShort es
      → IsShort e
      → IsU32 want
      → want ≢ body_checksum xxh3_64 (e.op ∷ e.payload)
      → (scan xxh3_64 (frames es ++ framed (1 + length e.payload) want (e.op ∷ e.payload))
          ≡ some (ok (record { entries = es; truncated_tail = true })))
        × ((b : ℕ) (more : Bytes)
            → scan xxh3_64
                (frames es ++ framed (1 + length e.payload) want ((e.op ∷ e.payload) ++ (b ∷ more)))
              ≡ some (err (Error.corrupt "journal checksum mismatch mid-stream")))
        × ((more : Bytes)
            → scan xxh3_64 (frames es ++ framed 0 want more)
              ≡ some (err (Error.corrupt "journal record with zero length")))
  scan_damaged es e want hs he hw wrong =
      let len : ℕ = 1 + length e.payload in
      let body : Bytes = e.op ∷ e.payload in
      let last = scan_round-framed xxh3_64 len want body [] (omega arith) (omega arith) he hw in
      (
        scan_torn_tail es (framed len want body) hs (omega (arith, length-framed len want body))
            ((rw append-nil at last) ∙ ground arith),
        (λ b more.
            scan_bad_tail es (framed len want (body ++ (b ∷ more))) _ hs
              (omega (arith, length-framed len want (body ++ (b ∷ more))))
              (scan_round-framed xxh3_64 len want body (b ∷ more) (omega arith) (omega arith) he hw
                ∙ ground arith)),
        (λ more.
            scan_bad_tail es (framed 0 want more) _ hs (omega (arith, length-framed 0 want more))
              (scan_round-zero xxh3_64 want more)),
      )
