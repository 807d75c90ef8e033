-- ===== src/Journal/Tests.antt =====
-- Concrete runs of the journal's functions, and its theorems at concrete inputs. The hash is a sum.
use plugmem.Base.{ℕ, ◌+◌, ◌-◌, ◌^◌, ◌≡◌, ◌≢◌, refl, arith, List, [], ◌∷◌, ◌++◌}
use plugmem.Base.{length, take, All, true, not, ◌==◌, some, none, ok, err}
use plugmem.Base.Bytes.{Bytes, to_le, from_le}
use plugmem.Base.Utf8.{is_utf8}
use plugmem.Errors.{Error}
use plugmem.Journal.Fields.{put_str, put_strs, put_entity, put_pairs, put_f32s}
use plugmem.Journal.Fields.ReadBack.{IsStr}
use plugmem.Journal.Ops.{Remembered, remember, forget, maintain, set_vector_space}
use plugmem.Journal.Ops.{
  op_byte, payload, decode, decode_body, decode_maintain, decode_mode, at_end,
}
use plugmem.Journal.RoundTrip.{IsRemembered, decode-payload}
use plugmem.Journal.Frames.{JournalEntry, JournalScan, body_checksum, frame, scan, scan_loop}
use plugmem.Journal.Frames.{scan_round, scan_frame, entry_of}
use plugmem.Journal.Scan.Rounds.{framed}
use plugmem.Journal.Scan.Whole.{frames, scan_cut, scan_damaged}
use plugmem.Journal.Scan.Pieces.{IsEntry}
use plugmem.Journal.Scan.Any.{scan-ne-none, scan_sound}
use plugmem.Journal.Recovery.{IsWritable, encode_all, decode_all, crash_recovery}

abbrev sum_hash : Bytes → ℕ
sum_hash [] = 1
sum_hash (b ∷ bs) = b + sum_hash bs

abbrev abc : Bytes
abc = b'a' ∷ b'b' ∷ b'c' ∷ []

abc-IsStr : IsStr abc
unfolding is_utf8
abc-IsStr = record { utf8 = refl; short = omega arith }

abbrev fact : Remembered
fact = record {
  now = 1000;
  valid_from = 900;
  entity = some abc;
  text = abc;
  tags = abc ∷ [];
  links = (abc, abc) ∷ [];
  vector = 0x3f80_0000 ∷ [];
  metadata = (abc, abc) ∷ [];
  revises = 3;
  assigned = 4;
}

fact-IsRemembered : IsRemembered fact
fact-IsRemembered = record {
  now = omega arith;
  valid_from = omega arith;
  entity = abc-IsStr;
  text = abc-IsStr;
  tags = (abc-IsStr, tt);
  tag_count = omega arith;
  links = (abc-IsStr, abc-IsStr, tt);
  link_count = omega arith;
  vector = omega arith;
  vector_short = omega arith;
  metadata = (abc-IsStr, abc-IsStr, tt);
  metadata_short = omega arith;
  revises = omega arith;
  assigned = omega arith;
}

decode-payload_example :
    decode (op_byte (remember fact)) (payload (remember fact)) ≡ ok (remember fact)
decode-payload_example = decode-payload (remember fact) fact-IsRemembered

-- The form without a mode is still read, and any other short form is refused.
decode_old_maintain : decode 5 (to_le 8 77) ≡ ok (maintain 77 0 (2 ^ 32 - 1))
unfolding decode decode_body decode_maintain decode_mode at_end plugmem.Journal.Fields.take_u64
    to_le from_le
decode_old_maintain = refl

abbrev first : JournalEntry
first = record { op = 3; payload = 1 ∷ 2 ∷ [] }

abbrev second : JournalEntry
second = record { op = 8; payload = 9 ∷ [] }

scan_cut_example :
    scan sum_hash (frames sum_hash (first ∷ []) ++ take 6 (frame sum_hash 8 (9 ∷ [])))
    ≡ some (ok (record { entries = first ∷ []; truncated_tail = not (6 == 0) }))
unfolding frame to_le
scan_cut_example = scan_cut sum_hash (first ∷ []) second 6 (omega arith) (omega arith) (omega arith)

scan_damaged_example :
    (scan sum_hash (frames sum_hash (first ∷ []) ++ framed 2 5 (8 ∷ 9 ∷ []))
      ≡ some (ok (record { entries = first ∷ []; truncated_tail = true })))
    × ((b : ℕ) (more : Bytes)
        → scan sum_hash (frames sum_hash (first ∷ []) ++ framed 2 5 ((8 ∷ 9 ∷ []) ++ (b ∷ more)))
          ≡ some (err (Error.corrupt "journal checksum mismatch mid-stream")))
    × ((more : Bytes)
        → scan sum_hash (frames sum_hash (first ∷ []) ++ framed 0 5 more)
          ≡ some (err (Error.corrupt "journal record with zero length")))
unfolding body_checksum
scan_damaged_example =
    scan_damaged sum_hash (first ∷ []) second 5 (omega arith) (omega arith) (omega arith)
      (omega arith)

scan-ne-none_example : scan sum_hash (1 ∷ 0 ∷ 0 ∷ 0 ∷ 9 ∷ 0 ∷ 0 ∷ 0 ∷ 8 ∷ 7 ∷ []) ≢ none
scan-ne-none_example = scan-ne-none sum_hash (1 ∷ 0 ∷ 0 ∷ 0 ∷ 9 ∷ 0 ∷ 0 ∷ 0 ∷ 8 ∷ 7 ∷ [])

abbrev buffer : Bytes
buffer = 1 ∷ 0 ∷ 0 ∷ 0 ∷ 9 ∷ 0 ∷ 0 ∷ 0 ∷ 8 ∷ 7 ∷ []

abbrev found : JournalScan
found = record { entries = record { op = 8; payload = [] } ∷ []; truncated_tail = true }

scan-buffer : scan sum_hash buffer ≡ some (ok found)
unfolding scan scan_loop scan_round scan_frame body_checksum entry_of from_le
scan-buffer = refl

scan_sound_example :
    (tail : Bytes) × (buffer ≡ frames sum_hash found.entries ++ tail)
    × All IsEntry found.entries
    × (true ≡ not (length tail == 0))
scan_sound_example = scan_sound sum_hash buffer found (omega arith) scan-buffer

forget-IsWritable : IsWritable (forget 5 7)
unfolding payload to_le
forget-IsWritable = record { encodable = omega arith; short = omega arith }

space-IsWritable : IsWritable (set_vector_space abc)
unfolding payload put_str to_le
space-IsWritable = record { encodable = abc-IsStr; short = omega arith }

crash_recovery_example :
    (journal : Bytes) × (es : List JournalEntry) × (encode_all sum_hash (forget 5 7 ∷ []) []
      ≡ some journal)
    × (scan sum_hash (journal ++ take 10 (frame sum_hash 8 (payload (set_vector_space abc))))
        ≡ some (ok (record { entries = es; truncated_tail = not (10 == 0) })))
    × (decode_all es ≡ ok (forget 5 7 ∷ []))
unfolding frame payload put_str to_le op_byte
crash_recovery_example =
    crash_recovery sum_hash (forget 5 7 ∷ []) (set_vector_space abc) 10 (forget-IsWritable, tt)
      space-IsWritable (omega arith)
