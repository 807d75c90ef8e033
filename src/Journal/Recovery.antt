-- ===== src/Journal/Recovery.antt =====
-- From operations to journal bytes and back, with a crash in the last append.
use plugmem.Base.{ℕ, ◌+◌, ◌<◌, ◌≡◌, refl, ap, ◌∙◌, arith}
use plugmem.Base.{List, [], ◌∷◌, ◌++◌, length, take, map, All, append_assoc, append-nil}
use plugmem.Base.{not, ◌==◌, Option, some, Result, ok, ◌>>=◌}
use plugmem.Base.Bytes.{Bytes, IsU32}
use plugmem.Errors.{Error}
use plugmem.Journal.Ops.{Op, op_byte, payload, decode}
use plugmem.Journal.RoundTrip.{IsEncodable, decode-payload}
use plugmem.Journal.Frames.{JournalEntry, frame, encode_entry, encode, scan}
use plugmem.Journal.Scan.Whole.{frames, IsShort, scan_cut}
use mathlib.Core.Option

-- An operation whose fields are in range and whose payload fits a frame.
pub record IsWritable (op : Op) : Type 0 where
  pub encodable : IsEncodable op
  pub short : IsU32 (1 + length (payload op))

abbrev pub entry : Op → JournalEntry
entry op = record { op = op_byte op; payload = payload op }

-- The records of a journal, decoded one by one.
unfoldable pub decode_all : List JournalEntry → Result Error (List Op)
decode_all [] = ok []
decode_all (e ∷ es) = do op ← decode e.op e.payload; ops ← decode_all es; ok (op ∷ ops)

decode_all-entries : (ops : List Op) → All IsWritable ops → decode_all (map entry ops) ≡ ok ops
unfolding decode_all
decode_all-entries [] h = refl
decode_all-entries (op ∷ ops) h = rw (decode-payload op h.0.encodable, decode_all-entries ops h.1)

pub entries-IsShort : (ops : List Op) → All IsWritable ops → All IsShort (map entry ops)
entries-IsShort [] h = tt
entries-IsShort (op ∷ ops) h = (h.0.short, entries-IsShort ops h.1)

module _ (xxh3_64 : Bytes → ℕ) where
  -- One `Op::encode` after the other into one buffer.
  unfoldable pub encode_all : List Op → Bytes → Option Bytes
  encode_all [] out = some out
  encode_all (op ∷ ops) out = Option.bind (encode xxh3_64 op out) (encode_all ops)

  encode-frame :
      (op : Op) (out : Bytes)
      → IsWritable op
      → encode xxh3_64 op out ≡ some (out ++ frame xxh3_64 (op_byte op) (payload op))
  unfolding encode encode_entry
  encode-frame op out h = ground (arith, h.short)

  encode_all-frames :
      (ops : List Op) (out : Bytes)
      → All IsWritable ops
      → encode_all ops out ≡ some (out ++ frames xxh3_64 (map entry ops))
  unfolding encode_all Option.bind
  encode_all-frames [] out h = rw append-nil
  encode_all-frames (op ∷ ops) out h = rw (encode-frame op out h.0) (
      encode_all-frames ops (out ++ frame xxh3_64 (op_byte op) (payload op)) h.1
      ∙ ap some (append_assoc out _ (frames xxh3_64 (map entry ops))))

  -- Recovery after a crash: operations were appended one by one and only the first `k` bytes of the next
  -- append reached the journal, short of the whole. All of them are writable: their fields are in the ranges
  -- of their types, they have at most 255 tags and 255 links, and their payloads fit a frame. Then the journal scans, its records decode to
  -- exactly the operations before the crash, and a torn tail is reported unless `k` is 0.
  pub crash_recovery :
      (ops : List Op) (last : Op) (k : ℕ)
      → All IsWritable ops
      → IsWritable last
      → k < length (frame xxh3_64 (op_byte last) (payload last))
      → (journal : Bytes) × (es : List JournalEntry) × (encode_all ops [] ≡ some journal)
        × (scan xxh3_64 (journal ++ take k (frame xxh3_64 (op_byte last) (payload last)))
            ≡ some (ok (record { entries = es; truncated_tail = not (k == 0) })))
        × (decode_all es ≡ ok ops)
  crash_recovery ops last k h hl hk = (
    frames xxh3_64 (map entry ops),
    map entry ops,
    encode_all-frames ops [] h,
    scan_cut xxh3_64 (map entry ops) (entry last) k (entries-IsShort ops h) hl.short hk,
    decode_all-entries ops h,
  )
