-- ===== src/Journal/Scan/Any.antt =====
-- `scan` on any buffer.
use plugmem.Base.{ℕ, zero, suc, ◌≤◌, ◌≡◌, ◌≢◌, refl, sym, ap, ◌∙◌, arith}
use plugmem.Base.{List, [], ◌∷◌, ◌++◌, length, All, append_assoc, append-nil}
use plugmem.Base.{
  ◌⊎◌, inl, inr, String, Bool, true, false, not, ◌==◌, Option, some, none, Result, ok, err,
}
use plugmem.Base.Bytes.{Bytes, IsByte}
use mathlib.Core.Path.{subst}
use plugmem.Errors.{Error}
use plugmem.Journal.Frames.{JournalEntry, JournalScan, Round, torn, bad, next, frame}
use plugmem.Journal.Frames.{scan_round, scan_loop, scan}
use plugmem.Journal.Scan.Pieces.{IsEntry, Taken, length-next, scan_round-Taken}
use plugmem.Journal.Scan.Whole.{frames}

Round-cases :
    (r : Round)
    → (r ≡ torn)
      ⊎ ((what : String) × (r ≡ bad what))
      ⊎ ((e : JournalEntry) × (rest : Bytes) × (r ≡ next e rest))
Round-cases torn = inl refl
Round-cases (bad what) = inr (inl (what, refl))
Round-cases (next e rest) = inr (inr (e, rest, refl))

abbrev outcome : JournalScan → Option (Result Error JournalScan)
outcome s = some (ok s)

abbrev scan_or : JournalScan → Option (Result Error JournalScan) → JournalScan
scan_or d (some (ok s)) = s
scan_or d (some (err e)) = d
scan_or d none = d

module _ (xxh3_64 : Bytes → ℕ) where
  scan_loop-ne-none :
      (fuel : ℕ) (bytes : Bytes) (acc : List JournalEntry)
      → length bytes ≤ fuel
      → scan_loop xxh3_64 fuel bytes acc ≢ none
  unfolding scan_loop
  scan_loop-ne-none fuel [] acc h = λ e. cc
  scan_loop-ne-none zero (b ∷ bs) acc h = absurd (omega arith)
  scan_loop-ne-none (suc fuel) (b ∷ bs) acc h = elim (Round-cases (scan_round xxh3_64 (b ∷ bs))) [
    | inl t ↦ rw (t, scan_loop) (λ e. cc)
    | inr (inl (what, t)) ↦ rw (t, scan_loop) (λ e. cc)
    | inr (inr (e, rest, t)) ↦
        rw (t, scan_loop)
          (scan_loop-ne-none fuel rest (acc ++ (e ∷ []))
            (omega (arith, length-next xxh3_64 (b ∷ bs) e rest t)))
  ]

  -- The scan of any buffer comes to an end.
  pub scan-ne-none : (journal : Bytes) → scan xxh3_64 journal ≢ none
  unfolding scan
  scan-ne-none journal = scan_loop-ne-none (length journal) journal [] (omega arith)

  -- The records that a scan adds to those it has, and what it leaves.
  record Split (bytes : Bytes) (acc : List JournalEntry) (s : JournalScan) : Type 0 where
    taken : List JournalEntry
    tail : Bytes
    entries : s.entries ≡ acc ++ taken
    whole : bytes ≡ frames xxh3_64 taken ++ tail
    well_formed : All IsEntry taken
    truncated : s.truncated_tail ≡ not (length tail == 0)

  Split-stop :
      (bytes : Bytes) (acc : List JournalEntry) (s : JournalScan) (cut : Bool)
      → cut ≡ not (length bytes == 0)
      → some (ok (record { entries = acc; truncated_tail = cut })) ≡ outcome s
      → Split bytes acc s
  Split-stop bytes acc s cut hc h = record {
    taken = [];
    tail = bytes;
    entries = sym (ap (λ r. (scan_or s r).entries) h) ∙ sym (append-nil acc);
    whole = refl;
    well_formed = tt;
    truncated = sym (ap (λ r. (scan_or s r).truncated_tail) h) ∙ hc;
  }

  Split-next :
      (bytes rest : Bytes) (e : JournalEntry) (acc : List JournalEntry) (s : JournalScan)
      → Taken xxh3_64 bytes e rest
      → Split rest (acc ++ (e ∷ [])) s
      → Split bytes acc s
  Split-next bytes rest e acc s t p = record {
    taken = e ∷ p.taken;
    tail = p.tail;
    entries = p.entries ∙ append_assoc acc (e ∷ []) p.taken;
    whole =
        t.whole
        ∙ ap (λ l. frame xxh3_64 e.op e.payload ++ l) p.whole
        ∙ sym (append_assoc (frame xxh3_64 e.op e.payload) (frames xxh3_64 p.taken) p.tail);
    well_formed = (t.entry, p.well_formed);
    truncated = p.truncated;
  }

  scan_loop-Split :
      (fuel : ℕ) (bytes : Bytes) (acc : List JournalEntry) (s : JournalScan)
      → All IsByte bytes
      → scan_loop xxh3_64 fuel bytes acc ≡ outcome s
      → Split bytes acc s
  unfolding scan_loop
  scan_loop-Split fuel [] acc s hb h = Split-stop [] acc s false refl h
  scan_loop-Split zero (b ∷ bs) acc s hb h = cc
  scan_loop-Split (suc fuel) (b ∷ bs) acc s hb h =
      elim (Round-cases (scan_round xxh3_64 (b ∷ bs))) [
        | inl t ↦ Split-stop (b ∷ bs) acc s true (ground arith) (rw (t, scan_loop) at h)
        | inr (inl (what, t)) ↦ let no = rw (t, scan_loop) at h in cc
        | inr (inr (e, rest, t)) ↦
            let taken = scan_round-Taken xxh3_64 (b ∷ bs) e rest hb t in
            Split-next (b ∷ bs) rest e acc s taken
              (scan_loop-Split fuel rest (acc ++ (e ∷ [])) s taken.left (rw (t, scan_loop) at h))
      ]

  -- Whenever a scan succeeds, the buffer is exactly the frames of the records that it returns, each
  -- of them one that a writer can frame, and a tail; the scan reports a torn tail just when that
  -- tail is not empty.
  pub scan_sound :
      (journal : Bytes) (s : JournalScan)
      → All IsByte journal
      → scan xxh3_64 journal ≡ some (ok s)
      → (tail : Bytes) × (journal ≡ frames xxh3_64 s.entries ++ tail)
        × All IsEntry s.entries
        × (s.truncated_tail ≡ not (length tail == 0))
  unfolding scan
  scan_sound journal s hb h =
      let p = scan_loop-Split (length journal) journal [] s hb h in
      (
        p.tail,
        subst (λ l. journal ≡ frames xxh3_64 l ++ p.tail) (sym p.entries) p.whole,
        subst (All IsEntry) (sym p.entries) p.well_formed,
        p.truncated,
      )
