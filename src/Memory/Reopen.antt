-- ===== src/Memory/Reopen.antt =====
-- A database that is opened again: the journal of a session, cut by a crash, brings its state back.
use plugmem.Base.{
  ℕ, suc, ◌+◌, ◌<◌, ◌≡◌, refl, sym, ap, ◌∙◌, arith, List, [], ◌∷◌, ◌++◌, length, take, map, All,
  append_assoc, append-nil, not, ◌==◌, ok,
}
use plugmem.Base.Bytes.{Bytes}
use plugmem.Journal.Ops.{Op, op_byte, payload, decode}
use plugmem.Journal.RoundTrip.{decode-payload}
use plugmem.Journal.Frames.{frame}
use plugmem.Journal.Scan.Whole.{frames, scan_cut}
use plugmem.Journal.Recovery.{IsWritable, entry, entries-IsShort}
use plugmem.Memory.{Stores, Memory, Act, done, ◌>>=◌, attempt}
use plugmem.Memory.Verbs.{Storage, Db}
use plugmem.Memory.Replay.{OpenReport, counted, replay_op, replay_entries, no_report, replay}
use plugmem.Memory.Inversion.{Gives, bind-Gives}
use plugmem.Memory.Session.{Session, ends, step, pass, Step-Recorded, Pass-same}
use mathlib.Core.Path.{subst}

-- A storage keeps one journal, and an append that succeeds adds its bytes at the end.
pub record IsStorage (S : Storage) (journal_of : S.Store → Bytes) : Type 0 where
  pub appends :
      (bytes : Bytes) (st st' : S.Store)
      → ◌≡◌ {A = S.Store × _} (S.append_journal bytes st) (st', ok tt)
      → journal_of st' ≡ journal_of st ++ bytes

abbrev plus : ℕ → OpenReport → OpenReport
plus k report = record report { replayed = report.replayed + k }

module _ (xxh3_64 : Bytes → ℕ) (P : Stores) (S : Storage)
    (maintain : ℕ → ℕ → Act (Memory P) Unit) where
  module _ (journal_of : S.Store → Bytes) (h : IsStorage S journal_of) where
    -- The journal grows by the records of the session.
    Session-frames :
        {d e : Db xxh3_64 P S} {ops : List Op}
        → Session xxh3_64 P S d ops e
        → journal_of e.1 ≡ journal_of d.1 ++ frames xxh3_64 (map entry ops)
    Session-frames ends = sym (append-nil _)
    Session-frames {d} {e} (step {e = f} {op} {ops} s rest) =
        let wrote = h.appends _ d.1 f.1 (Step-Recorded xxh3_64 P S maintain s).wrote in
        Session-frames rest
        ∙ ap (λ (x : Bytes). x ++ frames xxh3_64 (map entry ops)) wrote
        ∙ append_assoc (journal_of d.1) (frame xxh3_64 (op_byte op) (payload op))
            (frames xxh3_64 (map entry ops))
    Session-frames {d} {e} {ops} (pass s rest) =
        Session-frames rest
        ∙ ap (λ (x : S.Store). journal_of x ++ frames xxh3_64 (map entry ops))
            (sym (Pass-same xxh3_64 P S maintain s).1)

  -- The records of the session, replayed from its first state, lead to its last.
  Session-replays :
      {d e : Db xxh3_64 P S} {ops : List Op} (report : OpenReport)
      → All IsWritable ops
      → Session xxh3_64 P S d ops e
      → Gives (replay_entries P maintain (map entry ops) report) d.0 e.0 (plus (length ops) report)
  unfolding replay_entries
  Session-replays report w ends =
      let e : report.replayed + 0 ≡ report.replayed = omega arith in rw e refl
  Session-replays {d} {e} report w (step {e = f} {op} {ops} s rest) =
      let one : Gives (attempt (decode (op_byte op) (payload op))) d.0 d.0 op =
        rw (decode-payload op w.0.encodable) refl in
      let more : Gives (replay_entries P maintain (map entry ops) (counted report)) f.0 e.0
          (plus (length ops) (counted report)) =
        Session-replays (counted report) w.1 rest in
      let n : report.replayed + 1 + length ops ≡ report.replayed + suc (length ops) = omega arith in
      let whole : Gives (replay_entries P maintain (map entry (op ∷ ops)) report) d.0 e.0
          (plus (length ops) (counted report)) =
        bind-Gives (attempt (decode (op_byte op) (payload op)))
          (λ o. replay_op P maintain o report >>= replay_entries P maintain (map entry ops)) d.0 d.0
          e.0 op (plus (length ops) (counted report)) one
          (bind-Gives (replay_op P maintain op report) (replay_entries P maintain (map entry ops))
            d.0 f.0 e.0 (counted report) (plus (length ops) (counted report))
            ((Step-Recorded xxh3_64 P S maintain s).replays report) more) in
      rw n at whole
  Session-replays {d} {e} {ops} report w (pass {e = f} s rest) =
      subst
        (λ (x : Memory P).
          Gives (replay_entries P maintain (map entry ops) report) x e.0 (plus (length ops) report))
        (sym (Pass-same xxh3_64 P S maintain s).0) (Session-replays report w rest)

  -- A crash in the last append of a session: the storage's journal was empty at its start, all its
  -- operations and the one that was being appended are writable, and only `k` bytes of the last record
  -- arrived, short of the whole. Then opening the first state with that journal succeeds: it gives the
  -- engine's state at the end of the session, counts every operation as replayed and none as skipped,
  -- and reports a torn tail unless `k` is 0.
  pub replay-Session :
      {d e : Db xxh3_64 P S} {ops : List Op} (journal_of : S.Store → Bytes) (last : Op) (k : ℕ)
      → IsStorage S journal_of
      → journal_of d.1 ≡ []
      → All IsWritable ops
      → IsWritable last
      → k < length (frame xxh3_64 (op_byte last) (payload last))
      → Session xxh3_64 P S d ops e
      → replay P maintain xxh3_64
          (journal_of e.1 ++ take k (frame xxh3_64 (op_byte last) (payload last)))
          d.0
        ≡ (e.0, done (record { replayed = length ops; skipped = 0; truncated_tail = not (k == 0) }))
  unfolding replay
  replay-Session {d} {e} {ops} journal_of last k h empty w wl short s =
      let grown : journal_of e.1 ≡ frames xxh3_64 (map entry ops) =
        Session-frames journal_of h s
        ∙ ap (λ (x : Bytes). x ++ frames xxh3_64 (map entry ops)) empty in
      let scanned =
        scan_cut xxh3_64 (map entry ops) (entry last) k (entries-IsShort ops w) wl.short short in
      let n : 0 + length ops ≡ length ops = omega arith in
      let whole = Session-replays (no_report P maintain (not (k == 0))) w s in
      rw (grown, replay, scanned) (rw n at whole)
