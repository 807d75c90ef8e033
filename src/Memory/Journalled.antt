-- ===== src/Memory/Journalled.antt =====
-- Every verb that succeeds has done to the engine what the replay of its journal record does.
use plugmem.Base.{ℕ, ◌≡◌, refl, sym, Option, Bool, ok}
use plugmem.Base.Bytes.{Bytes}
use plugmem.Errors.{Error, none_id}
use plugmem.Journal.Ops.{Op, op_byte, payload}
use plugmem.Journal.Frames.{frame}
use plugmem.Memory.{Stores, Memory, Act, ◌>>=◌, give}
use plugmem.Memory.Inputs.{unwrap_or}
use plugmem.Memory.Edges.{apply_link, apply_unlink}
use plugmem.Memory.Facts.{apply_forget}
use plugmem.Memory.Verbs.{Storage, Db, on_memory, journal, forget, link, unlink}
use plugmem.Memory.Replay.{OpenReport, counted, map_err, replay_op, forget_error}
use plugmem.Memory.Inversion.{Gives, of_bind, bind-Gives, of_give, of_on_memory, of_journal}
use mathlib.Core.Path.{subst}

module _ (xxh3_64 : Bytes → ℕ) (P : Stores) (S : Storage)
    (maintain : ℕ → ℕ → Act (Memory P) Unit) where
  -- The operation's record went to the storage, and its replay leads from the one state to the other.
  pub record Recorded (op : Op) (m m' : Memory P) (st st' : S.Store) : Type 0 where
    pub wrote : S.append_journal (frame xxh3_64 (op_byte op) (payload op)) st ≡ (st', ok tt)
    pub replays :
        (report : OpenReport) → Gives (replay_op P maintain op report) m m' (counted report)

  pub finish :
      (op : Op) (m n : Memory P) (st st1 : S.Store) (s : Db xxh3_64 P S) (u : Unit {0})
      → st ≡ st1
      → Gives (journal xxh3_64 P S op) (n, st1) s u
      → ((report : OpenReport) → Gives (replay_op P maintain op report) m n (counted report))
      → Recorded op m s.0 st s.1
  finish op m n st st1 s u same written steps =
      let (kept, wrote) = of_journal xxh3_64 P S op n s.0 st1 s.1 u written in
      record {
        wrote =
            subst
              (λ (x : S.Store).
                S.append_journal (frame xxh3_64 (op_byte op) (payload op)) x ≡ (s.1, ok tt))
              (sym same) wrote;
        replays = λ report.
            subst (λ (x : Memory P). Gives (replay_op P maintain op report) m x (counted report))
              kept (steps report);
      }

  -- A change of the engine, its record, and a value to return.
  pub changed_then :
      {A B : Type 0} (act : Act (Memory P) A) (op : Op) (value : A → B) (m m' : Memory P)
      (st st' : S.Store) (b : B)
      → Gives
          (on_memory xxh3_64 P S act >>= λ a. journal xxh3_64 P S op >>= λ u. give (value a))
          (m, st)
          (m', st')
          b
      → ((n : Memory P) (a : A)
          → Gives act m n a
          → (report : OpenReport) → Gives (replay_op P maintain op report) m n (counted report))
      → Recorded op m m' st st'
  changed_then act op value m m' st st' b h steps =
      of_bind (on_memory xxh3_64 P S act) _ (m, st) (m', st') b h
        λ s a first more.
          let (ran, same) = of_on_memory xxh3_64 P S act m s.0 st s.1 a first in
          of_bind (journal xxh3_64 P S op) _ s (m', st') b more
            λ t u written last.
              subst (λ (d : Db xxh3_64 P S). Recorded op m d.0 st d.1)
                (of_give (value a) b t (m', st') last).0
                (finish op m s.0 st s.1 t u same written (steps s.0 a ran))

  pub map_err-Gives :
      {A : Type 0} (f : Error → Error) (act : Act (Memory P) A) (m n : Memory P) (a : A)
      → Gives act m n a
      → Gives (map_err f act) m n a
  map_err-Gives f act m n a h = rw h refl

  pub counted-Gives :
      {A : Type 0} (act : Act (Memory P) A) (m n : Memory P) (a : A) (report : OpenReport)
      → Gives act m n a
      → Gives (act >>= λ x. give (counted report)) m n (counted report)
  counted-Gives act m n a report h =
      bind-Gives act (λ x. give (counted report)) m n n a (counted report) h refl

  pub forget-Recorded :
      (now id : ℕ) (m m' : Memory P) (st st' : S.Store) (fresh : Bool)
      → Gives (forget xxh3_64 P S now id) (m, st) (m', st') fresh
      → Recorded (Op.forget now id) m m' st st'
  unfolding forget replay_op
  forget-Recorded now id m m' st st' fresh h =
      changed_then (apply_forget P id) (Op.forget now id) (λ f. f) m m' st st' fresh h
        λ n f ran report.
          counted-Gives (map_err forget_error (apply_forget P id)) m n f report
            (map_err-Gives forget_error (apply_forget P id) m n f ran)

  pub unlink-Recorded :
      (now : ℕ) (src rel dst : Bytes) (m m' : Memory P) (st st' : S.Store) (fresh : Bool)
      → Gives (unlink xxh3_64 P S now src rel dst) (m, st) (m', st') fresh
      → Recorded (Op.unlink now src rel dst) m m' st st'
  unfolding unlink replay_op
  unlink-Recorded now src rel dst m m' st st' fresh h =
      changed_then (apply_unlink P now src rel dst) (Op.unlink now src rel dst) (λ f. f) m m' st st'
        fresh h λ n f ran report. counted-Gives (apply_unlink P now src rel dst) m n f report ran

  pub link-Recorded :
      (now : ℕ) (src rel dst : Bytes) (provenance : Option ℕ) (m m' : Memory P) (st st' : S.Store)
      (u : Unit {0})
      → Gives (link xxh3_64 P S now src rel dst provenance) (m, st) (m', st') u
      → Recorded (Op.link now src rel dst (unwrap_or provenance none_id)) m m' st st'
  unfolding link replay_op
  link-Recorded now src rel dst provenance m m' st st' u h =
      let act : Act (Memory P) (Unit {0}) =
        apply_link P now src rel dst (unwrap_or provenance none_id) in
      let op : Op = Op.link now src rel dst (unwrap_or provenance none_id) in
      of_bind (on_memory xxh3_64 P S act) _ (m, st) (m', st') u h
        λ s a first more.
          let (ran, same) = of_on_memory xxh3_64 P S act m s.0 st s.1 a first in
          finish op m s.0 st s.1 (m', st') u same more
            λ report. counted-Gives act m s.0 a report ran
