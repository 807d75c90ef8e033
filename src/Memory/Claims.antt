-- ===== src/Memory/Claims.antt =====
-- Claiming a vector space: nothing is recorded when the space is claimed already.
use plugmem.Base.{
  ℕ, ◌≡◌, inl, inr, refl, sym, ap, ◌∙◌, arith, Option, none, some, Bool, true, false, ok,
}
use plugmem.Base.Bytes.{Bytes}
use plugmem.Journal.Ops.{Op, op_byte, payload}
use plugmem.Journal.Frames.{frame}
use plugmem.Memory.{Stores, Memory, Act, Run, ◌>>=◌, give, attempt}
use plugmem.Memory.Inputs.{
  validate_vector_space, check_claim, check_set, check_vector_space_claim, set_vector_space,
  apply_set_vector_space,
}
use plugmem.Memory.Verbs.{Storage, Db, on_memory, journal, claim_vector_space}
use plugmem.Memory.Replay.{OpenReport, counted, replay_op}
use plugmem.Memory.Inversion.{Gives, of_bind, of_give, of_attempt, of_on_memory, of_journal}
use plugmem.Memory.Journalled.{Recorded}
use mathlib.Core.Path.{subst}
use plugmem.Memory.Optional.{RecordedIf}

abbrev pub claims : Bool → Bool
claims b = b

module _ (xxh3_64 : Bytes → ℕ) (P : Stores) (S : Storage)
    (maintain : ℕ → ℕ → Act (Memory P) Unit) where
  -- A claim that is needed is one that the replay makes.
  claim_set :
      (space : Bytes) (stored : Option Bytes) (empty : Bool)
      → check_claim P space stored empty ≡ ok true
      → check_set P space stored empty ≡ ok true
  unfolding check_claim check_set
  claim_set space none true h = refl
  claim_set space none false h = cc
  claim_set space (some stored) true h = ground arith
  claim_set space (some stored) false h = ground arith

  set_steps :
      (space : Bytes) (m : Memory P) (report : OpenReport)
      → validate_vector_space space ≡ ok tt
      → check_claim P space m.vector_space (P.no_vectors m.vecs) ≡ ok true
      → Gives
          (replay_op P maintain (Op.set_vector_space space) report)
          m
          (record m { vector_space = some space })
          (counted report)
  unfolding replay_op apply_set_vector_space set_vector_space
  set_steps space m report valid needed =
      rw
        (apply_set_vector_space, valid, claim_set space m.vector_space (P.no_vectors m.vecs) needed)
        refl

  of_claim :
      (space : Bytes) (m n : Memory P) (needs : Bool)
      → Gives (check_vector_space_claim P space) m n needs
      → (m ≡ n)
        × (validate_vector_space space ≡ ok tt)
        × (check_claim P space m.vector_space (P.no_vectors m.vecs) ≡ ok needs)
  unfolding check_vector_space_claim
  of_claim space m n needs h =
      of_bind (attempt (validate_vector_space space)) _ m n needs h λ k u first more.
        let (kept, valid) = of_attempt (validate_vector_space space) m k u first in
        let (same, r) =
          of_attempt (check_claim P space m.vector_space (P.no_vectors m.vecs)) k n needs more in
        (kept ∙ same, valid, r)

  now_set :
      (space : Bytes) (m n : Memory P) (u : Unit {0})
      → Gives (set_vector_space P space) m n u
      → record m { vector_space = some space } ≡ n
  unfolding set_vector_space
  now_set space m n u h = ap (λ (x : Memory P × Run Unit). x.0) h

  claim_recorded :
      (space : Bytes) (m n m' : Memory P) (st st1 st2 st' : S.Store)
      → m ≡ n
      → st ≡ st1
      → validate_vector_space space ≡ ok tt
      → check_claim P space m.vector_space (P.no_vectors m.vecs) ≡ ok true
      → S.append_journal
          (frame xxh3_64
            (op_byte (Op.set_vector_space space))
            (payload (Op.set_vector_space space)))
          st1
        ≡ (st2, ok tt)
      → record n { vector_space = some space } ≡ m'
      → st2 ≡ st'
      → Recorded xxh3_64 P S maintain (Op.set_vector_space space) m m' st st'
  claim_recorded space m n m' st st1 st2 st' kept same valid checked wrote set end = record {
    wrote =
        ap
          (S.append_journal (
            frame xxh3_64 (op_byte (Op.set_vector_space space))
              (payload (Op.set_vector_space space))))
          same
        ∙ wrote
        ∙ ap (λ (x : S.Store). (x, ok tt)) end;
    replays = λ report.
        subst
          (λ (x : Memory P).
            Gives (replay_op P maintain (Op.set_vector_space space) report) m x (counted report))
          (ap (λ (x : Memory P). record x { vector_space = some space }) kept ∙ set)
          (set_steps space m report valid checked);
  }

  claimed :
      (space : Bytes) (m m' : Memory P) (st st' : S.Store) (needs b : Bool) (s : Db xxh3_64 P S)
      → (m ≡ s.0)
      → (st ≡ s.1)
      → validate_vector_space space ≡ ok tt
      → check_claim P space m.vector_space (P.no_vectors m.vecs) ≡ ok needs
      → Gives
          (elim needs [
            | false ↦ give false
            | true ↦ journal xxh3_64 P S (Op.set_vector_space space) >>= λ u.
                on_memory xxh3_64 P S (set_vector_space P space) >>= λ v. give true
          ])
          s
          (m', st')
          b
      → RecordedIf xxh3_64 P S maintain claims b (Op.set_vector_space space) m m' st st'
  claimed space m m' st st' false b s kept same valid checked h =
      let (end, told) = of_give false b s (m', st') h in
      inl (
        sym told,
        kept ∙ ap (λ (d : Db xxh3_64 P S). d.0) end,
        same ∙ ap (λ (d : Db xxh3_64 P S). d.1) end,
      )
  claimed space m m' st st' true b s kept same valid checked h =
      let op : Op = Op.set_vector_space space in
      of_bind (journal xxh3_64 P S op) _ s (m', st') b h
        λ d u written more.
          of_bind (on_memory xxh3_64 P S (set_vector_space P space)) _ d (m', st') b more
            λ e v did last.
              let (here, wrote) = of_journal xxh3_64 P S op s.0 d.0 s.1 d.1 u written in
              let (ran, on) =
                of_on_memory xxh3_64 P S (set_vector_space P space) d.0 e.0 d.1 e.1 v did in
              let (end, told) = of_give true b e (m', st') last in
              inr (
                sym told,
                claim_recorded space m d.0 m' st s.1 d.1 st' (kept ∙ here) same valid checked wrote
                    (now_set space d.0 e.0 v ran ∙ ap (λ (x : Db xxh3_64 P S). x.0) end)
                    (on ∙ ap (λ (x : Db xxh3_64 P S). x.1) end),
              )

  pub claim_vector_space-Recorded :
      (space : Bytes) (m m' : Memory P) (st st' : S.Store) (b : Bool)
      → Gives (claim_vector_space xxh3_64 P S space) (m, st) (m', st') b
      → RecordedIf xxh3_64 P S maintain claims b (Op.set_vector_space space) m m' st st'
  unfolding claim_vector_space
  claim_vector_space-Recorded space m m' st st' b h =
      of_bind (on_memory xxh3_64 P S (check_vector_space_claim P space)) _ (m, st) (m', st') b h
        λ s needs first more.
          let (ran, same) =
            of_on_memory xxh3_64 P S (check_vector_space_claim P space) m s.0 st s.1 needs first in
          let (kept, valid, checked) = of_claim space m s.0 needs ran in
          claimed space m m' st st' needs b s kept same valid checked more
