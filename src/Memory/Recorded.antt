-- ===== src/Memory/Recorded.antt =====
-- The verbs that store facts, and their journal records.
use plugmem.Base.{ℕ, ◌≤◌, ◌≡◌, ◌≢◌, refl, sym, ◌∙◌, arith, none, false, ltb, ok}
use plugmem.Base.Bytes.{Bytes}
use plugmem.Errors.{Error, none_id, is_none}
use plugmem.Journal.Ops.{Op, Remembered}
use plugmem.Memory.{Stores, Memory, Act, ◌>>=◌, attempt}
use plugmem.Memory.Inputs.{RememberInput, RememberOutcome, unwrap_or, validate_input, check_vector}
use plugmem.Memory.Facts.{revisable, fact, check_revisable, close_target}
use plugmem.Memory.Store.{apply_remember}
use plugmem.Memory.Verbs.{
  Storage, Db, on_memory, journal, journal_remember, recorded, remember, remember_valid, revise,
  revise_checked, revise_valid,
}
use plugmem.Memory.Replay.{
  OpenReport, counted, replayed_input, check_remembered, replay_target, replay_close, replay_new,
  replay_remember, replay_op,
}
use plugmem.Memory.Inversion.{Gives, of_bind, bind-Gives, of_give, of_attempt, of_on_memory}
use plugmem.Memory.Stored.{apply_remember-id, apply_remember_replayed, of_validate_input}
use plugmem.Memory.Journalled.{Recorded, finish, map_err-Gives, counted-Gives}
use mathlib.Core.Path.{subst}

module _ (xxh3_64 : Bytes → ℕ) (P : Stores) (S : Storage)
    (maintain : ℕ → ℕ → Act (Memory P) Unit) where
  -- A valid input for the engine in this state.
  abbrev Valid : RememberInput → Memory P → Type 0
  Valid input m =
      (check_vector m.cfg.dim input.vector ≡ ok tt)
      × ((next revises : ℕ) → check_remembered next m.cfg.dim (recorded input revises next) ≡ ok tt)

  of_valid :
      {B : Type 0} {C : Type 0} (input : RememberInput) (rest : Act (Db xxh3_64 P S) B)
      (m : Memory P) (st : S.Store) (d : Db xxh3_64 P S) (b : B)
      → Gives (on_memory xxh3_64 P S (validate_input P input) >>= λ u. rest) (m, st) d b
      → (Valid input m → Gives rest (m, st) d b → C)
      → C
  of_valid input rest m st d b h more =
      of_bind (on_memory xxh3_64 P S (validate_input P input)) (λ u. rest) (m, st) d b h
        λ s u first last.
          let (ran, same) =
            of_on_memory xxh3_64 P S (validate_input P input) m s.0 st s.1 u first in
          let (kept, v, c) = of_validate_input P input m s.0 u ran in
          more (v, c)
            (subst (λ (n : Memory P). Gives rest (n, st) d b) (sym kept)
              (subst (λ (x : S.Store). Gives rest (s.0, x) d b) (sym same) last))

  replay_new-Gives :
      (input : RememberInput) (revises : ℕ) (m n m' : Memory P) (outcome : RememberOutcome)
      → Valid input m
      → Gives (replay_target P revises) m m tt
      → Gives (apply_remember P input revises none) m n outcome
      → Gives (replay_close P revises (unwrap_or input.valid_from input.now)) n m' tt
      → Gives (replay_new P (recorded input revises m.next_fact)) m m' tt
  unfolding replay_new
  replay_new-Gives input revises m n m' outcome v target stored closed =
      let check : Gives
          (attempt (check_remembered m.next_fact m.cfg.dim (recorded input revises m.next_fact))) m
          m tt =
        rw (v.1 m.next_fact revises) refl in
      bind-Gives
        (λ x.
          attempt (check_remembered x.next_fact x.cfg.dim (recorded input revises m.next_fact)) x)
        _ m m m' tt tt check
        (bind-Gives (replay_target P revises) _ m m m' tt tt target (
          bind-Gives
            (apply_remember P (replayed_input (recorded input revises m.next_fact)) revises none) _
            m n m' outcome tt
            (apply_remember_replayed P input revises m.next_fact m.cfg.dim m n outcome v.0 stored)
            closed))

  replay_remember-Gives :
      (r : Remembered) (m m' : Memory P) (report : OpenReport)
      → m.next_fact ≤ r.assigned
      → Gives (replay_new P r) m m' tt
      → Gives (replay_remember P maintain r report) m m' (counted report)
  unfolding replay_remember
  replay_remember-Gives r m m' report fresh h =
      let t : ltb r.assigned m.next_fact ≡ false = ground arith in
      rw (replay_remember, t) (counted-Gives xxh3_64 P S maintain (replay_new P r) m m' tt report h)

  remember_steps :
      (input : RememberInput) (revises : ℕ) (m n m' : Memory P) (outcome : RememberOutcome)
      → Valid input m
      → Gives (replay_target P revises) m m tt
      → Gives (apply_remember P input revises none) m n outcome
      → Gives (replay_close P revises (unwrap_or input.valid_from input.now)) n m' tt
      → (report : OpenReport)
      → Gives
          (replay_op P maintain (Op.remember (recorded input revises outcome.id)) report)
          m
          m'
          (counted report)
  unfolding replay_op
  remember_steps input revises m n m' outcome v target stored closed report =
      subst
        (λ (id : ℕ).
          Gives (replay_remember P maintain (recorded input revises id) report) m m'
            (counted report))
        (apply_remember-id P input revises none m n outcome stored)
        (replay_remember-Gives (recorded input revises m.next_fact) m m' report (omega arith)
          (replay_new-Gives input revises m n m' outcome v target stored closed))

  no_target : (m : Memory P) → Gives (replay_target P none_id) m m tt
  unfolding replay_target
  no_target m = refl

  no_close : (m : Memory P) (at : ℕ) → Gives (replay_close P none_id at) m m tt
  unfolding replay_close
  no_close m at = refl

  pub remember-Recorded :
      (input : RememberInput) (m m' : Memory P) (st st' : S.Store) (outcome : RememberOutcome)
      → Gives (remember xxh3_64 P S input) (m, st) (m', st') outcome
      → Recorded xxh3_64 P S maintain (Op.remember (recorded input none_id outcome.id)) m m' st st'
  unfolding remember remember_valid journal_remember
  remember-Recorded input m m' st st' outcome h =
      of_valid input (remember_valid xxh3_64 P S input) m st (m', st') outcome h
        λ v rest.
          of_bind (on_memory xxh3_64 P S (apply_remember P input none_id none)) _ (m, st) (m', st')
            outcome rest
            λ s made first more.
              let (ran, same) =
                of_on_memory xxh3_64 P S (apply_remember P input none_id none) m s.0 st s.1 made
                  first in
              let op : Op = Op.remember (recorded input none_id made.id) in
              of_bind (journal xxh3_64 P S op) _ s (m', st') outcome more
                λ t u written last.
                  let (end, kept) = of_give made outcome t (m', st') last in
                  subst
                    (λ (o : RememberOutcome).
                      Recorded xxh3_64 P S maintain (Op.remember (recorded input none_id o.id)) m m'
                        st st')
                    kept
                    (subst (λ (d : Db xxh3_64 P S). Recorded xxh3_64 P S maintain op m d.0 st d.1)
                      end
                      (finish xxh3_64 P S maintain op m s.0 st s.1 t u same written (
                        remember_steps input none_id m s.0 s.0 made v (no_target m) ran
                          (no_close s.0 (unwrap_or input.valid_from input.now)))))

  some_target :
      (target : ℕ) (m : Memory P)
      → target ≢ none_id
      → Gives (check_revisable P target) m m tt
      → Gives (replay_target P target) m m tt
  unfolding replay_target
  some_target target m n h =
      let t : is_none target ≡ false = ground arith in
      rw t (
        map_err-Gives xxh3_64 P S maintain
          (λ e. Error.corrupt "journal revises an unrevisable fact") (check_revisable P target) m m
          tt h)

  some_close :
      (target at : ℕ) (m m' : Memory P)
      → target ≢ none_id
      → Gives (close_target P target at) m m' tt
      → Gives (replay_close P target at) m m' tt
  unfolding replay_close
  some_close target at m m' n h = let t : is_none target ≡ false = ground arith in rw t h

  -- The check leaves the state as it is.
  of_checked :
      {B : Type 0} {C : Type 0} (target : ℕ) (rest : Act (Db xxh3_64 P S) B) (m : Memory P)
      (st : S.Store) (d : Db xxh3_64 P S) (b : B)
      → Gives (on_memory xxh3_64 P S (check_revisable P target) >>= λ u. rest) (m, st) d b
      → (Gives (check_revisable P target) m m tt → Gives rest (m, st) d b → C)
      → C
  unfolding check_revisable
  of_checked target rest m st d b h more =
      of_bind (on_memory xxh3_64 P S (check_revisable P target)) (λ u. rest) (m, st) d b h
        λ s u first last.
          let (ran, same) =
            of_on_memory xxh3_64 P S (check_revisable P target) m s.0 st s.1 u first in
          let (kept, passed) = of_attempt (revisable P target (fact P m target)) m s.0 u ran in
          more (rw passed refl) (
            subst (λ (n : Memory P). Gives rest (n, st) d b) (sym kept)
              (subst (λ (x : S.Store). Gives rest (s.0, x) d b) (sym same) last))

  pub revise-Recorded :
      (target : ℕ) (input : RememberInput) (m m' : Memory P) (st st' : S.Store)
      (outcome : RememberOutcome)
      → target ≢ none_id
      → Gives (revise xxh3_64 P S target input) (m, st) (m', st') outcome
      → Recorded xxh3_64 P S maintain (Op.remember (recorded input target outcome.id)) m m' st st'
  unfolding revise revise_checked revise_valid journal_remember
  revise-Recorded target input m m' st st' outcome n h =
      let at : ℕ = unwrap_or input.valid_from input.now in
      of_valid input (revise_checked xxh3_64 P S target input) m st (m', st') outcome h
        λ v checked.
          of_checked target (revise_valid xxh3_64 P S target input) m st (m', st') outcome checked
            λ passed rest.
              of_bind (on_memory xxh3_64 P S (apply_remember P input target none)) _ (m, st)
                (m', st') outcome rest
                λ s made first more.
                  let (ran, same) =
                    of_on_memory xxh3_64 P S (apply_remember P input target none) m s.0 st s.1 made
                      first in
                  of_bind (on_memory xxh3_64 P S (close_target P target at)) _ s (m', st') outcome
                    more
                    λ c w second then'.
                      let (closed, same') =
                        of_on_memory xxh3_64 P S (close_target P target at) s.0 c.0 s.1 c.1 w
                          second in
                      let op : Op = Op.remember (recorded input target made.id) in
                      of_bind (journal xxh3_64 P S op) _ c (m', st') outcome then'
                        λ t u written last.
                          let (end, kept) = of_give made outcome t (m', st') last in
                          subst
                            (λ (o : RememberOutcome).
                              Recorded xxh3_64 P S maintain
                                (Op.remember (recorded input target o.id)) m m' st st')
                            kept
                            (subst
                              (λ (d : Db xxh3_64 P S).
                                Recorded xxh3_64 P S maintain op m d.0 st d.1)
                              end
                              (finish xxh3_64 P S maintain op m c.0 st c.1 t u (same ∙ same')
                                written
                                (remember_steps input target m s.0 c.0 made v
                                  (some_target target m n passed) ran
                                  (some_close target at s.0 c.0 n closed))))
