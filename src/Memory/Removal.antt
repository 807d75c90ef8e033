-- ===== src/Memory/Removal.antt =====
-- Removing a tag: nothing is recorded when no fact carries it.
use plugmem.Base.{
  ℕ, ◌+◌, ◌-◌, ◌^◌, ◌≤◌, ◌≡◌, ◌≢◌, inl, inr, sym, ap, ◌∙◌, arith, List, [], ◌∷◌, Bool, true, false,
  not, ◌==◌, Bool-cases, Option-cases,
}
use plugmem.Base.Bytes.{Bytes}
use plugmem.Journal.Ops.{Op}
use plugmem.Memory.{Stores, Memory, Act, Run, give}
use plugmem.Memory.Inputs.{is_nil}
use plugmem.Memory.Tags.{apply_remove_tag, retag_all, retag_without, current_only}
use plugmem.Memory.Verbs.{Storage, Db, on_memory, journal, remove_tag, journal_removal}
use plugmem.Memory.Replay.{replay_op}
use plugmem.Memory.Inversion.{Gives, of_bind, of_give, of_on_memory}
use plugmem.Memory.Journalled.{Recorded, finish, counted-Gives}
use plugmem.Paged.Copy.{eq_cases}
use mathlib.Core.Path.{subst}
use Prim.Native.Nat.{min}
use plugmem.Memory.Optional.{RecordedIf}

abbrev pub affects : ℕ → Bool
affects a = not (a == 0)

module _ (xxh3_64 : Bytes → ℕ) (P : Stores) (S : Storage)
    (maintain : ℕ → ℕ → Act (Memory P) Unit) where
  retag_all-le :
      (now : ℕ) (tag : Bytes) (targets : List ℕ) (k a : ℕ) (m m' : Memory P)
      → k ≤ 2 ^ 32 - 1
      → Gives (retag_all P now tag targets k) m m' a
      → k ≤ a
  unfolding retag_all
  retag_all-le now tag [] k a m m' small h = omega (arith, (of_give k a m m' h).1)
  retag_all-le now tag (t ∷ ts) k a m m' small h =
      of_bind (retag_without P now t tag) _ m m' a h λ n u first more.
        omega (arith, retag_all-le now tag ts (min (k + 1) (2 ^ 32 - 1)) a n m' (omega arith) more)

  none_retagged :
      (now : ℕ) (tag : Bytes) (targets : List ℕ) (m m' : Memory P)
      → Gives (retag_all P now tag targets 0) m m' 0
      → m ≡ m'
  unfolding retag_all
  none_retagged now tag [] m m' h = (of_give 0 0 m m' h).0
  none_retagged now tag (t ∷ ts) m m' h =
      of_bind (retag_without P now t tag) _ m m' 0 h λ n u first more. absurd (
        omega (arith, retag_all-le now tag ts (min (0 + 1) (2 ^ 32 - 1)) 0 n m' (omega arith) more))

  none_removed :
      (now : ℕ) (tag : Bytes) (m m' : Memory P) → Gives (apply_remove_tag P now tag) m m' 0 → m ≡ m'
  unfolding apply_remove_tag
  none_removed now tag m m' h = elim (Option-cases (P.lookup tag m.terms)) [
    | inl none' ↦ ap (λ (x : Memory P × Run ℕ). x.0) (rw (none', apply_remove_tag) at h)
    | inr (term, e) ↦
        none_retagged now tag (current_only P m (P.ids term m.tags_idx)) m m'
          (rw (e, apply_remove_tag) at h)
  ]

  removal :
      (now : ℕ) (tag : Bytes) (m m' : Memory P) (st st' : S.Store) (affected a : ℕ)
      (s : Db xxh3_64 P S)
      → Gives (apply_remove_tag P now tag) m s.0 affected
      → st ≡ s.1
      → Gives (journal_removal xxh3_64 P S now tag affected) s (m', st') a
      → RecordedIf xxh3_64 P S maintain affects a (Op.remove_tag now tag) m m' st st'
  unfolding journal_removal replay_op
  removal now tag m m' st st' affected a s ran same h = elim (eq_cases affected 0) [
    | inl z ↦
        let t : (affected == 0) ≡ true = ground arith in
        let (end, told) = of_give affected a s (m', st') (rw t at h) in
        inl (
          (let e : a ≡ 0 = sym told ∙ z in ground arith),
          none_removed now tag m s.0
                (subst (λ (k : ℕ). Gives (apply_remove_tag P now tag) m s.0 k) z ran)
              ∙ ap (λ (d : Db xxh3_64 P S). d.0) end,
          same ∙ ap (λ (d : Db xxh3_64 P S). d.1) end,
        )
    | inr n ↦
        let t : (affected == 0) ≡ false = ground arith in
        of_bind (journal xxh3_64 P S (Op.remove_tag now tag)) (λ u. give affected) s (m', st') a
          (rw t at h)
          λ d u written last.
            let told = (of_give affected a d (m', st') last).1 in
            inr (
              (let e : a ≢ 0 = λ z. n (told ∙ z) in ground arith),
              subst
                  (λ (x : Db xxh3_64 P S).
                    Recorded xxh3_64 P S maintain (Op.remove_tag now tag) m x.0 st x.1)
                  (of_give affected a d (m', st') last).0
                  (finish xxh3_64 P S maintain (Op.remove_tag now tag) m s.0 st s.1 d u same written
                    λ report.
                      counted-Gives xxh3_64 P S maintain (apply_remove_tag P now tag) m s.0 affected
                        report ran),
            )
  ]

  pub remove_tag-Recorded :
      (now : ℕ) (tag : Bytes) (m m' : Memory P) (st st' : S.Store) (a : ℕ)
      → Gives (remove_tag xxh3_64 P S now tag) (m, st) (m', st') a
      → RecordedIf xxh3_64 P S maintain affects a (Op.remove_tag now tag) m m' st st'
  unfolding remove_tag
  remove_tag-Recorded now tag m m' st st' a h = elim (Bool-cases (is_nil tag)) [
    | inl empty ↦ let bad = rw (empty, remove_tag) at h in cc
    | inr full ↦
        of_bind (on_memory xxh3_64 P S (apply_remove_tag P now tag)) _ (m, st) (m', st') a
          (rw (full, remove_tag) at h)
          λ s affected first more.
            let (ran, same) =
              of_on_memory xxh3_64 P S (apply_remove_tag P now tag) m s.0 st s.1 affected first in
            removal now tag m m' st st' affected a s ran same more
  ]
