-- ===== src/Memory/Inversion.antt =====
-- What an act that returned a value has done.
use plugmem.Base.{
  ℕ, ◌≡◌, refl, ap, ◌∙◌, arith, [], some, Result, ok, err, String, Option-cases, inl, inr,
}
use plugmem.Base.Bytes.{Bytes}
use plugmem.Errors.{Error}
use plugmem.Journal.Ops.{Op, op_byte, payload}
use plugmem.Journal.Frames.{encode, encode_entry, frame}
use plugmem.Memory.{Stores, Memory, Act, Run, done, failed, panics, then_run, ◌>>=◌, give, attempt}
use plugmem.Memory.Verbs.{Storage, Db, on_memory, stored_as, append, journal}

-- An act that returns such a value.
abbrev pub Gives : {S A : Type 0} → Act S A → S → S → A → Type 0
Gives {S} {A} act s t a = ◌≡◌ {A = S × Run A} (act s) (t, done a)

pair_eq : {A B : Type 0} (x : A × B) (a : A) (b : B) → x.0 ≡ a → x.1 ≡ b → ◌≡◌ {A = A × B} x (a, b)
pair_eq (p, q) a b e f = rw (e, f) refl

module _ {S A B : Type 0} where
  of_then_run :
      {C : Type 0} (x : S × Run A) (f : A → Act S B) (s' : S) (b : B)
      → ◌≡◌ {A = S × Run B} (then_run x f) (s', done b)
      → ((t : S) (a : A) → ◌≡◌ {A = S × Run A} x (t, done a) → Gives (f a) t s' b → C)
      → C
  of_then_run (s, done a) f s' b h more = more s a refl h
  of_then_run (s, failed e) f s' b h more = cc
  of_then_run (s, panics) f s' b h more = cc

  pub of_bind :
      {C : Type 0} (m : Act S A) (f : A → Act S B) (s s' : S) (b : B)
      → Gives (m >>= f) s s' b
      → ((t : S) (a : A) → Gives m s t a → Gives (f a) t s' b → C)
      → C
  of_bind m f s s' b h more = of_then_run (m s) f s' b h more

  pub bind-Gives :
      (m : Act S A) (f : A → Act S B) (s t s' : S) (a : A) (b : B)
      → Gives m s t a
      → Gives (f a) t s' b
      → Gives (m >>= f) s s' b
  bind-Gives m f s t s' a b h g = ap (λ (x : S × Run A). then_run x f) h ∙ g

module _ {S A : Type 0} where
  pub of_give : (a b : A) (s t : S) → Gives (give a) s t b → (s ≡ t) × (a ≡ b)
  of_give a b s t h = (ap (λ (x : S × Run A). x.0) h, done_inj (ap (λ (x : S × Run A). x.1) h))
    where
      done_inj : {A : Type 0} {a b : A} → ◌≡◌ {A = Run A} (done a) (done b) → a ≡ b
      done_inj e = cc

  pub of_attempt :
      (r : Result Error A) (s t : S) (a : A) → Gives (attempt r) s t a → (s ≡ t) × (r ≡ ok a)
  of_attempt (ok b) s t a h = let (e, f) = of_give b a s t h in (e, ap ok f)
  of_attempt (err e) s t a h = cc

module _ (xxh3_64 : Bytes → ℕ) (P : Stores) (S : Storage) where
  pub of_on_memory :
      {A : Type 0} (act : Act (Memory P) A) (m m' : Memory P) (st st' : S.Store) (a : A)
      → Gives (on_memory xxh3_64 P S act) (m, st) (m', st') a
      → Gives act m m' a × (st ≡ st')
  of_on_memory {A} act m m' st st' a h = (
    pair_eq (act m) m' (done a) (ap (λ (x : Db xxh3_64 P S × Run A). x.0.0) h)
        (ap (λ (x : Db xxh3_64 P S × Run A). x.1) h),
    ap (λ (x : Db xxh3_64 P S × Run A). x.0.1) h,
  )

  of_stored :
      (r : Result String (Unit {0})) (u : Unit {0}) → stored_as xxh3_64 P S r ≡ done u → r ≡ ok u
  of_stored (ok v) u h = refl
  of_stored (err e) u h = cc

  of_append :
      (entry : Bytes) (m m' : Memory P) (st st' : S.Store) (u : Unit {0})
      → Gives (append xxh3_64 P S entry) (m, st) (m', st') u
      → (m ≡ m') × (S.append_journal entry st ≡ (st', ok u))
  unfolding append
  of_append entry m m' st st' u h = (
    ap (λ (x : Db xxh3_64 P S × Run Unit). x.0.0) h,
    pair_eq (S.append_journal entry st) st' (ok u) (ap (λ (x : Db xxh3_64 P S × Run Unit). x.0.1) h)
        (of_stored (S.append_journal entry st).1 u (ap (λ (x : Db xxh3_64 P S × Run Unit). x.1) h)),
  )

  encode-frame :
      (op : Op) (entry : Bytes)
      → encode xxh3_64 op [] ≡ some entry
      → frame xxh3_64 (op_byte op) (payload op) ≡ entry
  unfolding encode encode_entry
  encode-frame op entry h = ground arith

  -- What an operation's record adds to the storage.
  pub of_journal :
      (op : Op) (m m' : Memory P) (st st' : S.Store) (u : Unit {0})
      → Gives (journal xxh3_64 P S op) (m, st) (m', st') u
      → (m ≡ m') × (S.append_journal (frame xxh3_64 (op_byte op) (payload op)) st ≡ (st', ok u))
  unfolding journal
  of_journal op m m' st st' u h = elim (Option-cases (encode xxh3_64 op [])) [
    | inl none' ↦ let bad = rw (none', journal) at h in cc
    | inr (entry, e) ↦
        rw (encode-frame op entry e) (of_append entry m m' st st' u (rw (e, journal) at h))
  ]
