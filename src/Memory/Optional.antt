-- ===== src/Memory/Optional.antt =====
-- A verb that goes to the journal only if it has something to record.
use plugmem.Base.{ℕ, ◌≡◌, ◌⊎◌, Bool, true, false}
use plugmem.Base.Bytes.{Bytes}
use plugmem.Journal.Ops.{Op}
use plugmem.Memory.{Stores, Memory, Act}
use plugmem.Memory.Verbs.{Storage}
use plugmem.Memory.Journalled.{Recorded}

module _ (xxh3_64 : Bytes → ℕ) (P : Stores) (S : Storage)
    (maintain : ℕ → ℕ → Act (Memory P) Unit) where
  -- The verb left the database as it was and says so, or went to the journal.
  abbrev pub RecordedIf :
      {A : Type 0} → (A → Bool) → A → Op → Memory P → Memory P → S.Store → S.Store → Type 0
  RecordedIf test a op m m' st st' =
      ((test a ≡ false) × (m ≡ m') × (st ≡ st'))
      ⊎ ((test a ≡ true) × Recorded xxh3_64 P S maintain op m m' st st')
