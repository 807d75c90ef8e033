-- ===== src/Base/Results.antt =====
-- Rust's `Result<T, E>`; `?` is the bind of a `do` block.
use mathlib.Core.Path.{◌≡◌, refl}

pub data Result (E A : Type 0) : Type 0 where
  ok : A → Result E A
  err : E → Result E A

infixl 5 ◌>>=◌
abbrev pub ◌>>=◌ : {E A B : Type 0} → Result E A → (A → Result E B) → Result E B
ok a >>= f = f a
err e >>= f = err e

-- What `m?` gives where the rest of the function returns normally.
pub ok_of_bind :
    {E A B : Type 0} (m : Result E A) (rest : A → Result E B) (b : B)
    → (m >>= rest) ≡ ok b
    → (a : A) × (rest a ≡ ok b) × (m ≡ ok a)
ok_of_bind (ok a) rest b done = (a, done, refl)
ok_of_bind (err e) rest b done = cc

-- The same for a proof of anything.
pub from_bind :
    {E A B : Type 0} {C : Type 0} (m : Result E A) (rest : A → Result E B) (b : B)
    → (m >>= rest) ≡ ok b
    → ((a : A) → m ≡ ok a → rest a ≡ ok b → C)
    → C
from_bind (ok a) rest b done f = f a refl done
from_bind (err e) rest b done f = cc

pub ok_inj : {E A : Type 0} {a b : A} → ◌≡◌ {A = Result E A} (ok a) (ok b) → a ≡ b
ok_inj e = cc
