-- ===== src/Base/Outcomes.antt =====
-- What a run of code comes to: it returns, it panics, or the model's fuel is not enough.
use mathlib.Core.Path.{◌≡◌, refl, sym, subst, ◌∙◌}
use mathlib.Core.Option.{Option, none, some}
use plugmem.Base.{Bool, true, false, Result, ok, err, if◌then◌else◌}

pub data Outcome (A : Type 0) : Type 0 where
  returned : A → Outcome A
  panicked : Outcome A
  ran_out : Outcome A

infixl 5 ◌>>=◌
abbrev pub ◌>>=◌ : {A B : Type 0} → Outcome A → (A → Outcome B) → Outcome B
returned a >>= f = f a
panicked >>= f = panicked
ran_out >>= f = ran_out

-- A panic at an index out of range.
abbrev pub lift : {A : Type 0} → Option A → Outcome A
lift none = panicked
lift (some a) = returned a

abbrev pub Returns : {A : Type 0} → Outcome A → Type 0
Returns {A} o = (r : A) × (o ≡ returned r)

-- A run that returns such a value.
abbrev pub ReturnsSuch : {A : Type 0} → (A → Type 0) → Outcome A → Type 0
ReturnsSuch {A} P o = (r : A) × (o ≡ returned r) × P r

pub returned_inj : {A : Type 0} {a b : A} → ◌≡◌ {A = Outcome A} (returned a) (returned b) → a ≡ b
returned_inj e = cc

pub of_returned :
    {A B : Type 0} {C : Type 0} (m : Outcome A) (rest : A → Outcome B) (b : B)
    → (m >>= rest) ≡ returned b
    → ((a : A) → m ≡ returned a → rest a ≡ returned b → C)
    → C
of_returned (returned a) rest b done f = f a refl done
of_returned panicked rest b done f = cc
of_returned ran_out rest b done f = cc

-- A run goes on where the one before it returns such a value.
pub then_such :
    {A B : Type 0} (P : A → Type 0) (Q : B → Type 0) (m : Outcome A) (rest : A → Outcome B)
    → ReturnsSuch P m
    → ((a : A) → P a → ReturnsSuch Q (rest a))
    → ReturnsSuch Q (m >>= rest)
then_such P Q (returned a) rest (b, e, p) more = more a (subst P (sym (returned_inj e)) p)
then_such P Q panicked rest (b, e, p) more = cc
then_such P Q ran_out rest (b, e, p) more = cc

-- Reading an index in range.
pub lift_such :
    {A B : Type 0} (Q : B → Type 0) (o : Option A) (rest : A → Outcome B) (a : A)
    → o ≡ some a
    → ReturnsSuch Q (rest a)
    → ReturnsSuch Q (lift o >>= rest)
lift_such Q none rest a e more = cc
lift_such Q (some b) rest a e more = subst (λ x. ReturnsSuch Q (rest x)) (some_eq e) more
  where
    some_eq : {A : Type 0} {x y : A} → some x ≡ some y → y ≡ x
    some_eq e = cc

-- A property of the value where a fallible run does not refuse.
abbrev pub OkSuch : {E A : Type 0} → (A → Type 0) → Result E A → Type 0
OkSuch Q (ok a) = Q a
OkSuch Q (err e) = Unit

-- `?` on a run that may refuse.
pub ok_such :
    {E A B : Type 0} (P : A → Type 0) (Q : B → Type 0) (m : Outcome (Result E A))
    (rest : A → Outcome (Result E B))
    → ReturnsSuch (OkSuch P) m
    → ((a : A) → P a → ReturnsSuch (OkSuch Q) (rest a))
    → ReturnsSuch (OkSuch Q) (m >>= λ v. elim v [ err e ↦ returned (err e) | ok a ↦ rest a ])
ok_such {E} {A} {B} P Q m rest h more = then_such (OkSuch P) (OkSuch Q) m _ h go
  where
    go :
        (v : Result E A)
        → OkSuch P v
        → ReturnsSuch (OkSuch Q) (elim v [ err e ↦ returned (err e) | ok a ↦ rest a ])
    go (err e) p = (_, refl, tt)
    go (ok a) p = more a p

-- A test that refuses, and what follows where it does not.
pub test_such :
    {E A : Type 0} (Q : A → Type 0) (bad : Bool) (e : E) (rest : Outcome (Result E A))
    → (bad ≡ false → ReturnsSuch (OkSuch Q) rest)
    → ReturnsSuch (OkSuch Q) (if bad then returned (err e) else rest)
test_such Q true e rest more = (_, refl, tt)
test_such Q false e rest more = more refl

pub Returns-OkSuch :
    {E A : Type 0} (Q : A → Type 0) (o : Outcome (Result E A))
    → ReturnsSuch (OkSuch Q) o
    → Returns o × ((a : A) → o ≡ returned (ok a) → Q a)
Returns-OkSuch Q o (r, e, q) = ((r, e), λ a f. subst (OkSuch Q) (returned_inj (sym e ∙ f)) q)
