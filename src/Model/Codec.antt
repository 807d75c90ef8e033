-- ===== src/Model/Codec.antt =====
-- A record type and its slot: what an arena needs of a write and a read, and a proof of it from the list of fields.
use plugmem.Base.{ℕ, zero, suc, ◌^◌, ◌<◌, ◌≡◌, refl, sym, ap, ◌∙◌, arith, append-nil}
use plugmem.Base.{List, [], ◌∷◌, ◌++◌, length, drop}
use plugmem.Base.Bytes.{Bytes}
use plugmem.Arena.{Slot}
use plugmem.Model.{Field, write_fields}
use plugmem.Model.Layout.{IsPacked, contents, write_fields-contents}

-- What an arena needs of the records that it holds: a buffer of the slot's size is overwritten as a whole,
-- whatever it held, and a record that fits its fields is read back.
pub record IsCodec {R : Type 0} (T : Slot) (IsValid : R → Type 0) (write : R → Bytes → Bytes)
    (read : Bytes → R) : Type 0 where
  pub sized : (r : R) (out : Bytes) → length out ≡ T.size → length (write r out) ≡ T.size
  pub overwrites :
      (r : R) (out out' : Bytes)
      → length out ≡ T.size
      → length out' ≡ T.size
      → write r out ≡ write r out'
  pub back : (r : R) (out : Bytes) → IsValid r → length out ≡ T.size → read (write r out) ≡ r

drop_all : (n : ℕ) (xs : Bytes) → length xs ≡ n → drop n xs ≡ []
drop_all zero [] h = refl
drop_all zero (x ∷ xs) h = absurd (omega arith)
drop_all (suc n) [] h = refl
drop_all (suc n) (x ∷ xs) h = drop_all n xs (omega arith)

module _ {R : Type 0} (T : Slot) (IsValid : R → Type 0) (fields : R → List Field) (read : Bytes → R)
    (packed : (r : R) → IsPacked 0 (fields r) T.size)
    (full : (r : R) → length (contents (fields r)) ≡ T.size)
    (known : (r : R) → IsValid r → read (contents (fields r)) ≡ r) where
  write_all :
      (r : R) (out : Bytes)
      → length out ≡ T.size
      → write_fields (fields r) out ≡ contents (fields r)
  write_all r out h =
      write_fields-contents 0 (fields r) T.size out (packed r) (omega arith)
      ∙ ap (λ (t : Bytes). contents (fields r) ++ t) (drop_all T.size out h)
      ∙ append-nil (contents (fields r))

  pub fields-IsCodec : IsCodec T IsValid (λ r out. write_fields (fields r) out) read
  fields-IsCodec = record {
    sized = λ r out h. ap (λ (t : Bytes). length t) (write_all r out h) ∙ full r;
    overwrites = λ r out out' h h'. write_all r out h ∙ sym (write_all r out' h');
    back = λ r out v h. ap read (write_all r out h) ∙ known r v;
  }

abbrev pub IsU16 : ℕ → Type 0
IsU16 v = v < 2 ^ 16
