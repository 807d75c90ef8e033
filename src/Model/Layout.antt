-- ===== src/Model/Layout.antt =====
-- Fields that fill a buffer one behind the other.
use plugmem.Base.{ℕ, ◌+◌, ◌-◌, ◌≤◌, ◌≡◌, sym, ap, ◌∙◌, arith}
use plugmem.Base.{
  List, [], ◌∷◌, ◌++◌, length, take, drop, length-append, length-take, length-drop, drop-drop,
  append_assoc, drop-append_ge, take_front, take-append-drop,
}
use plugmem.Base.Bytes.{Bytes}
use plugmem.Model.{Field, write_field, write_fields}

-- From the offset `at` on, the fields follow each other without a gap and end at `size`.
abbrev pub IsPacked : ℕ → List Field → ℕ → Type 0
IsPacked at [] size = at ≡ size
IsPacked at (f ∷ fs) size = (f.at ≡ at) × IsPacked (at + length f.bytes) fs size

abbrev pub contents : List Field → Bytes
contents [] = []
contents (f ∷ fs) = f.bytes ++ contents fs

packed-le : (at : ℕ) (fs : List Field) (size : ℕ) → IsPacked at fs size → at ≤ size
packed-le at [] size h = omega arith
packed-le at (f ∷ fs) size h = omega (arith, packed-le (at + length f.bytes) fs size h.1)

module _ (f : Field) (out : Bytes) (inside : f.at + length f.bytes ≤ length out) where
  length-front : length (take f.at out ++ f.bytes) ≡ f.at + length f.bytes
  length-front = omega (arith, length-append (take f.at out) f.bytes, length-take f.at out)

  take-write_field : take (f.at + length f.bytes) (write_field f out) ≡ take f.at out ++ f.bytes
  unfolding write_field
  take-write_field =
      ap (λ (t : Bytes). take (f.at + length f.bytes) t)
        (sym (append_assoc (take f.at out) f.bytes (drop (f.at + length f.bytes) out)))
      ∙ take_front (f.at + length f.bytes) (take f.at out ++ f.bytes)
          (drop (f.at + length f.bytes) out) length-front

  drop-write_field :
      (size : ℕ) → f.at + length f.bytes ≤ size → drop size (write_field f out) ≡ drop size out
  unfolding write_field
  drop-write_field size h =
      let back : f.at + length f.bytes + (size - length (take f.at out ++ f.bytes)) ≡ size =
        omega (arith, length-front) in
      ap (λ (t : Bytes). drop size t)
        (sym (append_assoc (take f.at out) f.bytes (drop (f.at + length f.bytes) out)))
      ∙ drop-append_ge size (take f.at out ++ f.bytes) (drop (f.at + length f.bytes) out)
          (omega (arith, length-front))
      ∙ drop-drop (size - length (take f.at out ++ f.bytes)) (f.at + length f.bytes) out
      ∙ ap (λ (n : ℕ). drop n out) back

  length-write_field : length (write_field f out) ≡ length out
  unfolding write_field
  length-write_field = omega (
    arith,
    length-append (take f.at out) (f.bytes ++ drop (f.at + length f.bytes) out),
    length-append f.bytes (drop (f.at + length f.bytes) out),
    length-take f.at out,
    length-drop (f.at + length f.bytes) out,
  )

-- What a buffer holds after packed fields were written into it.
pub write_fields-contents :
    (at : ℕ) (fs : List Field) (size : ℕ) (out : Bytes)
    → IsPacked at fs size
    → size ≤ length out
    → write_fields fs out ≡ take at out ++ (contents fs ++ drop size out)
unfolding write_fields
write_fields-contents at [] size out h room =
    sym (ap (λ (n : ℕ). take at out ++ drop n out) (sym h) ∙ take-append-drop at out)
write_fields-contents at (f ∷ fs) size out h room =
    let fits : f.at + length f.bytes ≤ length out =
      omega (arith, h.0, packed-le (at + length f.bytes) fs size h.1) in
    let same : f.at + length f.bytes ≡ at + length f.bytes = omega (arith, h.0) in
    let front : take (at + length f.bytes) (write_field f out) ≡ take at out ++ f.bytes =
      ap (λ (n : ℕ). take n (write_field f out)) (sym same)
      ∙ take-write_field f out fits
      ∙ ap (λ (n : ℕ). take n out ++ f.bytes) h.0 in
    write_fields-contents (at + length f.bytes) fs size (write_field f out) h.1
      (omega (arith, length-write_field f out fits))
    ∙ ap (λ (t : Bytes). t ++ (contents fs ++ drop size (write_field f out))) front
    ∙ ap (λ (t : Bytes). (take at out ++ f.bytes) ++ (contents fs ++ t))
        (drop-write_field f out fits size
          (omega (arith, h.0, packed-le (at + length f.bytes) fs size h.1)))
    ∙ append_assoc (take at out) f.bytes (contents fs ++ drop size out)
    ∙ ap (λ (t : Bytes). take at out ++ t)
        (sym (append_assoc f.bytes (contents fs) (drop size out)))
