-- ===== src/Chunks/Handles.antt =====
-- The wire form of list handles.
use plugmem.Base.{◌≡◌, refl, sym, ap, ◌∙◌, arith, ◌++◌, [], length, take, drop}
use plugmem.Base.{take_front, drop_front, append_assoc, append-nil, length-append}
use plugmem.Base.Bytes.{Bytes, IsU32, to_be}
use plugmem.Key.RoundTrip.{length-to_be, from_be-to_be}
use plugmem.Chunks.{ListHandle, to_bytes, from_bytes}

pub record IsHandle (h : ListHandle) : Type 0 where
  pub head : IsU32 h.head
  pub tail : IsU32 h.tail
  pub len : IsU32 h.len

module _ (a b c : Bytes) (ha : length a ≡ 4) (hb : length b ≡ 4) (hc : length c ≡ 4) where
  third : drop 8 (a ++ (b ++ c)) ≡ c
  third =
      ap (λ (t : Bytes). drop 8 t) (sym (append_assoc a b c))
      ∙ drop_front 8 (a ++ b) c (omega (arith, length-append a b))

  second : take 4 (drop 4 (a ++ (b ++ c))) ≡ b
  second = rw (drop_front 4 a (b ++ c) ha) (take_front 4 b c hb)

  all_of : take 4 c ≡ c
  all_of = ap (λ (t : Bytes). take 4 t) (sym (append-nil c)) ∙ take_front 4 c [] hc

-- For a handle whose fields are u32: its twelve bytes give it back.
pub from_bytes-to_bytes :
    (h : ListHandle) → IsHandle h → (from_bytes (to_bytes h) ≡ h) × (length (to_bytes h) ≡ 12)
unfolding from_bytes to_bytes
from_bytes-to_bytes h w =
    let a : Bytes = to_be 4 h.head in
    let b : Bytes = to_be 4 h.tail in
    let c : Bytes = to_be 4 h.len in
    (
      rw
          (
            take_front 4 (to_be 4 h.head) (to_be 4 h.tail ++ to_be 4 h.len) (length-to_be 4 h.head),
            second (to_be 4 h.head) (to_be 4 h.tail) (to_be 4 h.len) (length-to_be 4 h.head)
                (length-to_be 4 h.tail) (length-to_be 4 h.len),
            third (to_be 4 h.head) (to_be 4 h.tail) (to_be 4 h.len) (length-to_be 4 h.head)
                (length-to_be 4 h.tail) (length-to_be 4 h.len),
            all_of (to_be 4 h.head) (to_be 4 h.tail) (to_be 4 h.len) (length-to_be 4 h.head)
                (length-to_be 4 h.tail) (length-to_be 4 h.len),
            from_be-to_be 4 h.head w.head,
            from_be-to_be 4 h.tail w.tail,
            from_be-to_be 4 h.len w.len,
          )
          refl,
      omega (
        arith,
        length-append a (b ++ c),
        length-append b c,
        length-to_be 4 h.head,
        length-to_be 4 h.tail,
        length-to_be 4 h.len,
      ),
    )
