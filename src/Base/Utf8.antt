-- ===== src/Base/Utf8.antt =====
-- `core::str::from_utf8`: the test for well-formed UTF-8 (Unicode, table 3-7).
use plugmem.Base.Tests.{leb, ltb, ◌==◌, if◌then◌else◌}
use plugmem.Base.Bytes.{Bytes}
use Prim.Native.Nat.{ℕ}
use mathlib.Core.Bool.{Bool, true, false, ◌&&◌}
use mathlib.Core.List.{List, [], ◌∷◌}
use mathlib.Core.Option.{Option, none, some}

-- The ranges of the bytes that must follow a lead byte; `none` for a byte that cannot lead.
utf8_lead : ℕ → Option (List (ℕ × ℕ))
utf8_lead b =
    let cont : ℕ × ℕ = (0x80, 0xbf) in
    if ltb b 0x80
    then some []
    else if ltb b 0xc2
    then none
    else if ltb b 0xe0
    then some (cont ∷ [])
    else if b == 0xe0
    then some ((0xa0, 0xbf) ∷ cont ∷ [])
    else if b == 0xed
    then some ((0x80, 0x9f) ∷ cont ∷ [])
    else if ltb b 0xf0
    then some (cont ∷ cont ∷ [])
    else if b == 0xf0
    then some ((0x90, 0xbf) ∷ cont ∷ cont ∷ [])
    else if ltb b 0xf4
    then some (cont ∷ cont ∷ cont ∷ [])
    else if b == 0xf4
    then some ((0x80, 0x8f) ∷ cont ∷ cont ∷ [])
    else none

utf8_from : List (ℕ × ℕ) → Bytes → Bool
utf8_from [] [] = true
utf8_from ((lo, hi) ∷ ps) [] = false
utf8_from [] (b ∷ bs) = elim (utf8_lead b) [ none ↦ false | some ps ↦ utf8_from ps bs ]
utf8_from ((lo, hi) ∷ ps) (b ∷ bs) = leb lo b && leb b hi && utf8_from ps bs

unfoldable pub is_utf8 : Bytes → Bool
unfolding utf8_lead utf8_from
is_utf8 bs = utf8_from [] bs
