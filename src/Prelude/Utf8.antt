-- ===== src/Prelude/Utf8.antt =====
-- The bytes of a text in UTF-8.
use Prim.Native.Nat.{ℕ, zero, suc, ◌+◌, ◌-◌, ◌/◌, ◌%◌}
use mathlib.Core.Option.{Option, none, some}
use mathlib.Core.List.{List, [], ◌∷◌}
use oxyris.Prelude.Tests.{ltb, if◌then◌else◌}
use oxyris.Prelude.Lists.{length}
use oxyris.Prelude.Strings.{Text}

-- The bytes of a character in UTF-8.
unfoldable pub utf8 : ℕ → List ℕ
utf8 c =
    if ltb c 0x80
    then c ∷ []
    else if ltb c 0x800
    then (0xc0 + c / 64) ∷ (0x80 + c % 64) ∷ []
    else if ltb c 0x10000
    then (0xe0 + c / 4096) ∷ (0x80 + c / 64 % 64) ∷ (0x80 + c % 64) ∷ []
    else (0xf0 + c / 262144) ∷ (0x80 + c / 4096 % 64) ∷ (0x80 + c / 64 % 64) ∷ (0x80 + c % 64) ∷ []

-- `str::len`
unfoldable pub byte_length : Text → ℕ
unfolding utf8
byte_length [] = 0
byte_length (c ∷ s) = length (utf8 c) + byte_length s

-- `&s[n..]`, which panics in the middle of a character and beyond the end
unfoldable pub slice_from : ℕ → Text → Option Text
unfolding utf8
slice_from zero s = some s
slice_from (suc n) [] = none
slice_from (suc n) (c ∷ s) =
    let rest = slice_from (suc n - length (utf8 c)) s in
    if ltb (suc n) (length (utf8 c)) then none else rest
