-- ===== src/Prelude/Int.antt =====
-- Signed integers over the native numbers, and the saturating arithmetic of `i64`.
use Prim.Native.Nat.{ℕ, zero, suc, ◌+◌, ◌-◌, ◌*◌, ◌/◌, ◌%◌, ◌^◌}
use mathlib.Core.Bool.{Bool, true, false, not, ◌&&◌, ◌||◌}
use mathlib.Core.Option.{Option, none, some}
use mathlib.Core.List.{[], ◌∷◌}
use oxyris.Prelude.Tests.{leb, ltb, ◌==◌, if◌then◌else◌}
use oxyris.Prelude.Lists.{is_empty}
use oxyris.Prelude.Strings.{Text}
use oxyris.Prelude.Decimal.{is_digit}

-- `negsuc n` is -(n + 1).
pub data ℤ : Type 0 where
  pos : ℕ → ℤ
  negsuc : ℕ → ℤ

unfoldable pub lebℤ : ℤ → ℤ → Bool
lebℤ (pos a) (pos b) = leb a b
lebℤ (pos a) (negsuc b) = false
lebℤ (negsuc a) (pos b) = true
lebℤ (negsuc a) (negsuc b) = leb b a

-- The value that `i64` saturates to.
unfoldable pub saturate : ℤ → ℤ
saturate (pos n) = if ltb n (2 ^ 63) then pos n else pos (2 ^ 63 - 1)
saturate (negsuc n) = if ltb n (2 ^ 63) then negsuc n else negsuc (2 ^ 63 - 1)

-- a - b
sub_ℕ : ℕ → ℕ → ℤ
sub_ℕ a b = if leb b a then pos (a - b) else negsuc (b - a - 1)

unfoldable pub ◌+ℤ◌ : ℤ → ℤ → ℤ
unfolding sub_ℕ

infixl 65 ◌+ℤ◌
pos a +ℤ pos b = pos (a + b)
pos a +ℤ negsuc b = sub_ℕ a (b + 1)
negsuc a +ℤ pos b = sub_ℕ b (a + 1)
negsuc a +ℤ negsuc b = negsuc (a + b + 1)

-- `i64::saturating_add`
unfoldable pub saturating_add : ℤ → ℤ → ℤ
unfolding saturate ◌+ℤ◌
saturating_add a b = saturate (a +ℤ b)

-- The digits of a number of at most `bound`.
scan_digits : Text → ℕ → ℕ → Option ℕ
scan_digits [] bound n = some n
scan_digits (c ∷ s) bound n =
    let m = n * 10 + (c - b'0') in
    let rest = scan_digits s bound m in if is_digit c && leb m bound then rest else none

unsigned : Text → ℕ → Option ℕ
unfolding scan_digits
unsigned s bound = if is_empty s then none else scan_digits s bound 0

-- `parse::<i64>`: a sign or none, then digits; an overflow is an error.
unfoldable pub parse_i64 : Text → Option ℤ
unfolding unsigned
parse_i64 [] = none
parse_i64 (c ∷ s) =
    if c == b'-'
    then elim (unsigned s (2 ^ 63)) [
      | none ↦ none
      | some zero ↦ some (pos zero)
      | some (suc n) ↦ some (negsuc n)
    ]
    else elim (unsigned (if c == b'+' then s else c ∷ s) (2 ^ 63 - 1)) [
      | none ↦ none
      | some n ↦ some (pos n)
    ]

-- `x as i64` of the bits of an `f64`: towards zero, saturating, and 0 for a NaN.
unfoldable pub f64_to_i64 : ℕ → ℤ
unfolding saturate
f64_to_i64 x =
    let exponent = x / 2 ^ 52 % 2048 in
    let fraction = x % 2 ^ 52 in
    let mantissa = fraction + 2 ^ 52 in
    let size =
      if leb 1075 exponent
      then mantissa * 2 ^ (exponent - 1075)
      else mantissa / 2 ^ (1075 - exponent) in
    if exponent == 2047 && not (fraction == 0)
    then pos 0
    else if exponent == 0 || size == 0
    then pos 0
    else if leb (2 ^ 63) x
    then saturate (negsuc (size - 1))
    else saturate (pos size)
