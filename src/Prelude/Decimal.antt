-- ===== src/Prelude/Decimal.antt =====
-- Numbers in decimal: what `Display` prints, and what `parse::<usize>` reads, on 64 bits.
use Prim.Native.Nat.{ℕ, zero, suc, ◌+◌, ◌-◌, ◌*◌, ◌/◌, ◌%◌, ◌^◌, ◌≤◌, ◌<◌}
use mathlib.Core.Path.{◌≡◌, refl, ap, ◌∙◌}
use mathlib.Core.Logic.{inl, inr}
use mathlib.Core.Bool.{Bool, true, false, ◌&&◌}
use mathlib.Core.Option.{Option, none, some}
use mathlib.Core.List.{[], ◌∷◌}
use native.Mathlib.Omega.{arith}
use oxyris.Prelude.Tests.{◌==◌, ltb, leb, if◌then◌else◌, Bool-cases}
use oxyris.Prelude.Lists.{all}
use oxyris.Prelude.Strings.{Text}

-- The digits of `n` in front of `out`; `n` rounds are enough.
digits_from : ℕ → ℕ → Text → Text
digits_from zero n out = out
digits_from (suc fuel) n out =
    let more = digits_from fuel (n / 10) ((b'0' + n % 10) ∷ out) in if n == 0 then out else more

unfoldable pub to_decimal : ℕ → Text
unfolding digits_from
to_decimal n = if n == 0 then b'0' ∷ [] else digits_from n n []

abbrev pub is_digit : ℕ → Bool
is_digit c = leb b'0' c && leb c b'9'

-- An overflow is an error.
scan : Text → ℕ → Option ℕ
scan [] n = some n
scan (c ∷ s) n =
    let m = n * 10 + (c - b'0') in
    let rest = scan s m in if is_digit c && ltb m (2 ^ 64) then rest else none

unfoldable pub parse_usize : Text → Option ℕ
unfolding scan
parse_usize [] = none
parse_usize (c ∷ []) = scan (c ∷ []) 0
parse_usize (c ∷ d ∷ s) = if c == b'+' then scan (d ∷ s) 0 else scan (c ∷ d ∷ s) 0

abbrev starts_digit : Text → Bool
starts_digit [] = false
starts_digit (c ∷ s) = is_digit c

digits_from-starts_digit :
    (fuel n : ℕ) (out : Text)
    → starts_digit out ≡ true
    → starts_digit (digits_from fuel n out) ≡ true
unfolding digits_from
digits_from-starts_digit zero n out h = h
digits_from-starts_digit (suc fuel) n out h =
    ground (arith, digits_from-starts_digit fuel (n / 10) ((b'0' + n % 10) ∷ out))

scan-digits_from :
    (fuel n : ℕ) (out : Text) → n ≤ fuel → n < 2 ^ 64 → scan (digits_from fuel n out) 0 ≡ scan out n
unfolding digits_from scan
scan-digits_from zero n out h k = rw (zero_of n h) refl
  where
    zero_of : (n : ℕ) → n ≤ 0 → n ≡ 0
    zero_of n h = omega arith
scan-digits_from (suc fuel) n out h k = elim (Bool-cases (n == 0)) [
  | inl e ↦ ground (arith, e)
  | inr e ↦ rw e (
      scan-digits_from fuel (n / 10) ((b'0' + n % 10) ∷ out) (ground arith) (omega arith)
      ∙ ground arith)
]

parse_usize-starts_digit : (s : Text) → starts_digit s ≡ true → parse_usize s ≡ scan s 0
unfolding parse_usize
parse_usize-starts_digit [] h = cc
parse_usize-starts_digit (c ∷ []) h = refl
parse_usize-starts_digit (c ∷ d ∷ s) h = ground arith

-- A number of 64 bits reads back from its digits.
pub parse_usize-to_decimal : (n : ℕ) → n < 2 ^ 64 → parse_usize (to_decimal n) ≡ some n
unfolding to_decimal digits_from
parse_usize-to_decimal zero k = unfold parse_usize scan in refl
parse_usize-to_decimal (suc m) k =
    let n = suc m in
    let filled : digits_from n n [] ≡ digits_from m (n / 10) ((b'0' + n % 10) ∷ []) =
      ground arith in
    let digit = digits_from-starts_digit m (n / 10) ((b'0' + n % 10) ∷ []) (ground arith) in
    let printed : to_decimal n ≡ digits_from n n [] = ground arith in
    ap parse_usize printed
    ∙ parse_usize-starts_digit (digits_from n n []) (rw filled digit)
    ∙ scan-digits_from n n [] (omega arith) k
    ∙ unfold scan in refl

digits_from-all :
    (fuel n : ℕ) (out : Text)
    → all is_digit out ≡ true
    → all is_digit (digits_from fuel n out) ≡ true
unfolding digits_from all
digits_from-all zero n out h = h
digits_from-all (suc fuel) n out h =
    ground (arith, digits_from-all fuel (n / 10) ((b'0' + n % 10) ∷ out))

-- Only digits are printed.
pub to_decimal-all : (n : ℕ) → all is_digit (to_decimal n) ≡ true
unfolding to_decimal all
to_decimal-all n = ground (arith, digits_from-all n n [])
