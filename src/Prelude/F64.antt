-- ===== src/Prelude/F64.antt =====
-- `f64` as the number of its 64 bits: one sign bit, 11 of exponent, 52 of fraction.
use Prim.Native.Nat.{ℕ, ◌/◌, ◌%◌, ◌^◌}
use mathlib.Core.Bool.{Bool, false, not, ◌&&◌, ◌||◌}
use mathlib.Core.Option.{Option, none, some}
use oxyris.Prelude.Tests.{◌==◌}

abbrev pub F64 : Type 0
F64 = ℕ

-- `f64::is_finite`: an exponent of all ones marks the infinities and the NaNs.
unfoldable pub is_finite : F64 → Bool
is_finite x = not (x / 2 ^ 52 % 2048 == 2047)

is_nan : F64 → Bool
is_nan x = x / 2 ^ 52 % 2048 == 2047 && not (x % 2 ^ 52 == 0)

is_zero : F64 → Bool
is_zero x = x % 2 ^ 63 == 0

-- `==` on `f64`: a NaN equals nothing, and the two zeros are equal.
unfoldable pub eq_f64 : F64 → F64 → Bool
unfolding is_nan is_zero
eq_f64 x y = not (is_nan x) && not (is_nan y) && (x == y || (is_zero x && is_zero y))

-- `current == Some(x)` on `Option<f64>`
unfoldable pub eq_opt_f64 : Option F64 → F64 → Bool
eq_opt_f64 none y = false
eq_opt_f64 (some x) y = eq_f64 x y
