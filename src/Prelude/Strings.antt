-- ===== src/Prelude/Strings.antt =====
-- A string as the list of its code points, with the operations of `str` that the source calls.
use Prim.Native.Char.{code}
use Prim.Native.Nat.{ℕ, ◌+◌}
use Prim.Native.String.{String}
use mathlib.Core.Path.{◌≡◌, refl, ap, ◌∙◌}
use mathlib.Core.Logic.{inl, inr}
use mathlib.Core.Bool.{Bool, true, false, not, ◌&&◌, ◌||◌}
use mathlib.Core.Option.{Option, none, some}
use mathlib.Core.List.{List, [], ◌∷◌}
use native.Mathlib.Omega.{arith}
use oxyris.Prelude.Tests.{leb, ◌==◌, if◌then◌else◌, Bool-cases}
use oxyris.Prelude.Lists.{is_empty}

abbrev pub Text : Type 0
Text = List ℕ

abbrev pub codes : String → Text
codes String.[] = []
codes (String.◌∷◌ c s) = code c ∷ codes s

-- `char::to_ascii_lowercase`
abbrev pub to_ascii_lowercase : ℕ → ℕ
to_ascii_lowercase c = if leb b'A' c && leb c b'Z' then c + 32 else c

-- `str::eq`
unfoldable pub eq_text : Text → Text → Bool
eq_text [] [] = true
eq_text (a ∷ s) (b ∷ t) = a == b && eq_text s t
eq_text _ _ = false

pub eq_text→eq : (s t : Text) → eq_text s t ≡ true → s ≡ t
unfolding eq_text
eq_text→eq [] [] h = refl
eq_text→eq [] (b ∷ t) h = cc
eq_text→eq (a ∷ s) [] h = cc
eq_text→eq (a ∷ s) (b ∷ t) h = ground (arith, eq_text→eq s t)

pub eq_text_refl : (s : Text) → eq_text s s ≡ true
unfolding eq_text
eq_text_refl [] = refl
eq_text_refl (a ∷ s) = ground (arith, eq_text_refl s)

-- `==` on `Option<String>`
unfoldable pub eq_opt_text : Option Text → Option Text → Bool
eq_opt_text none none = true
eq_opt_text (some s) (some t) = eq_text s t
eq_opt_text _ _ = false

pub eq_opt_text→eq : (s t : Option Text) → eq_opt_text s t ≡ true → s ≡ t
unfolding eq_opt_text
eq_opt_text→eq none none h = refl
eq_opt_text→eq none (some t) h = cc
eq_opt_text→eq (some s) none h = cc
eq_opt_text→eq (some s) (some t) h = ap some (eq_text→eq s t h)

pub eq_opt_text_refl : (s : Option Text) → eq_opt_text s s ≡ true
unfolding eq_opt_text
eq_opt_text_refl none = refl
eq_opt_text_refl (some s) = eq_text_refl s

-- `char::is_whitespace`: the code points with the Unicode property White_Space.
unfoldable pub is_whitespace : ℕ → Bool
is_whitespace c =
    (leb 9 c && leb c 13)
    || c == 0x20
    || c == 0x85
    || c == 0xa0
    || c == 0x1680
    || (leb 0x2000 c && leb c 0x200a)
    || c == 0x2028
    || c == 0x2029
    || c == 0x202f
    || c == 0x205f
    || c == 0x3000

-- `str::trim_start`
unfoldable pub trim_start : Text → Text
trim_start [] = []
trim_start (c ∷ s) = if is_whitespace c then trim_start s else c ∷ s

-- `str::trim_end`
unfoldable pub trim_end : Text → Text
trim_end [] = []
trim_end (c ∷ s) =
    let rest = trim_end s in if is_empty rest && is_whitespace c then [] else c ∷ rest

-- `str::trim`
unfoldable pub trim : Text → Text
unfolding trim_start trim_end is_whitespace
trim s = trim_end (trim_start s)

pub trim_end_idem : (s : Text) → trim_end (trim_end s) ≡ trim_end s
unfolding trim_end
trim_end_idem [] = refl
trim_end_idem (c ∷ s) = elim (Bool-cases (is_empty (trim_end s) && is_whitespace c)) [
  | inl h ↦ rw h
  | inr h ↦ rw (h, trim_end_idem s) (rw h)
]

trim_start-trim_end : (s : Text) → trim_start (trim_end (trim_start s)) ≡ trim_end (trim_start s)
unfolding trim_start
trim_start-trim_end [] = unfold trim_end in refl
trim_start-trim_end (c ∷ s) = elim (Bool-cases (is_whitespace c)) [
  | inl h ↦ rw h (trim_start-trim_end s)
  | inr h ↦ rw h (unfold trim_end in ground arith)
]

-- A trimmed text has nothing left to trim.
pub trim-trim : (s : Text) → trim (trim s) ≡ trim s
unfolding trim
trim-trim s = ap trim_end (trim_start-trim_end s) ∙ trim_end_idem (trim_start s)

-- The text does not start with white space.
abbrev pub starts_clean : Text → Bool
starts_clean [] = true
starts_clean (c ∷ s) = not (is_whitespace c)

pub starts_clean-trim_start : (s : Text) → starts_clean (trim_start s) ≡ true
unfolding trim_start
starts_clean-trim_start [] = refl
starts_clean-trim_start (c ∷ s) = ground (arith, starts_clean-trim_start s)

pub starts_clean-trim_end : (s : Text) → starts_clean s ≡ true → starts_clean (trim_end s) ≡ true
unfolding trim_end
starts_clean-trim_end [] h = refl
starts_clean-trim_end (c ∷ s) h = ground arith

pub trim_start-starts_clean : (s : Text) → starts_clean s ≡ true → trim_start s ≡ s
unfolding trim_start
trim_start-starts_clean [] h = refl
trim_start-starts_clean (c ∷ s) h = ground arith
