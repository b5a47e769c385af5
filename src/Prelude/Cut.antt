-- ===== src/Prelude/Cut.antt =====
-- Texts cut into parts: the operations of `str` that look for a prefix, a character or a line end.
use Prim.Native.Nat.{ℕ, zero, suc}
use mathlib.Core.Path.{◌≡◌, refl}
use mathlib.Core.Bool.{Bool, true, false, not, ◌&&◌, ◌||◌}
use mathlib.Core.Option.{Option, none, some}
use mathlib.Core.List.{List, [], ◌∷◌, ◌++◌}
use native.Mathlib.Omega.{arith}
use oxyris.Prelude.Tests.{◌==◌, if◌then◌else◌}
use oxyris.Prelude.Lists.{is_empty}
use oxyris.Prelude.Strings.{Text, eq_text, eq_text_refl}

-- `chars().take(n)`
unfoldable pub take : ℕ → Text → Text
take zero s = []
take (suc n) [] = []
take (suc n) (c ∷ s) = c ∷ take n s

-- `str::starts_with`
unfoldable pub starts_with : Text → Text → Bool
starts_with s [] = true
starts_with [] (d ∷ p) = false
starts_with (c ∷ s) (d ∷ p) = c == d && starts_with s p

-- `str::ends_with`
unfoldable pub ends_with : Text → Text → Bool
ends_with [] p = is_empty p
ends_with (c ∷ s) p = let rest = ends_with s p in eq_text (c ∷ s) p || rest

-- `str::contains`
unfoldable pub contains : Text → Text → Bool
unfolding starts_with
contains [] pattern = is_empty pattern
contains (c ∷ s) pattern = let rest = contains s pattern in starts_with (c ∷ s) pattern || rest

-- `str::strip_prefix`
unfoldable pub strip_prefix : Text → Text → Option Text
strip_prefix s [] = some s
strip_prefix [] (d ∷ p) = none
strip_prefix (c ∷ s) (d ∷ p) = let rest = strip_prefix s p in if c == d then rest else none

-- The parts before and after the first character `d`, as `find` and two slices, or `split_once`
unfoldable pub split_once : Text → ℕ → Option (Text × Text)
split_once [] d = none
split_once (c ∷ s) d =
    let rest = split_once s d in
    if c == d
    then some ([], s)
    else elim rest [ none ↦ none | some (before, after) ↦ some (c ∷ before, after) ]

-- No character of the text is `d`.
unfoldable pub lacks : ℕ → Text → Bool
lacks d [] = true
lacks d (c ∷ s) = not (c == d) && lacks d s

abbrev pub starts_line : Text → Bool
starts_line [] = false
starts_line (c ∷ s) = c == 10

-- `str::lines`: cut after each line feed, which goes, and a carriage return before it
unfoldable pub lines : Text → List Text
lines [] = []
lines (c ∷ s) =
    let rest = lines s in
    if c == 10
    then [] ∷ rest
    else if c == 13 && starts_line s
    then rest
    else elim rest [ [] ↦ (c ∷ []) ∷ [] | line ∷ more ↦ (c ∷ line) ∷ more ]

pub split_once-append :
    (before after : Text) (d : ℕ)
    → lacks d before ≡ true
    → split_once (before ++ d ∷ after) d ≡ some (before, after)
unfolding split_once lacks
split_once-append [] after d h = ground arith
split_once-append (c ∷ before) after d h = ground (arith, split_once-append before after d)

pub strip_prefix-append : (p s : Text) → strip_prefix (p ++ s) p ≡ some s
unfolding strip_prefix
strip_prefix-append [] s = refl
strip_prefix-append (c ∷ p) s = ground (arith, strip_prefix-append p s)

-- A prefix that is not there cannot be stripped.
pub strip_prefix-eq-none : (s p : Text) → starts_with s p ≡ false → strip_prefix s p ≡ none
unfolding strip_prefix starts_with
strip_prefix-eq-none s [] h = cc
strip_prefix-eq-none [] (d ∷ p) h = refl
strip_prefix-eq-none (c ∷ s) (d ∷ p) h = ground (arith, strip_prefix-eq-none s p)

pub lacks-append : (d : ℕ) (s t : Text) → lacks d (s ++ t) ≡ (lacks d s && lacks d t)
unfolding lacks
lacks-append d [] t = refl
lacks-append d (c ∷ s) t = ground (arith, lacks-append d s t)

-- A line without a line end of its own, cut off by a line feed.
pub lines-append :
    (line rest : Text)
    → lacks 10 line ≡ true
    → lacks 13 line ≡ true
    → lines (line ++ 10 ∷ rest) ≡ line ∷ lines rest
unfolding lines lacks
lines-append [] rest h k = ground arith
lines-append (c ∷ line) rest h k = ground (arith, lines-append line rest)

pub ends_with-append : (s p : Text) → ends_with (s ++ p) p ≡ true
unfolding ends_with
ends_with-append [] [] = refl
ends_with-append [] (d ∷ p) = rw eq_text_refl refl
ends_with-append (c ∷ s) p = ground (arith, ends_with-append s p)
