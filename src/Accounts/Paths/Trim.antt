-- ===== src/Accounts/Paths/Trim.antt =====
-- What `trim_slashes` of a home leaves, and texts that differ in how they end.
use oxyris.Prelude.{
  ℕ, zero, suc, ◌≤◌, ◌<◌, ==→eq, ◌≡◌, ap, refl, arith, Text, false, [], ◌∷◌, ◌++◌, length,
  length-append, eq_text, ends_with, Bool-cases, inl, inr, ◌==◌, is_empty, lacks, &&-right, not,
  true,
}
use oxyris.Accounts.Paths.{trim_slashes}

pub eq_text-append : (s a b : Text) → eq_text (s ++ a) (s ++ b) ≡ eq_text a b
unfolding eq_text
eq_text-append [] a b = refl
eq_text-append (c ∷ s) a b = ground (arith, eq_text-append s a b)

-- A text that is longer than the pattern, and does not end in it at that length
eq_text-longer : (s p : Text) → length p < length s → eq_text s p ≡ false
unfolding eq_text
eq_text-longer [] p h = absurd (omega arith)
eq_text-longer (c ∷ s) [] h = refl
eq_text-longer (c ∷ s) (d ∷ p) h = ground (arith, eq_text-longer s p)

pub ends_with-longer :
    (s t p : Text) → length p ≤ length t → ends_with t p ≡ false → ends_with (s ++ t) p ≡ false
unfolding ends_with
ends_with-longer [] t p h k = k
ends_with-longer (c ∷ s) t p h k =
    ground (arith, ends_with-longer s t p, eq_text-longer (c ∷ (s ++ t)) p, length-append {0} s t)

pub slashes : ℕ → Text
slashes zero = []
slashes (suc n) = b'/' ∷ slashes n

cons_trimmed :
    (c : ℕ) (s t : Text) (n : ℕ)
    → trim_slashes s ≡ t
    → s ≡ t ++ slashes n
    → (k : ℕ) × (c ∷ s ≡ trim_slashes (c ∷ s) ++ slashes k)
unfolding trim_slashes slashes
cons_trimmed c s [] n h e = elim (Bool-cases (c == b'/')) [
  | inl slash ↦
      (suc n, rw (trim_slashes, slash, h) (rw (← ==→eq c b'/' slash) (ap (λ (r : Text). c ∷ r) e)))
  | inr other ↦ (n, rw (trim_slashes, other, h) (ap (λ (r : Text). c ∷ r) e))
]
cons_trimmed c s (d ∷ t) n h e = elim (Bool-cases (c == b'/')) [
  | inl slash ↦ (n, rw (trim_slashes, slash, h) (ap (λ (r : Text). c ∷ r) e))
  | inr other ↦ (n, rw (trim_slashes, other, h) (ap (λ (r : Text). c ∷ r) e))
]

-- Only slashes are trimmed.
pub trailing : (s : Text) → (n : ℕ) × (s ≡ trim_slashes s ++ slashes n)
unfolding trim_slashes slashes
trailing [] = (0, refl)
trailing (c ∷ s) = let (n, e) = trailing s in cons_trimmed c s (trim_slashes s) n refl e

keep_cons :
    (d : ℕ) (s u : Text) → trim_slashes s ≡ u → is_empty u ≡ false → trim_slashes (d ∷ s) ≡ d ∷ u
unfolding trim_slashes
keep_cons d s [] h k = absurd (cc k)
keep_cons d s (e ∷ r) h k = elim (Bool-cases (d == b'/')) [
  | inl slash ↦ rw (trim_slashes, slash, h) refl
  | inr other ↦ rw (trim_slashes, other, h) refl
]

is_empty-append : (s t : Text) (c : ℕ) → is_empty (s ++ c ∷ t) ≡ false
is_empty-append [] t c = refl
is_empty-append (d ∷ s) t c = refl

-- A slash that another character follows is kept.
pub trim_slashes-append :
    (s t : Text) (c : ℕ) → (c == b'/') ≡ false → trim_slashes (s ++ c ∷ t) ≡ s ++ c ∷ trim_slashes t
unfolding trim_slashes
trim_slashes-append [] t c h = rw (trim_slashes, h) refl
trim_slashes-append (d ∷ s) t c h =
    keep_cons d (s ++ c ∷ t) (s ++ c ∷ trim_slashes t) (trim_slashes-append s t c h)
      (is_empty-append s (trim_slashes t) c)

-- A path's last name stays, with the slash before it.
trim_slashes-lacks : (s : Text) → lacks b'/' s ≡ true → trim_slashes s ≡ s
unfolding lacks trim_slashes
trim_slashes-lacks [] h = refl
trim_slashes-lacks (c ∷ []) h = ground arith
trim_slashes-lacks (c ∷ d ∷ s) h =
    keep_cons c (d ∷ s) (d ∷ s) (trim_slashes-lacks (d ∷ s) (&&-right (not (c == b'/')) _ h)) refl

pub trim_slashes-name :
    (s : Text) → lacks b'/' s ≡ true → is_empty s ≡ false → trim_slashes (b'/' ∷ s) ≡ b'/' ∷ s
trim_slashes-name s h n = keep_cons b'/' s s (trim_slashes-lacks s h) n

-- Below two names there is no common path.
pub eq_text-names :
    (a b x y : Text)
    → lacks b'/' a ≡ true
    → lacks b'/' b ≡ true
    → eq_text a b ≡ false
    → eq_text (a ++ b'/' ∷ x) (b ++ b'/' ∷ y) ≡ false
unfolding lacks eq_text
eq_text-names [] [] x y h k ne = absurd (cc ne)
eq_text-names [] (d ∷ b) x y h k ne = ground arith
eq_text-names (c ∷ a) [] x y h k ne = ground arith
eq_text-names (c ∷ a) (d ∷ b) x y h k ne = ground (arith, eq_text-names a b x y)

-- A file below the home and the config, whose directory is the home without slashes at its end
pub after_slashes :
    (n : ℕ) (x y : Text)
    → eq_text (b'/' ∷ x) (b'/' ∷ b'.' ∷ y) ≡ false
    → eq_text (slashes n ++ b'/' ∷ x) (b'/' ∷ b'.' ∷ y) ≡ false
unfolding slashes eq_text
after_slashes zero x y h = h
after_slashes (suc zero) x y h = refl
after_slashes (suc (suc n)) x y h = refl
