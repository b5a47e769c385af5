-- ===== src/Supervisor/Escape/Paths.antt =====
-- Relative paths as texts, and what the loop of `escapes_worktree` cuts them into.
use oxyris.Prelude.{
  ℕ, ◌≡◌, ◌∙◌, ◌⊎◌, inl, inr, ap, sym, refl, arith, Text, true, false, not, List, [], ◌∷◌, ◌++◌,
  map, map-append, append_assoc, append-nil, eq_text, is_empty, lacks, ◌==◌, codes, &&-right,
  Bool-cases,
}
use oxyris.Supervisor.Escape.{
  norm, is_absolute, is_alphabetic, split_from, split, Segment, stay, up, down, segment_of,
}

-- How a step of a path is written.
pub step_text : Segment → Text
step_text stay = codes "."
step_text up = codes ".."
step_text (down name) = name

-- The steps with a separator between two of them
pub path_text : ℕ → Segment → List Segment → Text
path_text sep s [] = step_text s
path_text sep s (t ∷ ts) = step_text s ++ sep ∷ path_text sep t ts

-- A name of a file: not empty, no dot or two dots, and no separator or colon in it.
pub record IsName (name : Text) : Type 0 where
  pub filled : is_empty name ≡ false
  pub no_dot : eq_text name (codes ".") ≡ false
  pub no_dots : eq_text name (codes "..") ≡ false
  pub no_slash : lacks b'/' name ≡ true
  pub no_backslash : lacks b'\\' name ≡ true
  pub no_colon : lacks b':' name ≡ true

unfoldable pub AreNames : List Segment → Type 0
AreNames [] = Unit
AreNames (down name ∷ ss) = IsName name × AreNames ss
AreNames (_ ∷ ss) = AreNames ss

norm-lacks : (s : Text) → lacks b'\\' s ≡ true → norm s ≡ s
unfolding lacks norm
norm-lacks [] h = refl
norm-lacks (c ∷ s) h = ground (arith, norm-lacks s)

norm-append : (s t : Text) → norm (s ++ t) ≡ norm s ++ norm t
unfolding norm
norm-append s t = map-append _ s t

-- What the text of a step is, and that the loop takes it for the step.
record IsWritten (t : Text) (s : Segment) : Type 0 where
  filled : is_empty t ≡ false
  slashless : lacks b'/' t ≡ true
  no_backslashes : lacks b'\\' t ≡ true
  colonless : lacks b':' t ≡ true
  means : segment_of t ≡ s

segment_of-name :
    (t : Text)
    → is_empty t ≡ false
    → eq_text t (codes ".") ≡ false
    → eq_text t (codes "..") ≡ false
    → segment_of t ≡ down t
unfolding segment_of eq_text
segment_of-name [] h k l = absurd (cc h)
segment_of-name (c ∷ []) h k l = ground (arith, k)
segment_of-name (c ∷ d ∷ []) h k l = ground (arith, l)
segment_of-name (c ∷ d ∷ e ∷ t) h k l = refl

step-IsWritten : (s : Segment) → AreNames (s ∷ []) → IsWritten (step_text s) s
unfolding step_text lacks segment_of AreNames
step-IsWritten stay h = record {
  filled = refl;
  slashless = refl;
  no_backslashes = refl;
  colonless = refl;
  means = refl;
}
step-IsWritten up h = record {
  filled = refl;
  slashless = refl;
  no_backslashes = refl;
  colonless = refl;
  means = refl;
}
step-IsWritten (down name) (h, _) = record {
  filled = h.filled;
  slashless = h.no_slash;
  no_backslashes = h.no_backslash;
  colonless = h.no_colon;
  means = segment_of-name name h.filled h.no_dot h.no_dots;
}

AreNames-uncons :
    (s : Segment) (ss : List Segment) → AreNames (s ∷ ss) → AreNames (s ∷ []) × AreNames ss
unfolding AreNames
AreNames-uncons stay ss h = (tt, h)
AreNames-uncons up ss h = (tt, h)
AreNames-uncons (down name) ss (h, k) = ((h, tt), k)

norm-sep : (sep : ℕ) (r : Text) → (sep ≡ b'/') ⊎ (sep ≡ b'\\') → norm (sep ∷ r) ≡ b'/' ∷ norm r
unfolding norm
norm-sep sep r (inl e) = rw e refl
norm-sep sep r (inr e) = rw e refl

-- The source reads a backslash as a slash.
pub norm-path_text :
    (sep : ℕ) (s : Segment) (ss : List Segment)
    → (sep ≡ b'/') ⊎ (sep ≡ b'\\')
    → AreNames (s ∷ ss)
    → norm (path_text sep s ss) ≡ path_text b'/' s ss
unfolding path_text
norm-path_text sep s [] is_sep names =
    norm-lacks (step_text s) (step-IsWritten s names).no_backslashes
norm-path_text sep s (t ∷ ts) is_sep names =
    let (one, rest) = AreNames-uncons s (t ∷ ts) names in
    norm-append (step_text s) (sep ∷ path_text sep t ts)
    ∙ ap (λ n. n ++ norm (sep ∷ path_text sep t ts))
        (norm-lacks (step_text s) (step-IsWritten s one).no_backslashes)
    ∙ ap (λ n. step_text s ++ n)
        (norm-sep sep (path_text sep t ts) is_sep
          ∙ ap (λ (n : Text). b'/' ∷ n) (norm-path_text sep t ts is_sep rest))

split_from-last : (cur a : Text) → lacks b'/' a ≡ true → split_from cur a ≡ (cur ++ a) ∷ []
unfolding split_from lacks
split_from-last cur [] h = ap (λ (t : Text). t ∷ []) (sym (append-nil cur))
split_from-last cur (c ∷ a) h =
    let rest =
      split_from-last (cur ++ c ∷ []) a (&&-right (not (c == b'/')) _ h)
      ∙ ap (λ (t : Text). t ∷ []) (append_assoc cur (c ∷ []) a) in
    elim (Bool-cases (c == b'/')) [
      | inl e ↦ absurd (cc (rw e at h))
      | inr e ↦ rw (split_from, e) rest
    ]

split_from-step :
    (cur a r : Text)
    → lacks b'/' a ≡ true
    → split_from cur (a ++ b'/' ∷ r) ≡ (cur ++ a) ∷ split_from [] r
unfolding split_from lacks
split_from-step cur [] r h = ap (λ (t : Text). t ∷ split_from [] r) (sym (append-nil cur))
split_from-step cur (c ∷ a) r h =
    let rest =
      split_from-step (cur ++ c ∷ []) a r (&&-right (not (c == b'/')) _ h)
      ∙ ap (λ (t : Text). t ∷ split_from [] r) (append_assoc cur (c ∷ []) a) in
    elim (Bool-cases (c == b'/')) [
      | inl e ↦ absurd (cc (rw e at h))
      | inr e ↦ rw (split_from, e) rest
    ]

-- The loop sees the steps that the path was written from.
pub split-path_text :
    (s : Segment) (ss : List Segment)
    → AreNames (s ∷ ss)
    → map segment_of (split (path_text b'/' s ss)) ≡ s ∷ ss
unfolding split path_text
split-path_text s [] names =
    let w = step-IsWritten s names in
    ap (map segment_of) (split_from-last [] (step_text s) w.slashless) ∙ ap (λ t. t ∷ []) w.means
split-path_text s (t ∷ ts) names =
    let (one, rest) = AreNames-uncons s (t ∷ ts) names in
    let w = step-IsWritten s one in
    ap (map segment_of) (split_from-step [] (step_text s) (path_text b'/' t ts) w.slashless)
    ∙ ap (λ u. segment_of (step_text s) ∷ u) (split-path_text t ts rest)
    ∙ ap (λ u. u ∷ t ∷ ts) w.means

relative :
    (a r : Text)
    → is_empty a ≡ false
    → lacks b'/' a ≡ true
    → lacks b':' a ≡ true
    → (is_absolute a ≡ false) × (is_absolute (a ++ b'/' ∷ r) ≡ false)
unfolding is_absolute lacks is_alphabetic
relative [] r h k l = absurd (cc h)
relative (c ∷ []) r h k l = ground arith
relative (c ∷ d ∷ a) r h k l = ground arith

pub path_text-relative :
    (s : Segment) (ss : List Segment)
    → AreNames (s ∷ ss)
    → is_absolute (path_text b'/' s ss) ≡ false
unfolding path_text
path_text-relative s [] names =
    let w = step-IsWritten s names in (relative (step_text s) [] w.filled w.slashless w.colonless).0
path_text-relative s (t ∷ ts) names =
    let w = step-IsWritten s (AreNames-uncons s (t ∷ ts) names).0 in
    (relative (step_text s) (path_text b'/' t ts) w.filled w.slashless w.colonless).1
