-- ===== src/Supervisor/Escape/Resolve.antt =====
-- What `escapes_worktree` decides, against the resolution of a path segment by segment.
use oxyris.Prelude.{
  ℕ, suc, ◌+◌, ◌-◌, ◌^◌, ◌%◌, ◌<◌, ◌≡◌, ◌⊎◌, refl, Text, false, Option, none, some, is_none, List,
  [], ◌∷◌, ◌++◌, length, arith,
}
use oxyris.Supervisor.Escape.{Segment, stay, up, down, climbs_out, is_negative, escapes_worktree}
use oxyris.Supervisor.Escape.Paths.{
  path_text, AreNames, norm-path_text, split-path_text, path_text-relative,
}

-- The directory that a path leads to from the root of the worktree, innermost name first; none if
-- it steps above the root on the way.
pub resolve : List Text → List Segment → Option (List Text)
resolve dir [] = some dir
resolve dir (stay ∷ segs) = resolve dir segs
resolve [] (up ∷ segs) = none
resolve (name ∷ dir) (up ∷ segs) = resolve dir segs
resolve dir (down name ∷ segs) = resolve (name ∷ dir) segs

up_from : (n : ℕ) → n < 2 ^ 31 → (suc n + (2 ^ 32 - 1)) % 2 ^ 32 ≡ n
up_from n h = omega (arith, h)

-- As long as the depth fits in an `i32`.
climbs_out-resolve :
    (dir : List Text) (segs : List Segment)
    → length dir + length segs < 2 ^ 31
    → climbs_out (length dir) segs ≡ is_none (resolve dir segs)
unfolding climbs_out resolve
climbs_out-resolve dir [] small = refl
climbs_out-resolve dir (stay ∷ segs) small = climbs_out-resolve dir segs (omega (arith, small))
climbs_out-resolve [] (up ∷ segs) small = refl
climbs_out-resolve (name ∷ dir) (up ∷ segs) small =
    let fits : length dir < 2 ^ 31 = omega (arith, small) in
    let above : is_negative (length dir) ≡ false = ground (arith, fits) in
    rw (up_from (length dir) fits) (rw above (climbs_out-resolve dir segs (omega (arith, small))))
climbs_out-resolve dir (down name ∷ segs) small =
    let fits : (length dir + 1) % 2 ^ 32 ≡ length (name ∷ dir) = omega (arith, small) in
    rw fits (climbs_out-resolve (name ∷ dir) segs (omega (arith, small)))

-- A path that is written from less than 2^31 steps, each a dot, two dots or a name without a colon,
-- with slashes or with backslashes between them, escapes exactly when its resolution steps above
-- the worktree's root.
pub escapes_worktree-relative :
    (lower : Text → Text) (cwd : Text) (sep : ℕ) (s : Segment) (ss : List Segment)
    → (sep ≡ b'/') ⊎ (sep ≡ b'\\')
    → AreNames (s ∷ ss)
    → length (s ∷ ss) < 2 ^ 31
    → escapes_worktree lower (path_text sep s ss) cwd ≡ is_none (resolve [] (s ∷ ss))
unfolding escapes_worktree
escapes_worktree-relative lower cwd sep s ss is_sep names small =
    rw (norm-path_text sep s ss is_sep names) (
      rw (path_text-relative s ss names)
        (rw (split-path_text s ss names) (climbs_out-resolve [] (s ∷ ss) (omega (arith, small)))))

-- The path is the worktree's, or a slash and some rest follow this.
abbrev pub IsBelow : Text → Text → Type 0
IsBelow path base = (path ≡ base) ⊎ (rest : Text) × (path ≡ base ++ b'/' ∷ rest)
