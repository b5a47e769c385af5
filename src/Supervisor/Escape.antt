-- ===== src/Supervisor/Escape.antt =====
-- `escapes_worktree` of crates/oxyris-supervisor/src/guardrails.rs.
pub mod Paths
pub mod Resolve
use oxyris.Prelude.{
  starts_with, ℕ, ◌+◌, ◌-◌, ◌^◌, ◌%◌, Text, Bool, true, false, not, ◌&&◌, ◌||◌, leb, ◌==◌, List, [],
  ◌∷◌, ◌++◌, map, eq_text, if◌then◌else◌,
}

-- `s.replace('\\', "/")`
unfoldable pub norm : Text → Text
norm s = map (λ c. if c == b'\\' then b'/' else c) s

-- `trim_end_matches('/')`
unfoldable pub trim_slashes : Text → Text
trim_slashes [] = []
trim_slashes (c ∷ s) = elim (trim_slashes s) [
  | [] ↦ if c == b'/' then [] else c ∷ []
  | d ∷ t ↦ c ∷ d ∷ t
]

-- `char::is_ascii_alphabetic`
unfoldable pub is_alphabetic : ℕ → Bool
is_alphabetic c = (leb b'A' c && leb c b'Z') || (leb b'a' c && leb c b'z')

-- A leading slash, or a drive letter and a colon.
unfoldable pub is_absolute : Text → Bool
unfolding is_alphabetic
is_absolute [] = false
is_absolute (c ∷ []) = c == b'/'
is_absolute (c ∷ d ∷ s) = c == b'/' || (d == b':' && is_alphabetic c)

-- `split('/')`: `cur` is the segment read so far.
unfoldable pub split_from : Text → Text → List Text
split_from cur [] = cur ∷ []
split_from cur (c ∷ s) =
    let fresh = c == b'/' in
    let rest = split_from (if fresh then [] else cur ++ c ∷ []) s in
    if fresh then cur ∷ rest else rest

unfoldable pub split : Text → List Text
unfolding split_from
split s = split_from [] s

pub data Segment : Type 0 where
  stay up : Segment
  down : Text → Segment

-- The patterns of the loop's `match seg`.
unfoldable pub segment_of : Text → Segment
segment_of [] = stay
segment_of (c ∷ []) = if c == b'.' then stay else down (c ∷ [])
segment_of (c ∷ d ∷ []) = if c == b'.' && d == b'.' then up else down (c ∷ d ∷ [])
segment_of (c ∷ d ∷ e ∷ s) = down (c ∷ d ∷ e ∷ s)

-- The sign of an `i32`, which is kept as its 32 bits
abbrev pub is_negative : ℕ → Bool
is_negative depth = leb (2 ^ 31) depth

-- The loop over the segments; `depth` is an `i32` that wraps, as in a release build.
unfoldable pub climbs_out : ℕ → List Segment → Bool
climbs_out depth [] = false
climbs_out depth (stay ∷ segs) = climbs_out depth segs
climbs_out depth (up ∷ segs) =
    let below = (depth + (2 ^ 32 - 1)) % 2 ^ 32 in
    let rest = climbs_out below segs in if is_negative below then true else rest
climbs_out depth (down name ∷ segs) = climbs_out ((depth + 1) % 2 ^ 32) segs

-- `lower` is `str::to_lowercase`, which goes by the tables of Unicode.
module _ (lower : Text → Text) where
  unfoldable pub escapes_worktree : Text → Text → Bool
  escapes_worktree candidate cwd =
      let cand = norm candidate in
      let base = trim_slashes (norm cwd) in
      if is_absolute cand
      then not
          (eq_text (lower cand) (lower base) || starts_with (lower cand) (lower base ++ b'/' ∷ []))
      else climbs_out 0 (map segment_of (split cand))
