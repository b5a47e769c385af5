-- ===== src/Supervisor/LoopGuard.antt =====
-- `LoopGuard` of crates/oxyris-supervisor/src/guardrails.rs: stops a run that repeats itself or
-- takes too many steps.
pub mod Bounds
use oxyris.Prelude.{
  ℕ, ◌+◌, ◌%◌, ◌^◌, Text, Bool, true, false, not, ◌&&◌, ◌||◌, ltb, leb, ◌==◌, List, [], ◌∷◌, ◌++◌,
  length, count, is_empty, is_whitespace, if◌then◌else◌,
}

pub data LoopVerdict : Type 0 where
  ok_verdict repeating too_many_steps : LoopVerdict

-- `recent` from the front of the queue to its back
pub record LoopGuard : Type 0 where
  pub recent : List ℕ
  pub window : ℕ
  pub repeat_limit : ℕ
  pub max_steps : ℕ
  pub steps : ℕ

unfoldable pub new_guard : ℕ → ℕ → ℕ → LoopGuard
new_guard window repeat_limit max_steps = record {
  recent = [];
  window = window;
  repeat_limit = repeat_limit;
  max_steps = max_steps;
  steps = 0;
}

unfoldable pub default_guard : LoopGuard
unfolding new_guard
default_guard = new_guard 6 3 40

-- `while recent.len() > window { recent.pop_front(); }`
unfoldable pub pop_beyond : ℕ → List ℕ → List ℕ
pop_beyond window [] = []
pop_beyond window (x ∷ xs) =
    let rest = pop_beyond window xs in if ltb window (length (x ∷ xs)) then rest else x ∷ xs

-- `split_whitespace` and `join(" ")`: the words of a text, with one space between them.
-- `gap` tells that a space is due before the next word.
collapse_from : Bool → Bool → Text → Text
collapse_from started gap [] = []
collapse_from started gap (c ∷ s) =
    let space = is_whitespace c in
    let rest = collapse_from (started || not space) (started && space) s in
    if space then rest else (if gap then 32 ∷ c ∷ rest else c ∷ rest)

unfoldable pub collapse_ws : Text → Text
unfolding collapse_from is_whitespace
collapse_ws s = collapse_from false false s

-- `hasher` is the `DefaultHasher` of the standard library, from a text to 64 bits.
module _ (hasher : Text → ℕ) where
  unfoldable pub fingerprint_hash : Text → ℕ
  unfolding collapse_ws
  fingerprint_hash s = hasher (collapse_ws s)

  unfoldable pub observe : LoopGuard → Text → LoopVerdict × LoopGuard
  observe g fingerprint =
      let g' = record g { steps = (g.steps + 1) % 2 ^ 64 } in
      if ltb g'.max_steps g'.steps
      then (too_many_steps, g')
      else let h = fingerprint_hash fingerprint in
        let g'' = record g' { recent = pop_beyond g'.window (g'.recent ++ h ∷ []) } in
        if leb g''.repeat_limit (count (λ x. x == h) g''.recent)
        then (repeating, g'')
        else (ok_verdict, g'')
