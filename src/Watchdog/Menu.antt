-- ===== src/Watchdog/Menu.antt =====
-- `dont_ask_again_steps`: the item of a menu that stops further questions.
use oxyris.Prelude.{
  ℕ, ◌+◌, ◌-◌, Text, codes, Bool, not, ◌||◌, ◌==◌, Option, none, some, List, [], ◌∷◌, filter,
  split_once, starts_with, contains, lines, parse_usize, trim, utf8, length, slice_from,
  if◌then◌else◌,
}

-- `rfind`: where the last occurrence of `p` begins, in bytes
unfoldable pub rfind : Text → Text → Option ℕ
unfolding starts_with utf8
rfind p [] = none
rfind p (c ∷ s) = elim (rfind p s) [
  | some found ↦ some (length (utf8 c) + found)
  | none ↦ if starts_with (c ∷ s) p then some 0 else none
]

-- The caret, indent and bullets before an item.
abbrev is_chrome : ℕ → Bool
is_chrome c =
    c == b' ' || c == b'\t' || c == b'>' || c == 0x276f || c == 0x203a || c == b'*' || c == b'-'

unfoldable pub trim_chrome : Text → Text
trim_chrome [] = []
trim_chrome (c ∷ s) = if is_chrome c then trim_chrome s else c ∷ s

abbrev unwrap_or_zero : Option ℕ → ℕ
unwrap_or_zero none = 0
unwrap_or_zero (some n) = n

abbrev is_apostrophe : ℕ → Bool
is_apostrophe c = c == 0x27 || c == 0x2019

-- `to_lowercase` is `str::to_lowercase`.
module _ (to_lowercase : Text → Text) where
  -- The number of an item that says so.
  unfoldable pub item_number : Text → Option ℕ
  unfolding trim_chrome split_once contains parse_usize trim filter
  item_number line = elim (split_once (trim_chrome line) b'.') [
    | none ↦ none
    | some (num, rest) ↦ elim (parse_usize (trim num)) [
      | none ↦ none
      | some n ↦
          let norm = filter (λ c. not (is_apostrophe c)) (to_lowercase rest) in
          if contains norm (codes "dont ask again") then some n else none
    ]
  ]

  unfoldable pub first_item : List Text → ℕ
  unfolding item_number
  first_item [] = 0
  first_item (line ∷ rest) =
      let later = first_item rest in elim (item_number line) [ some n ↦ n - 1 | none ↦ later ]

  abbrev steps_in : Option Text → Option ℕ
  unfolding first_item lines
  steps_in none = none
  steps_in (some s) = some (first_item (lines s))

  -- The offset is found in the text in lower case and cuts the text itself. It is none where that
  -- cut panics.
  unfoldable pub dont_ask_again_steps : Text → Option ℕ
  unfolding rfind slice_from steps_in
  dont_ask_again_steps tail =
      steps_in
        (slice_from (unwrap_or_zero (rfind (codes "do you want to") (to_lowercase tail))) tail)
