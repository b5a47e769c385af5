-- ===== src/Dotenv.antt =====
-- crates/oxyris-git/src/dotenv.rs: a `.env` file as its lines, merged, substituted and rendered.
pub mod RoundTrip
pub mod Merge
pub mod Substitute
pub mod Worktree
use oxyris.Prelude.{
  ℕ, zero, suc, ◌+◌, ◌/◌, ◌%◌, ◌^◌, Text, codes, Bool, true, false, not, ◌&&◌, ◌||◌, ltb, leb, ◌==◌,
  Option, none, some, List, [], ◌∷◌, ◌++◌, is_empty, is_some, any, last, length, map, eq_text,
  lines, starts_with, strip_prefix, split_once, utf8, trim, trim_start, if◌then◌else◌,
}

pub data DotenvLine : Type 0 where
  -- the key, the raw value, and whether `export ` stands before the key
  key_value : Text → Text → Bool → DotenvLine
  comment : Text → DotenvLine
  blank : DotenvLine

-- `Dotenv`, a record of one field
abbrev pub Dotenv : Type 0
Dotenv = List DotenvLine

abbrev pub valid_key_start : ℕ → Bool
valid_key_start c = (leb b'A' c && leb c b'Z') || (leb b'a' c && leb c b'z') || c == b'_'

abbrev pub starts_valid : Text → Bool
starts_valid [] = false
starts_valid (c ∷ s) = valid_key_start c

abbrev pub export : Text
export = codes "export "

-- What a line means after its `export ` prefix, or as a whole if it has none.
unfoldable pub parse_assignment : Text → Bool → Text → DotenvLine
parse_assignment raw export_prefix rest = elim (split_once rest b'=') [
  | none ↦ comment raw
  | some (before, after) ↦
      let key = trim before in
      if is_empty key || not (starts_valid key)
      then comment raw
      else key_value key after export_prefix
]

-- The body of the loop of `parse`.
unfoldable pub parse_line : Text → DotenvLine
unfolding parse_assignment
parse_line raw =
    let line = trim_start raw in
    if is_empty line
    then blank
    else if starts_with line (b'#' ∷ [])
    then comment raw
    else elim (strip_prefix line export) [
      | some stripped ↦ parse_assignment raw true stripped
      | none ↦ parse_assignment raw false line
    ]

unfoldable pub parse : Text → Dotenv
unfolding parse_line
parse content = map parse_line (lines content)

unfoldable pub get : Text → Dotenv → Option Text
get key [] = none
get key (key_value k raw_value export_prefix ∷ ls) =
    let rest = get key ls in if eq_text k key then some raw_value else rest
get key (comment c ∷ ls) = get key ls
get key (blank ∷ ls) = get key ls

unfoldable pub contains_key : Text → Dotenv → Bool
unfolding get
contains_key key ls = is_some (get key ls)

unfoldable pub set : Text → Text → Dotenv → Dotenv
set key raw_value [] = key_value key raw_value false ∷ []
set key raw_value (key_value k v export_prefix ∷ ls) =
    let rest = set key raw_value ls in
    if eq_text k key
    then key_value k raw_value export_prefix ∷ ls
    else key_value k v export_prefix ∷ rest
set key raw_value (comment c ∷ ls) = comment c ∷ set key raw_value ls
set key raw_value (blank ∷ ls) = blank ∷ set key raw_value ls

-- The first loop of `merge`: the keys that both have are overwritten, the others are collected.
unfoldable pub overwrite : Dotenv → List Text → Dotenv → Dotenv × List Text
overwrite self overlay_only_keys [] = (self, overlay_only_keys)
overwrite self overlay_only_keys (key_value key raw_value export_prefix ∷ overlay) =
    let known = contains_key key self in
    overwrite (if known then set key raw_value self else self)
      (if known then overlay_only_keys else overlay_only_keys ++ key ∷ []) overlay
overwrite self overlay_only_keys (comment c ∷ overlay) = overwrite self overlay_only_keys overlay
overwrite self overlay_only_keys (blank ∷ overlay) = overwrite self overlay_only_keys overlay

-- `overlay_only_keys.contains(key)`
abbrev pub contains : Text → List Text → Bool
contains key keys = any (λ k. eq_text k key) keys

-- The last loop of `merge`: the lines that it appends.
unfoldable pub appended : List Text → Dotenv → Dotenv → Dotenv
appended overlay_only_keys pending_comments [] = []
appended overlay_only_keys pending_comments (comment c ∷ overlay) =
    appended overlay_only_keys (pending_comments ++ comment c ∷ []) overlay
appended overlay_only_keys pending_comments (blank ∷ overlay) =
    appended overlay_only_keys [] overlay
appended overlay_only_keys pending_comments (key_value key raw_value export_prefix ∷ overlay) =
    let rest = appended overlay_only_keys [] overlay in
    if contains key overlay_only_keys
    then pending_comments ++ key_value key raw_value export_prefix ∷ rest
    else rest

-- `matches!(self.lines.last(), Some(DotenvLine::Blank) | None)`
abbrev pub ends_blank : Option DotenvLine → Bool
ends_blank none = true
ends_blank (some blank) = true
ends_blank (some (comment c)) = false
ends_blank (some (key_value key raw_value export_prefix)) = false

unfoldable pub merge : Dotenv → Dotenv → Dotenv
unfolding overwrite
merge self overlay =
    let (self', overlay_only_keys) = overwrite self [] overlay in
    if is_empty overlay_only_keys
    then self'
    else (self' ++ (if ends_blank (last self') then [] else blank ∷ []))
      ++ appended overlay_only_keys [] overlay

abbrev starts_dash : Text → Bool
starts_dash [] = false
starts_dash (c ∷ s) = c == b'-'

abbrev tail : Text → Text
tail [] = []
tail (c ∷ s) = s

-- `token.find(":-")`, and the parts before and after it
unfoldable pub split_fallback : Text → Option (Text × Text)
split_fallback [] = none
split_fallback (c ∷ s) =
    let rest = split_fallback s in
    if c == b':' && starts_dash s
    then some ([], tail s)
    else elim rest [ none ↦ none | some (name, fallback) ↦ some (c ∷ name, fallback) ]

-- `vars` is the map of the variables.
module _ (vars : Text → Option Text) where
  -- `Some(v) if !v.is_empty() => v`, else the fallback
  abbrev pub or_fallback : Option Text → Text → Text
  or_fallback none fallback = fallback
  or_fallback (some v) fallback = if is_empty v then fallback else v

  unfoldable pub resolve_token : Text → Text
  unfolding split_fallback
  resolve_token token = elim (split_fallback token) [
    | some (name, fallback) ↦ or_fallback (vars name) fallback
    | none ↦ elim (vars token) [ some v ↦ v | none ↦ codes "${" ++ token ++ b'}' ∷ [] ]
  ]

  abbrev pub opens : Text → Bool
  opens [] = false
  opens (c ∷ s) = c == b'{'

  -- The loop of `substitute_in`; `skip` characters are of a reference that was replaced. Each byte
  -- of any other character is pushed as a character of its own.
  unfoldable pub substitute_from : ℕ → Text → Text
  substitute_from skip [] = []
  substitute_from (suc skip) (c ∷ s) = substitute_from skip s
  substitute_from zero (c ∷ s) =
      let plain = utf8 c ++ substitute_from zero s in
      let replaced =
        λ (token : Text). resolve_token token ++ substitute_from (length token + 2) s in
      if c == b'$' && opens s
      then elim (split_once (tail s) b'}') [ none ↦ plain | some (token, after) ↦ replaced token ]
      else plain

  unfoldable pub substitute_in : Text → Text
  substitute_in input = substitute_from zero input

  -- The value of a line, substituted.
  abbrev pub substitute_line : DotenvLine → DotenvLine
  substitute_line (key_value key raw_value export_prefix) =
      key_value key (substitute_in raw_value) export_prefix
  substitute_line (comment c) = comment c
  substitute_line blank = blank

  unfoldable pub substitute : Dotenv → Dotenv
  substitute ls = map substitute_line ls

unfoldable pub render_line : DotenvLine → Text
render_line blank = []
render_line (comment c) = c
render_line (key_value key raw_value export_prefix) =
    (if export_prefix then export else []) ++ key ++ b'=' ∷ raw_value

unfoldable pub render : Dotenv → Text
unfolding render_line
render [] = []
render (l ∷ ls) = render_line l ++ 10 ∷ render ls
