-- ===== src/Accounts/Scripts.antt =====
-- The scripts that apps/desktop/src/infra/claude_accounts.rs hands to a shell of a distribution, and
-- how a POSIX shell reads the quoted directory in them.
use oxyris.Prelude.{
  ℕ, ◌≡◌, ◌∙◌, ap, refl, Text, codes, Bool, ◌||◌, ◌==◌, ==→eq, Option, none, some, [], ◌∷◌, ◌++◌,
  append-nil, append_assoc, and_then, strip_prefix, strip_prefix-append, Bool-cases, inl, inr,
  if◌then◌else◌,
}

-- `s.replace('\'', r"'\''")`
unfoldable pub escape_quotes : Text → Text
escape_quotes [] = []
escape_quotes (c ∷ s) = if c == b'\'' then codes "'\\''" ++ escape_quotes s else c ∷ escape_quotes s

unfoldable pub sh_quote : Text → Text
unfolding escape_quotes
sh_quote s = b'\'' ∷ (escape_quotes s ++ codes "'")

-- The script of `spawn_login_console`
unfoldable pub login_script : Text → Text
unfolding sh_quote
login_script config_dir =
    codes "export CLAUDE_CONFIG_DIR="
    ++ (sh_quote config_dir ++ codes "; claude auth login --claudeai")

-- The script of `run_headless_refresh`
unfoldable pub refresh_script : Option Text → Text
unfolding sh_quote
refresh_script none = codes "cd ~ && claude -p . --model haiku --no-session-persistence"
refresh_script (some config_dir) =
    codes "export CLAUDE_CONFIG_DIR="
    ++ (sh_quote config_dir ++ codes "; cd ~ && claude -p . --model haiku --no-session-persistence")

-- How a shell reads a word: as it stands, between single quotes, or after a backslash.
pub data Quoting : Type 0 where
  plain : Quoting
  quoted : Quoting
  escaped : Quoting

abbrev prepend : ℕ → Option (Text × Text) → Option (Text × Text)
prepend c none = none
prepend c (some (word, rest)) = some (c ∷ word, rest)

-- A character that ends a word
abbrev ends_word : ℕ → Bool
ends_word c = c == b' ' || c == b';' || c == b'&' || c == b'|' || c == 10

-- The word at the start of a script, with its quotes removed, and the rest of the script; `none` is
-- a quote that is not closed. Double quotes and expansions are left out: they end the reading.
unfoldable pub read_word : Quoting → Text → Option (Text × Text)
read_word plain [] = some ([], [])
read_word quoted [] = none
read_word escaped [] = none
read_word quoted (c ∷ s) =
    let closed = read_word plain s in
    let inside = prepend c (read_word quoted s) in if c == b'\'' then closed else inside
read_word escaped (c ∷ s) = prepend c (read_word plain s)
read_word plain (c ∷ s) =
    let opened = read_word quoted s in
    let escape = read_word escaped s in
    let more = prepend c (read_word plain s) in
    if c == b'\''
    then opened
    else if c == b'\\'
    then escape
    else if ends_word c
    then some ([], c ∷ s)
    else if c == b'"' || c == b'$' || c == b'`'
    then none
    else more

prepend_all : Text → Option (Text × Text) → Option (Text × Text)
prepend_all [] r = r
prepend_all (c ∷ s) r = prepend c (prepend_all s r)

-- What is quoted is read as it stands, up to the closing quote.
read_word-escape_quotes :
    (s t : Text)
    → read_word quoted (escape_quotes s ++ b'\'' ∷ t) ≡ prepend_all s (read_word plain t)
unfolding read_word escape_quotes prepend_all
read_word-escape_quotes [] t = refl
read_word-escape_quotes (c ∷ s) t = elim (Bool-cases (c == b'\'')) [
  | inl e ↦ rw e (rw (==→eq c b'\'' e) (ap (prepend b'\'') (read_word-escape_quotes s t)))
  | inr e ↦ rw e (rw e (ap (prepend c) (read_word-escape_quotes s t)))
]

prepend_all-some : (s u t : Text) → prepend_all s (some (u, t)) ≡ some (s ++ u, t)
unfolding prepend_all
prepend_all-some [] u t = refl
prepend_all-some (c ∷ s) u t = ap (prepend c) (prepend_all-some s u t)

-- A shell reads a quoted directory as that directory, whatever characters it holds, and goes on
-- with what follows the word.
read_word-sh_quote :
    (dir rest : Text) → read_word plain (sh_quote dir ++ b';' ∷ rest) ≡ some (dir, b';' ∷ rest)
unfolding sh_quote read_word
read_word-sh_quote dir rest =
    ap (read_word quoted) (append_assoc (escape_quotes dir) (codes "'") (b';' ∷ rest))
    ∙ read_word-escape_quotes dir (b';' ∷ rest)
    ∙ prepend_all-some dir [] (b';' ∷ rest)
    ∙ ap (λ d. some (d, b';' ∷ rest)) (append-nil dir)

-- What follows `export CLAUDE_CONFIG_DIR=` in a script
unfoldable pub assigned : Text → Option Text
assigned script = strip_prefix script (codes "export CLAUDE_CONFIG_DIR=")

-- Both scripts on a directory assign to CLAUDE_CONFIG_DIR a word that a shell reads as exactly this
-- directory, whatever characters it holds, and go on with their command; without a directory the
-- refresh assigns nothing.
pub scripts-directory :
    (dir : Text)
    → (and_then (assigned (login_script dir)) (read_word plain)
        ≡ some (dir, codes "; claude auth login --claudeai"))
      × (and_then (assigned (refresh_script (some dir))) (read_word plain)
          ≡ some (dir, codes "; cd ~ && claude -p . --model haiku --no-session-persistence"))
      × (assigned (refresh_script none) ≡ none)
unfolding login_script refresh_script assigned
scripts-directory dir = (
  rw strip_prefix-append (read_word-sh_quote dir (codes " claude auth login --claudeai")),
  rw strip_prefix-append (
      read_word-sh_quote dir (codes " cd ~ && claude -p . --model haiku --no-session-persistence")),
  unfold strip_prefix in refl,
)
