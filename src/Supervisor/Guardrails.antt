-- ===== src/Supervisor/Guardrails.antt =====
-- crates/oxyris-supervisor/src/guardrails.rs: the denylist and the budget of turns.
use oxyris.Prelude.{
  ℕ, ◌+◌, ◌%◌, ◌^◌, Text, codes, Bool, false, not, leb, Option, none, some, List, [], ◌∷◌, find,
  map_option, is_some,
}

-- The raw patterns of `Denylist::new`: a name and a regular expression.
abbrev pub patterns : List (Text × Text)
patterns =
    (codes "recursive force remove", codes "(?i)\\brm\\b[^\\n]*\\s-[a-z]*(r[a-z]*f|f[a-z]*r)\\b")
    ∷ (
      codes "recursive force remove",
      codes
          "(?i)\\brm\\b[^\\n]*(\\s-r\\b|\\s-R\\b|\\s--recursive\\b)[^\\n]*(\\s-f\\b|\\s--force\\b)|\\brm\\b[^\\n]*(\\s-f\\b|\\s--force\\b)[^\\n]*(\\s-r\\b|\\s-R\\b|\\s--recursive\\b)",
    )
    ∷ (
      codes "force push",
      codes "(?i)\\bgit\\s+push\\b[^\\n]*(--force\\b|--force-with-lease\\b|\\s-f\\b)",
    )
    ∷ (codes "hard reset", codes "(?i)\\bgit\\s+reset\\s+--hard\\b")
    ∷ (codes "git clean -f", codes "(?i)\\bgit\\s+clean\\b[^\\n]*-[a-z]*f")
    ∷ (codes "branch -D force delete", codes "(?i)\\bgit\\s+branch\\s+(-[a-z]*\\s+)*-D\\b")
    ∷ (codes "filesystem format", codes "(?i)\\bmkfs(\\.\\w+)?\\b")
    ∷ (codes "raw disk write", codes "(?i)\\bdd\\s+[^\\n]*\\bof=/dev/")
    ∷ (codes "write to block device", codes "(?i)>\\s*/dev/(sd|nvme|disk)")
    ∷ (codes "fork bomb", codes ":\\s*\\(\\s*\\)\\s*\\{")
    ∷ (codes "recursive chmod 777", codes "(?i)\\bchmod\\s+(-[a-z]*\\s+)*-R\\b[^\\n]*\\b777\\b")
    ∷ (
      codes "pipe download to shell",
      codes "(?i)\\b(curl|wget)\\b[^\\n]*\\|\\s*(sudo\\s+)?(sh|bash|zsh)\\b",
    )
    ∷ (codes "shutdown/reboot", codes "(?i)\\b(shutdown|reboot|halt|poweroff)\\b")
    ∷ (
      codes "destroy infra",
      codes "(?i)\\b(terraform\\s+destroy|kubectl\\s+delete\\s+(ns|namespace|--all))\\b",
    )
    ∷ (
      codes "read private key/secrets",
      codes
          "(?i)\\b(cat|less|more|head|tail)\\b[^\\n]*(id_rsa\\b|\\.pem\\b|\\.env\\b|credentials\\b|\\.aws/)",
    )
    ∷ []

-- `is_match pattern text` is `Regex::is_match` of the crate `regex`.
module _ (is_match : Text → Text → Bool) where
  unfoldable pub first_match : Text → Option Text
  first_match text = map_option (λ p. p.0) (find (λ p. is_match p.1 text) patterns)

  unfoldable pub is_forbidden : Text → Bool
  is_forbidden text = is_some (first_match text)

pub record Budget : Type 0 where
  pub max_turns : Option ℕ
  pub turns : ℕ

unfoldable pub new_budget : Option ℕ → Budget
new_budget max_turns = record { max_turns = max_turns; turns = 0 }

unfoldable pub is_exhausted : Budget → Bool
is_exhausted b = elim b.max_turns [ none ↦ false | some m ↦ leb m b.turns ]

-- `turns` is a `u32`.
unfoldable pub record_turn : Budget → Bool × Budget
unfolding is_exhausted
record_turn b = let b' = record b { turns = (b.turns + 1) % 2 ^ 32 } in (not (is_exhausted b'), b')
