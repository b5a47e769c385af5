-- ===== src/Dotenv/Worktree.antt =====
-- `render_for_worktree` of apps/desktop/src/infra/dotenv_render.rs, and the variables of
-- apps/desktop/src/infra/env_template.rs: the `.env.local` of a worktree.
pub mod Ownership
pub mod Status
use oxyris.Prelude.{
  ℕ, zero, suc, ◌+◌, ◌*◌, ◌%◌, ◌^◌, Text, codes, Bool, true, false, not, ◌&&◌, ◌||◌, ◌==◌, Option,
  none, some, List, [], ◌∷◌, ◌++◌, take, length, last, map, eq_text, starts_with, to_decimal,
  byte_length, Result, ok, err, ◌>>=◌, if◌then◌else◌,
}
use oxyris.Core.{Environment, local, wsl}
use oxyris.Dotenv.{Dotenv, parse, merge, substitute, render}

-- A worktree's identifier is its text.
unfoldable pub short_id : Text → Text
short_id worktree_id = take 8 worktree_id

unfoldable pub docker_project_name : Text → Text
unfolding short_id
docker_project_name worktree_id = codes "oxyris_" ++ short_id worktree_id

-- The loop of `port_offset` over the bytes.
unfoldable pub hash_from : ℕ → List ℕ → ℕ
hash_from hash [] = hash
hash_from hash (b ∷ bs) = hash_from ((hash * 31 % 2 ^ 32 + b) % 2 ^ 32) bs

unfoldable pub port_offset : Text → ℕ
port_offset worktree_id = hash_from 0 worktree_id % 1000

-- The lookup in the map that `env_vars` is collected to: a later pair would win, but no name is
-- given twice.
unfoldable pub env_vars : Text → Option Text → Text → Option Text
unfolding short_id docker_project_name
env_vars worktree_id template_path name =
    if eq_text name (codes "OXYRIS_WORKTREE_ID")
    then some worktree_id
    else if eq_text name (codes "OXYRIS_WORKTREE_SHORT")
    then some (short_id worktree_id)
    else if eq_text name (codes "OXYRIS_DOCKER_PROJECT")
    then some (docker_project_name worktree_id)
    else if eq_text name (codes "OXYRIS_PORT_OFFSET")
    then some (to_decimal (port_offset worktree_id))
    else if eq_text name (codes "OXYRIS_COMPOSE_FILE")
    then template_path
    else none

abbrev is_separator : ℕ → Option ℕ → Bool
is_separator sep none = false
is_separator sep (some c) = c == sep || c == b'/' || c == b'\\'

-- `s.replace(from, to)` of one character
abbrev pub replace : ℕ → ℕ → Text → Text
replace from to s = map (λ c. if c == from then to else c) s

-- `main_separator` is `std::path::MAIN_SEPARATOR`; `replace` goes the way of its platform.
unfoldable pub path_join : ℕ → Text → Text → Environment → Text
path_join main_separator base relative env =
    let sep : ℕ = elim env [ local ↦ main_separator | wsl distro ↦ b'/' ] in
    let normalized = replace (if sep == b'\\' then b'/' else b'\\') sep relative in
    if is_separator sep (last base) then base ++ normalized else base ++ sep ∷ normalized

pub data RenderOutcome : Type 0 where
  -- the path and the number of bytes
  generated : Text → ℕ → RenderOutcome
  no_template : RenderOutcome
  manual_override : Text → RenderOutcome

abbrev pub template_relative : Text
template_relative = codes ".oxyris/.env.template"

abbrev pub base_relative : Text
base_relative = codes ".env"

abbrev pub output_relative : Text
output_relative = codes ".env.local"

-- `TEMPLATE_RELATIVE` of env_template.rs
abbrev pub compose_relative : Text
compose_relative = codes ".oxyris/compose.yml"

abbrev pub header_marker : Text
header_marker = codes "# oxyris:dotenv-managed"

-- `read_text`, `write_text` and the test for a file: the local file system, or the agent of the
-- distribution. A write answers what it leaves.
pub record Files (F E : Type 0) : Type 0 where
  pub read_text : F → Text → Result E (Option Text)
  pub write_text : F → Text → Text → Result E (Unit {0}) × F
  pub is_file : F → Text → Result E Bool

unfoldable pub header : Text → Text → Text
header worktree_id now =
    header_marker
    ++ (codes
          "\n# Generated by Oxyris from .env + .oxyris/.env.template — edit either source, not this file.\n# Worktree: "
        ++ (worktree_id ++ (codes " · " ++ (now ++ codes "\n\n"))))

module _ {F E : Type 0} (files : Files F E) (main_separator : ℕ) where
  unfoldable pub output_path : Text → Environment → Text
  output_path worktree_path env = path_join main_separator worktree_path output_relative env

  -- The variables of a worktree, with the path of its compose file if there is one.
  unfoldable pub variables : F → Environment → Text → Text → Result E (Text → Option Text)
  variables fs env worktree_id worktree_path =
      let compose_path = path_join main_separator worktree_path compose_relative env in
      elim (files.is_file fs compose_path) [
        | err e ↦ err e
        | ok exists ↦ ok (env_vars worktree_id (if exists then some compose_path else none))
      ]

  -- `now` is the time in RFC 3339.
  unfoldable pub full_text : Text → Text → (Text → Option Text) → Text → Text → Text
  full_text worktree_id now vars base template =
      header worktree_id now ++ render (substitute vars (merge (parse base) (parse template)))

  -- The answer after `write_text`.
  abbrev pub after_write : Text → Text → Result E (Unit {0}) × F → Result E RenderOutcome × F
  after_write path full (ok _, fs') = (ok (generated path (byte_length full)), fs')
  after_write path full (err e, fs') = (err e, fs')

  -- What follows the test of ownership.
  unfoldable pub render_owned :
      F → Environment → Text → Text → Text → Text → Result E RenderOutcome × F
  render_owned fs env worktree_id worktree_path now template =
      elim (files.read_text fs (path_join main_separator worktree_path base_relative env)) [
        | err e ↦ (err e, fs)
        | ok found ↦
            let base : Text = elim found [ none ↦ [] | some b ↦ b ] in
            elim (variables fs env worktree_id worktree_path) [
              | err e ↦ (err e, fs)
              | ok vars ↦
                  let full = full_text worktree_id now vars base template in
                  let path = output_path worktree_path env in
                  after_write path full (files.write_text fs path full)
            ]
      ]

  unfoldable pub render_for_worktree :
      F → Environment → Text → Text → Text → Result E RenderOutcome × F
  unfolding render_owned
  render_for_worktree fs env worktree_id worktree_path now =
      let path = output_path worktree_path env in
      elim (files.read_text fs (path_join main_separator worktree_path template_relative env)) [
        | err e ↦ (err e, fs)
        | ok none ↦ (ok no_template, fs)
        | ok (some template) ↦ elim (files.read_text fs path) [
          | err e ↦ (err e, fs)
          | ok none ↦ render_owned fs env worktree_id worktree_path now template
          | ok (some existing) ↦
              if starts_with existing header_marker
              then render_owned fs env worktree_id worktree_path now template
              else (ok (manual_override path), fs)
        ]
      ]
