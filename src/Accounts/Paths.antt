-- ===== src/Accounts/Paths.antt =====
-- Where the documents of an environment's live login and of a slot lie: `live_paths`, `slot_dir` and
-- `slot_paths` of apps/desktop/src/infra/claude_accounts.rs.
pub mod Trim
use oxyris.Prelude.{
  Text, codes, Bool, true, not, ◌==◌, Option, none, some, [], ◌∷◌, ◌++◌, Result, ok, err, ◌>>=◌,
  is_some, is_empty, filter_option, if◌then◌else◌,
}
use oxyris.Core.{Environment, local, wsl, is_wsl}
use oxyris.Accounts.Machine.{AccountsError, agent, spawn}

abbrev pub credentials_file : Text
credentials_file = codes ".credentials.json"

abbrev pub config_file : Text
config_file = codes ".claude.json"

abbrev pub registry_file : Text
registry_file = codes "claude-accounts.json"

abbrev pub slots_dir : Text
slots_dir = codes "claude-accounts"

-- What an operation finds of the host: the variables and directories of the process, the paths of
-- std::path, and the home that the agent of a distribution reports. None of it changes while the
-- operation runs; the cache of the homes is not modelled.
pub record Host (X : Type 0) : Type 0 where
  pub data_dir : Text
  pub home_dir : Option Text
  -- `CLAUDE_CONFIG_DIR`
  pub config_dir : Option Text
  pub exists : Text → Bool
  -- `Path::join`
  pub join_path : Text → Text → Text
  pub system_home : Text → Result X (Option Text)

pub record DocPaths : Type 0 where
  pub credentials : Text
  pub config : Text

-- `trim_end_matches('/')`
unfoldable pub trim_slashes : Text → Text
trim_slashes [] = []
trim_slashes (c ∷ s) =
    let rest = trim_slashes s in
    if c == b'/' then elim rest [ [] ↦ [] | d ∷ r ↦ c ∷ d ∷ r ] else c ∷ rest

module _ {X : Type 0} (J : Type 0) (host : Host X) where
  unfoldable pub join : Text → Text → Bool → Text
  unfolding trim_slashes
  join dir leaf is_wsl = if is_wsl then trim_slashes dir ++ b'/' ∷ leaf else host.join_path dir leaf

  unfoldable pub wsl_home : Text → Result (AccountsError X J) Text
  wsl_home distro = elim (host.system_home distro) [
    | err e ↦ err (agent e)
    | ok home ↦ elim (filter_option (λ h. not (is_empty h)) home) [
      | none ↦ err (spawn (codes "no $HOME reported by " ++ distro))
      | some h ↦ ok h
    ]
  ]

  unfoldable pub live_paths : Environment → Result (AccountsError X J) DocPaths
  unfolding wsl_home join
  live_paths local = elim host.home_dir [
    | none ↦ err (spawn (codes "home directory not found"))
    | some home ↦
        let explicit = filter_option (λ v. not (is_empty v)) host.config_dir in
        let dir : Text = elim explicit [
          | none ↦ host.join_path home (codes ".claude")
          | some d ↦ d
        ] in
        let legacy = host.join_path dir (codes ".config.json") in
        ok (record {
          credentials = host.join_path dir credentials_file;
          config =
              if host.exists legacy
              then legacy
              else if is_some explicit
              then host.join_path dir config_file
              else host.join_path home config_file;
        })
  ]
  live_paths (wsl distro) = do
    home ← wsl_home distro
    ok (record {
      credentials = join (home ++ codes "/.claude") credentials_file true;
      config = join home config_file true;
    })

  unfoldable pub slot_dir : Environment → Text → Result (AccountsError X J) Text
  unfolding wsl_home
  slot_dir local id = ok (host.join_path (host.join_path host.data_dir slots_dir) id)
  slot_dir (wsl distro) id = do
    home ← wsl_home distro
    ok (home ++ (codes "/.oxyris/" ++ (slots_dir ++ b'/' ∷ id)))

  unfoldable pub slot_paths : Environment → Text → Result (AccountsError X J) DocPaths
  unfolding slot_dir join is_wsl
  slot_paths env id = do
    dir ← slot_dir env id
    ok (record {
      credentials = join dir credentials_file (is_wsl env);
      config = join dir config_file (is_wsl env);
    })

  unfoldable pub registry_path : Text
  registry_path = host.join_path host.data_dir registry_file
