-- ===== src/Accounts/Registry.antt =====
-- The registry of accounts and the switch of apps/desktop/src/infra/claude_accounts.rs. The lock
-- lets one operation run at a time; each is one function of the machine.
use oxyris.Prelude.{
  Text, codes, Bool, ◌&&◌, Option, none, some, List, [], ◌∷◌, ◌++◌, filter, any, Result, ok, err,
  ok_or, and_then, eq_text, if◌then◌else◌,
}
use oxyris.Prelude.Int.{ℤ}
use oxyris.Core.{Environment, local, wsl}
use oxyris.Accounts.Json.{Json}
use oxyris.Accounts.Docs.{
  AccountDocError, missing, OAuthCredentials, AccountIdentity, same_account, Plan, plan,
  parse_credentials, parse_identity,
}
use oxyris.Accounts.Machine.{
  Machine, AccountsError, doc, serde, no_live_login, wsl_offline, eq_env, M, ◌>>=◌, ◌>>◌, lift,
  on_machine, read,
}
use oxyris.Accounts.Paths.{Host, live_paths, slot_paths, registry_path}

pub record AccountRecord : Type 0 where
  pub id : Text
  pub environment : Environment
  pub identity : AccountIdentity
  pub plan : Plan
  pub added_at_ms : ℤ

-- `Registry` is its list of accounts.
abbrev pub Registry : Type 0
Registry = List AccountRecord

pub record LiveAccount : Type 0 where
  pub identity : AccountIdentity
  pub plan : Plan

pub data CredSource : Type 0 where
  live_source : CredSource
  slot : Text → CredSource

unfoldable pub env_key : Environment → Text
env_key local = codes "local"
env_key (wsl distro) = codes "wsl:" ++ distro

-- `&a.environment == env && a.id == id`
unfoldable pub is_record : Environment → Text → AccountRecord → Bool
unfolding eq_env
is_record env id a = eq_env a.environment env && eq_text a.id id

-- `&a.environment == env && a.identity.same_account(&identity)`
unfoldable pub is_login : Environment → AccountIdentity → AccountRecord → Bool
unfolding eq_env same_account
is_login env identity a = eq_env a.environment env && same_account a.identity identity

-- `reg.accounts[i] = record` at the first position of the test, or `push`
unfoldable pub put_first : (AccountRecord → Bool) → AccountRecord → Registry → Registry
put_first p r [] = r ∷ []
put_first p r (a ∷ accounts) =
    let rest = put_first p r accounts in if p a then r ∷ accounts else a ∷ rest

-- `records` and the loop of `registered_environments`
unfoldable pub records : Environment → Registry → Registry
unfolding eq_env
records env accounts = filter (λ a. eq_env a.environment env) accounts

registered_from : List Environment → Registry → List Environment
unfolding eq_env
registered_from out [] = out
registered_from out (a ∷ accounts) =
    registered_from
      (if any (λ e. eq_env e a.environment) out then out else out ++ a.environment ∷ []) accounts

unfoldable pub registered_environments : Registry → List Environment
unfolding registered_from
registered_environments accounts = registered_from [] accounts

-- `serde_json::from_str` and `to_string_pretty` at `Registry`
pub record Serde (E : Type 0) : Type 0 where
  pub decode : Text → Option Registry
  pub encode : Registry → Result E Text

-- An operation's error
abbrev pub E : Type 0 → Json → Type 0
E X j = AccountsError X j.Error

-- What `parse_identity(..).ok()` answers
abbrev pub ok_of : {F A : Type 0} → Result F A → Option A
ok_of (ok a) = some a
ok_of (err e) = none

module _ {X : Type 0} (j : Json) where
  -- An error of the parsers, as `?` converts it
  abbrev pub from_doc : {A : Type 0} → Result (AccountDocError j.Error) A → Result (E X j) A
  from_doc (ok a) = ok a
  from_doc (err e) = err (doc e)

  abbrev pub from_serde : {A : Type 0} → Result j.Error A → Result (E X j) A
  from_serde (ok a) = ok a
  from_serde (err e) = err (serde e)

  -- `Missing` is no login.
  abbrev present : {A : Type 0} → Result (AccountDocError j.Error) A → Result (E X j) (Option A)
  present (ok a) = ok (some a)
  present (err (missing key)) = ok none
  present (err e) = err (doc e)

module _ (j : Json) where
  -- The identity in a document, if it can be read and parsed
  abbrev pub identity_in : Option Text → Option AccountIdentity
  identity_in config = and_then config (λ c. ok_of (parse_identity j c))

  abbrev pub credentials_in : Option Text → Option OAuthCredentials
  credentials_in creds = and_then creds (λ c. ok_of (parse_credentials j c))

module _ {W X : Type 0} (j : Json) (serde_registry : Serde j.Error) (m : Machine W X)
    (host : Host X) where
  unfoldable pub require_online : Environment → M W (E X j) (Unit {0})
  require_online local w = (ok tt, w)
  require_online (wsl distro) w =
      if m.wsl_distro_running w distro then (ok tt, w) else (err (wsl_offline distro), w)

  unfoldable pub read_registry : W → Registry
  read_registry w = elim (m.read_to_string w (registry_path j.Error host)) [
    | err e ↦ []
    | ok s ↦ elim (serde_registry.decode s) [ none ↦ [] | some reg ↦ reg ]
  ]

  -- `with_extension("json.tmp")`
  abbrev pub registry_tmp : Text
  registry_tmp = registry_path j.Error host ++ codes ".tmp"

  unfoldable pub write_registry : Registry → M W (E X j) (Unit {0})
  write_registry reg = do
    text ← lift (from_serde j (serde_registry.encode reg))
    (λ w. on_machine local (m.write_file w local registry_tmp text))
    (λ w. on_machine local (m.rename w local registry_tmp (registry_path j.Error host)))

  unfoldable pub read_file : Environment → Text → M W (E X j) (Option Text)
  read_file env path w = (read m w env path, w)

  -- `fs.read(path).await?.ok_or(e)?`
  unfoldable pub read_some : Environment → Text → E X j → M W (E X j) Text
  unfolding read_file
  read_some env path e = do found ← read_file env path; lift (ok_or found e)

  -- The match on the two documents; the credentials are parsed after an identity is found.
  unfoldable pub live_account : Text → Text → Result (E X j) (Option LiveAccount)
  live_account creds config = elim (present j (parse_identity j config)) [
    | err e ↦ err e
    | ok none ↦ ok none
    | ok (some identity) ↦ elim (present j (parse_credentials j creds)) [
      | err e ↦ err e
      | ok none ↦ ok none
      | ok (some c) ↦ ok (some (record { identity = identity; plan = plan c }))
    ]
  ]

  -- `let (Some(creds), Some(config)) = … else { return Ok(None) }`
  abbrev both :
      {A : Type 0}
      → Option Text
      → Option Text
      → (Text → Text → Result (E X j) (Option A))
      → Result (E X j) (Option A)
  both (some creds) (some config) f = f creds config
  both _ _ f = ok none

  unfoldable pub live : Environment → M W (E X j) (Option LiveAccount)
  unfolding require_online read_file live_account
  live env = do
    require_online env
    paths ← lift (live_paths j.Error host env)
    creds ← read_file env paths.credentials
    config ← read_file env paths.config
    lift (both creds config live_account)

  unfoldable pub credentials : Environment → CredSource → M W (E X j) OAuthCredentials
  unfolding require_online read_some
  credentials env source = do
    require_online env
    paths ← lift (elim source [
      | live_source ↦ live_paths j.Error host env
      | slot id ↦ slot_paths j.Error host env id
    ])
    creds ← read_some env paths.credentials no_live_login
    lift (from_doc j (parse_credentials j creds))
