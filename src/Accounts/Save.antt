-- ===== src/Accounts/Save.antt =====
-- `save_live` of apps/desktop/src/infra/claude_accounts.rs: the live login goes to a slot.
pub mod Frame
pub mod Registered
pub mod Stored
pub mod Saved
pub mod Unique
use oxyris.Prelude.{
  ℕ, Text, codes, Bool, true, false, not, ◌==◌, ◌&&◌, ltb, Option, none, some, List, [], ◌∷◌, ◌++◌,
  find, filter, any, length, Result, ok, err, ok_or, is_some, and_then, eq_text, if◌then◌else◌,
}
use oxyris.Prelude.Int.{ℤ}
use oxyris.Core.{Environment, local, wsl, is_wsl}
use oxyris.Accounts.Json.{Json}
use oxyris.Accounts.Docs.{
  AccountDocError, missing, OAuthCredentials, AccountIdentity, same_account, Plan, plan,
  parse_credentials, parse_identity, swap_oauth_credentials, swap_oauth_account,
}
use oxyris.Accounts.Machine.{
  Machine, AccountsError, io, doc, serde, not_found, no_live_login, verify_failed, wsl_offline,
  eq_env, M, and_go, ◌>>=◌, ◌>>◌, lift, on_machine, read, remove_path, write_private,
}
use oxyris.Accounts.Paths.{Host, DocPaths, live_paths, slot_dir, slot_paths, registry_path, join}
use oxyris.Accounts.Registry.{
  AccountRecord, Registry, Serde, E, ok_of, from_doc, from_serde, identity_in, credentials_in,
  is_record, is_login, put_first, require_online, read_registry, write_registry, read_file,
  read_some,
}

-- The record of a login; `new_id` is `Uuid::now_v7`, and `now_ms` the time: of the account that is registered, or a new one.
abbrev pub record_of :
    Text → ℤ → Environment → AccountIdentity → Plan → Option AccountRecord → AccountRecord
record_of new_id now_ms env identity p none = record {
  id = new_id;
  environment = env;
  identity = identity;
  plan = p;
  added_at_ms = now_ms;
}
record_of new_id now_ms env identity p (some a) = record {
  id = a.id;
  environment = env;
  identity = identity;
  plan = p;
  added_at_ms = a.added_at_ms;
}

module _ {W X : Type 0} (j : Json) (serde_registry : Serde j.Error) (m : Machine W X)
    (host : Host X) where
  unfoldable pub snapshot_live_into : Environment → Text → Text → Text → M W (E X j) (Unit {0})
  snapshot_live_into env id live_creds live_config = do
    paths ← lift (slot_paths j.Error host env id)
    creds ← lift (from_doc j (swap_oauth_credentials j none live_creds))
    write_private m env paths.credentials creds
    config ← lift (from_doc j (swap_oauth_account j none live_config))
    write_private m env paths.config config

  module _ (new_id : Text) (now_ms : ℤ) where
    unfoldable pub save_live_locked : Environment → M W (E X j) AccountRecord
    unfolding read_some snapshot_live_into write_registry
    save_live_locked env = do
      paths ← lift (live_paths j.Error host env)
      creds ← read_some j serde_registry m host env paths.credentials no_live_login
      config ← read_some j serde_registry m host env paths.config no_live_login
      identity ← lift (from_doc j (parse_identity j config))
      c ← lift (from_doc j (parse_credentials j creds))
      reg ← (λ w. (ok (read_registry j serde_registry m host w), w))
      let r = record_of new_id now_ms env identity (plan c) (find (is_login env identity) reg)
      snapshot_live_into env r.id creds config
      write_registry j serde_registry m host (put_first (is_login env identity) r reg)
      lift (ok r)

    unfoldable pub save_live : Environment → M W (E X j) AccountRecord
    unfolding require_online save_live_locked
    save_live env = do require_online j serde_registry m host env; save_live_locked env
