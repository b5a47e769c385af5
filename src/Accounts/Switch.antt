-- ===== src/Accounts/Switch.antt =====
-- `activate` of apps/desktop/src/infra/claude_accounts.rs: a slot becomes the live login.
pub mod Steps
pub mod Rollback
pub mod Outcome
pub mod Preserved
use oxyris.Prelude.{
  ℕ, Text, codes, Bool, true, false, not, ◌==◌, ◌&&◌, ltb, Option, none, some, List, [], ◌∷◌, ◌++◌,
  find, filter, any, length, Result, ok, err, ok_or, is_some, and_then, eq_text, if◌then◌else◌,
}
use oxyris.Prelude.Int.{ℤ}
use oxyris.Core.{Environment, local, wsl, is_wsl}
use oxyris.Accounts.Json.{Json}
use oxyris.Accounts.Docs.{
  AccountDocError, missing, OAuthCredentials, AccountIdentity, same_account, Plan, plan,
  parse_credentials, parse_identity, swap_oauth_credentials, swap_oauth_account,
}
use oxyris.Accounts.Machine.{
  Machine, AccountsError, io, doc, serde, not_found, no_live_login, verify_failed, wsl_offline,
  eq_env, M, and_go, ◌>>=◌, ◌>>◌, lift, on_machine, read, remove_path, write_private,
}
use oxyris.Accounts.Paths.{Host, DocPaths, live_paths, slot_dir, slot_paths, registry_path, join}
use oxyris.Accounts.Registry.{
  AccountRecord, Registry, Serde, E, ok_of, from_doc, from_serde, identity_in, credentials_in,
  is_record, is_login, put_first, require_online, read_registry, write_registry, read_file,
  read_some,
}
use oxyris.Accounts.Save.{save_live_locked}

module _ {W X : Type 0} (j : Json) (serde_registry : Serde j.Error) (m : Machine W X)
    (host : Host X) where
  -- The match in `restore`, with its result
  unfoldable pub restoring : Environment → Text → Option Text → M W (E X j) (Unit {0})
  restoring env path (some text) = write_private m env path text
  restoring env path none = remove_path m env path false

  -- An error is only logged.
  unfoldable pub restore : Environment → Text → Option Text → W → W
  unfolding restoring
  restore env path original w = (restoring env path original w).1

  -- The document read back shows the target's account.
  unfoldable pub verified : Result (E X j) (Option Text) → AccountIdentity → Bool
  verified (err e) target = false
  verified (ok config) target = elim (identity_in j config) [
    | none ↦ false
    | some identity ↦ same_account identity target
  ]

  -- After the second write: roll back an error, else read back and compare, or roll both back.
  abbrev pub after_config :
      Environment
      → DocPaths
      → Option Text
      → Option Text
      → AccountIdentity
      → Result (E X j) (Unit {0}) × W
      → Result (E X j) (Unit {0}) × W
  after_config env paths live_creds live_config target (err e, w) =
      (err e, restore env paths.credentials live_creds w)
  after_config env paths live_creds live_config target (ok _, w) =
      if verified (read m w env paths.config) target then (ok tt, w) else (
        err (verify_failed target.email),
        restore env paths.config live_config (restore env paths.credentials live_creds w),
      )

  -- The part of `activate` that overwrites the live login.
  unfoldable pub overwrite :
      Environment
      → DocPaths
      → Option Text
      → Option Text
      → Text
      → Text
      → AccountIdentity
      → M W (E X j) (Unit {0})
  unfolding restore verified
  overwrite env paths live_creds live_config slot_creds slot_config target = do
    creds ← lift (from_doc j (swap_oauth_credentials j live_creds slot_creds))
    config ← lift (from_doc j (swap_oauth_account j live_config slot_config))
    write_private m env paths.credentials creds
    (λ w.
        after_config env paths live_creds live_config target
          (write_private m env paths.config config w))

  module _ (new_id : Text) (now_ms : ℤ) where
    -- The outgoing login is saved, if its identity and its credentials can be read.
    unfoldable pub preserve : Environment → Option Text → M W (E X j) (Unit {0})
    unfolding save_live_locked
    preserve env live_creds = elim (credentials_in j live_creds) [
      | none ↦ lift (ok tt)
      | some c ↦ (do save_live_locked j serde_registry m host new_id now_ms env; lift (ok tt))
    ]

    -- The part of `activate` after the reads.
    unfoldable pub switch_from :
        Option AccountIdentity
        → Environment
        → DocPaths
        → Option Text
        → Option Text
        → Text
        → Text
        → AccountIdentity
        → M W (E X j) (Unit {0})
    unfolding overwrite preserve
    switch_from none env paths live_creds live_config slot_creds slot_config target =
        overwrite env paths live_creds live_config slot_creds slot_config target
    switch_from (some current) env paths live_creds live_config slot_creds slot_config target =
        if same_account current target then lift (ok tt) else (do
          preserve env live_creds
          overwrite env paths live_creds live_config slot_creds slot_config target)

    unfoldable pub activate : Environment → Text → M W (E X j) (Unit {0})
    unfolding require_online switch_from
    activate env id = do
      require_online j serde_registry m host env
      reg ← (λ w. (ok (read_registry j serde_registry m host w), w))
      target ← lift (ok_or (find (is_record env id) reg) not_found)
      stored ← lift (slot_paths j.Error host env id)
      slot_creds ← read_some j serde_registry m host env stored.credentials not_found
      slot_config ← read_some j serde_registry m host env stored.config not_found
      lift (from_doc j (parse_credentials j slot_creds))
      lift (from_doc j (parse_identity j slot_config))
      paths ← lift (live_paths j.Error host env)
      live_creds ← read_file j serde_registry m host env paths.credentials
      live_config ← read_file j serde_registry m host env paths.config
      switch_from (identity_in j live_config) env paths live_creds live_config slot_creds
          slot_config target.identity
