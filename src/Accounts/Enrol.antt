-- ===== src/Accounts/Enrol.antt =====
-- `remove` and `login_new` of apps/desktop/src/infra/claude_accounts.rs: slots come and go.
use oxyris.Prelude.{
  Text, codes, Bool, true, false, not, ◌==◌, Option, none, some, [], ◌∷◌, ◌++◌, find, filter,
  length, Result, ok, err, eq_text, if◌then◌else◌,
}
use oxyris.Prelude.Int.{ℤ}
use oxyris.Core.{Environment, is_wsl}
use oxyris.Accounts.Json.{Json}
use oxyris.Accounts.Docs.{
  OAuthCredentials, AccountIdentity, Plan, plan, parse_credentials, parse_identity,
}
use oxyris.Accounts.Machine.{
  Machine, not_found, M, and_go, ◌>>=◌, ◌>>◌, lift, remove_path, write_private,
}
use oxyris.Accounts.Paths.{Host, slot_dir, slot_paths, join}
use oxyris.Accounts.Registry.{
  AccountRecord, Registry, Serde, E, ok_of, from_doc, is_record, is_login, put_first,
  require_online, read_registry, write_registry, read_file,
}

module _ {W X : Type 0} (j : Json) (serde_registry : Serde j.Error) (m : Machine W X)
    (host : Host X) where
  -- `retain`, and the comparison of the lengths
  unfoldable pub remove : Environment → Text → M W (E X j) (Unit {0})
  unfolding require_online write_registry
  remove env id = do
    require_online j serde_registry m host env
    reg ← (λ w. (ok (read_registry j serde_registry m host w), w))
    let kept = filter (λ a. not (is_record env id a)) reg
    (if length kept == length reg then lift (err not_found) else lift (ok tt))
    dir ← lift (slot_dir j.Error host env id)
    remove_path m env dir true
    write_registry j serde_registry m host kept

  module _ (new_id : Text) (now_ms : ℤ) where
    abbrev pub both_slots :
        {A : Type 0}
        → Option Text
        → Option Text
        → (Text → Text → M W (E X j) (Option A))
        → M W (E X j) (Option A)
    both_slots (some creds) (some config) f = f creds config
    both_slots _ _ f = lift (ok none)

    -- The account that a login console logged in: an account that is registered gets the new
    -- documents, another is registered with the slot `id`.
    unfoldable pub adopt_account :
        Environment
        → Text
        → Text
        → Text
        → Plan
        → AccountIdentity
        → Option AccountRecord
        → Registry
        → M W (E X j) (Option AccountRecord)
    unfolding write_registry
    adopt_account env id creds config p identity none reg =
        let r : AccountRecord = record {
          id = id;
          environment = env;
          identity = identity;
          plan = p;
          added_at_ms = now_ms;
        } in
        (do write_registry j serde_registry m host (reg ++ r ∷ []); lift (ok (some r)))
    adopt_account env id creds config p identity (some a) reg =
        let r : AccountRecord = record a { plan = p; identity = identity } in
        (do
          paths ← lift (slot_paths j.Error host env a.id)
          write_private m env paths.credentials creds
          write_private m env paths.config config
          write_registry j serde_registry m host (put_first (is_login env identity) r reg)
          lift (ok (some r)))

    -- Credentials that cannot be parsed are no login.
    unfoldable pub adopt_parsed :
        Environment
        → Text
        → Text
        → Text
        → Option OAuthCredentials
        → M W (E X j) (Option AccountRecord)
    unfolding adopt_account
    adopt_parsed env id creds config none = lift (ok none)
    adopt_parsed env id creds config (some c) = do
      identity ← lift (from_doc j (parse_identity j config))
      reg ← (λ w. (ok (read_registry j serde_registry m host w), w))
      adopt_account env id creds config (plan c) identity (find (is_login env identity) reg) reg

    unfoldable pub adopt_login_slot : Environment → Text → M W (E X j) (Option AccountRecord)
    unfolding adopt_parsed
    adopt_login_slot env id = do
      paths ← lift (slot_paths j.Error host env id)
      creds ← read_file j serde_registry m host env paths.credentials
      config ← read_file j serde_registry m host env paths.config
      both_slots creds config
          λ creds config. adopt_parsed env id creds config (ok_of (parse_credentials j creds))

    -- Whether the answer is a record with the slot's own id
    abbrev pub adopted : Text → Result (E X j) (Option AccountRecord) → Bool
    adopted id (ok (some r)) = eq_text r.id id
    adopted id _ = false

    abbrev pub clean_up :
        Environment
        → Text
        → Text
        → Result (E X j) (Option AccountRecord) × W
        → Result (E X j) (Option AccountRecord) × W
    clean_up env id dir (outcome, w) =
        if adopted id outcome
        then (outcome, w)
        else (outcome, (remove_path {J = j.Error} m env dir true w).1)

    -- `console` is `spawn_login_console`: what the user and the CLI do to the slot directory.
    unfoldable pub login_new :
        (Environment → Text → M W (E X j) (Unit {0}))
        → Environment
        → M W (E X j) (Option AccountRecord)
    unfolding require_online adopt_login_slot
    login_new console env = do
      require_online j serde_registry m host env
      dir ← lift (slot_dir j.Error host env new_id)
      write_private m env (join j.Error host dir (codes ".oxyris-slot") (is_wsl env)) []
      (λ w. clean_up env new_id dir (and_go (console env dir w) (λ _. adopt_login_slot env new_id)))
