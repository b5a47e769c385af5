-- ===== src/Accounts/Save/Stored.antt =====
-- `save_live` keeps the live login: it is in a slot, which its account's record names.
use oxyris.Prelude.{◌≡◌, ◌∙◌, refl, Text, false, none, some, Result, ok, err}
use oxyris.Core.{Environment, local}
use oxyris.Accounts.Json.{Json}
use oxyris.Accounts.Json as J
use oxyris.Accounts.Docs.{
  credentials_key, account_key, parse_credentials, parse_identity, swap_oauth_credentials,
  swap_oauth_account,
}
use oxyris.Accounts.Docs.Swap.{
  under_key, under_key-swap_oauth_credentials, under_key-swap_oauth_account, parse_credentials-swap,
  parse_identity-swap,
}
use oxyris.Accounts.Machine.{Machine}
use oxyris.Accounts.Machine.Steps.{Ends, OnOk, >>=-still, >>=-Ends}
use oxyris.Accounts.Machine.Files.{IsLawful, IsRoomy, is_file, is_temporary, reads}
use oxyris.Accounts.Machine.Writes.{Written, write_private-Roomy}
use oxyris.Accounts.Paths.{Host, DocPaths, slot_paths, registry_path}
use oxyris.Accounts.Registry.{Serde, E}
use oxyris.Accounts.Save.{snapshot_live_into}
use oxyris.Accounts.Save.Frame.{from_doc-eq-ok}

module _ {W X : Type 0} (j : Json) (serde_registry : Serde j.Error) (m : Machine W X)
    (host : Host X) where
  -- The documents of the slots of `env` are two files each, neither temporary nor the registry.
  pub record AreSlots (env : Environment) : Type 0 where
    pub kept :
        (id : Text) (stored : DocPaths)
        → slot_paths j.Error host env id ≡ ok stored
        → (is_temporary stored.credentials ≡ false) × (is_temporary stored.config ≡ false)
    pub registry_kept : is_temporary (registry_path j.Error host) ≡ false
    pub two :
        (id : Text) (stored : DocPaths)
        → slot_paths j.Error host env id ≡ ok stored
        → is_file env stored.config env stored.credentials ≡ false
    pub apart :
        (id : Text) (stored : DocPaths)
        → slot_paths j.Error host env id ≡ ok stored
        → (is_file local (registry_path j.Error host) env stored.credentials ≡ false)
          × (is_file local (registry_path j.Error host) env stored.config ≡ false)

  -- The slot `id` holds the account subtrees of the two documents, with all that is in them.
  pub record IsStored (env : Environment) (id creds config : Text) (w : W) : Type 0 where
    pub stored : DocPaths
    pub creds_doc : Text
    pub config_doc : Text
    pub stored_at : slot_paths j.Error host env id ≡ ok stored
    pub creds_there : reads j.Error m w env stored.credentials ≡ ok (some creds_doc)
    pub config_there : reads j.Error m w env stored.config ≡ ok (some config_doc)
    pub same_tokens : under_key j creds_doc credentials_key ≡ under_key j creds credentials_key
    pub same_account : under_key j config_doc account_key ≡ under_key j config account_key
    pub same_creds : parse_credentials j creds_doc ≡ parse_credentials j creds
    pub same_identity : parse_identity j config_doc ≡ parse_identity j config

  pub IsStored-same :
      (env : Environment) (id creds config : Text) (w w' : W) (s : IsStored env id creds config w)
      → reads j.Error m w' env s.stored.credentials ≡ reads j.Error m w env s.stored.credentials
      → reads j.Error m w' env s.stored.config ≡ reads j.Error m w env s.stored.config
      → IsStored env id creds config w'
  IsStored-same env id creds config w w' s h k = record {
    stored = s.stored;
    creds_doc = s.creds_doc;
    config_doc = s.config_doc;
    stored_at = s.stored_at;
    creds_there = h ∙ s.creds_there;
    config_there = k ∙ s.config_there;
    same_tokens = s.same_tokens;
    same_account = s.same_account;
    same_creds = s.same_creds;
    same_identity = s.same_identity;
  }

  module _ (json_lawful : J.IsLawful j) (lawful : IsLawful j.Error m) (env : Environment)
      (roomy : IsRoomy j.Error m env) (slots : AreSlots env) where
    abbrev First : DocPaths → Text → Result (E X j) (Unit {0}) → W → Type 0
    First stored c = OnOk λ w. reads j.Error m w env stored.credentials ≡ ok (some c)

    first :
        (w : W) (stored : DocPaths) (c : Text) (r : Result (E X j) (Unit {0}) × W)
        → Ends (Written j.Error m lawful w env stored.credentials c) r
        → Ends (First stored c) r
    first w stored c (ok u, w') h = h.0
    first w stored c (err e, w') h = tt

    second :
        (id creds config : Text) (w : W) (stored : DocPaths) (c d : Text)
        (r : Result (E X j) (Unit {0}) × W)
        → slot_paths j.Error host env id ≡ ok stored
        → swap_oauth_credentials j none creds ≡ ok c
        → swap_oauth_account j none config ≡ ok d
        → reads j.Error m w env stored.credentials ≡ ok (some c)
        → Ends (Written j.Error m lawful w env stored.config d) r
        → Ends (OnOk (IsStored env id creds config)) r
    second id creds config w stored c d (ok u, w') at h k there written = record {
      stored = stored;
      creds_doc = c;
      config_doc = d;
      stored_at = at;
      creds_there =
          written.1 env stored.credentials (slots.kept id stored at).0 (slots.two id stored at)
          ∙ there;
      config_there = written.0;
      same_tokens = under_key-swap_oauth_credentials j json_lawful none creds c h;
      same_account = under_key-swap_oauth_account j json_lawful none config d k;
      same_creds = parse_credentials-swap j json_lawful none creds c h;
      same_identity = parse_identity-swap j json_lawful none config d k;
    }
    second id creds config w stored c d (err e, w') at h k there written = tt

    pub snapshot-IsStored :
        (id creds config : Text) (w : W)
        → Ends
            (OnOk (IsStored env id creds config))
            (snapshot_live_into j serde_registry m host env id creds config w)
    unfolding snapshot_live_into
    snapshot-IsStored id creds config w =
        let Q : Result (E X j) (Unit {0}) → W → Type 0 = OnOk (IsStored env id creds config) in
        >>=-still Q _ _ w refl
          (λ stored at.
            >>=-still Q _ _ w refl
              (λ c h.
                >>=-Ends (First stored c) Q _ _ w
                  (first w stored c _ (
                    write_private-Roomy j.Error m lawful w env stored.credentials c roomy
                      (slots.kept id stored at).0))
                  (λ _ w1 there.
                    >>=-still Q _ _ w1 refl
                      (λ d k.
                        second id creds config w1 stored c d _ at (from_doc-eq-ok {X = X} j _ h)
                          (from_doc-eq-ok {X = X} j _ k) there
                          (write_private-Roomy j.Error m lawful w1 env stored.config d roomy
                            (slots.kept id stored at).1))
                      (λ _. tt))
                  (λ _ _ _. tt))
              (λ _. tt))
          (λ _. tt)
