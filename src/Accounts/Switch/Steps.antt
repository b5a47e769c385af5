-- ===== src/Accounts/Switch/Steps.antt =====
-- What `activate` has read before it writes.
use oxyris.Prelude.{◌≡◌, ◌∙◌, ap, refl, Text, some, Option, find, Result, ok, err}
use oxyris.Prelude.Int.{ℤ}
use oxyris.Core.{Environment}
use oxyris.Accounts.Json.{Json}
use oxyris.Accounts.Docs.{OAuthCredentials, AccountIdentity, parse_credentials, parse_identity}
use oxyris.Accounts.Machine.{Machine}
use oxyris.Accounts.Machine.Steps.{Ends, >>=-still}
use oxyris.Accounts.Machine.Files.{IsLawful, reads}
use oxyris.Accounts.Paths.{Host, DocPaths, live_paths, slot_paths}
use oxyris.Accounts.Registry.{
  AccountRecord, Serde, E, identity_in, is_record, read_registry, read_file,
}
use oxyris.Accounts.Save.Frame.{
  ok_inj, require_online-still, from_doc-eq-ok, ok_or-eq-ok, read_some-still, read_some-there,
}
use oxyris.Accounts.Switch.{switch_from, activate}

module _ {W X : Type 0} (j : Json) (serde_registry : Serde j.Error) (m : Machine W X)
    (host : Host X) where
  -- Everything that `activate` reads: the target's record and its slot, whose documents can be
  -- parsed, and the documents of the live login, if they exist.
  pub record Ready (env : Environment) (id : Text) (w : W) : Type 0 where
    pub target : AccountRecord
    pub stored : DocPaths
    pub slot_creds : Text
    pub slot_config : Text
    pub slot_login : OAuthCredentials
    pub slot_identity : AccountIdentity
    pub live : DocPaths
    pub live_creds : Option Text
    pub live_config : Option Text
    pub found : find (is_record env id) (read_registry j serde_registry m host w) ≡ some target
    pub stored_at : slot_paths j.Error host env id ≡ ok stored
    pub creds_there : reads j.Error m w env stored.credentials ≡ ok (some slot_creds)
    pub config_there : reads j.Error m w env stored.config ≡ ok (some slot_config)
    pub creds_parsed : parse_credentials j slot_creds ≡ ok slot_login
    pub config_parsed : parse_identity j slot_config ≡ ok slot_identity
    pub live_at : live_paths j.Error host env ≡ ok live
    pub live_creds_read : reads j.Error m w env live.credentials ≡ ok live_creds
    pub live_config_read : reads j.Error m w env live.config ≡ ok live_config

  module _ (lawful : IsLawful j.Error m) (new_id : Text) (now_ms : ℤ) where
    -- What `activate` does follows from what it does after its reads: before, it fails without a
    -- change or gets ready.
    pub activate-Ends :
        (Q : Result (E X j) (Unit {0}) → W → Type 0) (env : Environment) (id : Text) (w : W)
        → ((e : E X j) → Q (err e) w)
        → ((r : Ready env id w)
            → Ends Q (
                switch_from j serde_registry m host new_id now_ms
                  (identity_in j r.live_config)
                  env
                  r.live
                  r.live_creds
                  r.live_config
                  r.slot_creds
                  r.slot_config
                  r.target.identity
                  w))
        → Ends Q (activate j serde_registry m host new_id now_ms env id w)
    unfolding activate read_file
    activate-Ends Q env id w stop go =
        >>=-still Q _ _ w (require_online-still j serde_registry m host env w)
          (λ _ _.
            >>=-still Q _ _ w refl
              (λ reg is_reg.
                >>=-still Q _ _ w refl
                  (λ target found.
                    >>=-still Q _ _ w refl
                      (λ stored stored_at.
                        >>=-still Q _ _ w (read_some-still j serde_registry m host lawful env _ _ w)
                          (λ slot_creds creds_there.
                            >>=-still Q _ _ w
                              (read_some-still j serde_registry m host lawful env _ _ w)
                              (λ slot_config config_there.
                                >>=-still Q _ _ w refl
                                  (λ c creds_parsed.
                                    >>=-still Q _ _ w refl
                                      (λ i config_parsed.
                                        >>=-still Q _ _ w refl
                                          (λ live live_at.
                                            >>=-still Q _ _ w refl
                                              (λ live_creds live_creds_read.
                                                >>=-still Q _ _ w refl
                                                  (λ live_config live_config_read. go (record {
                                                    target = target;
                                                    stored = stored;
                                                    slot_creds = slot_creds;
                                                    slot_config = slot_config;
                                                    slot_login = c;
                                                    slot_identity = i;
                                                    live = live;
                                                    live_creds = live_creds;
                                                    live_config = live_config;
                                                    found =
                                                        ap (find (is_record env id)) (ok_inj is_reg)
                                                        ∙ ok_or-eq-ok _ _ found;
                                                    stored_at = stored_at;
                                                    creds_there =
                                                        read_some-there j serde_registry m host env
                                                          _ _ w creds_there;
                                                    config_there =
                                                        read_some-there j serde_registry m host env
                                                          _ _ w config_there;
                                                    creds_parsed =
                                                        from_doc-eq-ok {X = X} j _ creds_parsed;
                                                    config_parsed =
                                                        from_doc-eq-ok {X = X} j _ config_parsed;
                                                    live_at = live_at;
                                                    live_creds_read = live_creds_read;
                                                    live_config_read = live_config_read;
                                                  }))
                                                  stop)
                                              stop)
                                          stop)
                                      stop)
                                  stop)
                              stop)
                          stop)
                      stop)
                  stop)
              stop)
          stop
