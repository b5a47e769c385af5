-- ===== src/Accounts/Switch/Outcome.antt =====
-- What a switch that succeeds leaves.
use oxyris.Prelude.{
  ◌≡◌, ◌∙◌, ap, sym, refl, Text, true, none, some, Option, Result, ok, err, Bool-cases, inl, inr,
  ◌⊎◌,
}
use oxyris.Prelude.Int.{ℤ}
use oxyris.Core.{Environment}
use oxyris.Accounts.Json.{Json}
use oxyris.Accounts.Json as J
use oxyris.Accounts.Docs.{
  AccountDocError, AccountIdentity, same_account, credentials_key, account_key, parse_credentials,
  parse_identity, swap_oauth_credentials, swap_oauth_account,
}
use oxyris.Accounts.Docs.Swap.{KeepsOthers, swap-reads}
use oxyris.Accounts.Machine.{Machine, read}
use oxyris.Accounts.Machine.Steps.{Ends, OnOk, OnOk-mono, >>=-still, >>=-Ends}
use oxyris.Accounts.Machine.Files.{IsLawful, IsRoomy, reads}
use oxyris.Accounts.Machine.Writes.{Written, write_private-Roomy}
use oxyris.Accounts.Paths.{Host, DocPaths, live_paths}
use oxyris.Accounts.Registry.{Serde, E, identity_in}
use oxyris.Accounts.Switch.{verified, after_config, overwrite, preserve, switch_from, activate}
use oxyris.Accounts.Switch.Steps.{Ready, activate-Ends}
use oxyris.Accounts.Save.Frame.{from_doc-eq-ok}
use oxyris.Accounts.Switch.Rollback.{IsLive}

module _ {W X : Type 0} (j : Json) (json_lawful : J.IsLawful j) (serde_registry : Serde j.Error)
    (m : Machine W X) (host : Host X) (lawful : IsLawful j.Error m) where
  -- The document shows the target's account.
  abbrev Shows : Text → AccountIdentity → Type 0
  Shows config target =
      (identity : AccountIdentity) × (parse_identity j config ≡ ok identity)
      × (same_account identity target ≡ true)

  shown :
      (config : Text) (target : AccountIdentity)
      (r : Result (AccountDocError j.Error) AccountIdentity)
      → parse_identity j config ≡ r
      → verified j serde_registry m host (ok (some config)) target ≡ true
      → Shows config target
  unfolding verified
  shown config target (ok identity) h k = (identity, h, rw (verified, h) at k)
  shown config target (err e) h k = absurd (cc (rw (verified, h) at k))

  module _ (env : Environment) (live : DocPaths) where
    -- The live documents are those of the slot, with what the old ones hold beside the login, and
    -- show the target's account.
    pub record IsSwitched (live_creds live_config : Option Text) (slot_creds slot_config : Text)
        (target : AccountIdentity) (w : W) : Type 0 where
      pub creds : Text
      pub config : Text
      pub creds_now : reads j.Error m w env live.credentials ≡ ok (some creds)
      pub config_now : reads j.Error m w env live.config ≡ ok (some config)
      pub same_creds : parse_credentials j creds ≡ parse_credentials j slot_creds
      pub same_identity : parse_identity j config ≡ parse_identity j slot_config
      pub shows : Shows config target
      pub creds_kept : KeepsOthers j json_lawful live_creds credentials_key creds
      pub config_kept : KeepsOthers j json_lawful live_config account_key config

    module _ (roomy : IsRoomy j.Error m env)
        (is_live : IsLive j serde_registry m host lawful env live)
        (live_creds live_config : Option Text) (slot_creds slot_config : Text)
        (target : AccountIdentity) where
      checked :
          (creds config : Text) (w : W) (r : Result (E X j) (Unit {0}) × W)
          → swap_oauth_credentials j live_creds slot_creds ≡ ok creds
          → swap_oauth_account j live_config slot_config ≡ ok config
          → reads j.Error m w env live.credentials ≡ ok (some creds)
          → Ends (Written j.Error m lawful w env live.config config) r
          → Ends
              (OnOk (IsSwitched live_creds live_config slot_creds slot_config target))
              (after_config j serde_registry m host env live live_creds live_config target r)
      checked creds config w (err e, w') h k there written = tt
      checked creds config w (ok u, w') h k there written =
          let swapped =
            swap-reads j json_lawful live_creds live_config slot_creds slot_config creds config h
              k in
          elim (Bool-cases (verified j serde_registry m host (read m w' env live.config) target)) [
            | inr failed ↦ rw failed tt
            | inl fine ↦ rw fine (record {
              creds = creds;
              config = config;
              creds_now =
                  written.1 env live.credentials is_live.creds_apart.kept is_live.two' ∙ there;
              config_now = written.0;
              same_creds = swapped.0;
              same_identity = swapped.1;
              shows =
                  shown config target _ refl
                    (ap (λ c. verified j serde_registry m host c target) (sym written.0) ∙ fine);
              creds_kept = swapped.2;
              config_kept = swapped.3;
            })
          ]

      overwrite-IsSwitched :
          (w : W)
          → Ends (OnOk (IsSwitched live_creds live_config slot_creds slot_config target)) (
              overwrite j serde_registry m host env live live_creds live_config slot_creds
                slot_config target w)
      unfolding overwrite
      overwrite-IsSwitched w =
          let Q : Result (E X j) (Unit {0}) → W → Type 0 =
            OnOk (IsSwitched live_creds live_config slot_creds slot_config target) in
          >>=-still Q _ _ w refl
            (λ creds h.
              >>=-still Q _ _ w refl
                (λ config k.
                  >>=-Ends (Written j.Error m lawful w env live.credentials creds) Q _ _ w
                    (write_private-Roomy j.Error m lawful w env live.credentials creds roomy
                      is_live.creds_apart.kept)
                    (λ _ w1 written.
                      checked creds config w1 _ (from_doc-eq-ok {X = X} j _ h)
                        (from_doc-eq-ok {X = X} j _ k) written.0
                        (write_private-Roomy j.Error m lawful w1 env live.config config roomy
                          is_live.config_apart.kept))
                    (λ _ w1 _. tt))
                (λ _. tt))
            (λ _. tt)

  -- Nothing has changed, and the live config shows the target's account; or the switch is done.
  abbrev pub Outcome :
      (env : Environment) (id : Text) (w : W) → Ready j serde_registry m host env id w → W → Type 0
  Outcome env id w r w' =
      ((w' ≡ w)
        × (current : AccountIdentity) × (identity_in j r.live_config ≡ some current)
        × (same_account current r.target.identity ≡ true))
      ⊎ IsSwitched env r.live r.live_creds r.live_config r.slot_creds r.slot_config
          r.target.identity w'

  module _ (new_id : Text) (now_ms : ℤ) (env : Environment) (id : Text) (w : W)
      (roomy : IsRoomy j.Error m env) where
    switch-switched :
        (r : Ready j serde_registry m host env id w) (current : Option AccountIdentity)
        → IsLive j serde_registry m host lawful env r.live
        → identity_in j r.live_config ≡ current
        → Ends (OnOk (Outcome env id w r)) (
            switch_from j serde_registry m host new_id now_ms current env r.live r.live_creds
              r.live_config r.slot_creds r.slot_config r.target.identity w)
    unfolding switch_from
    switch-switched r current is_live = by_current current
      where
        done :
            (w1 : W)
            → Ends (OnOk (Outcome env id w r)) (
                overwrite j serde_registry m host env r.live r.live_creds r.live_config r.slot_creds
                  r.slot_config r.target.identity w1)
        done w1 =
            OnOk-mono
              (IsSwitched env r.live r.live_creds r.live_config r.slot_creds r.slot_config
                r.target.identity)
              (Outcome env id w r) _ (λ _ h. inr h)
              (overwrite-IsSwitched env r.live roomy is_live r.live_creds r.live_config r.slot_creds
                r.slot_config r.target.identity w1)

        by_current :
            (current : Option AccountIdentity)
            → identity_in j r.live_config ≡ current
            → Ends (OnOk (Outcome env id w r)) (
                switch_from j serde_registry m host new_id now_ms current env r.live r.live_creds
                  r.live_config r.slot_creds r.slot_config r.target.identity w)
        by_current none h = done w
        by_current (some current) h =
            let switched =
              >>=-Ends (λ _ _. Unit {0}) (OnOk (Outcome env id w r))
                (preserve j serde_registry m host new_id now_ms env r.live_creds)
                (λ _.
                  overwrite j serde_registry m host env r.live r.live_creds r.live_config
                    r.slot_creds r.slot_config r.target.identity)
                w tt (λ _ w1 _. done w1) (λ _ _ _. tt) in
            elim (Bool-cases (same_account current r.target.identity)) [
              | inl e ↦ rw (switch_from, e) (inl (refl, current, h, e))
              | inr e ↦ rw (switch_from, e) switched
            ]

    -- A switch that succeeds changes nothing, where the live config shows the target's account
    -- already, whatever the live credentials hold, or leaves live documents that read as the slot's
    -- login and show the target's account, with every other key of the live documents kept. The
    -- two live documents are two files apart from the slots and the registry, and the machine takes
    -- no document that is too long to be read back.
    pub activate-switched :
        ((live : DocPaths)
          → live_paths j.Error host env ≡ ok live
          → IsLive j serde_registry m host lawful env live)
        → Ends
            (OnOk λ w'. (r : Ready j serde_registry m host env id w) × Outcome env id w r w')
            (activate j serde_registry m host new_id now_ms env id w)
    activate-switched is_live =
        let Q : W → Type 0 =
          λ w'. (r : Ready j serde_registry m host env id w) × Outcome env id w r w' in
        activate-Ends j serde_registry m host lawful new_id now_ms (OnOk Q) env id w (λ _. tt)
          λ r.
            OnOk-mono (Outcome env id w r) Q _ (λ _ h. (r, h))
              (switch-switched r (identity_in j r.live_config) (is_live r.live r.live_at) refl)
