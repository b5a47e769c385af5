-- ===== src/Accounts/Switch/Preserved.antt =====
-- A switch keeps the login that it replaces.
use oxyris.Prelude.{
  ◌≡◌, ◌∙◌, ap, sym, subst, refl, Text, false, some, Option, find, Result, ok, err, ◌⊎◌, inl, inr,
  Bool-cases,
}
use oxyris.Prelude.Int.{ℤ}
use oxyris.Core.{Environment, local}
use oxyris.Accounts.Json.{Json}
use oxyris.Accounts.Json as J
use oxyris.Accounts.Docs.{AccountIdentity, same_account}
use oxyris.Accounts.Machine.{Machine, lift, read}
use oxyris.Accounts.Machine.Steps.{Ends, OnOk, OnOk-mono, >>=-Ends, >>=-Kept}
use oxyris.Accounts.Machine.Files.{IsLawful, IsRoomy, is_file, is_temporary, reads}
use oxyris.Accounts.Paths.{Host, DocPaths, registry_path}
use oxyris.Accounts.Registry.{Serde, E, is_login, identity_in}
use oxyris.Accounts.Save.{save_live_locked}
use oxyris.Accounts.Save.Frame.{ok_inj, write_private-other}
use oxyris.Accounts.Save.Registered.{IsFaithful, is_file_swap, read_registry-same}
use oxyris.Accounts.Save.Stored.{AreSlots, IsStored-same}
use oxyris.Accounts.Save.Saved.{Login, Login-same, IsSaved, save_live_locked-found}
use oxyris.Accounts.Switch.{verified, after_config, overwrite, preserve, switch_from, activate}
use oxyris.Accounts.Switch.Steps.{activate-Ends}
use oxyris.Accounts.Switch.Rollback.{IsLive, restore-other}

module _ {W X : Type 0} (j : Json) (serde_registry : Serde j.Error) (m : Machine W X)
    (host : Host X) (lawful : IsLawful j.Error m) where
  module _ (env : Environment) (live : DocPaths) (env' : Environment) (path' : Text)
      (kept : is_temporary path' ≡ false)
      (no_creds : is_file env live.credentials env' path' ≡ false)
      (no_config : is_file env live.config env' path' ≡ false) where
    abbrev Same : W → W → Type 0
    Same w w' = reads j.Error m w' env' path' ≡ reads j.Error m w env' path'

    after_config-other :
        (live_creds live_config : Option Text) (target : AccountIdentity) (w : W)
        (r : Result (E X j) (Unit {0}) × W)
        → Same w r.1
        → Same w (after_config j serde_registry m host env live live_creds live_config target r).1
    after_config-other live_creds live_config target w (err e, w') h =
        restore-other j serde_registry m host lawful env live.credentials live_creds w' env' path'
          kept no_creds
        ∙ h
    after_config-other live_creds live_config target w (ok u, w') h =
        elim (Bool-cases (verified j serde_registry m host (read m w' env live.config) target)) [
          | inl e ↦ rw e h
          | inr e ↦ rw e (
              restore-other j serde_registry m host lawful env live.config live_config _ env' path'
                kept no_config
              ∙ restore-other j serde_registry m host lawful env live.credentials live_creds w' env'
                  path' kept no_creds
              ∙ h)
        ]

    pub overwrite-other :
        (live_creds live_config : Option Text) (slot_creds slot_config : Text)
        (target : AccountIdentity) (w : W)
        → Same w
            (overwrite j serde_registry m host env live live_creds live_config slot_creds
              slot_config target w).1
    unfolding overwrite
    overwrite-other live_creds live_config slot_creds slot_config target w =
        >>=-Kept (Same w) _ _ w refl λ creds w1 h1. >>=-Kept (Same w) _ _ w1 h1 λ config w2 h2.
          >>=-Kept (Same w) _ _ w2
            (write_private-other j serde_registry m host lawful env live.credentials creds env'
                path' w2 kept no_creds
              ∙ h2)
            λ _ w3 h3. after_config-other live_creds live_config target w _ (
              write_private-other j serde_registry m host lawful env live.config config env' path'
                w3 kept no_config
              ∙ h3)

module _ {W X : Type 0} (j : Json) (json_lawful : J.IsLawful j) (serde_registry : Serde j.Error)
    (m : Machine W X) (host : Host X) (lawful : IsLawful j.Error m)
    (faithful : IsFaithful serde_registry) where
  module _ (env : Environment) (roomy : IsRoomy j.Error m env)
      (slots : AreSlots j serde_registry m host env) where
    overwrite-IsSaved :
        (live : DocPaths) (is_live : IsLive j serde_registry m host lawful env live)
        (live_creds live_config : Option Text) (slot_creds slot_config : Text)
        (target : AccountIdentity) (creds config : Text) (identity : AccountIdentity) (w : W)
        → IsSaved j serde_registry m host env creds config identity w
        → IsSaved j serde_registry m host env creds config identity
            (overwrite j serde_registry m host env live live_creds live_config slot_creds
              slot_config target w).1
    overwrite-IsSaved live is_live live_creds live_config slot_creds slot_config target creds config
          identity w s =
        let c = is_live.creds_apart in
        let d = is_live.config_apart in
        let at = s.stored.stored_at in
        let id = s.account.id in
        let stored = s.stored.stored in
        let other =
          λ (env' : Environment) (path' : Text) (kept : is_temporary path' ≡ false)
              (no_creds : is_file env live.credentials env' path' ≡ false)
              (no_config : is_file env live.config env' path' ≡ false).
            overwrite-other j serde_registry m host lawful env live env' path' kept no_creds
              no_config live_creds live_config slot_creds slot_config target w in
        record {
          account = s.account;
          registered =
              ap (find (is_login env identity)) (
                read_registry-same j serde_registry m host w _ (
                  other local (registry_path j.Error host) slots.registry_kept
                    (is_file_swap local env _ _ c.registry)
                    (is_file_swap local env _ _ d.registry)))
              ∙ s.registered;
          stored =
              IsStored-same j serde_registry m host env id creds config w _ s.stored
                (other env stored.credentials (slots.kept id stored at).0
                  (is_file_swap env env _ _ (c.slots id stored at).0)
                  (is_file_swap env env _ _ (d.slots id stored at).0))
                (other env stored.config (slots.kept id stored at).1
                  (is_file_swap env env _ _ (c.slots id stored at).1)
                  (is_file_swap env env _ _ (d.slots id stored at).1));
        }

    module _ (new_id : Text) (now_ms : ℤ) (w : W) (l : Login j serde_registry m host env w) where
      abbrev Kept : W → Type 0
      Kept = IsSaved j serde_registry m host env l.creds l.config l.identity

      preserved :
          Ends (OnOk Kept) (preserve j serde_registry m host new_id now_ms env (some l.creds) w)
      unfolding preserve
      preserved =
          let saved =
            >>=-Ends (OnOk Kept) (OnOk Kept)
              (save_live_locked j serde_registry m host new_id now_ms env) (λ _. lift (ok tt)) w
              (OnOk-mono _ Kept _
                (λ w1 h.
                  Login-same j serde_registry m host
                    (λ c d i. IsSaved j serde_registry m host env c d i w1) env w h.0 l h.1.0)
                (save_live_locked-found j serde_registry m host json_lawful lawful faithful env
                  roomy slots new_id now_ms w))
              (λ _ w1 h. h) (λ _ _ _. tt) in
          rw (preserve, l.creds_parsed) saved

      on_Kept :
          (r : Result (E X j) (Unit {0}) × W) → Kept r.1 → Ends (OnOk λ w'. (w' ≡ w) ⊎ Kept w') r
      on_Kept (ok u, w') h = inr h
      on_Kept (err e, w') h = tt

      switch-preserved :
          (live : DocPaths) (live_config : Option Text) (slot_creds slot_config : Text)
          (target : AccountIdentity)
          → IsLive j serde_registry m host lawful env live
          → Ends (OnOk λ w'. (w' ≡ w) ⊎ Kept w') (
              switch_from j serde_registry m host new_id now_ms
                (some l.identity)
                env
                live
                (some l.creds)
                live_config
                slot_creds
                slot_config
                target
                w)
      unfolding switch_from
      switch-preserved live live_config slot_creds slot_config target is_live =
          let switched =
            >>=-Ends (OnOk Kept) (OnOk λ w'. (w' ≡ w) ⊎ Kept w')
              (preserve j serde_registry m host new_id now_ms env (some l.creds))
              (λ _.
                overwrite j serde_registry m host env live (some l.creds) live_config slot_creds
                  slot_config target)
              w preserved
              (λ _ w1 s. on_Kept _ (
                overwrite-IsSaved live is_live (some l.creds) live_config slot_creds slot_config
                  target l.creds l.config l.identity w1 s))
              (λ _ _ _. tt) in
          elim (Bool-cases (same_account l.identity target)) [
            | inl e ↦ rw (switch_from, e) (inl refl)
            | inr e ↦ rw (switch_from, e) switched
          ]

      -- Where both documents of the live login can be parsed, a switch that succeeds changes
      -- nothing, or a slot has afterwards what these documents held under their account keys at the
      -- time of the switch, the refresh token and all else that is there included, and the registry
      -- has the record of the account with that slot. The live documents, those of the slots and
      -- the registry are files of their own, a registry that is written reads back, and the machine
      -- takes no document that is too long to be read back.
      pub activate-preserved :
          (id : Text)
          → IsLive j serde_registry m host lawful env l.live
          → Ends
              (OnOk λ w'. (w' ≡ w) ⊎ Kept w')
              (activate j serde_registry m host new_id now_ms env id w)
      activate-preserved id is_live =
          activate-Ends j serde_registry m host lawful new_id now_ms (OnOk λ w'. (w' ≡ w) ⊎ Kept w')
            env id w (λ _. tt)
            λ r.
              let live : l.live ≡ r.live = ok_inj (sym l.live_at ∙ r.live_at) in
              let creds : some l.creds ≡ r.live_creds = ok_inj (
                sym l.creds_there
                ∙ ap (λ (d : DocPaths). reads j.Error m w env d.credentials) live
                ∙ r.live_creds_read) in
              let config : some l.config ≡ r.live_config = ok_inj (
                sym l.config_there
                ∙ ap (λ (d : DocPaths). reads j.Error m w env d.config) live
                ∙ r.live_config_read) in
              let current : some l.identity ≡ identity_in j r.live_config =
                rw (← config) (rw l.identity_parsed refl) in
              subst
                (λ d. Ends (OnOk λ w'. (w' ≡ w) ⊎ Kept w') (
                  switch_from j serde_registry m host new_id now_ms (identity_in j r.live_config)
                    env d r.live_creds r.live_config r.slot_creds r.slot_config r.target.identity
                    w))
                live
                (subst
                  (λ c. Ends (OnOk λ w'. (w' ≡ w) ⊎ Kept w') (
                    switch_from j serde_registry m host new_id now_ms (identity_in j r.live_config)
                      env l.live c r.live_config r.slot_creds r.slot_config r.target.identity w))
                  creds
                  (subst
                    (λ i. Ends (OnOk λ w'. (w' ≡ w) ⊎ Kept w') (
                      switch_from j serde_registry m host new_id now_ms i env l.live (some l.creds)
                        r.live_config r.slot_creds r.slot_config r.target.identity w))
                    current
                    (switch-preserved l.live r.live_config r.slot_creds r.slot_config
                      r.target.identity is_live)))
