-- ===== src/Accounts/Unique/Switch.antt =====
-- Saving the live login and switching accounts keep the registry free of doubles.
use oxyris.Prelude.{
  ◌≡◌, subst, refl, Text, false, none, some, Option, find, option_cases, Result, ok, Bool-cases,
  inl, inr,
}
use oxyris.Prelude.Int.{ℤ}
use oxyris.Core.{Environment, local}
use oxyris.Accounts.Json.{Json}
use oxyris.Accounts.Docs.{AccountIdentity, plan, same_account}
use oxyris.Accounts.Machine.{Machine, lift}
use oxyris.Accounts.Machine.Steps.{Ends, >>=-still, >>=-Ends}
use oxyris.Accounts.Machine.Files.{IsLawful, is_temporary}
use oxyris.Accounts.Paths.{Host, DocPaths, live_paths, registry_path}
use oxyris.Accounts.Registry.{Serde, E, is_login, put_first, credentials_in}
use oxyris.Accounts.Save.{record_of, snapshot_live_into, save_live_locked, save_live}
use oxyris.Accounts.Save.Unique.{IsUnique, put_first-IsUnique}
use oxyris.Accounts.Save.Frame.{ok_inj, require_online-still, read_some-still}
use oxyris.Accounts.Save.Registered.{IsFaithful, is_file_swap}
use oxyris.Accounts.Save.Stored.{AreSlots}
use oxyris.Accounts.Save.Saved.{record_of-is_login}
use oxyris.Accounts.Switch.{overwrite, preserve, switch_from, activate}
use oxyris.Accounts.Switch.Steps.{activate-Ends}
use oxyris.Accounts.Switch.Rollback.{IsLive}
use oxyris.Accounts.Switch.Preserved.{overwrite-other}
use oxyris.Accounts.Unique.{Unique, same_registry, write_registry-Unique, slot-Unique}

module _ {W X : Type 0} (j : Json) (serde_registry : Serde j.Error) (m : Machine W X)
    (host : Host X) (lawful : IsLawful j.Error m) (faithful : IsFaithful serde_registry)
    (kept : is_temporary (registry_path j.Error host) ≡ false) where
  abbrev One : W → Type 0
  One = Unique j serde_registry m host lawful faithful kept

  module _ (env : Environment) (slots : AreSlots j serde_registry m host env) where
    abbrev U : {A : Type 0} → Result (E X j) A → W → Type 0
    U r w = One w

    snapshot-Unique :
        (id creds config : Text) (w : W)
        → One w
        → Ends U (snapshot_live_into j serde_registry m host env id creds config w)
    unfolding snapshot_live_into
    snapshot-Unique id creds config w unique =
        >>=-still U _ _ w refl
          (λ stored at.
            >>=-still U _ _ w refl
              (λ c _.
                >>=-Ends U U _ _ w
                  (slot-Unique j serde_registry m host lawful faithful kept env slots id stored c w
                    at unique).0
                  (λ _ w1 u1.
                    >>=-still U _ _ w1 refl
                      (λ d _.
                        (slot-Unique j serde_registry m host lawful faithful kept env slots id
                          stored d w1 at u1).1)
                      (λ _. u1))
                  (λ _ _ u1. u1))
              (λ _. unique))
          (λ _. unique)

    save_live_locked-Unique :
        (new_id : Text) (now_ms : ℤ) (w : W)
        → One w
        → Ends U (save_live_locked j serde_registry m host new_id now_ms env w)
    unfolding save_live_locked
    save_live_locked-Unique new_id now_ms w unique =
        >>=-still U _ _ w refl
          (λ live _.
            >>=-still U _ _ w (read_some-still j serde_registry m host lawful env _ _ w)
              (λ creds _.
                >>=-still U _ _ w (read_some-still j serde_registry m host lawful env _ _ w)
                  (λ config _.
                    >>=-still U _ _ w refl
                      (λ identity _.
                        >>=-still U _ _ w refl
                          (λ c _.
                            >>=-still U _ _ w refl
                              (λ reg is_reg.
                                let o = find (is_login env identity) reg in
                                let r = record_of new_id now_ms env identity (plan c) o in
                                let new =
                                  put_first-IsUnique env identity r
                                    (record_of-is_login new_id now_ms env identity (plan c) o) reg
                                    (subst IsUnique (ok_inj is_reg) unique) in
                                >>=-Ends U U _ _ w (snapshot-Unique r.id creds config w unique)
                                  (λ _ w1 u1.
                                    >>=-Ends U U _ _ w1
                                      (write_registry-Unique j serde_registry m host lawful faithful
                                        kept (put_first (is_login env identity) r reg) w1 new u1)
                                      (λ _ _ u2. u2) (λ _ _ u2. u2))
                                  (λ _ _ u1. u1))
                              (λ _. unique))
                          (λ _. unique))
                      (λ _. unique))
                  (λ _. unique))
              (λ _. unique))
          (λ _. unique)

    pub save_live-Unique :
        (new_id : Text) (now_ms : ℤ) (w : W)
        → One w
        → Ends U (save_live j serde_registry m host new_id now_ms env w)
    unfolding save_live
    save_live-Unique new_id now_ms w unique =
        >>=-still U _ _ w (require_online-still j serde_registry m host env w)
          (λ _ _. save_live_locked-Unique new_id now_ms w unique) (λ _. unique)

    module _ (live : DocPaths) (is_live : IsLive j serde_registry m host lawful env live) where
      overwrite-Unique :
          (live_creds live_config : Option Text) (slot_creds slot_config : Text)
          (target : AccountIdentity) (w : W)
          → One w
          → One
              (overwrite j serde_registry m host env live live_creds live_config slot_creds
                slot_config target w).1
      overwrite-Unique live_creds live_config slot_creds slot_config target w unique =
          let registry = registry_path j.Error host in
          same_registry j serde_registry m host lawful faithful kept w _
            (overwrite-other j serde_registry m host lawful env live local registry kept
              (is_file_swap local env registry live.credentials is_live.creds_apart.registry)
              (is_file_swap local env registry live.config is_live.config_apart.registry) live_creds
              live_config slot_creds slot_config target w)
            unique

      preserve-Unique :
          (new_id : Text) (now_ms : ℤ) (c : Option Text) (w : W)
          → One w
          → Ends U (preserve j serde_registry m host new_id now_ms env c w)
      unfolding preserve
      preserve-Unique new_id now_ms c w unique =
          let saved =
            >>=-Ends U U (save_live_locked j serde_registry m host new_id now_ms env)
              (λ _. lift (ok tt)) w (save_live_locked-Unique new_id now_ms w unique) (λ _ _ u. u)
              (λ _ _ u. u) in
          elim (option_cases (credentials_in j c)) [
            | inl e ↦ rw (preserve, e) unique
            | inr (login, e) ↦ rw (preserve, e) saved
          ]

      switch-Unique :
          (new_id : Text) (now_ms : ℤ) (current : Option AccountIdentity)
          (live_creds live_config : Option Text) (slot_creds slot_config : Text)
          (target : AccountIdentity) (w : W)
          → One w
          → Ends U (
              switch_from j serde_registry m host new_id now_ms current env live live_creds
                live_config slot_creds slot_config target w)
      unfolding switch_from
      switch-Unique new_id now_ms none live_creds live_config slot_creds slot_config target w
            unique =
          overwrite-Unique live_creds live_config slot_creds slot_config target w unique
      switch-Unique new_id now_ms (some current) live_creds live_config slot_creds slot_config
            target w unique =
          let switched =
            >>=-Ends U U (preserve j serde_registry m host new_id now_ms env live_creds)
              (λ _.
                overwrite j serde_registry m host env live live_creds live_config slot_creds
                  slot_config target)
              w (preserve-Unique new_id now_ms live_creds w unique)
              (λ _ w1 u. overwrite-Unique live_creds live_config slot_creds slot_config target w1 u)
              (λ _ _ u. u) in
          elim (Bool-cases (same_account current target)) [
            | inl e ↦ rw (switch_from, e) unique
            | inr e ↦ rw (switch_from, e) switched
          ]

    pub activate-Unique :
        (new_id : Text) (now_ms : ℤ) (id : Text) (w : W)
        → ((live : DocPaths)
            → live_paths j.Error host env ≡ ok live
            → IsLive j serde_registry m host lawful env live)
        → One w
        → Ends U (activate j serde_registry m host new_id now_ms env id w)
    activate-Unique new_id now_ms id w is_live unique =
        activate-Ends j serde_registry m host lawful new_id now_ms U env id w (λ _. unique)
          λ r.
            switch-Unique r.live (is_live r.live r.live_at) new_id now_ms _ r.live_creds
              r.live_config r.slot_creds r.slot_config r.target.identity w unique
