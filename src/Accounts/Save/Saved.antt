-- ===== src/Accounts/Save/Saved.antt =====
-- `save_live` as a whole.
use oxyris.Prelude.{
  ◌≡◌, ◌∙◌, ap, sym, subst, refl, Text, true, none, some, Option, find, Result, ok, err,
}
use oxyris.Prelude.Int.{ℤ}
use oxyris.Core.{Environment}
use oxyris.Accounts.Json.{Json}
use oxyris.Accounts.Json as J
use oxyris.Accounts.Docs.{
  AccountIdentity, OAuthCredentials, Plan, plan, parse_credentials, parse_identity,
}
use oxyris.Accounts.Machine.{Machine, ◌>>◌, lift}
use oxyris.Accounts.Machine.Steps.{Ends, OnOk, >>=-still, >>=-Ends}
use oxyris.Accounts.Machine.Files.{IsLawful, IsRoomy, reads}
use oxyris.Accounts.Paths.{Host, DocPaths, live_paths}
use oxyris.Accounts.Registry.{
  AccountRecord, Registry, Serde, E, is_login, put_first, read_registry, write_registry,
}
use oxyris.Accounts.Save.{record_of, snapshot_live_into, save_live_locked, save_live}
use oxyris.Accounts.Save.Unique.{eq→is_login, IsUnique, put_first-IsUnique, find-put_first}
use oxyris.Accounts.Save.Frame.{
  from_doc-eq-ok, ok_inj, require_online-still, read_some-still, read_some-there,
  write_registry-other,
}
use oxyris.Accounts.Save.Registered.{IsFaithful, write_registry-reads}
use oxyris.Accounts.Save.Stored.{AreSlots, IsStored, IsStored-same, snapshot-IsStored}

some_inj : {A : Type 0} {a b : A} → some a ≡ some b → a ≡ b
some_inj h = cc h

pub record_of-is_login :
    (new_id : Text) (now_ms : ℤ) (env : Environment) (identity : AccountIdentity) (p : Plan)
    (o : Option AccountRecord)
    → is_login env identity (record_of new_id now_ms env identity p o) ≡ true
record_of-is_login new_id now_ms env identity p none = eq→is_login env identity _ refl refl
record_of-is_login new_id now_ms env identity p (some a) = eq→is_login env identity _ refl refl

module _ {W X : Type 0} (j : Json) (serde_registry : Serde j.Error) (m : Machine W X)
    (host : Host X) where
  -- The live login of an environment, with documents that can be parsed.
  pub record Login (env : Environment) (w : W) : Type 0 where
    pub live : DocPaths
    pub creds : Text
    pub config : Text
    pub identity : AccountIdentity
    pub credentials : OAuthCredentials
    pub live_at : live_paths j.Error host env ≡ ok live
    pub creds_there : reads j.Error m w env live.credentials ≡ ok (some creds)
    pub config_there : reads j.Error m w env live.config ≡ ok (some config)
    pub identity_parsed : parse_identity j config ≡ ok identity
    pub creds_parsed : parse_credentials j creds ≡ ok credentials

  -- The account has a record, and its slot holds the two documents' login.
  pub record IsSaved (env : Environment) (creds config : Text) (identity : AccountIdentity) (w : W)
      : Type 0 where
    pub account : AccountRecord
    pub registered :
        find (is_login env identity) (read_registry j serde_registry m host w) ≡ some account
    pub stored : IsStored j serde_registry m host env account.id creds config w

  module _ (json_lawful : J.IsLawful j) (lawful : IsLawful j.Error m)
      (faithful : IsFaithful serde_registry) (env : Environment) (roomy : IsRoomy j.Error m env)
      (slots : AreSlots j serde_registry m host env) where
    -- The registry is written after the slot.
    still_stored :
        (id creds config : Text) (reg : Registry) (w : W)
        → IsStored j serde_registry m host env id creds config w
        → IsStored j serde_registry m host env id creds config
            (write_registry j serde_registry m host reg w).1
    still_stored id creds config reg w s =
        let kept = slots.kept id s.stored s.stored_at in
        let apart = slots.apart id s.stored s.stored_at in
        IsStored-same j serde_registry m host env id creds config w _ s
          (write_registry-other j serde_registry m host lawful env s.stored.credentials reg w kept.0
            apart.0)
          (write_registry-other j serde_registry m host lawful env s.stored.config reg w kept.1
            apart.1)

    registered :
        (id creds config : Text) (reg : Registry) (w : W) (r : Result (E X j) (Unit {0}) × W)
        → IsStored j serde_registry m host env id creds config r.1
        → Ends (OnOk λ w'. read_registry j serde_registry m host w' ≡ reg) r
        → Ends
            (OnOk λ w'.
              (read_registry j serde_registry m host w' ≡ reg)
              × IsStored j serde_registry m host env id creds config w')
            r
    registered id creds config reg w (ok u, w') s h = (h, s)
    registered id creds config reg w (err e, w') s h = tt

    -- What a save that succeeds leaves: the login it found is saved, and accounts that were
    -- registered once still are.
    abbrev pub Saved : (w : W) → Login env w → W → Type 0
    Saved w l w' =
        IsSaved env l.creds l.config l.identity w'
        × (IsUnique (read_registry j serde_registry m host w)
            → IsUnique (read_registry j serde_registry m host w'))

    module _ (new_id : Text) (now_ms : ℤ) (w : W) where
      -- The writes of a save, and what they leave.
      finish :
          (l : Login env w) (reg : Registry)
          → read_registry j serde_registry m host w ≡ reg
          → let r =
              record_of new_id now_ms env l.identity
                (plan l.credentials)
                (find (is_login env l.identity) reg) in
            Ends (OnOk λ w'. (l : Login env w) × Saved w l w') (
              (do
                snapshot_live_into j serde_registry m host env r.id l.creds l.config
                write_registry j serde_registry m host (put_first (is_login env l.identity) r reg)
                lift (ok r))
                w)
      finish l reg is_reg =
          let Q : Result (E X j) AccountRecord → W → Type 0 =
            OnOk λ w'. (l : Login env w) × Saved w l w' in
          let r =
            record_of new_id now_ms env l.identity (plan l.credentials)
              (find (is_login env l.identity) reg) in
          let is_r =
            record_of-is_login new_id now_ms env l.identity (plan l.credentials)
              (find (is_login env l.identity) reg) in
          let new_reg = put_first (is_login env l.identity) r reg in
          >>=-Ends (OnOk (IsStored j serde_registry m host env r.id l.creds l.config)) Q _ _ w
            (snapshot-IsStored j serde_registry m host json_lawful lawful env roomy slots r.id
              l.creds l.config w)
            (λ _ w1 s.
              >>=-Ends
                (OnOk λ w'.
                  (read_registry j serde_registry m host w' ≡ new_reg)
                  × IsStored j serde_registry m host env r.id l.creds l.config w')
                Q _ _ w1
                (registered r.id l.creds l.config new_reg w1 _
                  (still_stored r.id l.creds l.config new_reg w1 s)
                  (write_registry-reads j serde_registry m host lawful faithful new_reg w1))
                (λ _ w2 h. (
                  l,
                  (
                    record {
                      account = r;
                      registered =
                          ap (find (is_login env l.identity)) h.0
                          ∙ find-put_first (is_login env l.identity) r reg is_r;
                      stored = h.1;
                    },
                    λ unique. subst IsUnique (sym h.0) (
                        put_first-IsUnique env l.identity r is_r reg
                          (subst IsUnique is_reg unique)),
                  ),
                ))
                (λ _ _ _. tt))
            (λ _ _ _. tt)

      pub save_live_locked-found :
          Ends
            (OnOk λ w'. (l : Login env w) × Saved w l w')
            (save_live_locked j serde_registry m host new_id now_ms env w)
      unfolding save_live_locked
      save_live_locked-found =
          let Q : Result (E X j) AccountRecord → W → Type 0 =
            OnOk λ w'. (l : Login env w) × Saved w l w' in
          >>=-still Q _ _ w refl
            (λ live live_at.
              >>=-still Q _ _ w (read_some-still j serde_registry m host lawful env _ _ w)
                (λ creds creds_there.
                  >>=-still Q _ _ w (read_some-still j serde_registry m host lawful env _ _ w)
                    (λ config config_there.
                      >>=-still Q _ _ w refl
                        (λ identity identity_parsed.
                          >>=-still Q _ _ w refl
                            (λ c creds_parsed.
                              >>=-still Q _ _ w refl
                                (λ reg is_reg.
                                  finish
                                    (record {
                                      live = live;
                                      creds = creds;
                                      config = config;
                                      identity = identity;
                                      credentials = c;
                                      live_at = live_at;
                                      creds_there =
                                          read_some-there j serde_registry m host env _ _ w
                                            creds_there;
                                      config_there =
                                          read_some-there j serde_registry m host env _ _ w
                                            config_there;
                                      identity_parsed = from_doc-eq-ok {X = X} j _ identity_parsed;
                                      creds_parsed = from_doc-eq-ok {X = X} j _ creds_parsed;
                                    })
                                    reg (ok_inj is_reg))
                                (λ _. tt))
                            (λ _. tt))
                        (λ _. tt))
                    (λ _. tt))
                (λ _. tt))
            (λ _. tt)

      -- A save that succeeds found a live login whose documents can be parsed, and leaves a slot
      -- that has its account subtrees and reads as it, under the record that the registry has for its account; an
      -- account that was registered once in its environment still is. The slots' documents are
      -- files of their own, a registry that is written reads back, and the machine takes no document
      -- that is too long to be read back.
      pub save_live-Saved :
          Ends
            (OnOk λ w'. (l : Login env w) × Saved w l w')
            (save_live j serde_registry m host new_id now_ms env w)
      unfolding save_live
      save_live-Saved =
          >>=-still (OnOk λ w'. (l : Login env w) × Saved w l w') _ _ w
            (require_online-still j serde_registry m host env w) (λ _ _. save_live_locked-found)
            (λ _. tt)

  -- There is one live login.
  pub Login-same :
      (P : Text → Text → AccountIdentity → Type 0) (env : Environment) (w : W) (l l' : Login env w)
      → P l.creds l.config l.identity
      → P l'.creds l'.config l'.identity
  Login-same P env w l l' h =
      let live : l.live ≡ l'.live = ok_inj (sym l.live_at ∙ l'.live_at) in
      let creds : l.creds ≡ l'.creds = some_inj (
        ok_inj (
          sym l.creds_there
          ∙ ap (λ (d : DocPaths). reads j.Error m w env d.credentials) live
          ∙ l'.creds_there)) in
      let config : l.config ≡ l'.config = some_inj (
        ok_inj (
          sym l.config_there
          ∙ ap (λ (d : DocPaths). reads j.Error m w env d.config) live
          ∙ l'.config_there)) in
      let identity : l.identity ≡ l'.identity =
        ok_inj (sym l.identity_parsed ∙ ap (parse_identity j) config ∙ l'.identity_parsed) in
      coe_all creds config identity h
    where
      coe_all :
          {a a' b b' : Text} {i i' : AccountIdentity}
          → a ≡ a'
          → b ≡ b'
          → i ≡ i'
          → P a b i
          → P a' b' i'
      coe_all {a = a} {a' = a'} {b = b} {b' = b'} {i = i} p q r x =
          subst (P a' b') r (subst (λ t. P a' t i) q (subst (λ t. P t b i) p x))
