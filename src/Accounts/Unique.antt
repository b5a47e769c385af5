-- ===== src/Accounts/Unique.antt =====
-- No operation registers an account of an environment twice, whether it succeeds or fails.
use oxyris.Prelude.{
  ◌≡◌, ap, sym, subst, refl, arith, Text, codes, Bool, true, false, none, some, Option, [], ◌∷◌,
  ◌++◌, find, option_cases, Result, ok, err, Bool-cases, inl, inr,
}
use oxyris.Prelude.Int.{ℤ}
use oxyris.Core.{Environment, local, is_wsl}
use oxyris.Accounts.Json.{Json}
use oxyris.Accounts.Docs.{
  AccountIdentity, OAuthCredentials, Plan, plan, same_account, parse_credentials,
}
use oxyris.Accounts.Machine.{Machine, M, lift, gone_is_fine, remove_path, write_private}
use oxyris.Accounts.Machine.Steps.{Ends, OnOk, OnErr, and_go-Ends, >>=-still, >>=-Ends}
use oxyris.Accounts.Machine.Files.{IsLawful, is_file, is_under, is_temporary, reads}
use oxyris.Accounts.Paths.{Host, DocPaths, live_paths, slot_dir, slot_paths, registry_path, join}
use oxyris.Accounts.Registry.{
  AccountRecord, Registry, Serde, E, is_login, put_first, read_registry, write_registry,
  credentials_in, ok_of, read_file,
}
use oxyris.Accounts.Save.{record_of, snapshot_live_into, save_live_locked, save_live}
use oxyris.Accounts.Save.Unique.{
  eq→is_login, is_login→eq, IsUnique, put_first-IsUnique, filter-IsUnique,
}
use oxyris.Accounts.Save.Frame.{ok_inj, require_online-still, read_some-still, write_private-other}
use oxyris.Accounts.Save.Registered.{
  IsFaithful, is_file_swap, read_registry-same, write_registry-reads, write_registry-err,
}
use oxyris.Accounts.Save.Stored.{AreSlots}
use oxyris.Accounts.Save.Saved.{record_of-is_login}
use oxyris.Accounts.Enrol.{
  remove, adopt_account, adopt_parsed, both_slots, adopt_login_slot, adopted, clean_up, login_new,
}
use oxyris.Accounts.Switch.{overwrite, preserve, switch_from, activate}
use oxyris.Accounts.Switch.Steps.{activate-Ends}
use oxyris.Accounts.Switch.Rollback.{IsLive}
use oxyris.Accounts.Switch.Preserved.{overwrite-other}
pub mod Switch
pub mod Enrol

-- A record of a login that is new goes to the end.
pub put_first-absent :
    (p : AccountRecord → Bool) (r : AccountRecord) (accounts : Registry)
    → find p accounts ≡ none
    → put_first p r accounts ≡ accounts ++ r ∷ []
unfolding find put_first
put_first-absent p r [] h = refl
put_first-absent p r (a ∷ accounts) h = elim (Bool-cases (p a)) [
  | inl e ↦ absurd (cc (rw e at h))
  | inr e ↦ rw e (ap (λ rest. a ∷ rest) (put_first-absent p r accounts (rw e at h)))
]

pub find-true :
    (p : AccountRecord → Bool) (accounts : Registry) (a : AccountRecord)
    → find p accounts ≡ some a
    → p a ≡ true
unfolding find
find-true p [] a h = absurd (cc h)
find-true p (b ∷ accounts) a h = elim (Bool-cases (p b)) [
  | inl e ↦ let same : b ≡ a = cc (rw e at h) in subst (λ c. p c ≡ true) same e
  | inr e ↦ find-true p accounts a (rw e at h)
]

module _ {W X : Type 0} (j : Json) (serde_registry : Serde j.Error) (m : Machine W X)
    (host : Host X) (lawful : IsLawful j.Error m) (faithful : IsFaithful serde_registry)
    (kept : is_temporary (registry_path j.Error host) ≡ false) where
  -- Where the machine's registry holds no account twice
  abbrev pub Unique : W → Type 0
  Unique w = IsUnique (read_registry j serde_registry m host w)

  -- The registry's file reads alike.
  pub same_registry :
      (w w' : W)
      → reads j.Error m w' local (registry_path j.Error host)
        ≡ reads j.Error m w local (registry_path j.Error host)
      → Unique w
      → Unique w'
  same_registry w w' h unique =
      subst IsUnique (sym (read_registry-same j serde_registry m host w w' h)) unique

  written :
      (reg : Registry) (w : W) (r : Result (E X j) (Unit {0}) × W)
      → IsUnique reg
      → Unique w
      → Ends (OnOk λ w'. read_registry j serde_registry m host w' ≡ reg) r
      → Ends
          (OnErr λ w'.
            reads j.Error m w' local (registry_path j.Error host)
            ≡ reads j.Error m w local (registry_path j.Error host))
          r
      → Unique r.1
  written reg w (ok u, w') new old h k = subst IsUnique (sym h) new
  written reg w (err e, w') new old h k = same_registry w w' k old

  pub write_registry-Unique :
      (reg : Registry) (w : W)
      → IsUnique reg
      → Unique w
      → Unique (write_registry j serde_registry m host reg w).1
  write_registry-Unique reg w new old =
      written reg w _ new old (write_registry-reads j serde_registry m host lawful faithful reg w)
        (write_registry-err j serde_registry m host lawful faithful kept reg w)

  module _ (env : Environment) (slots : AreSlots j serde_registry m host env) where
    -- A document of a slot is written.
    pub slot-Unique :
        (id : Text) (stored : DocPaths) (text : Text) (w : W)
        → slot_paths j.Error host env id ≡ ok stored
        → Unique w
        → Unique (write_private {J = j.Error} m env stored.credentials text w).1
          × Unique (write_private {J = j.Error} m env stored.config text w).1
    slot-Unique id stored text w at unique =
        let registry = registry_path j.Error host in
        let apart = slots.apart id stored at in
        (
          same_registry w _
              (write_private-other j serde_registry m host lawful env stored.credentials text local
                registry w kept (is_file_swap local env registry stored.credentials apart.0))
              unique,
          same_registry w _
              (write_private-other j serde_registry m host lawful env stored.config text local
                registry w kept (is_file_swap local env registry stored.config apart.1))
              unique,
        )

    -- A directory of a slot is removed.
    pub directory-Unique :
        (dir : Text) (w : W)
        → is_under env dir local (registry_path j.Error host) ≡ false
        → Unique w
        → Unique (remove_path {J = j.Error} m env dir true w).1
    unfolding remove_path
    directory-Unique dir w apart unique = gone (m.delete w env dir true) refl
      where
        gone :
            (r : Result X (Unit {0}) × W)
            → m.delete w env dir true ≡ r
            → Unique (gone_is_fine {J = j.Error} m env r).1
        gone (ok u, w') h =
            same_registry w w' (lawful.after_delete_all w w' env dir (ok u) local _ h apart) unique
        gone (err e, w') h = elim (Bool-cases (m.is_not_found e)) [
          | inl f ↦ rw f (
              same_registry w w' (lawful.after_delete_all w w' env dir (err e) local _ h apart)
                unique)
          | inr f ↦ rw f (
              same_registry w w' (lawful.after_delete_all w w' env dir (err e) local _ h apart)
                unique)
        ]

    -- The registry lies in no slot's directory, and is no marker of a slot.
    pub record AreApart : Type 0 where
      pub under :
          (id dir : Text)
          → slot_dir j.Error host env id ≡ ok dir
          → is_under env dir local (registry_path j.Error host) ≡ false
      pub marker :
          (id dir : Text)
          → slot_dir j.Error host env id ≡ ok dir
          → is_file env
              (join j.Error host dir (codes ".oxyris-slot") (is_wsl env))
              local
              (registry_path j.Error host)
            ≡ false
