-- ===== src/Accounts/Unique/Enrol.antt =====
-- Removing an account and logging in to another keep the registry free of doubles.
use oxyris.Prelude.{
  ◌≡◌, subst, refl, arith, Text, codes, false, none, some, Option, [], find, Result, Bool-cases,
  inl, inr,
}
use oxyris.Prelude.Int.{ℤ}
use oxyris.Core.{Environment, local, is_wsl}
use oxyris.Accounts.Json.{Json}
use oxyris.Accounts.Docs.{AccountIdentity, OAuthCredentials, Plan, plan, parse_credentials}
use oxyris.Accounts.Machine.{Machine, M}
use oxyris.Accounts.Machine.Steps.{Ends, and_go-Ends, >>=-still, >>=-Ends}
use oxyris.Accounts.Machine.Files.{IsLawful, is_under, is_temporary}
use oxyris.Accounts.Paths.{Host, registry_path, join}
use oxyris.Accounts.Registry.{AccountRecord, Registry, Serde, E, is_login, ok_of, read_file}
use oxyris.Accounts.Save.Unique.{
  eq→is_login, is_login→eq, IsUnique, put_first-IsUnique, filter-IsUnique,
}
use oxyris.Accounts.Save.Frame.{ok_inj, require_online-still, write_private-other}
use oxyris.Accounts.Save.Registered.{IsFaithful}
use oxyris.Accounts.Save.Stored.{AreSlots}
use oxyris.Accounts.Enrol.{
  remove, adopt_account, adopt_parsed, both_slots, adopt_login_slot, adopted, clean_up, login_new,
}
use oxyris.Accounts.Unique.{
  put_first-absent, find-true, Unique, same_registry, write_registry-Unique, slot-Unique,
  directory-Unique, AreApart,
}

module _ {W X : Type 0} (j : Json) (serde_registry : Serde j.Error) (m : Machine W X)
    (host : Host X) (lawful : IsLawful j.Error m) (faithful : IsFaithful serde_registry)
    (kept : is_temporary (registry_path j.Error host) ≡ false) where
  abbrev One : W → Type 0
  One = Unique j serde_registry m host lawful faithful kept

  module _ (env : Environment) (slots : AreSlots j serde_registry m host env) where
    abbrev U : {A : Type 0} → Result (E X j) A → W → Type 0
    U r w = One w

    module _ (directories : AreApart j serde_registry m host lawful faithful kept env slots) where
      pub remove-Unique :
          (id : Text) (w : W) → One w → Ends U (remove j serde_registry m host env id w)
      unfolding remove
      remove-Unique id w unique =
          >>=-still U _ _ w (require_online-still j serde_registry m host env w)
            (λ _ _.
              >>=-still U _ _ w refl
                (λ reg is_reg.
                  >>=-still U _ _ w (ground arith)
                    (λ _ _.
                      >>=-still U _ _ w refl
                        (λ dir at.
                          >>=-Ends U U _ _ w
                            (directory-Unique j serde_registry m host lawful faithful kept env slots
                              dir w (directories.under id dir at) unique)
                            (λ _ w1 u1.
                              write_registry-Unique j serde_registry m host lawful faithful kept _
                                w1 (filter-IsUnique _ reg (subst IsUnique (ok_inj is_reg) unique))
                                u1)
                            (λ _ _ u1. u1))
                        (λ _. unique))
                    (λ _. unique))
                (λ _. unique))
            (λ _. unique)

      module _ (new_id : Text) (now_ms : ℤ) where
        adopt_account-Unique :
            (id creds config : Text) (p : Plan) (identity : AccountIdentity)
            (o : Option AccountRecord) (reg : Registry) (w : W)
            → find (is_login env identity) reg ≡ o
            → IsUnique reg
            → One w
            → Ends U (
                adopt_account j serde_registry m host new_id now_ms env id creds config p identity o
                  reg w)
        unfolding adopt_account
        adopt_account-Unique id creds config p identity none reg w found known unique =
            >>=-Ends U U _ _ w
              (write_registry-Unique j serde_registry m host lawful faithful kept _ w
                (subst IsUnique (put_first-absent (is_login env identity) _ reg found) (
                  put_first-IsUnique env identity _ (eq→is_login env identity _ refl refl) reg
                    known))
                unique)
              (λ _ _ u. u) (λ _ _ u. u)
        adopt_account-Unique id creds config p identity (some a) reg w found known unique =
            let is_a = find-true (is_login env identity) reg a found in
            >>=-still U _ _ w refl
              (λ stored at.
                >>=-Ends U U _ _ w
                  (slot-Unique j serde_registry m host lawful faithful kept env slots a.id stored
                    creds w at unique).0
                  (λ _ w1 u1.
                    >>=-Ends U U _ _ w1
                      (slot-Unique j serde_registry m host lawful faithful kept env slots a.id
                        stored config w1 at u1).1
                      (λ _ w2 u2.
                        >>=-Ends U U _ _ w2
                          (write_registry-Unique j serde_registry m host lawful faithful kept _ w2
                            (put_first-IsUnique env identity _
                              (eq→is_login env identity _ (is_login→eq env identity a is_a).0 refl)
                              reg known)
                            u2)
                          (λ _ _ u. u) (λ _ _ u. u))
                      (λ _ _ u2. u2))
                  (λ _ _ u1. u1))
              (λ _. unique)

        adopt_parsed-Unique :
            (id creds config : Text) (c : Option OAuthCredentials) (w : W)
            → One w
            → Ends U (adopt_parsed j serde_registry m host new_id now_ms env id creds config c w)
        unfolding adopt_parsed
        adopt_parsed-Unique id creds config none w unique = unique
        adopt_parsed-Unique id creds config (some c) w unique =
            >>=-still U _ _ w refl
              (λ identity _.
                >>=-still U _ _ w refl
                  (λ reg is_reg.
                    adopt_account-Unique id creds config (plan c) identity _ reg w refl
                      (subst IsUnique (ok_inj is_reg) unique) unique)
                  (λ _. unique))
              (λ _. unique)

        both_slots-Unique :
            (creds config : Option Text) (f : Text → Text → M W (E X j) (Option AccountRecord))
            (w : W)
            → One w
            → ((c d : Text) → Ends U (f c d w))
            → Ends U (both_slots j serde_registry m host new_id now_ms creds config f w)
        both_slots-Unique none config f w unique h = unique
        both_slots-Unique (some c) none f w unique h = unique
        both_slots-Unique (some c) (some d) f w unique h = h c d

        pub adopt_login_slot-Unique :
            (id : Text) (w : W)
            → One w
            → Ends U (adopt_login_slot j serde_registry m host new_id now_ms env id w)
        unfolding adopt_login_slot read_file
        adopt_login_slot-Unique id w unique =
            >>=-still U _ _ w refl
              (λ paths _.
                >>=-still U _ _ w refl
                  (λ creds _.
                    >>=-still U _ _ w refl
                      (λ config _.
                        both_slots-Unique creds config _ w unique λ c d.
                          adopt_parsed-Unique id c d (ok_of (parse_credentials j c)) w unique)
                      (λ _. unique))
                  (λ _. unique))
              (λ _. unique)

        cleaned :
            (dir : Text) (r : Result (E X j) (Option AccountRecord) × W)
            → is_under env dir local (registry_path j.Error host) ≡ false
            → Ends U r
            → Ends U (clean_up j serde_registry m host new_id now_ms env new_id dir r)
        cleaned dir (outcome, w) apart unique =
            elim (Bool-cases (adopted j serde_registry m host new_id now_ms new_id outcome)) [
              | inl e ↦ rw e unique
              | inr e ↦ rw e (
                  directory-Unique j serde_registry m host lawful faithful kept env slots dir w
                    apart unique)
            ]

        -- `console` leaves the registry alone.
        pub login_new-Unique :
            (console : Environment → Text → M W (E X j) (Unit {0})) (w : W)
            → ((dir : Text) (w : W) → One w → One (console env dir w).1)
            → One w
            → Ends U (login_new j serde_registry m host new_id now_ms console env w)
        unfolding login_new
        login_new-Unique console w quiet unique =
            >>=-still U _ _ w (require_online-still j serde_registry m host env w)
              (λ _ _.
                >>=-still U _ _ w refl
                  (λ dir at.
                    let marker = join j.Error host dir (codes ".oxyris-slot") (is_wsl env) in
                    >>=-Ends U U _ _ w
                      (same_registry j serde_registry m host lawful faithful kept w _
                        (write_private-other j serde_registry m host lawful env marker [] local
                          (registry_path j.Error host) w kept (directories.marker new_id dir at))
                        unique)
                      (λ _ w1 u1. cleaned dir _ (directories.under new_id dir at) (
                        and_go-Ends U U (console env dir w1)
                          (λ _. adopt_login_slot j serde_registry m host new_id now_ms env new_id)
                          (quiet dir w1 u1) (λ _ w2 u2. adopt_login_slot-Unique new_id w2 u2)
                          (λ _ _ u2. u2)))
                      (λ _ _ u1. u1))
                  (λ _. unique))
              (λ _. unique)
