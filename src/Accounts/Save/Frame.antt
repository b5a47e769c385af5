-- ===== src/Accounts/Save/Frame.antt =====
-- Which files `save_live` leaves alone.
use oxyris.Prelude.{
  ◌≡◌, ◌∙◌, ap, refl, Text, codes, true, false, none, some, arith, Option, ok_or, Result, ok, err,
  Bool-cases, not_both, inl, inr, ends_with-append, eq_text→eq, &&-right,
}
use oxyris.Prelude.Int.{ℤ}
use oxyris.Core.{Environment, local, wsl}
use oxyris.Accounts.Json.{Json}
use oxyris.Accounts.Docs.{AccountDocError}
use oxyris.Accounts.Machine.{Machine, M, and_go, on_machine, write_private, ◌>>=◌, lift}
use oxyris.Accounts.Machine.Steps.{Ends, >>=-Kept}
use oxyris.Accounts.Machine.Files.{IsLawful, is_file, is_temporary, reads}
use oxyris.Accounts.Machine.Writes.{Ended, write_private-Ended}
use oxyris.Accounts.Paths.{Host, DocPaths, slot_paths, registry_path}
use oxyris.Accounts.Registry.{
  Registry, Serde, E, require_online, from_doc, write_registry, registry_tmp, read_file, read_some,
}
use oxyris.Accounts.Save.{snapshot_live_into, save_live_locked}

pub ok_inj : {F A : Type 0} {a b : A} → (let r : Result F A = ok a in r) ≡ ok b → a ≡ b
ok_inj h = cc h

pub from_doc-eq-ok :
    {X : Type 0} (j : Json) {A : Type 0} (r : Result (AccountDocError j.Error) A) {a : A}
    → from_doc {X = X} j r ≡ ok a
    → r ≡ ok a
from_doc-eq-ok j (ok a) h = cc h
from_doc-eq-ok j (err e) h = absurd (cc h)

pub ok_or-eq-ok : {F A : Type 0} (o : Option A) (e : F) {a : A} → ok_or o e ≡ ok a → o ≡ some a
ok_or-eq-ok none e h = absurd (cc h)
ok_or-eq-ok (some a) e h = cc h

module _ {W X : Type 0} (j : Json) (serde_registry : Serde j.Error) (m : Machine W X)
    (host : Host X) where
  pub require_online-still :
      (env : Environment) (w : W) → (require_online j serde_registry m host env w).1 ≡ w
  unfolding require_online
  require_online-still local w = refl
  require_online-still (wsl distro) w = ground arith

  answered :
      (r : Result (E X j) (Option Text)) (e : E X j) (w : W) {t : Text}
      → (and_go (r, w) (λ found. lift (ok_or found e))).0 ≡ ok t
      → r ≡ ok (some t)
  answered (ok none) e w h = absurd (cc h)
  answered (ok (some s)) e w h = cc h
  answered (err x) e w h = absurd (cc h)

  pub read_some-there :
      (env : Environment) (path : Text) (e : E X j) (w : W) {t : Text}
      → (read_some j serde_registry m host env path e w).0 ≡ ok t
      → reads j.Error m w env path ≡ ok (some t)
  unfolding read_some read_file ◌>>=◌
  read_some-there env path e w h = answered (reads j.Error m w env path) e w h

  -- The file is no temporary one, no document of a slot of `env`, and not the registry.
  pub record IsApart (env env' : Environment) (path' : Text) : Type 0 where
    pub kept : is_temporary path' ≡ false
    pub slots :
        (id : Text) (stored : DocPaths)
        → slot_paths j.Error host env id ≡ ok stored
        → (is_file env stored.credentials env' path' ≡ false)
          × (is_file env stored.config env' path' ≡ false)
    pub registry : is_file local (registry_path j.Error host) env' path' ≡ false

  module _ (lawful : IsLawful j.Error m) where
    pub write_private-other :
        (env : Environment) (path contents : Text) (env' : Environment) (path' : Text) (w : W)
        → is_temporary path' ≡ false
        → is_file env path env' path' ≡ false
        → reads j.Error m (write_private {J = j.Error} m env path contents w).1 env' path'
          ≡ reads j.Error m w env' path'
    write_private-other env path contents env' path' w n other =
        from_end (write_private {J = j.Error} m env path contents w)
          (write_private-Ended j.Error m lawful ⊥ w env path contents (λ g. absurd g))
      where
        from_end :
            (r : Result (E X j) (Unit {0}) × W)
            → Ends (Ended j.Error m lawful ⊥ w env path contents) r
            → reads j.Error m r.1 env' path' ≡ reads j.Error m w env' path'
        from_end (ok u, w') h = h.1 env' path' n other
        from_end (err e, w') h = h.1 env' path' n other

    module _ (env' : Environment) (path' : Text) where
      abbrev Alike : W → W → Type 0
      Alike w w' = reads j.Error m w' env' path' ≡ reads j.Error m w env' path'

      pub registry_tmp-other :
          is_temporary path' ≡ false
          → is_file local (registry_tmp j serde_registry m host) env' path' ≡ false
      registry_tmp-other n =
          elim (Bool-cases (is_file local (registry_tmp j serde_registry m host) env' path')) [
            | inr e ↦ e
            | inl e ↦
                let same : registry_tmp j serde_registry m host ≡ path' =
                  eq_text→eq _ _ (&&-right _ _ e) in
                let ends : is_temporary path' ≡ true =
                  rw (← same) (ends_with-append (registry_path j.Error host) (codes ".tmp")) in
                not_both _ ends n
          ]

      filled :
          (w : W) (text : Text) (r : Result X (Unit {0}) × W)
          → is_temporary path' ≡ false
          → m.write_file w local (registry_tmp j serde_registry m host) text ≡ r
          → Alike w (on_machine {J = j.Error} local r).1
      filled w text (r, w') n h =
          lawful.after_write_file w w' local _ text r env' path' h (registry_tmp-other n)

      renamed :
          (w : W) (r : Result X (Unit {0}) × W)
          → is_temporary path' ≡ false
          → is_file local (registry_path j.Error host) env' path' ≡ false
          → m.rename w local (registry_tmp j serde_registry m host) (registry_path j.Error host) ≡ r
          → Alike w (on_machine {J = j.Error} local r).1
      renamed w (ok u, w') n other h =
          lawful.after_rename_ok w w' local _ _ env' path' h (registry_tmp-other n) other
      renamed w (err e, w') n other h = lawful.after_rename_err w w' _ _ e h env' path'

      pub write_registry-other :
          (reg : Registry) (w : W)
          → is_temporary path' ≡ false
          → is_file local (registry_path j.Error host) env' path' ≡ false
          → reads j.Error m (write_registry j serde_registry m host reg w).1 env' path'
            ≡ reads j.Error m w env' path'
      unfolding write_registry
      write_registry-other reg w n other = >>=-Kept (Alike w) _ _ w refl λ text w1 h1.
          >>=-Kept (Alike w) _ _ w1 (filled w1 text _ n refl ∙ h1)
            λ _ w2 h2. renamed w2 _ n other refl ∙ h2

    pub read_some-still :
        (env : Environment) (path : Text) (e : E X j) (w : W)
        → (read_some j serde_registry m host env path e w).1 ≡ w
    unfolding read_some read_file
    read_some-still env path e w = >>=-Kept (λ w'. w' ≡ w) _ _ w refl (λ _ w' h. h)

    module _ (env env' : Environment) (path' : Text) (apart : IsApart env env' path') where
      abbrev Same : W → W → Type 0
      Same w w' = reads j.Error m w' env' path' ≡ reads j.Error m w env' path'

      -- A document of the slot `id` is written.
      stored-other :
          (id : Text) (w : W) (r : Result (E X j) DocPaths) (f : DocPaths → M W (E X j) (Unit {0}))
          → slot_paths j.Error host env id ≡ r
          → ((stored : DocPaths)
              → slot_paths j.Error host env id ≡ ok stored
              → Same w (f stored w).1)
          → Same w ((lift r >>= f) w).1
      unfolding ◌>>=◌
      stored-other id w (ok stored) f h go = go stored h
      stored-other id w (err e) f h go = refl

      snapshot-other :
          (id creds config : Text) (w : W)
          → Same w (snapshot_live_into j serde_registry m host env id creds config w).1
      unfolding snapshot_live_into
      snapshot-other id creds config w =
          stored-other id w (slot_paths j.Error host env id) _ refl λ stored h.
            >>=-Kept (Same w) _ _ w refl λ c w1 h1.
              >>=-Kept (Same w) _ _ w1
                (write_private-other env stored.credentials c env' path' w1 apart.kept
                    (apart.slots id stored h).0
                  ∙ h1)
                λ _ w2 h2. >>=-Kept (Same w) _ _ w2 h2 λ d w3 h3.
                  write_private-other env stored.config d env' path' w3 apart.kept
                    (apart.slots id stored h).1
                  ∙ h3

      -- Whatever becomes of it, `save_live` changes documents of slots, the registry and temporary
      -- files only.
      pub save_live_locked-other :
          (new_id : Text) (now_ms : ℤ) (w : W)
          → reads j.Error m
              (save_live_locked j serde_registry m host new_id now_ms env w).1
              env'
              path'
            ≡ reads j.Error m w env' path'
      unfolding save_live_locked
      save_live_locked-other new_id now_ms w = >>=-Kept (Same w) _ _ w refl λ paths w1 h1.
          >>=-Kept (Same w) _ _ w1
            (ap (λ v. reads j.Error m v env' path') (read_some-still env _ _ w1) ∙ h1)
            λ creds w2 h2.
              >>=-Kept (Same w) _ _ w2
                (ap (λ v. reads j.Error m v env' path') (read_some-still env _ _ w2) ∙ h2)
                λ config w3 h3. >>=-Kept (Same w) _ _ w3 h3 λ identity w4 h4.
                  >>=-Kept (Same w) _ _ w4 h4 λ c w5 h5. >>=-Kept (Same w) _ _ w5 h5 λ reg w6 h6.
                    >>=-Kept (Same w) _ _ w6 (snapshot-other _ creds config w6 ∙ h6) λ _ w7 h7.
                      >>=-Kept (Same w) _ _ w7
                        (write_registry-other env' path' _ w7 apart.kept apart.registry ∙ h7)
                        λ _ w8 h8. h8
