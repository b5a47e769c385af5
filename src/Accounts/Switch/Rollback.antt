-- ===== src/Accounts/Switch/Rollback.antt =====
-- A switch that fails on the local machine leaves the live login as it was.
use oxyris.Prelude.{
  ◌≡◌, refl, Text, false, none, some, Option, Result, ok, err, Bool-cases, inl, inr,
}
use oxyris.Core.{Environment, local, wsl}
use oxyris.Accounts.Json.{Json}
use oxyris.Accounts.Machine.{Machine, gone_is_fine, remove_path, write_private}
use oxyris.Accounts.Machine.Steps.{Ends}
use oxyris.Accounts.Machine.Files.{IsLawful, is_file, is_temporary, reads}
use oxyris.Accounts.Machine.Writes.{Written, write_private-Written}
use oxyris.Accounts.Paths.{Host, DocPaths}
use oxyris.Accounts.Registry.{Serde, E}
use oxyris.Accounts.Save.Frame.{IsApart, write_private-other}
use oxyris.Accounts.Switch.{restoring, restore}

module _ {W X : Type 0} (j : Json) (serde_registry : Serde j.Error) (m : Machine W X)
    (host : Host X) (lawful : IsLawful j.Error m) where
  gone-other :
      (env : Environment) (path : Text) (w : W) (env' : Environment) (path' : Text)
      (r : Result X (Unit {0}) × W)
      → is_file env path env' path' ≡ false
      → m.delete w env path false ≡ r
      → reads j.Error m (gone_is_fine {J = j.Error} m env r).1 env' path'
        ≡ reads j.Error m w env' path'
  gone-other env path w env' path' (ok u, w') other h =
      lawful.after_delete w w' env path (ok u) env' path' h other
  gone-other env path w env' path' (err e, w') other h = elim (Bool-cases (m.is_not_found e)) [
    | inl f ↦ rw f (lawful.after_delete w w' env path (err e) env' path' h other)
    | inr f ↦ rw f (lawful.after_delete w w' env path (err e) env' path' h other)
  ]

  pub restore-other :
      (env : Environment) (path : Text) (original : Option Text) (w : W) (env' : Environment)
      (path' : Text)
      → is_temporary path' ≡ false
      → is_file env path env' path' ≡ false
      → reads j.Error m (restore j serde_registry m host env path original w) env' path'
        ≡ reads j.Error m w env' path'
  unfolding restore
  restore-other env path none w env' path' n other =
      unfold remove_path in gone-other env path w env' path' _ other refl
  restore-other env path (some text) w env' path' n other =
      write_private-other j serde_registry m host lawful env path text env' path' w n other

  gone-reads :
      (env : Environment) (path : Text) (w : W) (r : Result X (Unit {0}) × W)
      → m.delete w env path false ≡ r
      → (gone_is_fine {J = j.Error} m env r).0 ≡ ok tt
      → reads j.Error m (gone_is_fine {J = j.Error} m env r).1 env path ≡ ok none
  gone-reads env path w (ok u, w') h = λ fine. lawful.reads-delete w w' env path h
  gone-reads local path w (err e, w') h = elim (Bool-cases (m.is_not_found e)) [
    | inl f ↦ rw f (λ fine. lawful.reads-delete_absent w w' local path e h f)
    | inr f ↦ rw f (λ fine. absurd (cc fine))
  ]
  gone-reads (wsl distro) path w (err e, w') h = elim (Bool-cases (m.is_not_found e)) [
    | inl f ↦ rw f (λ fine. lawful.reads-delete_absent w w' (wsl distro) path e h f)
    | inr f ↦ rw f (λ fine. absurd (cc fine))
  ]

  read_back :
      (env : Environment) (path text : Text) (w : W) (r : Result (E X j) (Unit {0}) × W)
      → Ends (Written j.Error m lawful w env path text) r
      → r.0 ≡ ok tt
      → reads j.Error m r.1 env path ≡ ok (some text)
  read_back env path text w (ok u, w') h k = h.0
  read_back env path text w (err e, w') h k = absurd (cc k)

  -- A local file that could be restored reads as before.
  pub restore-reads :
      (path : Text) (original : Option Text) (w : W)
      → is_temporary path ≡ false
      → (restoring j serde_registry m host local path original w).0 ≡ ok tt
      → reads j.Error m (restore j serde_registry m host local path original w) local path
        ≡ ok original
  unfolding restore
  restore-reads path none w n h = unfold remove_path in gone-reads local path w _ refl h
  restore-reads path (some text) w n h =
      read_back local path text w _
        (write_private-Written j.Error m lawful w local path text refl n) h

  module _ (env : Environment) (live : DocPaths) where
    -- The two documents of the live login are two files, and none of the others that `activate`
    -- writes.
    pub record IsLive : Type 0 where
      pub creds_apart : IsApart j serde_registry m host env env live.credentials
      pub config_apart : IsApart j serde_registry m host env env live.config
      pub two : is_file env live.credentials env live.config ≡ false
      pub two' : is_file env live.config env live.credentials ≡ false

    -- The documents of the live login read in `w'` as in `w`.
    abbrev pub SameLogin : W → W → Type 0
    SameLogin w w' =
        (reads j.Error m w' env live.credentials ≡ reads j.Error m w env live.credentials)
        × (reads j.Error m w' env live.config ≡ reads j.Error m w env live.config)

  module _ (live : DocPaths) where
    -- A document that could be replaced can be put back: the credentials after the config was
    -- written, or was not, and the config after the credentials were put back.
    pub record CanRestore (live_creds live_config : Option Text) : Type 0 where
      pub creds_back :
          (w w1 : W) (creds config : Text)
          → write_private {J = j.Error} m local live.credentials creds w ≡ (ok tt, w1)
          → (restoring j serde_registry m host local live.credentials live_creds
              (write_private {J = j.Error} m local live.config config w1).1).0
            ≡ ok tt
      pub config_back :
          (w w1 w2 : W) (creds config : Text)
          → write_private {J = j.Error} m local live.credentials creds w ≡ (ok tt, w1)
          → write_private {J = j.Error} m local live.config config w1 ≡ (ok tt, w2)
          → (restoring j serde_registry m host local live.config live_config
              (restore j serde_registry m host local live.credentials live_creds w2)).0
            ≡ ok tt

    module _ (is_live : IsLive local live) (live_creds live_config : Option Text)
        (can : CanRestore live_creds live_config) (w0 : W)
        (creds_read : reads j.Error m w0 local live.credentials ≡ ok live_creds)
        (config_read : reads j.Error m w0 local live.config ≡ ok live_config) where
      abbrev Replaced : Text → W → Result (E X j) (Unit {0}) → W → Type 0
      Replaced creds w r w1 =
          Written j.Error m lawful w local live.credentials creds r w1
          × (write_private {J = j.Error} m local live.credentials creds w ≡ (r, w1))
