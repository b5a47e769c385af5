-- ===== src/Accounts/Reach.antt =====
-- The operations on the registry in any order, whether they succeed or fail.
use oxyris.Prelude.{◌≡◌, Text, false, ok}
use oxyris.Prelude.Int.{ℤ}
use oxyris.Core.{Environment, local}
use oxyris.Accounts.Json.{Json}
use oxyris.Accounts.Machine.{Machine, M}
use oxyris.Accounts.Machine.Files.{IsLawful, is_temporary, reads}
use oxyris.Accounts.Paths.{Host, DocPaths, live_paths, registry_path}
use oxyris.Accounts.Registry.{Serde, E}
use oxyris.Accounts.Save.{save_live}
use oxyris.Accounts.Save.Registered.{IsFaithful}
use oxyris.Accounts.Save.Stored.{AreSlots}
use oxyris.Accounts.Enrol.{remove, login_new}
use oxyris.Accounts.Switch.{activate}
use oxyris.Accounts.Switch.Rollback.{IsLive}
use oxyris.Accounts.Unique.{Unique, AreApart}

module _ {W X : Type 0} (j : Json) (serde_registry : Serde j.Error) (m : Machine W X)
    (host : Host X) where
  -- One operation. A login console leaves the registry's file alone.
  pub data Step (w : W) : W → Type 0 where
    saved :
        {w' : W} (new_id : Text) (now_ms : ℤ) (env : Environment)
        → (save_live j serde_registry m host new_id now_ms env w).1 ≡ w'
        → Step w w'
    activated :
        {w' : W} (new_id : Text) (now_ms : ℤ) (env : Environment) (id : Text)
        → (activate j serde_registry m host new_id now_ms env id w).1 ≡ w'
        → Step w w'
    removed :
        {w' : W} (env : Environment) (id : Text)
        → (remove j serde_registry m host env id w).1 ≡ w'
        → Step w w'
    logged_in :
        {w' : W} (new_id : Text) (now_ms : ℤ) (env : Environment)
        (console : Environment → Text → M W (E X j) (Unit {0}))
        → ((dir : Text) (w1 : W)
            → reads j.Error m (console env dir w1).1 local (registry_path j.Error host)
              ≡ reads j.Error m w1 local (registry_path j.Error host))
        → (login_new j serde_registry m host new_id now_ms console env w).1 ≡ w'
        → Step w w'

  pub data Steps (w : W) : W → Type 0 where
    here : Steps w w
    next : {w1 w2 : W} → Steps w w1 → Step w1 w2 → Steps w w2

  -- Where the files of the registry, of the slots and of the live logins lie apart
  pub record Layout (lawful : IsLawful j.Error m) (faithful : IsFaithful serde_registry)
      : Type 0 where
    pub kept : is_temporary (registry_path j.Error host) ≡ false
    pub slots : (env : Environment) → AreSlots j serde_registry m host env
    pub directories :
        (env : Environment) → AreApart j serde_registry m host lawful faithful kept env (slots env)
    pub is_live :
        (env : Environment) (live : DocPaths)
        → live_paths j.Error host env ≡ ok live
        → IsLive j serde_registry m host lawful env live

  module _ (lawful : IsLawful j.Error m) (faithful : IsFaithful serde_registry)
      (layout : Layout lawful faithful) where
    abbrev pub OneEach : W → Type 0
    OneEach = Unique j serde_registry m host lawful faithful layout.kept
