-- ===== src/Accounts/Machine/Files.antt =====
-- The files as the accounts read them, and the laws of the machine under `EnvFs`.
use oxyris.Prelude.{
  ◌≡◌, Text, codes, Bool, true, false, ◌&&◌, Option, none, some, ◌++◌, Result, ok, err, eq_text,
  ◌||◌, ◌⊎◌, ◌*◌, leb, byte_length, starts_with, ends_with,
}
use oxyris.Core.{Environment, local, wsl}
use oxyris.Accounts.Machine.{Machine, AccountsError, eq_env, read}

-- The two environments and paths name one file.
abbrev pub is_file : Environment → Text → Environment → Text → Bool
is_file env path env' path' = eq_env env env' && eq_text path path'

-- The file is the directory, or lies in it.
abbrev pub is_under : Environment → Text → Environment → Text → Bool
is_under env dir env' path' =
    eq_env env env' && (eq_text path' dir || starts_with path' (dir ++ codes "/"))

-- The agent reads no file of more than 64 MiB.
abbrev pub fits : Environment → Text → Bool
fits local contents = true
fits (wsl distro) contents = leb (byte_length contents) (64 * 1024 * 1024)

abbrev pub is_temporary : Text → Bool
is_temporary path = ends_with path (codes ".tmp")

module _ {W X : Type 0} (J : Type 0) (m : Machine W X) where
  abbrev pub reads : W → Environment → Text → Result (AccountsError X J) (Option Text)
  reads = read {J = J} m

  -- Every file reads in `w'` as in `w`.
  abbrev pub Same : W → W → Type 0
  Same w w' = (env : Environment) (path : Text) → reads w' env path ≡ reads w env path

  -- What std::fs and the agent are documented to do: an operation changes the file that it names,
  -- a write that succeeds can be read back, up to the length that the agent reads, and a rename
  -- replaces its target at once or not at all. A rename that std::fs refuses has changed nothing;
  -- one that the agent's pool answers with an error may have been carried out.
  pub record IsLawful : Type 0 where
    pub after_create_parent :
        (w w' : W) (path : Text) (r : Result X (Unit {0}))
        → m.create_parent w path ≡ (r, w')
        → Same w w'
    pub reads-write_file :
        (w w' : W) (env : Environment) (path contents : Text)
        → m.write_file w env path contents ≡ (ok tt, w')
        → fits env contents ≡ true
        → reads w' env path ≡ ok (some contents)
    pub after_write_file :
        (w w' : W) (env : Environment) (path contents : Text) (r : Result X (Unit {0}))
        (env' : Environment) (path' : Text)
        → m.write_file w env path contents ≡ (r, w')
        → is_file env path env' path' ≡ false
        → reads w' env' path' ≡ reads w env' path'
    pub reads-rename :
        (w w' : W) (env : Environment) (from to contents : Text)
        → m.rename w env from to ≡ (ok tt, w')
        → reads w env from ≡ ok (some contents)
        → reads w' env to ≡ ok (some contents)
    pub after_rename_ok :
        (w w' : W) (env : Environment) (from to : Text) (env' : Environment) (path' : Text)
        → m.rename w env from to ≡ (ok tt, w')
        → is_file env from env' path' ≡ false
        → is_file env to env' path' ≡ false
        → reads w' env' path' ≡ reads w env' path'
    pub after_rename_err :
        (w w' : W) (from to : Text) (e : X) → m.rename w local from to ≡ (err e, w') → Same w w'
    pub after_rename_lost :
        (w w' : W) (distro from to : Text) (e : X) (env' : Environment) (path' : Text)
        → m.rename w (wsl distro) from to ≡ (err e, w')
        → is_file (wsl distro) from env' path' ≡ false
        → is_file (wsl distro) to env' path' ≡ false
        → reads w' env' path' ≡ reads w env' path'
    pub reads-rename_lost :
        (w w' : W) (distro from to contents : Text) (e : X)
        → m.rename w (wsl distro) from to ≡ (err e, w')
        → reads w (wsl distro) from ≡ ok (some contents)
        → (reads w' (wsl distro) to ≡ reads w (wsl distro) to)
          ⊎ (reads w' (wsl distro) to ≡ ok (some contents))
    pub after_delete :
        (w w' : W) (env : Environment) (path : Text) (r : Result X (Unit {0})) (env' : Environment)
        (path' : Text)
        → m.delete w env path false ≡ (r, w')
        → is_file env path env' path' ≡ false
        → reads w' env' path' ≡ reads w env' path'
    pub after_delete_all :
        (w w' : W) (env : Environment) (dir : Text) (r : Result X (Unit {0})) (env' : Environment)
        (path' : Text)
        → m.delete w env dir true ≡ (r, w')
        → is_under env dir env' path' ≡ false
        → reads w' env' path' ≡ reads w env' path'
    pub reads-delete :
        (w w' : W) (env : Environment) (path : Text)
        → m.delete w env path false ≡ (ok tt, w')
        → reads w' env path ≡ ok none
    pub reads-delete_absent :
        (w w' : W) (env : Environment) (path : Text) (e : X)
        → m.delete w env path false ≡ (err e, w')
        → m.is_not_found e ≡ true
        → reads w' env path ≡ ok none

  -- The machine takes no document that is too long to be read back.
  abbrev pub IsRoomy : Environment → Type 0
  IsRoomy env =
      (w : W) (path contents : Text)
      → (m.write_file w env path contents).0 ≡ ok tt
      → fits env contents ≡ true

  -- Every file that is not a temporary one reads in `w'` as in `w`.
  abbrev pub SameFiles : W → W → Type 0
  SameFiles w w' =
      (env : Environment) (path : Text)
      → is_temporary path ≡ false
      → reads w' env path ≡ reads w env path
