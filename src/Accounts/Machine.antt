-- ===== src/Accounts/Machine.antt =====
-- File access of apps/desktop/src/infra/claude_accounts.rs (`EnvFs`), routed by environment. What
-- std::fs and the agent of a distribution offer is a parameter.
pub mod Steps
pub mod Files
pub mod Writes
use oxyris.Prelude.{
  ℕ, Text, codes, Bool, true, false, ◌&&◌, not, Option, none, some, List, [], ◌∷◌, ◌++◌, Result, ok,
  err, eq_text, if◌then◌else◌, ◌≡◌,
}
use oxyris.Core.{Environment, local, wsl}
use oxyris.Accounts.Docs.{AccountDocError}

-- The answer of `fs.read`.
pub record Reply : Type 0 where
  pub truncated : Bool
  pub content : Option Text

-- `W` is the state of the machine and `X` an error of std::fs or of the agent pool.
pub record Machine (W X : Type 0) : Type 0 where
  pub is_not_found : X → Bool
  pub read_to_string : W → Text → Result X Text
  pub fs_read : W → Text → Text → Result X Reply
  -- `create_dir_all` of the parent
  pub create_parent : W → Text → Result X (Unit {0}) × W
  -- The agent creates parents; the mode, 0600 but for the registry, is not modelled.
  pub write_file : W → Environment → Text → Text → Result X (Unit {0}) × W
  pub rename : W → Environment → Text → Text → Result X (Unit {0}) × W
  -- `remove_file` and `remove_dir_all`, or `fs.delete` with `recursive`
  pub delete : W → Environment → Text → Bool → Result X (Unit {0}) × W
  -- `Uuid::now_v7` in its simple form, for the name of a temporary file
  pub uuid : W → Text
  pub wsl_distro_running : W → Text → Bool

-- `J` is an error of serde_json.
pub data AccountsError (X J : Type 0) : Type 0 where
  io : X → AccountsError X J
  agent : X → AccountsError X J
  doc : AccountDocError J → AccountsError X J
  serde : J → AccountsError X J
  not_found : AccountsError X J
  no_live_login : AccountsError X J
  truncated : Text → AccountsError X J
  verify_failed : Text → AccountsError X J
  spawn : Text → AccountsError X J
  wsl_offline : Text → AccountsError X J

unfoldable pub eq_env : Environment → Environment → Bool
eq_env local local = true
eq_env (wsl a) (wsl b) = eq_text a b
eq_env _ _ = false

-- An operation that may fail, and leaves the machine as far as it came.
abbrev pub M : Type 0 → Type 0 → Type 0 → Type 0
M W E A = W → Result E A × W

abbrev pub and_go : {W E A B : Type 0} → Result E A × W → (A → M W E B) → Result E B × W
and_go (ok a, w) f = f a w
and_go (err e, w) f = (err e, w)

infixl 5 ◌>>=◌ ◌>>◌
unfoldable pub ◌>>=◌ : {W E A B : Type 0} → M W E A → (A → M W E B) → M W E B
◌>>=◌ m f w = and_go (m w) f

abbrev pub ◌>>◌ : {W E A B : Type 0} → M W E A → M W E B → M W E B
m >> k = m >>= λ _. k

-- A computation without the machine
abbrev pub lift : {W E A : Type 0} → Result E A → M W E A
lift r w = (r, w)

-- An error of the machine in an environment, as `?` converts it
abbrev pub from_machine : {X J A : Type 0} → Environment → Result X A → Result (AccountsError X J) A
from_machine env (ok a) = ok a
from_machine local (err e) = err (io e)
from_machine (wsl distro) (err e) = err (agent e)

abbrev pub on_machine :
    {W X J A : Type 0} → Environment → Result X A × W → Result (AccountsError X J) A × W
on_machine env (r, w) = (from_machine env r, w)

-- `{path}.oxyris-{uuid}.tmp`
unfoldable pub temporary : Text → Text → Text
temporary path uuid = path ++ (codes ".oxyris-" ++ (uuid ++ codes ".tmp"))

module _ {W X J : Type 0} (m : Machine W X) where
  unfoldable pub read : W → Environment → Text → Result (AccountsError X J) (Option Text)
  read w local path = elim (m.read_to_string w path) [
    | ok s ↦ ok (some s)
    | err e ↦ if m.is_not_found e then ok none else err (io e)
  ]
  read w (wsl distro) path = elim (m.fs_read w distro path) [
    | ok reply ↦ if reply.truncated then err (truncated path) else ok reply.content
    | err e ↦ if m.is_not_found e then ok none else err (agent e)
  ]

  -- `NotFound` is no error.
  abbrev pub gone_is_fine :
      Environment → Result X (Unit {0}) × W → Result (AccountsError X J) (Unit {0}) × W
  gone_is_fine env (ok _, w) = (ok tt, w)
  gone_is_fine env (err e, w) =
      if m.is_not_found e then (ok tt, w) else (from_machine env (err e), w)

  unfoldable pub remove_path : Environment → Text → Bool → M W (AccountsError X J) (Unit {0})
  remove_path env path recursive w = gone_is_fine env (m.delete w env path recursive)

  -- A failed rename removes the temporary file, whether that works or not.
  abbrev after_rename :
      Environment → Text → Result X (Unit {0}) × W → Result (AccountsError X J) (Unit {0}) × W
  after_rename env tmp (ok _, w) = (ok tt, w)
  after_rename env tmp (err e, w) = (from_machine env (err e), (remove_path env tmp false w).1)

  unfoldable pub create_parent_dir : Environment → Text → M W (AccountsError X J) (Unit {0})
  create_parent_dir local path w = on_machine local (m.create_parent w path)
  create_parent_dir (wsl distro) path w = (ok tt, w)

  unfoldable pub write_private : Environment → Text → Text → M W (AccountsError X J) (Unit {0})
  unfolding create_parent_dir remove_path
  write_private env path contents w =
      let tmp = temporary path (m.uuid w) in
      (do
        create_parent_dir env path
        (λ w. on_machine env (m.write_file w env tmp contents))
        (λ w. after_rename env tmp (m.rename w env tmp path)))
        w
