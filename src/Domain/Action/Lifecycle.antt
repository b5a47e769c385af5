-- ===== src/Domain/Action/Lifecycle.antt =====
-- The life of an action: registered, updated any number of times, then removed for good.
use oxyris.Prelude.{ℕ, ◌≡◌, ◌≢◌, Text, Bool, Option, none, some, List, [], trim, ok, err, arith}
use oxyris.Core.{apply_all, replay}
use oxyris.Core.History.{History, replay-invariant}
use oxyris.Domain.Action.{
  ActionData, ActionState, ActionCommand, ActionEvent, ActionError, register, update, remove,
  already_exists, already_removed, decide, apply, action,
}

abbrev pub IsValidInner : Option ActionData → Type 0
IsValidInner none = Unit
IsValidInner (some d) = (trim d.name ≢ []) × (trim d.command ≢ [])

step-IsValid :
    (state : ActionState) (cmd : ActionCommand) (new : List ActionEvent)
    → IsValidInner state.inner
    → decide state cmd ≡ ok new
    → IsValidInner (apply_all action state new).inner
unfolding decide apply_all apply
step-IsValid state (register _ _ _ _ _ _ _ _ _ _) new v h = ground arith
step-IsValid state (update _ _ _ _ _ _ _ _) new v h = ground arith
step-IsValid state (remove now) new v h = ground arith

-- An action that a log of accepted commands replays to has a name and a command that are not
-- blank.
pub replay-action-IsValid :
    {events : List ActionEvent} → History action events → IsValidInner (replay action events).inner
replay-action-IsValid h = replay-invariant action (λ s. IsValidInner s.inner) tt step-IsValid h

-- The error with which a command meets an action that was removed.
abbrev pub removed_error : ActionCommand → ActionError
removed_error (register _ _ _ _ _ _ _ _ _ _) = already_exists
removed_error _ = already_removed

-- After an accepted removal every command is refused: a registration because the action exists,
-- an update or a removal because it was removed.
pub decide-removed :
    (state : ActionState) (now : ℕ) (new : List ActionEvent) (cmd : ActionCommand)
    → decide state (remove now) ≡ ok new
    → decide (apply_all action state new) cmd ≡ err (removed_error cmd)
unfolding decide apply_all apply
decide-removed state now new (register _ _ _ _ _ _ _ _ _ _) h = ground arith
decide-removed state now new (update _ _ _ _ _ _ _ _) h = ground arith
decide-removed state now new (remove later) h = ground arith

-- An accepted update keeps the identifier, the project, the creation time and the absence of a
-- removal, and sets every other field to what the command says.
pub decide-update :
    (d : ActionData) (name command : Text) (keybinding : Option Text) (auto : Bool)
    (icon kind : Text) (show : Bool) (now : ℕ) (new : List ActionEvent)
    → decide (record { inner = some d }) (update name command keybinding auto icon kind show now)
      ≡ ok new
    → (apply_all action (record { inner = some d }) new).inner
      ≡ some (record {
        id = d.id;
        project_id = d.project_id;
        name = name;
        command = command;
        keybinding = keybinding;
        auto_run_on_worktree_create = auto;
        icon = icon;
        kind = kind;
        show_in_sidebar = show;
        created_at = d.created_at;
        updated_at = now;
        removed_at = none;
      })
unfolding decide apply_all apply
decide-update d name command keybinding auto icon kind show now new h = ground arith
