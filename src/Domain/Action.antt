-- ===== src/Domain/Action.antt =====
-- apps/desktop/src/domain/action.rs: a shell command that a user attached to a project.
pub mod Lifecycle
use oxyris.Prelude.{
  Text, Bool, true, false, ◌||◌, Option, none, some, List, [], ◌∷◌, is_empty, trim, Result, ok, err,
  ◌>>=◌, ◌>>◌, refuse_if, ok_or, is_some, map_option,
}
use oxyris.Core.{AggregateId, DateTime, Aggregate}

pub record ActionData : Type 0 where
  pub id : AggregateId
  pub project_id : AggregateId
  pub name : Text
  pub command : Text
  pub keybinding : Option Text
  pub auto_run_on_worktree_create : Bool
  pub icon : Text
  pub kind : Text
  pub show_in_sidebar : Bool
  pub created_at : DateTime
  pub updated_at : DateTime
  pub removed_at : Option DateTime

pub record ActionState : Type 0 where
  pub inner : Option ActionData

-- The fields in the order of the source: `id`, `project_id`, `name`, `command`, `keybinding`,
-- `auto_run_on_worktree_create`, `icon`, `kind`, `show_in_sidebar` and the time.
pub data ActionCommand : Type 0 where
  register :
      AggregateId
      → AggregateId
      → Text
      → Text
      → Option Text
      → Bool
      → Text
      → Text
      → Bool
      → DateTime
      → ActionCommand
  update : Text → Text → Option Text → Bool → Text → Text → Bool → DateTime → ActionCommand
  remove : DateTime → ActionCommand

pub data ActionEvent : Type 0 where
  action_registered :
      AggregateId
      → AggregateId
      → Text
      → Text
      → Option Text
      → Bool
      → Text
      → Text
      → Bool
      → DateTime
      → ActionEvent
  action_updated : Text → Text → Option Text → Bool → Text → Text → Bool → DateTime → ActionEvent
  action_removed : DateTime → ActionEvent

pub data ActionError : Type 0 where
  already_exists not_found already_removed invalid_fields : ActionError

-- `match cmd` of `Action::decide`, on the field `state.inner`
decide_inner : Option ActionData → ActionCommand → Result ActionError (List ActionEvent)
decide_inner inner (register id project_id name command keybinding auto icon kind show now) = do
  refuse_if (is_some inner) already_exists
  refuse_if (is_empty (trim name) || is_empty (trim command)) invalid_fields
  ok (action_registered id project_id name command keybinding auto icon kind show now ∷ [])
decide_inner inner (update name command keybinding auto icon kind show now) = do
  current ← ok_or inner not_found
  refuse_if (is_some current.removed_at) already_removed
  refuse_if (is_empty (trim name) || is_empty (trim command)) invalid_fields
  ok (action_updated name command keybinding auto icon kind show now ∷ [])
decide_inner inner (remove now) = do
  current ← ok_or inner not_found
  refuse_if (is_some current.removed_at) already_removed
  ok (action_removed now ∷ [])

unfoldable pub decide : ActionState → ActionCommand → Result ActionError (List ActionEvent)
unfolding decide_inner
decide state cmd = decide_inner state.inner cmd

-- `if let Some(data) = state.inner.as_mut() { … }`
with_data : ActionState → (ActionData → ActionData) → ActionState
with_data state f = record { inner = map_option f state.inner }

unfoldable pub apply : ActionState → ActionEvent → ActionState
unfolding with_data
apply state (action_registered id project_id name command keybinding auto icon kind show at) =
    record {
      inner = some (record {
        id = id;
        project_id = project_id;
        name = name;
        command = command;
        keybinding = keybinding;
        auto_run_on_worktree_create = auto;
        icon = icon;
        kind = kind;
        show_in_sidebar = show;
        created_at = at;
        updated_at = at;
        removed_at = none;
      });
    }
apply state (action_updated name command keybinding auto icon kind show at) = with_data state (λ d.
    record d {
      name = name;
      command = command;
      keybinding = keybinding;
      auto_run_on_worktree_create = auto;
      icon = icon;
      kind = kind;
      show_in_sidebar = show;
      updated_at = at;
    })
apply state (action_removed at) = with_data state (λ d. record d { removed_at = some at })

abbrev pub action : Aggregate ActionState ActionCommand ActionEvent ActionError
action = record { default = record { inner = none }; decide = decide; apply = apply }
