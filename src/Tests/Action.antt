-- ===== src/Tests/Action.antt =====
-- The action aggregate at concrete inputs.
use oxyris.Prelude.{refl, codes, true, false, none, some, [], ◌∷◌, trim}
use oxyris.Core.{apply_all, replay}
use oxyris.Core.History.{History, start, accept}
use oxyris.Domain.Action.{
  ActionData, ActionState, ActionEvent, register, update, action_registered, action_updated, decide,
  apply, action,
}

abbrev registered : ActionEvent
registered =
    action_registered 1 2 (codes "Build") (codes "make") none true (codes "Play") (codes "one_shot")
      true 5

abbrev updated : ActionEvent
updated =
    action_updated (codes "Test") (codes "make test") none false (codes "Play") (codes "one_shot")
      true 6

action_log : History action (registered ∷ updated ∷ [])
unfolding decide trim replay apply_all apply
action_log =
    accept
      (update (codes "Test") (codes "make test") none false (codes "Play") (codes "one_shot") true
        6)
      (accept
        (register 1 2 (codes "Build") (codes "make") none true (codes "Play") (codes "one_shot")
          true 5)
        start refl)
      refl

abbrev data_one : ActionData
data_one = record {
  id = 1;
  project_id = 2;
  name = codes "Build";
  command = codes "make";
  keybinding = none;
  auto_run_on_worktree_create = true;
  icon = codes "Play";
  kind = codes "one_shot";
  show_in_sidebar = true;
  created_at = 5;
  updated_at = 5;
  removed_at = none;
}

abbrev one : ActionState
one = record { inner = some data_one }
