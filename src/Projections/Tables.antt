-- ===== src/Projections/Tables.antt =====
-- The projects, worktrees and actions of apps/desktop/src/infra/projections.rs: each table is the
-- list of its rows.
use oxyris.Prelude.{
  ℕ, ◌==◌, Text, codes, Bool, not, Option, none, some, List, [], ◌∷◌, ◌++◌, filter, find, map,
  eq_text, if◌then◌else◌,
}
use oxyris.Prelude.F64.{F64}
use oxyris.Core.{AggregateId, DateTime, Environment, local, wsl}
use oxyris.Domain.Project.{
  ProjectEvent, project_created, project_renamed, project_logo_set, project_workspace_set,
  project_sort_order_set, project_deleted,
}
use oxyris.Domain.Worktree.{WorktreeEvent, worktree_created, worktree_removed}
use oxyris.Domain.Action.{ActionEvent, action_registered, action_updated, action_removed}
use oxyris.Store.{StoredEvent}

-- `projections_projects`
pub record ProjectColumns : Type 0 where
  pub id : AggregateId
  pub name : Text
  pub environment_kind : Text
  pub environment_distro : Option Text
  pub root_path : Text
  pub session_count : ℕ
  pub created_at : DateTime
  pub last_activity_at : DateTime
  pub logo_path : Option Text
  pub workspace : Option Text
  pub sort_order : Option F64

-- `projections_worktrees`, and `WorktreeRow`
pub record WorktreeRow : Type 0 where
  pub id : AggregateId
  pub project_id : AggregateId
  pub name : Text
  pub branch : Text
  pub path : Text
  pub is_primary : Bool
  pub created_at : DateTime
  pub removed_at : Option DateTime

-- `projections_actions`
pub record ActionColumns : Type 0 where
  pub id : AggregateId
  pub project_id : AggregateId
  pub name : Text
  pub command : Text
  pub keybinding : Option Text
  pub auto_run_on_worktree_create : Bool
  pub icon : Option Text
  pub action_kind : Option Text
  pub show_in_sidebar : Bool
  pub created_at : DateTime
  pub updated_at : DateTime
  pub removed_at : Option DateTime

-- `UPDATE … WHERE id = ?`, `DELETE … WHERE id = ?` and `INSERT OR REPLACE`, by the primary key `key`
module _ {Row : Type 0} (key : Row → AggregateId) where
  unfoldable pub update_where : AggregateId → (Row → Row) → List Row → List Row
  update_where id f rows = map (λ r. if key r == id then f r else r) rows

  unfoldable pub delete_where : AggregateId → List Row → List Row
  delete_where id rows = filter (λ r. not (key r == id)) rows

  unfoldable pub insert_or_replace : Row → List Row → List Row
  unfolding delete_where
  insert_or_replace r rows = delete_where (key r) rows ++ r ∷ []

unfoldable pub environment_columns : Environment → Text × Option Text
environment_columns local = (codes "windows", none)
environment_columns (wsl distro) = (codes "wsl", some distro)

abbrev or_empty : Option Text → Text
or_empty none = []
or_empty (some s) = s

-- The environment that `row_to_project` reads; none is its error.
unfoldable pub environment_of : Text → Option Text → Option Environment
environment_of kind distro =
    if eq_text kind (codes "windows")
    then some local
    else if eq_text kind (codes "wsl")
    then some (wsl (or_empty distro))
    else none

abbrev pub project_key : ProjectColumns → AggregateId
project_key r = r.id

-- An update of a project's row, which also records the activity.
abbrev touch :
    {Payload : Type 0}
    → StoredEvent Payload
    → (ProjectColumns → ProjectColumns)
    → List ProjectColumns
    → List ProjectColumns
touch stored f rows =
    update_where project_key stored.aggregate_id
      (λ r. record (f r) { last_activity_at = stored.timestamp }) rows

-- `epoch` is `timestamp() as f64` of an instant.
unfoldable pub apply_project_event :
    {Payload : Type 0}
    → (DateTime → F64)
    → List ProjectColumns
    → StoredEvent Payload
    → ProjectEvent
    → List ProjectColumns
unfolding environment_columns update_where delete_where insert_or_replace
apply_project_event epoch rows stored
      (project_created id name environment root_path workspace created_at) =
    let columns = environment_columns environment in
    insert_or_replace project_key
      (record {
        id = id;
        name = name;
        environment_kind = columns.0;
        environment_distro = columns.1;
        root_path = root_path;
        session_count = 0;
        created_at = created_at;
        last_activity_at = stored.timestamp;
        logo_path = none;
        workspace = workspace;
        sort_order = some (epoch created_at);
      })
      rows
apply_project_event epoch rows stored (project_renamed new_name) =
    touch stored (λ r. record r { name = new_name }) rows
apply_project_event epoch rows stored (project_logo_set logo_path) =
    touch stored (λ r. record r { logo_path = logo_path }) rows
apply_project_event epoch rows stored (project_workspace_set workspace) =
    touch stored (λ r. record r { workspace = workspace }) rows
apply_project_event epoch rows stored (project_sort_order_set sort_order) =
    touch stored (λ r. record r { sort_order = some sort_order }) rows
apply_project_event epoch rows stored project_deleted =
    delete_where project_key stored.aggregate_id rows

abbrev worktree_key : WorktreeRow → AggregateId
worktree_key r = r.id

unfoldable pub apply_worktree_event :
    {Payload : Type 0} → List WorktreeRow → StoredEvent Payload → WorktreeEvent → List WorktreeRow
unfolding update_where insert_or_replace
apply_worktree_event rows stored
      (worktree_created id project_id name branch path is_primary created_at) =
    insert_or_replace worktree_key
      (record {
        id = id;
        project_id = project_id;
        name = name;
        branch = branch;
        path = path;
        is_primary = is_primary;
        created_at = created_at;
        removed_at = none;
      })
      rows
apply_worktree_event rows stored (worktree_removed removed_at) =
    update_where worktree_key stored.aggregate_id (λ r. record r { removed_at = some removed_at })
      rows

abbrev action_key : ActionColumns → AggregateId
action_key r = r.id

unfoldable pub apply_action_event :
    {Payload : Type 0} → List ActionColumns → StoredEvent Payload → ActionEvent → List ActionColumns
unfolding update_where insert_or_replace
apply_action_event rows stored
      (action_registered id project_id name command keybinding auto_run icon kind show_in_sidebar
        created_at) =
    insert_or_replace action_key
      (record {
        id = id;
        project_id = project_id;
        name = name;
        command = command;
        keybinding = keybinding;
        auto_run_on_worktree_create = auto_run;
        icon = some icon;
        action_kind = some kind;
        show_in_sidebar = show_in_sidebar;
        created_at = created_at;
        updated_at = created_at;
        removed_at = none;
      })
      rows
apply_action_event rows stored
      (action_updated name command keybinding auto_run icon kind show_in_sidebar updated_at) =
    update_where action_key stored.aggregate_id
      (λ r. record r {
        name = name;
        command = command;
        keybinding = keybinding;
        auto_run_on_worktree_create = auto_run;
        icon = some icon;
        action_kind = some kind;
        show_in_sidebar = show_in_sidebar;
        updated_at = updated_at;
      })
      rows
apply_action_event rows stored (action_removed removed_at) =
    update_where action_key stored.aggregate_id (λ r. record r { removed_at = some removed_at })
      rows

unfoldable pub get_worktree : List WorktreeRow → AggregateId → Option WorktreeRow
get_worktree rows id = find (λ r. r.id == id) rows
