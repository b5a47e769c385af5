-- ===== src/Projections/Queries.antt =====
-- What apps/desktop/src/infra/projections.rs reads of its tables. Where SQL leaves the order of equal
-- rows open, they keep that of the table.
use oxyris.Prelude.{
  ℕ, ◌==◌, ltb, leb, Text, codes, Bool, true, false, not, ◌&&◌, ◌||◌, Option, none, some, List, [],
  ◌∷◌, map, filter, find, is_none, if◌then◌else◌,
}
use oxyris.Prelude.F64.{F64}
use oxyris.Core.{AggregateId, DateTime, Environment}
use oxyris.Domain.Session.{SessionStatus, running, idle, stopped, errored}
use oxyris.Projections.{SessionRow}
use oxyris.Projections.Tables.{ProjectColumns, WorktreeRow, ActionColumns, environment_of}

pub record ProjectRow : Type 0 where
  pub id : AggregateId
  pub name : Text
  pub environment : Environment
  pub root_path : Text
  pub logo_path : Option Text
  pub workspace : Option Text
  pub created_at : DateTime
  pub last_activity_at : DateTime
  pub session_count : ℕ
  pub sort_order : F64

pub record ActionRow : Type 0 where
  pub id : AggregateId
  pub project_id : AggregateId
  pub name : Text
  pub command : Text
  pub keybinding : Option Text
  pub auto_run_on_worktree_create : Bool
  pub icon : Text
  pub kind : Text
  pub show_in_sidebar : Bool
  pub created_at : DateTime
  pub updated_at : DateTime

-- ORDER BY, where `first x y` tells that `x` does not stand after `y`
module _ {Row : Type 0} (first : Row → Row → Bool) where
  unfoldable pub insert_ordered : Row → List Row → List Row
  insert_ordered x [] = x ∷ []
  insert_ordered x (y ∷ ys) =
      let rest = insert_ordered x ys in if first x y then x ∷ y ∷ ys else y ∷ rest

  unfoldable pub order_by : List Row → List Row
  unfolding insert_ordered
  order_by [] = []
  order_by (x ∷ xs) = insert_ordered x (order_by xs)

abbrev or_text : Option Text → Text → Text
or_text none t = t
or_text (some s) t = s

abbrev pub or_epoch : Option F64 → F64 → F64
or_epoch none e = e
or_epoch (some x) e = x

-- `epoch` is `timestamp() as f64` of an instant; none is the error of an unknown environment.
unfoldable pub row_to_project : (DateTime → F64) → ProjectColumns → Option ProjectRow
row_to_project epoch r = elim (environment_of r.environment_kind r.environment_distro) [
  | none ↦ none
  | some environment ↦ some (record {
    id = r.id;
    name = r.name;
    environment = environment;
    root_path = r.root_path;
    logo_path = r.logo_path;
    workspace = r.workspace;
    created_at = r.created_at;
    last_activity_at = r.last_activity_at;
    session_count = r.session_count;
    sort_order = or_epoch r.sort_order (epoch r.created_at);
  })
]

-- A row that does not read is an error, none outside.
unfoldable pub get_project :
    (DateTime → F64) → List ProjectColumns → AggregateId → Option (Option ProjectRow)
unfolding row_to_project
get_project epoch rows id = elim (find (λ r. r.id == id) rows) [
  | none ↦ some none
  | some r ↦ elim (row_to_project epoch r) [ none ↦ none | some row ↦ some (some row) ]
]

-- `ORDER BY is_primary DESC, created_at ASC`
unfoldable pub primary_first : WorktreeRow → WorktreeRow → Bool
primary_first x y =
    (x.is_primary && not y.is_primary)
    || ((x.is_primary || not y.is_primary) && leb x.created_at y.created_at)

unfoldable pub list_worktrees : List WorktreeRow → AggregateId → Bool → List WorktreeRow
unfolding order_by primary_first
list_worktrees rows project_id include_removed =
    order_by primary_first
      (filter (λ r. r.project_id == project_id && (include_removed || is_none r.removed_at)) rows)

-- The columns that an old row lacks have a default.
unfoldable pub row_to_action : ActionColumns → ActionRow
row_to_action r = record {
  id = r.id;
  project_id = r.project_id;
  name = r.name;
  command = r.command;
  keybinding = r.keybinding;
  auto_run_on_worktree_create = r.auto_run_on_worktree_create;
  icon = or_text r.icon (codes "Terminal");
  kind = or_text r.action_kind (codes "terminal_command");
  show_in_sidebar = r.show_in_sidebar;
  created_at = r.created_at;
  updated_at = r.updated_at;
}

unfoldable pub list_actions : List ActionColumns → AggregateId → List ActionRow
unfolding order_by row_to_action
list_actions rows project_id = map row_to_action (
    order_by (λ x y. leb x.created_at y.created_at)
      (filter (λ r. r.project_id == project_id && is_none r.removed_at) rows))

pub record SessionSummaryRow : Type 0 where
  pub id : AggregateId
  pub project_id : AggregateId
  pub worktree_id : Option AggregateId
  pub provider_id : Text
  pub model : Text
  pub status : SessionStatus
  pub turn_count : ℕ
  pub created_at : DateTime
  pub last_activity_at : DateTime
  pub title : Option Text
  pub pinned_at : Option DateTime

-- Two optional instants: set before unset, the later first, and `tie` among equals.
abbrev pinned_before : Option DateTime → Option DateTime → Bool → Bool
pinned_before none none tie = tie
pinned_before none (some b) tie = false
pinned_before (some a) none tie = true
pinned_before (some a) (some b) tie = ltb b a || (a == b && tie)

abbrev is_running : SessionStatus → Bool
is_running running = true
is_running idle = false
is_running stopped = false
is_running errored = false

module _ {Json : Type 0} where
  unfoldable pub row_to_session_summary : SessionRow Json → SessionSummaryRow
  row_to_session_summary r = record {
    id = r.id;
    project_id = r.project_id;
    worktree_id = r.worktree_id;
    provider_id = r.provider_id;
    model = r.model;
    status = r.status;
    turn_count = r.turn_count;
    created_at = r.created_at;
    last_activity_at = r.last_activity_at;
    title = r.title;
    pinned_at = r.pinned_at;
  }

  abbrev newer : SessionRow Json → SessionRow Json → Bool
  newer x y = leb y.last_activity_at x.last_activity_at

  -- `ORDER BY pinned_at IS NULL, pinned_at DESC, last_activity_at DESC`
  unfoldable pub pinned_first : SessionRow Json → SessionRow Json → Bool
  pinned_first x y = pinned_before x.pinned_at y.pinned_at (newer x y)

  unfoldable pub list_sessions : List (SessionRow Json) → AggregateId → List SessionSummaryRow
  unfolding order_by pinned_first row_to_session_summary
  list_sessions rows project_id =
      map row_to_session_summary
        (order_by pinned_first (filter (λ r. r.project_id == project_id) rows))

  unfoldable pub list_running_sessions : List (SessionRow Json) → List SessionSummaryRow
  unfolding order_by row_to_session_summary
  list_running_sessions rows =
      map row_to_session_summary (order_by newer (filter (λ r. is_running r.status) rows))
