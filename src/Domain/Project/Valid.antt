-- ===== src/Domain/Project/Valid.antt =====
-- What `Project::decide` guarantees of the states and events that it lets through.
use oxyris.Prelude.{
  ◌≤◌, subst, ◌≡◌, ◌≢◌, Text, true, Option, none, some, List, [], ◌∷◌, length, All, trim, trim-trim,
  Result, ok, err, arith,
}
use oxyris.Prelude.F64.{F64, is_finite}
use oxyris.Core.{apply_all, replay}
use oxyris.Core.History.{History, replay-invariant}
use oxyris.Domain.Project.{
  ProjectData, ProjectState, ProjectCommand, ProjectEvent, ProjectError, project_created,
  project_renamed, project_logo_set, project_workspace_set, project_sort_order_set, project_deleted,
  create, rename, set_logo, set_workspace, set_sort_order, delete, max_name_len, validate_name,
  normalize_workspace, decide, apply, project,
}

-- A name that the sidebar can show: trimmed, not empty, at most 128 characters.
pub record IsName (name : Text) : Type 0 where
  pub trimmed : trim name ≡ name
  pub filled : name ≢ []
  pub short : length name ≤ max_name_len

-- A label is absent, or trimmed and not empty.
abbrev pub IsLabel : Option Text → Type 0
IsLabel none = Unit
IsLabel (some s) = (trim s ≡ s) × (s ≢ [])

abbrev pub IsFiniteOrder : Option F64 → Type 0
IsFiniteOrder none = Unit
IsFiniteOrder (some x) = is_finite x ≡ true

pub record IsValidData (d : ProjectData) : Type 0 where
  pub name : IsName d.name
  pub root_path : trim d.root_path ≢ []
  pub logo_path : IsLabel d.logo_path
  pub workspace : IsLabel d.workspace
  pub sort_order : IsFiniteOrder d.sort_order

abbrev pub IsValidInner : Option ProjectData → Type 0
IsValidInner none = Unit
IsValidInner (some d) = IsValidData d

abbrev pub IsValid : ProjectState → Type 0
IsValid state = IsValidInner state.inner

abbrev pub IsValidEvent : ProjectEvent → Type 0
IsValidEvent (project_created id name environment root_path workspace now) =
    IsName name × (trim root_path ≢ []) × IsLabel workspace
IsValidEvent (project_renamed name) = IsName name
IsValidEvent (project_logo_set logo_path) = IsLabel logo_path
IsValidEvent (project_workspace_set workspace) = IsLabel workspace
IsValidEvent (project_sort_order_set sort_order) = is_finite sort_order ≡ true
IsValidEvent project_deleted = Unit

abbrev Named : Result ProjectError Text → Type 0
Named (ok name) = IsName name
Named (err e) = Unit

validate_name-IsName : (s : Text) → Named (validate_name s)
unfolding validate_name
validate_name-IsName s = ground (arith, trim-trim s)

pub normalize_workspace-IsLabel : (ws : Option Text) → IsLabel (normalize_workspace ws)
unfolding normalize_workspace
normalize_workspace-IsLabel none = tt
normalize_workspace-IsLabel (some s) = ground (arith, trim-trim s)

abbrev Decided : Result ProjectError (List ProjectEvent) → Type 0
Decided (ok events) = All IsValidEvent events
Decided (err e) = Unit

decide-IsValidEvent : (state : ProjectState) (cmd : ProjectCommand) → Decided (decide state cmd)
unfolding decide
decide-IsValidEvent state (create id name environment root_path workspace now) =
    ground (arith, validate_name-IsName name, normalize_workspace-IsLabel workspace)
decide-IsValidEvent state (rename new_name) = ground (arith, validate_name-IsName new_name)
decide-IsValidEvent state (set_logo logo_path) =
    ground (arith, normalize_workspace-IsLabel logo_path)
decide-IsValidEvent state (set_workspace workspace) =
    ground (arith, normalize_workspace-IsLabel workspace)
decide-IsValidEvent state (set_sort_order sort_order) = ground arith
decide-IsValidEvent state delete = ground arith

pub apply-IsValid :
    (state : ProjectState) (event : ProjectEvent)
    → IsValid state
    → IsValidEvent event
    → IsValid (apply state event)
unfolding apply
apply-IsValid state event v h = ground arith

apply_all-IsValid :
    (state : ProjectState) (events : List ProjectEvent)
    → IsValid state
    → All IsValidEvent events
    → IsValid (apply_all project state events)
unfolding apply_all
apply_all-IsValid state [] v h = v
apply_all-IsValid state (e ∷ es) v (he, hes) =
    apply_all-IsValid (apply state e) es (apply-IsValid state e v he) hes

step-IsValid :
    (state : ProjectState) (cmd : ProjectCommand) (new : List ProjectEvent)
    → IsValid state
    → decide state cmd ≡ ok new
    → IsValid (apply_all project state new)
step-IsValid state cmd new v e =
    apply_all-IsValid state new v (subst Decided e (decide-IsValidEvent state cmd))

-- Every project that a log of accepted commands replays to has a trimmed name of 1 to 128
-- characters, a root path that is not blank, a logo path and a workspace that are absent or
-- trimmed and not empty, and a sort order that is absent or finite.
pub replay-project-IsValid :
    {events : List ProjectEvent} → History project events → IsValid (replay project events)
replay-project-IsValid h = replay-invariant project IsValid tt step-IsValid h
