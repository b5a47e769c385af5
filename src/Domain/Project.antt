-- ===== src/Domain/Project.antt =====
-- apps/desktop/src/domain/project.rs: a repository that Oxyris knows.
pub mod Valid
pub mod Commands
use oxyris.Prelude.{
  ℕ, Text, Bool, true, false, not, ◌==◌, ltb, Option, none, some, List, [], ◌∷◌, length, is_empty,
  trim, eq_text, eq_opt_text, Result, ok, err, ◌>>=◌, ◌>>◌, refuse_if, ok_or, is_some, is_none,
  map_option, filter_option, if◌then◌else◌,
}
use oxyris.Prelude.F64.{F64, is_finite, eq_opt_f64}
use oxyris.Core.{AggregateId, DateTime, Environment, Aggregate}

pub record ProjectData : Type 0 where
  pub id : AggregateId
  pub name : Text
  pub environment : Environment
  pub root_path : Text
  pub logo_path : Option Text
  pub workspace : Option Text
  pub created_at : DateTime
  pub sort_order : Option F64

pub record ProjectState : Type 0 where
  pub inner : Option ProjectData

pub data ProjectCommand : Type 0 where
  create : AggregateId → Text → Environment → Text → Option Text → DateTime → ProjectCommand
  rename : Text → ProjectCommand
  set_logo : Option Text → ProjectCommand
  set_workspace : Option Text → ProjectCommand
  set_sort_order : F64 → ProjectCommand
  delete : ProjectCommand

pub data ProjectEvent : Type 0 where
  project_created : AggregateId → Text → Environment → Text → Option Text → DateTime → ProjectEvent
  project_renamed : Text → ProjectEvent
  project_logo_set : Option Text → ProjectEvent
  project_workspace_set : Option Text → ProjectEvent
  project_sort_order_set : F64 → ProjectEvent
  project_deleted : ProjectEvent

pub data ProjectError : Type 0 where
  already_exists not_found empty_name name_too_long empty_root_path invalid_sort_order :
      ProjectError

abbrev pub max_name_len : ℕ
max_name_len = 128

-- `s.trim().to_owned()` under `map`, then `filter(|s| !s.is_empty())`; `set_logo` repeats it.
unfoldable pub normalize_workspace : Option Text → Option Text
normalize_workspace ws = filter_option (λ s. not (is_empty s)) (map_option trim ws)

unfoldable pub validate_name : Text → Result ProjectError Text
validate_name name = do
  let trimmed = trim name
  refuse_if (is_empty trimmed) empty_name
  refuse_if (ltb max_name_len (length trimmed)) name_too_long
  ok trimmed

-- `match cmd` of `Project::decide`, on the field `state.inner`
decide_inner : Option ProjectData → ProjectCommand → Result ProjectError (List ProjectEvent)
decide_inner inner (create id name environment root_path workspace now) = do
  refuse_if (is_some inner) already_exists
  name' ← validate_name name
  refuse_if (is_empty (trim root_path)) empty_root_path
  ok (project_created id name' environment root_path (normalize_workspace workspace) now ∷ [])
decide_inner inner (rename new_name) = do
  current ← ok_or inner not_found
  name' ← validate_name new_name
  if eq_text name' current.name then ok [] else ok (project_renamed name' ∷ [])
decide_inner inner (set_logo logo_path) = do
  current ← ok_or inner not_found
  let normalized = normalize_workspace logo_path
  if eq_opt_text normalized current.logo_path then ok [] else ok (project_logo_set normalized ∷ [])
decide_inner inner (set_workspace workspace) = do
  current ← ok_or inner not_found
  let normalized = normalize_workspace workspace
  if eq_opt_text normalized current.workspace
      then ok []
      else ok (project_workspace_set normalized ∷ [])
decide_inner inner (set_sort_order sort_order) = do
  current ← ok_or inner not_found
  refuse_if (not (is_finite sort_order)) invalid_sort_order
  if eq_opt_f64 current.sort_order sort_order
      then ok []
      else ok (project_sort_order_set sort_order ∷ [])
decide_inner inner delete = do refuse_if (is_none inner) not_found; ok (project_deleted ∷ [])

unfoldable pub decide : ProjectState → ProjectCommand → Result ProjectError (List ProjectEvent)
unfolding decide_inner
decide state cmd = decide_inner state.inner cmd

-- `if let Some(data) = state.inner.as_mut() { … }`
unfoldable pub with_data : ProjectState → (ProjectData → ProjectData) → ProjectState
with_data state f = record { inner = map_option f state.inner }

unfoldable pub apply : ProjectState → ProjectEvent → ProjectState
unfolding with_data
apply state (project_created id name environment root_path workspace created_at) = record {
  inner = some (record {
    id = id;
    name = name;
    environment = environment;
    root_path = root_path;
    logo_path = none;
    workspace = workspace;
    created_at = created_at;
    sort_order = none;
  });
}
apply state (project_renamed new_name) = with_data state (λ d. record d { name = new_name })
apply state (project_logo_set logo_path) = with_data state (λ d. record d { logo_path = logo_path })
apply state (project_workspace_set workspace) =
    with_data state (λ d. record d { workspace = workspace })
apply state (project_sort_order_set sort_order) =
    with_data state (λ d. record d { sort_order = some sort_order })
apply state project_deleted = record { inner = none }

abbrev pub project : Aggregate ProjectState ProjectCommand ProjectEvent ProjectError
project = record { default = record { inner = none }; decide = decide; apply = apply }
