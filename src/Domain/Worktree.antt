-- ===== src/Domain/Worktree.antt =====
-- apps/desktop/src/domain/worktree.rs: one git worktree of a project.
pub mod Lifecycle
use oxyris.Prelude.{
  Text, Bool, true, false, ◌||◌, Option, none, some, List, [], ◌∷◌, is_empty, trim, Result, ok, err,
  ◌>>=◌, ◌>>◌, refuse_if, ok_or, is_some, map_option,
}
use oxyris.Core.{AggregateId, DateTime, Aggregate}

pub record WorktreeData : Type 0 where
  pub id : AggregateId
  pub project_id : AggregateId
  pub name : Text
  pub branch : Text
  pub path : Text
  pub is_primary : Bool
  pub created_at : DateTime
  pub removed_at : Option DateTime

pub record WorktreeState : Type 0 where
  pub inner : Option WorktreeData

pub data WorktreeCommand : Type 0 where
  create : AggregateId → AggregateId → Text → Text → Text → Bool → DateTime → WorktreeCommand
  remove : DateTime → WorktreeCommand

pub data WorktreeEvent : Type 0 where
  worktree_created :
      AggregateId → AggregateId → Text → Text → Text → Bool → DateTime → WorktreeEvent
  worktree_removed : DateTime → WorktreeEvent

pub data WorktreeError : Type 0 where
  already_exists not_found already_removed cannot_remove_primary invalid_fields : WorktreeError

-- `match cmd` of `Worktree::decide`, on the field `state.inner`
decide_inner : Option WorktreeData → WorktreeCommand → Result WorktreeError (List WorktreeEvent)
decide_inner inner (create id project_id name branch path is_primary now) = do
  refuse_if (is_some inner) already_exists
  refuse_if (is_empty (trim name) || is_empty (trim branch) || is_empty (trim path)) invalid_fields
  ok (worktree_created id project_id name branch path is_primary now ∷ [])
decide_inner inner (remove now) = do
  current ← ok_or inner not_found
  refuse_if (is_some current.removed_at) already_removed
  refuse_if current.is_primary cannot_remove_primary
  ok (worktree_removed now ∷ [])

unfoldable pub decide : WorktreeState → WorktreeCommand → Result WorktreeError (List WorktreeEvent)
unfolding decide_inner
decide state cmd = decide_inner state.inner cmd

-- `if let Some(data) = state.inner.as_mut() { … }`
with_data : WorktreeState → (WorktreeData → WorktreeData) → WorktreeState
with_data state f = record { inner = map_option f state.inner }

unfoldable pub apply : WorktreeState → WorktreeEvent → WorktreeState
unfolding with_data
apply state (worktree_created id project_id name branch path is_primary created_at) = record {
  inner = some (record {
    id = id;
    project_id = project_id;
    name = name;
    branch = branch;
    path = path;
    is_primary = is_primary;
    created_at = created_at;
    removed_at = none;
  });
}
apply state (worktree_removed removed_at) =
    with_data state (λ d. record d { removed_at = some removed_at })

abbrev pub worktree : Aggregate WorktreeState WorktreeCommand WorktreeEvent WorktreeError
worktree = record { default = record { inner = none }; decide = decide; apply = apply }
