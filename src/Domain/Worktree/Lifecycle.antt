-- ===== src/Domain/Worktree/Lifecycle.antt =====
-- The life of a worktree: created once, removed at most once, and never if it is primary.
use oxyris.Prelude.{ℕ, ◌≡◌, ◌≢◌, Text, Bool, false, none, List, [], ◌∷◌, ◌++◌, trim, ok, arith}
use oxyris.Core.{apply_all, replay}
use oxyris.Core.History.{History, start, accept}
use oxyris.Domain.Worktree.{
  WorktreeCommand, WorktreeEvent, create, remove, worktree_created, worktree_removed, decide, apply,
  worktree,
}

-- The logs of a worktree: nothing, a creation, or a creation and a removal.
pub data Life : List WorktreeEvent → Type 0 where
  unborn : Life []
  alive :
      (id project_id : ℕ) (name branch path : Text) (is_primary : Bool) (at : ℕ)
      → trim name ≢ []
      → trim branch ≢ []
      → trim path ≢ []
      → Life (worktree_created id project_id name branch path is_primary at ∷ [])
  gone :
      (id project_id : ℕ) (name branch path : Text) (at removed_at : ℕ)
      → trim name ≢ []
      → trim branch ≢ []
      → trim path ≢ []
      → Life (
          worktree_created id project_id name branch path false at
          ∷ worktree_removed removed_at
          ∷ [])

module _ (id project_id : ℕ) (name branch path : Text) (is_primary : Bool) (at : ℕ)
    (new : List WorktreeEvent) where
  created_new :
      decide (record { inner = none }) (create id project_id name branch path is_primary at)
        ≡ ok new
      → (new ≡ worktree_created id project_id name branch path is_primary at ∷ [])
        × (trim name ≢ [])
        × (trim branch ≢ [])
        × (trim path ≢ [])
  unfolding decide
  created_new h = ground arith

  removed_new :
      (now : ℕ)
      → decide
          (replay worktree (worktree_created id project_id name branch path is_primary at ∷ []))
          (remove now)
        ≡ ok new
      → (new ≡ worktree_removed now ∷ []) × (is_primary ≡ false)
  unfolding decide replay apply_all apply
  removed_new now h = ground arith

Life-step :
    {events : List WorktreeEvent} (cmd : WorktreeCommand) (new : List WorktreeEvent)
    → Life events
    → decide (replay worktree events) cmd ≡ ok new
    → Life (events ++ new)
unfolding decide replay apply_all apply
Life-step (create id project_id name branch path is_primary now) new unborn e =
    let (n, a, b, p) = created_new id project_id name branch path is_primary now new e in
    rw n (alive id project_id name branch path is_primary now a b p)
Life-step (remove now) new unborn e = cc
Life-step (create _ _ _ _ _ _ _) new (alive _ _ _ _ _ _ _ _ _ _) e = cc
Life-step (remove now) new (alive id project_id name branch path is_primary at n b p) e =
    let (m, q) = removed_new id project_id name branch path is_primary at new now e in
    rw (m, q) (gone id project_id name branch path at now n b p)
Life-step (create _ _ _ _ _ _ _) new (gone _ _ _ _ _ _ _ _ _ _) e = cc
Life-step (remove now) new (gone _ _ _ _ _ _ _ _ _ _) e = cc

-- A log of accepted commands is empty, or one creation with a name, a branch and a path that are
-- not blank, or such a creation of a worktree that is not primary and one removal.
pub History-Life : {events : List WorktreeEvent} → History worktree events → Life events
History-Life start = unborn
History-Life (accept {events} {new} cmd h e) = Life-step cmd new (History-Life h) e
