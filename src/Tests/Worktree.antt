-- ===== src/Tests/Worktree.antt =====
-- The worktree aggregate at concrete inputs.
use oxyris.Prelude.{◌≡◌, refl, codes, true, false, [], ◌∷◌, err, trim}
use oxyris.Core.{apply_all, replay}
use oxyris.Core.History.{History, start, accept}
use oxyris.Domain.Worktree.{
  WorktreeEvent, create, remove, worktree_created, worktree_removed, cannot_remove_primary, decide,
  apply, worktree,
}
use oxyris.Domain.Worktree.Lifecycle.{Life, History-Life}

abbrev created : WorktreeEvent
created = worktree_created 1 2 (codes "w") (codes "b") (codes "/p") false 5

worktree_log : History worktree (created ∷ worktree_removed 9 ∷ [])
unfolding decide trim replay apply_all apply
worktree_log =
    accept (remove 9) (accept (create 1 2 (codes "w") (codes "b") (codes "/p") false 5) start refl)
      refl

History-Life_example : Life (created ∷ worktree_removed 9 ∷ [])
History-Life_example = History-Life worktree_log

primary_stays :
    decide
      (replay worktree (worktree_created 1 2 (codes "w") (codes "b") (codes "/p") true 5 ∷ []))
      (remove 9)
    ≡ err cannot_remove_primary
unfolding decide replay apply_all apply
primary_stays = refl
