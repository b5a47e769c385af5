-- ===== src/Tests/Rebuild.antt =====
-- The read model of a small log.
use oxyris.Prelude.{
  Bool, false, Option, ℕ, ◌≡◌, refl, arith, Text, codes, none, some, List, [], ◌∷◌, ◌⊎◌, inl, inr,
  true, ok, find, map_option, filter, map, eq_text,
}
use oxyris.Core.{local, wsl, replay}
use oxyris.Projections.Queries.{get_project, list_worktrees}
use oxyris.Projections.Projects.{Decoded, follow, row_of, get_project-follow}
use oxyris.Domain.Project.{project, ProjectEvent, project_created, project_renamed}
use oxyris.Domain.Worktree.{WorktreeEvent, worktree_created}
use oxyris.Domain.Session.{SessionState}
use oxyris.Store.{StoredEvent, EventStore, seq_of}
use oxyris.Service.{apply_stored}
use oxyris.Projections.ReadModel.{
  Decoders, Projections, empty, kind_of, apply_as, apply, apply_projects, apply_worktrees,
  rebuild_from,
}
use oxyris.Projections.Tables.{
  WorktreeRow, apply_project_event, apply_worktree_event, update_where, delete_where,
}
use oxyris.Projections.Rebuild.{rebuild_from-apply_stored}

abbrev Payload : Type 0
Payload = ProjectEvent ⊎ WorktreeEvent

abbrev decoders : Decoders Payload SessionState
decoders = record {
  project_event = λ p. elim p [ inl e ↦ some e | inr e ↦ none ];
  worktree_event = λ p. elim p [ inl e ↦ none | inr e ↦ some e ];
  session_event = λ p. none;
  action_event = λ p. none;
  to_json = λ state. state;
  from_json = λ json. some json;
  epoch = λ at. at;
}

abbrev row : ℕ → Text → ℕ → Payload → StoredEvent Payload
row seq aggregate id payload = record {
  seq = some seq;
  aggregate = aggregate;
  aggregate_id = id;
  version = 1;
  kind = aggregate;
  payload = payload;
  timestamp = seq;
}

abbrev log : EventStore Payload
log = record {
  rows =
      row 1 (codes "project") 2 (inl (project_created 2 (codes "Demo") local (codes "/d") none 5))
      ∷ row 2 (codes "worktree") 3
          (inr (worktree_created 3 2 (codes "main") (codes "main") (codes "/d") true 6))
      ∷ row 3 (codes "project") 2 (inl (project_renamed (codes "Show")))
      ∷ [];
  last_seq = 3;
}

abbrev followed : Projections SessionState
followed = (apply_stored (apply decoders) empty log.rows).1

rebuild_from-apply_stored_example : rebuild_from decoders empty log ≡ (ok tt, followed)
unfolding apply_stored apply apply_as kind_of eq_text apply_projects apply_worktrees seq_of
rebuild_from-apply_stored_example =
    rebuild_from-apply_stored decoders empty followed log
      (omega arith, (omega arith, (omega arith, tt))) refl

renamed : map (λ r. r.name) followed.projects ≡ codes "Show" ∷ []
unfolding apply_stored apply apply_as kind_of eq_text apply_projects apply_worktrees
    apply_project_event apply_worktree_event update_where delete_where filter
renamed = refl

abbrev named : List (StoredEvent Payload)
named =
    row 1 (codes "project") 2
      (inl (project_created 2 (codes "Demo") (wsl (codes "Ubuntu")) (codes "/d") none 5))
    ∷ row 2 (codes "project") 2 (inl (project_renamed (codes "Show")))
    ∷ []

abbrev its_events : List ProjectEvent
its_events =
    project_created 2 (codes "Demo") (wsl (codes "Ubuntu")) (codes "/d") none 5
    ∷ project_renamed (codes "Show")
    ∷ []

named-Decoded : Decoded (λ at. at) decoders.project_event 2 named its_events
unfolding Decoded
named-Decoded = (refl, refl, refl, (refl, refl, tt, tt))

get_project-follow_example :
    let (answer, rows) = follow (λ at. at) decoders.project_event [] named in
    (answer ≡ ok tt)
    × ((last : ℕ) × (get_project (λ at. at) rows 2
          ≡ some (map_option (row_of (λ at. at) last) (replay project its_events).inner)))
unfolding find
get_project-follow_example =
    get_project-follow (λ at. at) decoders.project_event 2 named its_events [] refl named-Decoded

abbrev tree : ℕ → Bool → Option ℕ → WorktreeRow
tree id is_primary removed_at = record {
  id = id;
  project_id = 2;
  name = [];
  branch = [];
  path = [];
  is_primary = is_primary;
  created_at = id;
  removed_at = removed_at;
}

listed :
    map
      (λ r. r.id)
      (list_worktrees
        (tree 3 false none ∷ tree 4 false (some 9) ∷ tree 5 true none ∷ tree 1 false none ∷ [])
        2
        false)
    ≡ 5 ∷ 1 ∷ 3 ∷ []
unfolding list_worktrees filter
listed = refl
