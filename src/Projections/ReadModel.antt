-- ===== src/Projections/ReadModel.antt =====
-- `Projections`: the four tables, `apply` of one stored event, and `rebuild_from`.
use oxyris.Prelude.{
  Text, codes, eq_text, Option, none, some, List, [], Result, ok, err, if◌then◌else◌,
}
use oxyris.Prelude.F64.{F64}
use oxyris.Core.{DateTime}
use oxyris.Domain.Project.{ProjectEvent}
use oxyris.Domain.Worktree.{WorktreeEvent}
use oxyris.Domain.Action.{ActionEvent}
use oxyris.Domain.Session.{SessionEvent, SessionState}
use oxyris.Store.{StoredEvent, EventStore, load_all}
use oxyris.Service.{Projector, apply_stored}
use oxyris.Projections.{ProjectionError, serialization, SessionRow, project_session}
use oxyris.Projections.Tables.{
  ProjectColumns, WorktreeRow, ActionColumns, apply_project_event, apply_worktree_event,
  apply_action_event,
}

-- The derived decoders of the events, the JSON of a session's state, and the epoch of an instant.
pub record Decoders (Payload Json : Type 0) : Type 0 where
  pub project_event : Payload → Option ProjectEvent
  pub worktree_event : Payload → Option WorktreeEvent
  pub session_event : Payload → Option SessionEvent
  pub action_event : Payload → Option ActionEvent
  pub to_json : SessionState → Json
  pub from_json : Json → Option SessionState
  pub epoch : DateTime → F64

pub record Projections (Json : Type 0) : Type 0 where
  pub projects : List ProjectColumns
  pub worktrees : List WorktreeRow
  pub sessions : List (SessionRow Json)
  pub actions : List ActionColumns

abbrev pub empty : {Json : Type 0} → Projections Json
empty = record { projects = []; worktrees = []; sessions = []; actions = [] }

pub data Kind : Type 0 where
  project worktree session action unknown : Kind

unfoldable pub kind_of : Text → Kind
kind_of aggregate =
    if eq_text aggregate (codes "project")
    then project
    else if eq_text aggregate (codes "worktree")
    then worktree
    else if eq_text aggregate (codes "session")
    then session
    else if eq_text aggregate (codes "action")
    then action
    else unknown

-- An event that decodes is applied to its table, which cannot fail here.
abbrev pub project_table :
    {Payload Event Table : Type 0}
    → (Payload → Option Event)
    → (Table → StoredEvent Payload → Event → Table)
    → Projector Table Payload ProjectionError
project_table decode f rows stored = elim (decode stored.payload) [
  | none ↦ (err serialization, rows)
  | some event ↦ (ok tt, f rows stored event)
]

module _ {Payload Json : Type 0} (d : Decoders Payload Json) where
  unfoldable pub apply_projects : Projector (List ProjectColumns) Payload ProjectionError
  apply_projects = project_table d.project_event (apply_project_event d.epoch)

  unfoldable pub apply_worktrees : Projector (List WorktreeRow) Payload ProjectionError
  apply_worktrees = project_table d.worktree_event apply_worktree_event

  unfoldable pub apply_sessions : Projector (List (SessionRow Json)) Payload ProjectionError
  apply_sessions = project_session d.to_json d.from_json d.session_event

  unfoldable pub apply_actions : Projector (List ActionColumns) Payload ProjectionError
  apply_actions = project_table d.action_event apply_action_event

  unfoldable pub apply_as :
      Kind
      → Projections Json
      → StoredEvent Payload
      → Result ProjectionError (Unit {0}) × Projections Json
  apply_as project t stored =
      let (answer, rows) = apply_projects t.projects stored in
      (answer, record t { projects = rows })
  apply_as worktree t stored =
      let (answer, rows) = apply_worktrees t.worktrees stored in
      (answer, record t { worktrees = rows })
  apply_as session t stored =
      let (answer, rows) = apply_sessions t.sessions stored in
      (answer, record t { sessions = rows })
  apply_as action t stored =
      let (answer, rows) = apply_actions t.actions stored in (answer, record t { actions = rows })
  apply_as unknown t stored = (ok tt, t)

  unfoldable pub apply : Projector (Projections Json) Payload ProjectionError
  unfolding apply_as kind_of
  apply t stored = apply_as (kind_of stored.aggregate) t stored

  -- `?` between the loops
  abbrev pub and_then :
      Result ProjectionError (Unit {0}) × Projections Json
      → (Projections Json → Result ProjectionError (Unit {0}) × Projections Json)
      → Result ProjectionError (Unit {0}) × Projections Json
  and_then (ok _, t) f = f t
  and_then (err e, t) f = (err e, t)

  unfoldable pub rebuild_from :
      Projections Json → EventStore Payload → Result ProjectionError (Unit {0}) × Projections Json
  rebuild_from t store =
      and_then (apply_stored apply empty (load_all store (codes "project"))) (λ t1.
        and_then (apply_stored apply t1 (load_all store (codes "worktree"))) (λ t2.
          and_then (apply_stored apply t2 (load_all store (codes "session")))
            (λ t3. apply_stored apply t3 (load_all store (codes "action")))))
