-- ===== src/Projections.antt =====
-- The sessions of apps/desktop/src/infra/projections.rs: one row for each session, with a snapshot of
-- its folded state. `Json` is the text of a snapshot. The table is the list of its rows in the order of insertion.
pub mod Sessions
pub mod Tables
pub mod ReadModel
pub mod Queries
pub mod Projects
pub mod Rebuild
use oxyris.Prelude.{
  ℕ, ◌+◌, ◌%◌, ◌^◌, ◌==◌, Text, Bool, true, false, not, Option, none, some, List, [], ◌∷◌, ◌++◌,
  filter, find, length, map_option, Result, ok, err, if◌then◌else◌,
}
use oxyris.Core.{AggregateId, DateTime}
use oxyris.Domain.Session.{
  SessionState, SessionData, SessionStatus, SessionEvent, is_deletion, apply,
}
use oxyris.Store.{StoredEvent}
use oxyris.Service.{Projector}

-- A payload that does not decode; and the panic of `expect` on a session state with no data.
pub data ProjectionError : Type 0 where
  serialization not_populated : ProjectionError

-- `projections_sessions`; the columns of `SessionSummaryRow` and the snapshot
pub record SessionRow (Json : Type 0) : Type 0 where
  pub id : AggregateId
  pub project_id : AggregateId
  pub worktree_id : Option AggregateId
  pub provider_id : Text
  pub model : Text
  pub status : SessionStatus
  pub turn_count : ℕ
  pub state_snapshot : Json
  pub created_at : DateTime
  pub last_activity_at : DateTime
  pub title : Option Text
  pub pinned_at : Option DateTime

abbrev pub has_id : {Json : Type 0} → AggregateId → SessionRow Json → Bool
has_id id r = r.id == id

-- `DELETE FROM projections_sessions WHERE id = ?1`
unfoldable pub delete_row :
    {Json : Type 0} → AggregateId → List (SessionRow Json) → List (SessionRow Json)
delete_row id rows = filter (λ r. not (has_id id r)) rows

-- `INSERT OR REPLACE INTO projections_sessions`
unfoldable pub replace_row :
    {Json : Type 0} → SessionRow Json → List (SessionRow Json) → List (SessionRow Json)
replace_row r rows = delete_row r.id rows ++ r ∷ []

-- `to_json` and `from_json` are the derived JSON of a session's state.
module _ {Json : Type 0} (to_json : SessionState → Json)
    (from_json : Json → Option SessionState) where
  unfoldable pub row_of_data : SessionState → SessionData → DateTime → (SessionRow Json)
  row_of_data state d last_activity = record {
    id = d.id;
    project_id = d.project_id;
    worktree_id = d.worktree_id;
    provider_id = d.provider_id;
    model = d.model;
    status = d.status;
    turn_count = length d.turns % 2 ^ 32;
    state_snapshot = to_json state;
    created_at = d.created_at;
    last_activity_at = last_activity;
    title = d.title;
    pinned_at = d.pinned_at;
  }

  unfoldable pub write_session_row :
      List (SessionRow Json)
      → SessionState
      → DateTime
      → Result ProjectionError (List (SessionRow Json))
  write_session_row rows state last_activity = elim state.inner [
    | none ↦ err not_populated
    | some d ↦ ok (replace_row (row_of_data state d last_activity) rows)
  ]

  -- The snapshot of the row, where there is one that decodes; else the default state.
  unfoldable pub previous : List (SessionRow Json) → AggregateId → SessionState
  previous rows id = elim (find (has_id id) rows) [
    | none ↦ record { inner = none }
    | some r ↦ elim (from_json r.state_snapshot) [ none ↦ record { inner = none } | some s ↦ s ]
  ]

  -- `apply_session_event`, of the event that the row of the log decodes to
  unfoldable pub apply_session_event :
      {Payload : Type 0}
      → List (SessionRow Json)
      → StoredEvent Payload
      → SessionEvent
      → Result ProjectionError (List (SessionRow Json))
  apply_session_event rows stored event =
      if is_deletion event
      then ok (delete_row stored.aggregate_id rows)
      else write_session_row rows (apply (previous rows stored.aggregate_id) event) stored.timestamp

  -- `apply`, of a row of `Session::KIND`; `from_value` is the derived decoder of the event.
  unfoldable pub project_session :
      {Payload : Type 0}
      → (Payload → Option SessionEvent)
      → Projector (List (SessionRow Json)) Payload ProjectionError
  project_session from_value rows stored = elim (from_value stored.payload) [
    | none ↦ (err serialization, rows)
    | some event ↦ elim (apply_session_event rows stored event) [
      | err e ↦ (err e, rows)
      | ok rows' ↦ (ok tt, rows')
    ]
  ]

  unfoldable pub apply_session_state :
      List (SessionRow Json)
      → SessionState
      → DateTime
      → Result ProjectionError (List (SessionRow Json))
  apply_session_state rows state last_activity = write_session_row rows state last_activity

  -- `None` for a session with no row, and for a snapshot with no data; `none` outside is a snapshot
  -- that does not decode.
  unfoldable pub get_session : List (SessionRow Json) → AggregateId → Option (Option SessionData)
  get_session rows id = elim (find (has_id id) rows) [
    | none ↦ some none
    | some r ↦ map_option (λ (s : SessionState). s.inner) (from_json r.state_snapshot)
  ]
