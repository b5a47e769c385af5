-- ===== src/Service.antt =====
-- How the commands use the store: load an aggregate's events, fold them, decide, and append at the
-- version that was read (apps/desktop/src/tauri_commands/project.rs and
-- apps/desktop/src/infra/session_supervisor.rs).
pub mod Serial
pub mod Pump
pub mod Send
use oxyris.Prelude.{
  ℕ, Text, Bool, true, false, Option, none, some, List, [], ◌∷◌, is_empty, Result, ok, err,
  if◌then◌else◌,
}
use oxyris.Core.{AggregateId, DateTime, Aggregate, replay}
use oxyris.Store.{StoredEvent, EventStore, EventStoreError, load, version_of, append}

-- `decode` is the failure that a payload does not decode, which the source files under storage.
pub data ServiceError (Error Failure : Type 0) : Type 0 where
  domain : Error → ServiceError Error Failure
  storage : EventStoreError → ServiceError Error Failure
  decode : ServiceError Error Failure
  projection : Failure → ServiceError Error Failure

-- The event store and the read model, as a command holds them.
pub record AppState (View Payload : Type 0) : Type 0 where
  pub event_store : EventStore Payload
  pub projections : View

-- What the commands use of apps/desktop/src/infra/projections.rs: `apply` of one stored event.
abbrev pub Projector : Type 0 → Type 0 → Type 0 → Type 0
Projector View Payload Failure = View → StoredEvent Payload → Result Failure (Unit {0}) × View

-- `from_value` is the derived deserialisation of an event from its JSON.
module _ {Event Payload : Type 0} (from_value : Payload → Option Event) where
  -- The loop that decodes the payloads; the first failure ends it.
  unfoldable pub decode_all : List (StoredEvent Payload) → Option (List Event)
  decode_all [] = some []
  decode_all (r ∷ rs) = elim (from_value r.payload) [
    | none ↦ none
    | some event ↦ elim (decode_all rs) [ none ↦ none | some events ↦ some (event ∷ events) ]
  ]

-- `for s in &stored { projections.apply(s)?; }`
module _ {View Payload Failure : Type 0} (project : Projector View Payload Failure) where
  unfoldable pub apply_stored : View → List (StoredEvent Payload) → Result Failure (Unit {0}) × View
  apply_stored view [] = (ok tt, view)
  apply_stored view (r ∷ rs) =
      let (answer, view') = project view r in
      let rest = apply_stored view' rs in elim answer [ ok _ ↦ rest | err e ↦ (err e, view') ]

-- The answer of a command whose events were stored.
abbrev pub answer_of :
    {Error Failure : Type 0}
    → Result Failure (Unit {0})
    → Result (ServiceError Error Failure) (Unit {0})
answer_of (ok _) = ok tt
answer_of (err e) = err (projection e)

module _ {State Command Event Error View Payload Failure : Type 0}
    (a : Aggregate State Command Event Error) (agg : Text) (kind : Event → Text)
    (to_value : Event → Payload) (from_value : Payload → Option Event)
    (project : Projector View Payload Failure) where
  -- The state that the log folds to, and its version; none if a payload does not decode.
  unfoldable pub load_state : EventStore Payload → AggregateId → Option (State × ℕ)
  load_state store id = elim (decode_all from_value (load store agg id)) [
    | none ↦ none
    | some events ↦ some (replay a events, version_of (load store agg id))
  ]

  -- No events: nothing is done. Else they are appended, and each stored event is projected.
  unfoldable pub dispatch :
      AppState View Payload
      → AggregateId
      → ℕ
      → DateTime
      → List Event
      → Result (ServiceError Error Failure) (Unit {0}) × AppState View Payload
  dispatch state id current_version now events =
      if is_empty events
      then (ok tt, state)
      else let (answer, store') =
          append to_value kind state.event_store agg id current_version now events in
        elim answer [
          | err e ↦ (err (storage e), record state { event_store = store' })
          | ok stored ↦
              let (projected, view) = apply_stored project state.projections stored in
              (answer_of projected, record { event_store = store'; projections = view })
        ]

  -- A command: `load_state`, `decide`, `dispatch`.
  unfoldable pub execute :
      AppState View Payload
      → AggregateId
      → DateTime
      → Command
      → Result (ServiceError Error Failure) (Unit {0}) × AppState View Payload
  unfolding dispatch
  execute state id now cmd = elim (load_state state.event_store id) [
    | none ↦ (err decode, state)
    | some (folded, version) ↦ elim (a.decide folded cmd) [
      | err e ↦ (err (domain e), state)
      | ok events ↦ dispatch state id version now events
    ]
  ]
