-- ===== src/Service/Pump.antt =====
-- The event pump of apps/desktop/src/infra/session_supervisor.rs: provider events become session
-- commands, decided on a state that the pump keeps folded between events.
pub mod Cache
pub mod Stale
use oxyris.Prelude.{
  ℕ, zero, suc, Text, codes, Bool, true, false, Option, none, some, List, [], ◌∷◌, is_empty, any,
  last, Result, ok, err, if◌then◌else◌,
}
use oxyris.Core.{AggregateId, DateTime, apply_all}
use oxyris.Provider.{
  ProviderEvent, text, session_ready, assistant_block, assistant_text_delta, turn_completed,
  turn_failed, tool_approval_requested, session_ended,
}
use oxyris.Store.{StoredEvent, EventStore, EventStoreError, concurrency, append}
use oxyris.Domain.Session.{
  SessionState, SessionCommand, SessionEvent, SessionError, attach_provider_session,
  append_assistant_block, complete_turn, fail_turn, stop, is_deletion, unknown_turn,
  turn_not_streaming, decide, session,
}
use oxyris.Service.{
  Projector, AppState, ServiceError, domain, storage, decode, apply_stored, answer_of, load_state,
}

-- `Session::KIND`
abbrev pub session_kind : Text
session_kind = codes "session"

-- The command of a provider event; none where the handler returns at once. An approval request
-- goes to the user interface on a channel of its own.
unfoldable pub command_of : ProviderEvent → DateTime → Option SessionCommand
command_of (session_ready (some provider_session_id) model) now =
    some (attach_provider_session provider_session_id)
command_of (session_ready none model) now = none
command_of (assistant_block turn_id block) now = some (append_assistant_block turn_id block)
command_of (assistant_text_delta turn_id delta) now =
    some (append_assistant_block turn_id (text delta))
command_of (turn_completed turn_id cost input output) now =
    some (complete_turn turn_id cost input output now)
command_of (turn_failed turn_id message) now = some (fail_turn turn_id message now)
command_of (tool_approval_requested turn_id request_id tool_use_id tool_name input) now = none
command_of session_ended now = some (stop now)

-- The errors that the handler takes for late events, and drops.
abbrev pub is_late : SessionError → Bool
is_late (turn_not_streaming turn_id) = true
is_late (unknown_turn turn_id) = true
is_late _ = false

-- The folded state and its version, once an event has been handled.
abbrev pub Cache : Type 0
Cache = Option (SessionState × ℕ)

-- `last.version`, or the version as it was
unfoldable pub next_version : {Payload : Type 0} → List (StoredEvent Payload) → ℕ → ℕ
next_version stored version = elim (last stored) [ none ↦ version | some r ↦ r.version ]

-- `project` and `project_state` are `apply` and `apply_session_state` of the read model.
module _ {View Payload Failure : Type 0} (kind : SessionEvent → Text)
    (to_value : SessionEvent → Payload) (from_value : Payload → Option SessionEvent)
    (project : Projector View Payload Failure)
    (project_state : View → SessionState → DateTime → Result Failure (Unit {0}) × View)
    (id : AggregateId) where
  abbrev pub Outcome : Type 0
  Outcome = Result (ServiceError SessionError Failure) (Unit {0}) × AppState View Payload × Cache

  -- `cache.is_none()`: the log is folded anew.
  unfoldable pub seed : EventStore Payload → Cache → Cache
  seed store none = load_state session session_kind kind to_value from_value project store id
  seed store (some cached) = some cached

  -- The read model after an append: from the events if one of them deletes the session, else from
  -- the folded state.
  unfoldable pub project_events :
      View
      → SessionState
      → List SessionEvent
      → List (StoredEvent Payload)
      → Result Failure (Unit {0}) × View
  project_events view state events stored =
      if any is_deletion events then apply_stored project view stored else elim (last stored) [
        | none ↦ (ok tt, view)
        | some r ↦ project_state view state r.timestamp
      ]

  -- `retry` is the next turn of the loop, if there is one.
  unfoldable pub after_append :
      SessionState
      → ℕ
      → List SessionEvent
      → Result EventStoreError (List (StoredEvent Payload))
      → AppState View Payload
      → Option Outcome
      → Outcome
  unfolding next_version project_events
  after_append folded version events (ok stored) state retry =
      let folded' = apply_all session folded events in
      let (projected, view) = project_events state.projections folded' events stored in
      (
        answer_of projected,
        record state { projections = view },
        some (folded', next_version stored version),
      )
  after_append folded version events (err (concurrency agg id' expected)) state (some outcome) =
      outcome
  after_append folded version events (err e) state retry =
      (err (storage e), state, some (folded, version))

  unfoldable pub after_decide :
      AppState View Payload
      → DateTime
      → SessionState
      → ℕ
      → Result SessionError (List SessionEvent)
      → (AppState View Payload → Option Outcome)
      → Outcome
  unfolding after_append
  after_decide state now folded version (err e) retry =
      if is_late e
      then (ok tt, state, some (folded, version))
      else (err (domain e), state, some (folded, version))
  after_decide state now folded version (ok events) retry =
      if is_empty events
      then (ok tt, state, some (folded, version))
      else let (answer, store') =
          append to_value kind state.event_store session_kind id version now events in
        let state' = record state { event_store = store' } in
        after_append folded version events answer state' (retry state')

  -- `for attempt in 0..2`, with the attempts that are left
  unfoldable pub attempts : ℕ → AppState View Payload → Cache → DateTime → SessionCommand → Outcome
  unfolding after_decide seed
  attempts zero state cache now cmd = (ok tt, state, cache)
  attempts (suc left) state cache now cmd = elim (seed state.event_store cache) [
    | none ↦ (err decode, state, none)
    | some (folded, version) ↦
        after_decide state now folded version (decide folded cmd)
          (λ state'. elim left [ zero ↦ none | suc l ↦ some (attempts left state' none now cmd) ])
  ]

  unfoldable pub handle_provider_event_core :
      AppState View Payload → Cache → DateTime → ProviderEvent → Outcome
  unfolding attempts
  handle_provider_event_core state cache now event = elim (command_of event now) [
    | none ↦ (ok tt, state, cache)
    | some cmd ↦ attempts 2 state cache now cmd
  ]
