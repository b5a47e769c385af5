-- ===== src/Service/Pump/Stale.antt =====
-- The pump where its cache is behind the log.
use oxyris.Prelude.{
  ℕ, ◌+◌, ◌<◌, ◌^◌, ◌≡◌, ◌≢◌, refl, ap, ◌∙◌, Text, true, Option, none, some, List, [], ◌∷◌, ◌++◌,
  length, length-append, All, Result, ok, err, arith,
}
use oxyris.Core.{AggregateId, DateTime, replay}
use oxyris.Provider.{ProviderEvent, AssistantBlock}
use oxyris.Domain.Session.{
  SessionState, SessionData, SessionCommand, SessionEvent, SessionError, TurnEntry, find_turn,
  is_streaming, unknown_turn, append_assistant_block, turn_assistant_block_appended, decide,
  session,
}
use oxyris.Domain.Session.TurnEvents.{state_of}
use oxyris.Store.{StoredEvent, EventStore, concurrency, load, version_of, append}
use oxyris.Store.Concurrency.{append_stale}
use oxyris.Service.{Projector, AppState, answer_of}
use oxyris.Service.Serial.{RoundTrips, version_of-load}
use oxyris.Service.Pump.{
  session_kind, command_of, is_late, Cache, seed, after_append, after_decide, attempts, Outcome,
  handle_provider_event_core,
}
use oxyris.Service.Pump.Cache.{
  Folded, Folded-none, Log, projected, attempts-accepted, handle-accepted,
}

module _ {View Payload Failure : Type 0} (kind : SessionEvent → Text)
    (to_value : SessionEvent → Payload) (from_value : Payload → Option SessionEvent)
    (project : Projector View Payload Failure)
    (project_state : View → SessionState → DateTime → Result Failure (Unit {0}) × View)
    (id : AggregateId) where
  -- The next turn of the loop, where an append conflicts.
  after_decide-conflict :
      (state : AppState View Payload) (now : DateTime) (folded : SessionState) (version : ℕ)
      (event : SessionEvent) (events : List SessionEvent) (agg : Text) (expected : ℕ)
      (retry : AppState View Payload
        → Option (Outcome kind to_value from_value project project_state id))
      (outcome : Outcome kind to_value from_value project project_state id)
      → append to_value kind state.event_store session_kind id version now (event ∷ events)
        ≡ (err (concurrency agg id expected), state.event_store)
      → retry state ≡ some outcome
      → after_decide kind to_value from_value project project_state id state now folded version
          (ok (event ∷ events))
          retry
        ≡ outcome
  unfolding after_decide after_append
  after_decide-conflict state now folded version event events agg expected retry outcome refused r =
      rw (refused, r) refl

  -- The cache is what an earlier state of the log folded to, and events came in since. Where that
  -- state accepts the command and has events for it, the append conflicts once, the cache is folded
  -- anew, and the command is decided on the log as it is: if that accepts it too, the log grows by
  -- what was decided there, the cache is in step with it, and the answer is the read model's.
  pub handle-behind :
      (earlier : EventStore Payload) (state : AppState View Payload)
      (read events : List SessionEvent) (more : List (StoredEvent Payload)) (event : ProviderEvent)
      (cmd : SessionCommand) (planned new : List SessionEvent) (now : DateTime)
      → Log kind to_value from_value project project_state id earlier read
      → let store = state.event_store in
        Log kind to_value from_value project project_state id store events
        → load store session_kind id ≡ load earlier session_kind id ++ more
        → more ≢ []
        → command_of event now ≡ some cmd
        → decide (replay session read) cmd ≡ ok planned
        → planned ≢ []
        → decide (replay session events) cmd ≡ ok new
        → All (RoundTrips from_value to_value kind) new
        → length (load store session_kind id) + length new + 1 < 2 ^ 32
        → let cache : Cache =
            some (replay session read, version_of (load earlier session_kind id)) in
          let (answer, state', cache') =
            handle_provider_event_core kind to_value from_value project project_state id state cache
              now event in
          (answer
            ≡ answer_of
                (projected kind to_value from_value project project_state id state events new
                  now).0)
          × (state'.projections
              ≡ (projected kind to_value from_value project project_state id state events new
                  now).1)
          × Folded kind to_value from_value project project_state id state'.event_store cache'
              (events ++ new)
  unfolding handle_provider_event_core seed
  handle-behind earlier state read events [] event cmd planned new now b h g m c p q e portable
        fits =
      absurd (m refl)
  handle-behind earlier state read events (r ∷ rs) event cmd [] new now b h g m c p q e portable
        fits =
      absurd (q refl)
  handle-behind earlier state read events (r ∷ rs) event cmd (x ∷ xs) new now b h g m c p q e
        portable fits =
      let moved = ap length g ∙ length-append (load earlier session_kind id) (r ∷ rs) in
      let at = version_of-load earlier session_kind id b.log in
      let version = version_of (load earlier session_kind id) in
      let refused =
        append_stale to_value kind state.event_store session_kind id version now (x ∷ xs) h.log q
          (omega (arith, moved, at)) (omega (arith, moved, at)) in
      let next = λ (state' : AppState View Payload).
        attempts kind to_value from_value project project_state id 1 state' none now cmd in
      let again =
        after_decide-conflict state now (replay session read) version x xs session_kind version
          (λ state'. some (next state')) (next state) refused refl in
      rw (handle_provider_event_core, c, attempts, p, again)
        (attempts-accepted kind to_value from_value project project_state id 0 state none events cmd
          new now
          (Folded-none kind to_value from_value project project_state id state.event_store events h)
          e portable (omega arith))

  -- Where the cached state refuses the command of a provider event because it has no such turn, or
  -- the turn is settled there, the event is dropped without an error, whatever the log holds, and
  -- the cache stays as it was.
  pub handle-late :
      (state : AppState View Payload) (folded : SessionState) (version : ℕ) (event : ProviderEvent)
      (cmd : SessionCommand) (e : SessionError) (now : DateTime)
      → command_of event now ≡ some cmd
      → decide folded cmd ≡ err e
      → is_late e ≡ true
      → handle_provider_event_core kind to_value from_value project project_state id state
          (some (folded, version))
          now
          event
        ≡ (ok tt, state, some (folded, version))
  unfolding handle_provider_event_core
  handle-late state folded version event cmd e now c refused late =
      rw (handle_provider_event_core, c, attempts, seed, refused, after_decide, late) refl

  -- The cache was folded before a turn began, and the log holds the turn, which is streaming. A
  -- block for that turn is dropped without an error, and the cache stays behind; with an empty
  -- cache, the same block would be recorded.
  pub handle-drops_turn :
      (state : AppState View Payload) (before current : SessionData) (version : ℕ)
      (events : List SessionEvent) (turn_id : Text) (turn : TurnEntry) (block : AssistantBlock)
      (now : DateTime)
      → find_turn turn_id before.turns ≡ none
      → Log kind to_value from_value project project_state id state.event_store events
      → replay session events ≡ state_of current
      → find_turn turn_id current.turns ≡ some turn
      → is_streaming turn.status ≡ true
      → RoundTrips from_value to_value kind (turn_assistant_block_appended turn_id block)
      → length (load state.event_store session_kind id) + 1 < 2 ^ 32
      → let event = ProviderEvent.assistant_block turn_id block in
        let cache : Cache = some (state_of before, version) in
        let (answer, state', cache') =
          handle_provider_event_core kind to_value from_value project project_state id state none
            now event in
        (handle_provider_event_core kind to_value from_value project project_state id state cache
            now event
          ≡ (ok tt, state, cache))
        × Folded kind to_value from_value project project_state id state'.event_store cache'
            (events ++ turn_assistant_block_appended turn_id block ∷ [])
  unfolding command_of decide
  handle-drops_turn state before current version events turn_id turn block now missing h folds found
        streaming portable fits =
      let (answered, seen, folded) =
        handle-accepted kind to_value from_value project project_state id state none events
          (ProviderEvent.assistant_block turn_id block) (append_assistant_block turn_id block)
          (turn_assistant_block_appended turn_id block ∷ []) now
          (Folded-none kind to_value from_value project project_state id state.event_store events h)
          refl (rw folds (ground (arith, found, streaming))) (portable, tt) fits in
      (
        handle-late state (state_of before) version (ProviderEvent.assistant_block turn_id block)
            (append_assistant_block turn_id block) (unknown_turn turn_id) now refl
            (ground (arith, missing)) refl,
        folded,
      )
