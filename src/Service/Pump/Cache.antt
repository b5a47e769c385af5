-- ===== src/Service/Pump/Cache.antt =====
-- The pump's cache against the log that it was folded from.
use oxyris.Prelude.{
  ℕ, suc, ◌+◌, ◌<◌, ◌^◌, ◌≡◌, refl, sym, ap, ◌∙◌, Text, Option, none, some, List, [], ◌∷◌, ◌++◌,
  append-nil, last, length, any, All, Result, ok, arith,
}
use oxyris.Core.{AggregateId, DateTime, replay}
use oxyris.Core.History.{replay-append}
use oxyris.Provider.{ProviderEvent}
use oxyris.Domain.Session.{SessionState, SessionCommand, SessionEvent, decide, session}
use oxyris.Store.{StoredEvent, EventStore, load, version_of, append}
use oxyris.Store.Append.{rows_of}
use oxyris.Store.Concurrency.{append_at_head}
use oxyris.Service.{Projector, AppState, answer_of}
use oxyris.Service.Serial.{RoundTrips, Holds, version_of-load, load_state-some, commit_at_head}
use oxyris.Service.Pump.{
  session_kind, command_of, Cache, seed, next_version, after_append, after_decide, attempts,
  Outcome, handle_provider_event_core, project_events,
}

module _ {Payload : Type 0} where
  last-append_cons :
      (xs : List (StoredEvent Payload)) (y : StoredEvent Payload) (ys : List (StoredEvent Payload))
      → last (xs ++ y ∷ ys) ≡ last (y ∷ ys)
  unfolding last
  last-append_cons [] y ys = refl
  last-append_cons (x ∷ []) y ys = refl
  last-append_cons (x ∷ x' ∷ xs) y ys = last-append_cons (x' ∷ xs) y ys

  next_version-cons :
      (version : ℕ) (y : StoredEvent Payload) (ys : List (StoredEvent Payload))
      → next_version (y ∷ ys) version ≡ version_of (y ∷ ys)
  unfolding next_version version_of last
  next_version-cons version y [] = refl
  next_version-cons version y (z ∷ zs) = next_version-cons version z zs

  version_of-append_cons :
      (xs : List (StoredEvent Payload)) (y : StoredEvent Payload) (ys : List (StoredEvent Payload))
      → version_of (xs ++ y ∷ ys) ≡ version_of (y ∷ ys)
  unfolding version_of
  version_of-append_cons xs y ys = ground (arith, last-append_cons xs y ys)

  -- The version after an append, from the rows that the append answers.
  next_version-append :
      (xs ys : List (StoredEvent Payload)) → next_version ys (version_of xs) ≡ version_of (xs ++ ys)
  unfolding next_version last
  next_version-append xs [] = ap version_of (sym (append-nil xs))
  next_version-append xs (y ∷ ys) =
      next_version-cons (version_of xs) y ys ∙ sym (version_of-append_cons xs y ys)

module _ {View Payload Failure : Type 0} (kind : SessionEvent → Text)
    (to_value : SessionEvent → Payload) (from_value : Payload → Option SessionEvent)
    (project : Projector View Payload Failure)
    (project_state : View → SessionState → DateTime → Result Failure (Unit {0}) × View)
    (id : AggregateId) where
  abbrev pub Log : EventStore Payload → List SessionEvent → Type 0
  Log store events = Holds session session_kind kind to_value from_value store id events

  -- The log holds the events, and the cache is empty or what they fold to.
  pub record Folded (store : EventStore Payload) (cache : Cache) (events : List SessionEvent)
      : Type 0 where
    pub holds : Log store events
    pub accurate :
        seed kind to_value from_value project project_state id store cache
        ≡ some (replay session events, version_of (load store session_kind id))

  pub Folded-none :
      (store : EventStore Payload) (events : List SessionEvent)
      → Log store events
      → Folded store none events
  unfolding seed
  Folded-none store events h = record {
    holds = h;
    accurate =
        load_state-some session session_kind kind to_value from_value project store id events
          h.decodes;
  }

  -- What the read model is given when the events `new` are stored at the head of the log that
  -- holds `events`.
  abbrev pub projected :
      AppState View Payload
      → List SessionEvent
      → List SessionEvent
      → DateTime
      → Result Failure (Unit {0}) × View
  projected state events new now =
      let store = state.event_store in
      project_events kind to_value from_value project project_state id state.projections
        (replay session (events ++ new)) new
        (rows_of to_value kind session_kind id (version_of (load store session_kind id)) now 0
          store.last_seq new)

  -- What an attempt leaves where the append was accepted.
  commit_from :
      (state : AppState View Payload) (events : List SessionEvent) (cmd : SessionCommand)
      (new : List SessionEvent) (now : DateTime)
      → let store = state.event_store in
        Log store events
        → decide (replay session events) cmd ≡ ok new
        → All (RoundTrips from_value to_value kind) new
        → length (load store session_kind id) + length new < 2 ^ 32
        → (retry : Option (Outcome kind to_value from_value project project_state id))
        → let version = version_of (load store session_kind id) in
          let (answer, store') = append to_value kind store session_kind id version now new in
          let (answer', state', cache') =
            after_append kind to_value from_value project project_state id
              (replay session events)
              version
              new
              answer
              (record state { event_store = store' })
              retry in
          (answer' ≡ answer_of (projected state events new now).0)
          × (state'.projections ≡ (projected state events new now).1)
          × Folded state'.event_store cache' (events ++ new)
  unfolding after_append seed
  commit_from state events cmd new now h e portable fits retry =
      let store = state.event_store in
      let version = version_of (load store session_kind id) in
      let at = version_of-load store session_kind id h.log in
      let (answered, log', loaded, others) =
        append_at_head to_value kind store session_kind id version now new h.log (sym at)
          (omega (arith, at)) in
      let kept =
        commit_at_head session session_kind kind to_value from_value store id events cmd new now h e
          portable fits in
      let rows = rows_of to_value kind session_kind id version now 0 store.last_seq new in
      let grown = sym (replay-append session events new) in
      let seen = λ (folded : SessionState).
        project_events kind to_value from_value project project_state id state.projections folded
          new rows in
      rw answered (
        ap (λ folded. answer_of (seen folded).0) grown,
        ap (λ folded. (seen folded).1) grown,
        record {
          holds = kept;
          accurate = rw (loaded, grown, next_version-append (load store session_kind id) rows) refl;
        },
      )

  -- An attempt at a command that the log's state accepts succeeds, but for the read model.
  pub attempts-accepted :
      (left : ℕ) (state : AppState View Payload) (cache : Cache) (events : List SessionEvent)
      (cmd : SessionCommand) (new : List SessionEvent) (now : DateTime)
      → let store = state.event_store in
        Folded store cache events
        → decide (replay session events) cmd ≡ ok new
        → All (RoundTrips from_value to_value kind) new
        → length (load store session_kind id) + length new < 2 ^ 32
        → let (answer, state', cache') =
            attempts kind to_value from_value project project_state id
              (suc left)
              state
              cache
              now
              cmd in
          (answer ≡ answer_of (projected state events new now).0)
          × (state'.projections ≡ (projected state events new now).1)
          × Folded state'.event_store cache' (events ++ new)
  unfolding attempts after_decide project_events rows_of any last
  attempts-accepted left state cache events cmd [] now f e portable fits =
      rw (attempts, f.accurate, e)
        (
          refl,
          refl,
          rw (append-nil events) (record { holds = f.holds; accurate = unfold seed in refl }),
        )
  attempts-accepted left state cache events cmd (n ∷ ns) now f e portable fits =
      rw (attempts, f.accurate, e)
        (commit_from state events cmd (n ∷ ns) now f.holds e portable fits _)

  -- A provider event whose command the log's state accepts is recorded: the log grows by what was
  -- decided, the cache is again what the log folds to, and the answer is the read model's.
  pub handle-accepted :
      (state : AppState View Payload) (cache : Cache) (events : List SessionEvent)
      (event : ProviderEvent) (cmd : SessionCommand) (new : List SessionEvent) (now : DateTime)
      → let store = state.event_store in
        Folded store cache events
        → command_of event now ≡ some cmd
        → decide (replay session events) cmd ≡ ok new
        → All (RoundTrips from_value to_value kind) new
        → length (load store session_kind id) + length new < 2 ^ 32
        → let (answer, state', cache') =
            handle_provider_event_core kind to_value from_value project project_state id state cache
              now event in
          (answer ≡ answer_of (projected state events new now).0)
          × (state'.projections ≡ (projected state events new now).1)
          × Folded state'.event_store cache' (events ++ new)
  unfolding handle_provider_event_core
  handle-accepted state cache events event cmd new now f c e portable fits =
      rw (handle_provider_event_core, c)
        (attempts-accepted 1 state cache events cmd new now f e portable fits)
