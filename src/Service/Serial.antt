-- ===== src/Service/Serial.antt =====
-- A command that was decided on an earlier state of the store is refused, or the log has not moved
-- and stays one that commands produce.
use oxyris.Prelude.{
  ℕ, ◌+◌, ◌<◌, ◌^◌, ◌≡◌, ◌⊎◌, inl, inr, refl, sym, ap, ◌∙◌, Text, Option, none, some, List, [], ◌∷◌,
  ◌++◌, append-nil, last, length, length-append, All, ok, err, arith,
}
use oxyris.Core.{AggregateId, DateTime, Aggregate, replay}
use oxyris.Core.History.{History, accept}
use oxyris.Store.{StoredEvent, EventStore, concurrency, load, version_of, row_of, append}
use oxyris.Store.Streams.{IsLog, Consecutive, load-eq-stream, version_of-Consecutive}
use oxyris.Store.Append.{rows_of}
use oxyris.Store.Concurrency.{append_at_head, append_stale}
use oxyris.Service.{
  Projector, AppState, apply_stored, answer_of, decode_all, load_state, dispatch, execute,
}

module _ {Event Payload : Type 0} (from_value : Payload → Option Event) where
  abbrev both : Option (List Event) → Option (List Event) → Option (List Event)
  both none q = none
  both (some es) none = none
  both (some es) (some fs) = some (es ++ fs)

  decode_all-both :
      (xs ys : List (StoredEvent Payload))
      → decode_all from_value (xs ++ ys)
        ≡ both (decode_all from_value xs) (decode_all from_value ys)
  unfolding decode_all
  decode_all-both [] ys = ground arith
  decode_all-both (x ∷ xs) ys = ground (arith, decode_all-both xs ys)

  pub decode_all-append :
      (xs ys : List (StoredEvent Payload)) {es fs : List Event}
      → decode_all from_value xs ≡ some es
      → decode_all from_value ys ≡ some fs
      → decode_all from_value (xs ++ ys) ≡ some (es ++ fs)
  decode_all-append xs ys p q = rw (decode_all-both xs ys, p, q)

  module _ (to_value : Event → Payload) (kind : Event → Text) where
    -- The event comes back from its JSON.
    abbrev pub RoundTrips : Event → Type 0
    RoundTrips e = from_value (to_value e) ≡ some e

    pub decode_all-rows_of :
        (agg : Text) (id : AggregateId) (expected : ℕ) (now : DateTime) (i seq : ℕ)
        (events : List Event)
        → All RoundTrips events
        → decode_all from_value (rows_of to_value kind agg id expected now i seq events)
          ≡ some events
    unfolding decode_all rows_of row_of
    decode_all-rows_of agg id expected now i seq [] all = refl
    decode_all-rows_of agg id expected now i seq (e ∷ es) all =
        rw (all.0, decode_all-rows_of agg id expected now (i + 1) (seq + 1) es all.1)

version_of-length :
    {Payload : Type 0} (rs : List (StoredEvent Payload))
    → Consecutive 0 rs
    → version_of rs ≡ length rs
unfolding version_of last
version_of-length [] c = refl
version_of-length (r ∷ rs) c = version_of-Consecutive 0 r rs c ∙ omega arith

-- In a log, the version that a reader takes is the number of the aggregate's events.
pub version_of-load :
    {Payload : Type 0} (store : EventStore Payload) (agg : Text) (id : AggregateId)
    → IsLog store
    → version_of (load store agg id) ≡ length (load store agg id)
version_of-load store agg id log =
    rw (load-eq-stream store agg id log) (version_of-length _ (log.versions agg id))

module _ {State Command Event Error Payload : Type 0} (a : Aggregate State Command Event Error)
    (agg : Text) (kind : Event → Text) (to_value : Event → Payload)
    (from_value : Payload → Option Event) where
  -- The log of one aggregate decodes to events that accepted commands produce.
  pub record Holds (store : EventStore Payload) (id : AggregateId) (events : List Event)
      : Type 0 where
    pub log : IsLog store
    pub decodes : decode_all from_value (load store agg id) ≡ some events
    pub history : History a events

  pub commit_at_head :
      (store : EventStore Payload) (id : AggregateId) (events : List Event) (cmd : Command)
      (new : List Event) (now : DateTime)
      → Holds store id events
      → a.decide (replay a events) cmd ≡ ok new
      → All (RoundTrips from_value to_value kind) new
      → length (load store agg id) + length new < 2 ^ 32
      → Holds
          (append to_value kind store agg id (version_of (load store agg id)) now new).1
          id
          (events ++ new)
  commit_at_head store id events cmd new now h e portable fits =
      let version = version_of (load store agg id) in
      let at = version_of-load store agg id h.log in
      let (answered, log', loaded, others) =
        append_at_head to_value kind store agg id version now new h.log (sym at)
          (omega (arith, at)) in
      record {
        log = log';
        decodes = rw loaded (
            decode_all-append from_value _ _ h.decodes (
              decode_all-rows_of from_value to_value kind agg id version now 0 store.last_seq new
                portable));
        history = accept cmd h.history e;
      }

  -- A command decided on the events that an earlier state of the store held, and appended at the
  -- version read there, is refused as a conflict and changes nothing, or it emits nothing and
  -- changes nothing, or no event came in between and the log grows by what was decided.
  pub commit_serializable :
      (earlier store : EventStore Payload) (id : AggregateId) (read events : List Event)
      (more : List (StoredEvent Payload)) (cmd : Command) (new : List Event) (now : DateTime)
      → Holds earlier id read
      → Holds store id events
      → load store agg id ≡ load earlier agg id ++ more
      → a.decide (replay a read) cmd ≡ ok new
      → All (RoundTrips from_value to_value kind) new
      → length (load store agg id) + length new + 1 < 2 ^ 32
      → let version = version_of (load earlier agg id) in
        let (answer, store') = append to_value kind store agg id version now new in
        ((answer ≡ err (concurrency agg id version)) × (store' ≡ store))
        ⊎ ((new ≡ []) × (store' ≡ store))
        ⊎ ((more ≡ []) × Holds store' id (events ++ new))
  unfolding append
  commit_serializable earlier store id read events more cmd [] now before h grown e portable fits =
      inr (inl (refl, refl))
  commit_serializable earlier store id read events (r ∷ rs) cmd (n ∷ ns) now before h grown e
        portable fits =
      let moved = ap length grown ∙ length-append (load earlier agg id) (r ∷ rs) in
      let at = version_of-load earlier agg id before.log in
      let refused =
        append_stale to_value kind store agg id (version_of (load earlier agg id)) now (n ∷ ns)
          h.log (λ q. cc) (omega (arith, moved, at)) (omega (arith, moved, at)) in
      inl (ap (λ p. p.0) refused, ap (λ p. p.1) refused)
  commit_serializable earlier store id read events [] cmd (n ∷ ns) now before h grown e portable
        fits =
      let same = grown ∙ append-nil (load earlier agg id) in
      let equal : events ≡ read = cc (h.decodes, before.decodes, ap (decode_all from_value) same) in
      inr (
        inr (
          refl,
          rw (← same) (
              commit_at_head store id events cmd (n ∷ ns) now h (rw equal e) portable
                (omega arith)),
        ))

  module _ {View Failure : Type 0} (project : Projector View Payload Failure) where
    -- The read model, and the answer to the caller, after rows were stored.
    dispatch-ok :
        (state : AppState View Payload) (id : AggregateId) (version : ℕ) (now : DateTime)
        (new : List Event) (rows : List (StoredEvent Payload))
        → (append to_value kind state.event_store agg id version now new).0 ≡ ok rows
        → dispatch a agg kind to_value from_value project state id version now new ≡ (
          answer_of (apply_stored project state.projections rows).0,
          record {
            event_store = (append to_value kind state.event_store agg id version now new).1;
            projections = (apply_stored project state.projections rows).1;
          },
        )
    unfolding dispatch append apply_stored
    dispatch-ok state id version now [] [] e = refl
    dispatch-ok state id version now [] (r ∷ rs) e = cc
    dispatch-ok state id version now (n ∷ ns) rows e = rw e refl

    pub load_state-some :
        (store : EventStore Payload) (id : AggregateId) (events : List Event)
        → decode_all from_value (load store agg id) ≡ some events
        → load_state a agg kind to_value from_value project store id
          ≡ some (replay a events, version_of (load store agg id))
    unfolding load_state
    load_state-some store id events d = ground (arith, d)

    execute-dispatch :
        (state : AppState View Payload) (id : AggregateId) (events : List Event) (cmd : Command)
        (new : List Event) (now : DateTime)
        → decode_all from_value (load state.event_store agg id) ≡ some events
        → a.decide (replay a events) cmd ≡ ok new
        → execute a agg kind to_value from_value project state id now cmd
          ≡ dispatch a agg kind to_value from_value project state id
              (version_of (load state.event_store agg id))
              now
              new
    unfolding execute
    execute-dispatch state id events cmd new now d e =
        rw (execute, load_state-some state.event_store id events d, e) refl

    -- A command that is accepted at the state that the log folds to is carried out: there is no
    -- conflict and no decoding error, the log grows by what was decided, the read model is given
    -- the stored rows in order, and the answer is the read model's.
    pub execute-accepted :
        (state : AppState View Payload) (id : AggregateId) (events : List Event) (cmd : Command)
        (new : List Event) (now : DateTime)
        → let store = state.event_store in
          Holds store id events
          → a.decide (replay a events) cmd ≡ ok new
          → All (RoundTrips from_value to_value kind) new
          → length (load store agg id) + length new < 2 ^ 32
          → let rows =
              rows_of to_value kind agg id
                (version_of (load store agg id))
                now
                0
                store.last_seq
                new in
            let (answer, state') =
              execute a agg kind to_value from_value project state id now cmd in
            (answer ≡ answer_of (apply_stored project state.projections rows).0)
            × (state'.projections ≡ (apply_stored project state.projections rows).1)
            × Holds state'.event_store id (events ++ new)
    execute-accepted state id events cmd new now h e portable fits =
        let version = version_of (load state.event_store agg id) in
        let at = version_of-load state.event_store agg id h.log in
        let (answered, log', loaded, others) =
          append_at_head to_value kind state.event_store agg id version now new h.log (sym at)
            (omega (arith, at)) in
        rw
          (
            execute-dispatch state id events cmd new now h.decodes e,
            dispatch-ok state id version now new _ answered,
          )
          (refl, refl, commit_at_head state.event_store id events cmd new now h e portable fits)
