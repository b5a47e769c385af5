-- ===== src/Store/Concurrency.antt =====
-- Optimistic concurrency: a writer at the head of an aggregate's events appends its batch, and a
-- writer that has fallen behind is refused and changes nothing.
use oxyris.Prelude.{
  ℕ, ◌+◌, ◌<◌, ◌^◌, ◌≡◌, ◌≢◌, refl, Text, false, ◌&&◌, ◌==◌, List, [], ◌∷◌, ◌++◌, append-nil,
  filter, filter-append, length, eq_text, eq_text_refl, ok, err, arith,
}
use oxyris.Core.{AggregateId, DateTime}
use oxyris.Store.{EventStore, concurrency, u32, is_key, load, row_of, insert_all, append}
use oxyris.Store.Streams.{IsLog, load-eq-stream, is_taken-IsLog}
use oxyris.Store.Append.{rows_of, extend, is_key-row_of, insert_all-eq-extend, extend-nil}

module _ {Event Payload : Type 0} (to_value : Event → Payload) (kind : Event → Text) where
  module _ (agg : Text) (id : AggregateId) (expected : ℕ) (now : DateTime) where
    filter-rows_of_self :
        (i seq : ℕ) (events : List Event)
        → filter (is_key agg id) (rows_of to_value kind agg id expected now i seq events)
          ≡ rows_of to_value kind agg id expected now i seq events
    unfolding filter rows_of
    filter-rows_of_self i seq [] = refl
    filter-rows_of_self i seq (event ∷ events) = ground (
      arith,
      is_key-row_of to_value kind agg agg id id expected now i (seq + 1) event,
      eq_text_refl agg,
      filter-rows_of_self (i + 1) (seq + 1) events,
    )

    filter-rows_of_ne :
        (agg' : Text) (id' : AggregateId) (i seq : ℕ) (events : List Event)
        → (eq_text agg agg' && id == id') ≡ false
        → filter (is_key agg' id') (rows_of to_value kind agg id expected now i seq events) ≡ []
    unfolding filter rows_of
    filter-rows_of_ne agg' id' i seq [] e = refl
    filter-rows_of_ne agg' id' i seq (event ∷ events) e = ground (
      arith,
      is_key-row_of to_value kind agg agg' id id' expected now i (seq + 1) event,
      filter-rows_of_ne agg' id' (i + 1) (seq + 1) events,
    )

    append-eq-extend :
        (store : EventStore Payload) (events : List Event)
        → IsLog store
        → length (load store agg id) ≡ expected
        → expected + length events < 2 ^ 32
        → (append to_value kind store agg id expected now events ≡ (
          ok (rows_of to_value kind agg id expected now 0 store.last_seq events),
          extend to_value kind store agg id expected now 0 events,
        ))
          × IsLog (extend to_value kind store agg id expected now 0 events)
    unfolding append rows_of
    append-eq-extend store [] log head fits =
        rw (extend-nil to_value kind agg id expected now store 0) (refl, log)
    append-eq-extend store (event ∷ events) log head fits =
        let count = rw (load-eq-stream store agg id log) at head in
        let (accepted, log') =
          insert_all-eq-extend to_value kind agg id expected now store 0 (event ∷ events) log
            (omega (arith, count)) (omega arith) in
        (rw accepted, log')

  -- A batch of fewer than 2^32 events, appended to a log at the number of events that the
  -- aggregate has, is accepted: the answer is the rows of the batch, the table stays a log, the
  -- aggregate's events are those before and the batch, and other aggregates' events are as before.
  pub append_at_head :
      (store : EventStore Payload) (agg : Text) (id : AggregateId) (expected now : ℕ)
      (events : List Event)
      → IsLog store
      → length (load store agg id) ≡ expected
      → expected + length events < 2 ^ 32
      → let batch = rows_of to_value kind agg id expected now 0 store.last_seq events in
        let (answer, store') = append to_value kind store agg id expected now events in
        (answer ≡ ok batch)
        × IsLog store'
        × (load store' agg id ≡ load store agg id ++ batch)
        × ((agg' : Text) (id' : AggregateId)
            → (eq_text agg agg' && id == id') ≡ false
            → load store' agg' id' ≡ load store agg' id')
  append_at_head store agg id expected now events log head fits =
      let (accepted, log') = append-eq-extend agg id expected now store events log head fits in
      rw accepted (
        refl,
        log',
        rw (load-eq-stream _ agg id log', load-eq-stream _ agg id log, filter-append)
            (rw filter-rows_of_self),
        λ agg' id' e.
            rw (load-eq-stream _ agg' id' log', load-eq-stream _ agg' id' log, filter-append)
              (rw (filter-rows_of_ne agg id expected now agg' id' 0 _ events e) (append-nil _)),
      )

  -- A batch that is not empty, appended with an expected version below the number of events that
  -- the aggregate has, is refused as a concurrency conflict, and the table is as before.
  pub append_stale :
      (store : EventStore Payload) (agg : Text) (id : AggregateId) (expected now : ℕ)
      (events : List Event)
      → IsLog store
      → events ≢ []
      → expected < length (load store agg id)
      → expected + 1 < 2 ^ 32
      → append to_value kind store agg id expected now events
        ≡ (err (concurrency agg id expected), store)
  unfolding append insert_all row_of
  append_stale store agg id expected now [] log filled behind fits = absurd (filled refl)
  append_stale store agg id expected now (event ∷ events) log filled behind fits =
      let count = rw (load-eq-stream store agg id log) at behind in
      let taken = is_taken-IsLog store agg id (u32 (expected + 0 + 1)) log in
      ground (arith, taken, count)
