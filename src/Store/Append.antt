-- ===== src/Store/Append.antt =====
-- What `append` does to a log: it adds the batch at the head version, or refuses it whole.
use oxyris.Prelude.{
  ℕ, ◌+◌, ◌≤◌, ◌<◌, ◌^◌, ◌≡◌, inl, inr, refl, ap, Text, false, ◌&&◌, ◌==◌, List, [], ◌∷◌, ◌++◌,
  append-nil, append_assoc, filter, filter-append, length, length-append, All-append, All-mono,
  eq_text, eq_text→eq, eq_text_refl, ok, &&-left, &&-right, ==→eq, arith, Bool-cases,
}
use oxyris.Core.{AggregateId, DateTime}
use oxyris.Store.{StoredEvent, EventStore, u32, is_key, is_taken, seq_of, row_of, insert_all}
use oxyris.Store.Streams.{
  stream, Consecutive, Consecutive-append, Increasing-append, IsLog, is_taken-IsLog,
}

module _ {Event Payload : Type 0} (to_value : Event → Payload) (kind : Event → Text) where
  -- The rows of a batch, numbered on from the `i`th event and from `seq`.
  unfoldable pub rows_of :
      Text → AggregateId → ℕ → DateTime → ℕ → ℕ → List Event → List (StoredEvent Payload)
  rows_of agg id expected now i seq [] = []
  rows_of agg id expected now i seq (event ∷ events) =
      row_of to_value kind agg id expected now i (seq + 1) event
      ∷ rows_of agg id expected now (i + 1) (seq + 1) events

  abbrev pub extend :
      EventStore Payload → Text → AggregateId → ℕ → DateTime → ℕ → List Event → EventStore Payload
  extend store agg id expected now i events = record {
    rows = store.rows ++ rows_of agg id expected now i store.last_seq events;
    last_seq = store.last_seq + length events;
  }

  pub is_key-row_of :
      (agg agg' : Text) (id id' : AggregateId) (expected now i seq : ℕ) (event : Event)
      → is_key agg' id' (row_of to_value kind agg id expected now i seq event)
        ≡ (eq_text agg agg' && id == id')
  unfolding is_key row_of
  is_key-row_of agg agg' id id' expected now i seq event = refl

  module _ (agg : Text) (id : AggregateId) (expected : ℕ) (now : DateTime) where
    abbrev pub push : EventStore Payload → ℕ → Event → EventStore Payload
    push store i event = record {
      rows =
          store.rows ++ row_of to_value kind agg id expected now i (store.last_seq + 1) event ∷ [];
      last_seq = store.last_seq + 1;
    }

    -- The next version of the aggregate is the `i`th after `expected`, and does not wrap.
    pub record IsNext (store : EventStore Payload) (i : ℕ) : Type 0 where
      pub head : length (stream agg id store.rows) ≡ expected + i
      pub fits : expected + i + 1 < 2 ^ 32

    stream-push_self :
        (store : EventStore Payload) (i : ℕ) (event : Event)
        → stream agg id (push store i event).rows
          ≡ stream agg id store.rows
            ++ row_of to_value kind agg id expected now i (store.last_seq + 1) event ∷ []
    stream-push_self store i event = rw filter-append (
        ap (λ rs. stream agg id store.rows ++ rs)
          (unfold filter in
            ground (
              arith,
              is_key-row_of agg agg id id expected now i (store.last_seq + 1) event,
              eq_text_refl agg,
            )))

    stream-push_ne :
        (store : EventStore Payload) (i : ℕ) (event : Event) (agg' : Text) (id' : AggregateId)
        → (eq_text agg agg' && id == id') ≡ false
        → stream agg' id' (push store i event).rows ≡ stream agg' id' store.rows
    stream-push_ne store i event agg' id' e = rw filter-append (
        unfold filter in
        ground (
          arith,
          is_key-row_of agg agg' id id' expected now i (store.last_seq + 1) event,
          append-nil (stream agg' id' store.rows),
        ))

    push-versions_self :
        (store : EventStore Payload) (i : ℕ) (event : Event)
        → IsLog store
        → IsNext store i
        → Consecutive 0 (stream agg id (push store i event).rows)
    unfolding row_of
    push-versions_self store i event log next =
        rw (stream-push_self store i event)
          (Consecutive-append 0 _ _ (log.versions agg id) (omega (arith, next.head, next.fits)))

    push-versions :
        (store : EventStore Payload) (i : ℕ) (event : Event)
        → IsLog store
        → IsNext store i
        → (agg' : Text) (id' : AggregateId)
        → Consecutive 0 (stream agg' id' (push store i event).rows)
    push-versions store i event log next agg' id' =
        elim (Bool-cases (eq_text agg agg' && id == id')) [
          | inl e ↦
              rw
                (
                  ← eq_text→eq agg agg' (&&-left _ (id == id') e),
                  ← ==→eq id id' (&&-right (eq_text agg agg') _ e),
                )
                (push-versions_self store i event log next)
          | inr e ↦ rw (stream-push_ne store i event agg' id' e) (log.versions agg' id')
        ]

    pub push-IsLog :
        (store : EventStore Payload) (i : ℕ) (event : Event)
        → IsLog store
        → IsNext store i
        → IsLog (push store i event)
    push-IsLog store i event log next = record {
      versions = push-versions store i event log next;
      sequence =
          Increasing-append seq_of 0 store.rows _ log.sequence (unfold seq_of row_of in omega arith)
            (All-mono (λ r. seq_of r ≤ store.last_seq) _ store.rows
              (λ r le. unfold seq_of row_of in omega (arith, le)) log.bounded);
      bounded =
          All-append _ store.rows _
            (All-mono (λ r. seq_of r ≤ store.last_seq) _ store.rows (λ r le. omega (arith, le))
              log.bounded)
            (unfold seq_of row_of in omega arith, tt);
    }

    head-push :
        (store : EventStore Payload) (i : ℕ) (event : Event)
        → length (stream agg id store.rows) ≡ expected + i
        → length (stream agg id (push store i event).rows) ≡ expected + (i + 1)
    head-push store i event h =
        rw (stream-push_self store i event, length-append) (omega (arith, h))

    pub free :
        (store : EventStore Payload) (i : ℕ)
        → IsLog store
        → IsNext store i
        → is_taken agg id (u32 (expected + i + 1)) store.rows ≡ false
    free store i log next =
        rw (is_taken-IsLog store agg id (u32 (expected + i + 1)) log)
          (ground (arith, next.head, next.fits))

    extend-push :
        (store : EventStore Payload) (i : ℕ) (event : Event) (events : List Event)
        → extend (push store i event) agg id expected now (i + 1) events
          ≡ extend store agg id expected now i (event ∷ events)
    unfolding rows_of
    extend-push store i event events = ground (
      arith,
      append_assoc store.rows
          (row_of to_value kind agg id expected now i (store.last_seq + 1) event ∷ [])
          (rows_of agg id expected now (i + 1) (store.last_seq + 1) events),
    )

    pub extend-nil :
        (store : EventStore Payload) (i : ℕ) → extend store agg id expected now i [] ≡ store
    unfolding rows_of
    extend-nil store i = ground (arith, append-nil store.rows)

    pub insert_all-eq-extend :
        (store : EventStore Payload) (i : ℕ) (events : List Event)
        → IsLog store
        → length (stream agg id store.rows) ≡ expected + i
        → expected + i + length events < 2 ^ 32
        → (insert_all to_value kind store agg id expected now i events
            ≡ ok (
              rows_of agg id expected now i store.last_seq events,
              extend store agg id expected now i events,
            ))
          × IsLog (extend store agg id expected now i events)
    unfolding insert_all rows_of row_of
    insert_all-eq-extend store i [] log head fits = rw (extend-nil store i) (refl, log)
    insert_all-eq-extend store i (event ∷ events) log head fits =
        let next : IsNext store i = record { head = head; fits = omega arith } in
        let (rest, log') =
          insert_all-eq-extend (push store i event) (i + 1) events
            (push-IsLog store i event log next) (head-push store i event head) (omega arith) in
        (
          rw (free store i log next, rest, extend-push store i event events),
          rw (← extend-push store i event events) log',
        )
