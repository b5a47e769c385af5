-- ===== src/Store.antt =====
-- apps/desktop/src/infra/event_store.rs: the append-only log of events in SQLite. The table is the
-- list of its rows in the order of insertion; a transaction is a table that is kept or dropped.
pub mod Streams
pub mod Append
pub mod Concurrency
use oxyris.Prelude.{
  ℕ, suc, ◌+◌, ◌%◌, ◌^◌, Text, Bool, true, false, ◌&&◌, ◌==◌, leb, Option, none, some, List, [],
  ◌∷◌, ◌++◌, filter, any, last, length, is_empty, eq_text, Result, ok, err, ◌>>=◌, if◌then◌else◌,
}
use oxyris.Core.{AggregateId, DateTime}

pub data EventStoreError : Type 0 where
  concurrency : Text → AggregateId → ℕ → EventStoreError
  serialization : EventStoreError

-- `version` is a `u32`: its sum wraps.
abbrev pub u32 : ℕ → ℕ
u32 n = n % 2 ^ 32

-- A row of `events`, and `StoredEvent` of crates/oxyris-core/src/event.rs. `Payload` is
-- `serde_json::Value`.
pub record StoredEvent (Payload : Type 0) : Type 0 where
  pub seq : Option ℕ
  pub aggregate : Text
  pub aggregate_id : AggregateId
  pub version : ℕ
  pub kind : Text
  pub payload : Payload
  pub timestamp : DateTime

-- `last_seq` is what AUTOINCREMENT remembers.
pub record EventStore (Payload : Type 0) : Type 0 where
  pub rows : List (StoredEvent Payload)
  pub last_seq : ℕ

module _ {Payload : Type 0} where
  abbrev pub init : EventStore Payload
  init = record { rows = []; last_seq = 0 }

  -- `aggregate = ?1 AND aggregate_id = ?2`
  unfoldable pub is_key : Text → AggregateId → StoredEvent Payload → Bool
  is_key agg id r = eq_text r.aggregate agg && r.aggregate_id == id

  -- UNIQUE (aggregate, aggregate_id, version)
  unfoldable pub is_taken : Text → AggregateId → ℕ → List (StoredEvent Payload) → Bool
  is_taken agg id version rows = any (λ r. is_key agg id r && r.version == version) rows

  -- ORDER BY a column of numbers, ascending
  unfoldable pub insert_by :
      (StoredEvent Payload → ℕ)
      → StoredEvent Payload
      → List (StoredEvent Payload)
      → List (StoredEvent Payload)
  insert_by column x [] = x ∷ []
  insert_by column x (y ∷ ys) =
      if leb (column x) (column y) then x ∷ y ∷ ys else y ∷ insert_by column x ys

  unfoldable pub sort_by :
      (StoredEvent Payload → ℕ) → List (StoredEvent Payload) → List (StoredEvent Payload)
  unfolding insert_by
  sort_by column [] = []
  sort_by column (x ∷ xs) = insert_by column x (sort_by column xs)

  unfoldable pub load : EventStore Payload → Text → AggregateId → List (StoredEvent Payload)
  load store agg id = sort_by (λ r. r.version) (filter (is_key agg id) store.rows)

  -- The column `seq`; every row of the table has one.
  unfoldable pub seq_of : StoredEvent Payload → ℕ
  seq_of r = elim r.seq [ none ↦ 0 | some n ↦ n ]

  unfoldable pub load_all : EventStore Payload → Text → List (StoredEvent Payload)
  load_all store agg = sort_by seq_of (filter (λ r. eq_text r.aggregate agg) store.rows)

  -- `stored.last().map(|s| s.version).unwrap_or(0)`, as the callers of `load` read the version
  unfoldable pub version_of : List (StoredEvent Payload) → ℕ
  version_of stored = elim (last stored) [ none ↦ 0 | some r ↦ r.version ]

-- `to_value` is the derived serialisation, and `kind` that of `DomainEvent`.
module _ {Event Payload : Type 0} (to_value : Event → Payload) (kind : Event → Text) where
  -- The row that the `i`th event of a batch becomes.
  unfoldable pub row_of : Text → AggregateId → ℕ → DateTime → ℕ → ℕ → Event → StoredEvent Payload
  row_of agg id expected now i seq event = record {
    seq = some seq;
    aggregate = agg;
    aggregate_id = id;
    version = u32 (expected + i + 1);
    kind = kind event;
    payload = to_value event;
    timestamp = now;
  }

  -- The loop of `append`, inside the transaction.
  unfoldable pub insert_all :
      EventStore Payload
      → Text
      → AggregateId
      → ℕ
      → DateTime
      → ℕ
      → List Event
      → Result EventStoreError (List (StoredEvent Payload) × EventStore Payload)
  insert_all tx agg id expected now i [] = ok ([], tx)
  insert_all tx agg id expected now i (event ∷ events) =
      let row = row_of agg id expected now i (tx.last_seq + 1) event in
      let rest =
        insert_all (record { rows = tx.rows ++ row ∷ []; last_seq = tx.last_seq + 1 }) agg id
          expected now (i + 1) events in
      if is_taken agg id row.version tx.rows
      then err (concurrency agg id expected)
      else (rest >>= λ p. ok (row ∷ p.0, p.1))

  -- An error drops the transaction, and the table is as before.
  unfoldable pub append :
      EventStore Payload
      → Text
      → AggregateId
      → ℕ
      → DateTime
      → List Event
      → Result EventStoreError (List (StoredEvent Payload)) × EventStore Payload
  append store agg id expected now events =
      if is_empty events
      then (ok [], store)
      else elim (insert_all store agg id expected now 0 events) [
        | ok p ↦ (ok p.0, p.1)
        | err e ↦ (err e, store)
      ]
