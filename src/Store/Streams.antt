-- ===== src/Store/Streams.antt =====
-- The events of one aggregate: their versions are 1, 2, 3 and so on, in the order of insertion.
use oxyris.Prelude.{
  ℕ, suc, ◌+◌, ◌≤◌, ◌<◌, ◌≡◌, refl, Text, Bool, ◌&&◌, ◌==◌, ltb, leb, List, [], ◌∷◌, ◌++◌, filter,
  any, last, length, eq_text, arith, Bool-cases, inl, inr, All,
}
use oxyris.Core.{AggregateId}
use oxyris.Store.{
  StoredEvent, EventStore, is_key, is_taken, sort_by, load, load_all, seq_of, version_of,
}

module _ {Payload : Type 0} where
  -- The rows of one aggregate.
  abbrev pub stream : Text → AggregateId → List (StoredEvent Payload) → List (StoredEvent Payload)
  stream agg id rows = filter (is_key agg id) rows

  -- The versions go on from `k`, one by one.
  abbrev pub Consecutive : ℕ → List (StoredEvent Payload) → Type 0
  Consecutive k [] = Unit
  Consecutive k (r ∷ rs) = (r.version ≡ suc k) × Consecutive (suc k) rs

  pub Consecutive-append :
      (k : ℕ) (rs : List (StoredEvent Payload)) (r : StoredEvent Payload)
      → Consecutive k rs
      → r.version ≡ suc (k + length rs)
      → Consecutive k (rs ++ r ∷ [])
  Consecutive-append k [] r c h = (omega arith, tt)
  Consecutive-append k (x ∷ rs) r c h = (c.0, Consecutive-append (suc k) rs r c.1 (omega arith))

  -- A column that grows from row to row, above `k`.
  abbrev pub Increasing : (StoredEvent Payload → ℕ) → ℕ → List (StoredEvent Payload) → Type 0
  Increasing column k [] = Unit
  Increasing column k (r ∷ rs) = (k < column r) × Increasing column (column r) rs

  -- Every aggregate's versions are 1, 2, 3 and so on, and `seq` grows up to `last_seq`.
  pub record IsLog (store : EventStore Payload) : Type 0 where
    pub versions : (agg : Text) (id : AggregateId) → Consecutive 0 (stream agg id store.rows)
    pub sequence : Increasing seq_of 0 store.rows
    pub bounded : All (λ r. seq_of r ≤ store.last_seq) store.rows

  Increasing-of_Consecutive :
      (k : ℕ) (rs : List (StoredEvent Payload))
      → Consecutive k rs
      → Increasing (λ r. r.version) k rs
  Increasing-of_Consecutive k [] c = tt
  Increasing-of_Consecutive k (r ∷ rs) c =
      (omega arith, rw c.0 (Increasing-of_Consecutive (suc k) rs c.1))

  Increasing-weaken :
      (column : StoredEvent Payload → ℕ) (j k : ℕ) (rs : List (StoredEvent Payload))
      → j ≤ k
      → Increasing column k rs
      → Increasing column j rs
  Increasing-weaken column j k [] le h = tt
  Increasing-weaken column j k (r ∷ rs) le h = (omega arith, h.1)

  pub Increasing-filter :
      (column : StoredEvent Payload → ℕ) (p : StoredEvent Payload → Bool) (k : ℕ)
      (rs : List (StoredEvent Payload))
      → Increasing column k rs
      → Increasing column k (filter p rs)
  unfolding filter
  Increasing-filter column p k [] h = tt
  Increasing-filter column p k (r ∷ rs) h = elim (Bool-cases (p r)) [
    | inl e ↦ rw e (h.0, Increasing-filter column p (column r) rs h.1)
    | inr e ↦ rw e (
        Increasing-weaken column k (column r) _ (omega arith)
          (Increasing-filter column p (column r) rs h.1))
  ]

  pub Increasing-append :
      (column : StoredEvent Payload → ℕ) (k : ℕ) (rs : List (StoredEvent Payload))
      (r : StoredEvent Payload)
      → Increasing column k rs
      → k < column r
      → All (λ x. column x < column r) rs
      → Increasing column k (rs ++ r ∷ [])
  Increasing-append column k [] r h lt all = (lt, tt)
  Increasing-append column k (x ∷ rs) r h lt all =
      (h.0, Increasing-append column (column x) rs r h.1 all.0 all.1)

  -- What is in order stays as it is.
  pub sort-Increasing :
      (column : StoredEvent Payload → ℕ) (k : ℕ) (rs : List (StoredEvent Payload))
      → Increasing column k rs
      → sort_by column rs ≡ rs
  unfolding sort_by
  sort-Increasing column k [] h = refl
  sort-Increasing column k (r ∷ []) h = refl
  sort-Increasing column k (r ∷ r' ∷ rs) h =
      rw (sort-Increasing column (column r) (r' ∷ rs) h.1) (ground arith)

  pub load-eq-stream :
      (store : EventStore Payload) (agg : Text) (id : AggregateId)
      → IsLog store
      → load store agg id ≡ stream agg id store.rows
  unfolding load
  load-eq-stream store agg id h =
      sort-Increasing (λ r. r.version) 0 _ (Increasing-of_Consecutive 0 _ (h.versions agg id))

  pub load_all-eq-filter :
      (store : EventStore Payload) (agg : Text)
      → Increasing seq_of 0 store.rows
      → load_all store agg ≡ filter (λ r. eq_text r.aggregate agg) store.rows
  unfolding load_all
  load_all-eq-filter store agg h =
      sort-Increasing seq_of 0 _ (Increasing-filter seq_of _ 0 store.rows h)

  pub version_of-Consecutive :
      (k : ℕ) (r : StoredEvent Payload) (rs : List (StoredEvent Payload))
      → Consecutive k (r ∷ rs)
      → version_of (r ∷ rs) ≡ k + length (r ∷ rs)
  unfolding version_of last
  version_of-Consecutive k r [] c = omega arith
  version_of-Consecutive k r (r' ∷ rs) c = omega (arith, version_of-Consecutive (suc k) r' rs c.1)

  pub is_taken-stream :
      (agg : Text) (id : AggregateId) (v : ℕ) (rows : List (StoredEvent Payload))
      → is_taken agg id v rows ≡ any (λ r. r.version == v) (stream agg id rows)
  unfolding is_taken any filter
  is_taken-stream agg id v [] = refl
  is_taken-stream agg id v (r ∷ rows) = ground (arith, is_taken-stream agg id v rows)

  pub any-Consecutive :
      (k v : ℕ) (rs : List (StoredEvent Payload))
      → Consecutive k rs
      → any (λ r. r.version == v) rs ≡ (ltb k v && leb v (k + length rs))
  unfolding any
  any-Consecutive k v [] c = ground arith
  any-Consecutive k v (r ∷ rs) c = ground (arith, any-Consecutive (suc k) v rs c.1)

  -- In a log, a version of an aggregate is taken exactly if it lies between 1 and the number of
  -- the aggregate's events.
  pub is_taken-IsLog :
      (store : EventStore Payload) (agg : Text) (id : AggregateId) (v : ℕ)
      → IsLog store
      → is_taken agg id v store.rows ≡ (ltb 0 v && leb v (length (stream agg id store.rows)))
  is_taken-IsLog store agg id v h =
      ground (arith, is_taken-stream agg id v store.rows, any-Consecutive 0 v _ (h.versions agg id))
