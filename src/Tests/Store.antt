-- ===== src/Tests/Store.antt =====
-- The event store at concrete inputs.
use oxyris.Prelude.{
  ℕ, ◌≡◌, ◌++◌, ◌&&◌, ◌==◌, refl, Text, codes, false, [], ◌∷◌, filter, ok, eq_text, arith,
}
use oxyris.Core.{AggregateId}
use oxyris.Store.{EventStore, init, load, append, sort_by}
use oxyris.Store.Streams.{IsLog}
use oxyris.Store.Append.{rows_of}
use oxyris.Store.Concurrency.{append_at_head}

abbrev kind : ℕ → Text
kind event = codes "Hello"

abbrev value : ℕ → ℕ
value event = event

abbrev fake : Text
fake = codes "fake"

IsLog-init : IsLog (init {Payload = ℕ})
unfolding filter
IsLog-init = record { versions = λ agg id. tt; sequence = tt; bounded = tt }

empty_load : (agg : Text) (id : AggregateId) → load (init {Payload = ℕ}) agg id ≡ []
unfolding load filter sort_by
empty_load agg id = refl

append_at_head_example :
    let batch = rows_of value kind fake 3 0 99 0 0 (10 ∷ 11 ∷ []) in
    let (answer, store') = append value kind init fake 3 0 99 (10 ∷ 11 ∷ []) in
    (answer ≡ ok batch)
    × IsLog store'
    × (load store' fake 3 ≡ load init fake 3 ++ batch)
    × ((agg' : Text) (id' : AggregateId)
        → (eq_text fake agg' && 3 == id') ≡ false
        → load store' agg' id' ≡ load init agg' id')
unfolding load filter sort_by
append_at_head_example =
    append_at_head value kind init fake 3 0 99 (10 ∷ 11 ∷ []) IsLog-init refl (omega arith)

abbrev two : EventStore ℕ
two = (append value kind init fake 3 0 99 (10 ∷ 11 ∷ [])).1
