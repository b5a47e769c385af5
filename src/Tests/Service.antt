-- ===== src/Tests/Service.antt =====
-- The commands and the event pump at concrete inputs: a session with one message, and then a second.
use oxyris.Prelude.{
  ℕ, ◌≡◌, ◌⊎◌, refl, Text, codes, drop, Option, none, some, [], ◌∷◌, ◌+◌, Result, ok, err, filter,
  find, any, eq_text, eq_opt_text, last, arith,
}
use oxyris.Core.{DateTime, apply_all, replay}
use oxyris.Core.History.{History}
use oxyris.Provider.{ProviderEvent, session_ready, text, auto, supervised}
use oxyris.Domain.Session.{
  SessionEvent, SessionState, SessionData, TurnEntry, streaming, start, start_turn,
  append_assistant_block, session_started, turn_started, turn_assistant_block_appended,
  provider_session_attached, attach_provider_session, running, default_env, structured, find_turn,
  decide, apply, session,
}
use oxyris.Domain.Session.TurnEvents.{state_of}
use oxyris.Store.{
  StoredEvent, EventStore, init, append, load, version_of, sort_by, insert_by, insert_all, row_of,
  is_taken, is_key, concurrency,
}
use oxyris.Store.Append.{rows_of}
use oxyris.Service.{AppState, apply_stored, decode_all, execute}
use oxyris.Service.Serial.{Holds, commit_at_head, commit_serializable, execute-accepted}
use oxyris.Service.Pump.{
  command_of, session_kind, Cache, handle_provider_event_core, project_events,
}
use oxyris.Service.Pump.Cache.{Folded, Folded-none, handle-accepted}
use oxyris.Service.Pump.Stale.{handle-behind, handle-drops_turn}

abbrev kind : SessionEvent → Text
kind event = codes "SessionEvent"

-- The JSON of an event stands for itself.
abbrev value : SessionEvent → SessionEvent
value event = event

abbrev from_value : SessionEvent → Option SessionEvent
from_value event = some event

abbrev started : SessionEvent
started =
    session_started 1 2 none (codes "claude") (codes "opus") auto supervised default_env structured
      5

abbrev first : SessionEvent
first = turn_started (codes "t1") (codes "hi") 6

abbrev hello : SessionEvent
hello = turn_assistant_block_appended (codes "t1") (text (codes "yo"))

Holds-init : Holds session session_kind kind value from_value init 7 []
unfolding filter load sort_by decode_all
Holds-init = record {
  log = record { versions = λ agg id. tt; sequence = tt; bounded = tt };
  decodes = refl;
  history = History.start;
}

abbrev one : EventStore SessionEvent
one = (append value kind init session_kind 7 0 5 (started ∷ [])).1

Holds-one : Holds session session_kind kind value from_value one 7 (started ∷ [])
unfolding decide replay apply_all load filter sort_by insert_by version_of last
Holds-one =
    commit_at_head session session_kind kind value from_value init 7 []
      (start 1 2 none (codes "claude") (codes "opus") auto supervised default_env structured 5)
      (started ∷ []) 5 Holds-init refl (refl, tt) (omega arith)

abbrev two : EventStore SessionEvent
two = (append value kind one session_kind 7 1 6 (first ∷ [])).1

Holds-two : Holds session session_kind kind value from_value two 7 (started ∷ first ∷ [])
unfolding decide replay apply_all apply any load filter sort_by insert_by append insert_all row_of
    is_taken is_key eq_text version_of last
Holds-two =
    commit_at_head session session_kind kind value from_value one 7 (started ∷ [])
      (start_turn (codes "t1") (codes "hi") 6) (first ∷ []) 6 Holds-one refl (refl, tt)
      (omega arith)

abbrev second : SessionEvent
second = turn_started (codes "t2") (codes "again") 9

-- Two messages sent at once: the second to come is refused.
commit_serializable_example :
    let (answer, store') = append value kind two session_kind 7 1 9 (second ∷ []) in
    ((answer ≡ err (concurrency session_kind 7 1)) × (store' ≡ two))
    ⊎ ((second ∷ [] ≡ []) × (store' ≡ two))
    ⊎ ((drop 1 (load two session_kind 7) ≡ [])
        × Holds session session_kind kind value from_value store' 7 (started ∷ first ∷ second ∷ []))
unfolding decide replay apply_all apply any load filter sort_by insert_by append insert_all row_of
    is_taken is_key eq_text version_of last drop
commit_serializable_example =
    commit_serializable session session_kind kind value from_value one two 7 (started ∷ [])
      (started ∷ first ∷ []) (drop 1 (load two session_kind 7))
      (start_turn (codes "t2") (codes "again") 9) (second ∷ []) 9 Holds-one Holds-two refl refl
      (refl, tt) (omega arith)

-- A read model that counts the rows it is given.
abbrev project : ℕ → StoredEvent SessionEvent → Result Text (Unit {0}) × ℕ
project view r = (ok tt, view + 1)

abbrev project_state : ℕ → SessionState → DateTime → Result Text (Unit {0}) × ℕ
project_state view state at = (ok tt, view + 100)

abbrev app : EventStore SessionEvent → AppState ℕ SessionEvent
app store = record { event_store = store; projections = 0 }

execute-accepted_example :
    let (answer, state') =
      execute session session_kind kind value from_value project
        (app one)
        7
        6
        (start_turn (codes "t1") (codes "hi") 6) in
    (answer ≡ ok tt)
    × (state'.projections ≡ 1)
    × Holds session session_kind kind value from_value state'.event_store 7 (started ∷ first ∷ [])
unfolding decide replay apply_all apply any load filter sort_by insert_by append insert_all row_of
    is_taken is_key eq_text rows_of apply_stored
execute-accepted_example =
    execute-accepted session session_kind kind value from_value project (app one) 7 (started ∷ [])
      (start_turn (codes "t1") (codes "hi") 6) (first ∷ []) 6 Holds-one refl (refl, tt)
      (omega arith)

abbrev block : ProviderEvent
block = ProviderEvent.assistant_block (codes "t1") (text (codes "yo"))

handle-accepted_example :
    let (answer, state', cache') =
      handle_provider_event_core kind value from_value project project_state 7
        (app two)
        none
        8
        block in
    (answer ≡ ok tt)
    × (state'.projections ≡ 100)
    × Folded kind value from_value project project_state 7 state'.event_store cache'
        (started ∷ first ∷ hello ∷ [])
unfolding decide replay apply_all apply find_turn find any load filter sort_by insert_by append
    insert_all row_of is_taken is_key eq_text command_of rows_of apply_stored project_events last
handle-accepted_example =
    handle-accepted kind value from_value project project_state 7 (app two) none
      (started ∷ first ∷ []) block (append_assistant_block (codes "t1") (text (codes "yo")))
      (hello ∷ []) 8
      (Folded-none kind value from_value project project_state 7 two (started ∷ first ∷ [])
        Holds-two)
      refl refl (refl, tt) (omega arith)

abbrev attached : SessionEvent
attached = provider_session_attached (codes "p1")

abbrev before : SessionData
before = record {
  id = 1;
  project_id = 2;
  worktree_id = none;
  provider_id = codes "claude";
  model = codes "opus";
  thinking = auto;
  runtime = supervised;
  status = running;
  turns = [];
  created_at = 5;
  provider_session_id = none;
  title = none;
  env_mode = default_env;
  kind = structured;
  pinned_at = none;
}

abbrev turn : TurnEntry
turn = record {
  id = codes "t1";
  user_text = codes "hi";
  blocks = [];
  status = streaming;
  started_at = 6;
  completed_at = none;
  total_cost_usd = none;
  input_tokens = none;
  output_tokens = none;
  error_message = none;
}

-- A message was sent since the pump folded the log.
handle-behind_example :
    let cache : Cache = some (state_of before, 1) in
    let (answer, state', cache') =
      handle_provider_event_core kind value from_value project project_state 7
        (app two)
        cache
        8
        (session_ready (some (codes "p1")) (codes "opus")) in
    (answer ≡ ok tt)
    × (state'.projections ≡ 100)
    × Folded kind value from_value project project_state 7 state'.event_store cache'
        (started ∷ first ∷ attached ∷ [])
unfolding decide replay apply_all apply any load filter sort_by insert_by append insert_all row_of
    is_taken is_key eq_text version_of last drop command_of rows_of apply_stored project_events
    eq_opt_text
handle-behind_example =
    handle-behind kind value from_value project project_state 7 one (app two) (started ∷ [])
      (started ∷ first ∷ []) (drop 1 (load two session_kind 7))
      (session_ready (some (codes "p1")) (codes "opus")) (attach_provider_session (codes "p1"))
      (attached ∷ []) (attached ∷ []) 8 Holds-one Holds-two refl (λ e. cc) refl refl (λ e. cc) refl
      (refl, tt) (omega arith)

handle-drops_turn_example :
    let cache : Cache = some (state_of before, 1) in
    let (answer, state', cache') =
      handle_provider_event_core kind value from_value project project_state 7
        (app two)
        none
        8
        block in
    (handle_provider_event_core kind value from_value project project_state 7
        (app two)
        cache
        8
        block
      ≡ (ok tt, app two, cache))
    × Folded kind value from_value project project_state 7 state'.event_store cache'
        (started ∷ first ∷ hello ∷ [])
unfolding decide replay apply_all apply find_turn find any load filter sort_by insert_by append
    insert_all row_of is_taken is_key eq_text command_of
handle-drops_turn_example =
    handle-drops_turn kind value from_value project project_state 7 (app two) before
      (record before { turns = turn ∷ [] }) 1 (started ∷ first ∷ []) (codes "t1") turn
      (text (codes "yo")) 8 refl Holds-two refl refl refl refl (omega arith)
