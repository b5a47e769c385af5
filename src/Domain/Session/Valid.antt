-- ===== src/Domain/Session/Valid.antt =====
-- What `Session::decide` guarantees of the sessions that a log replays to.
use oxyris.Prelude.{
  ℕ, ◌≡◌, inl, inr, refl, Text, true, Option, none, some, List, trim-trim, ok, arith,
}
use oxyris.Prelude.{Bool-cases}
use oxyris.Prelude.F64.{F64}
use oxyris.Core.{apply_all, replay}
use oxyris.Core.History.{History, replay-invariant}
use oxyris.Provider.{AssistantBlock}
use oxyris.Domain.Session.Blocks.{merge_block, merge_block-IsCoalesced}
use oxyris.Domain.Session.{find_turn, decide, apply, session}
use oxyris.Domain.Session.Turns.{
  IsValidTurn, IsValidData, IsValidInner, append-IsValid, update-IsValid,
}
use oxyris.Domain.Session.Data.{
  SessionData, SessionState, SessionCommand, SessionEvent, TurnEntry, is_streaming, start,
  set_env_mode, stop, start_turn, append_assistant_block, complete_turn, fail_turn, interrupt_turn,
  attach_provider_session, resume, rename, delete, toggle_pin, completed, failed, interrupted,
}

abbrev state_of : SessionData → SessionState
state_of d = record { inner = some d }

-- What the four turn events do to the turn that they name.
abbrev appended : AssistantBlock → TurnEntry → TurnEntry
appended b t = record t { blocks = merge_block t.blocks b }

abbrev complete : Option F64 → Option ℕ → Option ℕ → ℕ → TurnEntry → TurnEntry
complete cost input output at t = record t {
  status = completed;
  completed_at = some at;
  total_cost_usd = cost;
  input_tokens = input;
  output_tokens = output;
}

abbrev fail : Text → ℕ → TurnEntry → TurnEntry
fail message at t = record t {
  status = failed;
  completed_at = some at;
  error_message = some message;
}

abbrev interrupt : ℕ → TurnEntry → TurnEntry
interrupt at t = record t { status = interrupted; completed_at = some at }

appended-IsValid : (b : AssistantBlock) (t : TurnEntry) → IsValidTurn t → IsValidTurn (appended b t)
appended-IsValid b t w = record {
  timed = w.timed;
  explained = w.explained;
  clean = w.clean;
  coalesced = merge_block-IsCoalesced t.blocks b w.coalesced;
}

complete-IsValid :
    (cost : Option F64) (input output : Option ℕ) (at : ℕ) (t : TurnEntry)
    → is_streaming t.status ≡ true
    → IsValidTurn t
    → IsValidTurn (complete cost input output at t)
complete-IsValid cost input output at t s w = record {
  timed = refl;
  explained = λ e. cc;
  clean = λ e. ground (arith, w.clean);
  coalesced = w.coalesced;
}

fail-IsValid :
    (message : Text) (at : ℕ) (t : TurnEntry) → IsValidTurn t → IsValidTurn (fail message at t)
fail-IsValid message at t w = record {
  timed = refl;
  explained = λ e. refl;
  clean = λ e. elim e [ inl p ↦ cc | inr p ↦ cc ];
  coalesced = w.coalesced;
}

interrupt-IsValid : (at : ℕ) (t : TurnEntry) → IsValidTurn t → IsValidTurn (interrupt at t)
interrupt-IsValid at t w = record {
  timed = refl;
  explained = λ e. cc;
  clean = λ e. elim e [ inl p ↦ cc | inr p ↦ cc ];
  coalesced = w.coalesced;
}

complete_step :
    (d : SessionData) (turn_id : Text) (cost : Option F64) (input output : Option ℕ) (now : ℕ)
    (new : List SessionEvent) (found : Option TurnEntry)
    → find_turn turn_id d.turns ≡ found
    → IsValidData d
    → decide (state_of d) (complete_turn turn_id cost input output now) ≡ ok new
    → IsValidInner (apply_all session (state_of d) new).inner
unfolding decide apply_all apply
complete_step d turn_id cost input output now new none e v h = ground arith
complete_step d turn_id cost input output now new (some t) e v h =
    elim (Bool-cases (is_streaming t.status)) [
      | inl s ↦
          let kept =
            update-IsValid d turn_id (complete cost input output now) (λ u. refl)
              (λ u q w. complete-IsValid cost input output now u (ground arith) w) v in
          ground (arith, kept)
      | inr s ↦ ground arith
    ]

-- An accepted command keeps the session valid, in a session that exists.
step_data :
    (d : SessionData) (cmd : SessionCommand) (new : List SessionEvent)
    → IsValidData d
    → decide (state_of d) cmd ≡ ok new
    → IsValidInner (apply_all session (state_of d) new).inner
unfolding decide apply_all apply
step_data d (start _ _ _ _ _ _ _ _ _ _) new v h = cc
step_data d (set_env_mode mode) new v h = ground arith
step_data d (stop now) new v h = ground arith
step_data d (start_turn turn_id user_text now) new v h =
    ground (arith, append-IsValid d turn_id user_text now)
step_data d (append_assistant_block turn_id b) new v h =
    ground
      (arith, update-IsValid d turn_id (appended b) (λ t. refl) (λ t e w. appended-IsValid b t w) v)
step_data d (complete_turn turn_id cost input output now) new v h =
    complete_step d turn_id cost input output now new _ refl v h
step_data d (fail_turn turn_id message now) new v h = ground (
  arith,
  update-IsValid d turn_id (fail message now) (λ t. refl) (λ t e w. fail-IsValid message now t w) v,
)
step_data d (interrupt_turn turn_id now) new v h = ground (
  arith,
  update-IsValid d turn_id (interrupt now) (λ t. refl) (λ t e w. interrupt-IsValid now t w) v,
)
step_data d (attach_provider_session p) new v h = ground arith
step_data d (resume now) new v h = ground arith
step_data d (rename title) new v h = ground (arith, trim-trim title)
step_data d (delete now) new v h = ground arith
step_data d (toggle_pin now) new v h = ground arith

step_inner :
    (inner : Option SessionData) (cmd : SessionCommand) (new : List SessionEvent)
    → IsValidInner inner
    → decide (record { inner = inner }) cmd ≡ ok new
    → IsValidInner (apply_all session (record { inner = inner }) new).inner
step_inner (some d) cmd new v h = step_data d cmd new v h
step_inner none (start id project_id worktree_id provider_id model thinking runtime mode kind now)
      new v h =
    unfold decide apply_all apply in ground arith
step_inner none _ new v h = unfold decide in cc

step-IsValid :
    (state : SessionState) (cmd : SessionCommand) (new : List SessionEvent)
    → IsValidInner state.inner
    → decide state cmd ≡ ok new
    → IsValidInner (apply_all session state new).inner
step-IsValid state cmd new v h = step_inner state.inner cmd new v h

-- In every session that a log of accepted commands replays to: no two turns have one identifier;
-- a turn has a completion time exactly when it no longer streams, a failed turn has an error
-- message and a streaming or completed one has none, and no two text blocks of a turn stand side
-- by side; the title is absent or trimmed and not empty; the session is running or stopped.
pub replay-session-IsValid :
    {events : List SessionEvent}
    → History session events
    → IsValidInner (replay session events).inner
replay-session-IsValid h = replay-invariant session (λ s. IsValidInner s.inner) tt step-IsValid h
