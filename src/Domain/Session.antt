-- ===== src/Domain/Session.antt =====
-- apps/desktop/src/domain/session.rs: one conversation with a provider, and its turns.
pub mod Data
pub mod Blocks
pub use Data.*
unfoldable pub use Blocks.{merge_block}
pub mod Turns
pub mod Valid
pub mod TurnEvents
use oxyris.Prelude.{
  ℕ, Text, codes, Bool, true, false, not, Option, none, some, List, [], ◌∷◌, ◌++◌, is_empty, any,
  find, update_first, trim, eq_text, eq_opt_text, Result, ok, err, ◌>>=◌, ◌>>◌, refuse_if, ok_or,
  is_some, is_none, map_option, if◌then◌else◌,
}
use oxyris.Prelude.F64.{F64}
use oxyris.Core.{AggregateId, DateTime, Aggregate}
use oxyris.Provider.{AssistantBlock, ThinkingMode, RuntimeMode}

-- `turns.iter().find(|t| t.id == turn_id)`
unfoldable pub find_turn : Text → List TurnEntry → Option TurnEntry
find_turn turn_id turns = find (λ t. eq_text t.id turn_id) turns

-- `match cmd` of `Session::decide`, on the field `state.inner`
decide_inner : Option SessionData → SessionCommand → Result SessionError (List SessionEvent)
decide_inner inner
      (start id project_id worktree_id provider_id model thinking runtime mode kind now) =
    do
      refuse_if (is_some inner) already_exists
      ok (
          session_started id project_id worktree_id provider_id model thinking runtime mode kind now
          ∷ [])
decide_inner inner (set_env_mode mode) = do
  d ← ok_or inner not_found
  if eq_env_mode d.env_mode mode then ok [] else ok (session_env_mode_changed mode ∷ [])
decide_inner inner (stop now) = do
  d ← ok_or inner not_found
  if is_stopped d.status then ok [] else ok (session_stopped now ∷ [])
decide_inner inner (start_turn turn_id user_text now) = do
  d ← ok_or inner not_found
  refuse_if (is_stopped d.status) not_running
  refuse_if (any (λ t. eq_text t.id turn_id) d.turns) (unknown_turn (codes "duplicate " ++ turn_id))
  ok (turn_started turn_id user_text now ∷ [])
decide_inner inner (append_assistant_block turn_id block) = do
  d ← ok_or inner not_found
  turn ← ok_or (find_turn turn_id d.turns) (unknown_turn turn_id)
  refuse_if (not (is_streaming turn.status)) (turn_not_streaming turn_id)
  ok (turn_assistant_block_appended turn_id block ∷ [])
decide_inner inner (complete_turn turn_id total_cost_usd input_tokens output_tokens now) = do
  d ← ok_or inner not_found
  turn ← ok_or (find_turn turn_id d.turns) (unknown_turn turn_id)
  if is_streaming turn.status
      then ok (turn_completed turn_id total_cost_usd input_tokens output_tokens now ∷ [])
      else ok []
decide_inner inner (fail_turn turn_id message now) = do
  d ← ok_or inner not_found
  _ ← ok_or (find_turn turn_id d.turns) (unknown_turn turn_id)
  ok (turn_failed turn_id message now ∷ [])
decide_inner inner (interrupt_turn turn_id now) = do
  d ← ok_or inner not_found
  _ ← ok_or (find_turn turn_id d.turns) (unknown_turn turn_id)
  ok (turn_interrupted turn_id now ∷ [])
decide_inner inner (attach_provider_session provider_session_id) = do
  d ← ok_or inner not_found
  if eq_opt_text d.provider_session_id (some provider_session_id)
      then ok []
      else ok (provider_session_attached provider_session_id ∷ [])
decide_inner inner (resume now) = do
  d ← ok_or inner not_found
  refuse_if (not (is_resumable d.status)) not_resumable
  refuse_if (is_none d.provider_session_id) no_provider_session
  ok (session_resumed now ∷ [])
decide_inner inner (rename title) = do
  d ← ok_or inner not_found
  let trimmed = trim title
  refuse_if (is_empty trimmed) empty_title
  if eq_opt_text d.title (some trimmed) then ok [] else ok (session_renamed trimmed ∷ [])
decide_inner inner (delete now) = do _ ← ok_or inner not_found; ok (session_deleted now ∷ [])
decide_inner inner (toggle_pin now) = do
  d ← ok_or inner not_found
  ok (session_pin_toggled (if is_some d.pinned_at then none else some now) ∷ [])

unfoldable pub decide : SessionState → SessionCommand → Result SessionError (List SessionEvent)
unfolding decide_inner
decide state cmd = decide_inner state.inner cmd

-- `if let Some(data) = state.inner.as_mut() { … }`
with_data : SessionState → (SessionData → SessionData) → SessionState
with_data state f = record { inner = map_option f state.inner }

-- `&& let Some(turn) = data.turns.iter_mut().find(|t| &t.id == turn_id)`
unfoldable pub update_turn : Text → (TurnEntry → TurnEntry) → List TurnEntry → List TurnEntry
update_turn turn_id f turns = update_first (λ t. eq_text t.id turn_id) f turns

with_turn : SessionState → Text → (TurnEntry → TurnEntry) → SessionState
unfolding with_data
with_turn state turn_id f =
    with_data state (λ d. record d { turns = update_turn turn_id f d.turns })

abbrev pub new_turn : Text → Text → DateTime → TurnEntry
new_turn turn_id user_text started_at = record {
  id = turn_id;
  user_text = user_text;
  blocks = [];
  status = streaming;
  started_at = started_at;
  completed_at = none;
  total_cost_usd = none;
  input_tokens = none;
  output_tokens = none;
  error_message = none;
}

unfoldable pub apply : SessionState → SessionEvent → SessionState
unfolding with_data with_turn
apply state
      (session_started id project_id worktree_id provider_id model thinking runtime mode kind at) =
    record {
      inner = some (record {
        id = id;
        project_id = project_id;
        worktree_id = worktree_id;
        provider_id = provider_id;
        model = model;
        thinking = thinking;
        runtime = runtime;
        status = running;
        turns = [];
        created_at = at;
        provider_session_id = none;
        title = none;
        env_mode = mode;
        kind = kind;
        pinned_at = none;
      });
    }
apply state (session_env_mode_changed mode) = with_data state (λ d. record d { env_mode = mode })
apply state (session_stopped at) = with_data state (λ d. record d { status = stopped })
apply state (session_errored at message) = with_data state (λ d. record d { status = errored })
apply state (turn_started turn_id user_text started_at) =
    with_data state
      (λ d. record d { turns = d.turns ++ new_turn turn_id user_text started_at ∷ [] })
apply state (turn_assistant_block_appended turn_id block) =
    with_turn state turn_id (λ t. record t { blocks = merge_block t.blocks block })
apply state (turn_completed turn_id total_cost_usd input_tokens output_tokens completed_at) =
    with_turn state turn_id (λ t. record t {
      status = completed;
      completed_at = some completed_at;
      total_cost_usd = total_cost_usd;
      input_tokens = input_tokens;
      output_tokens = output_tokens;
    })
apply state (turn_failed turn_id message completed_at) = with_turn state turn_id (λ t. record t {
  status = failed;
  completed_at = some completed_at;
  error_message = some message;
})
apply state (turn_interrupted turn_id at) =
    with_turn state turn_id (λ t. record t { status = interrupted; completed_at = some at })
apply state (provider_session_attached provider_session_id) =
    with_data state (λ d. record d { provider_session_id = some provider_session_id })
apply state (session_resumed at) = with_data state (λ d. record d { status = running })
apply state (session_renamed title) = with_data state (λ d. record d { title = some title })
apply state (session_deleted at) = record { inner = none }
apply state (session_pin_toggled pinned_at) =
    with_data state (λ d. record d { pinned_at = pinned_at })

abbrev pub session : Aggregate SessionState SessionCommand SessionEvent SessionError
session = record { default = record { inner = none }; decide = decide; apply = apply }
