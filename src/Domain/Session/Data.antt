-- ===== src/Domain/Session/Data.antt =====
-- The types of apps/desktop/src/domain/session.rs.
use oxyris.Prelude.{ℕ, Text, Bool, true, false, Option, List}
use oxyris.Prelude.F64.{F64}
use oxyris.Core.{AggregateId, DateTime}
use oxyris.Provider.{AssistantBlock, ThinkingMode, RuntimeMode}

pub data EnvMode : Type 0 where
  default_env worktree_env : EnvMode

pub data SessionKind : Type 0 where
  structured pure_tui assistant : SessionKind

pub data SessionStatus : Type 0 where
  idle running stopped errored : SessionStatus

pub data TurnStatus : Type 0 where
  streaming completed failed interrupted : TurnStatus

pub record TurnEntry : Type 0 where
  pub id : Text
  pub user_text : Text
  pub blocks : List AssistantBlock
  pub status : TurnStatus
  pub started_at : DateTime
  pub completed_at : Option DateTime
  pub total_cost_usd : Option F64
  pub input_tokens : Option ℕ
  pub output_tokens : Option ℕ
  pub error_message : Option Text

pub record SessionData : Type 0 where
  pub id : AggregateId
  pub project_id : AggregateId
  pub worktree_id : Option AggregateId
  pub provider_id : Text
  pub model : Text
  pub thinking : ThinkingMode
  pub runtime : RuntimeMode
  pub status : SessionStatus
  pub turns : List TurnEntry
  pub created_at : DateTime
  pub provider_session_id : Option Text
  pub title : Option Text
  pub env_mode : EnvMode
  pub kind : SessionKind
  pub pinned_at : Option DateTime

pub record SessionState : Type 0 where
  pub inner : Option SessionData

-- The fields stand in the order of the source.
pub data SessionCommand : Type 0 where
  start :
      AggregateId
      → AggregateId
      → Option AggregateId
      → Text
      → Text
      → ThinkingMode
      → RuntimeMode
      → EnvMode
      → SessionKind
      → DateTime
      → SessionCommand
  set_env_mode : EnvMode → SessionCommand
  stop : DateTime → SessionCommand
  start_turn : Text → Text → DateTime → SessionCommand
  append_assistant_block : Text → AssistantBlock → SessionCommand
  complete_turn : Text → Option F64 → Option ℕ → Option ℕ → DateTime → SessionCommand
  fail_turn : Text → Text → DateTime → SessionCommand
  interrupt_turn : Text → DateTime → SessionCommand
  attach_provider_session : Text → SessionCommand
  resume : DateTime → SessionCommand
  rename : Text → SessionCommand
  delete : DateTime → SessionCommand
  toggle_pin : DateTime → SessionCommand

pub data SessionEvent : Type 0 where
  session_started :
      AggregateId
      → AggregateId
      → Option AggregateId
      → Text
      → Text
      → ThinkingMode
      → RuntimeMode
      → EnvMode
      → SessionKind
      → DateTime
      → SessionEvent
  session_env_mode_changed : EnvMode → SessionEvent
  session_stopped : DateTime → SessionEvent
  session_errored : DateTime → Text → SessionEvent
  turn_started : Text → Text → DateTime → SessionEvent
  turn_assistant_block_appended : Text → AssistantBlock → SessionEvent
  turn_completed : Text → Option F64 → Option ℕ → Option ℕ → DateTime → SessionEvent
  turn_failed : Text → Text → DateTime → SessionEvent
  turn_interrupted : Text → DateTime → SessionEvent
  provider_session_attached : Text → SessionEvent
  session_resumed : DateTime → SessionEvent
  session_renamed : Text → SessionEvent
  session_deleted : DateTime → SessionEvent
  session_pin_toggled : Option DateTime → SessionEvent

pub data SessionError : Type 0 where
  already_exists not_found not_running not_resumable no_provider_session empty_title : SessionError
  unknown_turn turn_not_streaming : Text → SessionError

-- The derived `==` on the enums, at the values that the code compares with.
abbrev pub eq_env_mode : EnvMode → EnvMode → Bool
eq_env_mode default_env default_env = true
eq_env_mode worktree_env worktree_env = true
eq_env_mode _ _ = false

abbrev pub is_running : SessionStatus → Bool
is_running running = true
is_running _ = false

abbrev pub is_stopped : SessionStatus → Bool
is_stopped stopped = true
is_stopped _ = false

abbrev pub is_streaming : TurnStatus → Bool
is_streaming streaming = true
is_streaming _ = false

-- `matches!(status, Stopped | Errored)`
abbrev pub is_resumable : SessionStatus → Bool
is_resumable stopped = true
is_resumable errored = true
is_resumable _ = false

-- `matches!(e, SessionEvent::SessionDeleted { .. })`
abbrev pub is_deletion : SessionEvent → Bool
is_deletion (session_deleted at) = true
is_deletion _ = false
