-- ===== src/Supervisor/Types.antt =====
-- crates/oxyris-supervisor/src/lib.rs: missions, what a session waits for, and verdicts.
use oxyris.Prelude.{Text, Bool, Option, none, some, is_empty, trim}

pub data SupervisorError : Type 0 where
  not_configured backend invalid_decision : Text → SupervisorError

pub record Mission : Type 0 where
  pub text : Text

-- `Mission::is_empty`
unfoldable pub mission_is_empty : Mission → Bool
mission_is_empty m = is_empty (trim m.text)

pub record TranscriptView : Type 0 where
  pub title : Option Text
  pub recent_output : Text

-- `permission request_id tool_name command raw_prompt`
pub data PendingKind : Type 0 where
  permission : Option Text → Option Text → Option Text → Text → PendingKind
  turn_ended : Text → PendingKind

unfoldable pub approval_text : PendingKind → Option Text
approval_text (permission request_id tool_name (some cmd) raw_prompt) = some cmd
approval_text (permission request_id tool_name none raw_prompt) = some raw_prompt
approval_text (turn_ended last_output) = none

pub record AutopilotContext : Type 0 where
  pub mission : Mission
  pub transcript : TranscriptView
  pub cwd : Text

pub data Decision : Type 0 where
  approve approve_always : Decision
  reject reply done escalate : Text → Decision

pub record Verdict : Type 0 where
  pub reasoning : Option Text
  pub decision : Decision

-- `Verdict::bare`
unfoldable pub bare : Decision → Verdict
bare decision = record { reasoning = none; decision = decision }
