-- ===== src/Provider.antt =====
-- crates/oxyris-provider: the data that providers and sessions exchange.
use oxyris.Prelude.{ℕ, Text, Bool, Option}
use oxyris.Prelude.F64.{F64}

-- A `serde_json::Value`, as its text; the code stores it and never looks inside.
abbrev pub Value : Type 0
Value = Text

pub data ThinkingMode : Type 0 where
  auto off on : ThinkingMode

pub data RuntimeMode : Type 0 where
  supervised accept_edits full_access plan : RuntimeMode

pub data AssistantBlock : Type 0 where
  text : Text → AssistantBlock
  thinking : Text → AssistantBlock
  tool_use : Text → Text → Value → AssistantBlock
  tool_result : Text → Value → Bool → AssistantBlock

-- The fields in the order of the source: `turn_id` first, but for `session_ready`, which has
-- `provider_session_id` and `model`.
pub data ProviderEvent : Type 0 where
  session_ready : Option Text → Text → ProviderEvent
  assistant_block : Text → AssistantBlock → ProviderEvent
  assistant_text_delta : Text → Text → ProviderEvent
  turn_completed : Text → Option F64 → Option ℕ → Option ℕ → ProviderEvent
  turn_failed : Text → Text → ProviderEvent
  tool_approval_requested : Text → Text → Text → Text → Value → ProviderEvent
  session_ended : ProviderEvent
