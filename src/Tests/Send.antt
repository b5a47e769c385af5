-- ===== src/Tests/Send.antt =====
-- The first message of a session at concrete inputs.
use oxyris.Prelude.{refl, Text, codes, none, [], ◌∷◌, any, find, trim}
use oxyris.Core.{apply_all, replay}
use oxyris.Core.History.{History, accept}
use oxyris.Provider.{auto, supervised}
use oxyris.Domain.Session.{
  SessionEvent, start, session_started, turn_started, session_renamed, default_env, structured,
  decide, apply, session,
}
use oxyris.Service.Send.{derive_auto_title, message_events, message_events-History}

abbrev started : SessionEvent
started =
    session_started 1 2 none (codes "claude") (codes "opus") auto supervised default_env structured
      5

abbrev message : Text
message = codes "Please plan the release"

session_log : History session (started ∷ [])
unfolding decide replay apply_all
session_log =
    accept (start 1 2 none (codes "claude") (codes "opus") auto supervised default_env structured 5)
      History.start refl

message_events-History_example :
    History session (started ∷ turn_started (codes "t1") message 6 ∷ session_renamed message ∷ [])
unfolding message_events derive_auto_title find trim decide replay apply_all apply any
message_events-History_example =
    message_events-History (started ∷ []) (codes "t1") message 6
      (turn_started (codes "t1") message 6 ∷ session_renamed message ∷ []) session_log refl
