-- ===== src/Watchdog/Manager.antt =====
-- `AutopilotManager`: the sessions that are engaged, and the notices that wake their watchdogs.
use oxyris.Prelude.{
  ℕ, ◌==◌, Text, codes, Bool, true, false, not, Option, none, some, List, ◌∷◌, filter, find,
  eq_text, Result, ok, err, if◌then◌else◌,
}
use oxyris.Core.{AggregateId}
use oxyris.Supervisor.Types.{Mission, mission_is_empty}
use oxyris.Supervisor.Controller.{Autopilot, new}
use oxyris.Signals.Sniffer.{PureSignal, working, needs_input, turn_ended}

-- What is used of a terminal of apps/desktop/src/infra/pty.rs.
pub record Terminal : Type 0 where
  pub id : Text
  pub cwd : Text
  pub is_claude : Bool

pub record EngagedSession : Type 0 where
  pub session_id : AggregateId
  pub term_id : Text
  pub cwd : Text
  pub mission : Mission
  pub pilot : Autopilot

pub record PureSignalNotice : Type 0 where
  pub session_id : AggregateId
  pub terminal_id : Text
  pub signal : PureSignal

abbrev pub lookup : AggregateId → List EngagedSession → Option EngagedSession
lookup session_id engaged = find (λ s. s.session_id == session_id) engaged

-- `disengage`, and `HashMap::remove`
unfoldable pub disengage : AggregateId → List EngagedSession → List EngagedSession
disengage session_id engaged = filter (λ s. not (s.session_id == session_id)) engaged

-- `terminals` are those of the session. A session that is engaged already is replaced.
unfoldable pub engage :
    List Terminal
    → AggregateId
    → Text
    → Option ℕ
    → List EngagedSession
    → Result Text (List EngagedSession)
unfolding disengage mission_is_empty new
engage terminals session_id mission max_turns engaged =
    let m : Mission = record { text = mission } in
    if mission_is_empty m
    then err (codes "mission is empty")
    else elim (find (λ t. t.is_claude) terminals) [
      | none ↦ err (codes "no pure (claude) terminal for this session")
      | some term ↦ ok (
          record {
            session_id = session_id;
            term_id = term.id;
            cwd = term.cwd;
            mission = m;
            pilot = new max_turns;
          }
          ∷ disengage session_id engaged)
    ]

abbrev is_working : PureSignal → Bool
is_working working = true
is_working needs_input = false
is_working turn_ended = false

-- The body of the loop of `run`: whether a notice wakes the watchdog of its session.
unfoldable pub wakes : PureSignalNotice → List EngagedSession → Bool
wakes notice engaged =
    if is_working notice.signal then false else elim (lookup notice.session_id engaged) [
      | none ↦ false
      | some session ↦ eq_text notice.terminal_id session.term_id
    ]
