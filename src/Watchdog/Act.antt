-- ===== src/Watchdog/Act.antt =====
-- `drive` and `act`: one step of the pilot, and what its action writes to the terminal.
use oxyris.Prelude.{
  ℕ, zero, suc, Text, codes, Bool, true, false, Option, none, some, List, [], ◌∷◌, ◌++◌, Result, ok,
  err, is_empty, trim, if◌then◌else◌,
}
use oxyris.Supervisor.Types.{
  SupervisorError, not_configured, backend, invalid_decision, Mission, PendingKind,
  AutopilotContext, Verdict,
}
use oxyris.Supervisor.Controller.{
  HaltReason, denylisted, looping, budget_exhausted, Action, approve, approve_always, reject, reply,
  halt, Autopilot, step,
}
use oxyris.Watchdog.Menu.{dont_ask_again_steps}

pub data AutopilotEvent : Type 0 where
  thinking approved : AutopilotEvent
  reasoning rejected replied done halted escalated error : Text → AutopilotEvent

-- What a round changes: whether the session is engaged, the pilot, what was sent to its
-- terminal, whether or not the write failed, and what was emitted.
pub record World : Type 0 where
  pub engaged : Bool
  pub pilot : Autopilot
  pub written : List Text
  pub emitted : List AutopilotEvent

unfoldable pub halt_reason_str : HaltReason → Text
halt_reason_str (HaltReason.done s) = codes "done: " ++ s
halt_reason_str (HaltReason.escalated s) = codes "escalated: " ++ s
halt_reason_str (denylisted s) = codes "blocked (denylist): " ++ s
halt_reason_str looping = codes "stopped: detected a loop"
halt_reason_str budget_exhausted = codes "stopped: turn budget exhausted"

unfoldable pub emit : AutopilotEvent → World → World
emit event w = record w { emitted = w.emitted ++ event ∷ [] }

unfoldable pub write : Text → World → World
write input w = record w { written = w.written ++ input ∷ [] }

unfoldable pub disengage : World → World
disengage w = record w { engaged = false }

-- The two writes of `submit`
unfoldable pub submit : Text → World → World
unfolding write
submit text w = write (codes "\r") (write text w)

unfoldable pub arrow_downs : ℕ → World → World
unfolding write
arrow_downs zero w = w
arrow_downs (suc n) w = arrow_downs n (write (0x1b ∷ codes "[B") w)

unfoldable pub halt_event : HaltReason → AutopilotEvent
unfolding halt_reason_str
halt_event (HaltReason.done summary) = AutopilotEvent.done summary
halt_event (HaltReason.escalated why) = AutopilotEvent.escalated why
halt_event (denylisted s) = halted (halt_reason_str (denylisted s))
halt_event looping = halted (halt_reason_str looping)
halt_event budget_exhausted = halted (halt_reason_str budget_exhausted)

-- `SupervisorError`'s `Display`
abbrev pub error_text : SupervisorError → Text
error_text (not_configured s) = codes "not configured: " ++ s
error_text (backend s) = codes "backend: " ++ s
error_text (invalid_decision s) = codes "invalid decision from supervisor: " ++ s

-- What the round finds: `menu` is the screen when a menu is confirmed, `recent_output` the one that
-- the supervisor reads, and `decide` is `Supervisor::decide`.
pub record Screens : Type 0 where
  pub menu : Text
  pub recent_output : Text
  pub decide : AutopilotContext → PendingKind → Result SupervisorError Verdict

module _ (to_lowercase : Text → Text) where
  abbrev approve_after : Option ℕ → World → Option Bool × World
  unfolding emit write arrow_downs
  approve_after none w = (none, w)
  approve_after (some downs) w =
      (some true, emit approved (write (codes "\r") (arrow_downs downs w)))

  -- Whether input was submitted, none on a panic, and the world after it.
  unfoldable pub act : Screens → Action → World → Option Bool × World
  unfolding emit write submit approve_after halt_event disengage
  act screens approve w = (some true, emit approved (write (codes "\r") w))
  act screens approve_always w = approve_after (dont_ask_again_steps to_lowercase screens.menu) w
  act screens (reject reason) w =
      (some true, emit (rejected reason) (submit reason (write (0x1b ∷ []) w)))
  act screens (reply text) w = (some true, emit (replied text) (submit text w))
  act screens (halt reason) w = (some false, emit (halt_event reason) (disengage w))

  abbrev emit_reasoning : Option Text → World → World
  unfolding emit trim
  emit_reasoning none w = w
  emit_reasoning (some text) w = if is_empty (trim text) then w else emit (reasoning text) w

  unfoldable pub carry_out :
      Screens → Result SupervisorError (Action × Option Text) → World → Option Bool × World
  unfolding act emit_reasoning
  carry_out screens (ok (action, why)) w = act screens action (emit_reasoning why w)
  carry_out screens (err e) w = (some false, disengage (emit (error (error_text e)) w))

  -- `is_match` is the regular expressions' matcher and `hasher` the standard library's hash.
  module _ (is_match : Text → Text → Bool) (hasher : Text → ℕ) where
    unfoldable pub drive : Mission → Text → Screens → PendingKind → World → Option Bool × World
    unfolding emit carry_out
    drive mission cwd screens ask w =
        let ctx : AutopilotContext = record {
          mission = mission;
          transcript = record { title = none; recent_output = screens.recent_output };
          cwd = cwd;
        } in
        let stepped = step is_match hasher screens.decide w.pilot ctx ask in
        let began = emit thinking w in
        carry_out screens stepped.0 (record began { pilot = stepped.1 })
