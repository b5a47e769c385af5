-- ===== src/Supervisor/Controller.antt =====
-- crates/oxyris-supervisor/src/controller.rs: the policy around the supervisor's decisions.
pub mod Safety
pub mod Runs
use oxyris.Prelude.{
  ℕ, Text, Bool, true, false, Option, none, some, List, [], ◌∷◌, Result, ok, err, if◌then◌else◌,
}
use oxyris.Supervisor.Types.{
  SupervisorError, PendingKind, permission, turn_ended, approval_text, AutopilotContext, Decision,
  Verdict,
}
use oxyris.Supervisor.Guardrails.{first_match, Budget, new_budget, record_turn}
use oxyris.Supervisor.LoopGuard.{
  LoopVerdict, ok_verdict, repeating, too_many_steps, LoopGuard, default_guard, observe,
}

pub data HaltReason : Type 0 where
  done escalated denylisted : Text → HaltReason
  looping budget_exhausted : HaltReason

pub data Action : Type 0 where
  approve approve_always : Action
  reject reply : Text → Action
  halt : HaltReason → Action

pub record Autopilot : Type 0 where
  pub loop_guard : LoopGuard
  pub budget : Budget

unfoldable pub new : Option ℕ → Autopilot
unfolding default_guard new_budget
new max_turns = record { loop_guard = default_guard; budget = new_budget max_turns }

-- The text that the loop guard keys on.
abbrev pub fingerprint : PendingKind → Text
fingerprint (permission request_id tool_name command raw_prompt) = raw_prompt
fingerprint (turn_ended last_output) = last_output

abbrev verdict_action : LoopVerdict → Option Action
verdict_action ok_verdict = none
verdict_action repeating = some (halt looping)
verdict_action too_many_steps = some (halt budget_exhausted)

-- A reply to a settled turn is charged to the budget.
charge : PendingKind → Text → Autopilot → Action × Autopilot
charge (turn_ended last_output) text a =
    let (within, b) = record_turn a.budget in
    (if within then reply text else halt budget_exhausted, record a { budget = b })
charge (permission request_id tool_name command raw_prompt) text a = (reply text, a)

-- `is_match` is the regular expressions' matcher.
module _ (is_match : Text → Text → Bool) where
  -- `ask.approval_text()` and `first_match` of it
  unfoldable pub denied : PendingKind → Option Text
  denied ask = elim (approval_text ask) [ none ↦ none | some text ↦ first_match is_match text ]

  -- The arm of `Approve` and `ApproveAlways`: the denylist is asked again.
  approve_unless_denied : PendingKind → Action → Autopilot → Action × Autopilot
  approve_unless_denied ask granted a = elim (denied ask) [
    | some name ↦ (halt (denylisted name), a)
    | none ↦ (granted, a)
  ]

  unfoldable pub post_decision : Autopilot → PendingKind → Decision → Action × Autopilot
  unfolding approve_unless_denied charge
  post_decision a ask Decision.approve = approve_unless_denied ask approve a
  post_decision a ask Decision.approve_always = approve_unless_denied ask approve_always a
  post_decision a ask (Decision.reject reason) = (reject reason, a)
  post_decision a ask (Decision.reply text) = charge ask text a
  post_decision a ask (Decision.done summary) = (halt (done summary), a)
  post_decision a ask (Decision.escalate why) = (halt (escalated why), a)

-- `hasher` is the standard library's hash, and `supervisor` is `Supervisor::decide` of the adapter
-- in use.
module _ (is_match : Text → Text → Bool) (hasher : Text → ℕ) where
  unfoldable pub pre_check : Autopilot → PendingKind → Option Action × Autopilot
  pre_check a ask = elim (denied is_match ask) [
    | some name ↦ (some (halt (denylisted name)), a)
    | none ↦
        let (verdict, g) = observe hasher a.loop_guard (fingerprint ask) in
        (verdict_action verdict, record a { loop_guard = g })
  ]

  module _ (supervisor : AutopilotContext → PendingKind → Result SupervisorError Verdict) where
    consult :
        PendingKind
        → Autopilot
        → Result SupervisorError Verdict
        → Result SupervisorError (Action × Option Text) × Autopilot
    consult ask a (err e) = (err e, a)
    consult ask a (ok verdict) =
        let (action, a') = post_decision is_match a ask verdict.decision in
        (ok (action, verdict.reasoning), a')

    unfoldable pub step :
        Autopilot
        → AutopilotContext
        → PendingKind
        → Result SupervisorError (Action × Option Text) × Autopilot
    unfolding consult
    step a ctx ask =
        let (stop, a') = pre_check a ask in
        elim stop [
          | some halted ↦ (ok (halted, none), a')
          | none ↦ consult ask a' (supervisor ctx ask)
        ]
