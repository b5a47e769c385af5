-- ===== src/Supervisor/Controller/Safety.antt =====
-- What the auto-pilot never does, whatever its supervisor says.
use oxyris.Prelude.{ℕ, ◌≡◌, ◌⊎◌, Text, Bool, Option, none, some, Result, ok, arith}
use oxyris.Supervisor.Types.{SupervisorError, PendingKind, AutopilotContext, Verdict}
use oxyris.Supervisor.Controller.{
  Action, approve, approve_always, halt, denylisted, Autopilot, denied, pre_check, post_decision,
  step,
}

module _ (is_match : Text → Text → Bool) (hasher : Text → ℕ) where
  -- Whatever the supervisor answers, a step that approves, once or for always, acts on a request
  -- whose text no pattern of the denylist matches.
  pub step-approves_undenied :
      (supervisor : AutopilotContext → PendingKind → Result SupervisorError Verdict) (a : Autopilot)
      (ctx : AutopilotContext) (ask : PendingKind) (action : Action) (why : Option Text)
      → (step is_match hasher supervisor a ctx ask).0 ≡ ok (action, why)
      → (action ≡ approve) ⊎ (action ≡ approve_always)
      → denied is_match ask ≡ none
  unfolding step pre_check post_decision
  step-approves_undenied supervisor a ctx ask action why h granted = ground arith

  -- A request that a pattern of the denylist matches halts the pilot with that pattern's name,
  -- with any supervisor, and leaves the loop guard and the budget as they were.
  pub step-denied :
      (supervisor : AutopilotContext → PendingKind → Result SupervisorError Verdict) (a : Autopilot)
      (ctx : AutopilotContext) (ask : PendingKind) (name : Text)
      → denied is_match ask ≡ some name
      → step is_match hasher supervisor a ctx ask ≡ (ok (halt (denylisted name), none), a)
  unfolding step pre_check
  step-denied supervisor a ctx ask name h = ground arith
