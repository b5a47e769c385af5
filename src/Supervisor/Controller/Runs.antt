-- ===== src/Supervisor/Controller/Runs.antt =====
-- What one engaged run of the auto-pilot may do at most.
use oxyris.Prelude.{
  ℕ, suc, ◌+◌, ◌-◌, ◌≤◌, ◌<◌, ◌^◌, ◌≡◌, refl, Text, Bool, true, false, Option, some, List, [], ◌∷◌,
  length, Result, ok, err, if◌then◌else◌, arith,
}
use oxyris.Supervisor.Types.{
  SupervisorError, PendingKind, turn_ended, AutopilotContext, Decision, Verdict,
}
use oxyris.Supervisor.Guardrails.{record_turn, new_budget}
use oxyris.Supervisor.LoopGuard.{default_guard}
use oxyris.Supervisor.LoopGuard.Bounds.{observe-steps}
use oxyris.Supervisor.Controller.{
  Action, reply, halt, Autopilot, pre_check, post_decision, step, fingerprint, new,
}

-- The answer carries something out, and does not halt the pilot.
abbrev pub acts : Result SupervisorError (Action × Option Text) → Bool
acts (ok (halt reason, why)) = false
acts (ok (action, why)) = true
acts (err e) = false

-- The answer drives a new turn: a reply to a settled one.
abbrev pub drives : PendingKind → Result SupervisorError (Action × Option Text) → Bool
drives (turn_ended last_output) (ok (reply text, why)) = true
drives _ _ = false

module _ (is_match : Text → Text → Bool) (hasher : Text → ℕ)
    (supervisor : AutopilotContext → PendingKind → Result SupervisorError Verdict) where
  -- A run over the prompts that come up, one after the other, whatever each is answered. It counts
  -- the answers that act, and those that drive a turn.
  pub run : Autopilot → List (AutopilotContext × PendingKind) → ℕ × ℕ × Autopilot
  run a [] = (0, 0, a)
  run a ((ctx, ask) ∷ asks) =
      let (answer, a') = step is_match hasher supervisor a ctx ask in
      let (n, m, a'') = run a' asks in
      ((if acts answer then suc n else n), (if drives ask answer then suc m else m), a'')

  post-guard :
      (a : Autopilot) (ask : PendingKind) (d : Decision)
      → (post_decision is_match a ask d).1.loop_guard ≡ a.loop_guard
  unfolding post_decision
  post-guard a ask d = ground arith

  step-guard :
      (a : Autopilot) (ctx : AutopilotContext) (ask : PendingKind)
      → a.loop_guard.steps + 1 < 2 ^ 64
      → let (answer, a') = step is_match hasher supervisor a ctx ask in
        (a'.loop_guard.max_steps ≡ a.loop_guard.max_steps)
        × (a'.loop_guard.steps ≤ a.loop_guard.steps + 1)
        × (a.loop_guard.steps ≤ a'.loop_guard.steps)
        × (acts answer ≡ true
            → (a'.loop_guard.steps ≡ a.loop_guard.steps + 1)
              × (a'.loop_guard.steps ≤ a.loop_guard.max_steps))
  unfolding step pre_check post_decision
  step-guard a ctx ask fits = ground (arith, observe-steps hasher a.loop_guard (fingerprint ask))

  step-budget :
      (a : Autopilot) (ctx : AutopilotContext) (ask : PendingKind) (m : ℕ)
      → a.budget.max_turns ≡ some m
      → a.budget.turns + 1 < 2 ^ 32
      → let (answer, a') = step is_match hasher supervisor a ctx ask in
        (a'.budget.max_turns ≡ some m)
        × (a'.budget.turns ≤ a.budget.turns + 1)
        × (a.budget.turns ≤ a'.budget.turns)
        × (drives ask answer ≡ true
            → (a'.budget.turns ≡ a.budget.turns + 1) × (a'.budget.turns < m))
  unfolding step pre_check post_decision record_turn
  step-budget a ctx ask m cap fits = ground arith

  run-acts :
      (a : Autopilot) (asks : List (AutopilotContext × PendingKind))
      → a.loop_guard.steps + length asks < 2 ^ 64
      → (run a asks).0 ≤ a.loop_guard.max_steps - a.loop_guard.steps
  unfolding run
  run-acts a [] fits = omega arith
  run-acts a ((ctx, ask) ∷ asks) fits =
      let (cap, up, down, acted) = step-guard a ctx ask (omega arith) in
      let rest = run-acts (step is_match hasher supervisor a ctx ask).1 asks (omega (arith, up)) in
      ground (arith, cap, up, down, acted, rest)

  run-drives :
      (a : Autopilot) (asks : List (AutopilotContext × PendingKind)) (m : ℕ)
      → a.budget.max_turns ≡ some m
      → a.budget.turns + length asks < 2 ^ 32
      → (run a asks).1 ≤ m - 1 - a.budget.turns
  unfolding run
  run-drives a [] m cap fits = omega arith
  run-drives a ((ctx, ask) ∷ asks) m cap fits =
      let (cap', up, down, drove) = step-budget a ctx ask m cap (omega arith) in
      let rest =
        run-drives (step is_match hasher supervisor a ctx ask).1 asks m cap' (omega (arith, up)) in
      ground (arith, up, down, drove, rest)

  -- In a run of a fresh auto-pilot over fewer than 2^32 prompts, with any supervisor: at most 40
  -- answers act without halting the pilot, and with a cap of `m` turns at most `m - 1` replies
  -- drive a new turn.
  pub run_bounded :
      (m : ℕ) (asks : List (AutopilotContext × PendingKind))
      → length asks < 2 ^ 32
      → let outcome = run (new (some m)) asks in (outcome.0 ≤ 40) × (outcome.1 ≤ m - 1)
  unfolding new
  run_bounded m asks fits = (
    unfold default_guard in omega (arith, run-acts (new (some m)) asks (omega arith)),
    unfold new_budget in omega (arith, run-drives (new (some m)) asks m refl (omega arith)),
  )
