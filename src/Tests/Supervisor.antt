-- ===== src/Tests/Supervisor.antt =====
-- The auto-pilot at concrete inputs.
use oxyris.Prelude.{
  ◌≡◌, ◌≤◌, refl, inl, Text, codes, Bool, false, none, some, [], ◌∷◌, length, find, eq_text, Result,
  ok, arith, count, is_none, lacks, starts_with, inr,
}
use oxyris.Supervisor.Types.{
  SupervisorError, PendingKind, permission, approval_text, AutopilotContext, Decision, Verdict,
  bare,
}
use oxyris.Supervisor.Guardrails.{first_match}
use oxyris.Supervisor.LoopGuard.{LoopGuard, default_guard, observe, fingerprint_hash, pop_beyond}
use oxyris.Supervisor.Escape.{norm, trim_slashes, is_absolute, up, down, escapes_worktree}
use oxyris.Supervisor.Escape.Paths.{path_text, AreNames}
use oxyris.Supervisor.Escape.Resolve.{resolve, escapes_worktree-relative}
use oxyris.Supervisor.Controller.{approve, denied, new, pre_check, post_decision, step}
use oxyris.Supervisor.Controller.Safety.{step-approves_undenied}
use oxyris.Supervisor.Controller.Runs.{run, run_bounded}

-- A matcher under which every pattern matches one dangerous command.
abbrev only_rm : Text → Text → Bool
only_rm pattern text = eq_text text (codes "rm -rf /")

abbrev agreeable : AutopilotContext → PendingKind → Result SupervisorError Verdict
agreeable ctx ask = ok (bare Decision.approve)

abbrev ctx : AutopilotContext
ctx = record {
  mission = record { text = codes "ship it" };
  transcript = record { title = none; recent_output = [] };
  cwd = codes "/proj";
}

abbrev safe : PendingKind
safe = permission none none (some (codes "cargo test")) (codes "Run?")

abbrev dangerous : PendingKind
dangerous = permission none none (some (codes "rm -rf /")) (codes "Run?")

step-approves_undenied_example : denied only_rm safe ≡ none
unfolding step pre_check post_decision denied approval_text first_match find eq_text observe new
    pop_beyond fingerprint_hash default_guard count bare
step-approves_undenied_example =
    step-approves_undenied only_rm length agreeable (new none) ctx safe approve none refl (inl refl)

run_bounded_example :
    let outcome =
      run only_rm length agreeable (new (some 3)) ((ctx, safe) ∷ (ctx, dangerous) ∷ []) in
    (outcome.0 ≤ 40) × (outcome.1 ≤ 2)
run_bounded_example =
    run_bounded only_rm length agreeable 3 ((ctx, safe) ∷ (ctx, dangerous) ∷ []) (omega arith)

abbrev guard : LoopGuard
guard = record { recent = 7 ∷ []; window = 6; repeat_limit = 3; max_steps = 40; steps = 1 }

-- The path a\\..\\..\\b, which leaves the worktree.
escapes_worktree-relative_example :
    escapes_worktree
      (λ t. t)
      (path_text b'\\' (down (codes "a")) (up ∷ up ∷ down (codes "b") ∷ []))
      (codes "/p")
    ≡ is_none (resolve [] (down (codes "a") ∷ up ∷ up ∷ down (codes "b") ∷ []))
unfolding eq_text lacks AreNames
escapes_worktree-relative_example =
    escapes_worktree-relative (λ t. t) (codes "/p") b'\\' (down (codes "a"))
      (up ∷ up ∷ down (codes "b") ∷ []) (inr refl)
      (
        record {
          filled = refl;
          no_dot = refl;
          no_dots = refl;
          no_slash = refl;
          no_backslash = refl;
          no_colon = refl;
        },
        (
          record {
            filled = refl;
            no_dot = refl;
            no_dots = refl;
            no_slash = refl;
            no_backslash = refl;
            no_colon = refl;
          },
          tt,
        ),
      )
      (omega arith)

-- A path that climbs above the worktree counts as one inside it.
climbs_unseen : escapes_worktree (λ t. t) (codes "/p/../etc/passwd") (codes "/p/") ≡ false
unfolding escapes_worktree norm is_absolute trim_slashes eq_text starts_with
climbs_unseen = refl
