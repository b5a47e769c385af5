-- ===== src/Domain/Project/Commands.antt =====
-- How `Project::decide` answers: its errors, and the commands that change nothing.
use oxyris.Prelude.{◌≡◌, ◌↔◌, true, none, List, [], eq_text_refl, eq_opt_text_refl, ok, err, arith}
use oxyris.Prelude.F64.{F64, is_finite, eq_f64, eq_opt_f64}
use oxyris.Core.{apply_all}
use oxyris.Domain.Project.{
  ProjectState, ProjectCommand, ProjectEvent, create, rename, set_logo, set_workspace,
  set_sort_order, delete, not_found, validate_name, normalize_workspace, decide, apply, project,
}

abbrev pub IsSetter : ProjectCommand → Type 0
IsSetter (create id name environment root_path workspace now) = ⊥
IsSetter delete = ⊥
IsSetter _ = Unit

eq_f64_refl : (x : F64) → is_finite x ≡ true → eq_f64 x x ≡ true
unfolding eq_f64 is_finite
eq_f64_refl x h = ground arith

-- A setter that was accepted changes nothing when it is sent again.
pub decide-setter_again :
    (state : ProjectState) (cmd : ProjectCommand) (new : List ProjectEvent)
    → IsSetter cmd
    → decide state cmd ≡ ok new
    → decide (apply_all project state new) cmd ≡ ok []
unfolding decide apply_all apply eq_opt_f64
decide-setter_again state (create _ _ _ _ _ _) new s h = absurd s
decide-setter_again state delete new s h = absurd s
decide-setter_again state (rename new_name) new s h = grind (arith, eq_text_refl)
decide-setter_again state (set_logo logo_path) new s h =
    ground (arith, eq_opt_text_refl (normalize_workspace logo_path))
decide-setter_again state (set_workspace workspace) new s h =
    ground (arith, eq_opt_text_refl (normalize_workspace workspace))
decide-setter_again state (set_sort_order sort_order) new s h =
    ground (arith, eq_f64_refl sort_order)

abbrev pub IsCreate : ProjectCommand → Type 0
IsCreate (create id name environment root_path workspace now) = Unit
IsCreate _ = ⊥

-- A command is refused with `not_found` exactly when there is no project and it is no `create`.
pub decide-eq-not_found_iff :
    (state : ProjectState) (cmd : ProjectCommand)
    → (decide state cmd ≡ err not_found) ↔ ((state.inner ≡ none) × ¬ (IsCreate cmd))
unfolding decide validate_name
decide-eq-not_found_iff state (create id name environment root_path workspace now) =
    (λ h. ground arith, λ h. absurd (h.1 tt))
decide-eq-not_found_iff state _ = (λ h. ground arith, λ h. ground arith)
