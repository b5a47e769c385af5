-- ===== src/Tests/Project.antt =====
-- The project aggregate at concrete inputs.
use oxyris.Prelude.{ℕ, ◌≡◌, refl, codes, some, [], ◌∷◌, ok, err}
use oxyris.Prelude.F64.{is_finite, eq_opt_f64}
use oxyris.Core.{local, apply_all, replay}
use oxyris.Core.History.{History, start, accept}
use oxyris.Domain.Project.{
  ProjectState, ProjectEvent, create, rename, set_sort_order, project_created, project_renamed,
  project_sort_order_set, invalid_sort_order, empty_name, validate_name, normalize_workspace,
  decide, apply, project,
}
use oxyris.Domain.Project.Valid.{IsValid, replay-project-IsValid}
use oxyris.Prelude.{trim, eq_text}

abbrev created : ProjectEvent
created = project_created 7 (codes "Oxyris") local (codes "C:\\dev") (some (codes "Work")) 100

abbrev renamed : ProjectEvent
renamed = project_renamed (codes "Oxyris Code")

project_log : History project (created ∷ renamed ∷ [])
unfolding decide validate_name normalize_workspace trim replay apply_all apply eq_text
project_log =
    accept (rename (codes " Oxyris Code"))
      (accept (create 7 (codes "Oxyris ") local (codes "C:\\dev") (some (codes "  Work")) 100) start
        refl)
      refl

replay-project-IsValid_example : IsValid (replay project (created ∷ renamed ∷ []))
replay-project-IsValid_example = replay-project-IsValid project_log

abbrev one : ProjectState
one = replay project (created ∷ [])

-- 1.5 as the bits of an `f64`
abbrev one_and_a_half : ℕ
one_and_a_half = 0x3ff8000000000000

accepted_order :
    decide one (set_sort_order one_and_a_half) ≡ ok (project_sort_order_set one_and_a_half ∷ [])
unfolding decide replay apply_all apply is_finite eq_opt_f64
accepted_order = refl

blank_name : decide one (rename (codes "   ")) ≡ err empty_name
unfolding decide validate_name trim replay apply_all apply
blank_name = refl

nan_order : decide one (set_sort_order 0x7ff8000000000000) ≡ err invalid_sort_order
unfolding decide replay apply_all apply is_finite
nan_order = refl
