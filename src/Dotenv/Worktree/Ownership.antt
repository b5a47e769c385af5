-- ===== src/Dotenv/Worktree/Ownership.antt =====
-- Whose file `.env.local` is, and what of it is overwritten.
use oxyris.Prelude.{
  byte_length, ℕ, Text, true, false, none, some, [], ◌∷◌, ◌++◌, ◌≡◌, ◌⊎◌, inl, inr, refl, arith,
  Bool-cases, starts_with, Result, ok, err, result_cases,
}
use oxyris.Core.{Environment}
use oxyris.Dotenv.Worktree.{
  Files, generated, no_template, manual_override, header, header_marker, template_relative,
  base_relative, variables, path_join, output_path, full_text, after_write, render_owned,
  render_for_worktree,
}

starts_with-append : (p s : Text) → starts_with (p ++ s) p ≡ true
unfolding starts_with
starts_with-append [] s = refl
starts_with-append (c ∷ p) s = ground (arith, starts_with-append p s)

module _ {F E : Type 0} (files : Files F E) (main_separator : ℕ) where
  -- An `.env.local` without the marker is left alone, with any template and any other files: no
  -- file is written, and the answer is that the user owns it, that there is no template, or an
  -- error of reading the template.
  pub render_for_worktree-manual :
      (fs : F) (env : Environment) (worktree_id worktree_path now existing : Text)
      → files.read_text fs (output_path files main_separator worktree_path env) ≡ ok (some existing)
      → starts_with existing header_marker ≡ false
      → let (answer, fs') =
          render_for_worktree files main_separator fs env worktree_id worktree_path now in
        (fs' ≡ fs)
        × ((answer ≡ ok (manual_override (output_path files main_separator worktree_path env)))
            ⊎ (answer ≡ ok no_template)
            ⊎ ((e : E) × (files.read_text fs
                    (path_join main_separator worktree_path template_relative env)
                  ≡ err e)
                × (answer ≡ err e)))
  unfolding render_for_worktree
  render_for_worktree-manual fs env worktree_id worktree_path now existing found foreign =
      elim (result_cases
        (files.read_text fs (path_join main_separator worktree_path template_relative env))) [
          | inr (e, failed) ↦ rw (render_for_worktree, failed) (refl, inr (inr (e, refl, refl)))
          | inl (none, absent) ↦ rw (render_for_worktree, absent) (refl, inr (inl refl))
          | inl (some template, there) ↦
              rw (render_for_worktree, there, found, foreign) (refl, inl refl)
        ]

  -- A file that was written can be read.
  abbrev pub ReadsBack : Type 0
  ReadsBack =
      (fs fs' : F) (path contents : Text)
      → files.write_text fs path contents ≡ (ok tt, fs')
      → files.read_text fs' path ≡ ok (some contents)

  -- The path holds a text of `n` bytes that starts with the marker.
  abbrev pub IsManaged : F → Text → ℕ → Type 0
  IsManaged fs path n =
      (contents : Text) × (files.read_text fs path ≡ ok (some contents))
      × (starts_with contents header_marker ≡ true)
      × (byte_length contents ≡ n)

  header-marker :
      (worktree_id now body : Text)
      → starts_with (header worktree_id now ++ body) header_marker ≡ true
  unfolding header starts_with
  header-marker worktree_id now body = refl

  after_write-IsManaged :
      (fs : F) (path full path' : Text) (n : ℕ) (w : Result E (Unit {0}) × F)
      → ReadsBack
      → starts_with full header_marker ≡ true
      → files.write_text fs path full ≡ w
      → (after_write files main_separator path full w).0 ≡ ok (generated path' n)
      → IsManaged (after_write files main_separator path full w).1 path' n
  after_write-IsManaged fs path full path' n (ok u, fs') reads marked e h =
      let same : path ≡ path' = ground (arith, h) in
      (full, rw (← same) (reads fs fs' path full e), marked, ground (arith, h))
  after_write-IsManaged fs path full path' n (err x, fs') reads marked e h = absurd (cc h)

  render_owned-IsManaged :
      (fs : F) (env : Environment) (worktree_id worktree_path now template path : Text) (n : ℕ)
      → ReadsBack
      → let (answer, fs') =
          render_owned files main_separator fs env worktree_id worktree_path now template in
        answer ≡ ok (generated path n) → IsManaged fs' path n
  unfolding render_owned full_text
  render_owned-IsManaged fs env worktree_id worktree_path now template path n reads =
      let base_path = path_join main_separator worktree_path base_relative env in
      elim (result_cases (files.read_text fs base_path)) [
        | inr (e, failed) ↦ rw (render_owned, failed) (λ h. absurd (cc h))
        | inl (found, there) ↦
            elim (result_cases (variables files main_separator fs env worktree_id worktree_path)) [
              | inr (e, failed) ↦ rw (render_owned, there, failed) (λ h. absurd (cc h))
              | inl (vars, known) ↦
                  rw (render_owned, there, known)
                    (after_write-IsManaged fs _ _ path n _ reads (header-marker worktree_id now _)
                      refl)
            ]
      ]

  -- A file that was generated is at the path that is answered, has the length that is answered,
  -- and carries the marker, so that the next run takes it for its own.
  pub render_for_worktree-IsManaged :
      (fs : F) (env : Environment) (worktree_id worktree_path now path : Text) (n : ℕ)
      → ReadsBack
      → let (answer, fs') =
          render_for_worktree files main_separator fs env worktree_id worktree_path now in
        answer ≡ ok (generated path n) → IsManaged fs' path n
  unfolding render_for_worktree
  render_for_worktree-IsManaged fs env worktree_id worktree_path now path n reads =
      let owned = λ (template : Text).
        render_owned-IsManaged fs env worktree_id worktree_path now template path n reads in
      let template_path = path_join main_separator worktree_path template_relative env in
      let local_path = output_path files main_separator worktree_path env in
      elim (result_cases (files.read_text fs template_path)) [
        | inr (e, failed) ↦ rw (render_for_worktree, failed) (λ h. absurd (cc h))
        | inl (none, absent) ↦ rw (render_for_worktree, absent) (λ h. absurd (cc h))
        | inl (some template, there) ↦ elim (result_cases (files.read_text fs local_path)) [
          | inr (e, failed) ↦ rw (render_for_worktree, there, failed) (λ h. absurd (cc h))
          | inl (none, fresh) ↦ rw (render_for_worktree, there, fresh) (owned template)
          | inl (some existing, found) ↦ elim (Bool-cases (starts_with existing header_marker)) [
            | inl mine ↦ rw (render_for_worktree, there, found, mine) (owned template)
            | inr foreign ↦ rw (render_for_worktree, there, found, foreign) (λ h. absurd (cc h))
          ]
        ]
      ]
