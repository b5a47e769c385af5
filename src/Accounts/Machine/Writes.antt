-- ===== src/Accounts/Machine/Writes.antt =====
-- What `EnvFs::write_private` leaves of the files: it replaces one as a whole, or none.
use oxyris.Prelude.{
  ◌≡◌, ◌∙◌, ◌⊎◌, ap, sym, refl, Text, codes, true, false, some, ◌++◌, Result, ok, err, eq_text→eq,
  ends_with-append, Bool-cases, not_both, inl, inr, &&-right, append_assoc,
}
use oxyris.Core.{Environment, local, wsl}
use oxyris.Accounts.Machine.{
  Machine, AccountsError, on_machine, gone_is_fine, after_rename, temporary, remove_path,
  create_parent_dir, write_private,
}
use oxyris.Accounts.Machine.Steps.{>>=-Ends, Ends}
use oxyris.Accounts.Machine.Files.{
  IsLawful, IsRoomy, Same, SameFiles, fits, is_file, is_temporary, reads,
}

module _ {W X : Type 0} (J : Type 0) (m : Machine W X) where
  temporary-is_temporary : (path uuid : Text) → is_temporary (temporary path uuid) ≡ true
  unfolding temporary
  temporary-is_temporary path uuid =
      let name = path ++ (codes ".oxyris-" ++ uuid) in
      let cut : temporary path uuid ≡ name ++ codes ".tmp" =
        sym (append_assoc path (codes ".oxyris-" ++ uuid) (codes ".tmp")) in
      rw cut (ends_with-append name (codes ".tmp"))

  not_temporary :
      (env env' : Environment) (path uuid path' : Text)
      → is_temporary path' ≡ false
      → is_file env (temporary path uuid) env' path' ≡ false
  not_temporary env env' path uuid path' h =
      elim (Bool-cases (is_file env (temporary path uuid) env' path')) [
        | inr e ↦ e
        | inl e ↦
            let same : temporary path uuid ≡ path' = eq_text→eq _ _ (&&-right _ _ e) in
            let ends : is_temporary path' ≡ true = rw (← same) (temporary-is_temporary path uuid) in
            not_both _ ends h
      ]

  module _ (lawful : IsLawful J m) where
    gone-SameFiles :
        (w : W) (env : Environment) (path uuid : Text) (r : Result X (Unit {0}) × W)
        → m.delete w env (temporary path uuid) false ≡ r
        → SameFiles J m w (gone_is_fine {J = J} m env r).1
    gone-SameFiles w env path uuid (ok u, w') h env' path' n =
        lawful.after_delete w w' env _ (ok u) env' path' h
          (not_temporary env env' path uuid path' n)
    gone-SameFiles w env path uuid (err e, w') h env' path' n =
        elim (Bool-cases (m.is_not_found e)) [
          | inl f ↦ rw f (
              lawful.after_delete w w' env _ (err e) env' path' h
                (not_temporary env env' path uuid path' n))
          | inr f ↦ rw f (
              lawful.after_delete w w' env _ (err e) env' path' h
                (not_temporary env env' path uuid path' n))
        ]

    -- Every file but this one and the temporary ones reads as before.
    abbrev pub Others : W → Environment → Text → W → Type 0
    Others w env path w' =
        (env' : Environment) (path' : Text)
        → is_temporary path' ≡ false
        → is_file env path env' path' ≡ false
        → reads J m w' env' path' ≡ reads J m w env' path'

    -- What is at the path after an error: what was there, or in a distribution the new contents.
    abbrev pub Left : W → Environment → Text → Text → W → Type 0
    Left w local path contents w' = reads J m w' local path ≡ reads J m w local path
    Left w (wsl distro) path contents w' =
        (reads J m w' (wsl distro) path ≡ reads J m w (wsl distro) path)
        ⊎ (reads J m w' (wsl distro) path ≡ ok (some contents))

    -- How `write_private` ends.
    abbrev pub Written :
        W → Environment → Text → Text → Result (AccountsError X J) (Unit {0}) → W → Type 0
    Written w env path contents (ok _) w' =
        (reads J m w' env path ≡ ok (some contents)) × Others w env path w'
    Written w env path contents (err _) w' = Left w env path contents w' × Others w env path w'

    -- The same, where `G` makes the contents fit.
    abbrev pub Ended :
        Type 0 → W → Environment → Text → Text → Result (AccountsError X J) (Unit {0}) → W → Type 0
    Ended G w env path contents (ok _) w' =
        (G → reads J m w' env path ≡ ok (some contents)) × Others w env path w'
    Ended G w env path contents (err _) w' =
        (is_temporary path ≡ false → G → Left w env path contents w') × Others w env path w'

    SameFiles-Left :
        (w w' : W) (env : Environment) (path contents : Text)
        → SameFiles J m w w'
        → is_temporary path ≡ false
        → Left w env path contents w'
    SameFiles-Left w w' local path contents same n = same local path n
    SameFiles-Left w w' (wsl distro) path contents same n = inl (same (wsl distro) path n)

    after_rename-Ended :
        (G : Type 0) (w0 w : W) (env : Environment) (path uuid contents : Text)
        (r : Result X (Unit {0}) × W)
        → SameFiles J m w0 w
        → (G → reads J m w env (temporary path uuid) ≡ ok (some contents))
        → m.rename w env (temporary path uuid) path ≡ r
        → Ends (Ended G w0 env path contents) (after_rename {J = J} m env (temporary path uuid) r)
    after_rename-Ended G w0 w env path uuid contents (ok u, w') same there h = (
      λ g. lawful.reads-rename w w' env _ path contents h (there g),
      λ env' path' n other.
          lawful.after_rename_ok w w' env _ path env' path' h
            (not_temporary env env' path uuid path' n) other
          ∙ same env' path' n,
    )
    after_rename-Ended G w0 w (local) path uuid contents (err e, w') same there h =
        let kept : SameFiles J m w0 (remove_path {J = J} m local (temporary path uuid) false w').1 =
          λ env' path' n.
            unfold remove_path in
            gone-SameFiles w' local path uuid (m.delete w' local (temporary path uuid) false) refl
              env' path' n
            ∙ lawful.after_rename_err w w' _ path e h env' path'
            ∙ same env' path' n in
        (λ n g. kept local path n, λ env' path' n other. kept env' path' n)
    after_rename-Ended G w0 w (wsl distro) path uuid contents (err e, w') same there h =
        let gone : SameFiles J m w'
            (remove_path {J = J} m (wsl distro) (temporary path uuid) false w').1 =
          λ env' path' n.
            unfold remove_path in
            gone-SameFiles w' (wsl distro) path uuid
              (m.delete w' (wsl distro) (temporary path uuid) false) refl env' path' n in
        (
          λ n g. elim (lawful.reads-rename_lost w w' distro _ path contents e h (there g)) [
            | inl kept ↦ inl (gone (wsl distro) path n ∙ kept ∙ same (wsl distro) path n)
            | inr new ↦ inr (gone (wsl distro) path n ∙ new)
          ],
          λ env' path' n other.
              gone env' path' n
              ∙ lawful.after_rename_lost w w' distro _ path e env' path' h
                  (not_temporary (wsl distro) env' path uuid path' n) other
              ∙ same env' path' n,
        )

    abbrev Created : W → Result (AccountsError X J) (Unit {0}) → W → Type 0
    Created w r w' = Same J m w w'

    created :
        (w : W) (env : Environment) (path : Text)
        → Ends (Created w) (create_parent_dir {J = J} m env path w)
    unfolding create_parent_dir
    created w local path = on_local (m.create_parent w path) refl
      where
        on_local :
            (r : Result X (Unit {0}) × W)
            → m.create_parent w path ≡ r
            → Ends (Created w) (on_machine {J = J} local r)
        on_local (r, w') h = lawful.after_create_parent w w' path r h
    created w (wsl distro) path = λ env' path'. refl

    -- After the temporary file was written, or not.
    abbrev Filled :
        Type 0 → W → Environment → Text → Text → Result (AccountsError X J) (Unit {0}) → W → Type 0
    Filled G w env tmp contents (ok _) w' =
        SameFiles J m w w' × (G → reads J m w' env tmp ≡ ok (some contents))
    Filled G w env tmp contents (err _) w' = SameFiles J m w w'

    -- `G` makes contents fit that the machine took.
    abbrev Fit : Type 0 → Environment → Text → Type 0
    Fit G env contents =
        G
        → (w : W) (path : Text) → (m.write_file w env path contents).0 ≡ ok tt
        → fits env contents ≡ true

    filled :
        (G : Type 0) (w0 w : W) (env : Environment) (path uuid contents : Text)
        (r : Result X (Unit {0}) × W)
        → Fit G env contents
        → Same J m w0 w
        → m.write_file w env (temporary path uuid) contents ≡ r
        → Ends (Filled G w0 env (temporary path uuid) contents) (on_machine {J = J} env r)
    filled G w0 w env path uuid contents (ok u, w') fit same h = (
      λ env' path' n.
          lawful.after_write_file w w' env _ contents (ok u) env' path' h
            (not_temporary env env' path uuid path' n)
          ∙ same env' path',
      λ g.
          lawful.reads-write_file w w' env _ contents h
            (fit g w (temporary path uuid) (ap (λ r. r.0) h)),
    )
    filled G w0 w (local) path uuid contents (err e, w') fit same h = λ env' path' n.
        lawful.after_write_file w w' local _ contents (err e) env' path' h
          (not_temporary local env' path uuid path' n)
        ∙ same env' path'
    filled G w0 w (wsl distro) path uuid contents (err e, w') fit same h = λ env' path' n.
        lawful.after_write_file w w' (wsl distro) _ contents (err e) env' path' h
          (not_temporary (wsl distro) env' path uuid path' n)
        ∙ same env' path'

    pub write_private-Ended :
        (G : Type 0) (w : W) (env : Environment) (path contents : Text)
        → Fit G env contents
        → Ends (Ended G w env path contents) (write_private {J = J} m env path contents w)
    unfolding write_private
    write_private-Ended G w env path contents fit =
        let uuid = m.uuid w in
        let Q = Ended G w env path contents in
        >>=-Ends (Created w) Q _ _ w (created w env path)
          (λ _ w1 same.
            >>=-Ends (Filled G w env (temporary path uuid) contents) Q _ _ w1
              (filled G w w1 env path uuid contents _ fit same refl)
              (λ _ w2 full. after_rename-Ended G w w2 env path uuid contents _ full.0 full.1 refl)
              (λ _ w2 same2. (
                λ n g. SameFiles-Left w w2 env path contents same2 n,
                λ env' path' n other. same2 env' path' n,
              )))
          (λ _ w1 same. (
            λ n g. SameFiles-Left w w1 env path contents (λ env' path' _. same env' path') n,
            λ env' path' n other. same env' path',
          ))

    Ended-Written :
        (G : Type 0) (w : W) (env : Environment) (path contents : Text)
        (r : Result (AccountsError X J) (Unit {0}) × W)
        → G
        → is_temporary path ≡ false
        → Ends (Ended G w env path contents) r
        → Ends (Written w env path contents) r
    Ended-Written G w env path contents (ok u, w') g n h = (h.0 g, h.1)
    Ended-Written G w env path contents (err e, w') g n h = (h.0 n g, h.1)

    -- Where the contents are at most as long as the environment's files are read, and the path is
    -- no temporary file's: after a success the path holds the contents. After an error it holds
    -- what it held, or in a distribution, whose agent may be gone after the rename, all of the
    -- contents. In each case every other file that is not a temporary one is as it was.
    pub write_private-Written :
        (w : W) (env : Environment) (path contents : Text)
        → fits env contents ≡ true
        → is_temporary path ≡ false
        → Ends (Written w env path contents) (write_private {J = J} m env path contents w)
    write_private-Written w env path contents fit n =
        Ended-Written (Unit {0}) w env path contents _ tt n
          (write_private-Ended (Unit {0}) w env path contents (λ _ _ _ _. fit))

    pub write_private-Roomy :
        (w : W) (env : Environment) (path contents : Text)
        → IsRoomy J m env
        → is_temporary path ≡ false
        → Ends (Written w env path contents) (write_private {J = J} m env path contents w)
    write_private-Roomy w env path contents roomy n =
        Ended-Written (IsRoomy J m env) w env path contents _ roomy n (
          write_private-Ended (IsRoomy J m env) w env path contents
            (λ room w1 path1. room w1 path1 contents))
