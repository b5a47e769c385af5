-- ===== src/Accounts/Save/Registered.antt =====
-- What `save_live` leaves when it succeeds: a slot that holds the live login, and its record.
use oxyris.Prelude.{
  ◌≡◌, ◌∙◌, ap, sym, refl, Text, true, false, none, some, Option, [], Result, ok, err, Bool-cases,
  inl, inr, eq_text→eq, eq_text_refl, &&-left, &&-right, not_both,
}
use oxyris.Core.{Environment, local}
use oxyris.Accounts.Json.{Json}
use oxyris.Accounts.Machine.{Machine, on_machine, read}
use oxyris.Accounts.Machine.Steps.{Ends, OnOk, OnErr, >>=-still, >>=-Ends}
use oxyris.Accounts.Machine.Files.{IsLawful, is_file, is_temporary, reads}
use oxyris.Accounts.Paths.{Host, registry_path}
use oxyris.Accounts.Registry.{
  Registry, Serde, E, from_serde, read_registry, write_registry, registry_tmp,
}
use oxyris.Accounts.Save.Unique.{eq_env→eq, eq_env_refl}
use oxyris.Accounts.Save.Frame.{registry_tmp-other}

-- The registry that is written reads back.
pub record IsFaithful {E : Type 0} (s : Serde E) : Type 0 where
  pub decode-encode :
      (reg : Registry) (text : Text) → s.encode reg ≡ ok text → s.decode text ≡ some reg

pub is_file_swap :
    (env env' : Environment) (path path' : Text)
    → is_file env path env' path' ≡ false
    → is_file env' path' env path ≡ false
is_file_swap env env' path path' h = elim (Bool-cases (is_file env' path' env path)) [
  | inr e ↦ e
  | inl e ↦
      let envs : env' ≡ env = eq_env→eq _ _ (&&-left _ _ e) in
      let paths : path' ≡ path = eq_text→eq _ _ (&&-right _ _ e) in
      let same : is_file env path env' path' ≡ true =
        rw (envs, paths) (rw (eq_env_refl, eq_text_refl) refl) in
      not_both _ same h
]

module _ {W X : Type 0} (j : Json) (serde_registry : Serde j.Error) (m : Machine W X)
    (host : Host X) where
  -- `read_registry` looks at the registry's file only.
  abbrev registry_in : Result (E X j) (Option Text) → Registry
  registry_in (ok (some s)) = elim (serde_registry.decode s) [ none ↦ [] | some reg ↦ reg ]
  registry_in _ = []

  read_registry-reads :
      (w : W)
      → read_registry j serde_registry m host w
        ≡ registry_in (reads j.Error m w local (registry_path j.Error host))
  unfolding read_registry read
  read_registry-reads w = from_read (m.read_to_string w (registry_path j.Error host)) refl
    where
      from_read :
          (r : Result X Text)
          → m.read_to_string w (registry_path j.Error host) ≡ r
          → read_registry j serde_registry m host w
            ≡ registry_in (reads j.Error m w local (registry_path j.Error host))
      from_read (ok s) h = rw (read_registry, read, h) refl
      from_read (err e) h = elim (Bool-cases (m.is_not_found e)) [
        | inl f ↦ rw (read_registry, read, h, f) refl
        | inr f ↦ rw (read_registry, read, h, f) refl
      ]

  -- The registry is what its file says.
  pub read_registry-same :
      (w w' : W)
      → reads j.Error m w' local (registry_path j.Error host)
        ≡ reads j.Error m w local (registry_path j.Error host)
      → read_registry j serde_registry m host w' ≡ read_registry j serde_registry m host w
  read_registry-same w w' h =
      read_registry-reads w' ∙ ap registry_in h ∙ sym (read_registry-reads w)

  module _ (lawful : IsLawful j.Error m) (faithful : IsFaithful serde_registry) where
    from_serde-eq-ok :
        {A : Type 0} (r : Result j.Error A) {a : A} → from_serde {X = X} j r ≡ ok a → r ≡ ok a
    from_serde-eq-ok (ok a) h = cc h
    from_serde-eq-ok (err e) h = absurd (cc h)

    abbrev Filled : Text → Result (E X j) (Unit {0}) → W → Type 0
    Filled text =
        OnOk λ w. reads j.Error m w local (registry_tmp j serde_registry m host) ≡ ok (some text)

    filled :
        (w : W) (text : Text) (r : Result X (Unit {0}) × W)
        → m.write_file w local (registry_tmp j serde_registry m host) text ≡ r
        → Ends (Filled text) (on_machine {J = j.Error} local r)
    filled w text (ok u, w') h = lawful.reads-write_file w w' local _ text h refl
    filled w text (err e, w') h = tt

    renamed :
        (w : W) (reg : Registry) (text : Text) (r : Result X (Unit {0}) × W)
        → serde_registry.encode reg ≡ ok text
        → reads j.Error m w local (registry_tmp j serde_registry m host) ≡ ok (some text)
        → m.rename w local (registry_tmp j serde_registry m host) (registry_path j.Error host) ≡ r
        → Ends
            (OnOk λ w'. read_registry j serde_registry m host w' ≡ reg)
            (on_machine {J = j.Error} local r)
    renamed w reg text (ok u, w') encoded there h =
        read_registry-reads w'
        ∙ ap registry_in (lawful.reads-rename w w' local _ _ text h there)
        ∙ rw (registry_in, faithful.decode-encode reg text encoded) refl
    renamed w reg text (err e, w') encoded there h = tt

    pub write_registry-reads :
        (reg : Registry) (w : W)
        → Ends
            (OnOk λ w'. read_registry j serde_registry m host w' ≡ reg)
            (write_registry j serde_registry m host reg w)
    unfolding write_registry
    write_registry-reads reg w =
        >>=-still (OnOk λ w'. read_registry j serde_registry m host w' ≡ reg) _ _ w refl
          (λ text encoded.
            >>=-Ends (Filled text) (OnOk λ w'. read_registry j serde_registry m host w' ≡ reg) _ _ w
              (filled w text _ refl)
              (λ _ w1 there. renamed w1 reg text _ (from_serde-eq-ok _ encoded) there refl)
              (λ _ _ _. tt))
          (λ _. tt)

    module _ (kept : is_temporary (registry_path j.Error host) ≡ false) where
      abbrev Alike : W → W → Type 0
      Alike w w' =
          reads j.Error m w' local (registry_path j.Error host)
          ≡ reads j.Error m w local (registry_path j.Error host)

      filled_alike :
          (w : W) (text : Text) (r : Result X (Unit {0}) × W)
          → m.write_file w local (registry_tmp j serde_registry m host) text ≡ r
          → Ends {E = E X j} (λ _ w'. Alike w w') (on_machine {J = j.Error} local r)
      filled_alike w text (r, w') h =
          lawful.after_write_file w w' local _ text r local (registry_path j.Error host) h (
            registry_tmp-other j serde_registry m host lawful local (registry_path j.Error host)
              kept)

      renamed_alike :
          (w0 w : W) (r : Result X (Unit {0}) × W)
          → Alike w0 w
          → m.rename w local (registry_tmp j serde_registry m host) (registry_path j.Error host) ≡ r
          → Ends {E = E X j} (OnErr (Alike w0)) (on_machine {J = j.Error} local r)
      renamed_alike w0 w (ok u, w') same h = tt
      renamed_alike w0 w (err e, w') same h =
          lawful.after_rename_err w w' _ _ e h local (registry_path j.Error host) ∙ same

      -- A registry that cannot be written stays.
      pub write_registry-err :
          (reg : Registry) (w : W)
          → Ends (OnErr (Alike w)) (write_registry j serde_registry m host reg w)
      unfolding write_registry
      write_registry-err reg w =
          >>=-still (OnErr (Alike w)) _ _ w refl
            (λ text _.
              >>=-Ends (λ _ w'. Alike w w') (OnErr (Alike w)) _ _ w (filled_alike w text _ refl)
                (λ _ w1 same. renamed_alike w w1 _ same refl) (λ _ w1 same. same))
            (λ _. refl)
