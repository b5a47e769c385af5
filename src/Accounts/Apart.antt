-- ===== src/Accounts/Apart.antt =====
-- In a distribution the documents of the live login and of the slots are files of their own,
-- whatever the home looks like.
use oxyris.Prelude.{
  ◌≤◌, ◌≡◌, ◌∙◌, ap, sym, subst, refl, arith, Text, codes, false, [], ◌∷◌, ◌++◌, ok, length,
  eq_text, ends_with, append_assoc, lacks, is_empty, true,
}
use oxyris.Core.{Environment, wsl}
use oxyris.Accounts.Json.{Json}
use oxyris.Accounts.Machine.{Machine, eq_env}
use oxyris.Accounts.Machine.Files.{IsLawful, is_file, is_temporary}
use oxyris.Accounts.Paths.{
  Host, DocPaths, credentials_file, config_file, slots_dir, trim_slashes, join, wsl_home,
  live_paths, slot_dir, slot_paths, registry_path,
}
use oxyris.Accounts.Registry.{Serde}
use oxyris.Accounts.Save.Frame.{ok_inj, IsApart}
use oxyris.Accounts.Save.Registered.{is_file_swap}
use oxyris.Accounts.Save.Stored.{AreSlots}
use oxyris.Accounts.Switch.Rollback.{IsLive}
use oxyris.Accounts.Paths.Trim.{
  eq_text-append, ends_with-longer, slashes, trailing, trim_slashes-append, after_slashes,
  trim_slashes-name, eq_text-names,
}

-- An identifier that is one name of a path.
pub record IsName (id : Text) : Type 0 where
  pub no_slash : lacks b'/' id ≡ true
  pub filled : is_empty id ≡ false

module _ {X : Type 0} (J : Type 0) (host : Host X) (env : Environment) where
  -- No document of the one slot is a document of the other.
  pub record AreTwo (a b : Text) : Type 0 where
    pub docs_a : DocPaths
    pub docs_b : DocPaths
    pub at_a : slot_paths J host env a ≡ ok docs_a
    pub at_b : slot_paths J host env b ≡ ok docs_b
    pub creds_creds : is_file env docs_a.credentials env docs_b.credentials ≡ false
    pub creds_config : is_file env docs_a.credentials env docs_b.config ≡ false
    pub config_creds : is_file env docs_a.config env docs_b.credentials ≡ false
    pub config_config : is_file env docs_a.config env docs_b.config ≡ false

module _ {X : Type 0} (J : Type 0) (host : Host X) (distro home : Text)
    (at_home : wsl_home J host distro ≡ ok home) where
  slot_docs :
      (id : Text)
      → slot_paths J host (wsl distro) id
        ≡ ok (record {
          credentials =
              trim_slashes (home ++ (codes "/.oxyris/" ++ (slots_dir ++ b'/' ∷ id)))
              ++ (b'/' ∷ credentials_file);
          config =
              trim_slashes (home ++ (codes "/.oxyris/" ++ (slots_dir ++ b'/' ∷ id)))
              ++ (b'/' ∷ config_file);
        })
  unfolding slot_paths slot_dir join
  slot_docs id = rw at_home refl

  -- What every slot's directory starts with, and what follows
  slot_start :
      (id : Text)
      → trim_slashes (home ++ (codes "/.oxyris/" ++ (slots_dir ++ b'/' ∷ id)))
        ≡ home ++ (codes "/.oxyris/claude-accounts" ++ trim_slashes (b'/' ∷ id))
  slot_start id =
      ap trim_slashes (sym (append_assoc home (codes "/.oxyris/claude-account") (b's' ∷ b'/' ∷ id)))
      ∙ trim_slashes-append (home ++ codes "/.oxyris/claude-account") (b'/' ∷ id) b's' refl
      ∙ append_assoc home (codes "/.oxyris/claude-account") (b's' ∷ trim_slashes (b'/' ∷ id))

  live_docs :
      live_paths J host (wsl distro)
      ≡ ok (record {
        credentials = home ++ (codes "/.claude" ++ (b'/' ∷ credentials_file));
        config = trim_slashes home ++ (b'/' ∷ config_file);
      })
  unfolding live_paths join
  live_docs =
      let start : trim_slashes (home ++ codes "/.claude") ≡ home ++ codes "/.claude" =
        ap trim_slashes (sym (append_assoc home (codes "/.claud") (codes "e")))
        ∙ trim_slashes-append (home ++ codes "/.claud") [] b'e' refl
        ∙ append_assoc home (codes "/.claud") (codes "e") in
      rw at_home
        (rw start (rw (append_assoc home (codes "/.claude") (b'/' ∷ credentials_file)) refl))

  -- Two files below the home
  below_home : (x y : Text) → eq_text x y ≡ false → eq_text (home ++ x) (home ++ y) ≡ false
  below_home x y h = eq_text-append home x y ∙ h

  beside_config :
      (x y : Text)
      → eq_text (b'/' ∷ x) (b'/' ∷ b'.' ∷ y) ≡ false
      → eq_text (home ++ b'/' ∷ x) (trim_slashes home ++ b'/' ∷ b'.' ∷ y) ≡ false
  beside_config x y h =
      let (n, e) = trailing home in
      ap (λ t. eq_text (t ++ b'/' ∷ x) (trim_slashes home ++ b'/' ∷ b'.' ∷ y)) e
      ∙ ap (λ t. eq_text t (trim_slashes home ++ b'/' ∷ b'.' ∷ y))
          (append_assoc (trim_slashes home) (slashes n) (b'/' ∷ x))
      ∙ eq_text-append (trim_slashes home) (slashes n ++ b'/' ∷ x) (b'/' ∷ b'.' ∷ y)
      ∙ after_slashes n x y h

  -- The part of a slot's path below the home
  abbrev slot_tail : Text → Text → Text
  slot_tail id leaf = codes ".oxyris/claude-accounts" ++ (trim_slashes (b'/' ∷ id) ++ (b'/' ∷ leaf))

  slot_file :
      (id leaf : Text)
      → trim_slashes (home ++ (codes "/.oxyris/" ++ (slots_dir ++ b'/' ∷ id))) ++ (b'/' ∷ leaf)
        ≡ home ++ b'/' ∷ slot_tail id leaf
  slot_file id leaf =
      ap (λ t. t ++ (b'/' ∷ leaf)) (slot_start id)
      ∙ append_assoc home (codes "/.oxyris/claude-accounts" ++ trim_slashes (b'/' ∷ id))
          (b'/' ∷ leaf)
      ∙ ap (λ t. home ++ t)
          (append_assoc (codes "/.oxyris/claude-accounts") (trim_slashes (b'/' ∷ id)) (b'/' ∷ leaf))

  slot_kept :
      (id leaf : Text)
      → 3 ≤ length leaf
      → ends_with (b'/' ∷ leaf) (codes ".tmp") ≡ false
      → is_temporary
          (trim_slashes (home ++ (codes "/.oxyris/" ++ (slots_dir ++ b'/' ∷ id))) ++ (b'/' ∷ leaf))
        ≡ false
  slot_kept id leaf n h =
      ends_with-longer (trim_slashes (home ++ (codes "/.oxyris/" ++ (slots_dir ++ b'/' ∷ id))))
        (b'/' ∷ leaf) (codes ".tmp") (omega arith) h

module _ {W X : Type 0} (j : Json) (serde_registry : Serde j.Error) (m : Machine W X)
    (host : Host X) (distro home : Text) (at_home : wsl_home j.Error host distro ≡ ok home) where
  abbrev env : Environment
  env = wsl distro

  abbrev dir : Text → Text
  dir id = trim_slashes (home ++ (codes "/.oxyris/" ++ (slots_dir ++ b'/' ∷ id)))

  abbrev docs_of : Text → DocPaths
  docs_of id = record {
    credentials = dir id ++ (b'/' ∷ credentials_file);
    config = dir id ++ (b'/' ∷ config_file);
  }

  is_docs :
      (id : Text) (stored : DocPaths)
      → slot_paths j.Error host env id ≡ ok stored
      → docs_of id ≡ stored
  is_docs id stored h = ok_inj (sym (slot_docs j.Error host distro home at_home id) ∙ h)

  other_file : (p q : Text) → eq_text p q ≡ false → is_file env p env q ≡ false
  other_file p q h = ground (arith, h)

  wsl-AreSlots :
      is_temporary (registry_path j.Error host) ≡ false → AreSlots j serde_registry m host env
  wsl-AreSlots kept = record {
    kept = λ id stored h.
        subst
          (λ (d : DocPaths). (is_temporary d.credentials ≡ false) × (is_temporary d.config ≡ false))
          (is_docs id stored h)
          (
            slot_kept j.Error host distro home at_home id credentials_file (omega arith)
                (unfold ends_with eq_text in refl),
            slot_kept j.Error host distro home at_home id config_file (omega arith)
                (unfold ends_with eq_text in refl),
          );
    registry_kept = kept;
    two = λ id stored h.
        subst (λ (d : DocPaths). is_file env d.config env d.credentials ≡ false)
          (is_docs id stored h)
          (other_file _ _ (
            eq_text-append (dir id) (b'/' ∷ config_file) (b'/' ∷ credentials_file)
            ∙ unfold eq_text in refl));
    apart = λ id stored h. (unfold eq_env in refl, unfold eq_env in refl);
  }

  slot_file_of :
      (id leaf : Text)
      → dir id ++ (b'/' ∷ leaf) ≡ home ++ b'/' ∷ slot_tail j.Error host distro home at_home id leaf
  slot_file_of id leaf = slot_file j.Error host distro home at_home id leaf

  abbrev live_of : DocPaths
  live_of = record {
    credentials = home ++ (codes "/.claude" ++ (b'/' ∷ credentials_file));
    config = trim_slashes home ++ (b'/' ∷ config_file);
  }

  -- A document of a slot is neither of the live documents.
  slot_apart :
      (id leaf : Text)
      → (is_file env (dir id ++ (b'/' ∷ leaf)) env live_of.credentials ≡ false)
        × (is_file env (dir id ++ (b'/' ∷ leaf)) env live_of.config ≡ false)
  unfolding eq_text
  slot_apart id leaf = (
    other_file (dir id ++ (b'/' ∷ leaf)) live_of.credentials (
        ap (λ t. eq_text t live_of.credentials) (slot_file_of id leaf)
        ∙ below_home j.Error host distro home at_home
            (b'/' ∷ slot_tail j.Error host distro home at_home id leaf)
            (codes "/.claude" ++ (b'/' ∷ credentials_file)) refl),
    other_file (dir id ++ (b'/' ∷ leaf)) live_of.config (
        ap (λ t. eq_text t live_of.config) (slot_file_of id leaf)
        ∙ beside_config j.Error host distro home at_home
            (slot_tail j.Error host distro home at_home id leaf) (codes "claude.json") refl),
  )

  live-IsApart :
      (path : Text)
      → is_temporary path ≡ false
      → ((id : Text) (leaf : Text) → is_file env (dir id ++ (b'/' ∷ leaf)) env path ≡ false)
      → IsApart j serde_registry m host env env path
  live-IsApart path kept slot = record {
    kept = kept;
    slots = λ id stored h.
        subst
          (λ (d : DocPaths).
            (is_file env d.credentials env path ≡ false) × (is_file env d.config env path ≡ false))
          (is_docs id stored h) (slot id credentials_file, slot id config_file);
    registry = unfold eq_env in refl;
  }

  two_live : is_file env live_of.credentials env live_of.config ≡ false
  unfolding eq_text
  two_live = other_file live_of.credentials live_of.config (
      beside_config j.Error host distro home at_home (codes ".claude/.credentials.json")
        (codes "claude.json") refl)

  slot_tails :
      (a b x y : Text)
      → IsName a
      → IsName b
      → eq_text a b ≡ false
      → eq_text (trim_slashes (b'/' ∷ a) ++ b'/' ∷ x) (trim_slashes (b'/' ∷ b) ++ b'/' ∷ y) ≡ false
  unfolding eq_text
  slot_tails a b x y p q ne =
      rw (trim_slashes-name a p.no_slash p.filled, trim_slashes-name b q.no_slash q.filled)
        (eq_text-names a b x y p.no_slash q.no_slash ne)

  two_slots :
      (a b x y : Text)
      → IsName a
      → IsName b
      → eq_text a b ≡ false
      → is_file env (dir a ++ (b'/' ∷ x)) env (dir b ++ (b'/' ∷ y)) ≡ false
  unfolding eq_text
  two_slots a b x y p q ne = other_file (dir a ++ (b'/' ∷ x)) (dir b ++ (b'/' ∷ y)) (
      ap (λ t. eq_text t (dir b ++ (b'/' ∷ y))) (slot_file_of a x)
      ∙ ap (λ t. eq_text (home ++ b'/' ∷ slot_tail j.Error host distro home at_home a x) t)
          (slot_file_of b y)
      ∙ below_home j.Error host distro home at_home
          (b'/' ∷ slot_tail j.Error host distro home at_home a x)
          (b'/' ∷ slot_tail j.Error host distro home at_home b y)
          (eq_text-append (codes "/.oxyris/claude-accounts") (trim_slashes (b'/' ∷ a) ++ (b'/' ∷ x))
              (trim_slashes (b'/' ∷ b) ++ (b'/' ∷ y))
            ∙ slot_tails a b x y p q ne))

  -- In a distribution whose agent reports a home, whatever it looks like: the documents of each
  -- slot are two files, and the live documents are two files; no document of a slot is a live one,
  -- none of them is a temporary file or the registry, where the registry's name is no temporary
  -- file's; and no document of one slot is a document of another, where the identifiers of the two
  -- are different names without a slash in them.
  pub wsl-apart :
      (lawful : IsLawful j.Error m) (a b : Text)
      → is_temporary (registry_path j.Error host) ≡ false
      → IsName a
      → IsName b
      → eq_text a b ≡ false
      → AreSlots j serde_registry m host env
        × AreTwo j.Error host env a b
        × ((live : DocPaths)
            → live_paths j.Error host env ≡ ok live
            → IsLive j serde_registry m host lawful env live)
  wsl-apart lawful a b kept p q ne = (
    wsl-AreSlots kept,
    record {
      docs_a = docs_of a;
      docs_b = docs_of b;
      at_a = slot_docs j.Error host distro home at_home a;
      at_b = slot_docs j.Error host distro home at_home b;
      creds_creds = two_slots a b credentials_file credentials_file p q ne;
      creds_config = two_slots a b credentials_file config_file p q ne;
      config_creds = two_slots a b config_file credentials_file p q ne;
      config_config = two_slots a b config_file config_file p q ne;
    },
    λ live h.
        subst (IsLive j serde_registry m host lawful env)
          (ok_inj (sym (live_docs j.Error host distro home at_home) ∙ h))
          (record {
            creds_apart =
                live-IsApart live_of.credentials
                  (ends_with-longer home (codes "/.claude" ++ (b'/' ∷ credentials_file))
                    (codes ".tmp") (omega arith) (unfold ends_with eq_text in refl))
                  (λ id leaf. (slot_apart id leaf).0);
            config_apart =
                live-IsApart live_of.config
                  (ends_with-longer (trim_slashes home) (b'/' ∷ config_file) (codes ".tmp")
                    (omega arith) (unfold ends_with eq_text in refl))
                  (λ id leaf. (slot_apart id leaf).1);
            two = two_live;
            two' = is_file_swap env env live_of.credentials live_of.config two_live;
          }),
  )
