-- ===== src/Accounts/Save/Unique.antt =====
-- One record for each account of an environment.
use oxyris.Prelude.{
  ◌≡◌, ◌∙◌, ap, sym, refl, Text, Bool, true, false, ◌&&◌, some, Option, [], ◌∷◌, All, All-mono,
  filter, find, map, map_option, eq_text, eq_text→eq, eq_text_refl, eq_opt_text, eq_opt_text→eq,
  eq_opt_text_refl, to_ascii_lowercase, Bool-cases, not_both, inl, inr, &&-left, &&-right,
}
use oxyris.Core.{Environment, local, wsl}
use oxyris.Accounts.Docs.{AccountIdentity, same_account}
use oxyris.Accounts.Machine.{eq_env}
use oxyris.Accounts.Registry.{AccountRecord, Registry, is_login, put_first}

pub eq_env→eq : (a b : Environment) → eq_env a b ≡ true → a ≡ b
unfolding eq_env
eq_env→eq local local h = refl
eq_env→eq local (wsl b) h = absurd (cc h)
eq_env→eq (wsl a) local h = absurd (cc h)
eq_env→eq (wsl a) (wsl b) h = ap wsl (eq_text→eq a b h)

pub eq_env_refl : (a : Environment) → eq_env a a ≡ true
unfolding eq_env
eq_env_refl local = refl
eq_env_refl (wsl a) = eq_text_refl a

-- What `same_account` compares
abbrev pub account_of : AccountIdentity → Text × Option Text
account_of a =
    (map to_ascii_lowercase a.email, map_option (map to_ascii_lowercase) a.organization_uuid)

pub same_account→eq :
    (a b : AccountIdentity) → same_account a b ≡ true → account_of a ≡ account_of b
unfolding same_account
same_account→eq a b h =
    let emails : map to_ascii_lowercase a.email ≡ map to_ascii_lowercase b.email =
      eq_text→eq _ _ (&&-left _ _ h) in
    let organizations = eq_opt_text→eq _ _ (&&-right _ _ h) in λ i. (emails i, organizations i)

pub eq→same_account :
    (a b : AccountIdentity) → account_of a ≡ account_of b → same_account a b ≡ true
unfolding same_account
eq→same_account a b h =
    rw (ap (λ (p : Text × Option Text). p.0) h, ap (λ (p : Text × Option Text). p.1) h)
      (rw (eq_text_refl, eq_opt_text_refl) refl)

pub is_login→eq :
    (env : Environment) (identity : AccountIdentity) (a : AccountRecord)
    → is_login env identity a ≡ true
    → (a.environment ≡ env) × (account_of a.identity ≡ account_of identity)
unfolding is_login
is_login→eq env identity a h =
    (eq_env→eq _ _ (&&-left _ _ h), same_account→eq a.identity identity (&&-right _ _ h))

pub eq→is_login :
    (env : Environment) (identity : AccountIdentity) (a : AccountRecord)
    → a.environment ≡ env
    → account_of a.identity ≡ account_of identity
    → is_login env identity a ≡ true
unfolding is_login
eq→is_login env identity a h k =
    rw h (rw (eq_env_refl env, eq→same_account a.identity identity k) refl)

-- Two records are of different environments or accounts.
abbrev pub Differs : AccountRecord → AccountRecord → Type 0
Differs a b = is_login a.environment a.identity b ≡ false

-- No account of an environment is registered twice.
abbrev pub IsUnique : Registry → Type 0
IsUnique [] = Unit
IsUnique (a ∷ accounts) = All (Differs a) accounts × IsUnique accounts

put_first-All :
    (P : AccountRecord → Type 0) (p : AccountRecord → Bool) (r : AccountRecord)
    (accounts : Registry)
    → P r
    → All P accounts
    → All P (put_first p r accounts)
unfolding put_first
put_first-All P p r [] h all = (h, tt)
put_first-All P p r (a ∷ accounts) h all = elim (Bool-cases (p a)) [
  | inl e ↦ rw e (h, all.1)
  | inr e ↦ rw e (all.0, put_first-All P p r accounts h all.1)
]

pub find-put_first :
    (p : AccountRecord → Bool) (r : AccountRecord) (accounts : Registry)
    → p r ≡ true
    → find p (put_first p r accounts) ≡ some r
unfolding put_first find
find-put_first p r [] h = rw h refl
find-put_first p r (a ∷ accounts) h = elim (Bool-cases (p a)) [
  | inl e ↦ rw e (rw h refl)
  | inr e ↦ rw e (rw e (find-put_first p r accounts h))
]

module _ (env : Environment) (identity : AccountIdentity) (r : AccountRecord)
    (is_r : is_login env identity r ≡ true) where
  -- A record that differs from one of this login differs from every one.
  moved : (a b : AccountRecord) → is_login env identity a ≡ true → Differs a b → Differs r b
  unfolding is_login same_account
  moved a b h differs =
      let (r_env, r_account) = is_login→eq env identity r is_r in
      let (a_env, a_account) = is_login→eq env identity a h in
      let account : account_of r.identity ≡ account_of a.identity = r_account ∙ sym a_account in
      let alike : is_login r.environment r.identity b ≡ is_login a.environment a.identity b = λ i.
        eq_env b.environment ((r_env ∙ sym a_env) i)
        && (eq_text (map to_ascii_lowercase b.identity.email) (account i).0
            && eq_opt_text (map_option (map to_ascii_lowercase) b.identity.organization_uuid)
                (account i).1) in
      alike ∙ differs

  -- A record of another login differs from this one.
  apart : (a : AccountRecord) → is_login env identity a ≡ false → Differs a r
  apart a h = elim (Bool-cases (is_login a.environment a.identity r)) [
    | inr e ↦ e
    | inl e ↦
        let (r_env, r_account) = is_login→eq env identity r is_r in
        let (a_env, a_account) = is_login→eq a.environment a.identity r e in
        not_both (is_login env identity a)
          (eq→is_login env identity a (sym a_env ∙ r_env) (sym a_account ∙ r_account)) h
  ]

  -- The record of a login takes the place of the one that there is, so that no account of an
  -- environment is registered twice.
  pub put_first-IsUnique :
      (accounts : Registry)
      → IsUnique accounts
      → IsUnique (put_first (is_login env identity) r accounts)
  unfolding put_first
  put_first-IsUnique [] unique = (tt, tt)
  put_first-IsUnique (a ∷ accounts) unique = elim (Bool-cases (is_login env identity a)) [
    | inl e ↦ rw e (All-mono (Differs a) (Differs r) accounts (λ b. moved a b e) unique.0, unique.1)
    | inr e ↦ rw e (
      put_first-All (Differs a) (is_login env identity) r accounts (apart a e) unique.0,
      put_first-IsUnique accounts unique.1,
    )
  ]

filter-All :
    (P : AccountRecord → Type 0) (p : AccountRecord → Bool) (accounts : Registry)
    → All P accounts
    → All P (filter p accounts)
unfolding filter
filter-All P p [] h = tt
filter-All P p (a ∷ accounts) h = elim (Bool-cases (p a)) [
  | inl e ↦ rw e (h.0, filter-All P p accounts h.1)
  | inr e ↦ rw e (filter-All P p accounts h.1)
]

pub filter-IsUnique :
    (p : AccountRecord → Bool) (accounts : Registry)
    → IsUnique accounts
    → IsUnique (filter p accounts)
unfolding filter
filter-IsUnique p [] unique = tt
filter-IsUnique p (a ∷ accounts) unique = elim (Bool-cases (p a)) [
  | inl e ↦ rw e (filter-All (Differs a) p accounts unique.0, filter-IsUnique p accounts unique.1)
  | inr e ↦ rw e (filter-IsUnique p accounts unique.1)
]
