-- ===== src/Accounts/Docs/Swap.antt =====
-- What a swap of an account subtree leaves, and what it reads as.
use oxyris.Prelude.{
  ◌≡◌, refl, sym, arith, Text, Bool, false, none, some, eq_text, eq_text_refl, Result, ok, ok_or,
  first_step, err, Option, filter_option,
}
use oxyris.Accounts.Json.{Json, IsLawful}
use oxyris.Accounts.Docs.{
  from_json, credentials_key, account_key, parse_object, parse_credentials, parse_identity,
  target_object, swap_subtree, swap_oauth_credentials, swap_oauth_account,
}

filtered :
    {E A : Type 0} (p : A → Bool) (o : Option A) (e : E) {a : A}
    → ok_or (filter_option p o) e ≡ ok a
    → o ≡ some a
filtered p none e h = absurd (cc h)
filtered p (some a) e h = ground (arith, h)

-- What a document holds under a key.
abbrev pub under_key : (j : Json) → Text → Text → Option j.Value
under_key j text key = elim (parse_object j text) [ err e ↦ none | ok m ↦ j.get m key ]

module _ (j : Json) (lawful : IsLawful j) where
  from_json-eq-ok : {A : Type 0} (r : Result j.Error A) {a : A} → from_json j r ≡ ok a → r ≡ ok a
  from_json-eq-ok (ok a) h = cc h
  from_json-eq-ok (err e) h = absurd (cc h)

  -- What a successful swap went through: the source's object holds a value under the key, and the
  -- text that was printed reads back as the target's object with that one key set to it.
  pub record Swapped (target : Option Text) (source : Text) (key text : Text) : Type 0 where
    pub from : j.Map
    pub to : j.Map
    pub subtree : j.Value
    pub parsed : parse_object j source ≡ ok from
    pub found : j.get from key ≡ some subtree
    pub given : target_object j target ≡ ok to
    pub printed : parse_object j text ≡ ok (j.insert to key subtree)

  parse_object-printed :
      (m : j.Map) (text : Text)
      → from_json j (j.to_string_pretty (j.object m)) ≡ ok text
      → parse_object j text ≡ ok m
  unfolding parse_object
  parse_object-printed m text h =
      rw (lawful.from_str-to_string_pretty (j.object m) text (from_json-eq-ok _ h))
        (rw (lawful.as_object-object m) refl)

  pub swap_subtree-Swapped :
      (target : Option Text) (source key text : Text)
      → swap_subtree j target source key ≡ ok text
      → Swapped target source key text
  unfolding swap_subtree
  swap_subtree-Swapped target source key text h =
      let (from, h1, parsed) = first_step (parse_object j source) h in
      let (subtree, h2, found) = first_step (ok_or _ _) h1 in
      let (to, h3, given) = first_step (target_object j target) h2 in
      record {
        from = from;
        to = to;
        subtree = subtree;
        parsed = parsed;
        found = filtered _ (j.get from key) _ found;
        given = given;
        printed = parse_object-printed _ text h3;
      }

  -- The document reads as the target did, except under the key.
  abbrev pub KeepsOthers : Option Text → Text → Text → Type 0
  KeepsOthers target key text =
      (to root : j.Map) × (target_object j target ≡ ok to)
      × (parse_object j text ≡ ok root)
      × ((k : Text) → eq_text k key ≡ false → j.get root k ≡ j.get to k)

  Swapped-KeepsOthers :
      (target : Option Text) (source key text : Text)
      → Swapped target source key text
      → KeepsOthers target key text
  Swapped-KeepsOthers target source key text s = (
    s.to,
    j.insert s.to key s.subtree,
    s.given,
    s.printed,
    λ k other. rw (lawful.get-insert s.to key k s.subtree) (rw other refl),
  )

  Swapped-get :
      (target : Option Text) (source key text : Text) (s : Swapped target source key text)
      → j.get (j.insert s.to key s.subtree) key ≡ j.get s.from key
  Swapped-get target source key text s =
      rw (lawful.get-insert s.to key key s.subtree) (rw (eq_text_refl key) (sym s.found))

  pub parse_identity-swap :
      (live : Option Text) (slot text : Text)
      → swap_oauth_account j live slot ≡ ok text
      → parse_identity j text ≡ parse_identity j slot
  unfolding swap_oauth_account parse_identity
  parse_identity-swap live slot text h =
      let s = swap_subtree-Swapped live slot account_key text h in
      rw (s.printed, s.parsed) (rw (Swapped-get live slot account_key text s) refl)

  pub parse_credentials-swap :
      (live : Option Text) (slot text : Text)
      → swap_oauth_credentials j live slot ≡ ok text
      → parse_credentials j text ≡ parse_credentials j slot
  unfolding swap_oauth_credentials parse_credentials
  parse_credentials-swap live slot text h =
      let s = swap_subtree-Swapped live slot credentials_key text h in
      rw (s.printed, s.parsed) (rw (Swapped-get live slot credentials_key text s) refl)

  pub under_key-swap_oauth_credentials :
      (live : Option Text) (slot text : Text)
      → swap_oauth_credentials j live slot ≡ ok text
      → under_key j text credentials_key ≡ under_key j slot credentials_key
  unfolding swap_oauth_credentials
  under_key-swap_oauth_credentials live slot text h =
      let s = swap_subtree-Swapped live slot credentials_key text h in
      rw (under_key, s.printed, s.parsed) (Swapped-get live slot credentials_key text s)

  pub under_key-swap_oauth_account :
      (live : Option Text) (slot text : Text)
      → swap_oauth_account j live slot ≡ ok text
      → under_key j text account_key ≡ under_key j slot account_key
  unfolding swap_oauth_account
  under_key-swap_oauth_account live slot text h =
      let s = swap_subtree-Swapped live slot account_key text h in
      rw (under_key, s.printed, s.parsed) (Swapped-get live slot account_key text s)

  -- Where the two documents of a slot are swapped into live ones, whether these exist or not, the
  -- new documents read as the slot's login, its identity and its credentials, and every other key
  -- of a live document keeps its value.
  pub swap-reads :
      (live_creds live_config : Option Text) (slot_creds slot_config creds config : Text)
      → swap_oauth_credentials j live_creds slot_creds ≡ ok creds
      → swap_oauth_account j live_config slot_config ≡ ok config
      → (parse_credentials j creds ≡ parse_credentials j slot_creds)
        × (parse_identity j config ≡ parse_identity j slot_config)
        × KeepsOthers live_creds credentials_key creds
        × KeepsOthers live_config account_key config
  unfolding swap_oauth_credentials swap_oauth_account
  swap-reads live_creds live_config slot_creds slot_config creds config h k = (
    parse_credentials-swap live_creds slot_creds creds h,
    parse_identity-swap live_config slot_config config k,
    Swapped-KeepsOthers _ _ _ _ (swap_subtree-Swapped live_creds slot_creds _ creds h),
    Swapped-KeepsOthers _ _ _ _ (swap_subtree-Swapped live_config slot_config _ config k),
  )
