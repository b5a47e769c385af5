-- ===== src/Accounts/Docs.antt =====
-- The parsers of crates/oxyris-claude/src/accounts.rs, over serde_json.
pub mod Swap
use oxyris.Prelude.{
  ℕ, ◌*◌, ◌^◌, ◌-◌, Text, codes, Bool, true, false, not, ◌&&◌, ◌||◌, ltb, Option, none, some, List,
  [], ◌∷◌, any, is_empty, eq_text, trim, Result, ok, err, ◌>>=◌, ok_or, is_some, map_option,
  and_then, map, to_ascii_lowercase, eq_opt_text, ends_with, filter_option, if◌then◌else◌,
}
use oxyris.Prelude.Int.{ℤ, pos, negsuc, lebℤ, saturate, saturating_add, parse_i64, f64_to_i64}
use oxyris.Prelude.F64.{F64}
use oxyris.Accounts.Json.{Json}

abbrev pub credentials_key : Text
credentials_key = codes "claudeAiOauth"

abbrev pub account_key : Text
account_key = codes "oauthAccount"

abbrev millis_threshold : ℕ
millis_threshold = 10000000000

pub data AccountDocError (J : Type 0) : Type 0 where
  json : J → AccountDocError J
  not_an_object : AccountDocError J
  missing : Text → AccountDocError J

pub record OAuthCredentials : Type 0 where
  pub access_token : Text
  pub has_refresh_token : Bool
  pub expires_at_ms : Option ℤ
  pub scopes : List Text
  pub subscription_type : Option Text
  pub rate_limit_tier : Option Text

pub record AccountIdentity : Type 0 where
  pub email : Text
  pub display_name : Option Text
  pub account_uuid : Text
  pub organization_uuid : Option Text
  pub organization_name : Option Text

-- `eq_ignore_ascii_case`
abbrev eq_ignore_ascii_case : Text → Text → Bool
eq_ignore_ascii_case s t = eq_text (map to_ascii_lowercase s) (map to_ascii_lowercase t)

unfoldable pub same_account : AccountIdentity → AccountIdentity → Bool
same_account a b =
    eq_ignore_ascii_case a.email b.email
    && eq_opt_text (map_option (map to_ascii_lowercase) a.organization_uuid)
        (map_option (map to_ascii_lowercase) b.organization_uuid)

pub data Plan : Type 0 where
  pro : Plan
  max_5x : Plan
  max_20x : Plan
  max : Plan
  team : Plan
  enterprise : Plan
  free : Plan
  unknown : Plan

abbrev unwrap_or_empty : Option Text → Text
unwrap_or_empty none = []
unwrap_or_empty (some s) = s

unfoldable pub from_parts : Option Text → Option Text → Plan
from_parts subscription_type rate_limit_tier =
    let sub = map to_ascii_lowercase (trim (unwrap_or_empty subscription_type)) in
    let tier = map to_ascii_lowercase (trim (unwrap_or_empty rate_limit_tier)) in
    if eq_text sub (codes "max") && ends_with tier (codes "max_20x")
    then max_20x
    else if eq_text sub (codes "max") && ends_with tier (codes "max_5x")
    then max_5x
    else if eq_text sub (codes "max")
    then max
    else if eq_text sub (codes "pro")
    then pro
    else if eq_text sub (codes "team")
    then team
    else if eq_text sub (codes "enterprise")
    then enterprise
    else if eq_text sub (codes "free")
    then free
    else unknown

unfoldable pub normalize_epoch_ms : ℤ → ℤ
normalize_epoch_ms (pos n) =
    if ltb 0 n && ltb n millis_threshold then saturate (pos (n * 1000)) else pos n
normalize_epoch_ms (negsuc n) = negsuc n

unfoldable pub is_expiring : OAuthCredentials → ℤ → ℤ → Bool
is_expiring c now_ms skew_ms = elim c.expires_at_ms [
  | none ↦ false
  | some exp ↦ lebℤ exp (saturating_add now_ms skew_ms)
]

unfoldable pub has_usage_scopes : OAuthCredentials → Bool
has_usage_scopes c =
    is_empty c.scopes
    || (any (λ s. eq_text s (codes "user:profile")) c.scopes
        && any (λ s. eq_text s (codes "user:inference")) c.scopes)

unfoldable pub plan : OAuthCredentials → Plan
unfolding from_parts
plan c = from_parts c.subscription_type c.rate_limit_tier

-- One rate-limit window of the usage endpoint.
pub record UsageWindow : Type 0 where
  pub utilization : F64
  pub resets_at : Option Text

pub record UsageSnapshot : Type 0 where
  pub five_hour : Option UsageWindow
  pub seven_day : Option UsageWindow
  pub seven_day_opus : Option UsageWindow
  pub seven_day_sonnet : Option UsageWindow

module _ (j : Json) where
  -- An error of serde_json, as `?` converts it.
  abbrev from_json : {A : Type 0} → Result j.Error A → Result (AccountDocError j.Error) A
  from_json (ok a) = ok a
  from_json (err e) = err (json e)

  unfoldable pub parse_object : Text → Result (AccountDocError j.Error) j.Map
  parse_object text = do
    value ← from_json (j.from_str text)
    ok_or (j.as_object value) not_an_object

  abbrev pub get_object : j.Map → Text → Option j.Map
  get_object obj key = and_then (j.get obj key) j.as_object

  unfoldable pub str_field : j.Map → Text → Option Text
  str_field obj key =
      filter_option (λ s. not (is_empty s)) (map_option trim (and_then (j.get obj key) j.as_str))

  -- `as_i64` and `as_f64` answer only of a number, `as_str` only of a string.
  unfoldable pub i64_field : j.Map → Text → Option ℤ
  i64_field obj key = and_then (j.get obj key) λ value. elim (j.as_f64 value) [
    | some f ↦ elim (j.as_i64 value) [ some n ↦ some n | none ↦ some (f64_to_i64 f) ]
    | none ↦ elim (j.as_i64 value) [
      | some n ↦ some n
      | none ↦ and_then (j.as_str value) (λ s. parse_i64 (trim s))
    ]
  ]

  -- `filter_map(Value::as_str)`
  abbrev strings : List j.Value → List Text
  strings [] = []
  strings (value ∷ values) =
      let rest = strings values in elim (j.as_str value) [ none ↦ rest | some s ↦ s ∷ rest ]

  unfoldable pub scopes_of : j.Map → List Text
  scopes_of oauth = elim (and_then (j.get oauth (codes "scopes")) j.as_array) [
    | none ↦ []
    | some values ↦ strings values
  ]

  unfoldable pub parse_credentials : Text → Result (AccountDocError j.Error) OAuthCredentials
  parse_credentials text = do
    root ← parse_object text
    oauth ← ok_or (get_object root credentials_key) (missing credentials_key)
    token ← ok_or (str_field oauth (codes "accessToken")) (missing (codes "accessToken"))
    ok (record {
      access_token = token;
      has_refresh_token = is_some (str_field oauth (codes "refreshToken"));
      expires_at_ms = map_option normalize_epoch_ms (i64_field oauth (codes "expiresAt"));
      scopes = scopes_of oauth;
      subscription_type = str_field oauth (codes "subscriptionType");
      rate_limit_tier = str_field oauth (codes "rateLimitTier");
    })

  unfoldable pub parse_identity : Text → Result (AccountDocError j.Error) AccountIdentity
  parse_identity text = do
    root ← parse_object text
    account ← ok_or (get_object root account_key) (missing account_key)
    address ← ok_or (str_field account (codes "emailAddress")) (missing (codes "emailAddress"))
    uuid ← ok_or (str_field account (codes "accountUuid")) (missing (codes "accountUuid"))
    ok (record {
      email = address;
      display_name = str_field account (codes "displayName");
      account_uuid = uuid;
      organization_uuid = str_field account (codes "organizationUuid");
      organization_name = str_field account (codes "organizationName");
    })

  -- `target.map(str::trim).filter(|t| !t.is_empty())`, parsed, or an empty object
  unfoldable pub target_object : Option Text → Result (AccountDocError j.Error) j.Map
  target_object target = elim (filter_option (λ t. not (is_empty t)) (map_option trim target)) [
    | none ↦ ok j.new
    | some t ↦ parse_object t
  ]

  unfoldable pub swap_subtree : Option Text → Text → Text → Result (AccountDocError j.Error) Text
  swap_subtree target source key = do
    from ← parse_object source
    subtree ← ok_or (filter_option (λ v. is_some (j.as_object v)) (j.get from key)) (missing key)
    to ← target_object target
    from_json (j.to_string_pretty (j.object (j.insert to key subtree)))

  unfoldable pub swap_oauth_credentials : Option Text → Text → Result (AccountDocError j.Error) Text
  unfolding swap_subtree
  swap_oauth_credentials live slot = swap_subtree live slot credentials_key

  unfoldable pub swap_oauth_account : Option Text → Text → Result (AccountDocError j.Error) Text
  unfolding swap_subtree
  swap_oauth_account live slot = swap_subtree live slot account_key

  -- `parse_f64` is `parse::<f64>` of the standard library.
  unfoldable pub window : (Text → Option F64) → j.Map → Text → Option UsageWindow
  window parse_f64 root key = and_then (get_object root key) λ obj.
      and_then (j.get obj (codes "utilization")) λ value.
        let reading : Option F64 = elim (j.as_f64 value) [
          | some f ↦ some f
          | none ↦ and_then (j.as_str value) (λ s. parse_f64 (trim s))
        ] in
        map_option
          (λ (f : F64). record { utilization = f; resets_at = str_field obj (codes "resets_at") })
          reading

  unfoldable pub parse_usage :
      (Text → Option F64) → Text → Result (AccountDocError j.Error) UsageSnapshot
  parse_usage parse_f64 text = do
    root ← parse_object text
    ok (record {
      five_hour = window parse_f64 root (codes "five_hour");
      seven_day = window parse_f64 root (codes "seven_day");
      seven_day_opus = window parse_f64 root (codes "seven_day_opus");
      seven_day_sonnet = window parse_f64 root (codes "seven_day_sonnet");
    })
