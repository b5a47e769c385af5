-- ===== src/Lsp/Dispatch.antt =====
-- `dispatch` and the end of `reader_loop`: what a message from the server does.
use oxyris.Prelude.{
  to_ascii_lowercase, and_then, ℕ, ◌+◌, ◌-◌, ◌%◌, ◌^◌, Text, codes, Bool, not, ◌||◌, ◌==◌, Option,
  none, some, List, [], ◌∷◌, ◌++◌, map, filter, any, eq_text, contains, if◌then◌else◌,
}

-- What the code reads of a `serde_json::Value`, the diagnostics of a file, and the answers that it
-- builds. A 64-bit number is its bits.
pub record JsonApi (Value Diagnostics : Type 0) : Type 0 where
  pub get : Value → Text → Option Value
  pub as_str : Value → Option Text
  pub as_i64 : Value → Option ℕ
  -- a `String` or the digits of a `Number`
  pub as_token : Value → Option Text
  -- `PublishDiagnosticsParams`: the file and its diagnostics, none if they are empty
  pub publish_params : Value → Option (Text × Option Diagnostics)
  pub null : Value
  pub reply_ok : Value → Value
  pub reply_method_not_found : Value → Text → Value

-- What a caller that waits for an answer is sent.
pub data Answer (Value : Type 0) : Type 0 where
  ok_result : Value → Answer Value
  server_error : ℕ → Text → Answer Value
  server_gone : Answer Value

pub record ProgressSnapshot : Type 0 where
  -- a set, without order
  pub active : List Text
  pub flycheck_completions : ℕ

-- `pending` are the identifiers of the requests that wait, `answered` what their callers were sent,
-- and `out` what was queued for the server.
pub record Client (Value Diagnostics : Type 0) : Type 0 where
  pub pending : List ℕ
  pub answered : List (ℕ × Answer Value)
  pub diagnostics : List (Text × Diagnostics)
  pub progress : ProgressSnapshot
  pub out : List Value

-- `HashMap::remove`, of a map without a key twice
unfoldable pub remove : ℕ → List ℕ → List ℕ
remove id [] = []
remove id (i ∷ is) = if i == id then is else i ∷ remove id is

abbrev pub holds : ℕ → List ℕ → Bool
holds id is = any (λ i. i == id) is

-- `BTreeSet::remove` and `insert`
unfoldable pub remove_token : Text → List Text → List Text
remove_token token active = filter (λ t. not (eq_text t token)) active

unfoldable pub insert_token : Text → List Text → List Text
unfolding remove_token
insert_token token active = token ∷ remove_token token active

unfoldable pub is_flycheck_token : Text → Bool
unfolding contains
is_flycheck_token token =
    let text = map to_ascii_lowercase token in
    contains text (codes "flycheck")
    || contains text (codes "cargo check")
    || contains text (codes "clippy")

unfoldable pub flycheck_running : ProgressSnapshot → Bool
flycheck_running p = any is_flycheck_token p.active

unfoldable pub begin : Text → ProgressSnapshot → ProgressSnapshot
begin token p = record p { active = insert_token token p.active }

-- `wrapping_add(1)` of a `u64`
abbrev pub bump : ℕ → ℕ
bump n = (n + 1) % 2 ^ 64

unfoldable pub end : Text → ProgressSnapshot → ProgressSnapshot
unfolding is_flycheck_token
end token p = record {
  active = remove_token token p.active;
  flycheck_completions =
      if is_flycheck_token token then bump p.flycheck_completions else p.flycheck_completions;
}

-- `HashMap::remove` and `insert` of a file's diagnostics
unfoldable pub without {ℓ} : {D : Type ℓ} → Text → List (Text × D) → List (Text × D)
without uri cache = filter (λ e. not (eq_text e.0 uri)) cache

unfoldable pub publish {ℓ} : {D : Type ℓ} → Text → Option D → List (Text × D) → List (Text × D)
unfolding without
publish uri none cache = without uri cache
publish uri (some d) cache = (uri, d) ∷ without uri cache

-- The methods that the match names.
pub data Method : Type 0 where
  publish_diagnostics progress_report message accepted other : Method

unfoldable pub method_of : Text → Method
method_of m =
    if eq_text m (codes "textDocument/publishDiagnostics")
    then publish_diagnostics
    else if eq_text m (codes "$/progress")
    then progress_report
    else if eq_text m (codes "window/logMessage") || eq_text m (codes "window/showMessage")
    then message
    else if eq_text m (codes "window/workDoneProgress/create")
        || eq_text m (codes "client/registerCapability")
        || eq_text m (codes "client/unregisterCapability")
    then accepted
    else other

module _ {Value Diagnostics : Type 0} (api : JsonApi Value Diagnostics) where
  -- `value.get(key).and_then(|v| v.as_str())`
  abbrev text_at : Value → Text → Option Text
  text_at value key = and_then (api.get value key) api.as_str

  abbrev or_minus_one : Option ℕ → ℕ
  or_minus_one none = 2 ^ 64 - 1
  or_minus_one (some n) = n

  abbrev or_empty : Option Text → Text
  or_empty none = []
  or_empty (some s) = s

  abbrev or_null : Option Value → Value
  or_null none = api.null
  or_null (some v) = v

  abbrev bind_i64 : Option Value → Option ℕ
  bind_i64 none = none
  bind_i64 (some v) = api.as_i64 v

  -- The answer that a response carries.
  unfoldable pub result_of : Value → Answer Value
  result_of value = elim (api.get value (codes "error")) [
    | some e ↦
        server_error (or_minus_one (bind_i64 (api.get e (codes "code"))))
          (or_empty (text_at e (codes "message")))
    | none ↦ ok_result (or_null (api.get value (codes "result")))
  ]

  -- A response: its caller is sent the result, if one waits for it.
  unfoldable pub respond : ℕ → Answer Value → Client Value Diagnostics → Client Value Diagnostics
  respond id result c =
      if holds id c.pending
      then record c { pending = remove id c.pending; answered = c.answered ++ (id, result) ∷ [] }
      else c

  abbrev report : Text → Option Text → ProgressSnapshot → ProgressSnapshot
  report token none p = p
  report token (some kind) p =
      if eq_text kind (codes "begin")
      then begin token p
      else if eq_text kind (codes "end")
      then end token p
      else p

  abbrev kind_of : Option Value → Option Text
  kind_of none = none
  kind_of (some v) = text_at v (codes "kind")

  unfoldable pub on_progress : Value → ProgressSnapshot → ProgressSnapshot
  unfolding begin end
  on_progress params p = elim (and_then (api.get params (codes "token")) api.as_token) [
    | none ↦ p
    | some token ↦ report token (kind_of (api.get params (codes "value"))) p
  ]

  abbrev on_publish :
      Option (Text × Option Diagnostics) → List (Text × Diagnostics) → List (Text × Diagnostics)
  on_publish none cache = cache
  on_publish (some (uri, found)) cache = publish uri found cache

  -- `if let Some(v) = o { … }`, or `let Some(v) = o else { return }`
  abbrev pub if_some :
      Option Value
      → Client Value Diagnostics
      → (Value → Client Value Diagnostics)
      → Client Value Diagnostics
  if_some none c f = c
  if_some (some v) c f = f v

  unfoldable pub handle :
      Method → Text → Value → Client Value Diagnostics → Client Value Diagnostics
  unfolding on_progress publish
  handle publish_diagnostics method value c =
      if_some (api.get value (codes "params")) c
        (λ params. record c { diagnostics = on_publish (api.publish_params params) c.diagnostics })
  handle progress_report method value c =
      if_some (api.get value (codes "params")) c
        (λ params. record c { progress = on_progress params c.progress })
  handle message method value c = c
  handle accepted method value c =
      if_some (api.get value (codes "id")) c
        (λ id. record c { out = c.out ++ api.reply_ok id ∷ [] })
  handle other method value c =
      if_some (api.get value (codes "id")) c
        (λ id. record c { out = c.out ++ api.reply_method_not_found id method ∷ [] })

  -- A notification, or a request of the server's.
  unfoldable pub notify : Text → Value → Client Value Diagnostics → Client Value Diagnostics
  unfolding handle method_of
  notify method value c = handle (method_of method) method value c

  unfoldable pub respond_to : Option ℕ → Value → Client Value Diagnostics → Client Value Diagnostics
  unfolding respond result_of
  respond_to none value c = c
  respond_to (some id) value c = respond id (result_of value) c

  unfoldable pub dispatch_as :
      Option Text → Value → Client Value Diagnostics → Client Value Diagnostics
  unfolding notify respond_to
  dispatch_as (some method) value c = notify method value c
  dispatch_as none value c = respond_to (bind_i64 (api.get value (codes "id"))) value c

  unfoldable pub dispatch : Value → Client Value Diagnostics → Client Value Diagnostics
  unfolding dispatch_as
  dispatch value c = dispatch_as (text_at value (codes "method")) value c

  unfoldable pub dispatch_all : List Value → Client Value Diagnostics → Client Value Diagnostics
  dispatch_all [] c = c
  dispatch_all (value ∷ values) c = dispatch_all values (dispatch value c)

  -- What follows the loop: all that wait are told that the server is gone.
  unfoldable pub server_closed : Client Value Diagnostics → Client Value Diagnostics
  server_closed c = record c {
    pending = [];
    answered = c.answered ++ map (λ id. (id, server_gone)) c.pending;
    progress = record { active = []; flycheck_completions = bump c.progress.flycheck_completions };
  }

  -- `reader_loop`, on the messages that it reads.
  unfoldable pub reader_loop : List Value → Client Value Diagnostics → Client Value Diagnostics
  unfolding dispatch_all server_closed
  reader_loop values c = server_closed (dispatch_all values c)
