-- ===== src/Lsp/Answered.antt =====
-- Every request that waits is answered once, by the server or when it goes.
use oxyris.Prelude.{
  ℕ, ◌+◌, Text, codes, true, ◌==◌, Option, none, some, List, [], ◌∷◌, ◌++◌, ◌≡◌, inl, inr, refl, ap,
  ◌∙◌, arith, Bool-cases, map, map-append, any, count, count-append, if◌then◌else◌,
}
use oxyris.Lsp.Dispatch.{
  JsonApi, if_some, handle, respond_to, dispatch_as, Answer, server_gone, Client, remove, holds,
  respond, notify, dispatch, dispatch_all, server_closed, reader_loop, result_of, Method,
  publish_diagnostics, progress_report, message, accepted, other, method_of,
}

count-remove :
    (j id : ℕ) (is : List ℕ)
    → holds id is ≡ true
    → count (λ i. i == j) (remove id is) + (if id == j then 1 else 0) ≡ count (λ i. i == j) is
unfolding count remove any
count-remove j id [] h = cc
count-remove j id (i ∷ is) h = ground (arith, count-remove j id is)

module _ {Value Diagnostics : Type 0} (api : JsonApi Value Diagnostics) where
  -- The requests that were answered, by their identifiers.
  abbrev pub answered_ids : Client Value Diagnostics → List ℕ
  answered_ids c = map (λ a. a.0) c.answered

  -- How often `j` waits or was answered.
  abbrev total : ℕ → Client Value Diagnostics → ℕ
  total j c = count (λ i. i == j) c.pending + count (λ i. i == j) (answered_ids c)

  total-respond :
      (j id : ℕ) (result : Answer Value) (c : Client Value Diagnostics)
      → total j (respond api id result c) ≡ total j c
  unfolding respond
  total-respond j id result c = elim (Bool-cases (holds id c.pending)) [
    | inr e ↦ rw e refl
    | inl e ↦
        let grown =
          ap (count (λ i. i == j))
            (map-append (λ (a : ℕ × Answer Value). a.0) c.answered ((id, result) ∷ []))
          ∙ count-append (λ i. i == j) (answered_ids c) (id ∷ []) in
        rw e (unfold count in omega (arith, grown, count-remove j id c.pending e))
  ]

  total-if_some :
      (j : ℕ) (o : Option Value) (c : Client Value Diagnostics)
      (f : Value → Client Value Diagnostics)
      → ((v : Value) → total j (f v) ≡ total j c)
      → total j (if_some api o c f) ≡ total j c
  total-if_some j none c f h = refl
  total-if_some j (some v) c f h = h v

  total-handle :
      (j : ℕ) (m : Method) (method : Text) (value : Value) (c : Client Value Diagnostics)
      → total j (handle api m method value c) ≡ total j c
  unfolding handle
  total-handle j publish_diagnostics method value c =
      total-if_some j (api.get value (codes "params")) c _ (λ v. refl)
  total-handle j progress_report method value c =
      total-if_some j (api.get value (codes "params")) c _ (λ v. refl)
  total-handle j message method value c = refl
  total-handle j accepted method value c =
      total-if_some j (api.get value (codes "id")) c _ (λ v. refl)
  total-handle j other method value c = total-if_some j (api.get value (codes "id")) c _ (λ v. refl)

  total-respond_to :
      (j : ℕ) (o : Option ℕ) (value : Value) (c : Client Value Diagnostics)
      → total j (respond_to api o value c) ≡ total j c
  unfolding respond_to
  total-respond_to j none value c = refl
  total-respond_to j (some id) value c = total-respond j id (result_of api value) c

  total-dispatch_as :
      (j : ℕ) (o : Option Text) (value : Value) (c : Client Value Diagnostics)
      → total j (dispatch_as api o value c) ≡ total j c
  unfolding dispatch_as notify
  total-dispatch_as j (some method) value c = total-handle j (method_of method) method value c
  total-dispatch_as j none value c = total-respond_to j _ value c

  total-dispatch :
      (j : ℕ) (value : Value) (c : Client Value Diagnostics)
      → total j (dispatch api value c) ≡ total j c
  unfolding dispatch
  total-dispatch j value c = total-dispatch_as j _ value c

  total-dispatch_all :
      (j : ℕ) (values : List Value) (c : Client Value Diagnostics)
      → total j (dispatch_all api values c) ≡ total j c
  unfolding dispatch_all
  total-dispatch_all j [] c = refl
  total-dispatch_all j (value ∷ values) c =
      total-dispatch_all j values (dispatch api value c) ∙ total-dispatch j value c

  closed_ids :
      (ids : List ℕ) → map (λ (a : ℕ × Answer Value). a.0) (map (λ id. (id, server_gone)) ids) ≡ ids
  closed_ids [] = refl
  closed_ids (id ∷ ids) = ap (λ is. id ∷ is) (closed_ids ids)

  total-server_closed :
      (j : ℕ) (c : Client Value Diagnostics) → total j (server_closed api c) ≡ total j c
  unfolding server_closed count
  total-server_closed j c =
      let grown =
        ap (count (λ i. i == j)) (
          map-append (λ (a : ℕ × Answer Value). a.0) c.answered
            (map (λ id. (id, server_gone)) c.pending)
          ∙ ap (λ is. answered_ids c ++ is) (closed_ids c.pending))
        ∙ count-append (λ i. i == j) (answered_ids c) c.pending in
      omega (arith, grown)

  waiting_none :
      (j : ℕ) (c : Client Value Diagnostics)
      → count (λ i. i == j) (answered_ids (server_closed api c)) ≡ total j (server_closed api c)
  unfolding server_closed count
  waiting_none j c = omega arith

  -- When the server's output ends, no request waits and no work is in progress; each identifier was
  -- answered as often as it was answered before or waited when the loop began.
  pub reader_loop-answers :
      (values : List Value) (c : Client Value Diagnostics)
      → ((reader_loop api values c).pending ≡ [])
        × ((reader_loop api values c).progress.active ≡ [])
        × ((j : ℕ)
            → count (λ i. i == j) (answered_ids (reader_loop api values c))
              ≡ count (λ i. i == j) c.pending + count (λ i. i == j) (answered_ids c))
  unfolding reader_loop
  reader_loop-answers values c =
      let closed = dispatch_all api values c in
      (
        unfold server_closed in refl,
        unfold server_closed in refl,
        λ j. waiting_none j closed ∙ total-server_closed j closed ∙ total-dispatch_all j values c,
      )
