-- ===== src/Domain/Session/Turns.antt =====
-- The turns of a session: identifiers are unique, and each turn's status, completion time and
-- blocks agree.
use oxyris.Prelude.{
  ℕ, ◌≡◌, ◌≢◌, ◌⊎◌, inl, inr, refl, Text, true, false, Option, none, some, List, [], ◌∷◌, ◌++◌, map,
  map-append, is_none, is_some, any, any-append, find, update_first, All, All-append, trim, eq_text,
  eq_text→eq, eq_text_refl, arith, Bool-cases,
}
use oxyris.Domain.Session.Data.{
  TurnEntry, streaming, completed, failed, is_streaming, SessionData, running, stopped,
}
use oxyris.Domain.Session.Blocks.{IsCoalesced}
use oxyris.Domain.Session.{update_turn, find_turn, new_turn}

abbrev pub ids : List TurnEntry → List Text
ids turns = map (λ t. t.id) turns

-- No identifier stands in the list twice.
abbrev pub IsUnique : List Text → Type 0
IsUnique [] = Unit
IsUnique (i ∷ is) = (any (λ j. eq_text j i) is ≡ false) × IsUnique is

-- A turn streams exactly while it has no completion time; a failed one has its message, a
-- completed one has none; its text blocks are coalesced.
pub record IsValidTurn (t : TurnEntry) : Type 0 where
  pub timed : is_none t.completed_at ≡ is_streaming t.status
  pub explained : t.status ≡ failed → is_some t.error_message ≡ true
  pub clean : (t.status ≡ streaming) ⊎ (t.status ≡ completed) → t.error_message ≡ none
  pub coalesced : IsCoalesced t.blocks

eq_text_symm : (s t : Text) → eq_text s t ≡ false → eq_text t s ≡ false
eq_text_symm s t h = elim (Bool-cases (eq_text t s)) [
  | inl e ↦ absurd (ground (arith, eq_text→eq t s e, eq_text_refl s))
  | inr e ↦ e
]

pub IsUnique-append :
    (is : List Text) (i : Text)
    → IsUnique is
    → any (λ j. eq_text j i) is ≡ false
    → IsUnique (is ++ i ∷ [])
unfolding any
IsUnique-append [] i u h = (refl, tt)
IsUnique-append (j ∷ is) i u h =
    (rw any-append (ground (arith, eq_text_symm j i)), IsUnique-append is i u.1 (ground arith))

any-ids :
    (i : Text) (turns : List TurnEntry)
    → any (λ j. eq_text j i) (ids turns) ≡ any (λ t. eq_text t.id i) turns
unfolding any
any-ids i [] = refl
any-ids i (t ∷ turns) = ground (arith, any-ids i turns)

module _ (i : Text) (f : TurnEntry → TurnEntry) where
  ids-update_turn :
      (turns : List TurnEntry)
      → ((t : TurnEntry) → (f t).id ≡ t.id)
      → ids (update_turn i f turns) ≡ ids turns
  unfolding update_turn update_first
  ids-update_turn [] keeps = refl
  ids-update_turn (t ∷ turns) keeps = ground (arith, keeps t, ids-update_turn turns)

  All-update_turn :
      (P : TurnEntry → Type 0) (turns : List TurnEntry)
      → ((t : TurnEntry) → find_turn i turns ≡ some t → P t → P (f t))
      → All P turns
      → All P (update_turn i f turns)
  unfolding update_turn update_first find_turn find
  All-update_turn P [] keeps all = tt
  All-update_turn P (t ∷ turns) keeps all = elim (Bool-cases (eq_text t.id i)) [
    | inl h ↦ rw h (keeps t (rw h) all.0, all.1)
    | inr h ↦ rw h (all.0, All-update_turn P turns (λ u e. keeps u (rw h e)) all.1)
  ]

abbrev pub IsTitle : Option Text → Type 0
IsTitle none = Unit
IsTitle (some s) = (trim s ≡ s) × (s ≢ [])

pub record IsValidData (d : SessionData) : Type 0 where
  pub unique : IsUnique (ids d.turns)
  pub turns : All IsValidTurn d.turns
  pub title : IsTitle d.title
  pub status : (d.status ≡ running) ⊎ (d.status ≡ stopped)

abbrev pub IsValidInner : Option SessionData → Type 0
IsValidInner none = Unit
IsValidInner (some d) = IsValidData d

new_turn-IsValid : (turn_id user_text : Text) (at : ℕ) → IsValidTurn (new_turn turn_id user_text at)
new_turn-IsValid turn_id user_text at = ground arith

pub append-IsValid :
    (d : SessionData) (turn_id user_text : Text) (at : ℕ)
    → any (λ t. eq_text t.id turn_id) d.turns ≡ false
    → IsValidData d
    → IsValidData (record d { turns = d.turns ++ new_turn turn_id user_text at ∷ [] })
append-IsValid d turn_id user_text at fresh v = record {
  unique =
      rw map-append
        (IsUnique-append (ids d.turns) turn_id v.unique (rw (any-ids turn_id d.turns) fresh));
  turns = All-append IsValidTurn d.turns _ v.turns (new_turn-IsValid turn_id user_text at, tt);
  title = v.title;
  status = v.status;
}

pub update-IsValid :
    (d : SessionData) (turn_id : Text) (f : TurnEntry → TurnEntry)
    → ((t : TurnEntry) → (f t).id ≡ t.id)
    → ((t : TurnEntry) → find_turn turn_id d.turns ≡ some t → IsValidTurn t → IsValidTurn (f t))
    → IsValidData d
    → IsValidData (record d { turns = update_turn turn_id f d.turns })
update-IsValid d turn_id f keeps valid v = record {
  unique = rw (ids-update_turn turn_id f d.turns keeps) v.unique;
  turns = All-update_turn turn_id f IsValidTurn d.turns valid v.turns;
  title = v.title;
  status = v.status;
}
