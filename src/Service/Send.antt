-- ===== src/Service/Send.antt =====
-- `send_user_message` of apps/desktop/src/infra/session_supervisor.rs: the events of a message, with
-- the automatic title.
use oxyris.Prelude.{
  starts_clean, starts_clean-trim_start, starts_clean-trim_end, trim_start-starts_clean,
  result_cases, option_cases, take, lines, ℕ, zero, suc, ◌≤◌, ◌≡◌, refl, ap, ◌∙◌, Text, Bool, true,
  false, not, ◌&&◌, ltb, Option, none, some, List, [], ◌∷◌, ◌++◌, find, is_empty, is_none, length,
  trim_start, trim_end, trim, trim_end_idem, Result, ok, err, if◌then◌else◌, arith, Bool-cases, inl,
  inr, eq_opt_text, append_assoc,
}
use oxyris.Core.{DateTime, replay, apply_all}
use oxyris.Core.History.{History, accept, replay-append}
use oxyris.Domain.Session.{
  SessionState, SessionEvent, SessionError, start_turn, turn_started, rename, session_renamed,
  decide, apply, session,
}

-- `MIN_USEFUL_CHARS`
abbrev min_useful_chars : ℕ
min_useful_chars = 15

-- What follows the `?` of `derive_auto_title`.
cut_line : Option Text → Option Text
unfolding take trim
cut_line none = none
cut_line (some line) =
    let first = trim line in
    if ltb (length first) min_useful_chars then none else some (trim_end (take 60 first))

unfoldable pub derive_auto_title : Text → Option Text
unfolding cut_line lines trim
derive_auto_title text = cut_line (find (λ l. not (is_empty (trim l))) (lines (trim text)))

needs_auto_title : SessionState → Bool
needs_auto_title state = elim state.inner [
  | none ↦ false
  | some d ↦ is_none d.title && is_empty d.turns
]

-- The events that `send_user_message` stores.
unfoldable pub message_events :
    SessionState → Text → Text → DateTime → Result SessionError (List SessionEvent)
unfolding needs_auto_title
message_events state turn_id text now = elim (decide state (start_turn turn_id text now)) [
  | err e ↦ err e
  | ok events ↦
      if needs_auto_title state
      then elim (derive_auto_title text) [
        | none ↦ ok events
        | some title ↦ ok (events ++ session_renamed title ∷ [])
      ]
      else ok events
]

trim_end-filled :
    (s : Text) → starts_clean s ≡ true → is_empty s ≡ false → is_empty (trim_end s) ≡ false
unfolding trim_end
trim_end-filled [] h f = cc
trim_end-filled (c ∷ s) h f = ground arith

starts_clean-trim : (s : Text) → starts_clean (trim s) ≡ true
unfolding trim
starts_clean-trim s = starts_clean-trim_end (trim_start s) (starts_clean-trim_start s)

starts_clean-take : (n : ℕ) (s : Text) → starts_clean s ≡ true → starts_clean (take n s) ≡ true
unfolding take
starts_clean-take zero s h = refl
starts_clean-take (suc n) [] h = refl
starts_clean-take (suc n) (c ∷ s) h = h

take-filled : (n : ℕ) (s : Text) → 1 ≤ length s → is_empty (take (suc n) s) ≡ false
unfolding take
take-filled n [] h = absurd (omega (arith, h))
take-filled n (c ∷ s) h = refl

length-take : (n : ℕ) (s : Text) → length (take n s) ≤ n
unfolding take
length-take zero s = omega arith
length-take (suc n) [] = omega arith
length-take (suc n) (c ∷ s) = omega (arith, length-take n s)

length-trim_end : (s : Text) → length (trim_end s) ≤ length s
unfolding trim_end
length-trim_end [] = omega arith
length-trim_end (c ∷ s) = ground (arith, length-trim_end s)

cut_title :
    (line : Text)
    → ltb (length (trim line)) min_useful_chars ≡ false
    → let title = trim_end (take 60 (trim line)) in
      (trim title ≡ title) × (is_empty title ≡ false) × (length title ≤ 60)
cut_title line long =
    let cut = take 60 (trim line) in
    let clean = starts_clean-take 60 (trim line) (starts_clean-trim line) in
    (
      unfold trim in
          ap trim_end (trim_start-starts_clean (trim_end cut) (starts_clean-trim_end cut clean))
          ∙ trim_end_idem cut,
      trim_end-filled cut clean (take-filled 59 (trim line) (ground arith)),
      omega (arith, length-trim_end cut, length-take 60 (trim line)),
    )

cut_line-IsClean :
    (line : Option Text) (title : Text)
    → cut_line line ≡ some title
    → (trim title ≡ title) × (is_empty title ≡ false) × (length title ≤ 60)
unfolding cut_line
cut_line-IsClean none title h = cc
cut_line-IsClean (some line) title h =
    elim (Bool-cases (ltb (length (trim line)) min_useful_chars)) [
      | inl short ↦ absurd (ground (arith, short, h))
      | inr long ↦
          let same : trim_end (take 60 (trim line)) ≡ title = ground (arith, long, h) in
          rw (← same) (cut_title line long)
    ]

-- An automatic title is trimmed, has at least one character and at most 60.
pub derive_auto_title-IsClean :
    (text title : Text)
    → derive_auto_title text ≡ some title
    → (trim title ≡ title) × (is_empty title ≡ false) × (length title ≤ 60)
unfolding derive_auto_title
derive_auto_title-IsClean text title h =
    cut_line-IsClean (find (λ l. not (is_empty (trim l))) (lines (trim text))) title h

decide-rename :
    (events : List SessionEvent) (turn_id text title : Text) (now : DateTime)
    → decide (replay session events) (start_turn turn_id text now)
      ≡ ok (turn_started turn_id text now ∷ [])
    → needs_auto_title (replay session events) ≡ true
    → trim title ≡ title
    → is_empty title ≡ false
    → decide (replay session (events ++ turn_started turn_id text now ∷ [])) (rename title)
      ≡ ok (session_renamed title ∷ [])
unfolding decide apply apply_all needs_auto_title eq_opt_text
decide-rename events turn_id text title now d n t f =
    rw (replay-append session events (turn_started turn_id text now ∷ []))
      (ground (arith, d, n, t, f))

decide-start_turn :
    (state : SessionState) (turn_id text : Text) (now : DateTime) (new : List SessionEvent)
    → decide state (start_turn turn_id text now) ≡ ok new
    → new ≡ turn_started turn_id text now ∷ []
unfolding decide
decide-start_turn state turn_id text now new h = ground (arith, h)

titled :
    (events : List SessionEvent) (turn_id text title : Text) (now : DateTime)
    → History session events
    → decide (replay session events) (start_turn turn_id text now)
      ≡ ok (turn_started turn_id text now ∷ [])
    → needs_auto_title (replay session events) ≡ true
    → derive_auto_title text ≡ some title
    → History session (events ++ turn_started turn_id text now ∷ session_renamed title ∷ [])
titled events turn_id text title now h d n t =
    let (trimmed, filled, short) = derive_auto_title-IsClean text title t in
    let begun = accept (start_turn turn_id text now) h d in
    let renamed = decide-rename events turn_id text title now d n trimmed filled in
    rw (← append_assoc events (turn_started turn_id text now ∷ []) (session_renamed title ∷ []))
      (accept (rename title) begun renamed)

-- The events that a message stores, with its automatic title, are ones that accepted commands
-- produce: a turn that starts, and then a title that the session would accept from the user.
pub message_events-History :
    (events : List SessionEvent) (turn_id text : Text) (now : DateTime) (new : List SessionEvent)
    → History session events
    → message_events (replay session events) turn_id text now ≡ ok new
    → History session (events ++ new)
unfolding message_events
message_events-History events turn_id text now new h e =
    elim (result_cases (decide (replay session events) (start_turn turn_id text now))) [
      | inr (x, d) ↦ absurd (ground (arith, d, e))
      | inl (es, d) ↦
          let d' = d ∙ ap ok (decide-start_turn (replay session events) turn_id text now es d) in
          elim (Bool-cases (needs_auto_title (replay session events))) [
            | inr n ↦
                let same : turn_started turn_id text now ∷ [] ≡ new = ground (arith, d', n, e) in
                rw (← same) (accept (start_turn turn_id text now) h d')
            | inl n ↦ elim (option_cases (derive_auto_title text)) [
              | inl t ↦
                  let same : turn_started turn_id text now ∷ [] ≡ new =
                    ground (arith, d', n, t, e) in
                  rw (← same) (accept (start_turn turn_id text now) h d')
              | inr (title, t) ↦
                  let same : turn_started turn_id text now ∷ session_renamed title ∷ [] ≡ new =
                    ground (arith, d', n, t, e) in
                  rw (← same) (titled events turn_id text title now h d' n t)
            ]
          ]
    ]
