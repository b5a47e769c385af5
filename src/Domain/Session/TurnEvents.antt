-- ===== src/Domain/Session/TurnEvents.antt =====
-- What the events of a turn do, and how a settled turn meets the commands that name it.
use oxyris.Prelude.{
  ℕ, ◌≡◌, refl, sym, ◌∙◌, Text, false, Option, none, some, List, [], ◌∷◌, ◌++◌, append-nil,
  append_assoc, map, find, update_first, eq_text, eq_text→eq, eq_text_refl, map_option, ok, err,
  arith, if◌then◌else◌,
}
use oxyris.Prelude.F64.{F64}
use oxyris.Core.{apply_all}
use oxyris.Provider.{AssistantBlock}
use oxyris.Domain.Session.Data.{
  SessionData, SessionState, TurnEntry, TurnStatus, failed, interrupted, is_streaming,
  append_assistant_block, complete_turn, fail_turn, interrupt_turn, turn_assistant_block_appended,
  turn_not_streaming, turn_failed, turn_interrupted,
}
use oxyris.Domain.Session.Blocks.{merge_block, pieces, pieces-merge_block}
use oxyris.Domain.Session.{find_turn, update_turn, decide, apply, session}

abbrev pub state_of : SessionData → SessionState
state_of d = record { inner = some d }

-- An update of the turn `i` is seen at `i`, and at no other identifier.
pub find_turn-update_turn :
    (i j : Text) (f : TurnEntry → TurnEntry) (turns : List TurnEntry)
    → ((t : TurnEntry) → (f t).id ≡ t.id)
    → find_turn j (update_turn i f turns)
      ≡ (if eq_text i j then map_option f (find_turn j turns) else find_turn j turns)
unfolding find_turn update_turn find update_first
find_turn-update_turn i j f [] keeps = ground arith
find_turn-update_turn i j f (t ∷ turns) keeps = ground (
  arith,
  keeps t,
  find_turn-update_turn i j f turns keeps,
  eq_text→eq t.id i,
  eq_text→eq t.id j,
  eq_text→eq i j,
  eq_text_refl i,
  eq_text_refl t.id,
)

abbrev appended : Text → AssistantBlock → SessionData → SessionData
appended i b d = record d {
  turns = update_turn i (λ t. record t { blocks = merge_block t.blocks b }) d.turns;
}

-- A stream of blocks appended to a turn: the turn is still found, it shows the pieces that it
-- showed before and then those of the stream, in order, and nothing else of it changes.
pub pieces-stream :
    (d : SessionData) (i : Text) (t : TurnEntry) (bs : List AssistantBlock)
    → find_turn i d.turns ≡ some t
    → (d' : SessionData) × (blocks : List AssistantBlock) × ((apply_all session
          (state_of d)
          (map (turn_assistant_block_appended i) bs)).inner
        ≡ some d')
      × (find_turn i d'.turns ≡ some (record t { blocks = blocks }))
      × (pieces blocks ≡ pieces t.blocks ++ pieces bs)
unfolding apply_all apply
pieces-stream d i t [] found = (d, t.blocks, refl, found, sym (append-nil _))
pieces-stream d i t (b ∷ bs) found =
    let f = λ (u : TurnEntry). record u { blocks = merge_block u.blocks b } in
    let found' : find_turn i (appended i b d).turns ≡ some (f t) =
      find_turn-update_turn i i f d.turns (λ u. refl) ∙ ground (arith, eq_text_refl i, found) in
    let (d', blocks, e, at, shown) = pieces-stream (appended i b d) i (f t) bs found' in
    (
      d',
      blocks,
      e,
      at,
      shown ∙ rw (pieces-merge_block t.blocks b) (append_assoc (pieces t.blocks) _ _),
    )

-- The status of the turn `i`, if the session is there and has it.
abbrev status_inner : Text → Option SessionData → Option TurnStatus
status_inner i none = none
status_inner i (some d) = map_option (λ t. t.status) (find_turn i d.turns)

abbrev pub status_of : Text → SessionState → Option TurnStatus
status_of i state = status_inner i state.inner

module _ (d : SessionData) (i : Text) (t : TurnEntry) (found : find_turn i d.turns ≡ some t) where
  status-failed :
      (message : Text) (now : ℕ)
      → status_of i (apply_all session (state_of d) (turn_failed i message now ∷ [])) ≡ some failed
  unfolding apply_all apply
  status-failed message now =
      let f = λ (u : TurnEntry). record u {
        status = failed;
        completed_at = some now;
        error_message = some message;
      } in
      rw (find_turn-update_turn i i f d.turns (λ u. refl)) (ground (arith, eq_text_refl i, found))

  status-interrupted :
      (now : ℕ)
      → status_of i (apply_all session (state_of d) (turn_interrupted i now ∷ []))
        ≡ some interrupted
  unfolding apply_all apply
  status-interrupted now =
      let f = λ (u : TurnEntry). record u { status = interrupted; completed_at = some now } in
      rw (find_turn-update_turn i i f d.turns (λ u. refl)) (ground (arith, eq_text_refl i, found))

  -- A turn that has settled refuses another block, and takes a completion as done already; but a
  -- failure or an interruption is accepted, whatever the turn's status, and replaces that status.
  pub settled_turn :
      (b : AssistantBlock) (cost : Option F64) (input output : Option ℕ) (message : Text) (now : ℕ)
      → is_streaming t.status ≡ false
      → (decide (state_of d) (append_assistant_block i b) ≡ err (turn_not_streaming i))
        × (decide (state_of d) (complete_turn i cost input output now) ≡ ok [])
        × (decide (state_of d) (fail_turn i message now) ≡ ok (turn_failed i message now ∷ []))
        × (status_of i (apply_all session (state_of d) (turn_failed i message now ∷ []))
            ≡ some failed)
        × (decide (state_of d) (interrupt_turn i now) ≡ ok (turn_interrupted i now ∷ []))
        × (status_of i (apply_all session (state_of d) (turn_interrupted i now ∷ []))
            ≡ some interrupted)
  unfolding decide
  settled_turn b cost input output message now settled = (
    ground arith,
    ground arith,
    ground arith,
    status-failed message now,
    ground arith,
    status-interrupted now,
  )
