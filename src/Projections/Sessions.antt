-- ===== src/Projections/Sessions.antt =====
-- The rows of the sessions against the states that the logs fold to.
use oxyris.Prelude.{
  ◌==◌, ◌≡◌, ◌≢◌, refl, subst, ap, ◌∙◌, Bool, true, false, Option, none, some, List, [], ◌∷◌, ◌++◌,
  filter, find, last, ok, ==→eq, arith, if◌then◌else◌,
}
use oxyris.Core.{AggregateId, DateTime, apply_all}
use oxyris.Domain.Session.{
  SessionState, SessionData, SessionEvent, session_env_mode_changed, session_stopped,
  session_errored, turn_started, turn_assistant_block_appended, turn_completed, turn_failed,
  turn_interrupted, provider_session_attached, session_resumed, session_renamed,
  session_pin_toggled, session_started, session_deleted, is_deletion, apply, session,
}
use oxyris.Store.{StoredEvent}
use oxyris.Service.{apply_stored}
use oxyris.Domain.Session.TurnEvents.{state_of}
use oxyris.Projections.{
  SessionRow, has_id, delete_row, replace_row, row_of_data, write_session_row, previous,
  apply_session_event, project_session, apply_session_state,
}

find-delete_row_self :
    {Json : Type 0} (id : AggregateId) (rows : List (SessionRow Json))
    → find (has_id id) (delete_row id rows) ≡ none
unfolding find delete_row filter
find-delete_row_self id [] = refl
find-delete_row_self id (r ∷ rows) = ground (arith, find-delete_row_self id rows)

find-delete_row_ne :
    {Json : Type 0} (id id' : AggregateId) (rows : List (SessionRow Json))
    → id ≢ id'
    → find (has_id id') (delete_row id rows) ≡ find (has_id id') rows
unfolding find delete_row filter
find-delete_row_ne id id' [] ne = refl
find-delete_row_ne id id' (r ∷ rows) ne = ground (arith, find-delete_row_ne id id' rows ne)

find-append :
    {Json : Type 0} (id : AggregateId) (rows : List (SessionRow Json)) (r : SessionRow Json)
    → find (has_id id) rows ≡ none
    → find (has_id id) (rows ++ r ∷ []) ≡ (if has_id id r then some r else none)
unfolding find
find-append id [] r h = refl
find-append id (x ∷ rows) r h = ground (arith, find-append id rows r)

find-append_ne :
    {Json : Type 0} (id : AggregateId) (rows : List (SessionRow Json)) (r : SessionRow Json)
    → has_id id r ≡ false
    → find (has_id id) (rows ++ r ∷ []) ≡ find (has_id id) rows
unfolding find
find-append_ne id [] r h = ground (arith, h)
find-append_ne id (x ∷ rows) r h = ground (arith, find-append_ne id rows r)

pub find-replace_row :
    {Json : Type 0} (r : SessionRow Json) (rows : List (SessionRow Json))
    → find (has_id r.id) (replace_row r rows) ≡ some r
unfolding replace_row
find-replace_row r rows =
    find-append r.id (delete_row r.id rows) r (find-delete_row_self r.id rows) ∙ ground arith

pub find-replace_row_ne :
    {Json : Type 0} (r : SessionRow Json) (id : AggregateId) (rows : List (SessionRow Json))
    → r.id ≢ id
    → find (has_id id) (replace_row r rows) ≡ find (has_id id) rows
unfolding replace_row
find-replace_row_ne r id rows ne =
    find-append_ne id (delete_row r.id rows) r (ground arith) ∙ find-delete_row_ne r.id id rows ne

delete_row-append :
    {Json : Type 0} (r : SessionRow Json) (rows : List (SessionRow Json))
    → delete_row r.id (rows ++ r ∷ []) ≡ delete_row r.id rows
unfolding delete_row filter
delete_row-append r [] = ground arith
delete_row-append r (x ∷ rows) = ground (arith, delete_row-append r rows)

delete_row_idem :
    {Json : Type 0} (id : AggregateId) (rows : List (SessionRow Json))
    → delete_row id (delete_row id rows) ≡ delete_row id rows
unfolding delete_row filter
delete_row_idem id [] = refl
delete_row_idem id (x ∷ rows) = ground (arith, delete_row_idem id rows)

-- Writing a session's row twice is writing it once.
replace_row-replace_row :
    {Json : Type 0} (r r' : SessionRow Json) (rows : List (SessionRow Json))
    → r'.id ≡ r.id
    → replace_row r' (replace_row r rows) ≡ replace_row r' rows
unfolding replace_row
replace_row-replace_row r r' rows same =
    ap (λ rs. rs ++ r' ∷ [])
      (rw same (delete_row-append r (delete_row r.id rows) ∙ delete_row_idem r.id rows))

-- The event leaves a session with this identifier one with this identifier.
abbrev pub keeps : AggregateId → SessionEvent → Bool
keeps id (session_deleted at) = false
keeps id
      (session_started id' project_id worktree_id provider_id model thinking runtime mode kind at) =
    id' == id
keeps id _ = true

apply-keeps :
    (d : SessionData) (e : SessionEvent)
    → keeps d.id e ≡ true
    → (d' : SessionData) × (apply (state_of d) e ≡ state_of d') × (d'.id ≡ d.id)
unfolding apply
apply-keeps d
      (session_started id project_id worktree_id provider_id model thinking runtime mode kind at)
      k =
    (_, refl, ==→eq _ _ k)
apply-keeps d (session_env_mode_changed mode) k = (_, refl, refl)
apply-keeps d (session_stopped at) k = (_, refl, refl)
apply-keeps d (session_errored at message) k = (_, refl, refl)
apply-keeps d (turn_started turn_id user_text at) k = (_, refl, refl)
apply-keeps d (turn_assistant_block_appended turn_id block) k = (_, refl, refl)
apply-keeps d (turn_completed turn_id cost input output at) k = (_, refl, refl)
apply-keeps d (turn_failed turn_id message at) k = (_, refl, refl)
apply-keeps d (turn_interrupted turn_id at) k = (_, refl, refl)
apply-keeps d (provider_session_attached provider_session_id) k = (_, refl, refl)
apply-keeps d (session_resumed at) k = (_, refl, refl)
apply-keeps d (session_renamed title) k = (_, refl, refl)
apply-keeps d (session_deleted at) k = cc
apply-keeps d (session_pin_toggled pinned_at) k = (_, refl, refl)

keeps-is_deletion :
    (id : AggregateId) (e : SessionEvent) → keeps id e ≡ true → is_deletion e ≡ false
keeps-is_deletion id (session_deleted at) k = cc
keeps-is_deletion id
      (session_started id1 project_id worktree_id provider_id model thinking runtime mode kind at)
      k =
    refl
keeps-is_deletion id (session_env_mode_changed mode) k = refl
keeps-is_deletion id (session_stopped at) k = refl
keeps-is_deletion id (session_errored at message) k = refl
keeps-is_deletion id (turn_started turn_id user_text at) k = refl
keeps-is_deletion id (turn_assistant_block_appended turn_id block) k = refl
keeps-is_deletion id (turn_completed turn_id cost input output at) k = refl
keeps-is_deletion id (turn_failed turn_id message at) k = refl
keeps-is_deletion id (turn_interrupted turn_id at) k = refl
keeps-is_deletion id (provider_session_attached provider_session_id) k = refl
keeps-is_deletion id (session_resumed at) k = refl
keeps-is_deletion id (session_renamed title) k = refl
keeps-is_deletion id (session_pin_toggled pinned_at) k = refl

module _ {Json : Type 0} (to_json : SessionState → Json)
    (from_json : Json → Option SessionState) where
  -- A session's state comes back from its JSON.
  abbrev pub Reads : SessionState → Type 0
  Reads state = from_json (to_json state) ≡ some state

  -- The states that the events lead to, one after the other, come back from their JSON.
  abbrev pub Survive : SessionState → List SessionEvent → Type 0
  Survive state [] = Unit
  Survive state (e ∷ es) = Reads (apply state e) × Survive (apply state e) es

  write-some :
      (rows : List (SessionRow Json)) (d : SessionData) (at : DateTime)
      → write_session_row to_json from_json rows (state_of d) at
        ≡ ok (replace_row (row_of_data to_json from_json (state_of d) d at) rows)
  unfolding write_session_row
  write-some rows d at = refl

  previous-replace_row :
      (rows : List (SessionRow Json)) (d : SessionData) (at : DateTime)
      → Reads (state_of d)
      → previous to_json from_json
          (replace_row (row_of_data to_json from_json (state_of d) d at) rows)
          d.id
        ≡ state_of d
  unfolding previous row_of_data
  previous-replace_row rows d at reads =
      ground (arith, find-replace_row (row_of_data to_json from_json (state_of d) d at) rows, reads)

  apply_session_event-keeps :
      {Payload : Type 0} (rows : List (SessionRow Json)) (r : StoredEvent Payload)
      (e : SessionEvent) (d d' : SessionData)
      → previous to_json from_json rows r.aggregate_id ≡ state_of d
      → keeps d.id e ≡ true
      → apply (state_of d) e ≡ state_of d'
      → apply_session_event to_json from_json rows r e
        ≡ ok (replace_row (row_of_data to_json from_json (state_of d') d' r.timestamp) rows)
  unfolding apply_session_event
  apply_session_event-keeps rows r e d d' p k a =
      rw (keeps-is_deletion d.id e k, p, a) (write-some rows d' r.timestamp)

  module _ {Payload : Type 0} (from_value : Payload → Option SessionEvent) where
    project_session-keeps :
        (rows : List (SessionRow Json)) (r : StoredEvent Payload) (e : SessionEvent)
        (d d' : SessionData)
        → from_value r.payload ≡ some e
        → previous to_json from_json rows r.aggregate_id ≡ state_of d
        → keeps d.id e ≡ true
        → apply (state_of d) e ≡ state_of d'
        → project_session to_json from_json from_value rows r
          ≡ (ok tt, replace_row (row_of_data to_json from_json (state_of d') d' r.timestamp) rows)
    unfolding project_session
    project_session-keeps rows r e d d' v p k a =
        rw (project_session, v, apply_session_event-keeps rows r e d d' p k a) refl

    -- The rows decode to the events, are of the session `id`, and keep its identifier.
    abbrev pub IsBatch : AggregateId → List (StoredEvent Payload) → List SessionEvent → Type 0
    IsBatch id [] [] = Unit
    IsBatch id (r ∷ rs) (e ∷ es) =
        (from_value r.payload ≡ some e)
        × (r.aggregate_id ≡ id)
        × (keeps id e ≡ true)
        × IsBatch id rs es
    IsBatch id _ _ = ⊥

    -- So the folded state of a batch that is not empty comes back.
    Survive-folded :
        (id : AggregateId) (stored : List (StoredEvent Payload)) (latest : StoredEvent Payload)
        (events : List SessionEvent) (state : SessionState)
        → Survive state events
        → IsBatch id stored events
        → last stored ≡ some latest
        → Reads (apply_all session state events)
    unfolding apply_all last
    Survive-folded id [] latest events state reads b l = cc
    Survive-folded id (r ∷ rs) latest [] state reads b l = absurd b
    Survive-folded id (r ∷ []) latest (e ∷ []) state reads b l = reads.0
    Survive-folded id (r ∷ []) latest (e ∷ e' ∷ es) state reads b l = absurd b.3
    Survive-folded id (r ∷ r' ∷ rs) latest (e ∷ es) state reads b l =
        Survive-folded id (r' ∷ rs) latest es (apply state e) reads.1 b.3 l

    apply_stored-batch :
        (rows : List (SessionRow Json)) (stored : List (StoredEvent Payload))
        (latest : StoredEvent Payload) (events : List SessionEvent) (d : SessionData)
        → Survive (state_of d) events
        → previous to_json from_json rows d.id ≡ state_of d
        → IsBatch d.id stored events
        → last stored ≡ some latest
        → (d' : SessionData) × (apply_all session (state_of d) events ≡ state_of d')
          × (apply_stored (project_session to_json from_json from_value) rows stored ≡ (
            ok tt,
            replace_row (row_of_data to_json from_json (state_of d') d' latest.timestamp) rows,
          ))
          × (d'.id ≡ d.id)
    unfolding apply_all apply_stored last row_of_data
    apply_stored-batch rows [] latest events d reads p b l = cc
    apply_stored-batch rows (r ∷ rs) latest [] d reads p b l = absurd b
    apply_stored-batch rows (r ∷ []) latest (e ∷ []) d reads p b l =
        let (d', a, same) = apply-keeps d e b.2 in
        let done = project_session-keeps rows r e d d' b.0 (rw b.1 p) b.2 a in
        (d', a, ground (arith, done, l), same)
    apply_stored-batch rows (r ∷ []) latest (e ∷ e' ∷ es) d reads p b l = absurd b.3
    apply_stored-batch rows (r ∷ r' ∷ rs) latest (e ∷ es) d reads p b l =
        let (d', a, same) = apply-keeps d e b.2 in
        let done = project_session-keeps rows r e d d' b.0 (rw b.1 p) b.2 a in
        let row = row_of_data to_json from_json (state_of d') d' r.timestamp in
        let (d2, a2, rest, same2) =
          apply_stored-batch (replace_row row rows) (r' ∷ rs) latest es d'
            (subst (λ state. Survive state es) a reads.1)
            (previous-replace_row rows d' r.timestamp (subst Reads a reads.0)) (rw same b.3) l in
        let once =
          replace_row-replace_row row
            (row_of_data to_json from_json (state_of d2) d2 latest.timestamp) rows same2 in
        (d2, rw a a2, ground (arith, done, rest, once), same2 ∙ same)

    -- A batch of a session that the table has in step, projected row by row, leaves the table that
    -- one write of the folded state with the last row's time leaves, and the row reads back as that
    -- state, where each state on the way comes back from its JSON: a cost that is not finite, or
    -- loses a bit in its decimal digits, does not.
    pub apply_stored-eq-state :
        (rows : List (SessionRow Json)) (stored : List (StoredEvent Payload))
        (latest : StoredEvent Payload) (events : List SessionEvent) (d : SessionData)
        → Survive (state_of d) events
        → previous to_json from_json rows d.id ≡ state_of d
        → IsBatch d.id stored events
        → last stored ≡ some latest
        → let folded = apply_all session (state_of d) events in
          let (answer, rows') =
            apply_stored (project_session to_json from_json from_value) rows stored in
          (answer ≡ ok tt)
          × (apply_session_state to_json from_json rows folded latest.timestamp ≡ ok rows')
          × (previous to_json from_json rows' d.id ≡ folded)
    unfolding apply_session_state
    apply_stored-eq-state rows stored latest events d reads p b l =
        let (d', a, looped, same) = apply_stored-batch rows stored latest events d reads p b l in
        rw (looped, a)
          (
            refl,
            write-some rows d' latest.timestamp,
            subst
                (λ id.
                  previous to_json from_json
                    (replace_row (row_of_data to_json from_json (state_of d') d' latest.timestamp)
                      rows)
                    id
                  ≡ state_of d')
                same
                (previous-replace_row rows d' latest.timestamp (
                  subst Reads a (Survive-folded d.id stored latest events (state_of d) reads b l))),
          )
