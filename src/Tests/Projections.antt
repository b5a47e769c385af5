-- ===== src/Tests/Projections.antt =====
-- The rows of the sessions at concrete inputs.
use oxyris.Prelude.{ℕ, ◌≡◌, refl, codes, Option, none, some, List, [], ◌∷◌, ok, find, last}
use oxyris.Core.{apply_all}
use oxyris.Provider.{auto, supervised}
use oxyris.Domain.Session.{
  SessionState, SessionData, SessionEvent, session_renamed, session_resumed, running, default_env,
  structured, session,
}
use oxyris.Domain.Session.TurnEvents.{state_of}
use oxyris.Store.{StoredEvent}
use oxyris.Service.{apply_stored}
use oxyris.Projections.{SessionRow, row_of_data, previous, project_session, apply_session_state}
use oxyris.Projections.Sessions.{apply_stored-eq-state}

-- The snapshot of a state stands for itself.
abbrev to_json : SessionState → SessionState
to_json state = state

abbrev from_json : SessionState → Option SessionState
from_json json = some json

abbrev from_value : SessionEvent → Option SessionEvent
from_value event = some event

abbrev row : ℕ → SessionEvent → StoredEvent SessionEvent
row version event = record {
  seq = some version;
  aggregate = codes "session";
  aggregate_id = 7;
  version = version;
  kind = codes "SessionEvent";
  payload = event;
  timestamp = version;
}

abbrev current : SessionData
current = record {
  id = 7;
  project_id = 2;
  worktree_id = none;
  provider_id = codes "claude";
  model = codes "opus";
  thinking = auto;
  runtime = supervised;
  status = running;
  turns = [];
  created_at = 5;
  provider_session_id = none;
  title = none;
  env_mode = default_env;
  kind = structured;
  pinned_at = none;
}

abbrev table : List (SessionRow SessionState)
table = row_of_data to_json from_json (state_of current) current 5 ∷ []

abbrev batch : List SessionEvent
batch = session_renamed (codes "Plan") ∷ session_resumed 9 ∷ []

abbrev stored : List (StoredEvent SessionEvent)
stored = row 2 (session_renamed (codes "Plan")) ∷ row 3 (session_resumed 9) ∷ []

apply_stored-eq-state_example :
    let folded = apply_all session (state_of current) batch in
    let (answer, rows') =
      apply_stored (project_session to_json from_json from_value) table stored in
    (answer ≡ ok tt)
    × (apply_session_state to_json from_json table folded 3 ≡ ok rows')
    × (previous to_json from_json rows' 7 ≡ folded)
unfolding previous row_of_data find last
apply_stored-eq-state_example =
    apply_stored-eq-state to_json from_json from_value table stored (row 3 (session_resumed 9))
      batch current (refl, (refl, tt)) refl (refl, refl, refl, (refl, refl, refl, tt)) refl
