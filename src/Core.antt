-- ===== src/Core.antt =====
-- crates/oxyris-core: identifiers, environments, and the event-sourced aggregate.
pub mod History
use oxyris.Prelude.{ℕ, Text, Bool, true, false, List, [], ◌∷◌, Result}

-- A UUID, as the number of its 128 bits; the code only compares them.
abbrev pub AggregateId : Type 0
AggregateId = ℕ

-- An instant of `DateTime<Utc>`; the code only stores and orders them.
abbrev pub DateTime : Type 0
DateTime = ℕ

pub data Environment : Type 0 where
  local : Environment
  wsl : Text → Environment

unfoldable pub is_wsl : Environment → Bool
is_wsl local = false
is_wsl (wsl distro) = true

-- `trait Aggregate`: what an aggregate's marker type provides.
pub record Aggregate (State Command Event Error : Type 0) : Type 0 where
  pub default : State
  pub decide : State → Command → Result Error (List Event)
  pub apply : State → Event → State

module _ {State Command Event Error : Type 0} (a : Aggregate State Command Event Error) where
  -- The loop of `replay` from a given state, as the callers fold decided events.
  unfoldable pub apply_all : State → List Event → State
  apply_all state [] = state
  apply_all state (event ∷ events) = apply_all (a.apply state event) events

  unfoldable pub replay : List Event → State
  replay events = apply_all a.default events
