-- ===== src/Watchdog/Loop.antt =====
-- `watchdog`: one round of its loop, and the rounds in order.
use oxyris.Prelude.{
  ℕ, ◌+◌, ◌-◌, Text, codes, Bool, true, false, not, ◌&&◌, leb, ltb, ◌==◌, Option, none, some, List,
  [], ◌∷◌, if◌then◌else◌,
}
use oxyris.Supervisor.Types.{Mission, PendingKind, permission, turn_ended}
use oxyris.Supervisor.LoopGuard.{collapse_ws}
use oxyris.Watchdog.Act.{error, World, emit, write, disengage, Screens, drive}

-- in milliseconds
abbrev pub respond_debounce_ms : ℕ
respond_debounce_ms = 1000

abbrev pub poll_ms : ℕ
poll_ms = 350

abbrev pub start_timeout_ms : ℕ
start_timeout_ms = 1300

abbrev pub max_submit_retries : ℕ
max_submit_retries = 3

-- `awaiting_start since retries`
pub data Phase : Type 0 where
  observe : Phase
  awaiting_start : ℕ → ℕ → Phase

pub record Watch : Type 0 where
  pub phase : Phase
  pub stable_fp : Option ℕ
  pub stable_since : ℕ
  pub last_acted_fp : Option ℕ

-- What one round meets: whether `try_lock` finds the lock free before and after the wait, whether
-- the session is disengaged during it, the time, the time after `drive`, the state of the turn, and
-- the screen.
pub record Tick : Type 0 where
  pub lock_free : Bool
  pub user_disengages : Bool
  pub lock_free_again : Bool
  pub now : ℕ
  pub driven_at : ℕ
  pub busy : Bool
  pub needs_input : Bool
  pub tail : Text
  pub screens : Screens

-- `o == Some(n)`
abbrev pub is : ℕ → Option ℕ → Bool
is n none = false
is n (some m) = m == n

-- A lock that is held reads as a session that is not engaged.
abbrev pub is_engaged : Bool → World → Bool
is_engaged lock_free w = lock_free && w.engaged

abbrev pub gave_up : Text
gave_up =
    codes "claude did not accept the submitted input after several attempts — handing back to you"

abbrev pub ask_of : Tick → PendingKind
ask_of t = if t.needs_input then permission none none none t.tail else turn_ended t.tail

-- What happens while the round waits.
unfoldable pub meanwhile : Tick → World → World
unfolding disengage
meanwhile t w = if t.user_disengages then disengage w else w

module _ (hasher : Text → ℕ) where
  unfoldable pub fingerprint : Text → ℕ
  unfolding collapse_ws
  fingerprint tail = hasher (collapse_ws tail)

  module _ (to_lowercase : Text → Text) (is_match : Text → Text → Bool) (mission : Mission)
      (cwd : Text) where
    -- The round goes on with a watch, or with none where `watchdog` returns or panics.
    unfoldable pub observe_round : Tick → ℕ → Watch → World → Option Watch × World
    unfolding drive
    observe_round t fp s w =
        if t.busy
        then (some (record s { stable_fp = none }), w)
        else if not (is fp s.stable_fp)
        then (some (record s { stable_fp = some fp; stable_since = t.now }), w)
        else if ltb (t.now - s.stable_since) respond_debounce_ms
        then (some s, w)
        else if is fp s.last_acted_fp
        then (some s, w)
        else let acted = record s { last_acted_fp = some fp } in
          let driven = drive to_lowercase is_match hasher mission cwd t.screens (ask_of t) w in
          (
            elim driven.0 [
              | none ↦ none
              | some true ↦ some (record acted { phase = awaiting_start t.driven_at 0 })
              | some false ↦ some acted
            ],
            driven.1,
          )

    unfoldable pub awaiting_round : Tick → ℕ → ℕ → ℕ → Watch → World → Option Watch × World
    unfolding emit write disengage
    awaiting_round t fp since retries s w =
        if t.busy
        then (some (record s { phase = observe; stable_fp = none }), w)
        else if not (is fp s.last_acted_fp)
        then (some (record s { phase = observe; stable_fp = none }), w)
        else if ltb (t.now - since) start_timeout_ms
        then (some s, w)
        else if leb max_submit_retries retries
        then (none, disengage (emit (error gave_up) w))
        else (some (record s { phase = awaiting_start t.now (retries + 1) }), write (codes "\r") w)

    unfoldable pub phase_round : Phase → Tick → Watch → World → Option Watch × World
    unfolding fingerprint observe_round awaiting_round
    phase_round observe t s w = observe_round t (fingerprint t.tail) s w
    phase_round (awaiting_start since retries) t s w =
        awaiting_round t (fingerprint t.tail) since retries s w

    unfoldable pub round : Tick → Watch → World → Option Watch × World
    unfolding meanwhile phase_round
    round t s w =
        if not (is_engaged t.lock_free w)
        then (none, w)
        else if not (is_engaged t.lock_free_again (meanwhile t w))
        then (none, meanwhile t w)
        else phase_round s.phase t s (meanwhile t w)

    unfoldable pub rounds : List Tick → Watch → World → Option Watch × World
    unfolding round
    rounds [] s w = (some s, w)
    rounds (t ∷ ts) s w = elim ((round t s w).0) [
      | none ↦ (none, (round t s w).1)
      | some s' ↦ rounds ts s' (round t s w).1
    ]

    -- `watchdog`, which starts at `now`.
    unfoldable pub watchdog : ℕ → List Tick → World → Option Watch × World
    unfolding rounds
    watchdog now ticks w =
        rounds ticks
          (record { phase = observe; stable_fp = none; stable_since = now; last_acted_fp = none }) w
