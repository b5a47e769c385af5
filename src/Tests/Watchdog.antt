-- ===== src/Tests/Watchdog.antt =====
-- The watchdog at concrete inputs.
use oxyris.Prelude.{
  err, lacks, trim, filter, Result, ℕ, ◌+◌, zero, suc, ◌≡◌, ◌⊎◌, refl, arith, Text, codes, Bool,
  true, false, none, some, List, [], ◌∷◌, ◌++◌, length, map, ◌==◌, if◌then◌else◌, eq_text, find, ok,
}
use oxyris.Supervisor.Types.{Verdict, Decision, Mission, bare}
use oxyris.Supervisor.Controller.{new}
use oxyris.Supervisor.Guardrails.{first_match}
use oxyris.Watchdog.Supervisors.{parse_verdict}
use oxyris.Watchdog.Manager.{Terminal, engage}
use oxyris.Watchdog.Verdict.{parse_verdict-wrapped}
use oxyris.Watchdog.Menu.{dont_ask_again_steps}
use oxyris.Watchdog.Act.{World, Screens}
use oxyris.Watchdog.Loop.{observe, awaiting_start, Watch, Tick, fingerprint, round, rounds}
use oxyris.Watchdog.Guarded.{Guarded, round-denied, round-acted}
use oxyris.Watchdog.Stuck.{Idle, polls, returns_sent, rounds-stuck}

-- A matcher under which every pattern matches one dangerous command.
abbrev only_rm : Text → Text → Bool
only_rm pattern text = eq_text text (codes "rm -rf /")

abbrev lower : Text → Text
lower s = s

abbrev mission : Mission
mission = record { text = codes "ship it" }

abbrev screens : Screens
screens = record { menu = []; recent_output = []; decide = λ ctx ask. ok (bare Decision.approve) }

abbrev world : World
world = record { engaged = true; pilot = new none; written = []; emitted = [] }

abbrev tick : ℕ → Text → Tick
tick now tail = record {
  lock_free = true;
  user_disengages = false;
  lock_free_again = true;
  now = now;
  driven_at = now;
  busy = false;
  needs_input = true;
  tail = tail;
  screens = screens;
}

abbrev settled : Watch
settled = record { phase = observe; stable_fp = some 8; stable_since = 0; last_acted_fp = none }

round-denied_example :
    Guarded length lower only_rm mission
      (codes "/p")
      (tick 2000 (codes "rm -rf /"))
      settled
      world
      (round length lower only_rm mission
        (codes "/p")
        (tick 2000 (codes "rm -rf /"))
        settled
        world).1
unfolding first_match find eq_text
round-denied_example =
    round-denied length lower only_rm mission (codes "/p") (tick 2000 (codes "rm -rf /")) settled
      (codes "recursive force remove") world refl refl

abbrev submitted : Watch
submitted = record {
  phase = awaiting_start 0 0;
  stable_fp = some 4;
  stable_since = 0;
  last_acted_fp = some 4;
}

round-acted_example :
    let after =
      (round length lower only_rm mission
        (codes "/p")
        (tick 2000 (codes "Run?"))
        submitted
        world).1 in
    (after.pilot ≡ new none) × ((after.written ≡ []) ⊎ (after.written ≡ codes "\r" ∷ []))
unfolding fingerprint
round-acted_example =
    round-acted length lower only_rm mission (codes "/p") (tick 2000 (codes "Run?")) submitted world
      refl

-- A poll every 350 ms.
abbrev every_350 : ℕ → ℕ → List Tick
every_350 last zero = []
every_350 last (suc n) = tick (last + 350) (codes "Run?") ∷ every_350 (last + 350) n

every_350-Idle : (last n : ℕ) → Idle length 4 last (every_350 last n)
unfolding Idle fingerprint
every_350-Idle last zero = tt
every_350-Idle last (suc n) =
    (refl, refl, refl, refl, refl, omega arith, every_350-Idle (last + 350) n)

rounds-stuck_example :
    let end = rounds length lower only_rm mission (codes "/p") (every_350 0 16) submitted world in
    (end.0 ≡ none) × (end.1.engaged ≡ false) × (end.1.written ≡ [] ++ returns_sent 3)
rounds-stuck_example =
    rounds-stuck length lower only_rm mission (codes "/p") (every_350 0 16) 4 0 3 0 submitted world
      (omega arith) refl refl refl (every_350-Idle 0 16) (unfold polls in omega arith)

second_item :
    dont_ask_again_steps lower
      (codes "do you want to run?\n> 1. Yes\n  2. Yes, and don't ask again")
    ≡ some 1
unfolding dont_ask_again_steps
second_item = refl

-- The sign of the unit kelvin is three bytes, and one in lower case.
abbrev lower_kelvin : Text → Text
lower_kelvin s = map (λ c. if c == 0x212a then b'k' else c) s

cut_in_a_character : dont_ask_again_steps lower_kelvin (0x212a ∷ codes "do you want to run?") ≡ none
unfolding dont_ask_again_steps
cut_in_a_character = refl

-- A reader that takes every text for an approval.
abbrev agreeing : Text → Result Text Verdict
agreeing json = ok (bare Decision.approve)

parse_verdict-wrapped_example :
    parse_verdict agreeing (codes "Sure: " ++ b'{' ∷ (codes "{}" ++ b'}' ∷ codes " done"))
    ≡ ok (bare Decision.approve)
unfolding lacks
parse_verdict-wrapped_example =
    parse_verdict-wrapped agreeing (codes "Sure: ") (codes "{}") (codes " done")
      (bare Decision.approve) refl refl refl

abbrev terminals : List Terminal
terminals =
    record { id = codes "t1"; cwd = codes "/p"; is_claude = false }
    ∷ record { id = codes "t2"; cwd = codes "/p"; is_claude = true }
    ∷ []

second_terminal :
    elim (engage terminals 7 (codes "ship it") none []) [
      | ok engaged ↦ map (λ s. s.term_id) engaged
      | err e ↦ e ∷ []
    ]
    ≡ codes "t2" ∷ []
unfolding engage find trim filter
second_terminal = refl

no_mission : engage terminals 7 (codes "  ") none [] ≡ err (codes "mission is empty")
unfolding engage trim
no_mission = refl
