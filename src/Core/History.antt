-- ===== src/Core/History.antt =====
-- The event logs that commands can produce, and induction over them.
use oxyris.Prelude.{◌≡◌, refl, sym, subst, List, [], ◌∷◌, ◌++◌, ok}
use oxyris.Core.{Aggregate, apply_all, replay}

module _ {State Command Event Error : Type 0} (a : Aggregate State Command Event Error) where
  -- A log grows by what `decide` answers at the state that the log replays to.
  pub data History : List Event → Type 0 where
    start : History []
    accept :
        {events new : List Event} (cmd : Command)
        → History events
        → a.decide (replay a events) cmd ≡ ok new
        → History (events ++ new)

  pub apply_all-append :
      (state : State) (xs ys : List Event)
      → apply_all a state (xs ++ ys) ≡ apply_all a (apply_all a state xs) ys
  unfolding apply_all
  apply_all-append state [] ys = refl
  apply_all-append state (x ∷ xs) ys = apply_all-append (a.apply state x) xs ys

  pub replay-append : (xs ys : List Event) → replay a (xs ++ ys) ≡ apply_all a (replay a xs) ys
  unfolding replay
  replay-append xs ys = apply_all-append a.default xs ys

  -- What holds of the default state and is kept by every accepted command holds of every state
  -- that a log replays to.
  pub replay-invariant :
      (P : State → Type 0)
      → P a.default
      → ((state : State) (cmd : Command) (new : List Event)
          → P state
          → a.decide state cmd ≡ ok new
          → P (apply_all a state new))
      → {events : List Event} → History events
      → P (replay a events)
  replay-invariant P base step start = unfold replay apply_all in base
  replay-invariant P base step (accept {events} {new} cmd h e) =
      subst P (sym (replay-append events new))
        (step (replay a events) cmd new (replay-invariant P base step h) e)
