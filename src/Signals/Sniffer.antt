-- ===== src/Signals/Sniffer.antt =====
-- `PureSniffer`: the rolling tail, the latches of a turn, and the window title.
use oxyris.Prelude.{
  ℕ, ◌-◌, Text, eq_opt_text, Bool, true, false, not, ◌&&◌, ◌||◌, leb, ltb, Option, none, some, List,
  [], ◌∷◌, ◌++◌, length, drop, lines, trim, is_empty, is_some, if◌then◌else◌,
}
use oxyris.Signals.Strip.{recent_window, classify_title}

abbrev pub tail_cap_chars : ℕ
tail_cap_chars = 2000

-- in nanoseconds
abbrev pub title_stale : ℕ
title_stale = 5000000000

-- The regular expressions, which the crate `regex` runs.
pub record Patterns : Type 0 where
  pub working : Text → Bool
  pub prompt : Text → Bool
  pub poll : Text → Bool
  pub turn_end : Text → Bool
  pub recap : Text → Bool
  pub api_error : Text → Bool
  pub interrupt : Text → Bool
  pub interrupted : Text → Bool
  pub background_running : Text → Bool
  -- what follows the last match of `waiting_agents_re`
  pub after_waiting : Text → Option Text
  -- the last match of `turn_end_re` with what follows it, and what follows it
  pub last_footer : Text → Option (Text × Text)

pub data PureSignal : Type 0 where
  needs_input turn_ended working : PureSignal

pub record PureSniffer : Type 0 where
  pub tail : Text
  pub prompt_open : Bool
  pub poll_open : Bool
  pub turn_end_seen : Bool
  pub recap_seen : Bool
  pub working_active : Bool
  pub waiting : Bool
  pub api_error_seen : Bool
  pub title : Option Text
  -- an `Instant`, in nanoseconds
  pub title_changed_at : Option ℕ
  pub blurred : Bool

abbrev pub new : PureSniffer
new = record {
  tail = [];
  prompt_open = false;
  poll_open = false;
  turn_end_seen = false;
  recap_seen = false;
  working_active = false;
  waiting = false;
  api_error_seen = false;
  title = none;
  title_changed_at = none;
  blurred = false;
}

-- The last characters of the tail.
unfoldable pub capped : Text → Text
capped s = let len = length s in if ltb tail_cap_chars len then drop (len - tail_cap_chars) s else s

abbrev when : Bool → PureSignal → List PureSignal
when true signal = signal ∷ []
when false signal = []

module _ (p : Patterns) where
  unfoldable pub ends_wait : Text → Bool
  ends_wait s = p.working s || p.interrupt s || p.turn_end s || p.prompt s || p.interrupted s

  abbrev still_waiting : Option Text → Bool → Text → Bool
  unfolding ends_wait
  still_waiting (some after) waiting stripped = not (ends_wait after)
  still_waiting none waiting stripped = waiting && not (ends_wait stripped)

  -- The sniffer after a chunk, and the signals that the chunk triggers.
  unfoldable pub feed_stripped : Text → PureSniffer → List PureSignal × PureSniffer
  unfolding capped recent_window still_waiting
  feed_stripped stripped s =
      let tail = capped (s.tail ++ stripped) in
      let working_now = p.working tail in
      let prompt_now = p.prompt (recent_window tail) in
      let poll_now = not s.poll_open && p.poll tail in
      let turn_end_now = not s.turn_end_seen && p.turn_end tail in
      let recap_now = not s.recap_seen && p.recap tail in
      (
        when (working_now && not s.working_active) working
            ++ (when (prompt_now && not s.prompt_open) needs_input
                ++ (when poll_now turn_ended
                    ++ (when turn_end_now turn_ended ++ when recap_now turn_ended))),
        record s {
          tail = tail;
          working_active = working_now;
          prompt_open = prompt_now;
          poll_open = s.poll_open || poll_now;
          turn_end_seen = s.turn_end_seen || turn_end_now;
          recap_seen = s.recap_seen || recap_now;
          api_error_seen = s.api_error_seen || (not s.api_error_seen && p.api_error tail);
          waiting = still_waiting (p.after_waiting tail) s.waiting stripped;
        },
      )

  unfoldable pub background_running : PureSniffer → Bool
  background_running s = elim (p.last_footer s.tail) [
    | none ↦ false
    | some (footer, after) ↦
        if p.working after || p.interrupt after then false else p.background_running footer
  ]

  -- The last line that is not blank.
  abbrev last_painted : List Text → Option Text
  last_painted [] = none
  last_painted (l ∷ ls) = elim (last_painted ls) [
    | some m ↦ some m
    | none ↦ if is_empty (trim l) then none else some l
  ]

  abbrev is_busy_line : Option Text → Bool
  is_busy_line none = false
  is_busy_line (some l) = p.working l || p.interrupt l

  unfoldable pub is_busy_now : PureSniffer → Bool
  unfolding lines trim
  is_busy_now s = is_busy_line (last_painted (lines s.tail))

-- `now` is `Instant::now()`.
unfoldable pub note_title : ℕ → Text → PureSniffer → PureSniffer
unfolding eq_opt_text
note_title now title s =
    if eq_opt_text s.title (some title)
    then s
    else record s { title = some title; title_changed_at = some now }

unfoldable pub note_focus : ℕ → Bool → PureSniffer → PureSniffer
note_focus now focused s = record s {
  blurred = not focused;
  title_changed_at = if focused && is_some s.title then some now else s.title_changed_at;
}

-- The fresh reading of a title that is busy, or not.
abbrev fresh : ℕ → Bool → Option ℕ → Bool → Option Bool
fresh now busy none blurred = if busy && not blurred then none else some busy
fresh now busy (some changed_at) blurred =
    if busy && not blurred && leb title_stale (now - changed_at) then none else some busy

abbrev read_title : ℕ → Option Bool → Option ℕ → Bool → Option Bool
read_title now none changed_at blurred = none
read_title now (some busy) changed_at blurred = fresh now busy changed_at blurred

abbrev classify : Option Text → Option Bool
unfolding classify_title
classify none = none
classify (some title) = classify_title title

unfoldable pub title_busy : ℕ → PureSniffer → Option Bool
unfolding classify
title_busy now s = read_title now (classify s.title) s.title_changed_at s.blurred

unfoldable pub reset : PureSniffer → PureSniffer
reset s = record s {
  tail = [];
  prompt_open = false;
  poll_open = false;
  turn_end_seen = false;
  recap_seen = false;
  working_active = false;
  waiting = false;
  api_error_seen = false;
}
