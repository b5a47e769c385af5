-- ===== src/Signals/Latches.antt =====
-- What the latches of a turn let through, and how a title that does not change ages.
use oxyris.Prelude.{
  ℕ, zero, suc, ◌+◌, ◌-◌, ◌≤◌, Text, Bool, true, false, not, ◌&&◌, leb, none, some, List, [], ◌∷◌,
  ◌++◌, ◌≡◌, refl, ap, ◌∙◌, arith, eq_opt_text, eq_opt_text_refl, foldl, length, drop, count,
  count-append, if◌then◌else◌,
}
use oxyris.Signals.Strip.{classify_title}
use oxyris.Signals.Sniffer.{
  tail_cap_chars, title_stale, Patterns, PureSignal, needs_input, turn_ended, working, PureSniffer,
  capped, feed_stripped, note_title, title_busy,
}

abbrev pub is_turn_end : PureSignal → Bool
is_turn_end turn_ended = true
is_turn_end needs_input = false
is_turn_end working = false

-- The latches that are closed: each let its signal through in this turn.
abbrev pub latched : PureSniffer → ℕ
latched s =
    (if s.poll_open then 1 else 0)
    + (if s.turn_end_seen then 1 else 0)
    + (if s.recap_seen then 1 else 0)

length-drop : (n : ℕ) (s : Text) → length (drop n s) ≡ length s - n
unfolding drop
length-drop zero s = omega arith
length-drop (suc n) [] = omega arith
length-drop (suc n) (c ∷ s) = omega (arith, length-drop n s)

length-capped : (s : Text) → length (capped s) ≤ tail_cap_chars
unfolding capped
length-capped s = ground (arith, length-drop (length s - tail_cap_chars) s)

-- The chunks of one turn: the signals that they trigger, and the sniffer after them.
unfoldable pub feed_all : Patterns → List Text → PureSniffer → List PureSignal × PureSniffer
unfolding feed_stripped
feed_all p [] s = ([], s)
feed_all p (chunk ∷ chunks) s =
    let after = feed_stripped p chunk s in
    let rest = feed_all p chunks after.1 in (after.0 ++ rest.0, rest.1)

feed_stripped-latched :
    (p : Patterns) (chunk : Text) (s : PureSniffer)
    → count is_turn_end (feed_stripped p chunk s).0 + latched s
      ≡ latched (feed_stripped p chunk s).1
unfolding feed_stripped count
feed_stripped-latched p chunk s = ground arith

feed_all-latched :
    (p : Patterns) (chunks : List Text) (s : PureSniffer)
    → count is_turn_end (feed_all p chunks s).0 + latched s ≡ latched (feed_all p chunks s).1
unfolding feed_all
feed_all-latched p [] s = unfold count in omega arith
feed_all-latched p (chunk ∷ chunks) s =
    let after = feed_stripped p chunk s in
    omega (
      arith,
      count-append is_turn_end after.0 (feed_all p chunks after.1).0,
      feed_stripped-latched p chunk s,
      feed_all-latched p chunks after.1,
    )

latched-bounds : (s : PureSniffer) → latched s ≤ 3
latched-bounds s = ground arith

length-feed_all :
    (p : Patterns) (chunks : List Text) (s : PureSniffer)
    → length s.tail ≤ tail_cap_chars
    → length (feed_all p chunks s).1.tail ≤ tail_cap_chars
unfolding feed_all feed_stripped
length-feed_all p [] s h = h
length-feed_all p (chunk ∷ chunks) s h =
    length-feed_all p chunks (feed_stripped p chunk s).1 (length-capped (s.tail ++ chunk))

-- However often a screen is painted again, the chunks of a turn report its end as often as latches
-- close, which is at most three times, and the tail keeps to 2000 characters if it did before.
pub feed_all-turn_ends :
    (p : Patterns) (chunks : List Text) (s : PureSniffer)
    → length s.tail ≤ tail_cap_chars
    → (count is_turn_end (feed_all p chunks s).0 + latched s ≡ latched (feed_all p chunks s).1)
      × (count is_turn_end (feed_all p chunks s).0 ≤ 3)
      × (length (feed_all p chunks s).1.tail ≤ tail_cap_chars)
feed_all-turn_ends p chunks s h =
    let counted = feed_all-latched p chunks s in
    (
      counted,
      omega (arith, counted, latched-bounds (feed_all p chunks s).1),
      length-feed_all p chunks s h,
    )

-- The title is noted at each of the times.
unfoldable pub note_all : Text → List ℕ → PureSniffer → PureSniffer
unfolding note_title
note_all title times s = foldl (λ s now. note_title now title s) s times

note_title-again :
    (title : Text) (now : ℕ) (s : PureSniffer) → s.title ≡ some title → note_title now title s ≡ s
unfolding note_title eq_opt_text
note_title-again title now s h = rw (note_title, h, eq_opt_text_refl (some title)) refl

note_all-again :
    (title : Text) (times : List ℕ) (s : PureSniffer)
    → s.title ≡ some title
    → note_all title times s ≡ s
unfolding note_all
note_all-again title [] s h = refl
note_all-again title (now ∷ times) s h =
    ap (note_all title times) (note_title-again title now s h) ∙ note_all-again title times s h

note_title-changed :
    (title : Text) (began : ℕ) (s : PureSniffer)
    → eq_opt_text s.title (some title) ≡ false
    → note_title began title s ≡ record s { title = some title; title_changed_at = some began }
unfolding note_title
note_title-changed title began s changed = rw (note_title, changed) refl

-- A busy title that was set at `began` and is only repeated: on a terminal with the focus it is
-- busy for five seconds and then unknown; on one without, it stays busy.
pub title_busy-frozen :
    (title : Text) (began now : ℕ) (times : List ℕ) (s : PureSniffer)
    → classify_title title ≡ some true
    → eq_opt_text s.title (some title) ≡ false
    → title_busy now (note_all title times (note_title began title s))
      ≡ (if not s.blurred && leb title_stale (now - began) then none else some true)
unfolding title_busy
title_busy-frozen title began now times s busy changed =
    let noted = note_title-changed title began s changed in
    ap (title_busy now) (ap (note_all title times) noted ∙ note_all-again title times _ refl)
    ∙ rw (title_busy, busy) ground arith
