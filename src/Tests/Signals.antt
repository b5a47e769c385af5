-- ===== src/Tests/Signals.antt =====
-- Signals of a terminal at concrete inputs.
use oxyris.Prelude.{
  ◌+◌, ◌*◌, ◌≤◌, ◌≡◌, refl, arith, Text, codes, true, false, none, some, List, [], ◌∷◌, ◌++◌,
  length, lacks, count, contains, starts_with, drop,
}
use oxyris.Signals.Strip.{escape, max_cuf_spaces, strip_ansi, osc_title}
use oxyris.Signals.Sniffer.{Patterns, turn_ended, new, tail_cap_chars}
use oxyris.Signals.Clean.{strip_ansi-clean}
use oxyris.Signals.Latches.{is_turn_end, latched, feed_all, feed_all-turn_ends}

abbrev painted : Text
painted = codes "a" ++ escape ∷ codes "[3Cb" ++ escape ∷ codes "]0;title"

strip_ansi-clean_example :
    (lacks escape (strip_ansi painted) ≡ true)
    × (strip_ansi (strip_ansi painted) ≡ strip_ansi painted)
    × (length (strip_ansi painted) ≤ max_cuf_spaces * length painted)
strip_ansi-clean_example = strip_ansi-clean painted

stripped : strip_ansi painted ≡ codes "a   b"
unfolding strip_ansi
stripped = refl

-- A title of the second kind that was set last is not the one that is found.
first_kind_wins :
    osc_title (escape ∷ codes "]0;old" ++ (7 ∷ escape ∷ codes "]2;new" ++ 7 ∷ []))
    ≡ some (codes "old")
unfolding osc_title starts_with drop
first_kind_wins = refl

abbrev plain : Patterns
plain = record {
  working = λ s. false;
  prompt = λ s. false;
  poll = λ s. false;
  turn_end = λ s. contains s (codes "for 3m");
  recap = λ s. contains s (codes "recap");
  api_error = λ s. false;
  interrupt = λ s. false;
  interrupted = λ s. false;
  background_running = λ s. false;
  after_waiting = λ s. none;
  last_footer = λ s. none;
}

abbrev chunks : List Text
chunks = codes "Worked for 3m" ∷ codes "Worked for 3m" ∷ codes "recap" ∷ []

feed_all-turn_ends_example :
    (count is_turn_end (feed_all plain chunks new).0 + 0 ≡ latched (feed_all plain chunks new).1)
    × (count is_turn_end (feed_all plain chunks new).0 ≤ 3)
    × (length (feed_all plain chunks new).1.tail ≤ tail_cap_chars)
feed_all-turn_ends_example = feed_all-turn_ends plain chunks new (omega arith)

signals : (feed_all plain chunks new).0 ≡ turn_ended ∷ turn_ended ∷ []
unfolding feed_all contains
signals = refl

abbrev spinner : Text
spinner = 0x25d0 ∷ codes " work"
