-- ===== src/Watchdog/Verdict.antt =====
-- A verdict in the middle of prose or a code fence.
use oxyris.Prelude.{◌≡◌, refl, arith, Text, true, lacks, none, some, [], ◌∷◌, ◌++◌, Result, ok}
use oxyris.Supervisor.Types.{Verdict}
use oxyris.Watchdog.Supervisors.{from_first, up_to_last, parse_verdict}

from_first-append :
    (before s : Text) → lacks b'{' before ≡ true → from_first (before ++ b'{' ∷ s) ≡ some (b'{' ∷ s)
unfolding from_first lacks
from_first-append [] s h = refl
from_first-append (c ∷ before) s h = ground (arith, from_first-append before s)

up_to_last-lacks : (s : Text) → lacks b'}' s ≡ true → up_to_last s ≡ none
unfolding up_to_last lacks
up_to_last-lacks [] h = refl
up_to_last-lacks (c ∷ s) h = ground (arith, up_to_last-lacks s)

up_to_last-append :
    (s after : Text)
    → lacks b'}' after ≡ true
    → up_to_last (s ++ b'}' ∷ after) ≡ some (s ++ b'}' ∷ [])
unfolding up_to_last
up_to_last-append [] after h = rw (up_to_last-lacks after h) refl
up_to_last-append (c ∷ s) after h = rw (up_to_last-append s after h) refl

-- A verdict is read from an answer with any text in front of it that has no opening brace, and any
-- text behind it that has no closing one, whatever braces stand inside it.
pub parse_verdict-wrapped :
    (from_str : Text → Result Text Verdict) (before inside after : Text) (verdict : Verdict)
    → lacks b'{' before ≡ true
    → lacks b'}' after ≡ true
    → from_str (b'{' ∷ (inside ++ b'}' ∷ [])) ≡ ok verdict
    → parse_verdict from_str (before ++ b'{' ∷ (inside ++ b'}' ∷ after)) ≡ ok verdict
unfolding parse_verdict
parse_verdict-wrapped from_str before inside after verdict h k found =
    rw
      (
        parse_verdict,
        from_first-append before (inside ++ b'}' ∷ after) h,
        up_to_last-append (b'{' ∷ inside) after k,
        found,
      )
      refl
