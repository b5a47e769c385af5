-- ===== src/Signals/Strip.antt =====
-- The text functions of the detection: escapes, titles, focus reports and the recent window.
use oxyris.Prelude.{
  ℕ, zero, suc, ◌+◌, ◌-◌, ◌*◌, ◌^◌, Text, codes, Bool, true, false, not, ◌&&◌, ◌||◌, leb, ltb, ◌==◌,
  Option, none, some, [], ◌∷◌, ◌++◌, length, drop, starts_with, trim_start, is_whitespace, any,
  if◌then◌else◌,
}

abbrev pub recent_prompt_chars : ℕ
recent_prompt_chars = 1000

-- `recent_window`, in characters
unfoldable pub recent_window : Text → Text
recent_window s =
    let len = length s in
    if leb len recent_prompt_chars then s else drop (len - recent_prompt_chars) s

abbrev pub max_cuf_spaces : ℕ
max_cuf_spaces = 512

abbrev pub escape : ℕ
escape = 0x1b

abbrev pub bell : ℕ
bell = 7

-- Where the scan of `strip_ansi` stands: in the text, after an escape, in a CSI with its first two
-- parameters, or in an OSC.
pub data Mode : Type 0 where
  plain escaped osc : Mode
  csi : ℕ → Option ℕ → Option ℕ → Mode

unfoldable pub repeat_n : ℕ → ℕ → Text
repeat_n c zero = []
repeat_n c (suc n) = c ∷ repeat_n c n

abbrev clamp : ℕ → ℕ → ℕ → ℕ
clamp n low high = if ltb n low then low else if ltb high n then high else n

abbrev unwrap_or : Option ℕ → ℕ → ℕ
unwrap_or none d = d
unwrap_or (some n) d = n

unfoldable pub param : Option ℕ → ℕ
param p = clamp (unwrap_or p 1) 1 max_cuf_spaces

-- A `usize` keeps to its largest value.
abbrev saturate : ℕ → ℕ
saturate n = if ltb n (2 ^ 64) then n else 2 ^ 64 - 1

abbrev grow : Option ℕ → ℕ → Option ℕ
grow p digit = some (saturate (saturate (unwrap_or p 0 * 10) + digit))

abbrev is_digit : ℕ → Bool
is_digit c = leb b'0' c && leb c b'9'

-- The parameter bytes of a CSI.
unfoldable pub csi_param : ℕ → ℕ → Option ℕ → Option ℕ → Mode
csi_param f idx p q =
    if f == b';'
    then csi (idx + 1) p q
    else if is_digit f && idx == 0
    then csi idx (grow p (f - b'0')) q
    else if is_digit f && idx == 1
    then csi idx p (grow q (f - b'0'))
    else csi idx p q

-- What the final byte of a CSI leaves in the text.
unfoldable pub csi_final : ℕ → Option ℕ → Option ℕ → Text
unfolding param repeat_n
csi_final fin p q =
    if fin == b'C'
    then repeat_n b' ' (param p)
    else if fin == b'H' || fin == b'f'
    then b'\n' ∷ repeat_n b' ' (param q - 1)
    else if fin == b'A' || fin == b'B' || fin == b'E' || fin == b'F' || fin == b'd'
    then b'\n' ∷ []
    else if fin == b'G' || fin == b'`'
    then b' ' ∷ []
    else []

-- One character: what it leaves in the text, and where the scan stands after it.
unfoldable pub strip_step : Mode → ℕ → Text × Mode
unfolding csi_param csi_final
strip_step plain c = if c == escape then ([], escaped) else (c ∷ [], plain)
strip_step escaped c =
    if c == b'[' then ([], csi 0 none none) else if c == b']' then ([], osc) else ([], plain)
strip_step (csi idx p q) f =
    if leb 0x40 f && leb f 0x7e then (csi_final f p q, plain) else ([], csi_param f idx p q)
strip_step osc c =
    if c == bell then ([], plain) else if c == escape then ([], escaped) else ([], osc)

unfoldable pub strip_from : Mode → Text → Text
unfolding strip_step
strip_from mode [] = []
strip_from mode (c ∷ s) = (strip_step mode c).0 ++ strip_from (strip_step mode c).1 s

unfoldable pub strip_ansi : Text → Text
unfolding strip_from
strip_ansi s = strip_from plain s

-- What follows the last occurrence of `p`, as `rfind` and a slice.
unfoldable pub after_last : Text → Text → Option Text
after_last p [] = none
after_last p (c ∷ s) = elim (after_last p s) [
  | some rest ↦ some rest
  | none ↦ if starts_with (c ∷ s) p then some (drop (length p) (c ∷ s)) else none
]

-- The text before the first of two characters, as `find` and a slice.
unfoldable pub before_either : ℕ → ℕ → Text → Option Text
before_either d e [] = none
before_either d e (c ∷ s) =
    let rest = before_either d e s in
    if c == d || c == e then some [] else elim rest [ none ↦ none | some t ↦ some (c ∷ t) ]

abbrev or_else : Option Text → Option Text → Option Text
or_else none o = o
or_else (some t) o = some t

abbrev osc_end : Option Text → Option Text
unfolding before_either
osc_end none = none
osc_end (some rest) = before_either bell escape rest

unfoldable pub osc_title : Text → Option Text
unfolding after_last osc_end
osc_title raw =
    osc_end
      (or_else (after_last (escape ∷ codes "]0;") raw) (after_last (escape ∷ codes "]2;") raw))

abbrev classify_glyph : Text → Option Bool
classify_glyph [] = none
classify_glyph (c ∷ s) =
    if leb 0x25d0 c && leb c 0x25d3 then some true else if c == 0x2733 then some false else none

unfoldable pub classify_title : Text → Option Bool
unfolding trim_start is_whitespace
classify_title title = classify_glyph (trim_start title)

-- The later of two occurrences leaves the shorter rest.
abbrev later : Option Text → Option Text → Option Bool
later none none = none
later (some i) none = some true
later none (some o) = some false
later (some i) (some o) = some (ltb (length i) (length o))

unfoldable pub focus_event : Text → Option Bool
unfolding after_last
focus_event input =
    later (after_last (escape ∷ codes "[I") input) (after_last (escape ∷ codes "[O") input)

-- `char::is_control`: the general category Cc.
abbrev is_control : ℕ → Bool
is_control c = ltb c 0x20 || (leb 0x7f c && ltb c 0xa0)

unfoldable pub has_content_stripped : Text → Bool
unfolding is_whitespace any
has_content_stripped stripped = any (λ c. not (is_whitespace c) && not (is_control c)) stripped
