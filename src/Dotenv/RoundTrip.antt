-- ===== src/Dotenv/RoundTrip.antt =====
-- What `parse` reads, `render` writes so that `parse` reads it again.
use oxyris.Prelude.{
  ℕ, Text, Bool, true, false, not, ◌||◌, ◌==◌, none, some, List, [], ◌∷◌, ◌++◌, ◌≡◌, inl, inr, refl,
  ap, ◌∙◌, arith, Bool-cases, is_empty, is_whitespace, map, All, lines, lines-append, starts_with,
  strip_prefix, strip_prefix-append, strip_prefix-eq-none, split_once, split_once-append, lacks,
  lacks-append, trim, trim-trim, trim_start, trim_end, starts_clean, starts_clean-trim_start,
  trim_start-starts_clean, option_cases,
}
use oxyris.Dotenv.{
  DotenvLine, key_value, comment, blank, valid_key_start, starts_valid, export, parse_assignment,
  parse_line, parse, render_line, render,
}

lacks-trim_start : (d : ℕ) (s : Text) → lacks d s ≡ true → lacks d (trim_start s) ≡ true
unfolding lacks trim_start
lacks-trim_start d [] h = refl
lacks-trim_start d (c ∷ s) h = ground (arith, lacks-trim_start d s)

lacks-trim_end : (d : ℕ) (s : Text) → lacks d s ≡ true → lacks d (trim_end s) ≡ true
unfolding lacks trim_end
lacks-trim_end d [] h = refl
lacks-trim_end d (c ∷ s) h = ground (arith, lacks-trim_end d s)

lacks-trim : (d : ℕ) (s : Text) → lacks d s ≡ true → lacks d (trim s) ≡ true
unfolding trim
lacks-trim d s h = lacks-trim_end d (trim_start s) (lacks-trim_start d s h)

split_once-eq-some :
    (s before after : Text) (d : ℕ)
    → split_once s d ≡ some (before, after)
    → (s ≡ before ++ d ∷ after) × (lacks d before ≡ true)
unfolding split_once lacks
split_once-eq-some [] before after d h = cc
split_once-eq-some (c ∷ s) [] after d h = ground arith
split_once-eq-some (c ∷ s) (b ∷ before) after d h =
    ground (arith, split_once-eq-some s before after d)

strip_prefix-none : (s p : Text) → strip_prefix s p ≡ none → starts_with s p ≡ false
unfolding strip_prefix starts_with
strip_prefix-none s [] h = cc
strip_prefix-none [] (d ∷ p) h = refl
strip_prefix-none (c ∷ s) (d ∷ p) h = ground (arith, strip_prefix-none s p)

-- What a trimmed text and an equals sign start with, the text starts with.
starts_with-trim_end :
    (s t r p : Text)
    → lacks b'=' p ≡ true
    → starts_with (trim_end s ++ b'=' ∷ r) p ≡ true
    → starts_with (s ++ t) p ≡ true
unfolding starts_with trim_end lacks
starts_with-trim_end s t r [] l h = ground arith
starts_with-trim_end [] t r (d ∷ p) l h = absurd (ground (arith, l, h))
starts_with-trim_end (c ∷ s) t r (d ∷ p) l h = ground (arith, starts_with-trim_end s t r p)

starts_clean-left : (s t : Text) → starts_clean (s ++ t) ≡ true → starts_clean s ≡ true
starts_clean-left [] t h = refl
starts_clean-left (c ∷ s) t h = h

-- A key as `parse` reads it: it comes back from its line.
record IsKey (key raw_value : Text) (export_prefix : Bool) : Type 0 where
  trimmed : trim key ≡ key
  valid : starts_valid key ≡ true
  no_equals : lacks b'=' key ≡ true
  no_export : export_prefix ≡ false → starts_with (key ++ b'=' ∷ raw_value) export ≡ false

abbrev IsRead : Text → DotenvLine → Type 0
IsRead raw (key_value key raw_value export_prefix) = IsKey key raw_value export_prefix
IsRead raw (comment c) = c ≡ raw
IsRead raw blank = Unit

no_export-trim :
    (before after : Text)
    → starts_clean (before ++ b'=' ∷ after) ≡ true
    → starts_with (before ++ b'=' ∷ after) export ≡ false
    → starts_with (trim before ++ b'=' ∷ after) export ≡ false
no_export-trim before after clean absent =
    let same : trim before ≡ trim_end before =
      unfold trim in
      ap trim_end
        (trim_start-starts_clean before (starts_clean-left before (b'=' ∷ after) clean)) in
    elim (Bool-cases (starts_with (trim before ++ b'=' ∷ after) export)) [
      | inr e ↦ e
      | inl e ↦
          let there =
            starts_with-trim_end before (b'=' ∷ after) after export (unfold lacks in refl)
              (rw (← same) e) in
          absurd (ground (arith, there, absent))
    ]

parse_assignment-IsRead :
    (raw : Text) (export_prefix : Bool) (rest : Text)
    → (export_prefix ≡ false → starts_clean rest ≡ true)
    → (export_prefix ≡ false → starts_with rest export ≡ false)
    → IsRead raw (parse_assignment raw export_prefix rest)
unfolding parse_assignment
parse_assignment-IsRead raw export_prefix rest clean absent =
    elim (option_cases (split_once rest b'=')) [
      | inl e ↦ rw (parse_assignment, e) refl
      | inr ((before, after), e) ↦
          let (whole, lacking) = split_once-eq-some rest before after b'=' e in
          elim (Bool-cases (is_empty (trim before) || not (starts_valid (trim before)))) [
            | inl bad ↦ rw (parse_assignment, e, bad) refl
            | inr good ↦
                rw (parse_assignment, e, good)
                  (record {
                    trimmed = trim-trim before;
                    valid = ground (arith, good);
                    no_equals = lacks-trim b'=' before lacking;
                    no_export = λ n.
                        no_export-trim before after (rw (← whole) (clean n))
                          (rw (← whole) (absent n));
                  })
          ]
    ]

parse_line-IsRead : (raw : Text) → IsRead raw (parse_line raw)
unfolding parse_line
parse_line-IsRead raw =
    let line = trim_start raw in
    elim (Bool-cases (is_empty line)) [
      | inl e ↦ rw e tt
      | inr e ↦ elim (Bool-cases (starts_with line (b'#' ∷ []))) [
        | inl f ↦ rw (e, f) refl
        | inr f ↦ elim (option_cases (strip_prefix line export)) [
          | inl g ↦
              rw (e, f, g)
                (parse_assignment-IsRead raw false line (λ n. starts_clean-trim_start raw)
                  (λ n. strip_prefix-none line export g))
          | inr (stripped, g) ↦
              rw (e, f, g)
                (parse_assignment-IsRead raw true stripped (λ n. absurd (cc n))
                  (λ n. absurd (cc n)))
        ]
      ]
    ]

-- `key=value` reads back, with or without its prefix.
reparse_assignment :
    (raw key raw_value : Text) (export_prefix : Bool)
    → IsKey key raw_value export_prefix
    → parse_assignment raw export_prefix (key ++ b'=' ∷ raw_value)
      ≡ key_value key raw_value export_prefix
unfolding parse_assignment
reparse_assignment raw [] raw_value export_prefix k = absurd (cc k.valid)
reparse_assignment raw (c ∷ key) raw_value export_prefix k =
    rw
      (parse_assignment, split_once-append (c ∷ key) raw_value b'=' k.no_equals, k.trimmed, k.valid)
      refl

valid_start : (c : ℕ) → valid_key_start c ≡ true → (is_whitespace c ≡ false) × ((c == b'#') ≡ false)
unfolding is_whitespace
valid_start c h = ground arith

reparse_key :
    (key raw_value : Text) (export_prefix : Bool)
    → IsKey key raw_value export_prefix
    → parse_line (render_line (key_value key raw_value export_prefix))
      ≡ key_value key raw_value export_prefix
unfolding parse_line render_line
reparse_key key raw_value true k =
    let line = export ++ key ++ b'=' ∷ raw_value in
    let clean : trim_start line ≡ line =
      trim_start-starts_clean line (unfold is_whitespace in refl) in
    let plain : starts_with line (b'#' ∷ []) ≡ false = unfold starts_with in refl in
    let stripped = strip_prefix-append export (key ++ b'=' ∷ raw_value) in
    ground (arith, clean, plain, stripped, reparse_assignment line key raw_value true k)
reparse_key [] raw_value false k = absurd (cc k.valid)
reparse_key (c ∷ key) raw_value false k =
    let line = (c ∷ key) ++ b'=' ∷ raw_value in
    let (white, hash) = valid_start c k.valid in
    let clean : trim_start line ≡ line = trim_start-starts_clean line (rw white refl) in
    let absent = strip_prefix-eq-none line export (k.no_export refl) in
    let plain : starts_with line (b'#' ∷ []) ≡ false = unfold starts_with in rw hash refl in
    ground (arith, clean, plain, absent, reparse_assignment line (c ∷ key) raw_value false k)

-- A line that `parse_line` answered is written so that it answers it again.
parse_line-render_line : (raw : Text) → parse_line (render_line (parse_line raw)) ≡ parse_line raw
unfolding render_line
parse_line-render_line raw = rendered (parse_line raw) refl (parse_line-IsRead raw)
  where
    rendered : (l : DotenvLine) → parse_line raw ≡ l → IsRead raw l → parse_line (render_line l) ≡ l
    rendered (key_value key raw_value export_prefix) e r = reparse_key key raw_value export_prefix r
    rendered (comment c) e r = ap parse_line r ∙ e
    rendered blank e r = unfold parse_line trim_start in refl

lacks-equals : (d : ℕ) (t : Text) → (d == b'=') ≡ false → lacks d (b'=' ∷ t) ≡ lacks d t
unfolding lacks
lacks-equals d t h = ground arith

lacks-strip_prefix :
    (d : ℕ) (s p rest : Text)
    → strip_prefix s p ≡ some rest
    → lacks d s ≡ true
    → lacks d rest ≡ true
unfolding strip_prefix lacks
lacks-strip_prefix d s [] rest e h = ground arith
lacks-strip_prefix d [] (x ∷ p) rest e h = cc
lacks-strip_prefix d (c ∷ s) (x ∷ p) rest e h = ground (arith, lacks-strip_prefix d s p rest)

lacks-parse_assignment :
    (d : ℕ) (raw : Text) (export_prefix : Bool) (rest : Text)
    → lacks d export ≡ true
    → (d == b'=') ≡ false
    → lacks d raw ≡ true
    → lacks d rest ≡ true
    → lacks d (render_line (parse_assignment raw export_prefix rest)) ≡ true
unfolding parse_assignment render_line
lacks-parse_assignment d raw export_prefix rest x q h k =
    elim (option_cases (split_once rest b'=')) [
      | inl e ↦ rw (parse_assignment, e) h
      | inr ((before, after), e) ↦
          let (whole, lacking) = split_once-eq-some rest before after b'=' e in
          let parts = ap (lacks d) whole ∙ lacks-append d before (b'=' ∷ after) in
          let key = trim before in
          elim (Bool-cases (is_empty key || not (starts_valid key))) [
            | inl bad ↦ rw (parse_assignment, e, bad) h
            | inr good ↦
                rw (parse_assignment, e, good)
                  (ground (
                    arith,
                    x,
                    parts,
                    k,
                    lacks-equals d after q,
                    lacks-append d export (key ++ b'=' ∷ after),
                    lacks-append d key (b'=' ∷ after),
                    lacks-trim d before,
                  ))
          ]
    ]

lacks-parse_line :
    (d : ℕ) (raw : Text)
    → lacks d export ≡ true
    → (d == b'=') ≡ false
    → lacks d raw ≡ true
    → lacks d (render_line (parse_line raw)) ≡ true
unfolding parse_line
lacks-parse_line d raw x q h =
    let line = trim_start raw in
    let k = lacks-trim_start d raw h in
    elim (Bool-cases (is_empty line)) [
      | inl e ↦ rw (parse_line, e) (unfold render_line lacks in refl)
      | inr e ↦ elim (Bool-cases (starts_with line (b'#' ∷ []))) [
        | inl f ↦ rw (parse_line, e, f) (unfold render_line in h)
        | inr f ↦ elim (option_cases (strip_prefix line export)) [
          | inl g ↦ rw (parse_line, e, f, g) (lacks-parse_assignment d raw false line x q h k)
          | inr (stripped, g) ↦
              rw (parse_line, e, f, g)
                (lacks-parse_assignment d raw true stripped x q h
                  (lacks-strip_prefix d line export stripped g k))
        ]
      ]
    ]

-- A text with no line end of its own
abbrev IsLine : Text → Type 0
IsLine s = (lacks 10 s ≡ true) × (lacks 13 s ≡ true)

rendered-IsLine : (raw : Text) → IsLine raw → IsLine (render_line (parse_line raw))
unfolding lacks
rendered-IsLine raw h =
    (lacks-parse_line 10 raw refl refl h.0, lacks-parse_line 13 raw refl refl h.1)

lines-IsLine : (content : Text) → lacks 13 content ≡ true → All IsLine (lines content)
unfolding lines lacks
lines-IsLine [] h = tt
lines-IsLine (c ∷ s) h = ground (arith, lines-IsLine s)

parse-render_lines :
    (raws : List Text)
    → All IsLine raws
    → parse (render (map parse_line raws)) ≡ map parse_line raws
unfolding parse render
parse-render_lines [] h = unfold lines in refl
parse-render_lines (raw ∷ raws) h =
    let line = render_line (parse_line raw) in
    let (feed, carriage) = rendered-IsLine raw h.0 in
    rw (lines-append line (render (map parse_line raws)) feed carriage) (
      ap (λ ls. parse_line line ∷ ls) (parse-render_lines raws h.1)
      ∙ ap (λ l. l ∷ map parse_line raws) (parse_line-render_line raw))

-- What was read from a text with no carriage return is written so that it reads back the same:
-- every key, raw value, `export` prefix, comment and blank line, in order.
pub parse-render-parse :
    (content : Text) → lacks 13 content ≡ true → parse (render (parse content)) ≡ parse content
unfolding parse
parse-render-parse content h = parse-render_lines (lines content) (lines-IsLine content h)
