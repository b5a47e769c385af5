-- ===== src/Lsp/Framing.antt =====
-- The frames of `writer_loop`, `read_headers` and `reader_loop`.
use oxyris.Prelude.{
  ℕ, zero, suc, ◌+◌, Text, codes, Bool, not, ◌&&◌, ◌||◌, ltb, ◌==◌, Option, none, some, List, [],
  ◌∷◌, ◌++◌, length, take, drop, is_empty, strip_prefix, trim, to_decimal, parse_usize,
  if◌then◌else◌,
}

abbrev pub Bytes : Type 0
Bytes = List ℕ

abbrev pub length_header : Text
length_header = codes "Content-Length:"

unfoldable pub header : ℕ → Bytes
header n = (length_header ++ b' ' ∷ to_decimal n) ++ codes "\r\n\r\n"

-- `to_vec` is `serde_json::to_vec`; `accepts k` tells whether the server takes the `k`th write or
-- flush.
module _ {Value : Type 0} (to_vec : Value → Option Bytes) (accepts : ℕ → Bool) where
  -- What arrives at the server. A failed write is taken to have written nothing.
  unfoldable pub writer_loop : ℕ → List Value → Bytes
  writer_loop k [] = []
  writer_loop k (value ∷ values) =
      let skipped = writer_loop k values in
      let rest = writer_loop (k + 3) values in
      elim (to_vec value) [
        | none ↦ skipped
        | some body ↦
            if not (accepts k)
            then []
            else if not (accepts (k + 1))
            then header (length body)
            else header (length body) ++ (body ++ (if accepts (k + 2) then rest else []))
      ]

-- `trim_end_matches(['\r', '\n'])`
unfoldable pub trim_line_end : Text → Text
trim_line_end [] = []
trim_line_end (c ∷ s) =
    let rest = trim_line_end s in
    if is_empty rest && (c == b'\r' || c == b'\n') then [] else c ∷ rest

-- One round of `read_headers`: the length that is known so far, or an answer.
pub data Round : Type 0 where
  invalid : Round
  answer : ℕ → Round
  next : Option ℕ → Round

pub data Headers : Type 0 where
  eof failed : Headers
  -- the length of the body, and the bytes that follow the headers
  found : ℕ → Bytes → Headers

-- `Option::or(Some(0))`
abbrev pub or_zero : Option ℕ → ℕ
or_zero none = 0
or_zero (some n) = n

-- `from_utf8` is the check of `read_line` that a line is UTF-8.
module _ (from_utf8 : Bytes → Option Text) where
  -- The line is what `read_line` read, with its line feed if it has one.
  unfoldable pub read_header : Option ℕ → Bytes → Round
  read_header content_length line = elim (from_utf8 line) [
    | none ↦ invalid
    | some text ↦
        let trimmed = trim_line_end text in
        if is_empty trimmed
        then answer (or_zero content_length)
        else elim (strip_prefix trimmed length_header) [
          | none ↦ next content_length
          | some rest ↦ next (parse_usize (trim rest))
        ]
  ]

  -- At the end of the input a line that has begun is read; the next `read_line` finds nothing.
  unfoldable pub read_end : Option ℕ → Bytes → Headers
  read_end content_length [] = eof
  read_end content_length (b ∷ line) = elim (read_header content_length (b ∷ line)) [
    | invalid ↦ failed
    | answer n ↦ found n []
    | next content_length' ↦ eof
  ]

  -- `line` is what was read of the current line.
  unfoldable pub read_headers : Option ℕ → Bytes → Bytes → Headers
  unfolding read_end
  read_headers content_length line [] = read_end content_length line
  read_headers content_length line (b ∷ input) =
      let longer = read_headers content_length (line ++ b ∷ []) input in
      if b == b'\n'
      then elim (read_header content_length (line ++ b ∷ [])) [
        | invalid ↦ failed
        | answer n ↦ found n input
        | next content_length' ↦ read_headers content_length' [] input
      ]
      else longer

  -- `from_slice` is `serde_json::from_slice`.
  module _ {Value : Type 0} (from_slice : Bytes → Option Value) where
    -- The messages that `reader_loop` dispatches. Each round reads a byte or ends the loop, so the
    -- length of the input is fuel enough.
    unfoldable pub messages : ℕ → Bytes → List Value
    messages zero input = []
    messages (suc fuel) input = elim (read_headers none [] input) [
      | eof ↦ []
      | failed ↦ []
      | found n rest ↦
          let empty = messages fuel rest in
          let after = messages fuel (drop n rest) in
          if n == 0
          then empty
          else if ltb (length rest) n
          then []
          else elim (from_slice (take n rest)) [ none ↦ after | some value ↦ value ∷ after ]
    ]
