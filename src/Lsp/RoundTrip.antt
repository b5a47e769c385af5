-- ===== src/Lsp/RoundTrip.antt =====
-- What `writer_loop` writes, `reader_loop` reads.
use oxyris.Prelude.{
  ℕ, zero, suc, ◌+◌, ◌^◌, ◌≤◌, ◌<◌, Text, codes, Bool, true, false, ◌&&◌, ltb, leb, ◌==◌, Option,
  none, some, List, [], ◌∷◌, ◌++◌, All, ◌≡◌, refl, sym, ap, ◌∙◌, arith, inl, inr, Bool-cases,
  append_assoc, length, length-append, take, drop, strip_prefix-append, trim, to_decimal,
  parse_usize-to_decimal, lacks, lacks-append, all, all-append, is_digit, to_decimal-all,
  trim_start, trim_end, is_whitespace,
}
use oxyris.Lsp.Framing.{
  Bytes, length_header, header, writer_loop, trim_line_end, answer, next, found, read_header,
  read_end, read_headers, messages,
}

take-append : (xs ys : List ℕ) → take (length xs) (xs ++ ys) ≡ xs
unfolding take
take-append [] ys = refl
take-append (x ∷ xs) ys = ap (λ s. x ∷ s) (take-append xs ys)

drop-append : (xs ys : List ℕ) → drop (length xs) (xs ++ ys) ≡ ys
unfolding drop
drop-append [] ys = refl
drop-append (x ∷ xs) ys = drop-append xs ys

-- A printable character of ASCII.
abbrev pub is_plain : ℕ → Bool
is_plain c = leb 32 c && leb c 126

plain_digits : (s : Text) → all is_digit s ≡ true → all is_plain s ≡ true
unfolding all
plain_digits [] h = refl
plain_digits (c ∷ s) h = ground (arith, plain_digits s)

lacks_plain : (d : ℕ) (s : Text) → d < 32 → all is_plain s ≡ true → lacks d s ≡ true
unfolding all lacks
lacks_plain d [] k h = refl
lacks_plain d (c ∷ s) k h = ground (arith, lacks_plain d s)

trim_line_end-plain :
    (s : Text) → all is_plain s ≡ true → trim_line_end (s ++ b'\r' ∷ b'\n' ∷ []) ≡ s
unfolding all trim_line_end
trim_line_end-plain [] h = refl
trim_line_end-plain (c ∷ s) h = ground (arith, trim_line_end-plain s)

trim_end-digits : (s : Text) → all is_digit s ≡ true → trim_end s ≡ s
unfolding all trim_end is_whitespace
trim_end-digits [] h = refl
trim_end-digits (c ∷ s) h = ground (arith, trim_end-digits s)

trim_start-digits : (s : Text) → all is_digit s ≡ true → trim_start (b' ' ∷ s) ≡ s
unfolding all trim_start is_whitespace
trim_start-digits [] h = refl
trim_start-digits (c ∷ s) h = ground arith

trim-digits : (s : Text) → all is_digit s ≡ true → trim (b' ' ∷ s) ≡ s
unfolding trim
trim-digits s h = ap trim_end (trim_start-digits s h) ∙ trim_end-digits s h

abbrev to_text : ℕ → Text
to_text n = length_header ++ b' ' ∷ to_decimal n

to_text-all : (n : ℕ) → all is_plain (to_text n) ≡ true
to_text-all n =
    let digits = plain_digits (to_decimal n) (to_decimal-all n) in
    rw (all-append is_plain length_header (b' ' ∷ to_decimal n)) (unfold all in rw digits refl)

-- A decoder of UTF-8 reads ASCII as it is.
unfoldable pub ReadsAscii : (Bytes → Option Text) → Type 0
ReadsAscii from_utf8 = (s : Text) → all (λ c. ltb c 0x80) s ≡ true → from_utf8 s ≡ some s

ascii_plain :
    (s : Text) → all is_plain s ≡ true → all (λ c. ltb c 0x80) (s ++ b'\r' ∷ b'\n' ∷ []) ≡ true
unfolding all
ascii_plain [] h = refl
ascii_plain (c ∷ s) h = ground (arith, ascii_plain s)

module _ {Value : Type 0} (to_vec : Value → Option Bytes) (from_slice : Bytes → Option Value) where
  -- The value is written to a body that reads back, and whose length is a 64-bit number.
  unfoldable pub IsFramed : Value → Type 0
  IsFramed value =
      (body : Bytes) × (to_vec value ≡ some body)
      × (from_slice body ≡ some value)
      × (0 < length body)
      × (length body < 2 ^ 64)

module _ (from_utf8 : Bytes → Option Text) (reads : ReadsAscii from_utf8) where
  read_header-length :
      (n : ℕ)
      → n < 2 ^ 64
      → read_header from_utf8 none (to_text n ++ b'\r' ∷ b'\n' ∷ []) ≡ next (some n)
  unfolding ReadsAscii read_header
  read_header-length n h =
      let plain = to_text-all n in
      rw
        (
          read_header,
          reads (to_text n ++ b'\r' ∷ b'\n' ∷ []) (ascii_plain (to_text n) plain),
          trim_line_end-plain (to_text n) plain,
          strip_prefix-append length_header (b' ' ∷ to_decimal n),
          trim-digits (to_decimal n) (to_decimal-all n),
          parse_usize-to_decimal n h,
        )
        refl

  read_header-end : (n : ℕ) → read_header from_utf8 (some n) (b'\r' ∷ b'\n' ∷ []) ≡ answer n
  unfolding ReadsAscii read_header
  read_header-end n =
      rw (read_header, reads (b'\r' ∷ b'\n' ∷ []) (unfold all in refl))
        (unfold trim_line_end in refl)

  read_headers-line_end :
      (known known' : Option ℕ) (line input : Bytes)
      → read_header from_utf8 known (line ++ 10 ∷ []) ≡ next known'
      → read_headers from_utf8 known line (10 ∷ input) ≡ read_headers from_utf8 known' [] input
  unfolding read_headers
  read_headers-line_end known known' line input k = rw (read_headers, k) refl

  read_headers-next :
      (known known' : Option ℕ) (line s input : Bytes)
      → lacks 10 s ≡ true
      → read_header from_utf8 known (line ++ (s ++ 10 ∷ [])) ≡ next known'
      → read_headers from_utf8 known line (s ++ 10 ∷ input) ≡ read_headers from_utf8 known' [] input
  unfolding read_headers lacks
  read_headers-next known known' line [] input h k = read_headers-line_end known known' line input k
  read_headers-next known known' line (c ∷ s) input h k = elim (Bool-cases (c == 10)) [
    | inl e ↦ absurd (ground arith)
    | inr e ↦ rw e (
        read_headers-next known known' (line ++ c ∷ []) s input (ground arith)
          (ap (read_header from_utf8 known) (append_assoc line (c ∷ []) (s ++ 10 ∷ [])) ∙ k))
  ]

  read_headers-header :
      (n : ℕ) (input : Bytes)
      → n < 2 ^ 64
      → read_headers from_utf8 none [] (header n ++ input) ≡ found n input
  unfolding header
  read_headers-header n input h =
      let plain = to_text-all n in
      let lacking : lacks 10 (to_text n ++ b'\r' ∷ []) ≡ true =
        rw
          (lacks-append 10 (to_text n) (b'\r' ∷ []), lacks_plain 10 (to_text n) (omega arith) plain)
          (unfold lacks in refl) in
      let line = append_assoc (to_text n) (b'\r' ∷ []) (b'\n' ∷ []) in
      let whole : header n ++ input ≡ (to_text n ++ b'\r' ∷ []) ++ (10 ∷ b'\r' ∷ 10 ∷ input) =
        append_assoc (to_text n) (codes "\r\n\r\n") input
        ∙ sym (append_assoc (to_text n) (b'\r' ∷ []) (10 ∷ b'\r' ∷ 10 ∷ input)) in
      ap (read_headers from_utf8 none []) whole
      ∙ read_headers-next none (some n) [] (to_text n ++ b'\r' ∷ []) (b'\r' ∷ 10 ∷ input) lacking
          (ap (read_header from_utf8 none) line ∙ read_header-length n h)
      ∙ unfold read_headers in rw (read_header-end n) refl

  module _ {Value : Type 0} (to_vec : Value → Option Bytes)
      (from_slice : Bytes → Option Value) where
    not_zero : (n : ℕ) → 0 < n → (n == 0) ≡ false
    not_zero n h = ground arith

    length_append-ltb : (xs ys : Bytes) → ltb (length (xs ++ ys)) (length xs) ≡ false
    length_append-ltb xs ys = ground (arith, length-append xs ys)

    messages-frame :
        (fuel : ℕ) (value : Value) (body tail : Bytes)
        → from_slice body ≡ some value
        → 0 < length body
        → length body < 2 ^ 64
        → messages from_utf8 from_slice (suc fuel) (header (length body) ++ (body ++ tail))
          ≡ value ∷ messages from_utf8 from_slice fuel tail
    unfolding messages
    messages-frame fuel value body tail reads_back some_bytes small =
        rw
          (
            messages,
            read_headers-header (length body) (body ++ tail) small,
            not_zero (length body) some_bytes,
            length_append-ltb body tail,
            take-append body tail,
            reads_back,
          )
          (ap (λ rest. value ∷ messages from_utf8 from_slice fuel rest) (drop-append body tail))

    module _ (accepts : ℕ → Bool) (accepting : (k : ℕ) → accepts k ≡ true) where
      writer_loop-frame :
          (k : ℕ) (value : Value) (values : List Value) (body : Bytes)
          → to_vec value ≡ some body
          → writer_loop to_vec accepts k (value ∷ values)
            ≡ header (length body) ++ (body ++ writer_loop to_vec accepts (k + 3) values)
      unfolding writer_loop
      writer_loop-frame k value values body writes =
          rw (writer_loop, writes, accepting k, accepting (k + 1), accepting (k + 2)) refl

      messages-frames :
          (k fuel : ℕ) (values : List Value)
          → All (IsFramed to_vec from_slice) values
          → length values ≤ fuel
          → messages from_utf8 from_slice fuel (writer_loop to_vec accepts k values) ≡ values
      unfolding IsFramed
      messages-frames k zero [] h l = unfold messages in refl
      messages-frames k (suc fuel) [] h l =
          unfold messages writer_loop read_headers read_end in refl
      messages-frames k zero (value ∷ values) h l = absurd (omega arith)
      messages-frames k (suc fuel) (value ∷ values)
            ((body, writes, reads_back, some_bytes, small), framed) l =
          let tail = writer_loop to_vec accepts (k + 3) values in
          ap (messages from_utf8 from_slice (suc fuel))
            (writer_loop-frame k value values body writes)
          ∙ messages-frame fuel value body tail reads_back some_bytes small
          ∙ ap (λ vs. value ∷ vs) (messages-frames (k + 3) fuel values framed (omega arith))

      length-writer_loop :
          (k : ℕ) (values : List Value)
          → All (IsFramed to_vec from_slice) values
          → length values ≤ length (writer_loop to_vec accepts k values)
      unfolding IsFramed
      length-writer_loop k [] h = omega arith
      length-writer_loop k (value ∷ values)
            ((body, writes, reads_back, some_bytes, small), framed) =
          let tail = writer_loop to_vec accepts (k + 3) values in
          let whole = writer_loop-frame k value values body writes in
          let rest = length-writer_loop (k + 3) values framed in
          rw whole (
            omega (
              arith,
              some_bytes,
              rest,
              length-append (header (length body)) (body ++ tail),
              length-append body tail,
            ))

      -- Where the server takes every write, the messages that it reads are the ones that were sent,
      -- in their order, and as many rounds as bytes arrive are enough. The decoder reads ASCII as it
      -- is, and the body of each value reads back, is not empty, and has a 64-bit length.
      pub messages-writer_loop :
          (values : List Value)
          → All (IsFramed to_vec from_slice) values
          → messages from_utf8 from_slice
              (length (writer_loop to_vec accepts 0 values))
              (writer_loop to_vec accepts 0 values)
            ≡ values
      messages-writer_loop values framed =
          messages-frames 0 (length (writer_loop to_vec accepts 0 values)) values framed
            (length-writer_loop 0 values framed)
