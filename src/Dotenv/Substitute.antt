-- ===== src/Dotenv/Substitute.antt =====
-- What `substitute_in` does to the references of a value and to the text around them.
use oxyris.Prelude.{
  ℕ, ◌≤◌, ◌<◌, Text, Bool, true, false, ◌&&◌, ltb, Option, [], ◌∷◌, ◌++◌, ◌≡◌, ◌↔◌, inl, inr, refl,
  sym, ap, ◌∙◌, arith, Bool-cases, append_assoc, append-nil, length, length-append, lacks,
  split_once-append, utf8, if◌then◌else◌,
}
use oxyris.Dotenv.{resolve_token, substitute_from, substitute_in}

-- The characters that the bytes of a text become, each on its own.
unfoldable pub bytes_as_characters : Text → Text
bytes_as_characters [] = []
bytes_as_characters (c ∷ s) = utf8 c ++ bytes_as_characters s

unfoldable pub is_ascii : Text → Bool
is_ascii [] = true
is_ascii (c ∷ s) = ltb c 0x80 && is_ascii s

bytes_as_characters-ascii : (s : Text) → is_ascii s ≡ true → bytes_as_characters s ≡ s
unfolding bytes_as_characters is_ascii utf8
bytes_as_characters-ascii [] h = refl
bytes_as_characters-ascii (c ∷ s) h = ground (arith, bytes_as_characters-ascii s)

length-utf8 : (c : ℕ) → (if ltb c 0x80 then 1 else 2) ≤ length (utf8 c)
unfolding utf8
length-utf8 c = ground arith

length-bytes_as_characters : (s : Text) → length s ≤ length (bytes_as_characters s)
unfolding bytes_as_characters
length-bytes_as_characters [] = omega arith
length-bytes_as_characters (c ∷ s) =
    rw (length-append (utf8 c) (bytes_as_characters s))
      (ground (arith, length-utf8 c, length-bytes_as_characters s))

length-bytes_as_characters_lt :
    (s : Text) → is_ascii s ≡ false → length s < length (bytes_as_characters s)
unfolding bytes_as_characters is_ascii
length-bytes_as_characters_lt [] h = cc
length-bytes_as_characters_lt (c ∷ s) h =
    rw (length-append (utf8 c) (bytes_as_characters s))
      (ground (arith, length-utf8 c, length-bytes_as_characters s, length-bytes_as_characters_lt s))

module _ (vars : Text → Option Text) where
  substitute_from-skip :
      (xs s : Text) → substitute_from vars (length xs) (xs ++ s) ≡ substitute_from vars 0 s
  unfolding substitute_from
  substitute_from-skip [] [] = refl
  substitute_from-skip [] (c ∷ s) = refl
  substitute_from-skip (x ∷ xs) s = substitute_from-skip xs s

  -- Text with no dollar sign, in front of more.
  substitute_from-append :
      (s t : Text)
      → lacks b'$' s ≡ true
      → substitute_from vars 0 (s ++ t) ≡ bytes_as_characters s ++ substitute_from vars 0 t
  unfolding substitute_from bytes_as_characters lacks
  substitute_from-append [] t h = refl
  substitute_from-append (c ∷ s) t h = ground (
    arith,
    substitute_from-append s t,
    append_assoc (utf8 c) (bytes_as_characters s) (substitute_from vars 0 t),
  )

  substitute_from-reference :
      (name after : Text)
      → lacks b'}' name ≡ true
      → substitute_from vars 0 (b'$' ∷ b'{' ∷ (name ++ b'}' ∷ after))
        ≡ resolve_token vars name ++ substitute_from vars 0 after
  unfolding substitute_from
  substitute_from-reference name after h =
      let token = b'{' ∷ (name ++ b'}' ∷ []) in
      let skipped = substitute_from-skip token after in
      ground (
        arith,
        split_once-append name after b'}' h,
        skipped,
        append_assoc name (b'}' ∷ []) after,
        length-append name (b'}' ∷ []),
      )

  -- A reference that follows text with no dollar sign is resolved in its place, and the text after
  -- it is substituted on its own.
  pub substitute_in-reference :
      (before name after : Text)
      → lacks b'$' before ≡ true
      → lacks b'}' name ≡ true
      → substitute_in vars (before ++ b'$' ∷ b'{' ∷ (name ++ b'}' ∷ after))
        ≡ bytes_as_characters before ++ (resolve_token vars name ++ substitute_in vars after)
  unfolding substitute_in
  substitute_in-reference before name after h k =
      substitute_from-append before (b'$' ∷ b'{' ∷ (name ++ b'}' ∷ after)) h
      ∙ ap (λ t. bytes_as_characters before ++ t) (substitute_from-reference name after k)

  substitute_in-plain :
      (s : Text) → lacks b'$' s ≡ true → substitute_in vars s ≡ bytes_as_characters s
  unfolding substitute_in substitute_from
  substitute_in-plain s h =
      ap (substitute_from vars 0) (sym (append-nil s))
      ∙ substitute_from-append s [] h
      ∙ append-nil (bytes_as_characters s)

  -- A value with no dollar sign is left as it is exactly if it is ASCII: any other character is
  -- replaced by one character for each byte of its encoding.
  pub substitute_in-eq_iff_ascii :
      (s : Text) → lacks b'$' s ≡ true → (substitute_in vars s ≡ s) ↔ (is_ascii s ≡ true)
  unfolding substitute_in
  substitute_in-eq_iff_ascii s h =
      let plain = substitute_in-plain s h in
      (
        λ same. elim (Bool-cases (is_ascii s)) [
          | inl e ↦ e
          | inr e ↦
              absurd
                (omega (arith, length-bytes_as_characters_lt s e, ap length plain, ap length same))
        ],
        λ e. plain ∙ bytes_as_characters-ascii s e,
      )
