-- ===== src/Tests/Dotenv.antt =====
-- Environment files at concrete inputs.
use oxyris.Prelude.{
  ◌&&◌, Result, ℕ, ◌≡◌, ◌↔◌, ◌⊎◌, refl, arith, Text, codes, true, false, Option, none, some, [],
  ◌∷◌, lines, trim_start, is_whitespace, strip_prefix, split_once, trim, eq_text, starts_with, last,
  lacks, ok, err, if◌then◌else◌,
}
use oxyris.Core.{local}
use oxyris.Dotenv.{
  key_value, comment, blank, Dotenv, parse, parse_line, get, contains_key, merge, substitute_in,
  render,
}
use oxyris.Dotenv.RoundTrip.{parse-render-parse}
use oxyris.Dotenv.Merge.{or_else, last_value, get-merge}
use oxyris.Dotenv.Substitute.{is_ascii, substitute_in-eq_iff_ascii}
use oxyris.Dotenv.Worktree.{
  Files, no_template, full_text, env_vars, manual_override, output_path, render_for_worktree,
  path_join,
}
use oxyris.Dotenv.Worktree.Status.{Stat, status_for_worktree}
use oxyris.Dotenv.Worktree.Ownership.{ReadsBack, render_for_worktree-manual}

abbrev content : Text
content = codes "# keys\nexport A = 1\n\nB=${C:-2}\nno assignment"

parse-render-parse_example : parse (render (parse content)) ≡ parse content
unfolding lacks
parse-render-parse_example = parse-render-parse content refl

parsed :
    parse content
    ≡ comment (codes "# keys")
      ∷ key_value (codes "A") (codes " 1") true
      ∷ blank
      ∷ key_value (codes "B") (codes "${C:-2}") false
      ∷ comment (codes "no assignment")
      ∷ []
unfolding parse parse_line lines trim_start is_whitespace starts_with strip_prefix split_once trim
parsed = refl

abbrev base : Dotenv
base = key_value (codes "A") (codes "1") false ∷ []

abbrev overlay : Dotenv
overlay =
    key_value (codes "A") (codes "2") false
    ∷ key_value (codes "B") (codes "3") false
    ∷ key_value (codes "A") (codes "4") false
    ∷ []

get-merge_example : get (codes "A") (merge base overlay) ≡ (
    if contains_key (codes "A") base
    then or_else (last_value (codes "A") overlay) (get (codes "A") base)
    else get (codes "A") overlay)
get-merge_example = get-merge (codes "A") base overlay

substitute_in-eq_iff_ascii_example :
    (substitute_in (λ name. none) (0x63 ∷ 0xe9 ∷ []) ≡ 0x63 ∷ 0xe9 ∷ [])
    ↔ (is_ascii (0x63 ∷ 0xe9 ∷ []) ≡ true)
unfolding lacks
substitute_in-eq_iff_ascii_example =
    substitute_in-eq_iff_ascii (λ name. none) (0x63 ∷ 0xe9 ∷ []) refl

-- A file system of one `.env.local`, with a template beside it.
abbrev out : Text
out = codes "/w/.env.local"

abbrev disk : Files (Option Text) ℕ
disk = record {
  read_text = λ kept path. if eq_text path out then ok kept else ok (some (codes "A=1"));
  write_text =
      λ kept path contents. if eq_text path out then (ok tt, some contents) else (err 13, kept);
  is_file = λ kept path. ok false;
}

abbrev own : Text
own = codes "SECRET=1"

render_for_worktree-manual_example :
    let (answer, kept) =
      render_for_worktree disk b'/' (some own) local (codes "wt") (codes "/w") (codes "now") in
    (kept ≡ some own)
    × ((answer ≡ ok (manual_override out))
        ⊎ (answer ≡ ok no_template)
        ⊎ ((e : ℕ) × (disk.read_text (some own) (codes "/w/.oxyris/.env.template") ≡ err e)
            × (answer ≡ err e)))
unfolding output_path path_join eq_text starts_with last
render_for_worktree-manual_example =
    render_for_worktree-manual disk b'/' (some own) local (codes "wt") (codes "/w") (codes "now")
      own refl refl

disk-ReadsBack : ReadsBack disk b'/'
unfolding eq_text
disk-ReadsBack fs fs' path contents h = ground arith

abbrev generated_text : Text
generated_text =
    full_text disk b'/' (codes "wt") (codes "now") (env_vars (codes "wt") none) (codes "A=1")
      (codes "A=1")

abbrev file_times : Option Text → Text → Result ℕ Stat
file_times kept path =
    ok (record { exists = true; modified_secs = some (if eq_text path out then 5 else 6) })

stale_and_owned :
    elim (status_for_worktree disk file_times b'/' (some own) local (codes "/w")) [
      | ok s ↦ s.stale && s.manual_override
      | err e ↦ false
    ]
    ≡ true
unfolding status_for_worktree eq_text starts_with last
stale_and_owned = refl
