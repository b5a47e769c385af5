-- ===== src/Tests/Lsp.antt =====
-- A language server's client at concrete inputs.
use oxyris.Prelude.{
  ℕ, ◌+◌, ◌≡◌, refl, arith, Text, codes, true, ◌==◌, Option, none, some, List, [], ◌∷◌, all, any,
  length, count, eq_text, if◌then◌else◌, ltb,
}
use oxyris.Lsp.Framing.{Bytes, writer_loop, messages}
use oxyris.Lsp.Dispatch.{dispatch, remove, JsonApi, ok_result, server_gone, Client, reader_loop}
use oxyris.Lsp.Answered.{answered_ids, reader_loop-answers}
use oxyris.Lsp.RoundTrip.{ReadsAscii, IsFramed, messages-writer_loop}

-- A value is a text, its bytes are its characters, and an empty text has none.
abbrev to_bytes : Text → Option Bytes
to_bytes s = some s

abbrev from_ascii : Bytes → Option Text
from_ascii s = if all (λ c. ltb c 0x80) s then some s else none

from_ascii-ReadsAscii : ReadsAscii from_ascii
unfolding ReadsAscii
from_ascii-ReadsAscii s h = ground arith

abbrev sent : List Text
sent = codes "{}" ∷ codes "[1]" ∷ []

messages-writer_loop_example :
    messages from_ascii to_bytes
      (length (writer_loop to_bytes (λ k. true) 0 sent))
      (writer_loop to_bytes (λ k. true) 0 sent)
    ≡ sent
unfolding IsFramed
messages-writer_loop_example =
    messages-writer_loop from_ascii from_ascii-ReadsAscii to_bytes to_bytes (λ k. true) (λ k. refl)
      sent
      (
        (codes "{}", refl, refl, omega arith, omega arith),
        ((codes "[1]", refl, refl, omega arith, omega arith), tt),
      )

-- A value is the number of a response, or nothing.
abbrev numbers : JsonApi (Option ℕ) Text
numbers = record {
  get = λ v key. elim v [
    | none ↦ none
    | some n ↦ if eq_text key (codes "id") then some (some n) else none
  ];
  as_str = λ v. none;
  as_i64 = λ v. v;
  as_token = λ v. none;
  publish_params = λ v. none;
  null = none;
  reply_ok = λ v. v;
  reply_method_not_found = λ v method. v;
}

abbrev waiting : Client (Option ℕ) Text
waiting = record {
  pending = 1 ∷ 2 ∷ [];
  answered = [];
  diagnostics = [];
  progress = record { active = codes "rustAnalyzer/Flycheck" ∷ []; flycheck_completions = 0 };
  out = [];
}

reader_loop-answers_example :
    let after = reader_loop numbers (some 2 ∷ some 7 ∷ []) waiting in
    (after.pending ≡ [])
    × (after.progress.active ≡ [])
    × ((j : ℕ)
        → count (λ i. i == j) (answered_ids numbers after)
          ≡ count (λ i. i == j) (1 ∷ 2 ∷ []) + count (λ i. i == j) [])
reader_loop-answers_example = reader_loop-answers numbers (some 2 ∷ some 7 ∷ []) waiting

answered_in_order :
    (reader_loop numbers (some 2 ∷ some 7 ∷ []) waiting).answered
    ≡ (2, ok_result none) ∷ (1, server_gone) ∷ []
unfolding reader_loop dispatch eq_text any remove
answered_in_order = refl
