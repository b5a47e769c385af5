-- ===== src/Tests/Session.antt =====
-- The session aggregate at concrete inputs.
use oxyris.Prelude.{
  ◌≡◌, refl, codes, none, some, List, [], ◌∷◌, ok, err, find, any, update_first, eq_text,
}
use oxyris.Core.{apply_all, replay}
use oxyris.Core.History.{History, accept}
use oxyris.Provider.{AssistantBlock, text, thinking, auto, supervised}
use oxyris.Domain.Session.{
  SessionData, SessionEvent, start, start_turn, append_assistant_block, complete_turn,
  session_started, turn_started, turn_assistant_block_appended, turn_completed, default_env,
  structured, find_turn, update_turn, merge_block, decide, apply, session,
}
use oxyris.Domain.Session.Turns.{IsValidInner}
use oxyris.Domain.Session.Valid.{replay-session-IsValid}
use oxyris.Domain.Session.Blocks.{pieces, character}
use oxyris.Domain.Session.TurnEvents.{state_of, status_of, pieces-stream, settled_turn}
use oxyris.Prelude.{map}
use oxyris.Domain.Session.{
  TurnEntry, streaming, interrupted, failed, running, fail_turn, interrupt_turn, turn_failed,
  turn_interrupted, turn_not_streaming,
}

abbrev started : SessionEvent
started =
    session_started 1 2 none (codes "claude") (codes "opus") auto supervised default_env structured
      5

abbrev turn : SessionEvent
turn = turn_started (codes "t1") (codes "hi") 6

abbrev said : SessionEvent
said = turn_assistant_block_appended (codes "t1") (text (codes "yo"))

abbrev done : SessionEvent
done = turn_completed (codes "t1") none (some 3) (some 4) 9

session_log : History session (started ∷ turn ∷ said ∷ done ∷ [])
unfolding decide replay apply_all apply find_turn find any update_turn update_first eq_text
    merge_block
session_log =
    accept (complete_turn (codes "t1") none (some 3) (some 4) 9)
      (accept (append_assistant_block (codes "t1") (text (codes "yo")))
        (accept (start_turn (codes "t1") (codes "hi") 6)
          (accept
            (start 1 2 none (codes "claude") (codes "opus") auto supervised default_env structured
              5)
            History.start refl)
          refl)
        refl)
      refl

replay-session-IsValid_example :
    IsValidInner (replay session (started ∷ turn ∷ said ∷ done ∷ [])).inner
replay-session-IsValid_example = replay-session-IsValid session_log

abbrev entry : TurnEntry
entry = record {
  id = codes "t1";
  user_text = codes "hi";
  blocks = text (codes "a") ∷ [];
  status = streaming;
  started_at = 6;
  completed_at = none;
  total_cost_usd = none;
  input_tokens = none;
  output_tokens = none;
  error_message = none;
}

abbrev live_data : SessionData
live_data = record {
  id = 1;
  project_id = 2;
  worktree_id = none;
  provider_id = codes "claude";
  model = codes "opus";
  thinking = auto;
  runtime = supervised;
  status = running;
  turns = entry ∷ [];
  created_at = 5;
  provider_session_id = none;
  title = none;
  env_mode = default_env;
  kind = structured;
  pinned_at = none;
}

pieces-stream_example :
    (d' : SessionData) × (blocks : List AssistantBlock) × ((apply_all session
        (state_of live_data)
        (map (turn_assistant_block_appended (codes "t1")) (text (codes "b") ∷ []))).inner
      ≡ some d')
    × (find_turn (codes "t1") d'.turns ≡ some (record entry { blocks = blocks }))
    × (pieces blocks ≡ character 97 ∷ character 98 ∷ [])
unfolding find_turn find eq_text
pieces-stream_example = pieces-stream live_data (codes "t1") entry (text (codes "b") ∷ []) refl

abbrev cut_entry : TurnEntry
cut_entry = record entry { status = interrupted; completed_at = some 8 }

abbrev cut_data : SessionData
cut_data = record live_data { turns = cut_entry ∷ [] }

settled_turn_example :
    (decide (state_of cut_data) (append_assistant_block (codes "t1") (text []))
      ≡ err (turn_not_streaming (codes "t1")))
    × (decide (state_of cut_data) (complete_turn (codes "t1") none none none 9) ≡ ok [])
    × (decide (state_of cut_data) (fail_turn (codes "t1") (codes "late") 9)
        ≡ ok (turn_failed (codes "t1") (codes "late") 9 ∷ []))
    × (status_of
          (codes "t1")
          (apply_all session (state_of cut_data) (turn_failed (codes "t1") (codes "late") 9 ∷ []))
        ≡ some failed)
    × (decide (state_of cut_data) (interrupt_turn (codes "t1") 9)
        ≡ ok (turn_interrupted (codes "t1") 9 ∷ []))
    × (status_of
          (codes "t1")
          (apply_all session (state_of cut_data) (turn_interrupted (codes "t1") 9 ∷ []))
        ≡ some interrupted)
unfolding find_turn find eq_text
settled_turn_example =
    settled_turn cut_data (codes "t1") cut_entry refl (text []) none none none (codes "late") 9 refl

abbrev spoken : List AssistantBlock
spoken = text (codes "a") ∷ thinking (codes "b") ∷ []
