-- ===== src/Watchdog/Supervisors.antt =====
-- The supervisors of apps/desktop/src/infra/autopilot.rs: their configuration, what they are asked,
-- and the verdict that is read from an answer.
use oxyris.Prelude.{
  Text, codes, not, ◌==◌, Option, none, some, [], ◌∷◌, ◌++◌, is_empty, trim, filter_option, Result,
  ok, err, ◌>>=◌, ok_or, if◌then◌else◌,
}
use oxyris.Supervisor.Types.{
  SupervisorError, invalid_decision, PendingKind, permission, turn_ended, AutopilotContext, Verdict,
}

pub data SupervisorKind : Type 0 where
  multi_model claude : SupervisorKind

pub data SupervisorConfig : Type 0 where
  -- the base URL, the model and the key
  multi_model : Text → Text → Option Text → SupervisorConfig
  claude : Option Text → SupervisorConfig

-- `filter(|x| !x.trim().is_empty())`
abbrev filled : Option Text → Option Text
filled o = filter_option (λ s. not (is_empty (trim s))) o

unfoldable pub config_from_parts :
    SupervisorKind → Option Text → Option Text → Option Text → Result Text SupervisorConfig
unfolding trim
config_from_parts SupervisorKind.multi_model model base_url api_key = do
  base_url' ← ok_or (filled base_url) (codes "multi-model supervisor needs a base URL")
  model' ← ok_or (filled model) (codes "multi-model supervisor needs a model")
  ok (SupervisorConfig.multi_model base_url' model' (filled api_key))
config_from_parts SupervisorKind.claude model base_url api_key =
    ok (SupervisorConfig.claude (filled model))

abbrev pending : PendingKind → Text
pending (permission request_id tool_name command raw_prompt) =
    codes "Claude is waiting for input (a tool approval or a question). On-screen prompt:\n"
    ++ raw_prompt
pending (turn_ended last_output) =
    codes
      "Claude finished a turn and is idle. Decide whether the mission is complete or what the next instruction should be.\nRecent output:\n"
    ++ last_output

unfoldable pub build_user_prompt : AutopilotContext → PendingKind → Text
unfolding trim
build_user_prompt ctx ask =
    codes "# Mission\n"
    ++ (trim ctx.mission.text
        ++ (codes "\n\n# Working directory\n"
            ++ (ctx.cwd
                ++ (codes "\n\n# Recent session output\n"
                    ++ (trim ctx.transcript.recent_output
                        ++ (codes "\n\n# Pending\n" ++ pending ask))))))

-- What begins at the opening brace that comes first.
unfoldable pub from_first : Text → Option Text
from_first [] = none
from_first (c ∷ s) = let rest = from_first s in if c == b'{' then some (c ∷ s) else rest

-- What ends at the closing brace that comes last.
unfoldable pub up_to_last : Text → Option Text
up_to_last [] = none
up_to_last (c ∷ s) = elim (up_to_last s) [
  | some t ↦ some (c ∷ t)
  | none ↦ if c == b'}' then some (c ∷ []) else none
]

abbrev braced : Option Text → Option Text
unfolding up_to_last
braced none = none
braced (some s) = up_to_last s

-- `from_str` is the derived reading of a verdict from JSON, with the text of its error.
module _ (from_str : Text → Result Text Verdict) where
  abbrev read : Text → Result Text Verdict → Result SupervisorError Verdict
  read json (ok verdict) = ok verdict
  read json (err e) = err (invalid_decision (e ++ (codes ": " ++ json)))

  unfoldable pub parse_verdict : Text → Result SupervisorError Verdict
  unfolding from_first braced
  parse_verdict content = elim (braced (from_first content)) [
    | none ↦ err (invalid_decision (codes "no JSON object in reply: " ++ content))
    | some json ↦ read json (from_str json)
  ]
