-- ===== src/Conversation/Samples.antt =====
-- A reader of lines for the examples. A line is a letter and a text: `u` is the user's text, `t` the
-- assistant's, `q` its question, `e` its plan that is handed over, and `r` the result of a call.
use agent_dashboard.Common.{ℕ, String, Option, none, some, List, [], ◌∷◌, ◌==◌, if◌then◌else◌}
use agent_dashboard.Conversation.{Env, Block, plain, blocks, JsonlEntry}

abbrev pub block : String → String → List ℕ → Block
block type name text = record {
  type = type;
  text = text;
  name = name;
  id = "q";
  tool_use_id = "q";
  input = text;
}

abbrev pub line_of : String → List Block → Option JsonlEntry
line_of type bs =
    some (record { type = type; message = some (blocks bs); timestamp = "now"; slug = "" })

abbrev pub parse_line : List ℕ → Option JsonlEntry
parse_line [] = none
parse_line (c ∷ s) =
    if c == b'u'
    then some (record { type = "user"; message = some (plain s); timestamp = "now"; slug = "" })
    else if c == b't'
    then line_of "assistant" (block "text" "" s ∷ [])
    else if c == b'q'
    then line_of "assistant" (block "tool_use" "AskUserQuestion" s ∷ [])
    else if c == b'e'
    then line_of "assistant" (block "tool_use" "ExitPlanMode" s ∷ [])
    else if c == b'r'
    then line_of "user" (block "tool_result" "" s ∷ [])
    else none

abbrev pub env : Env
env = record { parse_line = parse_line; trim_space = λ s. s }
