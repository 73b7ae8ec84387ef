-- ===== src/Conversation/Pending.antt =====
-- internal/conversation/conversation.go: which tool call of a transcript waits for the user,
-- `LastPendingBlockingTool`, `readPendingQuestionClaude`, `hasPendingToolCall` with its two callers,
-- and `HasPendingToolUse`. `none` is a file that cannot be opened or sought; the question is its
-- input, which `parse_questions` decodes, with `none` for an error.
pub mod Latest
pub mod Tools
pub mod Questions
pub mod Answers
mod Examples
use mathlib.Core.List.{foldl}
use agent_dashboard.Common.{
  ℕ, ◌-◌, ◌*◌, String, Bool, true, false, not, ◌&&◌, ◌||◌, Option, none, some, List, [], ◌∷◌,
  length, drop, str_eq, is_empty, non_empty, ltb, if◌then◌else◌,
}
use agent_dashboard.Conversation.{
  Env, Block, Content, plain, blocks, malformed, JsonlEntry, entries_of,
}
use agent_dashboard.Conversation.Entries.{is_tool_use}

abbrev pub tail_size : ℕ
tail_size = 32 * 1024

abbrev pub line_bound : ℕ
line_bound = 1024 * 1024

unfoldable pub all_tool_results : List Block → Bool
all_tool_results [] = true
all_tool_results (b ∷ bs) =
    let rest = all_tool_results bs in if not (str_eq b.type "tool_result") then false else rest

unfoldable pub is_human_user_entry : Option Content → Bool
unfolding all_tool_results
is_human_user_entry none = true
is_human_user_entry (some (plain s)) = true
is_human_user_entry (some malformed) = true
is_human_user_entry (some (blocks bs)) = not (all_tool_results bs)

unfoldable pub any_result_for : String → List Block → Bool
any_result_for id [] = false
any_result_for id (b ∷ bs) =
    let rest = any_result_for id bs in
    if str_eq b.type "tool_result" && str_eq b.tool_use_id id then true else rest

unfoldable pub has_tool_result_for : Option Content → String → Bool
unfolding any_result_for
has_tool_result_for none id = false
has_tool_result_for (some (plain s)) id = false
has_tool_result_for (some malformed) id = false
has_tool_result_for (some (blocks bs)) id = if is_empty id then false else any_result_for id bs

-- The id of the first question of a message.
unfoldable pub tool_use_id : List Block → String
tool_use_id [] = ""
tool_use_id (b ∷ bs) =
    let rest = tool_use_id bs in if is_tool_use b "AskUserQuestion" then b.id else rest

-- The blocks of a message; none where a decoding fails.
unfoldable pub message_blocks : JsonlEntry → Option (List Block)
message_blocks e = elim e.message [
  | none ↦ none
  | some (plain s) ↦ none
  | some malformed ↦ none
  | some (blocks bs) ↦ some bs
]

-- The two variables of `LastPendingBlockingTool`.
pub record Blocking : Type 0 where
  pub last_tool : String
  pub human_after : Bool

unfoldable pub see_block : Blocking → Block → Blocking
see_block s b =
    if not (str_eq b.type "tool_use")
    then s
    else if str_eq b.name "ExitPlanMode"
    then record { last_tool = "plan"; human_after = false }
    else if str_eq b.name "AskUserQuestion"
    then record { last_tool = "question"; human_after = false }
    else s

unfoldable pub see_entry : Blocking → JsonlEntry → Blocking
unfolding see_block is_human_user_entry message_blocks
see_entry s e =
    if str_eq e.type "assistant"
    then elim (message_blocks e) [ none ↦ s | some bs ↦ foldl see_block s bs ]
    else if str_eq e.type "user"
    then (if non_empty s.last_tool && is_human_user_entry e.message
        then record s { human_after = true }
        else s)
    else s

unfoldable pub last_blocking : List JsonlEntry → String
unfolding see_entry
last_blocking es =
    let s = foldl see_entry (record { last_tool = ""; human_after = false }) es in
    if non_empty s.last_tool && not s.human_after then s.last_tool else ""

-- The variables of `readPendingQuestionClaude`; `last_input` is nil at first.
pub record Asked : Type 0 where
  pub last_input : Option (List ℕ)
  pub last_id : String
  pub human_after : Bool

-- `append(lastInput[:0], b.Input...)`: nil stays nil where the input is empty.
unfoldable pub keep_input : Option (List ℕ) → List ℕ → Option (List ℕ)
keep_input none [] = none
keep_input none (c ∷ s) = some (c ∷ s)
keep_input (some old) input = some input

unfoldable pub ask_block : String → Asked → Block → Asked
unfolding keep_input
ask_block id s b =
    if not (str_eq b.type "tool_use") || not (str_eq b.name "AskUserQuestion")
    then s
    else record { last_input = keep_input s.last_input b.input; last_id = id; human_after = false }

unfoldable pub answers : Option Content → String → Bool
unfolding is_human_user_entry has_tool_result_for
answers message id = is_human_user_entry message || has_tool_result_for message id

unfoldable pub question_entry : Asked → JsonlEntry → Asked
unfolding ask_block tool_use_id answers message_blocks
question_entry s e =
    if str_eq e.type "assistant"
    then elim (message_blocks e) [ none ↦ s | some bs ↦ foldl (ask_block (tool_use_id bs)) s bs ]
    else if str_eq e.type "user"
    then elim s.last_input [
      | none ↦ s
      | some input ↦ if answers e.message s.last_id then record s { human_after = true } else s
    ]
    else s

-- The input and the id of the question that is left, if one is.
unfoldable pub last_question : List JsonlEntry → Option (List ℕ × String)
unfolding question_entry
last_question es =
    let s =
      foldl question_entry (record { last_input = none; last_id = ""; human_after = false }) es in
    elim s.last_input [
      | none ↦ none
      | some input ↦ if s.human_after then none else some (input, s.last_id)
    ]

-- The variables of `hasPendingToolCall`.
pub record Called : Type 0 where
  pub found : Bool
  pub human_after : Bool
  pub last_id : String

unfoldable pub uses_tool : String → List Block → Bool
uses_tool name [] = false
uses_tool name (b ∷ bs) = let rest = uses_tool name bs in if is_tool_use b name then true else rest

unfoldable pub call_entry : String → Called → JsonlEntry → Called
unfolding uses_tool tool_use_id answers message_blocks
call_entry name s e =
    if str_eq e.type "assistant"
    then elim (message_blocks e) [
      | none ↦ s
      | some bs ↦
          if uses_tool name bs
          then record { found = true; human_after = false; last_id = tool_use_id bs }
          else s
    ]
    else if str_eq e.type "user"
    then (if s.found && answers e.message s.last_id then record s { human_after = true } else s)
    else s

unfoldable pub pending_call : String → List JsonlEntry → Bool
unfolding call_entry
pending_call name es =
    let s =
      foldl (call_entry name) (record { found = false; human_after = false; last_id = "" }) es in
    s.found && not s.human_after

-- The variables of `HasPendingToolUse`.
pub record Using : Type 0 where
  pub has_tool_use : Bool
  pub tool_result_after : Bool

unfoldable pub any_block : String → List Block → Bool
any_block type [] = false
any_block type (b ∷ bs) = let rest = any_block type bs in if str_eq b.type type then true else rest

unfoldable pub use_entry : Using → JsonlEntry → Using
unfolding any_block message_blocks
use_entry s e =
    if str_eq e.type "assistant"
    then elim (message_blocks e) [
      | none ↦ s
      | some bs ↦ record { has_tool_use = any_block "tool_use" bs; tool_result_after = false }
    ]
    else if str_eq e.type "user"
    then (if s.has_tool_use
        then elim (message_blocks e) [
          | none ↦ s
          | some bs ↦
              if any_block "tool_result" bs then record s { tool_result_after = true } else s
        ]
        else s)
    else s

unfoldable pub pending_use : List JsonlEntry → Bool
unfolding use_entry
pending_use es =
    let s = foldl use_entry (record { has_tool_use = false; tool_result_after = false }) es in
    s.has_tool_use && not s.tool_result_after

-- The last 32 KB of a transcript.
abbrev pub tail_of : List ℕ → List ℕ
tail_of bytes =
    if ltb tail_size (length bytes) then drop (length bytes - tail_size) bytes else bytes

module _ (env : Env) where
  unfoldable pub last_pending_blocking_tool : Option (List ℕ) → String
  unfolding last_blocking
  last_pending_blocking_tool none = ""
  last_pending_blocking_tool (some bytes) = last_blocking (entries_of env line_bound bytes)

  -- `parse_questions` says what the input holds; an error or no question gives nil.
  unfoldable pub read_pending_question_claude :
      {Q : Type 0} → (List ℕ → Option (List Q)) → Option (List ℕ) → Option (String × List Q)
  unfolding last_question
  read_pending_question_claude parse_questions none = none
  read_pending_question_claude parse_questions (some bytes) =
      elim (last_question (entries_of env line_bound bytes)) [
        | none ↦ none
        | some (input, id) ↦ elim (parse_questions input) [
          | none ↦ none
          | some [] ↦ none
          | some (q ∷ qs) ↦ some (id, q ∷ qs)
        ]
      ]

  unfoldable pub has_pending_tool_call : String → Option (List ℕ) → Bool
  unfolding pending_call
  has_pending_tool_call name none = false
  has_pending_tool_call name (some bytes) =
      pending_call name (entries_of env tail_size (tail_of bytes))

  unfoldable pub has_pending_plan_review : Option (List ℕ) → Bool
  unfolding has_pending_tool_call
  has_pending_plan_review = has_pending_tool_call "ExitPlanMode"

  unfoldable pub has_pending_question : Option (List ℕ) → Bool
  unfolding has_pending_tool_call
  has_pending_question = has_pending_tool_call "AskUserQuestion"

  unfoldable pub has_pending_tool_use : Option (List ℕ) → Bool
  unfolding pending_use
  has_pending_tool_use none = false
  has_pending_tool_use (some bytes) = pending_use (entries_of env tail_size (tail_of bytes))
