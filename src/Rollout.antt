-- ===== src/Rollout.antt =====
-- internal/codex/conversation/parser.go: the readers of a rollout, the transcript of Codex:
-- `ReadIncremental` and `Read`, `ReadPlanContent`, `LastPendingBlockingToolCodex` and
-- `ReadPendingQuestion`. The parameter `parse_line` is `json.Unmarshal` of one line, with `none` for an
-- error; fields that a line leaves out are empty. A limit of 0 stands for all that are not positive.
pub mod Lines
pub mod Window
pub mod Increments
pub mod Pending
mod Examples
use mathlib.Core.List.{foldl}
use agent_dashboard.Common.{
  ℕ, ◌-◌, ◌*◌, String, Bool, true, false, not, ◌&&◌, Option, none, some, List, [], ◌∷◌, ◌++◌, map,
  length, drop, any, str_eq, non_empty, ltb, ◌==◌, if◌then◌else◌,
}
use agent_dashboard.Usage.{split_lines, drop_cr}
use agent_dashboard.Usage.{short_lines}
use agent_dashboard.Conversation.{scanned_lines}
use agent_dashboard.Conversation.Texts.{is_nil}
use agent_dashboard.Conversation.Entries.{Role, human, assistant, ConversationEntry, saved_at}
use agent_dashboard.Conversation.Reader.{Look}

pub record Payload : Type 0 where
  pub type : String
  pub message : List ℕ
  pub item_type : String
  pub item_text : List ℕ
  pub name : String
  pub role : String
  pub call_id : String
  pub arguments : List ℕ

pub record RolloutLine : Type 0 where
  pub timestamp : String
  pub type : String
  pub payload : Payload

-- A file that is not there, one that cannot be opened, and what a call sees of another.
pub data Opened : Type 0 where
  missing : Opened
  failed : Opened
  opened : Look → Opened

pub record Read : Type 0 where
  pub entries : List ConversationEntry
  pub offset : ℕ
  pub is_error : Bool

abbrev pub line_bound : ℕ
line_bound = 8 * 1024 * 1024

abbrev pub said : Role → Payload → String → Option ConversationEntry
said role p timestamp =
    if is_nil p.message
    then none
    else some (record {
      role = role;
      content = p.message;
      timestamp = timestamp;
      is_notification = false;
    })

abbrev pub is_plan_item : Payload → Bool
is_plan_item p = str_eq p.type "item_completed" && str_eq p.item_type "Plan"

-- What a line adds to the conversation.
unfoldable pub entry_of : RolloutLine → Option ConversationEntry
entry_of l =
    if not (str_eq l.type "event_msg")
    then none
    else if is_plan_item l.payload
    then some (saved_at l.timestamp)
    else if str_eq l.payload.type "user_message"
    then said human l.payload l.timestamp
    else if str_eq l.payload.type "agent_message"
    then said assistant l.payload l.timestamp
    else none

unfoldable pub keep_last : ℕ → List ConversationEntry → List ConversationEntry
keep_last limit out =
    if ltb 0 limit && ltb limit (length out) then drop (length out - limit) out else out

abbrev pub is_long : List ℕ → Bool
is_long l = not (ltb (length l) line_bound)

-- Whether the scanner ends with an error.
unfoldable pub scan_fails : List ℕ → Bool
unfolding split_lines
scan_fails bytes = any is_long (split_lines bytes)

abbrev pub no_read : Bool → Read
no_read is_error = record { entries = []; offset = 0; is_error = is_error }

module _ (parse_line : List ℕ → Option RolloutLine) where
  unfoldable pub parsed : List (List ℕ) → List RolloutLine
  parsed [] = []
  parsed ([] ∷ ls) = parsed ls
  parsed ((c ∷ l) ∷ ls) =
      let rest = parsed ls in elim (parse_line (c ∷ l)) [ none ↦ rest | some e ↦ e ∷ rest ]

  -- The lines up to the first that is too long.
  unfoldable pub lines_of : List ℕ → List RolloutLine
  unfolding parsed scanned_lines
  lines_of bytes = parsed (scanned_lines line_bound bytes)

  unfoldable pub conversation_of : List RolloutLine → List ConversationEntry
  unfolding entry_of
  conversation_of [] = []
  conversation_of (l ∷ ls) =
      let rest = conversation_of ls in elim (entry_of l) [ none ↦ rest | some e ↦ e ∷ rest ]

  module _ (limit : ℕ) where
    -- From the scanner on.
    unfoldable pub scan_from : ℕ → List ConversationEntry → List ℕ → Read
    unfolding conversation_of lines_of scan_fails keep_last
    scan_from size prev bytes = if scan_fails bytes then no_read true else record {
      entries = keep_last limit (prev ++ conversation_of (lines_of bytes));
      offset = size;
      is_error = false;
    }

    unfoldable pub read_at : Look → List ConversationEntry → ℕ → Read
    unfolding scan_from
    read_at f prev prev_offset =
        if prev_offset == 0
        then scan_from f.size [] f.content
        else if f.seekable
        then scan_from f.size prev (drop prev_offset f.content)
        else if f.rewindable
        then scan_from f.size [] f.content
        else no_read true

    unfoldable pub read_incremental : Opened → List ConversationEntry → ℕ → Read
    unfolding read_at
    read_incremental missing prev prev_offset = no_read false
    read_incremental failed prev prev_offset = no_read true
    read_incremental (opened f) prev prev_offset =
        if ltb f.size prev_offset
        then read_at f [] 0
        else if ltb 0 prev_offset && prev_offset == f.size && ltb 0 (length prev)
        then record { entries = prev; offset = prev_offset; is_error = false }
        else read_at f prev prev_offset

    unfoldable pub read : Opened → List ConversationEntry × Bool
    unfolding read_incremental
    read f = let r = read_incremental f [] 0 in (r.entries, r.is_error)

  abbrev pub plan_text : List ℕ → RolloutLine → List ℕ
  plan_text latest l =
      if not (str_eq l.type "event_msg")
      then latest
      else if not (is_plan_item l.payload)
      then latest
      else if is_nil l.payload.item_text
      then latest
      else l.payload.item_text

  unfoldable pub read_plan_content : Option (List ℕ) → List ℕ
  unfolding lines_of
  read_plan_content none = []
  read_plan_content (some bytes) = foldl plan_text [] (lines_of bytes)

-- The four variables of `LastPendingBlockingToolCodex`.
pub record Blocking : Type 0 where
  pub last_tool : String
  pub human_after : Bool
  pub last_question_cid : String
  pub question_answered : Bool

abbrev pub waits_for : String → String → Blocking
waits_for tool cid = record {
  last_tool = tool;
  human_after = false;
  last_question_cid = cid;
  question_answered = false;
}

unfoldable pub see_response : Blocking → Payload → Blocking
see_response s p =
    if str_eq p.type "function_call"
    then (if str_eq p.name "request_user_input" then waits_for "question" p.call_id else s)
    else if str_eq p.type "function_call_output"
    then (if str_eq s.last_tool "question" && str_eq p.call_id s.last_question_cid
        then record s { question_answered = true }
        else s)
    else if str_eq p.type "message"
    then (if str_eq p.role "user" && non_empty s.last_tool
        then record s { human_after = true }
        else s)
    else s

unfoldable pub see_line : Blocking → RolloutLine → Blocking
unfolding see_response
see_line s l =
    if str_eq l.type "event_msg"
    then (if is_plan_item l.payload then waits_for "plan" "" else s)
    else if str_eq l.type "response_item"
    then see_response s l.payload
    else s

unfoldable pub answer_of : Blocking → String
answer_of s =
    if str_eq s.last_tool "question" && s.question_answered
    then ""
    else if non_empty s.last_tool && not s.human_after
    then s.last_tool
    else ""

unfoldable pub last_blocking : List RolloutLine → String
unfolding see_line answer_of
last_blocking ls = answer_of (foldl see_line (waits_for "" "") ls)

-- The open questions of `ReadPendingQuestion`, each its id and its arguments.
unfoldable pub close : String → List (String × List ℕ) → List (String × List ℕ)
close id [] = []
close id ((i, args) ∷ rest) =
    let kept = close id rest in if str_eq i id then rest else (i, args) ∷ kept

unfoldable pub track : List (String × List ℕ) → RolloutLine → List (String × List ℕ)
unfolding close
track open_calls l =
    if not (str_eq l.type "response_item")
    then open_calls
    else if str_eq l.payload.type "function_call"
    then (if not (str_eq l.payload.name "request_user_input")
        then open_calls
        else open_calls ++ (l.payload.call_id, l.payload.arguments) ∷ [])
    else if str_eq l.payload.type "function_call_output"
    then close l.payload.call_id open_calls
    else open_calls

unfoldable pub last_of : List (String × List ℕ) → Option (String × List ℕ)
last_of [] = none
last_of (p ∷ []) = some p
last_of (p ∷ q ∷ rest) = last_of (q ∷ rest)

unfoldable pub open_question : List RolloutLine → Option (String × List ℕ)
unfolding track last_of
open_question ls = last_of (foldl track [] ls)

module _ (parse_line : List ℕ → Option RolloutLine) where
  unfoldable pub last_pending_blocking_tool_codex : Option (List ℕ) → String
  unfolding last_blocking
  last_pending_blocking_tool_codex none = ""
  last_pending_blocking_tool_codex (some bytes) = last_blocking (lines_of parse_line bytes)

  -- `parse_questions` says what the arguments hold.
  unfoldable pub read_pending_question :
      {Q : Type 0} → (List ℕ → Option (List Q)) → Option (List ℕ) → Option (String × List Q)
  unfolding open_question
  read_pending_question parse_questions none = none
  read_pending_question parse_questions (some bytes) =
      elim (open_question (lines_of parse_line bytes)) [
        | none ↦ none
        | some (id, args) ↦ elim (parse_questions args) [ none ↦ none | some qs ↦ some (id, qs) ]
      ]
