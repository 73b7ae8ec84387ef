-- ===== src/Conversation/Entries.antt =====
-- internal/conversation/conversation.go: what one line of a transcript adds to the conversation,
-- `parseUserEntry`, `parseAssistantEntry` and `extractPlanSavedEntry`, and `markNotifications`.
use agent_dashboard.Common.{
  ℕ, zero, suc, String, Bool, true, false, ◌&&◌, Option, none, some, List, [], ◌∷◌, length, str_eq,
  if◌then◌else◌,
}
use agent_dashboard.Common.Text.{codes}
use agent_dashboard.Conversation.{Env, Block, Content, plain, blocks, malformed, JsonlEntry}
use agent_dashboard.Conversation.Texts.{
  is_nil, starts, contains, join, truncate, clean_slash_command, strip_system_tags,
}

-- The roles that the readers give.
pub data Role : Type 0 where
  human : Role
  assistant : Role
  plan_saved : Role

-- internal/domain/types.go: `ConversationEntry`.
pub record ConversationEntry : Type 0 where
  pub role : Role
  pub content : List ℕ
  pub timestamp : String
  pub is_notification : Bool

abbrev pub is_human : Role → Bool
is_human human = true
is_human assistant = false
is_human plan_saved = false

abbrev pub is_assistant : Role → Bool
is_assistant human = false
is_assistant assistant = true
is_assistant plan_saved = false

abbrev pub is_plan_saved : ConversationEntry → Bool
is_plan_saved e = elim e.role [ human ↦ false | assistant ↦ false | plan_saved ↦ true ]

abbrev pub skill_body_prefix : List ℕ
skill_body_prefix = codes "Base directory for this skill: "

abbrev pub human_limit : ℕ
human_limit = 2000

abbrev pub assistant_limit : ℕ
assistant_limit = 32000

module _ (env : Env) where
  -- The trimmed texts of the text blocks that are not blank.
  unfoldable pub texts_of : List Block → List (List ℕ)
  texts_of [] = []
  texts_of (b ∷ bs) =
      let rest = texts_of bs in
      let t = env.trim_space b.text in
      if str_eq b.type "text" then (if is_nil t then rest else t ∷ rest) else rest

  -- The text of a user's message; empty where the source returns at once.
  unfoldable pub user_text : Option Content → List ℕ
  unfolding texts_of join
  user_text none = []
  user_text (some (plain s)) = env.trim_space s
  user_text (some (blocks bs)) = join (texts_of bs)
  user_text (some malformed) = []

  unfoldable pub shown_text : List ℕ → Option (List ℕ)
  unfolding clean_slash_command strip_system_tags starts truncate
  shown_text text =
      let cleaned = strip_system_tags env.trim_space (clean_slash_command env.trim_space text) in
      if is_nil text
      then none
      else if is_nil cleaned
      then none
      else if starts skill_body_prefix cleaned
      then none
      else some (truncate cleaned human_limit)

  unfoldable pub parse_user_entry : JsonlEntry → Option ConversationEntry
  unfolding shown_text user_text
  parse_user_entry entry = elim (shown_text (user_text entry.message)) [
    | none ↦ none
    | some text ↦ some (record {
      role = human;
      content = text;
      timestamp = entry.timestamp;
      is_notification = false;
    })
  ]

  unfoldable pub assistant_text : List (List ℕ) → String → Option ConversationEntry
  unfolding join truncate
  assistant_text [] timestamp = none
  assistant_text (t ∷ ts) timestamp = some (record {
    role = assistant;
    content = truncate (join (t ∷ ts)) assistant_limit;
    timestamp = timestamp;
    is_notification = false;
  })

  unfoldable pub parse_assistant_entry : JsonlEntry → Option ConversationEntry
  unfolding assistant_text texts_of
  parse_assistant_entry entry = elim entry.message [
    | none ↦ none
    | some (plain s) ↦ none
    | some malformed ↦ none
    | some (blocks bs) ↦ assistant_text (texts_of bs) entry.timestamp
  ]

abbrev pub is_tool_use : Block → String → Bool
is_tool_use b name = str_eq b.type "tool_use" && str_eq b.name name

unfoldable pub has_exit_plan : List Block → Bool
has_exit_plan [] = false
has_exit_plan (b ∷ bs) =
    let rest = has_exit_plan bs in if is_tool_use b "ExitPlanMode" then true else rest

abbrev pub saved_at : String → ConversationEntry
saved_at timestamp = record {
  role = plan_saved;
  content = [];
  timestamp = timestamp;
  is_notification = false;
}

unfoldable pub extract_plan_saved_entry : JsonlEntry → Option ConversationEntry
unfolding has_exit_plan
extract_plan_saved_entry entry = elim entry.message [
  | none ↦ none
  | some (plain s) ↦ none
  | some malformed ↦ none
  | some (blocks bs) ↦ if has_exit_plan bs then some (saved_at entry.timestamp) else none
]

unfoldable pub plan_saved_emitted : List ConversationEntry → Bool
plan_saved_emitted [] = false
plan_saved_emitted (e ∷ es) =
    let rest = plan_saved_emitted es in if is_plan_saved e then true else rest

abbrev pub is_task_notification : ConversationEntry → Bool
is_task_notification e = is_human e.role && contains e.content (codes "<task-notification>")

abbrev pub flagged : ConversationEntry → ConversationEntry
flagged e = record e { is_notification = true }

-- The inner loop: the first answer of the assistant is tagged.
unfoldable pub mark_reply : List ConversationEntry → List ConversationEntry
mark_reply [] = []
mark_reply (e ∷ es) =
    let rest = mark_reply es in if is_assistant e.role then flagged e ∷ es else e ∷ rest

-- The outer loop, with the number of its rounds.
unfoldable pub mark_rounds : ℕ → List ConversationEntry → List ConversationEntry
unfolding mark_reply contains
mark_rounds zero es = es
mark_rounds (suc n) [] = []
mark_rounds (suc n) (e ∷ es) =
    let marked = flagged e ∷ mark_rounds n (mark_reply es) in
    let plain_one = e ∷ mark_rounds n es in if is_task_notification e then marked else plain_one

unfoldable pub mark_notifications : List ConversationEntry → List ConversationEntry
unfolding mark_rounds
mark_notifications es = mark_rounds (length es) es
