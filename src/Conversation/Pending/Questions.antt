-- ===== src/Conversation/Pending/Questions.antt =====
-- internal/conversation/conversation.go: which question `readPendingQuestionClaude` and which call
-- `hasPendingToolCall` finds, in terms of the entries of the transcript.
use mathlib.Core.List.{foldl}
use agent_dashboard.Common.{
  ℕ, ◌≡◌, ◌≢◌, ◌↔◌, refl, ◌∙◌, String, Bool, true, false, not, ◌&&◌, Option, none, some, List, [],
  ◌∷◌, ◌++◌, All, str_eq, inl, inr, if◌then◌else◌, arith, Bool-cases, Option-cases,
}
use agent_dashboard.Conversation.{Block, JsonlEntry}
use agent_dashboard.Conversation.Entries.{is_tool_use}
use agent_dashboard.Conversation.Pending.{
  message_blocks, tool_use_id, answers, Asked, keep_input, ask_block, question_entry, last_question,
  Called, uses_tool, call_entry, pending_call,
}
use agent_dashboard.Conversation.Pending.Latest.{
  keep_latest, IsLatest, view-IsLatest, view-foldl, foldl-answered, Anything, All-Anything,
}
use agent_dashboard.Conversation.Pending.Tools.{of_type}

-- The input of the last question among the blocks.
unfoldable pub question_in : List Block → Option (List ℕ)
question_in [] = none
question_in (b ∷ bs) = elim (question_in bs) [
  | some input ↦ some input
  | none ↦ if is_tool_use b "AskUserQuestion" then some b.input else none
]

-- The last question of an entry of the assistant, with the id of its first.
unfoldable pub asks : JsonlEntry → Option (List ℕ × String)
unfolding question_in tool_use_id message_blocks
asks e =
    if of_type e "assistant"
    then elim (message_blocks e) [
      | none ↦ none
      | some bs ↦ elim (question_in bs) [ none ↦ none | some input ↦ some (input, tool_use_id bs) ]
    ]
    else none

-- A message of the user that is no list of results, or has the result of the call.
abbrev pub replies : String → JsonlEntry → Bool
replies id e = not (of_type e "assistant") && of_type e "user" && answers e.message id

abbrev pub answers_it : List ℕ × String → JsonlEntry → Bool
answers_it p e = replies p.1 e

-- Every question has an input.
abbrev pub HasInput : Block → Type 0
HasInput b = is_tool_use b "AskUserQuestion" ≡ true → b.input ≢ []

abbrev pub HasInputs : JsonlEntry → Type 0
HasInputs e = (bs : List Block) → message_blocks e ≡ some bs → All HasInput bs

abbrev asked : Asked → Option (List ℕ × String)
asked s = elim s.last_input [
  | none ↦ none
  | some input ↦ if s.human_after then none else some (input, s.last_id)
]

abbrev with_question : List ℕ → String → Asked
with_question input id = record { last_input = some input; last_id = id; human_after = false }

keep_input-some :
    (old : Option (List ℕ)) (input : List ℕ) → input ≢ [] → keep_input old input ≡ some input
unfolding keep_input
keep_input-some none [] h = absurd (h refl)
keep_input-some none (c ∷ s) h = refl
keep_input-some (some old) input h = refl

ask_block-eq :
    (id : String) (s : Asked) (b : Block)
    → HasInput b
    → ask_block id s b ≡ (if is_tool_use b "AskUserQuestion" then with_question b.input id else s)
unfolding ask_block
ask_block-eq id s b h = elim (Bool-cases (is_tool_use b "AskUserQuestion")) [
  | inl asks ↦ ground (arith, keep_input-some s.last_input b.input (h asks))
  | inr other ↦ ground arith
]

ask_blocks-eq :
    (id : String) (s : Asked) (bs : List Block)
    → All HasInput bs
    → foldl (ask_block id) s bs
      ≡ elim (question_in bs) [ none ↦ s | some input ↦ with_question input id ]
unfolding question_in
ask_blocks-eq id s [] h = refl
ask_blocks-eq id s (b ∷ bs) (h, hs) =
    ground (arith, ask_block-eq id s b h, ask_blocks-eq id (ask_block id s b) bs hs)

asked-question_entry :
    (s : Asked) (e : JsonlEntry)
    → HasInputs e
    → asked (question_entry s e) ≡ keep_latest asks answers_it (asked s) e
unfolding question_entry keep_latest asks
asked-question_entry s e inputs = elim (Bool-cases (str_eq e.type "assistant")) [
  | inr other ↦ ground arith
  | inl a ↦ elim (Option-cases (message_blocks e)) [
    | inl n ↦ ground (arith, n)
    | inr (bs, m) ↦ ground (arith, m, ask_blocks-eq (tool_use_id bs) s bs (inputs bs m))
  ]
]

-- For every transcript whose questions have an input: a question is left, with its input and an id,
-- exactly if it is the last question of some entry of the assistant, the id is that of the first
-- question there, and no later entry asks one, is a message of the human, or has a result for that
-- id.
pub last_question_iff :
    (es : List JsonlEntry) (input : List ℕ) (id : String)
    → All HasInputs es
    → (last_question es ≡ some (input, id)) ↔ IsLatest asks answers_it (input, id) es
unfolding last_question
last_question_iff es input id inputs =
    let start : Asked = record { last_input = none; last_id = ""; human_after = false } in
    view-IsLatest asks answers_it question_entry asked HasInputs asked-question_entry start es
      (input, id) inputs refl

no_question : (e : JsonlEntry) → of_type e "assistant" ≡ false → asks e ≡ none
unfolding asks
no_question e h = ground arith

-- A question that the next and last entry replies to is not left.
pub last_question-replied :
    (before : List JsonlEntry) (call reply : JsonlEntry) (input : List ℕ) (id : String)
    → All HasInputs (before ++ call ∷ reply ∷ [])
    → asks call ≡ some (input, id)
    → of_type reply "assistant" ≡ false
    → replies id reply ≡ true
    → last_question (before ++ call ∷ reply ∷ []) ≡ none
unfolding last_question
last_question-replied before call reply input id inputs c other r =
    let start : Asked = record { last_input = none; last_id = ""; human_after = false } in
    view-foldl asks answers_it question_entry asked HasInputs asked-question_entry start
      (before ++ call ∷ reply ∷ []) inputs
    ∙ foldl-answered asks answers_it before call reply (input, id) c (no_question reply other) r

-- The call of a tool by the assistant, as the id that its results are compared with.
unfoldable pub calls_tool : String → JsonlEntry → Option String
unfolding uses_tool tool_use_id message_blocks
calls_tool name e =
    if of_type e "assistant"
    then elim (message_blocks e) [
      | none ↦ none
      | some bs ↦ if uses_tool name bs then some (tool_use_id bs) else none
    ]
    else none

abbrev called : Called → Option String
called s = if s.found && not s.human_after then some s.last_id else none

called-call_entry :
    (name : String) (s : Called) (e : JsonlEntry)
    → called (call_entry name s e) ≡ keep_latest (calls_tool name) replies (called s) e
unfolding call_entry keep_latest calls_tool
called-call_entry name s e = elim (Bool-cases (str_eq e.type "assistant")) [
  | inr other ↦ ground arith
  | inl a ↦ elim (Option-cases (message_blocks e)) [
    | inl n ↦ ground (arith, n)
    | inr (bs, m) ↦ ground (arith, m)
  ]
]

pub pending_call_iff :
    (name : String) (es : List JsonlEntry)
    → (pending_call name es ≡ true) ↔ ((id : String) × IsLatest (calls_tool name) replies id es)
unfolding pending_call
pending_call_iff name es =
    let start : Called = record { found = false; human_after = false; last_id = "" } in
    let latest = λ (id : String).
      view-IsLatest (calls_tool name) replies (call_entry name) called Anything
        (λ s e g. called-call_entry name s e) start es id (All-Anything es) refl in
    (
      λ h. (
        (foldl (call_entry name) start es).last_id,
        (latest (foldl (call_entry name) start es).last_id).0
            (held (foldl (call_entry name) start es) h),
      ),
      λ l. shown (foldl (call_entry name) start es) l.0 ((latest l.0).1 l.1),
    )
  where
    held : (s : Called) → (s.found && not s.human_after) ≡ true → called s ≡ some s.last_id
    held s h = ground arith

    shown : (s : Called) (id : String) → called s ≡ some id → (s.found && not s.human_after) ≡ true
    shown s id h = ground arith
