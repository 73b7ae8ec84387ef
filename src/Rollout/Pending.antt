-- ===== src/Rollout/Pending.antt =====
-- internal/codex/conversation/parser.go: what `LastPendingBlockingToolCodex` finds, in terms of the
-- lines of the rollout.
use mathlib.Core.List.{foldl}
use agent_dashboard.Common.{
  ℕ, ◌≡◌, ◌↔◌, refl, String, Bool, true, false, not, ◌&&◌, ◌||◌, Option, none, some, List, str_eq,
  str_eq_refl, str_eq_iff, non_empty, inl, inr, if◌then◌else◌, arith, Bool-cases,
}
use agent_dashboard.Conversation.Pending.Latest.{
  keep_latest, IsLatest, view-IsLatest, Anything, All-Anything,
}
use agent_dashboard.Conversation.Pending.Tools.{tools_named}
use agent_dashboard.Rollout.{
  RolloutLine, is_plan_item, Blocking, waits_for, see_response, see_line, answer_of, last_blocking,
  lines_of, last_pending_blocking_tool_codex,
}

abbrev pub is_event : RolloutLine → Bool
is_event l = str_eq l.type "event_msg"

abbrev pub is_response : RolloutLine → String → Bool
is_response l type = not (is_event l) && str_eq l.type "response_item" && str_eq l.payload.type type

-- The tool that a line waits for, and the id of its call.
unfoldable pub blocks_on : RolloutLine → Option (String × String)
blocks_on l =
    if is_event l && is_plan_item l.payload
    then some ("plan", "")
    else if is_response l "function_call" && str_eq l.payload.name "request_user_input"
    then some ("question", l.payload.call_id)
    else none

-- A message of the user, and for a question the output of its call.
abbrev pub releases : String × String → RolloutLine → Bool
releases p l =
    (is_response l "message" && str_eq l.payload.role "user")
    || (str_eq p.0 "question"
        && is_response l "function_call_output"
        && str_eq l.payload.call_id p.1)

abbrev waiting : Blocking → Option (String × String)
waiting s =
    if str_eq s.last_tool "question" && s.question_answered
    then none
    else if non_empty s.last_tool && not s.human_after
    then some (s.last_tool, s.last_question_cid)
    else none

types_differ :
    (str_eq "function_call" "function_call_output" ≡ false)
    × (str_eq "function_call" "message" ≡ false)
    × (str_eq "function_call_output" "message" ≡ false)
    × (str_eq "plan" "question" ≡ false)
    × (str_eq "event_msg" "response_item" ≡ false)
unfolding str_eq
types_differ = (refl, refl, refl, refl, refl)

-- A text that is one is not the other.
only : (t a b : String) → str_eq a b ≡ false → str_eq t a ≡ true → str_eq t b ≡ false
only t a b differ h = rw ((str_eq_iff t a).0 h) differ

waiting-see_response :
    (s : Blocking) (l : RolloutLine)
    → is_event l ≡ false
    → str_eq l.type "response_item" ≡ true
    → waiting (see_response s l.payload) ≡ keep_latest blocks_on releases (waiting s) l
unfolding see_response keep_latest blocks_on
waiting-see_response s l e r =
    let t = l.payload.type in
    let (call_output, call_message, output_message, plan_question, event_response) = types_differ in
    elim (Bool-cases (str_eq t "function_call")) [
      | inl call ↦
          let no_output = only t "function_call" "function_call_output" call_output call in
          let no_message = only t "function_call" "message" call_message call in
          ground (arith, tools_named.1)
      | inr no_call ↦ elim (Bool-cases (str_eq t "function_call_output")) [
        | inl output ↦
            let no_message = only t "function_call_output" "message" output_message output in
            ground arith
        | inr no_output ↦ ground arith
      ]
    ]

waiting-see_line :
    (s : Blocking) (l : RolloutLine)
    → waiting (see_line s l) ≡ keep_latest blocks_on releases (waiting s) l
unfolding see_line keep_latest blocks_on
waiting-see_line s l = elim (Bool-cases (is_event l)) [
  | inl e ↦ ground (arith, tools_named.0, types_differ.3)
  | inr n ↦ elim (Bool-cases (str_eq l.type "response_item")) [
    | inl r ↦ rw (n, r) (waiting-see_response s l n r)
    | inr o ↦ ground arith
  ]
]

-- For every rollout that can be read, and each text that is not empty: `LastPendingBlockingToolCodex`
-- answers it exactly if some line hands over a plan, or asks the user, as the text says, and no
-- later line does either, is a message of the user, or for a question has the output of its call.
pub last_pending_blocking_tool_codex_iff :
    (parse_line : List ℕ → Option RolloutLine) (bytes : List ℕ) (tool : String)
    → non_empty tool ≡ true
    → (last_pending_blocking_tool_codex parse_line (some bytes) ≡ tool)
      ↔ ((id : String) × IsLatest blocks_on releases (tool, id) (lines_of parse_line bytes))
unfolding last_pending_blocking_tool_codex last_blocking
last_pending_blocking_tool_codex_iff parse_line bytes tool there =
    let ls = lines_of parse_line bytes in
    let start = waits_for "" "" in
    let last = foldl see_line start ls in
    let latest = λ (p : String × String).
      view-IsLatest blocks_on releases see_line waiting Anything (λ s l g. waiting-see_line s l)
        start ls p (All-Anything ls) start_empty in
    (
      λ h. (last.last_question_cid, (latest (tool, last.last_question_cid)).0 (answered last h)),
      λ l. shown last l.0 ((latest (tool, l.0)).1 l.1),
    )
  where
    start_empty : waiting (waits_for "" "") ≡ none
    start_empty = ground (arith, str_eq_refl "")

    answered : (s : Blocking) → answer_of s ≡ tool → waiting s ≡ some (tool, s.last_question_cid)
    answered s h = ground (arith, str_eq_refl "")

    shown : (s : Blocking) (id : String) → waiting s ≡ some (tool, id) → answer_of s ≡ tool
    shown s id h = ground arith
