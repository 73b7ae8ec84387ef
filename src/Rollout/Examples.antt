-- ===== src/Rollout/Examples.antt =====
-- The theorems on rollouts at concrete inputs, and tests by evaluation. A line of the examples is a
-- letter and a text: `u` and `a` are messages, `p` is a plan, `q` a question and `o` its output, each
-- with the text as the id.
use agent_dashboard.Common.{
  ℕ, ◌≡◌, ◌↔◌, refl, String, true, Option, none, some, List, [], ◌∷◌, ◌++◌, map, str_eq, inl, inr,
  ◌==◌, if◌then◌else◌, arith,
}
use agent_dashboard.Common.Text.{codes}
use agent_dashboard.Usage.{split_lines, drop_cr}
use agent_dashboard.Conversation.Pending.Latest.{IsLatest}
use agent_dashboard.Conversation.Reader.Increments.{Version, look_at}
use agent_dashboard.Rollout.{RolloutLine, opened, lines_of, read, last_pending_blocking_tool_codex}
use agent_dashboard.Rollout.Increments.{full, read_versions, read_versions-full_rollout}
use agent_dashboard.Rollout.Pending.{blocks_on, releases, last_pending_blocking_tool_codex_iff}

abbrev line_of : String → String → List ℕ → RolloutLine
line_of outer inner s = record {
  timestamp = "now";
  type = outer;
  payload = record {
    type = inner;
    message = s;
    item_type = "Plan";
    item_text = s;
    name = "request_user_input";
    role = "user";
    call_id = "c";
    arguments = s;
  };
}

abbrev parse_line : List ℕ → Option RolloutLine
parse_line [] = none
parse_line (c ∷ s) =
    if c == b'u'
    then some (line_of "event_msg" "user_message" s)
    else if c == b'a'
    then some (line_of "event_msg" "agent_message" s)
    else if c == b'p'
    then some (line_of "event_msg" "item_completed" s)
    else if c == b'q'
    then some (line_of "response_item" "function_call" s)
    else if c == b'o'
    then some (line_of "response_item" "function_call_output" s)
    else none

abbrev line : String → List ℕ
line s = codes s ++ b'\n' ∷ []

abbrev version : List ℕ → Version
version content = record { content = content; seekable = true }

abbrev begun : Version
begun = version (line "uhi" ++ line "pdo it")

abbrev grown : Version
grown = version ((line "uhi" ++ line "pdo it") ++ line "ayes")

read_example :
    map (λ e. e.content) (read parse_line 2 (opened (look_at grown))).0 ≡ [] ∷ codes "yes" ∷ []
unfolding read split_lines drop_cr str_eq
read_example = refl

read_versions-full_rollout_example :
    read_versions parse_line 2 (begun ∷ grown ∷ begun ∷ []) [] 0
    ≡ map (full parse_line 2) (begun ∷ grown ∷ begun ∷ [])
read_versions-full_rollout_example =
    read_versions-full_rollout parse_line 2 begun (grown ∷ begun ∷ [])
      (inr (inr (refl, line "ayes", refl)), (inr (inl (omega arith)), tt))

last_pending_blocking_tool_codex_iff_example :
    (last_pending_blocking_tool_codex parse_line (some begun.content) ≡ "plan")
    ↔ ((id : String) × IsLatest blocks_on releases ("plan", id) (lines_of parse_line begun.content))
unfolding str_eq
last_pending_blocking_tool_codex_iff_example =
    last_pending_blocking_tool_codex_iff parse_line begun.content "plan" refl

-- A plan that no one has answered is not reported behind a question that is.
plan_behind_question :
    last_pending_blocking_tool_codex parse_line
      (some (line "pdo" ++ (line "qwhich" ++ line "othis")))
    ≡ ""
unfolding last_pending_blocking_tool_codex lines_of split_lines drop_cr str_eq
plan_behind_question = refl
