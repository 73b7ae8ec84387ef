-- ===== src/Conversation/Pending/Examples.antt =====
-- The theorems on pending calls at concrete inputs.
use agent_dashboard.Common.{ℕ, ◌≡◌, ◌↔◌, refl, subst, none, some, List, [], ◌∷◌, ◌++◌, All, str_eq}
use agent_dashboard.Common.Text.{codes}
use agent_dashboard.Domain.{Agent, empty_agent}
use agent_dashboard.State.Arbitration.{is_idle_candidate, arbitrate_agent}
use agent_dashboard.Conversation.{Block, JsonlEntry, entries_of}
use agent_dashboard.Conversation.Samples.{env, parse_line}
use agent_dashboard.Conversation.Pending.{
  message_blocks, is_human_user_entry, has_tool_result_for, last_blocking, last_question,
  line_bound,
}
use agent_dashboard.Conversation.Pending.Latest.{IsLatest}
use agent_dashboard.Conversation.Pending.Tools.{blocks_on, by_human}
use agent_dashboard.Conversation.Pending.Questions.{
  HasInput, HasInputs, asks, answers_it, last_question_iff,
}
use agent_dashboard.Conversation.Pending.Answers.{
  answered_question_blocks, transcripts_of, arbitrate_agent_iff,
}

abbrev entry_at : List ℕ → JsonlEntry
entry_at line = elim (parse_line line) [
  | none ↦ record { type = ""; message = none; timestamp = ""; slug = "" }
  | some e ↦ e
]

abbrev said_hi : JsonlEntry
said_hi = entry_at (codes "uhi")

abbrev question : JsonlEntry
question = entry_at (codes "qwhich?")

abbrev answer : JsonlEntry
answer = entry_at (codes "rthis")

blocks_are : (xs bs : List Block) → some xs ≡ some bs → All HasInput xs → All HasInput bs
blocks_are xs bs h held = let same : xs ≡ bs = cc in subst (All HasInput) same held

said_hi-HasInputs : HasInputs said_hi
unfolding message_blocks
said_hi-HasInputs bs h = cc

question-HasInputs : HasInputs question
unfolding message_blocks
question-HasInputs bs h = blocks_are _ bs h ((λ e n. cc), tt)

answer-HasInputs : HasInputs answer
unfolding message_blocks
answer-HasInputs bs h = blocks_are _ bs h ((λ e n. cc), tt)

last_question_iff_example :
    (last_question (said_hi ∷ question ∷ []) ≡ some (codes "which?", "q"))
    ↔ IsLatest asks answers_it (codes "which?", "q") (said_hi ∷ question ∷ [])
last_question_iff_example =
    last_question_iff (said_hi ∷ question ∷ []) (codes "which?") "q"
      (said_hi-HasInputs, (question-HasInputs, tt))

answered_question_blocks_example :
    (last_question (said_hi ∷ question ∷ answer ∷ []) ≡ none)
    × (last_blocking (said_hi ∷ question ∷ answer ∷ []) ≡ "question")
unfolding blocks_on asks str_eq is_human_user_entry has_tool_result_for
answered_question_blocks_example =
    answered_question_blocks (said_hi ∷ []) question answer (codes "which?") "q"
      (said_hi-HasInputs, (question-HasInputs, (answer-HasInputs, tt))) refl refl refl refl refl
      refl

-- An agent of Claude Code that is idle, with a transcript that ends with a question.
abbrev idle_agent : Agent
idle_agent = record empty_agent { state = "idle_prompt"; session_id = "s"; proj_dir = "p" }

abbrev transcript : List ℕ
transcript = codes "uhi" ++ (b'\n' ∷ codes "qwhich?")

abbrev shown_agent : Agent
shown_agent =
    arbitrate_agent (transcripts_of env (λ dir id. some transcript) (λ root id. "") (λ path. ""))
      "root" idle_agent

arbitrate_agent_iff_example : (shown_agent.state ≡ "question") ↔ (
    (bytes : List ℕ) × (some transcript ≡ some bytes)
    × IsLatest blocks_on by_human "question" (entries_of env line_bound bytes))
unfolding str_eq is_idle_candidate
arbitrate_agent_iff_example =
    arbitrate_agent_iff env (λ dir id. some transcript) (λ root id. "") (λ path. "") "root"
      idle_agent "question" refl refl refl refl refl refl (λ h. cc)
