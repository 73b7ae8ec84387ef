-- ===== src/Conversation/Pending/Answers.antt =====
-- internal/conversation/conversation.go with internal/state/state.go: the transcript's answer in the
-- state that an agent is shown in, and where the readers of a question differ.
use agent_dashboard.Common.{
  ℕ, ◌≡◌, ◌≢◌, ◌↔◌, refl, sym, ◌∙◌, subst, String, true, false, Option, none, some, List, [], ◌∷◌,
  ◌++◌, All, str_eq, str_eq_iff, str_eq_refl, is_empty, non_empty, if◌then◌else◌, arith,
}
use agent_dashboard.Domain.{Agent}
use agent_dashboard.State.Arbitration.{
  Transcripts, transcript_override_for, is_idle_candidate, arbitrate_agent,
}
use agent_dashboard.Conversation.{Env, JsonlEntry, entries_of}
use agent_dashboard.Conversation.Pending.{
  line_bound, is_human_user_entry, has_tool_result_for, answers, last_blocking, last_question,
  last_pending_blocking_tool,
}
use agent_dashboard.Conversation.Pending.Latest.{IsLatest}
use agent_dashboard.Conversation.Pending.Tools.{
  of_type, blocks_on, by_human, tools_named, last_blocking_iff,
}
use agent_dashboard.Conversation.Pending.Questions.{HasInputs, asks, last_question-replied}

-- Where a transcript ends with an entry that asks a question as its last block that blocks, and then
-- a tool result for the id of its first question that is no message of the human:
-- `readPendingQuestionClaude` finds no question, and `LastPendingBlockingTool` still answers
-- "question". Every question has an input.
pub answered_question_blocks :
    (before : List JsonlEntry) (call reply : JsonlEntry) (input : List ℕ) (id : String)
    → All HasInputs (before ++ call ∷ reply ∷ [])
    → blocks_on call ≡ some "question"
    → asks call ≡ some (input, id)
    → of_type reply "assistant" ≡ false
    → of_type reply "user" ≡ true
    → is_human_user_entry reply.message ≡ false
    → has_tool_result_for reply.message id ≡ true
    → (last_question (before ++ call ∷ reply ∷ []) ≡ none)
      × (last_blocking (before ++ call ∷ reply ∷ []) ≡ "question")
unfolding answers blocks_on
answered_question_blocks before call reply input id inputs b q other user machine result = (
  last_question-replied before call reply input id inputs q other (ground arith),
  (last_blocking_iff (before ++ call ∷ reply ∷ []) "question" tools_named.1).1 (record {
    before = before;
    call = call;
    after = reply ∷ [];
    splits = refl;
    calls = b;
    quiet = ((ground arith, ground arith), tt);
  }),
)

-- The transcripts of the sessions of a directory, behind the reader for Claude Code.
abbrev pub transcripts_of :
    Env
    → (String → String → Option (List ℕ))
    → (String → String → String)
    → (String → String)
    → Transcripts
transcripts_of env files locate_rollout codex = record {
  locate_rollout = locate_rollout;
  last_pending_blocking_tool_codex = codex;
  last_pending_blocking_tool = λ dir id. last_pending_blocking_tool env (files dir id);
}

reader_iff :
    (env : Env) (file : Option (List ℕ)) (tool : String)
    → non_empty tool ≡ true
    → (last_pending_blocking_tool env file ≡ tool) ↔ (
        (bytes : List ℕ) × (file ≡ some bytes)
        × IsLatest blocks_on by_human tool (entries_of env line_bound bytes))
unfolding last_pending_blocking_tool
reader_iff env none tool there = (λ h. ground (arith, h, str_eq_refl ""), λ l. cc (l.1))
reader_iff env (some bytes) tool there =
    let (to, from) = last_blocking_iff (entries_of env line_bound bytes) tool there in
    (λ h. (bytes, refl, to h), λ l. from (same_file l.0 l.1 l.2))
  where
    same_file :
        (read : List ℕ)
        → some bytes ≡ some read
        → IsLatest blocks_on by_human tool (entries_of env line_bound read)
        → IsLatest blocks_on by_human tool (entries_of env line_bound bytes)
    same_file read e l =
        let same : read ≡ bytes = cc in
        subst (λ b. IsLatest blocks_on by_human tool (entries_of env line_bound b)) same l

module _ (env : Env) (files : String → String → Option (List ℕ))
    (locate_rollout : String → String → String) (codex : String → String) where
  abbrev answer : Agent → String
  answer a = last_pending_blocking_tool env (files a.proj_dir a.session_id)

  arbitrated :
      (root : String) (a : Agent)
      → str_eq a.harness "codex" ≡ false
      → non_empty a.proj_dir ≡ true
      → non_empty a.session_id ≡ true
      → is_idle_candidate a ≡ true
      → is_empty a.pinned_state ≡ true
      → (arbitrate_agent (transcripts_of env files locate_rollout codex) root a).state
        ≡ (if non_empty (answer a) then answer a else a.state)
  unfolding arbitrate_agent transcript_override_for
  arbitrated root a claude dir session idle pin =
      ground (arith, str_eq_refl "", str_eq_iff (answer a) a.state, str_eq_refl a.state)

  -- An agent of Claude Code with a directory and a session that is idle and has no pin is shown in
  -- a state that is not its own exactly if its transcript can be read, some entry of the assistant
  -- has as its last block that blocks one that stands for the state, a plan or a question, and no
  -- later entry has such a block or is a message of the human.
  pub arbitrate_agent_iff :
      (root : String) (a : Agent) (tool : String)
      → str_eq a.harness "codex" ≡ false
      → non_empty a.proj_dir ≡ true
      → non_empty a.session_id ≡ true
      → is_idle_candidate a ≡ true
      → is_empty a.pinned_state ≡ true
      → non_empty tool ≡ true
      → tool ≢ a.state
      → ((arbitrate_agent (transcripts_of env files locate_rollout codex) root a).state ≡ tool) ↔ (
          (bytes : List ℕ) × (files a.proj_dir a.session_id ≡ some bytes)
          × IsLatest blocks_on by_human tool (entries_of env line_bound bytes))
  arbitrate_agent_iff root a tool claude dir session idle pin there differs =
      let (to, from) = reader_iff env (files a.proj_dir a.session_id) tool there in
      let shown = arbitrated root a claude dir session idle pin in
      (λ h. to (shown_tool (answer a) (sym shown ∙ h)), λ l. shown ∙ tool_shown (answer a) (from l))
    where
      shown_tool : (o : String) → (if non_empty o then o else a.state) ≡ tool → o ≡ tool
      shown_tool o h = ground arith

      tool_shown : (o : String) → o ≡ tool → (if non_empty o then o else a.state) ≡ tool
      tool_shown o h = ground arith
