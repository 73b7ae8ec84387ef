-- ===== src/Web/Actions/Questions.antt =====
-- internal/web/actions.go: `handleAnswerQuestion`, which answers an agent's question by keys in its
-- pane, and the drivers of both pickers. `Asked` is what the handler knows of the agent: the record
-- of the list, whether the hook has stored a question, the tool that it names, and whether the
-- transcript has an unanswered question. A typed answer is its bytes; `none` stands for a loop
-- that ran out of fuel.
pub mod Sent
pub mod Refusal
mod Examples
use agent_dashboard.Common.{
  ℕ, zero, suc, String, Bool, true, false, not, ◌&&◌, ◌||◌, Option, none, some, List, [], ◌∷◌,
  length, str_eq, is_empty, ◌==◌, if◌then◌else◌,
}
use agent_dashboard.Common.Int.{ℤ, pos, pos_part, ◌+ℤ◌, ltb_ℤ, leb_ℤ}
use agent_dashboard.Common.Decimal.{format_int}
use agent_dashboard.Domain.{Agent}
use agent_dashboard.Tmux.{Runner}
use agent_dashboard.Tmux.Keys.{tmux_send_raw, tmux_send_keys}
use agent_dashboard.Tmux.Panes.{tmux_is_available}
use agent_dashboard.Tmux.Windows.{resolve_target}
use agent_dashboard.Web.Actions.{
  Status, ok, bad_request, not_found, gone, internal_server_error, service_unavailable,
}

pub record AskAnswerEntry : Type 0 where
  pub option_indices : List ℤ
  pub freeform : List ℕ
  pub multi : Bool

pub record AskAnswerRequest : Type 0 where
  pub answers : List AskAnswerEntry
  pub option_counts : List ℤ

pub record Asked : Type 0 where
  pub agent : Agent
  pub pending_question : Bool
  pub current_tool : String
  pub unanswered : Bool

-- internal/web/predicates.go: `PausedOnQuestion`, whether there is a question.
unfoldable pub paused_on_question : Asked → Bool
paused_on_question a =
    if a.pending_question
    then true
    else if is_empty a.agent.session_id || not (str_eq a.agent.state "question")
    then false
    else a.unanswered

abbrev pub is_codex : Asked → Bool
is_codex a = str_eq a.agent.harness "codex"

unfoldable pub want_tool : Asked → String
want_tool a = if is_codex a then "request_user_input" else "AskUserQuestion"

abbrev pub in_range : ℤ → List ℤ → Bool
in_range count [] = true
in_range count (i ∷ indices) = leb_ℤ (pos 0) i && ltb_ℤ i count && in_range count indices

abbrev pub is_nil {ℓ} : {A : Type ℓ} → List A → Bool
is_nil [] = true
is_nil (x ∷ xs) = false

unfoldable pub accepts_entry : ℤ → AskAnswerEntry → Bool
accepts_entry count a =
    ltb_ℤ (pos 0) count
    && not (is_nil a.freeform && is_nil a.option_indices)
    && in_range count a.option_indices

-- The loop of the tests, on two lists of the same length.
unfoldable pub accepts_entries : List AskAnswerEntry → List ℤ → Bool
accepts_entries [] counts = true
accepts_entries (a ∷ answers) [] = false
accepts_entries (a ∷ answers) (count ∷ counts) =
    accepts_entry count a && accepts_entries answers counts

unfoldable pub accepts : AskAnswerRequest → Bool
accepts req =
    not (is_nil req.answers)
    && length req.answers == length req.option_counts
    && accepts_entries req.answers req.option_counts

-- `if err := …; err != nil { return err }` before what follows.
abbrev pub chain : {W : Type 0} → Option (Bool × W) → (W → Option (Bool × W)) → Option (Bool × W)
chain none next = none
chain (some (sent, w)) next = if sent then next w else some (false, w)

-- The option that Codex's picker takes.
abbrev pub picked : List ℤ → ℤ
picked [] = pos 0
picked (i ∷ indices) = i

module _ {W : Type 0} (r : Runner W) (target : String) where
  unfoldable pub press_times : ℕ → String → W → Option (Bool × W)
  press_times zero key w = some (true, w)
  press_times (suc n) key w = chain (some (tmux_send_raw r target key w)) (press_times n key)

  unfoldable pub press_digits : List ℤ → W → Option (Bool × W)
  press_digits [] w = some (true, w)
  press_digits (i ∷ indices) w =
      chain (some (tmux_send_raw r target (format_int (i +ℤ pos 1)) w)) (press_digits indices)

  unfoldable pub ask_entry : ℤ → AskAnswerEntry → W → Option (Bool × W)
  ask_entry count a w =
      if not (is_nil a.freeform)
      then chain (some (tmux_send_raw r target (format_int (count +ℤ pos 1)) w))
          (tmux_send_keys r target a.freeform)
      else chain (press_digits a.option_indices w)
          (λ w'. if a.multi then some (tmux_send_raw r target "Tab" w') else some (true, w'))

  unfoldable pub ask_entries : List AskAnswerEntry → List ℤ → W → Option (Bool × W)
  ask_entries [] counts w = some (true, w)
  ask_entries (a ∷ answers) [] w = some (true, w)
  ask_entries (a ∷ answers) (count ∷ counts) w =
      chain (ask_entry count a w) (ask_entries answers counts)

  unfoldable pub drive_ask_user_question_picker : AskAnswerRequest → W → Option (Bool × W)
  drive_ask_user_question_picker req w =
      chain (ask_entries req.answers req.option_counts w)
        (λ w'. some (tmux_send_raw r target "Enter" w'))

  unfoldable pub input_entry : ℤ → AskAnswerEntry → W → Option (Bool × W)
  input_entry count a w =
      if not (is_nil a.freeform)
      then chain (press_times (pos_part count) "Down" w) (λ w1.
        chain (some (tmux_send_raw r target "Tab" w1)) (tmux_send_keys r target a.freeform))
      else chain (press_times (pos_part (picked a.option_indices)) "Down" w)
          (λ w1. some (tmux_send_raw r target "Enter" w1))

  unfoldable pub drive_codex_request_user_input_picker :
      List AskAnswerEntry → List ℤ → W → Option (Bool × W)
  drive_codex_request_user_input_picker [] counts w = some (true, w)
  drive_codex_request_user_input_picker (a ∷ answers) [] w = some (true, w)
  drive_codex_request_user_input_picker (a ∷ answers) (count ∷ counts) w =
      chain (input_entry count a w) (drive_codex_request_user_input_picker answers counts)

module _ {W : Type 0} (r : Runner W) where
  unfoldable pub drive : Asked → String → AskAnswerRequest → W → Option (Bool × W)
  drive a target req w =
      if is_codex a
      then drive_codex_request_user_input_picker r target req.answers req.option_counts w
      else drive_ask_user_question_picker r target req w

  unfoldable pub deliver : Asked → String → AskAnswerRequest → W → Option (Status × W)
  deliver a target req w = elim (drive a target req w) [
    | none ↦ none
    | some (done, w') ↦
        let aborted = (tmux_send_raw r target "Escape" w').1 in
        if done then some (ok, w') else some (internal_server_error, aborted)
  ]

  unfoldable pub answer_request : Asked → Option AskAnswerRequest → W → Option (Status × W)
  answer_request a none w = some (bad_request, w)
  answer_request a (some req) w =
      let (target, w') = resolve_target r a.agent.tmux_pane_id w in
      let delivered = deliver a target req w' in
      if not (accepts req)
      then some (bad_request, w)
      else if is_empty target
      then some (gone, w')
      else delivered

  -- The agent that the handler finds, and the body as JSON.
  unfoldable pub handle_answer_question :
      Option Asked → Option AskAnswerRequest → W → Option (Status × W)
  handle_answer_question none body w = some (not_found, w)
  handle_answer_question (some a) body w =
      let (available, w') = tmux_is_available r w in
      let answered = answer_request a body w' in
      if not (paused_on_question a)
      then some (bad_request, w)
      else if a.pending_question && not (str_eq a.current_tool (want_tool a))
      then some (bad_request, w)
      else if available
      then answered
      else some (service_unavailable, w')
