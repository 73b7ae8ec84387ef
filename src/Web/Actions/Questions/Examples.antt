-- ===== src/Web/Actions/Questions/Examples.antt =====
-- The answers to questions at a concrete runner, which keeps the commands that it was given, the last
-- one first, and prints one target.
use agent_dashboard.Common.{◌≡◌, ◌⊎◌, refl, true, false, some, List, [], ◌∷◌, str_eq}
use agent_dashboard.Common.Int.{pos, ◌+ℤ◌}
use agent_dashboard.Common.Decimal.{itoa, digits_of}
use agent_dashboard.Domain.{empty_agent}
use agent_dashboard.Tmux.{Arg, Runner}
use agent_dashboard.Tmux.Keys.{press, literal, next_chunk}
use agent_dashboard.Tmux.Chunks.{chunks_from}
use agent_dashboard.Web.Actions.{Status}
use agent_dashboard.Web.Actions.Questions.{
  AskAnswerRequest, Asked, accepts, accepts_entries, accepts_entry, handle_answer_question,
}
use agent_dashboard.Web.Actions.Questions.Sent.{answer_calls}
use agent_dashboard.Web.Actions.Questions.Refusal.{
  IsRefused, IsAnswered, handle_answer_question-Ends,
}

abbrev toy_tmux : Runner (List (List Arg))
toy_tmux = record {
  run = λ args w. (true, args ∷ w);
  output = λ args w. (some "main:0.1\n", args ∷ w);
}

-- A question of Claude Code with two options, the second picked, and one with a typed answer.
abbrev request : AskAnswerRequest
request = record {
  answers =
      record { option_indices = pos 1 ∷ []; freeform = []; multi = true }
      ∷ record { option_indices = []; freeform = 104 ∷ 105 ∷ []; multi = false }
      ∷ [];
  option_counts = pos 2 ∷ pos 3 ∷ [];
}

abbrev asked : Asked
asked = record {
  agent = record empty_agent { session_id = "s1"; tmux_pane_id = "%1"; state = "question" };
  pending_question = true;
  current_tool = "AskUserQuestion";
  unanswered = false;
}

handle_answer_question-Ends_example :
    (p : Status × List (List Arg)) × (handle_answer_question toy_tmux (some asked) (some request) []
      ≡ some p)
    × (IsRefused toy_tmux asked [] p ⊎ IsAnswered toy_tmux asked (some request) [] p)
handle_answer_question-Ends_example = handle_answer_question-Ends toy_tmux asked (some request) []

keys_test :
    answer_calls asked "main:0.1" request
    ≡ press "main:0.1" "2"
      ∷ press "main:0.1" "Tab"
      ∷ press "main:0.1" "4"
      ∷ literal "main:0.1" (104 ∷ 105 ∷ [])
      ∷ press "main:0.1" "Enter"
      ∷ press "main:0.1" "Enter"
      ∷ []
unfolding str_eq chunks_from next_chunk itoa digits_of ◌+ℤ◌
keys_test = refl

-- A pick that is no option.
abbrev wrong : AskAnswerRequest
wrong = record {
  answers = record { option_indices = pos 2 ∷ []; freeform = []; multi = false } ∷ [];
  option_counts = pos 2 ∷ [];
}

wrong_test : accepts wrong ≡ false
unfolding accepts accepts_entries accepts_entry
wrong_test = refl
