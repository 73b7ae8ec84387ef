-- ===== src/Harness/Claude/Words.antt =====
-- The words that a shell reads in the command line of Claude Code.
use Prim.Native.String.{◌++◌}
use agent_dashboard.Common.{
  String, ◌≡◌, refl, true, some, List, [], ◌∷◌, is_empty, non_empty, if◌then◌else◌, Bool-cases, inl,
  inr,
}
use agent_dashboard.Harness.{SpawnOpts, chosen_effort, build_prompt}
use agent_dashboard.Harness.Shell.{
  read, read_char, read-append, shell_words, at_word, at_gap, is_plain, read-plain, read_first,
}
use agent_dashboard.Harness.Injection.{
  Reads, Reads-shell_words, IsFlag, Reads-flag, space, with_option, with_word, Reads-option,
  Reads-word, IsWord, Reads-command,
}
use agent_dashboard.Harness.Claude.{add_effort, spawn_command}

model-IsFlag : IsFlag " --model " "--model"
unfolding read read_char
model-IsFlag ws w = refl

resume-IsFlag : IsFlag " --resume " "--resume"
unfolding read read_char
resume-IsFlag ws w = refl

effort-IsFlag : IsFlag " --effort " "--effort"
unfolding read read_char
effort-IsFlag ws w = refl

variable_name :
    read (at_gap []) "CLAUDE_CODE_EFFORT_LEVEL=" ≡ at_word [] "CLAUDE_CODE_EFFORT_LEVEL="
unfolding read read_char
variable_name = refl

-- The words of the command with an effort.
abbrev pub effort_words : String → String → List String
effort_words command effort =
    if is_empty effort
    then command ∷ []
    else ("CLAUDE_CODE_EFFORT_LEVEL=" ++ effort) ∷ command ∷ "--effort" ∷ effort ∷ []

Reads-effort :
    (command effort : String)
    → IsWord command
    → is_plain effort ≡ true
    → Reads (add_effort effort command) (effort_words command effort)
unfolding add_effort
Reads-effort command effort (n, p) q = elim (Bool-cases (is_empty effort)) [
  | inl e ↦ rw e (Reads-command command (n, p))
  | inr e ↦ rw e (record {
    before = ("CLAUDE_CODE_EFFORT_LEVEL=" ++ effort) ∷ command ∷ "--effort" ∷ [];
    last = effort;
    reading =
        rw
          (
            read-append (at_gap []) "CLAUDE_CODE_EFFORT_LEVEL="
                (effort ++ (" " ++ (command ++ (" --effort " ++ effort)))),
            variable_name,
            read-append (at_word [] "CLAUDE_CODE_EFFORT_LEVEL=") effort
                (" " ++ (command ++ (" --effort " ++ effort))),
            read-plain [] "CLAUDE_CODE_EFFORT_LEVEL=" effort q,
            read-append (at_word [] ("CLAUDE_CODE_EFFORT_LEVEL=" ++ effort)) " "
                (command ++ (" --effort " ++ effort)),
            space [] ("CLAUDE_CODE_EFFORT_LEVEL=" ++ effort),
            read-append (at_gap (("CLAUDE_CODE_EFFORT_LEVEL=" ++ effort) ∷ [])) command
                (" --effort " ++ effort),
            read_first (("CLAUDE_CODE_EFFORT_LEVEL=" ++ effort) ∷ []) command n p,
            read-append (at_word (("CLAUDE_CODE_EFFORT_LEVEL=" ++ effort) ∷ []) command)
                " --effort " effort,
            effort-IsFlag (("CLAUDE_CODE_EFFORT_LEVEL=" ++ effort) ∷ []) command,
          )
          (read_first _ effort e q);
    same = refl;
  })
]

-- The words that `SpawnCommand` means.
abbrev pub claude_words : String → String → String → SpawnOpts → List String
claude_words command skill message opts =
    if non_empty opts.resume_session_id
    then command ∷ "--resume" ∷ opts.resume_session_id ∷ []
    else with_word (build_prompt "/" skill message)
        (with_option "--model" opts.model (effort_words command (chosen_effort skill opts)))

-- Where the command and the chosen effort, which the code does not quote, are words of letters,
-- digits and harmless signs, a shell reads the command line for Claude Code as exactly the words that
-- are meant: whatever the skill, the message, the model and the session id hold, each of them reaches
-- the program whole, in one argument, and nothing in them is run.
pub claude_spawn_command_words :
    (command skill message : String) (opts : SpawnOpts)
    → IsWord command
    → is_plain (chosen_effort skill opts) ≡ true
    → shell_words (spawn_command command skill message opts)
      ≡ some (claude_words command skill message opts)
unfolding spawn_command
claude_spawn_command_words command skill message opts c p =
    elim (Bool-cases (non_empty opts.resume_session_id)) [
      | inl e ↦ rw e (
          Reads-shell_words _ _ (
            Reads-flag " --resume " "--resume" command opts.resume_session_id (command ∷ [])
              resume-IsFlag (Reads-command command c)))
      | inr e ↦ rw e (
          Reads-shell_words _ _ (
            Reads-word _ (build_prompt "/" skill message) _ (
              Reads-option " --model " "--model" _ opts.model _ model-IsFlag
                (Reads-effort command (chosen_effort skill opts) c p))))
    ]
