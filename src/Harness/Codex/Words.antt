-- ===== src/Harness/Codex/Words.antt =====
-- The words that a shell reads in the command line of Codex.
use Prim.Native.String.{◌++◌}
use agent_dashboard.Common.{
  String, ◌≡◌, refl, true, some, List, [], ◌∷◌, str_eq, is_empty, non_empty, if◌then◌else◌,
  Bool-cases, inl, inr,
}
use agent_dashboard.Harness.{SpawnOpts, chosen_effort, build_prompt}
use agent_dashboard.Harness.Shell.{
  read, read_char, read-append, shell_words, at_word, at_gap, is_plain, read-plain, read_first,
}
use agent_dashboard.Harness.Injection.{
  Reads, Reads-shell_words, IsFlag, Reads-flag, with_option, with_word, Reads-option, Reads-word,
  IsWord, Reads-command,
}
use agent_dashboard.Harness.Codex.{map_effort, add_effort, spawn_command}

model-IsFlag : IsFlag " --model " "--model"
unfolding read read_char
model-IsFlag ws w = refl

resume-IsFlag : IsFlag " resume " "resume"
unfolding read read_char
resume-IsFlag ws w = refl

approval-IsFlag : IsFlag " -a " "-a"
unfolding read read_char
approval-IsFlag ws w = refl

sandbox-IsFlag : IsFlag " -s " "-s"
unfolding read read_char
sandbox-IsFlag ws w = refl

config_flag :
    (w : String)
    → read (at_word [] w) " -c model_reasoning_effort="
      ≡ at_word (w ∷ "-c" ∷ []) "model_reasoning_effort="
unfolding read read_char
config_flag w = refl

map_effort_plain : (effort : String) → is_plain effort ≡ true → is_plain (map_effort effort) ≡ true
unfolding map_effort
map_effort_plain effort h = elim (Bool-cases (str_eq effort "max")) [
  | inl e ↦ rw e refl
  | inr e ↦ rw e h
]

-- The words of the command with an effort; Codex has no level above `high`.
abbrev pub effort_words : String → String → List String
effort_words command effort =
    if is_empty effort
    then command ∷ []
    else command
      ∷ "-c"
      ∷ ("model_reasoning_effort=" ++ (if str_eq effort "max" then "high" else effort))
      ∷ []

Reads-effort :
    (command effort : String)
    → IsWord command
    → is_plain effort ≡ true
    → Reads (add_effort effort command) (effort_words command effort)
unfolding add_effort
Reads-effort command effort (n, p) q = elim (Bool-cases (is_empty effort)) [
  | inl e ↦ rw e (Reads-command command (n, p))
  | inr e ↦ rw e (record {
    before = command ∷ "-c" ∷ [];
    last = "model_reasoning_effort=" ++ map_effort effort;
    reading =
        rw
          (
            read-append (at_gap []) (command ++ " -c model_reasoning_effort=") (map_effort effort),
            read-append (at_gap []) command " -c model_reasoning_effort=",
            read_first [] command n p,
            config_flag command,
          )
          (read-plain (command ∷ "-c" ∷ []) "model_reasoning_effort=" (map_effort effort)
            (map_effort_plain effort q));
    same = unfold map_effort in refl;
  })
]

-- The words that `SpawnCommand` means.
abbrev pub codex_words : String → String → String → SpawnOpts → List String
codex_words command skill message opts =
    if non_empty opts.resume_session_id
    then command ∷ "resume" ∷ opts.resume_session_id ∷ []
    else with_word (build_prompt "$agent-dashboard:" skill message) (
        with_option "-s" opts.sandbox (
          with_option "-a" opts.approval
            (with_option "--model" opts.model (effort_words command (chosen_effort skill opts)))))

-- Where the command and the chosen effort, which the code does not quote, are words of letters,
-- digits and harmless signs, a shell reads the command line for Codex as exactly the words that are
-- meant: whatever the skill, the message, the model, the approval, the sandbox and the session id
-- hold, each of them reaches the program whole, in one argument, and nothing in them is run.
pub codex_spawn_command_words :
    (command skill message : String) (opts : SpawnOpts)
    → IsWord command
    → is_plain (chosen_effort skill opts) ≡ true
    → shell_words (spawn_command command skill message opts)
      ≡ some (codex_words command skill message opts)
unfolding spawn_command
codex_spawn_command_words command skill message opts c p =
    elim (Bool-cases (non_empty opts.resume_session_id)) [
      | inl e ↦ rw e (
          Reads-shell_words _ _ (
            Reads-flag " resume " "resume" command opts.resume_session_id (command ∷ [])
              resume-IsFlag (Reads-command command c)))
      | inr e ↦ rw e (
          Reads-shell_words _ _ (
            Reads-word _ (build_prompt "$agent-dashboard:" skill message) _ (
              Reads-option " -s " "-s" _ opts.sandbox _ sandbox-IsFlag (
                Reads-option " -a " "-a" _ opts.approval _ approval-IsFlag (
                  Reads-option " --model " "--model" _ opts.model _ model-IsFlag
                    (Reads-effort command (chosen_effort skill opts) c p))))))
    ]
