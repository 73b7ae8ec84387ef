-- ===== src/Domain.antt =====
-- internal/domain/types.go: the agent record that the packages share, and the state groups.
-- Kept are the fields that the modelled functions read or write; no modelled function touches the
-- others. A Go string is a text, `""` included; window and pane indices of tmux are never negative.
use agent_dashboard.Common.{ℕ, String, Bool, false, List, str_eq, non_empty, if◌then◌else◌}

pub record Agent : Type 0 where
  pub target : String
  pub session : String
  pub window : ℕ
  pub pane : ℕ
  pub state : String
  pub cwd : String
  pub branch : String
  pub session_id : String
  pub tmux_pane_id : String
  pub tmux_server_pid : String
  pub updated_at : String
  pub worktree_cwd : String
  pub pinned_state : String
  pub proj_dir : String
  pub harness : String
  pub resumable : Bool
  pub trust_prompt_detected : Bool

-- Go's zero value.
abbrev pub empty_agent : Agent
empty_agent = record {
  target = "";
  session = "";
  window = 0;
  pane = 0;
  state = "";
  cwd = "";
  branch = "";
  session_id = "";
  tmux_pane_id = "";
  tmux_server_pid = "";
  updated_at = "";
  worktree_cwd = "";
  pinned_state = "";
  proj_dir = "";
  harness = "";
  resumable = false;
  trust_prompt_detected = false;
}

-- `map[string]Agent`. The order of the list stands for the order of one `range` loop, which Go
-- leaves open.
abbrev pub StateFile : Type 0
StateFile = List (String × Agent)

unfoldable pub effective_dir : Agent → String
effective_dir a = if non_empty a.worktree_cwd then a.worktree_cwd else a.cwd

abbrev pub resumable_priority : ℕ
resumable_priority = 7

-- A read of the map `StatePriority`; a missing key reads as 0.
unfoldable pub state_priority : String → ℕ
state_priority s =
    if str_eq s "permission"
    then 1
    else if str_eq s "plan"
    then 1
    else if str_eq s "question"
    then 2
    else if str_eq s "error"
    then 2
    else if str_eq s "running"
    then 3
    else if str_eq s "idle_prompt"
    then 4
    else if str_eq s "done"
    then 4
    else if str_eq s "pr"
    then 5
    else if str_eq s "merged"
    then 6
    else 0

pub record PaneTarget : Type 0 where
  pub session : String
  pub window : ℕ
  pub pane : ℕ
  pub target : String
