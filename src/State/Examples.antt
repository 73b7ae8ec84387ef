-- ===== src/State/Examples.antt =====
-- The theorems of this tree at concrete inputs, and tests of the definitions by evaluation.
use Prim.Native.String.{◌++◌}
use agent_dashboard.Common.{
  ℕ, ◌<◌, String, ◌≡◌, ◌↔◌, Any, refl, ◌≢◌, map, count_by, Bool, true, false, Option, none, some,
  [], ◌∷◌, length, str_eq, str_eq_iff, arith, if◌then◌else◌,
}
use agent_dashboard.Common.Dict.{lookup, map_values}
use agent_dashboard.Common.Text.{trim_space}
use agent_dashboard.Domain.{Agent, StateFile, empty_agent}
use agent_dashboard.State.Arbitration.{
  Transcripts, apply_state_arbitration, transcript_override_for,
}
use agent_dashboard.State.Order.{agent_less, sort_priority, sorted_agents}
use agent_dashboard.State.Order.Sorted.{IsSorted, count_listed, sorted_agents_correct}
use agent_dashboard.State.Disk.{
  text, Fields, DirEntry, Directory, text_of, number_of, unmarshal_agent, unmarshal_reported,
  read_entry, read_file, pin_agent_state, ◌>>=◌,
}
use agent_dashboard.State.Disk.Stamp.{pin_agent_state_read_back}
use agent_dashboard.State.Disk.Read.{HasDistinctNames}
use agent_dashboard.State.Orphan.{is_resumable_orphan}
use agent_dashboard.State.Prune.{AgentFile, agent_files, newest_per_pane, is_duplicate, prune_dead}
use agent_dashboard.State.Prune.Safety.{prune_dead_leaves_one}
use agent_dashboard.State.Prune.Newest.{NewerThan, is_duplicate_iff}
use agent_dashboard.State.Branches.Pins.{Refresh, refreshes, refreshes_keep_pin}
use agent_dashboard.State.Markers.{
  Worktree, Markers, World, Store, canonical_path, owner, claim_marker, find_marked, find_at,
  claim_at, resolve_in, resolve_worktree, resolve_agent_worktree,
}
use agent_dashboard.State.Markers.Owners.{
  Extends, Resolved, claim_marker_exclusive, resolve_agent_worktree-Resolved,
}

-- Two agents: one idle with a pin, one running.
abbrev idle : Agent
idle = record empty_agent {
  state = "idle_prompt";
  session_id = "s1";
  tmux_pane_id = "%1";
  pinned_state = "pr";
  proj_dir = "/p";
}

abbrev running : Agent
running = record empty_agent { state = "running"; session_id = "s2"; tmux_pane_id = "%2" }

abbrev two_agents : StateFile
two_agents = ("s1", idle) ∷ ("s2", running) ∷ []

abbrev plan_pending : Transcripts
plan_pending = record {
  locate_rollout = λ root sid. "";
  last_pending_blocking_tool_codex = λ path. "";
  last_pending_blocking_tool = λ dir sid. "plan";
}

-- The pin wins over the pending plan.
arbitrated :
    apply_state_arbitration plan_pending "" two_agents
    ≡ ("s1", record idle { state = "pr" }) ∷ ("s2", running) ∷ []
unfolding apply_state_arbitration map_values transcript_override_for str_eq
arbitrated = refl

sorted_agents_correct_example :
    IsSorted (sorted_agents two_agents "%9")
    × ((p : Agent → Bool)
        → count_by p (sorted_agents two_agents "%9") ≡ count_listed p "%9" two_agents)
sorted_agents_correct_example = sorted_agents_correct two_agents "%9"

sorted_two : sorted_agents two_agents "%9" ≡ running ∷ idle ∷ []
unfolding sorted_agents agent_less sort_priority str_eq
sorted_two = refl

abbrev entry : String → Fields → DirEntry
entry name fs = record { name = name; is_dir = false; content = some fs }

abbrev fields : String → String → String → Fields
fields sid pane at =
    ("session_id", text sid)
    ∷ ("tmux_pane_id", text pane)
    ∷ ("updated_at", text at)
    ∷ ("state", text "running")
    ∷ []

abbrev directory : Directory
directory =
    entry "s1.json" (fields "s1" "%1" "t1")
    ∷ entry "s2.json" (fields "s2" "%1" "t2")
    ∷ entry "s3.json" (fields "s3" "%3" "t1")
    ∷ entry "notes.txt" []
    ∷ []

directory-HasDistinctNames : HasDistinctNames directory
unfolding str_eq
directory-HasDistinctNames =
    ((refl, (refl, (refl, tt))), ((refl, (refl, tt)), ((refl, tt), (tt, tt))))

abbrev first_agent : Agent
first_agent = record empty_agent {
  session_id = "s1";
  tmux_pane_id = "%1";
  updated_at = "t1";
  state = "running";
}

unmarshal_first : unmarshal_agent (fields "s1" "%1" "t1") ≡ some first_agent
unfolding unmarshal_agent unmarshal_reported text_of number_of lookup str_eq
unmarshal_first = refl

read_first : read_file ("s1" ++ ".json") directory ≡ some (fields "s1" "%1" "t1")
unfolding read_file str_eq
read_first = refl

pin_agent_state_read_back_example :
    ((pin_agent_state "s1" "pr" directory).1 ≡ true)
    × ((read_file ("s1" ++ ".json") (pin_agent_state "s1" "pr" directory).0 >>= unmarshal_agent)
        ≡ some (record first_agent { pinned_state = "pr" }))
    × ((other : String)
        → str_eq ("s1" ++ ".json") other ≡ false
        → read_file other (pin_agent_state "s1" "pr" directory).0 ≡ read_file other directory)
pin_agent_state_read_back_example =
    pin_agent_state_read_back "s1" "pr" directory (fields "s1" "%1" "t1") first_agent read_first
      unmarshal_first

abbrev stamp_time : String → Option ℕ
stamp_time s = if str_eq s "t1" then some 1 else if str_eq s "t2" then some 2 else none

readable : 0 < length (agent_files stamp_time directory)
unfolding agent_files read_entry unmarshal_agent unmarshal_reported text_of number_of lookup str_eq
readable = omega arith

prune_dead_leaves_one_example :
    (prune_dead (λ p. true) stamp_time (λ p. true) (some []) "7" none 5 directory).1
    < length (agent_files stamp_time directory)
prune_dead_leaves_one_example =
    prune_dead_leaves_one (λ p. true) stamp_time (λ p. true) (some []) "7" none 5 directory readable

-- The older agent on pane %1 goes, and so does the one on the dead pane %3.
pruned :
    map
      (λ (e : DirEntry). e.name)
      (prune_dead (λ p. true) stamp_time (λ p. true) (some ("%1" ∷ [])) "7" none 5 directory).0
    ≡ "s2.json" ∷ "notes.txt" ∷ []
unfolding prune_dead read_entry unmarshal_agent unmarshal_reported text_of number_of lookup str_eq
    is_resumable_orphan
pruned = refl

abbrev older : AgentFile
older = record { path = "a"; agent = idle; updated_at = 1 }

abbrev newer : AgentFile
newer = record { path = "b"; agent = idle; updated_at = 2 }

is_duplicate_iff_example :
    (is_duplicate (newest_per_pane [] (older ∷ newer ∷ [])) older ≡ true)
    ↔ ((str_eq older.agent.tmux_pane_id "" ≡ false) × Any (NewerThan older) (older ∷ newer ∷ []))
is_duplicate_iff_example = is_duplicate_iff (older ∷ newer ∷ []) older

abbrev in_worktree : Agent
in_worktree = record running { worktree_cwd = "/w"; branch = "topic"; cwd = "/r" }

abbrev git_main : String → String
git_main dir = "main"

found_s3 : lookup "s3" (("s3", in_worktree) ∷ []) ≡ some in_worktree
unfolding lookup str_eq
found_s3 = refl

abbrev refresh : Refresh
refresh = record { git = git_main; cwds = none; state_dir = "/s"; dir = directory }

text_ne : (s t : String) → str_eq s t ≡ false → s ≢ t
text_ne s t h e = cc ((str_eq_iff s t).1 e)

refreshes_keep_pin_example :
    (a : Agent) × (lookup "s3" (refreshes (refresh ∷ refresh ∷ []) (("s3", in_worktree) ∷ []))
      ≡ some a)
    × (a.worktree_cwd ≡ "/w")
    × (a.branch ≡ "topic")
refreshes_keep_pin_example =
    refreshes_keep_pin (refresh ∷ refresh ∷ []) (("s3", in_worktree) ∷ []) "s3" in_worktree found_s3
      (text_ne "/w" "" (unfold str_eq in refl)) (text_ne "topic" "" (unfold str_eq in refl))

abbrev worktree : Worktree
worktree = record { path = "/w"; branch = "topic"; git_dir = "/r/.git/worktrees/w" }

abbrev world : World
world = record {
  list_worktrees = λ dir. some (worktree ∷ []);
  resolve_path = λ p. p;
  is_linked = λ p. true;
  can_create = λ g. true;
  can_write = λ g. true;
}

abbrev claimed : Markers
claimed = (claim_marker world "/g" "s1" []).0

trimmed_s1 : trim_space "s1" ≡ "s1"
unfolding trim_space str_eq
trimmed_s1 = refl

first_claim : (claim_marker world "/g" "s1" []).1 ≡ true
unfolding claim_marker
first_claim = refl

claim_marker_exclusive_example :
    Extends claimed (claim_marker world "/g" "s2" claimed).0
    × ((claim_marker world "/g" "s2" claimed).1 ≡ true → ◌≡◌ {A = String} "s2" "s1")
claim_marker_exclusive_example =
    claim_marker_exclusive world world "/g" "s1" "s2" [] claimed trimmed_s1 first_claim (λ g b h. h)

abbrev at_w : Agent
at_w = record first_agent { cwd = "/w" }

abbrev store : Store
store = record { dir = directory; markers = [] }

resolve_agent_worktree-Resolved_example :
    let (sf', s') = resolve_agent_worktree world (("s1", at_w) ∷ []) store in
    Extends [] s'.markers × Resolved world s'.markers (("s1", at_w) ∷ []) sf'
resolve_agent_worktree-Resolved_example =
    resolve_agent_worktree-Resolved world (("s1", at_w) ∷ []) store (trimmed_s1, tt)

-- The agent that runs in the linked worktree claims it.
claimed_w :
    (resolve_agent_worktree world (("s1", at_w) ∷ []) store).0
    ≡ ("s1", record at_w { worktree_cwd = "/w"; branch = "topic" }) ∷ []
unfolding resolve_agent_worktree resolve_worktree resolve_in find_marked find_at claim_at
    claim_marker owner canonical_path lookup str_eq
claimed_w = refl
