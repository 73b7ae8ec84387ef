-- ===== src/Web/Actions/Examples.antt =====
-- The handlers at a concrete site: tmux has one pane, of another server than the agent's, and one
-- session without windows.
use agent_dashboard.Common.{
  String, ◌≡◌, ◌⊎◌, refl, true, false, Option, none, some, List, [], ◌∷◌, str_eq, if◌then◌else◌,
}
use agent_dashboard.Common.Dict.{lookup, insert}
use agent_dashboard.Common.Text.{
  trim_space, trim_left, trim_right, is_space, has_suffix, cut_prefix, trim_suffix,
}
use agent_dashboard.Common.Chars.{cut_at, drop_while}
use agent_dashboard.Domain.{effective_dir}
use agent_dashboard.Harness.Options.{Settings, spawn_opts_for}
use agent_dashboard.Harness.Registry.{AgentProfile}
use agent_dashboard.State.Disk.{text, Directory, read_agent}
use agent_dashboard.Tmux.{Arg, word, raw, Runner}
use agent_dashboard.Web.Actions.Survivor as Survivor
use agent_dashboard.Web.Actions.Create.Guards as Guards
use agent_dashboard.Web.Actions.{ok}
use agent_dashboard.Web.Actions.Resume.{Host, Site, handle_resume}
use agent_dashboard.Tmux.Panes.{
  tmux_is_available, tmux_list_live_pane_ids, live_panes_of, pane_fields,
}
use agent_dashboard.Tmux.Windows.{
  split_newlines, tmux_list_sessions, tmux_list_windows, tmux_new_window, reported_pane,
  parse_pane_id_and_target, shell_args,
}
use agent_dashboard.State.Disk.{
  unmarshal_agent, unmarshal_reported, text_of, number_of, read_file, remove_agent, agent_file_map,
  file_map_from, read_entry, agent_key, remove_file,
}
use agent_dashboard.Web.Actions.Resume.{resume_agent, resume_orphan, respawn, settle, stage}
use agent_dashboard.State.Orphan.{is_resumable_orphan, is_live, finished_states, is_stale}
use agent_dashboard.Harness.Registry.{resolve}
use agent_dashboard.Web.Actions.{
  spawn_in_repo_window, find_window, open_window, first_tmux_session, repo_name,
}
use agent_dashboard.Repowin.{
  find_window_for_repo, find_folder, find_repo, repo_from_cwd, find_window_by_name,
  sanitize_window_name, replace_unsafe, after_text,
}
use agent_dashboard.Tmux.{validate_target}
use agent_dashboard.State.SpawnPin.{
  stage_spawn_pin, staged_pin, write_spawn_pin, spawn_pin_filename, worktree_at,
}
use agent_dashboard.State.Arbitration.{arbitrate_state, idle_states}
use agent_dashboard.State.Markers.{canonical_path}
use agent_dashboard.Harness.Registry.{claude, codex, contains_string}
use agent_dashboard.Web.Actions.Create.{CreateRequest, allows_model, handle_create}
use agent_dashboard.Web.Actions.Create.Guards.{IsCreated, handle_create-IsCreated}
use agent_dashboard.Web.Actions.Survivor.{IsUntouched, IsResumed, handle_resume-IsResumed}

abbrev answers : List Arg → Option String
answers [] = none
answers (raw bytes ∷ args) = none
answers (word cmd ∷ args) =
    if str_eq cmd "list-panes"
    then some "%1\t900\n"
    else if str_eq cmd "list-sessions"
    then some "main\n"
    else if str_eq cmd "new-window"
    then some "%7\tmain:3.0\n"
    else none

abbrev toy_tmux : Runner (List (List Arg))
toy_tmux = record { run = λ args w. (true, args ∷ w); output = λ args w. (answers args, args ∷ w) }

abbrev host : Host
host = record {
  is_dir = λ p. true;
  exists = λ p. true;
  parse_time = λ t. none;
  base = λ p. "app";
  join = λ a b. b;
  world = record {
    list_worktrees = λ d. none;
    resolve_path = λ p. p;
    is_linked = λ p. true;
    can_create = λ g. true;
    can_write = λ g. true;
  };
  pointer = λ p. none;
  created_at = "10";
  now = 0;
}

abbrev lost : Directory
lost =
    record {
      name = "s1.json";
      is_dir = false;
      content = some (
          ("session_id", text "s1")
          ∷ ("state", text "running")
          ∷ ("tmux_pane_id", text "%7")
          ∷ ("tmux_server_pid", text "800")
          ∷ ("branch", text "feat")
          ∷ ("cwd", text "/w/app")
          ∷ []);
    }
    ∷ []

abbrev site : Site (List (List Arg))
site = record { store = record { dir = lost; markers = [] }; staging = []; tmux = [] }

abbrev settings : Settings
settings = record {
  effort_default = "high";
  codex = record { model = ""; approval = ""; sandbox = ""; default_reasoning_effort = "" };
}

abbrev profile : AgentProfile
profile = record {
  name = "Claude Code";
  command = "claude";
  config_dir = "";
  state_dir = "";
  projects_dir = "";
  plans_dir = "";
  sessions_dir = "";
  plugin_cache_dir = "";
  codex_plugin_cache_dir = "";
  home_dir = "/h";
}

handle_resume-IsResumed_example :
    Survivor.IsRefused host toy_tmux profile settings [] "s1" site
      (handle_resume host toy_tmux profile settings [] "s1" site)
    ⊎ (((handle_resume host toy_tmux profile settings [] "s1" site).0 ≡ ok)
        × IsResumed host toy_tmux profile settings [] "s1" site
            (handle_resume host toy_tmux profile settings [] "s1" site).1)
handle_resume-IsResumed_example =
    handle_resume-IsResumed host toy_tmux profile settings [] "s1" site

-- The agent is started again, and its file is gone.
resumed_test :
    ((handle_resume host toy_tmux profile settings [] "s1" site).0 ≡ ok)
    × ((handle_resume host toy_tmux profile settings [] "s1" site).1.store.dir ≡ [])
unfolding handle_resume tmux_is_available read_agent unmarshal_agent unmarshal_reported text_of
    number_of read_file resume_agent effective_dir resume_orphan tmux_list_live_pane_ids
    is_resumable_orphan live_panes_of split_newlines trim_space pane_fields cut_at respawn resolve
    spawn_opts_for spawn_in_repo_window find_window find_window_for_repo find_folder find_repo
    repo_from_cwd open_window first_tmux_session tmux_list_sessions tmux_list_windows
    find_window_by_name repo_name sanitize_window_name replace_unsafe after_text tmux_new_window
    reported_pane parse_pane_id_and_target validate_target drop_while settle stage stage_spawn_pin
    staged_pin remove_agent agent_file_map file_map_from read_entry agent_key remove_file str_eq
    lookup insert trim_left trim_right is_space has_suffix trim_suffix cut_prefix arbitrate_state
    idle_states is_live finished_states is_stale canonical_path write_spawn_pin spawn_pin_filename
    worktree_at shell_args
resumed_test = (refl, refl)

abbrev request : CreateRequest
request = record {
  folder = "~/app";
  skill = "feature";
  message = "go";
  model = "opus";
  effort = "high";
  harness = "";
}

handle_create-IsCreated_example :
    let p =
      handle_create host
        (some "/h")
        toy_tmux
        profile
        settings
        (claude profile)
        []
        (some request)
        site in
    Guards.IsRefused host (some "/h") toy_tmux profile settings (claude profile) [] request site p
    ⊎ ((p.0 ≡ ok)
        × IsCreated host (some "/h") toy_tmux profile settings (claude profile) [] request site p.1)
handle_create-IsCreated_example =
    handle_create-IsCreated host (some "/h") toy_tmux profile settings (claude profile) [] request
      site

-- Codex has no such model.
wrong_model_test :
    allows_model (codex (record { command = "codex"; sessions_dir = ""; config_dir = "" })) "opus"
    ≡ false
unfolding allows_model contains_string str_eq
wrong_model_test = refl
