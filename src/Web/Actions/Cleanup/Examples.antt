-- ===== src/Web/Actions/Cleanup/Examples.antt =====
-- The clean-up of a concrete agent, with git and tmux that always succeed and keep the commands that
-- they were given, the last one first.
use agent_dashboard.Common.{String, Bool, ◌≡◌, ◌≢◌, ◌⊎◌, refl, true, some, List, [], ◌∷◌}
use agent_dashboard.Domain.{Agent, empty_agent}
use agent_dashboard.State.Disk.{remove_agent}
use agent_dashboard.Tmux.{Runner}
use agent_dashboard.Web.Actions.{ok}
use agent_dashboard.Web.Actions.Resume.{Site}
use agent_dashboard.Web.Actions.Survivor.{IsUntouched}
use agent_dashboard.Web.Actions.Cleanup.{Shell, after_last, last_part, kill_pane, handle_cleanup}
use agent_dashboard.Web.Actions.Cleanup.Order.{
  IsCleaned, IsDefault, asked, handle_cleanup-IsCleaned,
}

abbrev Log : Type 0
Log = List (String × List String)

abbrev toy_tmux : Runner Log
toy_tmux = record { run = λ args w. (true, w); output = λ args w. (some "main:3.0\n", w) }

abbrev toy_shell : Shell Log
toy_shell = record {
  combined_output = λ dir name args w. ((true, "refs/remotes/origin/main\n"), (name, args) ∷ w);
}

abbrev merged : Agent
merged = record empty_agent {
  session_id = "s1";
  cwd = "/w/app";
  worktree_cwd = "/w/feat";
  branch = "feat";
  tmux_pane_id = "%7";
}

abbrev site : Site Log
site = record { store = record { dir = []; markers = [] }; staging = []; tmux = [] }

abbrev absolute : String → Bool
absolute p = true

abbrev keep : String → Log → Log
keep id w = w

handle_cleanup-IsCleaned_example :
    (((handle_cleanup toy_tmux toy_shell absolute absolute keep (some merged) "s1" site).0 ≢ ok)
      × IsUntouched site
          (handle_cleanup toy_tmux toy_shell absolute absolute keep (some merged) "s1" site).1)
    ⊎ (((handle_cleanup toy_tmux toy_shell absolute absolute keep (some merged) "s1" site).0 ≡ ok)
        × (branch : String) × (w' : Log) × IsDefault toy_tmux toy_shell
            (true, "refs/remotes/origin/main\n")
            branch
        × IsCleaned toy_tmux toy_shell merged branch
            (kill_pane toy_tmux toy_shell merged (asked toy_tmux toy_shell "/w/app" []).1)
            w'
        × ((handle_cleanup toy_tmux toy_shell absolute absolute keep (some merged) "s1" site).1.tmux
            ≡ keep "s1" w')
        × ((handle_cleanup toy_tmux toy_shell absolute absolute keep
              (some merged)
              "s1"
              site).1.store.dir
            ≡ remove_agent [] "s1"))
handle_cleanup-IsCleaned_example =
    handle_cleanup-IsCleaned toy_tmux toy_shell absolute absolute keep merged "s1" site

default_branch_test : last_part "refs/remotes/origin/main" ≡ "main"
unfolding last_part after_last
default_branch_test = refl

-- Of a default branch with a slash in its name only the last part is left.
slash_test : last_part "refs/remotes/origin/release/v1" ≡ "v1"
unfolding last_part after_last
slash_test = refl
