-- ===== src/State/SpawnPin/Examples.antt =====
-- The theorems on spawn pins at concrete inputs, and tests of the definitions.
use agent_dashboard.Common.{
  ℕ, String, ◌≡◌, refl, inl, true, false, Option, none, some, [], ◌∷◌, str_eq, if◌then◌else◌,
}
use agent_dashboard.Common.Dict.{lookup}
use agent_dashboard.Common.Text.{trim_space, has_suffix}
use agent_dashboard.Domain.{Agent, empty_agent}
use agent_dashboard.State.Markers.{World, Store, claim_marker, pin_agent_to_worktree}
use agent_dashboard.State.SpawnPin.{
  SpawnPin, pin, malformed, Staging, spawn_pin_filename, read_spawn_pin, apply_spawn_pin,
  apply_spawn_pins, pointed_dir, has_state_file, reap_stale_marker, gc_spawn_pins,
}
use agent_dashboard.State.SpawnPin.Handoff.{AllHandedOver, AllConsumed, apply_spawn_pins_settles}
use agent_dashboard.State.SpawnPin.Reaping.{reap_stale_marker_safe, reap-claim}

abbrev pin_7 : SpawnPin
pin_7 = record {
  pane_id = "%7";
  target = "main:1.0";
  worktree_cwd = "/w/feat";
  branch = "feat";
  created_at = "10";
}

abbrev agent_7 : Agent
agent_7 = record empty_agent { session_id = "s7"; tmux_pane_id = "%7" }

abbrev bare_store : Store
bare_store = record { dir = []; markers = [] }

filename_test : spawn_pin_filename "%7" ≡ "_7.json"
unfolding spawn_pin_filename
filename_test = refl

abbrev staging : Staging
staging = ("_7.json", pin pin_7) ∷ ("_8.json", malformed) ∷ []

handed_over_test :
    (apply_spawn_pins (("s7", agent_7) ∷ []) bare_store staging).0
    ≡ ("s7", record agent_7 { worktree_cwd = "/w/feat"; branch = "feat" }) ∷ []
unfolding apply_spawn_pins apply_spawn_pin read_spawn_pin spawn_pin_filename lookup str_eq
    pin_agent_to_worktree
handed_over_test = refl

apply_spawn_pins_settles_example :
    let (sf', (s', st')) = apply_spawn_pins (("s7", agent_7) ∷ []) bare_store staging in
    AllHandedOver (read_spawn_pin staging) (("s7", agent_7) ∷ []) sf'
    × (AllConsumed st' sf' × (apply_spawn_pins sf' s' st' ≡ (sf', (s', st'))))
apply_spawn_pins_settles_example =
    apply_spawn_pins_settles (("s7", agent_7) ∷ []) bare_store staging

abbrev pointer : String → Option String
pointer p = some "gitdir: /r/.git/worktrees/feat\n"

abbrev owned : Store
owned = record {
  dir = [];
  markers = ("/r/.git/worktrees/feat", "dead") ∷ ("/r/.git/worktrees/fix", "s7") ∷ [];
}

pointed_dir_test : pointed_dir (pointer "/w/feat") ≡ some "/r/.git/worktrees/feat"
unfolding pointed_dir trim_space
pointed_dir_test = refl

-- The worktree's marker names a session that has its file.
abbrev live : Store
live = record {
  dir = record { name = "s7.json"; is_dir = false; content = some [] } ∷ [];
  markers = ("/r/.git/worktrees/feat", "s7") ∷ [];
}

reap_stale_marker_safe_example :
    lookup "/r/.git/worktrees/feat" (reap_stale_marker pointer "/w/feat" live).markers ≡ some "s7"
unfolding lookup str_eq trim_space has_state_file
reap_stale_marker_safe_example =
    reap_stale_marker_safe pointer "/w/feat" "/r/.git/worktrees/feat" "s7" live refl (inl refl)

abbrev linked_world : World
linked_world = record {
  list_worktrees = λ d. none;
  resolve_path = λ p. p;
  is_linked = λ p. true;
  can_create = λ g. true;
  can_write = λ g. true;
}

reap-claim_example :
    (claim_marker linked_world "/r/.git/worktrees/feat" "s7"
      (reap_stale_marker pointer "/w/feat" owned).markers).1
    ≡ true
unfolding lookup str_eq pointed_dir trim_space has_state_file
reap-claim_example =
    reap-claim linked_world pointer "/w/feat" "/r/.git/worktrees/feat" "dead" "s7" owned refl refl
      refl refl refl refl refl

abbrev parse_clock : String → Option ℕ
parse_clock s = if str_eq s "10" then some 10 else none

gc_test : (gc_spawn_pins parse_clock (λ _. true) 100 60 staging).1 ≡ 2
unfolding gc_spawn_pins has_suffix
gc_test = refl
