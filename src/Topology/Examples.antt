-- ===== src/Topology/Examples.antt =====
-- The theorem on the layout of a repository at concrete paths: a linked worktree behind an empty seed
-- and a path in no repository.
use agent_dashboard.Common.{
  ◌≡◌, refl, String, true, Option, none, some, List, [], ◌∷◌, ◌⊎◌, All, str_eq, if◌then◌else◌,
}
use agent_dashboard.Topology.{all_seeds_dead, found, failed, Git, resolve}
use agent_dashboard.Topology.Resolved.{IsDead, IsFirst, resolve-IsFirst}

abbrev answer : List String → Option String
answer [] = none
answer (option ∷ options) =
    if str_eq option "--show-toplevel"
    then some "/w/fix"
    else if str_eq option "--path-format=absolute"
    then some "/src/app/.git"
    else some ""

abbrev git : Git
git path options = if str_eq path "/w/fix" then answer options else none

abbrev dir : String → String
dir path = if str_eq path "/src/app/.git" then "/src/app" else "."

abbrev seeds : List String
seeds = "" ∷ "/tmp" ∷ "/w/fix" ∷ []

resolves_worktree :
    resolve git dir seeds
    ≡ found (record { worktree = "/w/fix"; source = "/src/app"; linked = true })
unfolding resolve
resolves_worktree = refl

resolve-IsFirst_example :
    All (IsDead git dir) seeds × (resolve git dir seeds ≡ failed all_seeds_dead)
    ⊎ IsFirst git dir seeds (resolve git dir seeds)
resolve-IsFirst_example = resolve-IsFirst git dir seeds
