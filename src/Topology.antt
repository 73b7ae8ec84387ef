-- ===== src/Topology.antt =====
-- internal/repo/topology.go: the git layout around the first of some paths that lies in a
-- repository. Parameters: git's output, by the path and the arguments behind `-C path rev-parse`, with
-- `none` for an error, and `filepath.Dir`.
pub mod Resolved
mod Examples
use agent_dashboard.Common.{
  String, Bool, true, false, not, Option, none, some, List, [], ◌∷◌, str_eq, is_empty,
  if◌then◌else◌,
}
use agent_dashboard.Common.Text.{trim_space}

pub record Topology : Type 0 where
  pub worktree : String
  pub source : String
  pub linked : Bool

pub data Error : Type 0 where
  not_a_repo : Error
  inside_submodule : Error
  all_seeds_dead : Error

pub data Result : Type 0 where
  found : Topology → Result
  failed : Error → Result

abbrev pub Git : Type 0
Git = String → List String → Option String

abbrev pub text_or_empty : Option String → String
text_or_empty none = ""
text_or_empty (some out) = trim_space out

module _ (git : Git) (dir : String → String) where
  abbrev pub worktree_of : String → String
  worktree_of seed = text_or_empty (git seed ("--show-toplevel" ∷ []))

  abbrev pub common_dir_of : String → String
  common_dir_of seed = text_or_empty (git seed ("--path-format=absolute" ∷ "--git-common-dir" ∷ []))

  -- An error of this call counts as no superproject.
  abbrev pub superproject_of : String → String
  superproject_of seed = text_or_empty (git seed ("--show-superproject-working-tree" ∷ []))

  unfoldable pub resolve_one : String → Result
  unfolding trim_space
  resolve_one seed =
      if is_empty (worktree_of seed)
      then failed not_a_repo
      else if is_empty (common_dir_of seed)
      then failed not_a_repo
      else if not (is_empty (superproject_of seed))
      then failed inside_submodule
      else found (record {
        worktree = worktree_of seed;
        source = dir (common_dir_of seed);
        linked = not (str_eq (worktree_of seed) (dir (common_dir_of seed)));
      })

  unfoldable pub resolve : List String → Result
  unfolding resolve_one
  resolve [] = failed all_seeds_dead
  resolve (seed ∷ seeds) =
      let rest = resolve seeds in
      let tried : Result = elim (resolve_one seed) [
        | found top ↦ found top
        | failed not_a_repo ↦ rest
        | failed inside_submodule ↦ failed inside_submodule
        | failed all_seeds_dead ↦ rest
      ] in
      if is_empty seed then rest else tried
