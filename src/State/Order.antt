-- ===== src/State/Order.antt =====
-- internal/state/state.go: `sortPriority` and `SortedAgents`. The list that the dashboard shows.
pub mod Sorted
use agent_dashboard.Common.{
  ℕ, String, Bool, true, false, not, ◌&&◌, List, [], ◌∷◌, str_eq, is_empty, non_empty, ◌==◌, ltb,
  if◌then◌else◌,
}
use agent_dashboard.Domain.{Agent, StateFile, resumable_priority, state_priority}

unfoldable pub sort_priority : Agent → ℕ
unfolding state_priority
sort_priority a =
    if a.resumable
    then resumable_priority
    else let p = state_priority a.state in if p == 0 then 99 else p

-- The comparison that `sort.Slice` is given.
unfoldable pub agent_less : Agent → Agent → Bool
agent_less a b =
    if not (sort_priority a == sort_priority b)
    then ltb (sort_priority a) (sort_priority b)
    else if not (a.window == b.window)
    then ltb a.window b.window
    else ltb a.pane b.pane

-- `sort.Slice`, which leaves the order of equal elements open. The theorems hold for any result
-- that is ordered and has the same elements; this one keeps equal elements in place.
unfoldable pub insert_sorted {ℓ} : {A : Type ℓ} → (A → A → Bool) → A → List A → List A
insert_sorted less x [] = x ∷ []
insert_sorted less x (y ∷ ys) =
    let rest = insert_sorted less x ys in if less y x then y ∷ rest else x ∷ y ∷ ys

unfoldable pub sort_slice {ℓ} : {A : Type ℓ} → (A → A → Bool) → List A → List A
unfolding insert_sorted
sort_slice less [] = []
sort_slice less (x ∷ xs) = insert_sorted less x (sort_slice less xs)

-- The tests of the first loop of `SortedAgents`.
unfoldable pub is_listed : String → Agent → Bool
is_listed self_pane_id a =
    if is_empty a.state
    then false
    else if non_empty self_pane_id && str_eq a.tmux_pane_id self_pane_id
    then false
    else true

unfoldable pub listed : String → StateFile → List Agent
unfolding is_listed
listed self_pane_id [] = []
listed self_pane_id ((k, a) ∷ sf) =
    let rest = listed self_pane_id sf in if is_listed self_pane_id a then a ∷ rest else rest

unfoldable pub sorted_agents : StateFile → String → List Agent
unfolding sort_slice listed
sorted_agents sf self_pane_id = sort_slice agent_less (listed self_pane_id sf)
