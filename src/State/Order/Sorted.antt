-- ===== src/State/Order/Sorted.antt =====
-- The order of the list, and that it holds each listed agent as often as the state file does.
use agent_dashboard.Common.{
  ℕ, suc, ◌≤◌, ◌<◌, String, ◌≡◌, refl, ◌⊎◌, inl, inr, Bool, true, false, List, [], ◌∷◌, All, ◌∙◌,
  count_by, str_eq, str_eq_iff, arith, if◌then◌else◌, Bool-cases,
}
use agent_dashboard.Domain.{Agent, StateFile, state_priority}
use agent_dashboard.State.Order.{
  sort_priority, agent_less, insert_sorted, sort_slice, is_listed, listed, sorted_agents,
}

-- `a` may stand before `b`: by priority, then by window, then by pane.
abbrev pub Before : Agent → Agent → Type 0
Before a b =
    (sort_priority a < sort_priority b)
    ⊎ ((sort_priority a ≡ sort_priority b)
        × ((a.window < b.window) ⊎ ((a.window ≡ b.window) × (a.pane ≤ b.pane))))

abbrev pub IsSorted : List Agent → Type 0
IsSorted [] = Unit
IsSorted (a ∷ l) = All (Before a) l × IsSorted l

less-Before : (a b : Agent) → agent_less a b ≡ true → Before a b
unfolding agent_less
less-Before a b h = ground arith

not_less-Before : (a b : Agent) → agent_less a b ≡ false → Before b a
unfolding agent_less
not_less-Before a b h = ground arith

Before-trans : (a b c : Agent) → Before a b → Before b c → Before a c
Before-trans a b c h k = omega arith

All-Before : (a b : Agent) (l : List Agent) → Before a b → All (Before b) l → All (Before a) l
All-Before a b [] h k = tt
All-Before a b (c ∷ l) h k = (Before-trans a b c h k.0, All-Before a b l h k.1)

All-insert_sorted :
    (less : Agent → Agent → Bool) (P : Agent → Type 0) (x : Agent) (l : List Agent)
    → P x
    → All P l
    → All P (insert_sorted less x l)
unfolding insert_sorted
All-insert_sorted less P x [] p h = (p, tt)
All-insert_sorted less P x (y ∷ l) p h = elim (Bool-cases (less y x)) [
  | inl e ↦ rw e (h.0, All-insert_sorted less P x l p h.1)
  | inr e ↦ rw e (p, h)
]

insert_sorted-IsSorted :
    (x : Agent) (l : List Agent) → IsSorted l → IsSorted (insert_sorted agent_less x l)
unfolding insert_sorted
insert_sorted-IsSorted x [] h = (tt, tt)
insert_sorted-IsSorted x (y ∷ l) h = elim (Bool-cases (agent_less y x)) [
  | inl e ↦ rw e (
    All-insert_sorted agent_less (Before y) x l (less-Before y x e) h.0,
    insert_sorted-IsSorted x l h.1,
  )
  | inr e ↦ let first = not_less-Before y x e in rw e ((first, All-Before x y l first h.0), h)
]

sort_slice-IsSorted : (l : List Agent) → IsSorted (sort_slice agent_less l)
unfolding sort_slice
sort_slice-IsSorted [] = tt
sort_slice-IsSorted (x ∷ l) =
    insert_sorted-IsSorted x (sort_slice agent_less l) (sort_slice-IsSorted l)

count_by-insert_sorted {ℓ} :
    {A : Type ℓ} (p : A → Bool) (less : A → A → Bool) (x : A) (l : List A)
    → count_by p (insert_sorted less x l) ≡ count_by p (x ∷ l)
unfolding insert_sorted
count_by-insert_sorted p less x [] = refl
count_by-insert_sorted p less x (y ∷ l) = ground (arith, count_by-insert_sorted p less x l)

count_by-sort_slice {ℓ} :
    {A : Type ℓ} (p : A → Bool) (less : A → A → Bool) (l : List A)
    → count_by p (sort_slice less l) ≡ count_by p l
unfolding sort_slice
count_by-sort_slice p less [] = refl
count_by-sort_slice p less (x ∷ l) =
    count_by-insert_sorted p less x (sort_slice less l)
    ∙ ground (arith, count_by-sort_slice p less l)

-- How many agents of the state file are listed and pass a test.
abbrev pub count_listed : (Agent → Bool) → String → StateFile → ℕ
count_listed p self [] = 0
count_listed p self ((k, a) ∷ sf) =
    let rest = count_listed p self sf in
    if is_listed self a then (if p a then suc rest else rest) else rest

count_by-listed :
    (p : Agent → Bool) (self : String) (sf : StateFile)
    → count_by p (listed self sf) ≡ count_listed p self sf
unfolding listed
count_by-listed p self [] = refl
count_by-listed p self ((k, a) ∷ sf) = ground (arith, count_by-listed p self sf)

-- For every state file the list is ordered by priority, then window, then pane; and for every test
-- on agents it holds as many that pass as the state file has among its agents with a state that do
-- not live in the dashboard's own pane.
pub sorted_agents_correct :
    (sf : StateFile) (self : String)
    → IsSorted (sorted_agents sf self)
      × ((p : Agent → Bool) → count_by p (sorted_agents sf self) ≡ count_listed p self sf)
unfolding sorted_agents
sorted_agents_correct sf self = (
  sort_slice-IsSorted (listed self sf),
  λ p. count_by-sort_slice p agent_less (listed self sf) ∙ count_by-listed p self sf,
)

-- The states of the map `StatePriority`.
abbrev pub IsGrouped : String → Type 0
IsGrouped s =
    (s ≡ "permission")
    ⊎ (s ≡ "plan")
    ⊎ (s ≡ "question")
    ⊎ (s ≡ "error")
    ⊎ (s ≡ "running")
    ⊎ (s ≡ "idle_prompt")
    ⊎ (s ≡ "done")
    ⊎ (s ≡ "pr")
    ⊎ (s ≡ "merged")

grouped_priority : (s : String) → IsGrouped s → (0 < state_priority s) × (state_priority s ≤ 6)
unfolding state_priority str_eq
grouped_priority s (inl e) = rw e (omega arith)
grouped_priority s (inr (inl e)) = rw e (omega arith)
grouped_priority s (inr (inr (inl e))) = rw e (omega arith)
grouped_priority s (inr (inr (inr (inl e)))) = rw e (omega arith)
grouped_priority s (inr (inr (inr (inr (inl e))))) = rw e (omega arith)
grouped_priority s (inr (inr (inr (inr (inr (inl e)))))) = rw e (omega arith)
grouped_priority s (inr (inr (inr (inr (inr (inr (inl e))))))) = rw e (omega arith)
grouped_priority s (inr (inr (inr (inr (inr (inr (inr (inl e)))))))) = rw e (omega arith)
grouped_priority s (inr (inr (inr (inr (inr (inr (inr (inr e)))))))) = rw e (omega arith)

ungrouped_priority : (s : String) → ¬ IsGrouped s → state_priority s ≡ 0
unfolding state_priority
ungrouped_priority s h = ground (
  arith,
  str_eq_iff s "permission",
  str_eq_iff s "plan",
  str_eq_iff s "question",
  str_eq_iff s "error",
  str_eq_iff s "running",
  str_eq_iff s "idle_prompt",
  str_eq_iff s "done",
  str_eq_iff s "pr",
  str_eq_iff s "merged",
)

-- A restart-survivor sorts after every live agent of a known state, and before one whose state is
-- none of the nine.
survivor_order :
    (a b : Agent)
    → a.resumable ≡ true
    → b.resumable ≡ false
    → (IsGrouped b.state → sort_priority b < sort_priority a)
      × (¬ IsGrouped b.state → sort_priority a < sort_priority b)
unfolding sort_priority
survivor_order a b ha hb = (
  λ g. ground (arith, grouped_priority b.state g),
  λ g. ground (arith, ungrouped_priority b.state g),
)
