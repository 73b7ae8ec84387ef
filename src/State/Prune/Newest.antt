-- ===== src/State/Prune/Newest.antt =====
-- The newest time on each pane, and that a duplicate is a file with a newer one on its pane.
use agent_dashboard.Common.{
  ℕ, ◌≤◌, ◌<◌, String, ◌≡◌, refl, ◌↔◌, ◌⊎◌, inl, inr, true, false, List, [], ◌∷◌, Any, str_eq,
  str_eq_iff, arith, if◌then◌else◌,
}
use agent_dashboard.Common.Dict.{lookup, insert, lookup-insert}
use agent_dashboard.State.Prune.{
  AgentFile, Newest, newest_of, newest_step, newest_per_pane, is_duplicate,
}

pub newest_of-empty : (p : String) → newest_of [] p ≡ 0
unfolding newest_of lookup
newest_of-empty p = refl

newest_of-insert :
    (p q : String) (t : ℕ) (m : Newest)
    → newest_of (insert p t m) q ≡ (if str_eq p q then t else newest_of m q)
unfolding newest_of
newest_of-insert p q t m = ground (arith, lookup-insert p q t m)

newest_of-newest_step :
    (m : Newest) (f : AgentFile) (p : String)
    → (newest_of m p ≤ newest_of (newest_step m f) p)
      × ((newest_of (newest_step m f) p ≡ newest_of m p)
          ⊎ ((f.agent.tmux_pane_id ≡ p) × (f.updated_at ≡ newest_of (newest_step m f) p)))
unfolding newest_step
newest_of-newest_step m f p = ground (
  arith,
  newest_of-insert f.agent.tmux_pane_id p f.updated_at m,
  str_eq_iff f.agent.tmux_pane_id p,
)

own_step :
    (m : Newest) (f : AgentFile) (p : String)
    → f.agent.tmux_pane_id ≡ p
    → str_eq p "" ≡ false
    → f.updated_at ≤ newest_of (newest_step m f) p
unfolding newest_step
own_step m f p e h = ground (
  arith,
  newest_of-insert f.agent.tmux_pane_id p f.updated_at m,
  str_eq_iff f.agent.tmux_pane_id p,
)

newest-grows :
    (m : Newest) (files : List AgentFile) (p : String)
    → newest_of m p ≤ newest_of (newest_per_pane m files) p
unfolding newest_per_pane
newest-grows m [] p = omega arith
newest-grows m (f ∷ files) p =
    omega (arith, (newest_of-newest_step m f p).0, newest-grows (newest_step m f) files p)

-- A file on pane `p` with time `t`.
abbrev pub At : String → ℕ → AgentFile → Type 0
At p t f = (f.agent.tmux_pane_id ≡ p) × (f.updated_at ≡ t)

pub newest_attained :
    (m : Newest) (files : List AgentFile) (p : String)
    → (newest_of (newest_per_pane m files) p ≡ newest_of m p)
      ⊎ Any (At p (newest_of (newest_per_pane m files) p)) files
unfolding newest_per_pane
newest_attained m [] p = inl refl
newest_attained m (f ∷ files) p = elim (newest_attained (newest_step m f) files p) [
  | inr there ↦ inr (inr there)
  | inl same ↦ elim (newest_of-newest_step m f p).1 [
    | inl old ↦ inl (cc)
    | inr (pane, time) ↦ inr (inl (pane, cc))
  ]
]

-- A file on `f`'s pane that is newer than `f`.
abbrev pub NewerThan : AgentFile → AgentFile → Type 0
NewerThan f g = (g.agent.tmux_pane_id ≡ f.agent.tmux_pane_id) × (f.updated_at < g.updated_at)

newer_of_attained :
    (f : AgentFile) (t : ℕ) (files : List AgentFile)
    → f.updated_at < t
    → Any (At f.agent.tmux_pane_id t) files
    → Any (NewerThan f) files
newer_of_attained f t [] h a = a
newer_of_attained f t (g ∷ files) h (inl (p, e)) = inl (p, omega arith)
newer_of_attained f t (g ∷ files) h (inr a) = inr (newer_of_attained f t files h a)

below_newest :
    (m : Newest) (files : List AgentFile) (f : AgentFile)
    → str_eq f.agent.tmux_pane_id "" ≡ false
    → Any (NewerThan f) files
    → f.updated_at < newest_of (newest_per_pane m files) f.agent.tmux_pane_id
unfolding newest_per_pane
below_newest m [] f h a = absurd a
below_newest m (g ∷ files) f h (inl (p, lt)) = omega (
  arith,
  own_step m g f.agent.tmux_pane_id p h,
  newest-grows (newest_step m g) files f.agent.tmux_pane_id,
)
below_newest m (g ∷ files) f h (inr a) = below_newest (newest_step m g) files f h a

past_newest :
    (m : Newest) (f : AgentFile)
    → is_duplicate m f ≡ true
    → (str_eq f.agent.tmux_pane_id "" ≡ false) × (f.updated_at < newest_of m f.agent.tmux_pane_id)
unfolding is_duplicate
past_newest m f h = (ground arith, ground arith)

newer_of_duplicate :
    (files : List AgentFile) (f : AgentFile)
    → f.updated_at < newest_of (newest_per_pane [] files) f.agent.tmux_pane_id
    → Any (NewerThan f) files
newer_of_duplicate files f h = elim (newest_attained [] files f.agent.tmux_pane_id) [
  | inl e ↦ absurd (omega (arith, newest_of-empty f.agent.tmux_pane_id))
  | inr a ↦ newer_of_attained f _ files h a
]

-- The test for a duplicate says yes exactly where the file names a pane on which some file of the
-- directory is strictly newer.
pub is_duplicate_iff :
    (files : List AgentFile) (f : AgentFile)
    → (is_duplicate (newest_per_pane [] files) f ≡ true)
      ↔ ((str_eq f.agent.tmux_pane_id "" ≡ false) × Any (NewerThan f) files)
unfolding is_duplicate
is_duplicate_iff files f = (
  λ h.
      let (named, lt) = past_newest (newest_per_pane [] files) f h in
      (named, newer_of_duplicate files f lt),
  λ (named, newer). ground (arith, below_newest [] files f named newer),
)
