-- ===== src/State/SpawnPin/Handoff.antt =====
-- The hand-over: a staged pin is read back, applied once and gone; no pinned agent is moved.
use agent_dashboard.Common.{
  ◌||◌, ◌⊎◌, String, ◌≡◌, refl, ap, ◌∙◌, subst, true, false, Option, none, some, [], ◌∷◌, str_eq,
  str_eq_refl, str_eq_iff, is_empty, non_empty, arith, if◌then◌else◌, Bool-cases, Option-cases, inl,
  inr,
}
use agent_dashboard.Common.Dict.{lookup, lookup-erase}
use agent_dashboard.Domain.{Agent, StateFile}
use agent_dashboard.State.Markers.{Store, pin_agent_to_worktree}
use agent_dashboard.State.SpawnPin.{
  SpawnPin, Staging, pin_of, spawn_pin_filename, read_spawn_pin, delete_spawn_pin, apply_spawn_pin,
  apply_spawn_pins,
}

deleted_read :
    (st : Staging) (pane_id : String) → read_spawn_pin (delete_spawn_pin st pane_id) pane_id ≡ none
unfolding read_spawn_pin delete_spawn_pin
deleted_read st pane_id = ground (
  arith,
  lookup-erase (spawn_pin_filename pane_id) (spawn_pin_filename pane_id) st,
  str_eq_refl (spawn_pin_filename pane_id),
)

-- No pin is left for the pane of an agent.
abbrev pub IsConsumed : Staging → Agent → Type 0
IsConsumed st a = read_spawn_pin st a.tmux_pane_id ≡ none

-- The pins that can be read, by pane.
abbrev pub Pins : Type 0
Pins = String → Option SpawnPin

-- An agent without a worktree whose pane has a pin for one is on that worktree and branch, and every
-- other agent is as it was.
abbrev pub IsHandedOver : Option SpawnPin → Agent → Agent → Type 0
IsHandedOver none a a' = a' ≡ a
IsHandedOver (some p) a a' =
    (((non_empty a.worktree_cwd || is_empty p.worktree_cwd) ≡ true) × (a' ≡ a))
    ⊎ (((non_empty a.worktree_cwd || is_empty p.worktree_cwd) ≡ false)
        × (a' ≡ record a { worktree_cwd = p.worktree_cwd; branch = p.branch }))

-- What is left of the pins once the one of a pane has been taken: two panes share a pin if their
-- files have the same name.
abbrev pub without_pane : String → Pins → Pins
without_pane gone pins pane_id =
    if is_empty gone
    then pins pane_id
    else if str_eq (spawn_pin_filename gone) (spawn_pin_filename pane_id)
    then none
    else pins pane_id

no_pane : (st : Staging) (a : Agent) → is_empty a.tmux_pane_id ≡ true → IsConsumed st a
unfolding read_spawn_pin
no_pane st a e = ground arith

apply_one :
    (a : Agent) (s : Store) (st : Staging)
    → let (a', (s', st')) = apply_spawn_pin a s st in
      IsHandedOver (read_spawn_pin st a.tmux_pane_id) a a'
      × ((a'.tmux_pane_id ≡ a.tmux_pane_id) × IsConsumed st' a)
unfolding apply_spawn_pin pin_agent_to_worktree
apply_one a s st = elim (Bool-cases (is_empty a.tmux_pane_id)) [
  | inl e ↦
      let unread : read_spawn_pin st a.tmux_pane_id ≡ none = no_pane st a e in
      simp (e, unread) (refl, (refl, refl))
  | inr e ↦ elim (Option-cases (read_spawn_pin st a.tmux_pane_id)) [
    | inl q ↦ simp (e, q) (refl, (refl, refl))
    | inr (p, q) ↦ elim (Bool-cases (non_empty a.worktree_cwd || is_empty p.worktree_cwd)) [
      | inl c ↦ simp (e, q, c) (inl (refl, refl), (refl, deleted_read st a.tmux_pane_id))
      | inr c ↦ simp (e, q, c) (inr (refl, refl), (refl, deleted_read st a.tmux_pane_id))
    ]
  ]
]

same_file :
    (st : Staging) (gone pane_id : String)
    → is_empty gone ≡ false
    → str_eq (spawn_pin_filename gone) (spawn_pin_filename pane_id) ≡ true
    → read_spawn_pin st gone ≡ none
    → read_spawn_pin st pane_id ≡ none
unfolding read_spawn_pin
same_file st gone pane_id e same missing =
    let name : spawn_pin_filename gone ≡ spawn_pin_filename pane_id =
      (str_eq_iff (spawn_pin_filename gone) (spawn_pin_filename pane_id)).0 same in
    ground (arith, ap (λ (x : String). pin_of (lookup x st)) name)

missing_stays :
    (st : Staging) (gone pane_id : String)
    → read_spawn_pin st gone ≡ none
    → read_spawn_pin st pane_id ≡ without_pane gone (read_spawn_pin st) pane_id
missing_stays st gone pane_id missing = ground (arith, same_file st gone pane_id)

deleted_other :
    (st : Staging) (gone pane_id : String)
    → read_spawn_pin (delete_spawn_pin st gone) pane_id
      ≡ without_pane gone (read_spawn_pin st) pane_id
unfolding read_spawn_pin delete_spawn_pin
deleted_other st gone pane_id =
    ground (arith, lookup-erase (spawn_pin_filename gone) (spawn_pin_filename pane_id) st)

read-apply_one :
    (a : Agent) (s : Store) (st : Staging) (pane_id : String)
    → read_spawn_pin (apply_spawn_pin a s st).1.1 pane_id
      ≡ without_pane a.tmux_pane_id (read_spawn_pin st) pane_id
unfolding apply_spawn_pin
read-apply_one a s st pane_id = elim (Bool-cases (is_empty a.tmux_pane_id)) [
  | inl e ↦ simp e refl
  | inr e ↦ elim (Option-cases (read_spawn_pin st a.tmux_pane_id)) [
    | inl q ↦
        let same : (apply_spawn_pin a s st).1.1 ≡ st = simp (e, q) refl in
        ap (λ (x : Staging). read_spawn_pin x pane_id) same
        ∙ missing_stays st a.tmux_pane_id pane_id q
    | inr (p, q) ↦
        let same : (apply_spawn_pin a s st).1.1 ≡ delete_spawn_pin st a.tmux_pane_id =
          ground (arith, e, q) in
        ap (λ (x : Staging). read_spawn_pin x pane_id) same
        ∙ deleted_other st a.tmux_pane_id pane_id
  ]
]

apply_none :
    (a : Agent) (s : Store) (st : Staging) → IsConsumed st a → apply_spawn_pin a s st ≡ (a, (s, st))
unfolding apply_spawn_pin
apply_none a s st h = ground arith

-- Every pin that can be read of the second staging folder can be read of the first.
abbrev Shrinks : Staging → Staging → Type 0
Shrinks st st' =
    (pane_id : String) (p : SpawnPin)
    → read_spawn_pin st' pane_id ≡ some p
    → read_spawn_pin st pane_id ≡ some p

delete-Shrinks : (st : Staging) (gone : String) → Shrinks st (delete_spawn_pin st gone)
unfolding read_spawn_pin delete_spawn_pin
delete-Shrinks st gone pane_id p h =
    ground (arith, lookup-erase (spawn_pin_filename gone) (spawn_pin_filename pane_id) st)

apply_spawn_pin-Shrinks :
    (a : Agent) (s : Store) (st : Staging) → Shrinks st (apply_spawn_pin a s st).1.1
unfolding apply_spawn_pin
apply_spawn_pin-Shrinks a s st pane_id p h =
    ground (arith, delete-Shrinks st a.tmux_pane_id pane_id p)

apply_spawn_pins-Shrinks :
    (sf : StateFile) (s : Store) (st : Staging) → Shrinks st (apply_spawn_pins sf s st).1.1
unfolding apply_spawn_pins
apply_spawn_pins-Shrinks [] s st pane_id p h = h
apply_spawn_pins-Shrinks ((k, a) ∷ sf) s st pane_id p h =
    let (a', (s', st')) = apply_spawn_pin a s st in
    apply_spawn_pin-Shrinks a s st pane_id p (apply_spawn_pins-Shrinks sf s' st' pane_id p h)

IsConsumed-later :
    (st st' : Staging) (a : Agent) → Shrinks st st' → IsConsumed st a → IsConsumed st' a
IsConsumed-later st st' a sh h = elim (Option-cases (read_spawn_pin st' a.tmux_pane_id)) [
  | inl q ↦ q
  | inr (p, q) ↦ absurd (ground (arith, sh a.tmux_pane_id p q))
]

-- No pin is left for the pane of any agent.
abbrev pub AllConsumed : Staging → StateFile → Type 0
AllConsumed st [] = Unit
AllConsumed st ((k, a) ∷ sf) = IsConsumed st a × AllConsumed st sf

-- The same agents in the same order: each in turn takes the pin of its pane.
abbrev pub AllHandedOver : Pins → StateFile → StateFile → Type 0
AllHandedOver pins [] [] = Unit
AllHandedOver pins ((k, a) ∷ sf) ((k', a') ∷ sf') =
    (k ≡ k')
    × (IsHandedOver (pins a.tmux_pane_id) a a'
        × AllHandedOver (without_pane a.tmux_pane_id pins) sf sf')
AllHandedOver pins [] (_ ∷ _) = ⊥
AllHandedOver pins (_ ∷ _) [] = ⊥

all_consumed :
    (sf : StateFile) (s : Store) (st : Staging)
    → let (sf', (s', st')) = apply_spawn_pins sf s st in AllConsumed st' sf'
unfolding apply_spawn_pins
all_consumed [] s st = tt
all_consumed ((k, a) ∷ sf) s st =
    let (a', (s', st')) = apply_spawn_pin a s st in
    let (_, (same_pane, gone)) = apply_one a s st in
    let st'' = (apply_spawn_pins sf s' st').1.1 in
    (
      rw same_pane (IsConsumed-later st' st'' a (apply_spawn_pins-Shrinks sf s' st') gone),
      all_consumed sf s' st',
    )

without_pane-same :
    (gone pane_id : String) (pins pins' : Pins)
    → pins pane_id ≡ pins' pane_id
    → without_pane gone pins pane_id ≡ without_pane gone pins' pane_id
without_pane-same gone pane_id pins pins' h = ground arith

all_handed_over :
    (sf : StateFile) (s : Store) (st : Staging) (pins : Pins)
    → ((pane_id : String) → read_spawn_pin st pane_id ≡ pins pane_id)
    → AllHandedOver pins sf (apply_spawn_pins sf s st).0
unfolding apply_spawn_pins
all_handed_over [] s st pins h = tt
all_handed_over ((k, a) ∷ sf) s st pins h =
    let (a', (s', st')) = apply_spawn_pin a s st in
    (
      refl,
      (
        subst (λ o. IsHandedOver o a a') (h a.tmux_pane_id) (apply_one a s st).0,
        all_handed_over sf s' st' (without_pane a.tmux_pane_id pins) (λ pane_id.
            read-apply_one a s st pane_id
            ∙ without_pane-same a.tmux_pane_id pane_id (read_spawn_pin st) pins (h pane_id)),
      ),
    )

pub apply_consumed :
    (sf : StateFile) (s : Store) (st : Staging)
    → AllConsumed st sf
    → apply_spawn_pins sf s st ≡ (sf, (s, st))
unfolding apply_spawn_pins
apply_consumed [] s st h = refl
apply_consumed ((k, a) ∷ sf) s st (h, hs) =
    ground (arith, apply_none a s st h, apply_consumed sf s st hs)

-- `ApplySpawnPins` settles in one pass, whatever is staged: the agents in turn take the pins of their
-- panes, so that an agent without a worktree is put on the worktree and branch of its pin if the pin
-- has one, and every other agent is as it was; no pin that can be read is left for the pane of any
-- agent; and a second pass changes no agent, no file and no marker.
pub apply_spawn_pins_settles :
    (sf : StateFile) (s : Store) (st : Staging)
    → let (sf', (s', st')) = apply_spawn_pins sf s st in
      AllHandedOver (read_spawn_pin st) sf sf'
      × (AllConsumed st' sf' × (apply_spawn_pins sf' s' st' ≡ (sf', (s', st'))))
apply_spawn_pins_settles sf s st =
    let (sf', (s', st')) = apply_spawn_pins sf s st in
    let consumed = all_consumed sf s st in
    (
      all_handed_over sf s st (read_spawn_pin st) (λ pane_id. refl),
      (consumed, apply_consumed sf' s' st' consumed),
    )
