-- ===== src/Web/Trust/Shown.antt =====
-- Every pane at a trust prompt is in the list, flagged, and only once.
mod Examples
use mathlib.Core.Bool.{true≢false}
use agent_dashboard.Common.{
  ◌<◌, ℕ, suc, ◌+◌, String, ◌≡◌, ◌⊎◌, inl, inr, refl, sym, subst, ap, ◌∙◌, Bool, true, false, ◌&&◌,
  Option, none, some, List, [], ◌∷◌, ◌++◌, map, any, All, count_by, str_eq, str_eq_iff, is_empty,
  non_empty, arith, Bool-cases, Option-cases, if◌then◌else◌,
}
use agent_dashboard.Common.Dict.{lookup, insert, erase, lookup-insert, lookup-erase}
use agent_dashboard.Domain.{Agent}
use agent_dashboard.Web.Trust.{
  TrustPanes, TrustPaneRecord, mark_trust_pane, clear_trust_pane, flag_trust, is_matched,
  placeholder, placeholders, apply_trust_flags,
}

-- A Go map has a key once.
abbrev pub IsMap : TrustPanes → Type 0
IsMap [] = Unit
IsMap ((pane_id, rec) ∷ m) = (lookup pane_id m ≡ none) × IsMap m

insert-IsMap : (k : String) (v : TrustPaneRecord) (m : TrustPanes) → IsMap m → IsMap (insert k v m)
unfolding lookup insert
insert-IsMap k v [] h = (refl, tt)
insert-IsMap k v ((j, w) ∷ m) (new, h) = elim (Bool-cases (str_eq j k)) [
  | inl e ↦ rw e (subst (λ x. lookup x m ≡ none) ((str_eq_iff j k).0 e) new, h)
  | inr e ↦
      rw e (
        ground (arith, lookup-insert k j v m, str_eq_iff k j, str_eq_iff j k),
        insert-IsMap k v m h,
      )
]

erase-IsMap : (k : String) (m : TrustPanes) → IsMap m → IsMap (erase k m)
unfolding erase
erase-IsMap k [] h = tt
erase-IsMap k ((j, w) ∷ m) (new, h) = elim (Bool-cases (str_eq j k)) [
  | inl e ↦ rw e (erase-IsMap k m h)
  | inr e ↦
      rw e (ground (arith, lookup-erase k j m, str_eq_iff k j, str_eq_iff j k), erase-IsMap k m h)
]

abbrev pub on_pane : String → Agent → Bool
on_pane pane_id a = str_eq a.tmux_pane_id pane_id

abbrev pub AreFlagged : String → List Agent → Type 0
AreFlagged pane_id agents =
    All (λ (a : Agent). (on_pane pane_id a ≡ false) ⊎ (a.trust_prompt_detected ≡ true)) agents

count_by-append :
    (p : Agent → Bool) (a b : List Agent) → count_by p (a ++ b) ≡ count_by p a + count_by p b
count_by-append p [] b = omega arith
count_by-append p (x ∷ a) b = ground (arith, count_by-append p a b)

All-append : (P : Agent → Type 0) (a b : List Agent) → All P a → All P b → All P (a ++ b)
All-append P [] b ha hb = hb
All-append P (x ∷ a) b (hx, ha) hb = (hx, All-append P a b ha hb)

pane-flag_trust : (m : TrustPanes) (a : Agent) → (flag_trust m a).tmux_pane_id ≡ a.tmux_pane_id
unfolding flag_trust
pane-flag_trust m a = ground arith

count_by-flag_trust :
    (p : String) (m : TrustPanes) (agents : List Agent)
    → count_by (on_pane p) (map (flag_trust m) agents) ≡ count_by (on_pane p) agents
count_by-flag_trust p m [] = refl
count_by-flag_trust p m (a ∷ agents) = rw (pane-flag_trust m a, count_by-flag_trust p m agents) refl

flag_trust-IsFlagged :
    (p : String) (rec : TrustPaneRecord) (m : TrustPanes) (a : Agent)
    → is_empty p ≡ false
    → lookup p m ≡ some rec
    → (on_pane p (flag_trust m a) ≡ false) ⊎ ((flag_trust m a).trust_prompt_detected ≡ true)
unfolding flag_trust
flag_trust-IsFlagged p rec m a full h = elim (Bool-cases (on_pane p a)) [
  | inr e ↦ inl (rw (pane-flag_trust m a) e)
  | inl e ↦ inr (rw (flag_trust, (str_eq_iff a.tmux_pane_id p).0 e, full, h) refl)
]

flag_trust-AreFlagged :
    (p : String) (rec : TrustPaneRecord) (m : TrustPanes) (agents : List Agent)
    → is_empty p ≡ false
    → lookup p m ≡ some rec
    → AreFlagged p (map (flag_trust m) agents)
flag_trust-AreFlagged p rec m [] full h = tt
flag_trust-AreFlagged p rec m (a ∷ agents) full h =
    (flag_trust-IsFlagged p rec m a full h, flag_trust-AreFlagged p rec m agents full h)

placeholders-AreFlagged :
    (harness p : String) (agents : List Agent) (m : TrustPanes)
    → AreFlagged p (placeholders harness agents m)
unfolding placeholders placeholder
placeholders-AreFlagged harness p agents [] = tt
placeholders-AreFlagged harness p agents ((k, rec) ∷ m) = elim (Bool-cases (is_matched agents k)) [
  | inl e ↦ rw e (placeholders-AreFlagged harness p agents m)
  | inr e ↦ rw e (inr refl, placeholders-AreFlagged harness p agents m)
]

pane-placeholder :
    (harness k : String) (rec : TrustPaneRecord) → (placeholder harness k rec).tmux_pane_id ≡ k
unfolding placeholder
pane-placeholder harness k rec = refl

placeholders-matched :
    (harness p : String) (agents : List Agent) (m : TrustPanes)
    → is_matched agents p ≡ true
    → count_by (on_pane p) (placeholders harness agents m) ≡ 0
unfolding placeholders
placeholders-matched harness p agents [] h = refl
placeholders-matched harness p agents ((k, rec) ∷ m) h = elim (Bool-cases (is_matched agents k)) [
  | inl e ↦ rw e (placeholders-matched harness p agents m h)
  | inr e ↦ elim (Bool-cases (str_eq k p)) [
    | inl f ↦ absurd (true≢false (sym h ∙ ap (is_matched agents) (sym ((str_eq_iff k p).0 f)) ∙ e))
    | inr f ↦ rw (e, pane-placeholder harness k rec, f) (placeholders-matched harness p agents m h)
  ]
]

placeholders-absent :
    (harness p : String) (agents : List Agent) (m : TrustPanes)
    → lookup p m ≡ none
    → count_by (on_pane p) (placeholders harness agents m) ≡ 0
unfolding placeholders lookup
placeholders-absent harness p agents [] h = refl
placeholders-absent harness p agents ((k, rec) ∷ m) h = elim (Bool-cases (str_eq k p)) [
  | inl f ↦ ground arith
  | inr f ↦ elim (Bool-cases (is_matched agents k)) [
    | inl e ↦ rw e (placeholders-absent harness p agents m (ground arith))
    | inr e ↦
        rw (e, pane-placeholder harness k rec, f)
          (placeholders-absent harness p agents m (ground arith))
  ]
]

placeholders-once :
    (harness p : String) (agents : List Agent) (m : TrustPanes) (rec : TrustPaneRecord)
    → IsMap m
    → lookup p m ≡ some rec
    → is_matched agents p ≡ false
    → count_by (on_pane p) (placeholders harness agents m) ≡ 1
unfolding placeholders lookup
placeholders-once harness p agents [] rec u h n = ground arith
placeholders-once harness p agents ((k, v) ∷ m) rec (new, u) h n = elim (Bool-cases (str_eq k p)) [
  | inl f ↦
      let same = (str_eq_iff k p).0 f in
      rw (ap (is_matched agents) same ∙ n, pane-placeholder harness k v, f)
        (ap suc (placeholders-absent harness p agents m (subst (λ x. lookup x m ≡ none) same new)))
  | inr f ↦ elim (Bool-cases (is_matched agents k)) [
    | inl e ↦ rw e (placeholders-once harness p agents m rec u (ground arith) n)
    | inr e ↦
        rw (e, pane-placeholder harness k v, f)
          (placeholders-once harness p agents m rec u (ground arith) n)
  ]
]

is_matched-count_by :
    (p : String) (agents : List Agent)
    → is_empty p ≡ false
    → ((is_matched agents p ≡ true) × (0 < count_by (on_pane p) agents))
      ⊎ ((is_matched agents p ≡ false) × (count_by (on_pane p) agents ≡ 0))
unfolding is_matched
is_matched-count_by p [] full = inr (refl, refl)
is_matched-count_by p (a ∷ agents) full = elim (Bool-cases (on_pane p a)) [
  | inl e ↦
      let same = (str_eq_iff a.tmux_pane_id p).0 e in
      inl (rw (e, ap is_empty same ∙ full) refl, rw e (omega arith))
  | inr e ↦ elim (is_matched-count_by p agents full) [
    | inl (m, c) ↦ inl (ground arith, rw e c)
    | inr (m, c) ↦ inr (ground arith, rw e c)
  ]
]

apply_trust_flags-append :
    (harness p : String) (rec : TrustPaneRecord) (m : TrustPanes) (agents : List Agent)
    → lookup p m ≡ some rec
    → apply_trust_flags harness m agents
      ≡ placeholders harness agents m ++ map (flag_trust m) agents
unfolding apply_trust_flags lookup
apply_trust_flags-append harness p rec [] agents h = ground arith
apply_trust_flags-append harness p rec ((k, v) ∷ m) agents h = refl

-- If the trust set, a map, has a pane, then every agent that the list shows on this pane is flagged;
-- and the list shows as many agents on it as before, or exactly one if there was none before.
pub apply_trust_flags-shown :
    (harness p : String) (rec : TrustPaneRecord) (m : TrustPanes) (agents : List Agent)
    → IsMap m
    → is_empty p ≡ false
    → lookup p m ≡ some rec
    → AreFlagged p (apply_trust_flags harness m agents)
      × (((0 < count_by (on_pane p) agents)
            × (count_by (on_pane p) (apply_trust_flags harness m agents)
                ≡ count_by (on_pane p) agents))
          ⊎ ((count_by (on_pane p) agents ≡ 0)
              × (count_by (on_pane p) (apply_trust_flags harness m agents) ≡ 1)))
apply_trust_flags-shown harness p rec m agents u full h =
    let new = placeholders harness agents m in
    let old = map (flag_trust m) agents in
    rw
      (
        apply_trust_flags-append harness p rec m agents h,
        count_by-append (on_pane p) new old,
        count_by-flag_trust p m agents,
      )
      (
        All-append (λ (a : Agent). (on_pane p a ≡ false) ⊎ (a.trust_prompt_detected ≡ true)) new old
            (placeholders-AreFlagged harness p agents m)
            (flag_trust-AreFlagged p rec m agents full h),
        elim (is_matched-count_by p agents full) [
          | inl (e, c) ↦ inl (c, omega (arith, placeholders-matched harness p agents m e))
          | inr (e, c) ↦ inr (c, omega (arith, c, placeholders-once harness p agents m rec u h e))
        ],
      )

-- The trust set stays a map.
pub mark_trust_pane-IsMap :
    (p folder target : String) (m : TrustPanes)
    → IsMap m
    → IsMap (mark_trust_pane p folder target m)
unfolding mark_trust_pane
mark_trust_pane-IsMap p folder target m h = elim (Bool-cases (is_empty p)) [
  | inl e ↦ rw e h
  | inr e ↦ rw e (insert-IsMap p (record { folder = folder; target = target }) m h)
]

pub clear_trust_pane-IsMap : (p : String) (m : TrustPanes) → IsMap m → IsMap (clear_trust_pane p m)
unfolding clear_trust_pane
clear_trust_pane-IsMap p m h = elim (Bool-cases (is_empty p)) [
  | inl e ↦ rw e h
  | inr e ↦ rw e (erase-IsMap p m h)
]
