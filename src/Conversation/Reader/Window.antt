-- ===== src/Conversation/Reader/Window.antt =====
-- internal/conversation/conversation.go: the window of the last entries, cut in one step or in two.
use agent_dashboard.Common.{
  ℕ, zero, suc, ◌+◌, ◌-◌, ◌≤◌, ◌<◌, ◌≡◌, refl, sym, ◌∙◌, List, [], ◌∷◌, ◌++◌, length, length-append,
  take, drop, filter_by, inl, inr, ltb, if◌then◌else◌, arith, Bool-cases,
}
use agent_dashboard.Conversation.Entries.{ConversationEntry, is_plan_saved, plan_saved_emitted}
use agent_dashboard.Conversation.Reader.{cap_entries}

-- The last `limit` entries, and of the others the plans.
window : ℕ → List ConversationEntry → List ConversationEntry
window limit [] = []
window limit (e ∷ es) =
    let rest = window limit es in
    if ltb limit (suc (length es)) then (if is_plan_saved e then e ∷ rest else rest) else e ∷ es

window-short : (limit : ℕ) (es : List ConversationEntry) → length es ≤ limit → window limit es ≡ es
unfolding window
window-short limit [] h = refl
window-short limit (e ∷ es) h = ground arith

cap_cons :
    (limit over : ℕ) (e : ConversationEntry) (es : List ConversationEntry)
    → filter_by is_plan_saved (take (suc over) (e ∷ es)) ++ drop (suc over) (e ∷ es) ≡ (
        if is_plan_saved e
        then e ∷ (filter_by is_plan_saved (take over es) ++ drop over es)
        else filter_by is_plan_saved (take over es) ++ drop over es)
cap_cons limit over e es = ground arith

cut-eq-window :
    (limit over : ℕ) (es : List ConversationEntry)
    → length es ≡ over + limit
    → filter_by is_plan_saved (take over es) ++ drop over es ≡ window limit es
unfolding window
cut-eq-window limit zero es h = sym (window-short limit es (omega (arith, h)))
cut-eq-window limit (suc over) [] h = ground arith
cut-eq-window limit (suc over) (e ∷ es) h =
    ground (arith, cap_cons limit over e es, cut-eq-window limit over es)

cap_entries-eq-window :
    (limit : ℕ) (es : List ConversationEntry) → 0 < limit → cap_entries limit es ≡ window limit es
unfolding cap_entries
cap_entries-eq-window limit es h = elim (Bool-cases (ltb limit (length es))) [
  | inl e ↦ ground (arith, cut-eq-window limit (length es - limit) es)
  | inr e ↦ ground (arith, window-short limit es)
]

length-window :
    (limit : ℕ) (es : List ConversationEntry) → limit ≤ length es → limit ≤ length (window limit es)
unfolding window
length-window limit [] h = h
length-window limit (e ∷ es) h = ground (arith, length-window limit es)

window-window :
    (limit : ℕ) (es more : List ConversationEntry)
    → window limit (window limit es ++ more) ≡ window limit (es ++ more)
unfolding window
window-window limit [] more = refl
window-window limit (e ∷ es) more = ground (
  arith,
  window-window limit es more,
  length-window limit es,
  length-append es more,
  length-append (window limit es) more,
)

last-window :
    (limit : ℕ) (es : List ConversationEntry) (z : ConversationEntry)
    → 0 < limit
    → (front : List ConversationEntry) × (window limit (es ++ z ∷ []) ≡ front ++ z ∷ [])
unfolding window
last-window limit [] z h = ([], window-short limit (z ∷ []) (omega arith))
last-window limit (e ∷ es) z h = elim (Bool-cases (ltb limit (suc (length (es ++ z ∷ []))))) [
  | inr short ↦ (e ∷ es, rw short refl)
  | inl long ↦ rw long (kept e (last-window limit es z h))
]
  where
    kept :
        (e : ConversationEntry)
        → (front : List ConversationEntry) × (window limit (es ++ z ∷ []) ≡ front ++ z ∷ [])
        → (front : List ConversationEntry) × ((if is_plan_saved e
              then e ∷ window limit (es ++ z ∷ [])
              else window limit (es ++ z ∷ []))
            ≡ front ++ z ∷ [])
    kept e (front, h) = elim (Bool-cases (is_plan_saved e)) [
      | inl plan ↦ (e ∷ front, rw (plan, h) refl)
      | inr other ↦ (front, rw (other, h) refl)
    ]

plan_saved_emitted-window :
    (limit : ℕ) (es more : List ConversationEntry)
    → plan_saved_emitted (window limit es ++ more) ≡ plan_saved_emitted (es ++ more)
unfolding window plan_saved_emitted
plan_saved_emitted-window limit [] more = refl
plan_saved_emitted-window limit (e ∷ es) more =
    ground (arith, plan_saved_emitted-window limit es more)

-- A window of a window with more entries is the window of all.
pub cap_entries-cap_entries :
    (limit : ℕ) (es more : List ConversationEntry)
    → cap_entries limit (cap_entries limit es ++ more) ≡ cap_entries limit (es ++ more)
unfolding cap_entries
cap_entries-cap_entries zero es more = refl
cap_entries-cap_entries (suc limit) es more =
    let l : ℕ = suc limit in
    rw
      (
        cap_entries-eq-window l es (omega arith),
        cap_entries-eq-window l (window l es ++ more) (omega arith),
        cap_entries-eq-window l (es ++ more) (omega arith),
      )
      (window-window l es more)

-- The last entry stays the last.
pub last-cap_entries :
    (limit : ℕ) (es : List ConversationEntry) (z : ConversationEntry)
    → (front : List ConversationEntry) × (cap_entries limit (es ++ z ∷ []) ≡ front ++ z ∷ [])
unfolding cap_entries
last-cap_entries zero es z = (es, refl)
last-cap_entries (suc limit) es z =
    let (front, e) = last-window (suc limit) es z (omega arith) in
    (front, cap_entries-eq-window (suc limit) (es ++ z ∷ []) (omega arith) ∙ e)

pub cap_entries-nil : (limit : ℕ) → cap_entries limit [] ≡ []
unfolding cap_entries
cap_entries-nil limit = ground arith

-- No plan is lost.
pub plan_saved_emitted-cap_entries :
    (limit : ℕ) (es more : List ConversationEntry)
    → plan_saved_emitted (cap_entries limit es ++ more) ≡ plan_saved_emitted (es ++ more)
unfolding cap_entries
plan_saved_emitted-cap_entries zero es more = refl
plan_saved_emitted-cap_entries (suc limit) es more =
    rw (cap_entries-eq-window (suc limit) es (omega arith))
      (plan_saved_emitted-window (suc limit) es more)
