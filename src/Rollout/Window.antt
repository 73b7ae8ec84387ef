-- ===== src/Rollout/Window.antt =====
-- internal/codex/conversation/parser.go: the last entries of a conversation, cut in one step or in
-- two.
use agent_dashboard.Common.{
  ℕ, zero, suc, ◌+◌, ◌-◌, ◌≤◌, ◌<◌, ◌≡◌, refl, sym, List, [], ◌∷◌, ◌++◌, length, length-append,
  drop, inl, inr, ltb, if◌then◌else◌, arith, Bool-cases,
}
use agent_dashboard.Conversation.Entries.{ConversationEntry}
use agent_dashboard.Rollout.{keep_last}

-- The last `limit` entries.
window : ℕ → List ConversationEntry → List ConversationEntry
window limit [] = []
window limit (e ∷ es) =
    let rest = window limit es in if ltb limit (suc (length es)) then rest else e ∷ es

window-short : (limit : ℕ) (es : List ConversationEntry) → length es ≤ limit → window limit es ≡ es
unfolding window
window-short limit [] h = refl
window-short limit (e ∷ es) h = ground arith

drop-eq-window :
    (limit over : ℕ) (es : List ConversationEntry)
    → length es ≡ over + limit
    → drop over es ≡ window limit es
unfolding window
drop-eq-window limit zero es h = sym (window-short limit es (omega (arith, h)))
drop-eq-window limit (suc over) [] h = ground arith
drop-eq-window limit (suc over) (e ∷ es) h = ground (arith, drop-eq-window limit over es)

keep_last-eq-window :
    (limit : ℕ) (es : List ConversationEntry) → 0 < limit → keep_last limit es ≡ window limit es
unfolding keep_last
keep_last-eq-window limit es h = elim (Bool-cases (ltb limit (length es))) [
  | inl e ↦ ground (arith, drop-eq-window limit (length es - limit) es)
  | inr e ↦ ground (arith, window-short limit es)
]

length-window :
    (limit : ℕ) (es : List ConversationEntry) → limit ≤ length es → limit ≤ length (window limit es)
unfolding window
length-window limit [] h = h
length-window limit (e ∷ es) h = ground (arith, length-window limit es)

window-window :
    (limit : ℕ) (es more : List ConversationEntry)
    → window limit (window limit es ++ more) ≡ window limit (es ++ more)
unfolding window
window-window limit [] more = refl
window-window limit (e ∷ es) more = ground (
  arith,
  window-window limit es more,
  length-window limit es,
  length-append es more,
  length-append (window limit es) more,
)

-- The last entries of the last entries and more are the last of all.
pub keep_last-keep_last :
    (limit : ℕ) (es more : List ConversationEntry)
    → keep_last limit (keep_last limit es ++ more) ≡ keep_last limit (es ++ more)
unfolding keep_last
keep_last-keep_last zero es more = refl
keep_last-keep_last (suc limit) es more =
    let l : ℕ = suc limit in
    rw
      (
        keep_last-eq-window l es (omega arith),
        keep_last-eq-window l (window l es ++ more) (omega arith),
        keep_last-eq-window l (es ++ more) (omega arith),
      )
      (window-window l es more)
