-- ===== src/Harness/Input/Queue.antt =====
-- When a reply is queued behind a turn in flight.
use agent_dashboard.Common.{
  String, ◌≡◌, ◌≢◌, ◌↔◌, ◌⊎◌, true, Option, none, some, List, [], ◌∷◌, Any, str_eq_iff, arith,
}
use agent_dashboard.Harness.Input.{
  queued, at_once, contains, pane_shows_queue_hint, fallback_submit_keys, submit_keys_after_paste,
}

-- The pane was captured, and some line of it tells the user to press Tab.
abbrev pub IsHinted : (String → String) → Option (List String) → Type 0
IsHinted to_lower none = ⊥
IsHinted to_lower (some lines) =
    Any (λ (line : String). contains (to_lower line) "tab to queue" ≡ true) lines

-- The pane could not be captured, or is empty.
abbrev pub IsUnreadable : Option (List String) → Type 0
IsUnreadable none = Unit
IsUnreadable (some []) = Unit
IsUnreadable (some (line ∷ lines)) = ⊥

queued≢at_once : queued ≢ at_once
queued≢at_once e = ground arith

hint_iff :
    (to_lower : String → String) (lines : List String)
    → (pane_shows_queue_hint to_lower lines ≡ true) ↔ IsHinted to_lower (some lines)
unfolding pane_shows_queue_hint
hint_iff to_lower [] = ground arith
hint_iff to_lower (line ∷ lines) = ground (arith, hint_iff to_lower lines)

-- A reply is queued, by Tab and then Enter, exactly if the agent asks for a permission or presents a
-- plan, or the footer of the pane shows the hint, or the agent is running and its pane cannot be
-- read; in every other case Enter sends it at once.
pub submit_keys_after_paste_iff :
    (to_lower : String → String) (capture : Option (List String)) (state : String)
    → ((submit_keys_after_paste to_lower capture state ≡ "Tab" ∷ "Enter" ∷ []) ↔ (
        (state ≡ "permission")
        ⊎ ((state ≡ "plan")
            ⊎ (IsHinted to_lower capture ⊎ ((state ≡ "running") × IsUnreadable capture)))))
      × ((submit_keys_after_paste to_lower capture state ≡ "Tab" ∷ "Enter" ∷ [])
          ⊎ (submit_keys_after_paste to_lower capture state ≡ "Enter" ∷ []))
unfolding submit_keys_after_paste fallback_submit_keys
submit_keys_after_paste_iff to_lower none state = ground (
  arith,
  queued≢at_once,
  str_eq_iff state "permission",
  str_eq_iff state "plan",
  str_eq_iff state "running",
)
submit_keys_after_paste_iff to_lower (some []) state = ground (
  arith,
  queued≢at_once,
  str_eq_iff state "permission",
  str_eq_iff state "plan",
  str_eq_iff state "running",
)
submit_keys_after_paste_iff to_lower (some (line ∷ lines)) state = ground (
  arith,
  queued≢at_once,
  str_eq_iff state "permission",
  str_eq_iff state "plan",
  str_eq_iff state "running",
  hint_iff to_lower (line ∷ lines),
)
