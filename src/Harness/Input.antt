-- ===== src/Harness/Input.antt =====
-- internal/harness/codex/input.go: the keys that submit a reply to Codex. Parameters: `to_lower` is
-- `strings.ToLower`, and the lines are what tmux captures of the pane, `none` for an error. The
-- pause before the capture is left out.
pub mod Queue
use agent_dashboard.Common.{
  String, Bool, true, false, ◌||◌, Option, none, some, List, [], ◌∷◌, str_eq, is_empty,
  if◌then◌else◌,
}
use agent_dashboard.Common.Text.{cut_prefix}

-- `strings.HasPrefix` and `strings.Contains`.
abbrev pub has_prefix : String → String → Bool
has_prefix s prefix = elim (cut_prefix prefix s) [ none ↦ false | some rest ↦ true ]

unfoldable pub contains : String → String → Bool
contains String.[] sub = has_prefix "" sub
contains (String.◌∷◌ c s) sub =
    let rest = contains s sub in if has_prefix (String.◌∷◌ c s) sub then true else rest

abbrev pub queued : List String
queued = "Tab" ∷ "Enter" ∷ []

abbrev pub at_once : List String
at_once = "Enter" ∷ []

unfoldable pub fallback_submit_keys : String → List String
fallback_submit_keys state =
    if str_eq state "running" || str_eq state "permission" || str_eq state "plan"
    then queued
    else at_once

module _ (to_lower : String → String) where
  unfoldable pub pane_shows_queue_hint : List String → Bool
  pane_shows_queue_hint [] = false
  pane_shows_queue_hint (line ∷ lines) =
      let rest = pane_shows_queue_hint lines in
      if contains (to_lower line) "tab to queue" then true else rest

  unfoldable pub submit_keys_after_paste : Option (List String) → String → List String
  submit_keys_after_paste none state = fallback_submit_keys state
  submit_keys_after_paste (some []) state = fallback_submit_keys state
  submit_keys_after_paste (some (line ∷ lines)) state =
      if pane_shows_queue_hint (line ∷ lines)
      then queued
      else if str_eq state "permission" || str_eq state "plan"
      then queued
      else at_once
