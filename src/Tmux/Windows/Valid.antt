-- ===== src/Tmux/Windows/Valid.antt =====
-- internal/tmux/tmux.go: a new pane is reported only under a target that `ValidateTarget` accepts.
use agent_dashboard.Tmux.Windows.Language.{
  IsTarget, validate_target-IsTarget, IsTarget-validate_target,
}
use Prim.Native.Char.{Char, code}
use Prim.Native.String.{◌++◌}
use agent_dashboard.Common.Chars.{
  cut_at, cut_at-append, cut_at-some, cut_at-missing, cut_at-none, all_chars, is_not,
}
use agent_dashboard.Common.Text.{trim_space}
use agent_dashboard.Common.{
  ◌⊎◌, String, ◌≡◌, ◌↔◌, inl, inr, refl, sym, ap, ◌∙◌, true, Option, none, some, List, arith,
  if◌then◌else◌, Bool-cases, Option-cases,
}
use agent_dashboard.Tmux.{validate_target, Runner}
use agent_dashboard.Tmux.Windows.{
  parse_pane_id_and_target, reported_pane, tmux_new_window, new_window_args, tmux_split_window,
  split_window_args,
}

-- A text, without the space around it, is the pane's id up to the first tab and then, without the
-- space around it, the target; or it has no tab, is the target, and the id is empty.
abbrev pub Names : String → String → String → Type 0
Names text target pane_id =
    ((c : Char) × (rest : String) × (code c ≡ 9)
      × (trim_space text ≡ pane_id ++ String.◌∷◌ c rest)
      × (all_chars (is_not 9) pane_id ≡ true)
      × (trim_space rest ≡ target))
    ⊎ ((all_chars (is_not 9) (trim_space text) ≡ true)
        × (pane_id ≡ "")
        × (target ≡ trim_space text))

Names-parse :
    (text target pane_id : String)
    → Names text target pane_id
    → parse_pane_id_and_target text ≡ (pane_id, target)
unfolding parse_pane_id_and_target
Names-parse text target pane_id (inl (c, rest, is_tab, same, clear, named)) =
    let found : cut_at 9 (trim_space text) ≡ some (pane_id, rest) =
      ap (cut_at 9) same ∙ cut_at-append 9 pane_id c rest clear is_tab in
    rw (parse_pane_id_and_target, found) (ap (λ (x : String). (pane_id, x)) named)
Names-parse text target pane_id (inr (clear, empty, same)) =
    rw (parse_pane_id_and_target, cut_at-none 9 (trim_space text) clear)
      (ap (λ (x : String). (x, trim_space text)) (sym empty)
        ∙ ap (λ (x : String). (pane_id, x)) (sym same))

missing_parse :
    (text : String)
    → cut_at 9 (trim_space text) ≡ none
    → parse_pane_id_and_target text ≡ ("", trim_space text)
unfolding parse_pane_id_and_target
missing_parse text h = rw (parse_pane_id_and_target, h) refl

found_parse :
    (text a b : String)
    → cut_at 9 (trim_space text) ≡ some (a, b)
    → parse_pane_id_and_target text ≡ (a, trim_space b)
unfolding parse_pane_id_and_target
found_parse text a b h = rw (parse_pane_id_and_target, h) refl

parse-Names :
    (text target pane_id : String)
    → parse_pane_id_and_target text ≡ (pane_id, target)
    → Names text target pane_id
unfolding parse_pane_id_and_target
parse-Names text target pane_id h = elim (Option-cases (cut_at 9 (trim_space text))) [
  | inl missing ↦
      let parsed : ("", trim_space text) ≡ (pane_id, target) =
        sym (missing_parse text missing) ∙ h in
      inr (
        cut_at-missing 9 (trim_space text) missing,
        sym (ap (λ (p : String × String). p.0) parsed),
        sym (ap (λ (p : String × String). p.1) parsed),
      )
  | inr ((a, b), found) ↦
      let parsed : (a, trim_space b) ≡ (pane_id, target) = sym (found_parse text a b found) ∙ h in
      let front : a ≡ pane_id = ap (λ (p : String × String). p.0) parsed in
      let (clear, (c, is_tab, same)) = cut_at-some 9 (trim_space text) a b found in
      inl (
        c,
        b,
        is_tab,
        same ∙ ap (λ (x : String). x ++ String.◌∷◌ c b) front,
        ap (all_chars (is_not 9)) (sym front) ∙ clear,
        ap (λ (p : String × String). p.1) parsed,
      )
]

-- What tmux printed of the new pane, and that it is usable.
abbrev pub Reports : Option String → String → String → Type 0
Reports out target pane_id =
    (text : String) × (out ≡ some text) × Names text target pane_id × IsTarget target

abbrev checked : String × String → Option (String × String)
checked p = if validate_target p.1 then some (p.1, p.0) else none

accepted :
    (p : String × String) (target pane_id : String)
    → checked p ≡ some (target, pane_id)
    → (p ≡ (pane_id, target)) × (validate_target target ≡ true)
accepted (i, t) target pane_id h = elim (Bool-cases (validate_target t)) [
  | inl e ↦
      let same_t : t ≡ target = ground arith in
      let same_i : i ≡ pane_id = ground arith in
      (
        ap (λ (x : String). (x, t)) same_i ∙ ap (λ (x : String). (pane_id, x)) same_t,
        ap validate_target (sym same_t) ∙ e,
      )
  | inr e ↦ ground arith
]

reported_pane-Reports :
    (out : Option String) (target pane_id : String)
    → reported_pane out ≡ some (target, pane_id)
    → Reports out target pane_id
unfolding reported_pane
reported_pane-Reports none target pane_id h = ground arith
reported_pane-Reports (some text) target pane_id h =
    let (same, valid) = accepted (parse_pane_id_and_target text) target pane_id h in
    (text, refl, parse-Names text target pane_id same, validate_target-IsTarget target valid)

pub reported_pane-IsTarget :
    (out : Option String) (target pane_id : String)
    → reported_pane out ≡ some (target, pane_id)
    → IsTarget target
reported_pane-IsTarget out target pane_id h =
    let (text, e, parsed, valid) = reported_pane-Reports out target pane_id h in valid

Reports-reported_pane :
    (out : Option String) (target pane_id : String)
    → Reports out target pane_id
    → reported_pane out ≡ some (target, pane_id)
unfolding reported_pane
Reports-reported_pane out target pane_id (text, e, named, valid) =
    rw (e, Names-parse text target pane_id named, IsTarget-validate_target target valid) refl

module _ {W : Type 0} (r : Runner W) where
  pub tmux_split_window-reported_pane :
      (session_window dir : String) (cmd : List String) (w : W)
      → (tmux_split_window r session_window dir cmd w).0
        ≡ reported_pane (r.output (split_window_args session_window dir cmd) w).0
  unfolding tmux_split_window
  tmux_split_window-reported_pane session_window dir cmd w =
      elim (Option-cases
        (reported_pane (r.output (split_window_args session_window dir cmd) w).0)) [
          | inl e ↦ rw (tmux_split_window, e) refl
          | inr (pane, e) ↦ rw (tmux_split_window, e) refl
        ]

  -- `TmuxNewWindow` and `TmuxSplitWindow` report a new pane exactly if tmux succeeds and prints a
  -- target in the language of the regular expression behind the pane's id and a tab, or alone, where
  -- the id is empty; all else is an error.
  pub new_pane_iff :
      (session name window dir target pane_id : String) (cmd : List String) (w : W)
      → (((tmux_new_window r session name dir cmd w).0 ≡ some (target, pane_id))
          ↔ Reports (r.output (new_window_args session name dir cmd) w).0 target pane_id)
        × (((tmux_split_window r window dir cmd w).0 ≡ some (target, pane_id))
            ↔ Reports (r.output (split_window_args window dir cmd) w).0 target pane_id)
  unfolding tmux_new_window
  new_pane_iff session name window dir target pane_id cmd w =
      let new = (r.output (new_window_args session name dir cmd) w).0 in
      let split = (r.output (split_window_args window dir cmd) w).0 in
      (
        (reported_pane-Reports new target pane_id, Reports-reported_pane new target pane_id),
        rw (tmux_split_window-reported_pane window dir cmd w) (
          reported_pane-Reports split target pane_id,
          Reports-reported_pane split target pane_id,
        ),
      )
