-- ===== src/Tmux/Panes.antt =====
-- internal/tmux/tmux.go: `TmuxIsAvailable` and `TmuxListLivePaneIDs`.
use agent_dashboard.Common.{
  String, Bool, Option, none, some, List, [], ◌∷◌, is_empty, if◌then◌else◌,
}
use agent_dashboard.Common.Text.{trim_space}
use agent_dashboard.Common.Chars.{cut_at}
use agent_dashboard.Tmux.{word, Runner}
use agent_dashboard.Tmux.Windows.{split_newlines}

-- The first field of a line, and the second one if there is a tab.
unfoldable pub pane_fields : String → String × Option String
pane_fields line = elim (cut_at 9 line) [ none ↦ (line, none) | some (id, pid) ↦ (id, some pid) ]

abbrev first_pid : String → Option String → String
first_pid server_pid none = server_pid
first_pid server_pid (some pid) = if is_empty server_pid then pid else server_pid

-- The loop; `server_pid` is the first pid that is not empty.
unfoldable pub live_panes_of : List String → List String → String → List String × String
live_panes_of [] panes server_pid = (panes, server_pid)
live_panes_of (line ∷ lines) panes server_pid =
    let skipped = live_panes_of lines panes server_pid in
    let (id, pid) = pane_fields line in
    let counted = live_panes_of lines (id ∷ panes) (first_pid server_pid pid) in
    if is_empty line then skipped else counted

module _ {W : Type 0} (r : Runner W) where
  unfoldable pub tmux_is_available : W → Bool × W
  tmux_is_available w = r.run (word "list-sessions" ∷ []) w

  -- `none` is the nil map of an error.
  unfoldable pub tmux_list_live_pane_ids : W → (Option (List String) × String) × W
  tmux_list_live_pane_ids w =
      let (out, w') =
        r.output (word "list-panes" ∷ word "-a" ∷ word "-F" ∷ word "#{pane_id}\t#{pid}" ∷ []) w in
      (
        elim out [
          | none ↦ (none, "")
          | some text ↦
              let (panes, pid) = live_panes_of (split_newlines (trim_space text)) [] "" in
              (some panes, pid)
        ],
        w',
      )
