-- ===== src/Tmux/Keys.antt =====
-- internal/tmux/tmux.go: the keys and texts that the dashboard sends to a pane. A text to send is
-- its bytes; `none` stands for a loop that ran out of fuel.
use agent_dashboard.Common.{
  ℕ, zero, suc, String, Bool, true, false, Option, none, some, List, [], ◌∷◌, length, take, drop,
  ltb, if◌then◌else◌,
}
use agent_dashboard.Tmux.{Arg, word, raw, Runner, and_then, validate_target}

abbrev pub send_keys_chunk_size : ℕ
send_keys_chunk_size = 512

-- `send-keys -t target key`, and `send-keys -l -t target chunk`.
abbrev pub press : String → String → List Arg
press target key = word "send-keys" ∷ word "-t" ∷ word target ∷ word key ∷ []

abbrev pub literal : String → List ℕ → List Arg
literal target chunk = word "send-keys" ∷ word "-l" ∷ word "-t" ∷ word target ∷ raw chunk ∷ []

unfoldable pub next_chunk : List ℕ → List ℕ
next_chunk text =
    if ltb send_keys_chunk_size (length text) then take send_keys_chunk_size text else text

module _ {W : Type 0} (r : Runner W) where
  unfoldable pub tmux_send_submit_keys : String → List String → W → Bool × W
  tmux_send_submit_keys target [] w = (true, w)
  tmux_send_submit_keys target (key ∷ keys) w =
      and_then (r.run (press target key) w) (λ w'. tmux_send_submit_keys target keys w')

  -- The loop over the text, and the keys after it.
  unfoldable pub send_loop : ℕ → String → List ℕ → List String → W → Option (Bool × W)
  send_loop fuel target [] submit_keys w = some (tmux_send_submit_keys target submit_keys w)
  send_loop zero target (b ∷ text) submit_keys w = none
  send_loop (suc fuel) target (b ∷ text) submit_keys w =
      let chunk = next_chunk (b ∷ text) in
      let (ok, w') = r.run (literal target chunk) w in
      let rest = send_loop fuel target (drop (length chunk) (b ∷ text)) submit_keys w' in
      if ok then rest else some (false, w')

  unfoldable pub tmux_send_keys_with_submit : String → List ℕ → List String → W → Option (Bool × W)
  tmux_send_keys_with_submit target text submit_keys w =
      send_loop (length text) target text submit_keys w

  unfoldable pub tmux_send_keys : String → List ℕ → W → Option (Bool × W)
  tmux_send_keys target text w = tmux_send_keys_with_submit target text ("Enter" ∷ []) w

  unfoldable pub tmux_send_keys_clearing_input :
      String → List ℕ → List String → W → Option (Bool × W)
  tmux_send_keys_clearing_input target text submit_keys w =
      let (ok, w') = r.run (press target "C-u") w in
      let rest = tmux_send_keys_with_submit target text submit_keys w' in
      if ok then rest else some (false, w')

  abbrev pub set_buffer : List ℕ → List Arg
  set_buffer text =
      word "set-buffer" ∷ word "-b" ∷ word "agent-dashboard-reply" ∷ word "--" ∷ raw text ∷ []

  abbrev pub paste_buffer : String → List Arg
  paste_buffer target =
      word "paste-buffer"
      ∷ word "-p"
      ∷ word "-r"
      ∷ word "-d"
      ∷ word "-b"
      ∷ word "agent-dashboard-reply"
      ∷ word "-t"
      ∷ word target
      ∷ []

  unfoldable pub tmux_paste_keys_clearing_input : String → List ℕ → List String → W → Bool × W
  tmux_paste_keys_clearing_input target text submit_keys w =
      if validate_target target
      then and_then (r.run (press target "C-u") w) (λ w1.
        and_then (r.run (set_buffer text) w1) (λ w2.
          and_then (r.run (paste_buffer target) w2)
            (λ w3. tmux_send_submit_keys target submit_keys w3)))
      else (false, w)

  unfoldable pub tmux_send_raw : String → String → W → Bool × W
  tmux_send_raw target key w = r.run (press target key) w

  unfoldable pub tmux_send_raw_keys : String → List String → W → Bool × W
  tmux_send_raw_keys target keys w =
      if validate_target target then tmux_send_submit_keys target keys w else (false, w)
