-- ===== src/Tmux/Examples.antt =====
-- The theorems on tmux at a concrete runner, which keeps the commands that it was given, the last
-- one first, fails from a given number of them on, and prints one pane.
use agent_dashboard.Common.{
  ℕ, ◌≡◌, ◌↔◌, refl, true, false, none, some, List, [], ◌∷◌, length, ltb, str_eq,
}
use agent_dashboard.Common.Int.{pos, negsuc}
use agent_dashboard.Common.Chars.{cut_at, drop_while}
use agent_dashboard.Common.Text.{trim_space, trim_left, trim_right, is_space}
use agent_dashboard.Tmux.{Arg, word, raw, Runner, validate_target, unsigned, atoi, parse_target}
use agent_dashboard.Tmux.Keys.{
  press, tmux_send_keys_clearing_input, tmux_send_keys_with_submit, send_loop, next_chunk,
}
use agent_dashboard.Tmux.Chunks.{AreChunksOf, calls, run_all, tmux_send_keys_clearing_input-run_all}
use agent_dashboard.Tmux.Windows.{
  parse_list_windows_output, split_newlines, windows_of, window_of, tmux_new_window,
  tmux_split_window, parse_pane_id_and_target,
}
use agent_dashboard.Tmux.Windows.Valid.{Reports, new_pane_iff}

abbrev toy : ℕ → Runner (List (List Arg))
toy limit = record {
  run = λ args w. (ltb (length w) limit, args ∷ w);
  output = λ args w. (some "%7\tmain:3.1\n", args ∷ w);
}

-- What `strconv.Atoi` accepts, `ParseTarget` does.
sign_test : parse_target "main:-1.+2" ≡ some ("main", negsuc 0, pos 2)
unfolding parse_target atoi unsigned cut_at str_eq
sign_test = refl

no_pane_test : parse_target "main:3" ≡ none
unfolding parse_target cut_at str_eq
no_pane_test = refl

tmux_send_keys_clearing_input-run_all_example :
    (chunks : List (List ℕ)) × AreChunksOf (104 ∷ 105 ∷ []) chunks
    × ((w : List (List Arg))
        → tmux_send_keys_clearing_input (toy 9) "main:3.1" (104 ∷ 105 ∷ []) ("Tab" ∷ "Enter" ∷ []) w
          ≡ some (
              run_all
                (toy 9)
                (press "main:3.1" "C-u" ∷ calls "main:3.1" chunks ("Tab" ∷ "Enter" ∷ []))
                w))
tmux_send_keys_clearing_input-run_all_example =
    tmux_send_keys_clearing_input-run_all (toy 9) "main:3.1" (104 ∷ 105 ∷ []) ("Tab" ∷ "Enter" ∷ [])

-- The text fails, so that no key follows.
stop_test :
    tmux_send_keys_clearing_input (toy 1) "main:3.1" (104 ∷ 105 ∷ []) ("Enter" ∷ []) []
    ≡ some (
      false,
      (word "send-keys" ∷ word "-l" ∷ word "-t" ∷ word "main:3.1" ∷ raw (104 ∷ 105 ∷ []) ∷ [])
          ∷ (word "send-keys" ∷ word "-t" ∷ word "main:3.1" ∷ word "C-u" ∷ [])
          ∷ [],
    )
unfolding tmux_send_keys_clearing_input tmux_send_keys_with_submit send_loop next_chunk
stop_test = refl

new_pane_iff_example :
    (((tmux_new_window (toy 9) "main" "fix" "/r" [] []).0 ≡ some ("main:3.1", "%7"))
      ↔ Reports (some "%7\tmain:3.1\n") "main:3.1" "%7")
    × (((tmux_split_window (toy 9) "main:3" "/r" [] []).0 ≡ some ("main:3.1", "%7"))
        ↔ Reports (some "%7\tmain:3.1\n") "main:3.1" "%7")
new_pane_iff_example = new_pane_iff (toy 9) "main" "fix" "main:3" "/r" "main:3.1" "%7" [] []

windows_test :
    parse_list_windows_output "0\tvim\nx\tbad\n12\ta\tb\n"
    ≡ record { index = pos 0; name = "vim" } ∷ record { index = pos 12; name = "a\tb" } ∷ []
unfolding parse_list_windows_output split_newlines windows_of window_of trim_space trim_left
    trim_right is_space atoi unsigned cut_at str_eq
windows_test = refl

pane_test : parse_pane_id_and_target "%7\tmain:3.1\n" ≡ ("%7", "main:3.1")
unfolding parse_pane_id_and_target trim_space trim_left trim_right is_space cut_at str_eq
pane_test = refl

validate_target_test : (validate_target "a;b" ≡ false) × (validate_target "a.b-c_9:1.22" ≡ true)
unfolding validate_target drop_while str_eq
validate_target_test = (refl, refl)
