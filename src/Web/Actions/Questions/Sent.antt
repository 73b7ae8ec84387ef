-- ===== src/Web/Actions/Questions/Sent.antt =====
-- internal/web/actions.go: the keys that the drivers of the pickers give, as lists of commands.
use agent_dashboard.Common.{
  ℕ, zero, suc, String, ◌≡◌, inl, inr, refl, Bool, true, false, not, Option, some, List, [], ◌∷◌,
  ◌++◌, map, Bool-cases, if◌then◌else◌,
}
use agent_dashboard.Common.Int.{ℤ, pos, pos_part, ◌+ℤ◌}
use agent_dashboard.Common.Decimal.{format_int}
use agent_dashboard.Tmux.{Arg, Runner, and_then}
use agent_dashboard.Tmux.Keys.{press, tmux_send_raw, tmux_send_keys}
use agent_dashboard.Tmux.Chunks.{run_all, run_all-append, calls, chunks_of, tmux_send_keys-run_all}
use agent_dashboard.Web.Actions.Questions.{
  AskAnswerEntry, AskAnswerRequest, Asked, is_codex, is_nil, chain, press_times, press_digits,
  ask_entry, ask_entries, drive_ask_user_question_picker, picked, input_entry,
  drive_codex_request_user_input_picker, drive,
}

-- The keys that answer a question of Claude Code: the digit of each pick, or that of the entry after
-- the last option, and then the text.
abbrev pub ask_entry_calls : String → ℤ → AskAnswerEntry → List (List Arg)
ask_entry_calls target count a =
    if not (is_nil a.freeform)
    then press target (format_int (count +ℤ pos 1))
      ∷ calls target (chunks_of a.freeform) ("Enter" ∷ [])
    else map (λ i. press target (format_int (i +ℤ pos 1))) a.option_indices
      ++ (if a.multi then press target "Tab" ∷ [] else [])

abbrev pub downs : String → ℕ → List (List Arg)
downs target zero = []
downs target (suc n) = press target "Down" ∷ downs target n

-- The keys that answer a question of Codex.
abbrev pub input_entry_calls : String → ℤ → AskAnswerEntry → List (List Arg)
input_entry_calls target count a =
    if not (is_nil a.freeform)
    then downs target (pos_part count)
      ++ (press target "Tab" ∷ calls target (chunks_of a.freeform) ("Enter" ∷ []))
    else downs target (pos_part (picked a.option_indices)) ++ (press target "Enter" ∷ [])

abbrev pub all_calls :
    (ℤ → AskAnswerEntry → List (List Arg)) → List AskAnswerEntry → List ℤ → List (List Arg)
all_calls entry [] counts = []
all_calls entry (a ∷ answers) [] = []
all_calls entry (a ∷ answers) (count ∷ counts) = entry count a ++ all_calls entry answers counts

-- All the keys of an answer; Claude Code's picker wants one Enter more.
abbrev pub answer_calls : Asked → String → AskAnswerRequest → List (List Arg)
answer_calls a target req =
    if is_codex a
    then all_calls (input_entry_calls target) req.answers req.option_counts
    else all_calls (ask_entry_calls target) req.answers req.option_counts
      ++ (press target "Enter" ∷ [])

module _ {W : Type 0} (r : Runner W) (target : String) where
  -- A driver that gives these commands, up to the first that fails.
  abbrev Gives : (W → Option (Bool × W)) → List (List Arg) → Type 0
  Gives f cs = (w : W) → f w ≡ some (run_all r cs w)

  chain-Gives :
      (f g : W → Option (Bool × W)) (a b : List (List Arg))
      → Gives f a
      → Gives g b
      → Gives (λ w. chain (f w) g) (a ++ b)
  chain-Gives f g a b hf hg w =
      rw (hf w, run_all-append r a b w)
        (elim (Bool-cases (run_all r a w).0) [
          | inl e ↦ rw e (hg (run_all r a w).1)
          | inr e ↦ rw e refl
        ])

  stop_after : (q : Bool × W) → some q ≡ some (and_then q (λ w. (true, w)))
  stop_after (true, w) = refl
  stop_after (false, w) = refl

  press-Gives :
      (key : String) → Gives (λ w. some (tmux_send_raw r target key w)) (press target key ∷ [])
  unfolding tmux_send_raw run_all
  press-Gives key w = stop_after (r.run (press target key) w)

  nothing-Gives : Gives (λ w. some (true, w)) []
  unfolding run_all
  nothing-Gives w = refl

  text-Gives :
      (text : List ℕ)
      → Gives (tmux_send_keys r target text) (calls target (chunks_of text) ("Enter" ∷ []))
  text-Gives text w = tmux_send_keys-run_all r target text w

  press_times-Gives : (n : ℕ) → Gives (press_times r target n "Down") (downs target n)
  unfolding press_times
  press_times-Gives zero w = nothing-Gives w
  press_times-Gives (suc n) w =
      chain-Gives (λ w'. some (tmux_send_raw r target "Down" w')) (press_times r target n "Down")
        (press target "Down" ∷ []) (downs target n) (press-Gives "Down") (press_times-Gives n) w

  press_digits-Gives :
      (indices : List ℤ)
      → Gives
          (press_digits r target indices)
          (map (λ i. press target (format_int (i +ℤ pos 1))) indices)
  unfolding press_digits
  press_digits-Gives [] w = nothing-Gives w
  press_digits-Gives (i ∷ indices) w =
      let key = format_int (i +ℤ pos 1) in
      chain-Gives (λ w'. some (tmux_send_raw r target key w')) (press_digits r target indices)
        (press target key ∷ []) (map (λ i. press target (format_int (i +ℤ pos 1))) indices)
        (press-Gives key) (press_digits-Gives indices) w

  tab-Gives :
      (multi : Bool)
      → Gives
          (λ w. if multi then some (tmux_send_raw r target "Tab" w) else some (true, w))
          (if multi then press target "Tab" ∷ [] else [])
  tab-Gives true w = press-Gives "Tab" w
  tab-Gives false w = nothing-Gives w

  ask_entry-Gives :
      (count : ℤ) (a : AskAnswerEntry)
      → Gives (ask_entry r target count a) (ask_entry_calls target count a)
  unfolding ask_entry
  ask_entry-Gives count a w = elim (Bool-cases (is_nil a.freeform)) [
    | inr e ↦
        let key = format_int (count +ℤ pos 1) in
        rw (ask_entry, e)
          (chain-Gives (λ w'. some (tmux_send_raw r target key w'))
            (tmux_send_keys r target a.freeform) (press target key ∷ [])
            (calls target (chunks_of a.freeform) ("Enter" ∷ [])) (press-Gives key)
            (text-Gives a.freeform) w)
    | inl e ↦
        rw (ask_entry, e)
          (chain-Gives (press_digits r target a.option_indices)
            (λ w'. if a.multi then some (tmux_send_raw r target "Tab" w') else some (true, w'))
            (map (λ i. press target (format_int (i +ℤ pos 1))) a.option_indices)
            (if a.multi then press target "Tab" ∷ [] else []) (press_digits-Gives a.option_indices)
            (tab-Gives a.multi) w)
  ]

  ask_entries-Gives :
      (answers : List AskAnswerEntry) (counts : List ℤ)
      → Gives
          (ask_entries r target answers counts)
          (all_calls (ask_entry_calls target) answers counts)
  unfolding ask_entries
  ask_entries-Gives [] counts w = nothing-Gives w
  ask_entries-Gives (a ∷ answers) [] w = nothing-Gives w
  ask_entries-Gives (a ∷ answers) (count ∷ counts) w =
      chain-Gives (ask_entry r target count a) (ask_entries r target answers counts)
        (ask_entry_calls target count a) (all_calls (ask_entry_calls target) answers counts)
        (ask_entry-Gives count a) (ask_entries-Gives answers counts) w

  input_entry-Gives :
      (count : ℤ) (a : AskAnswerEntry)
      → Gives (input_entry r target count a) (input_entry_calls target count a)
  unfolding input_entry
  input_entry-Gives count a w = elim (Bool-cases (is_nil a.freeform)) [
    | inr e ↦
        let typed = calls target (chunks_of a.freeform) ("Enter" ∷ []) in
        rw (input_entry, e)
          (chain-Gives (press_times r target (pos_part count) "Down")
            (λ w1.
              chain (some (tmux_send_raw r target "Tab" w1)) (tmux_send_keys r target a.freeform))
            (downs target (pos_part count)) (press target "Tab" ∷ typed)
            (press_times-Gives (pos_part count))
            (chain-Gives (λ w1. some (tmux_send_raw r target "Tab" w1))
              (tmux_send_keys r target a.freeform) (press target "Tab" ∷ []) typed
              (press-Gives "Tab") (text-Gives a.freeform))
            w)
    | inl e ↦
        let n = pos_part (picked a.option_indices) in
        rw (input_entry, e)
          (chain-Gives (press_times r target n "Down")
            (λ w1. some (tmux_send_raw r target "Enter" w1)) (downs target n)
            (press target "Enter" ∷ []) (press_times-Gives n) (press-Gives "Enter") w)
  ]

  input_entries-Gives :
      (answers : List AskAnswerEntry) (counts : List ℤ)
      → Gives
          (drive_codex_request_user_input_picker r target answers counts)
          (all_calls (input_entry_calls target) answers counts)
  unfolding drive_codex_request_user_input_picker
  input_entries-Gives [] counts w = nothing-Gives w
  input_entries-Gives (a ∷ answers) [] w = nothing-Gives w
  input_entries-Gives (a ∷ answers) (count ∷ counts) w =
      chain-Gives (input_entry r target count a)
        (drive_codex_request_user_input_picker r target answers counts)
        (input_entry_calls target count a) (all_calls (input_entry_calls target) answers counts)
        (input_entry-Gives count a) (input_entries-Gives answers counts) w

-- The drivers give exactly the keys of the answer, up to the first that fails.
pub drive-run_all :
    {W : Type 0} (r : Runner W) (a : Asked) (target : String) (req : AskAnswerRequest) (w : W)
    → drive r a target req w ≡ some (run_all r (answer_calls a target req) w)
unfolding drive drive_ask_user_question_picker
drive-run_all r a target req w = elim (Bool-cases (is_codex a)) [
  | inl e ↦ rw (drive, e) (input_entries-Gives r target req.answers req.option_counts w)
  | inr e ↦
      rw (drive, e)
        (chain-Gives r target (ask_entries r target req.answers req.option_counts)
          (λ w'. some (tmux_send_raw r target "Enter" w'))
          (all_calls (ask_entry_calls target) req.answers req.option_counts)
          (press target "Enter" ∷ []) (ask_entries-Gives r target req.answers req.option_counts)
          (press-Gives r target "Enter") w)
]
