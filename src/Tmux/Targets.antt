-- ===== src/Tmux/Targets.antt =====
-- The targets that tmux prints, `session:window.pane`, and the functions of tmux.go that read them.
use Prim.Native.Nat.{◌^◌}
use Prim.Native.Char.{Char}
use Prim.Native.String.{◌++◌}
use text.Mathlib.TextLemmas.{nil-append, cons-append, append_assoc, cons-ne-nil}
use agent_dashboard.Common.{
  ℕ, ◌<◌, String, ◌≡◌, refl, sym, Bool, true, false, some, is_empty, str_eq_iff, arith,
}
use agent_dashboard.Common.Int.{pos}
use agent_dashboard.Common.Chars.{
  is_digit, all_chars, starts_with, is_not, before_last, cut_at-append, before_last-append,
}
use agent_dashboard.Tmux.{
  digits_value, unsigned, atoi, parse_target, extract_session, extract_session_window,
}

-- `fmt.Sprintf("%s:%d.%d", session, window, pane)`, of the indices as they are printed.
abbrev pub format_target : String → String → String → String
format_target session window pane = session ++ (":" ++ (window ++ ("." ++ pane)))

-- An index as tmux prints it.
abbrev pub IsIndex : String → Type 0
IsIndex s =
    (starts_with is_digit s ≡ true) × (all_chars is_digit s ≡ true) × (digits_value s < 2 ^ 63)

digits-is_not :
    (k : ℕ) (s : String)
    → is_digit k ≡ false
    → all_chars is_digit s ≡ true
    → all_chars (is_not k) s ≡ true
digits-is_not k String.[] n h = refl
digits-is_not k (String.◌∷◌ c s) n h = ground (arith, digits-is_not k s)

is_empty-cons : (c : Char) (s : String) → is_empty (String.◌∷◌ c s) ≡ false
is_empty-cons c s = ground (arith, str_eq_iff (String.◌∷◌ c s) "", cons-ne-nil c s)

starts_with-non_empty : (p : ℕ → Bool) (s : String) → starts_with p s ≡ true → is_empty s ≡ false
starts_with-non_empty p String.[] h = ground arith
starts_with-non_empty p (String.◌∷◌ c s) h = is_empty-cons c s

atoi-index : (s : String) → IsIndex s → atoi s ≡ some (pos (digits_value s))
unfolding atoi unsigned
atoi-index String.[] (h, _, _) = ground arith
atoi-index (String.◌∷◌ c s) (h, all, fits) = ground arith

char-append : (c : Char) (s : String) → String.◌∷◌ c "" ++ s ≡ String.◌∷◌ c s
char-append c s = rw (cons-append c "" s, nil-append s) refl

abbrev colon : String → String
colon s = String.◌∷◌ ":" s

abbrev dot : String → String
dot s = String.◌∷◌ "." s

format_target-cons :
    (session window pane : String)
    → format_target session window pane ≡ session ++ colon (window ++ dot pane)
format_target-cons session window pane =
    rw (char-append ":" (window ++ ("." ++ pane)), char-append "." pane) refl

is_empty-append : (s t : String) → starts_with is_digit s ≡ true → is_empty (s ++ t) ≡ false
is_empty-append String.[] t h = ground arith
is_empty-append (String.◌∷◌ c s) t h = rw (cons-append c s t) (is_empty-cons c (s ++ t))

parse_target-format_target :
    (session window pane : String)
    → (is_empty session ≡ false) × (all_chars (is_not 58) session ≡ true)
    → IsIndex window
    → IsIndex pane
    → parse_target (format_target session window pane)
      ≡ some (session, pos (digits_value window), pos (digits_value pane))
unfolding parse_target
parse_target-format_target session window pane (full, no_colon) (w, ws, wf) (p, ps, pf) =
    rw
      (
        format_target-cons session window pane,
        parse_target,
        cut_at-append 58 session ":" (window ++ dot pane) no_colon refl,
        full,
        is_empty-append window (dot pane) w,
        cut_at-append 46 window "." pane (digits-is_not 46 window refl ws) refl,
        starts_with-non_empty is_digit pane p,
        atoi-index window (w, ws, wf),
        atoi-index pane (p, ps, pf),
      )
      refl

extract_session-format_target :
    (session window pane : String)
    → all_chars (is_not 58) session ≡ true
    → extract_session (format_target session window pane) ≡ session
unfolding extract_session
extract_session-format_target session window pane h =
    rw
      (
        format_target-cons session window pane,
        extract_session,
        cut_at-append 58 session ":" (window ++ dot pane) h refl,
      )
      refl

extract_session_window-format_target :
    (session window pane : String)
    → all_chars is_digit pane ≡ true
    → extract_session_window (format_target session window pane) ≡ session ++ (":" ++ window)
unfolding extract_session_window
extract_session_window-format_target session window pane h =
    rw
      (
        format_target-cons session window pane,
        extract_session_window,
        before_window,
        char-append ":" window,
      )
      refl
  where
    before_window :
        before_last 46 (session ++ colon (window ++ dot pane)) ≡ some (session ++ colon window)
    before_window =
        rw
          (
            sym (cons-append ":" window (dot pane)),
            sym (append_assoc session (colon window) (dot pane)),
          )
          (before_last-append 46 (session ++ colon window) "." pane refl
            (digits-is_not 46 pane refl h))

-- For every target that tmux prints of a session with a name that is not empty and has no colon,
-- `ParseTarget` reads back the session and the numbers of both indices, `ExtractSession` gives the
-- session, and `ExtractSessionWindow` the target without its pane.
format_target-read_back :
    (session window pane : String)
    → (is_empty session ≡ false) × (all_chars (is_not 58) session ≡ true)
    → IsIndex window
    → IsIndex pane
    → (parse_target (format_target session window pane)
        ≡ some (session, pos (digits_value window), pos (digits_value pane)))
      × (extract_session (format_target session window pane) ≡ session)
      × (extract_session_window (format_target session window pane) ≡ session ++ (":" ++ window))
format_target-read_back session window pane (full, no_colon) w (p, ps, pf) = (
  parse_target-format_target session window pane (full, no_colon) w (p, ps, pf),
  extract_session-format_target session window pane no_colon,
  extract_session_window-format_target session window pane ps,
)
