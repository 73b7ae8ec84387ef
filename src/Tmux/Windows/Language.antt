-- ===== src/Tmux/Windows/Language.antt =====
-- internal/tmux/tmux.go: `ValidateTarget` accepts the language of its regular expression.
use Prim.Native.Char.{Char, code}
use Prim.Native.String.{◌++◌}
use text.Mathlib.TextEquality.{Char-path}
use text.Mathlib.TextLemmas.{cons-append, append-nil}
use agent_dashboard.Common.{
  ℕ, String, ◌≡◌, ◌⊎◌, inl, inr, refl, sym, ap, ◌∙◌, Bool, true, false, ◌&&◌, subst, str_eq_refl,
  str_eq_iff, is_empty, arith, ◌==◌,
}
use agent_dashboard.Common.Chars.{
  is_digit, all_chars, starts_with, take_while, drop_while, drop_while-append,
  take_while-append-drop_while, all_chars-take_while,
}
use agent_dashboard.Tmux.{is_name_char, valid_pane, valid_window, validate_target}

-- One or more characters of a class: `[…]+`.
abbrev pub Some : (ℕ → Bool) → String → Type 0
Some p s = (starts_with p s ≡ true) × (all_chars p s ≡ true)

-- `(\.[0-9]+)?`
abbrev pub IsPanePart : String → Type 0
IsPanePart s = (s ≡ "") ⊎ ((pane : String) × Some is_digit pane × (s ≡ String.◌∷◌ "." pane))

-- `(:[0-9]+(\.[0-9]+)?)?`
abbrev pub IsWindowPart : String → Type 0
IsWindowPart s =
    (s ≡ "")
    ⊎ ((window : String) × (rest : String) × Some is_digit window
        × IsPanePart rest
        × (s ≡ String.◌∷◌ ":" (window ++ rest)))

-- `^[a-zA-Z0-9_.\-]+(:[0-9]+(\.[0-9]+)?)?$`
abbrev pub IsTarget : String → Type 0
IsTarget s =
    (name : String) × (rest : String) × Some is_name_char name
    × IsWindowPart rest
    × (s ≡ name ++ rest)

starts_with-take_while :
    (p : ℕ → Bool) (s : String) → starts_with p s ≡ true → starts_with p (take_while p s) ≡ true
unfolding take_while
starts_with-take_while p String.[] h = h
starts_with-take_while p (String.◌∷◌ c s) h = rw h h

take_while-Some : (p : ℕ → Bool) (s : String) → starts_with p s ≡ true → Some p (take_while p s)
take_while-Some p s h = (starts_with-take_while p s h, all_chars-take_while p s)

starts_with-append :
    (p : ℕ → Bool) (a b : String) → starts_with p a ≡ true → starts_with p (a ++ b) ≡ true
starts_with-append p String.[] b h = ground arith
starts_with-append p (String.◌∷◌ c a) b h = rw (cons-append c a b) h

and_true : (a b c : Bool) → (a && (b && c)) ≡ true → (a ≡ true) × (b ≡ true) × (c ≡ true)
and_true a b c h = ground arith

is_char : (c d : Char) (s : String) → (code c == code d) ≡ true → String.◌∷◌ c s ≡ String.◌∷◌ d s
is_char c d s h = ap (λ (x : Char). String.◌∷◌ x s) (Char-path c d (ground arith))

-- The class takes the whole text.
take_all : (p : ℕ → Bool) (s : String) → is_empty (drop_while p s) ≡ true → all_chars p s ≡ true
take_all p s h =
    let taken : take_while p s ≡ s =
      sym (append-nil (take_while p s))
      ∙ ap (λ (x : String). take_while p s ++ x) (sym ((str_eq_iff (drop_while p s) "").0 h))
      ∙ take_while-append-drop_while p s in
    subst (λ x. all_chars p x ≡ true) taken (all_chars-take_while p s)

drop_all : (p : ℕ → Bool) (s : String) → all_chars p s ≡ true → drop_while p s ≡ ""
drop_all p s all =
    sym (ap (λ (x : String). drop_while p x) (append-nil s)) ∙ drop_while-append p s "" all refl

valid_pane-IsPanePart : (s : String) → valid_pane s ≡ true → IsPanePart s
valid_pane-IsPanePart String.[] h = inl refl
valid_pane-IsPanePart (String.◌∷◌ c s) h =
    let (dot, digits, end) =
      and_true (code c == 46) (starts_with is_digit s) (is_empty (drop_while is_digit s)) h in
    inr (s, (digits, take_all is_digit s end), is_char c "." s dot)

IsPanePart-valid_pane : (s : String) → IsPanePart s → valid_pane s ≡ true
IsPanePart-valid_pane s (inl e) = rw e refl
IsPanePart-valid_pane s (inr (pane, (h, all), e)) =
    rw (e, h, drop_all is_digit pane all) (str_eq_refl "")

valid_window-IsWindowPart : (s : String) → valid_window s ≡ true → IsWindowPart s
valid_window-IsWindowPart String.[] h = inl refl
valid_window-IsWindowPart (String.◌∷◌ c s) h =
    let rest = drop_while is_digit s in
    let (colon, digits, pane) =
      and_true (code c == 58) (starts_with is_digit s) (valid_pane rest) h in
    inr (
      take_while is_digit s,
      rest,
      take_while-Some is_digit s digits,
      valid_pane-IsPanePart rest pane,
      is_char c ":" s colon
          ∙ ap (λ (x : String). String.◌∷◌ ":" x) (sym (take_while-append-drop_while is_digit s)),
    )

-- What follows the digits of a window is no digit.
IsPanePart-ends : (s : String) → IsPanePart s → starts_with is_digit s ≡ false
IsPanePart-ends s (inl e) = rw e refl
IsPanePart-ends s (inr (pane, some_digits, e)) = rw e refl

IsWindowPart-valid_window : (s : String) → IsWindowPart s → valid_window s ≡ true
IsWindowPart-valid_window s (inl e) = rw e refl
IsWindowPart-valid_window s (inr (window, rest, (h, all), pane, e)) =
    rw
      (
        e,
        starts_with-append is_digit window rest h,
        drop_while-append is_digit window rest all (IsPanePart-ends rest pane),
      )
      (IsPanePart-valid_pane rest pane)

IsWindowPart-ends : (s : String) → IsWindowPart s → starts_with is_name_char s ≡ false
IsWindowPart-ends s (inl e) = rw e refl
IsWindowPart-ends s (inr (window, rest, digits, pane, e)) = rw e refl

pub validate_target-IsTarget : (s : String) → validate_target s ≡ true → IsTarget s
unfolding validate_target
validate_target-IsTarget s h =
    let rest = drop_while is_name_char s in
    let (name, window, _) =
      and_true (starts_with is_name_char s) (valid_window rest) true (ground arith) in
    (
      take_while is_name_char s,
      rest,
      take_while-Some is_name_char s name,
      valid_window-IsWindowPart rest window,
      sym (take_while-append-drop_while is_name_char s),
    )

pub IsTarget-validate_target : (s : String) → IsTarget s → validate_target s ≡ true
unfolding validate_target
IsTarget-validate_target s (name, rest, (h, all), window, e) =
    rw
      (
        e,
        starts_with-append is_name_char name rest h,
        drop_while-append is_name_char name rest all (IsWindowPart-ends rest window),
      )
      (IsWindowPart-valid_window rest window)
