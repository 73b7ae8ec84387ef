-- ===== src/Harness/Shell.antt =====
-- How a POSIX shell reads a command line, as far as these commands need it: words stand between
-- spaces; a character after a backslash, and every character between single quotes, stands for
-- itself. A line with another character that means something to the shell is not read.
use Prim.Native.Char.{Char, code}
use Prim.Native.String.{◌++◌}
use text.Mathlib.TextLemmas.{nil-append, cons-append, append-nil, append_assoc}
use text.Mathlib.TextEquality.{Char-path}
use agent_dashboard.Common.{
  ℕ, String, ◌≡◌, refl, ap, ◌∙◌, sym, Bool, true, false, ◌||◌, ◌&&◌, Option, none, some, List, [],
  ◌∷◌, ◌++◌ as append, leb, ◌==◌, arith, if◌then◌else◌, Bool-cases, inl, inr, is_empty, str_eq_refl,
}
use agent_dashboard.Harness.{escape_quotes, shell_quote}

pub data Mode : Type 0 where
  plain : Mode
  quoted : Mode
  escaped : Mode
  failed : Mode

-- The words that are read, and the one being read.
pub record Reader : Type 0 where
  pub mode : Mode
  pub words : List String
  pub current : Option String

pub data Kind : Type 0 where
  space : Kind
  quote : Kind
  backslash : Kind
  literal : Kind
  special : Kind

-- Letters, digits, and `%+,-./:=@_`.
abbrev pub is_literal : ℕ → Bool
is_literal n =
    (leb 97 n && leb n 122)
    || (leb 64 n && leb n 90)
    || (leb 43 n && leb n 58)
    || n == 37
    || n == 61
    || n == 95

abbrev pub kind_of : ℕ → Kind
kind_of n =
    if n == 32
    then space
    else if n == 39
    then quote
    else if n == 92
    then backslash
    else if is_literal n
    then literal
    else special

abbrev pub opened : Option String → String
opened none = ""
opened (some w) = w

abbrev pub closed : List String → Option String → List String
closed ws none = ws
closed ws (some w) = append ws (w ∷ [])

abbrev pub add_char : Reader → Char → Reader
add_char r c = record r { current = some (opened r.current ++ String.◌∷◌ c "") }

unfoldable pub read_char : Reader → Char → Reader
read_char r c = elim r.mode [
  | plain ↦ elim (kind_of (code c)) [
    | space ↦ record { mode = plain; words = closed r.words r.current; current = none }
    | quote ↦ record r { mode = quoted; current = some (opened r.current) }
    | backslash ↦ record r { mode = escaped }
    | literal ↦ add_char r c
    | special ↦ record r { mode = failed }
  ]
  | quoted ↦ if code c == 39 then record r { mode = plain } else add_char r c
  | escaped ↦ record (add_char r c) { mode = plain }
  | failed ↦ r
]

unfoldable pub read : Reader → String → Reader
unfolding read_char
read r String.[] = r
read r (String.◌∷◌ c s) = read (read_char r c) s

abbrev pub result : Reader → Option (List String)
result r = elim r.mode [ plain ↦ some (closed r.words r.current) | _ ↦ none ]

-- The words of a command line; `none` if it is not read.
unfoldable pub shell_words : String → Option (List String)
unfolding read
shell_words s = result (read (record { mode = plain; words = []; current = none }) s)

pub read-append : (r : Reader) (s t : String) → read r (s ++ t) ≡ read (read r s) t
unfolding read
read-append r String.[] t = rw (nil-append t) refl
read-append r (String.◌∷◌ c s) t = rw (cons-append c s t) (read-append (read_char r c) s t)

-- Within a word of literal characters.
abbrev pub is_plain : String → Bool
is_plain String.[] = true
is_plain (String.◌∷◌ c s) = let rest = is_plain s in if is_literal (code c) then rest else false

abbrev pub at_word : List String → String → Reader
at_word ws w = record { mode = plain; words = ws; current = some w }

abbrev pub at_gap : List String → Reader
at_gap ws = record { mode = plain; words = ws; current = none }

abbrev in_quotes : List String → String → Reader
in_quotes ws w = record { mode = quoted; words = ws; current = some w }

snoc : (w : String) (c : Char) (s : String) → (w ++ String.◌∷◌ c "") ++ s ≡ w ++ String.◌∷◌ c s
snoc w c s =
    append_assoc w (String.◌∷◌ c "") s
    ∙ ap (λ (x : String). w ++ x)
        (cons-append c "" s ∙ ap (λ (x : String). String.◌∷◌ c x) (nil-append s))

kind-literal : (n : ℕ) → is_literal n ≡ true → kind_of n ≡ literal
kind-literal n h = ground arith

read_literal :
    (ws : List String) (w : Option String) (c : Char)
    → is_literal (code c) ≡ true
    → read_char (record { mode = plain; words = ws; current = w }) c
      ≡ at_word ws (opened w ++ String.◌∷◌ c "")
unfolding read_char
read_literal ws w c h = rw (kind-literal (code c) h, read_char) refl

pub read-plain :
    (ws : List String) (w s : String)
    → is_plain s ≡ true
    → read (at_word ws w) s ≡ at_word ws (w ++ s)
unfolding read
read-plain ws w String.[] h = ap (λ (x : String). at_word ws x) (sym (append-nil w))
read-plain ws w (String.◌∷◌ c s) h = rw (read_literal ws (some w) c (ground arith)) (
    read-plain ws (w ++ String.◌∷◌ c "") s (ground arith)
    ∙ ap (λ (x : String). at_word ws x) (snoc w c s))

read_inside :
    (ws : List String) (w : String) (c : Char)
    → (code c == 39) ≡ false
    → read_char (in_quotes ws w) c ≡ in_quotes ws (w ++ String.◌∷◌ c "")
unfolding read_char
read_inside ws w c e = rw e refl

open_quote : (ws : List String) → read (at_gap ws) "'" ≡ in_quotes ws ""
unfolding read read_char
open_quote ws = refl

close_quote : (ws : List String) (w : String) → read (in_quotes ws w) "'" ≡ at_word ws w
unfolding read read_char
close_quote ws w = refl

escape_other :
    (c : Char) (s : String)
    → (code c == 39) ≡ false
    → escape_quotes (String.◌∷◌ c s) ≡ String.◌∷◌ c (escape_quotes s)
unfolding escape_quotes
escape_other c s e = rw e refl

read_other :
    (ws : List String) (w : String) (c : Char) (s : String)
    → (code c == 39) ≡ false
    → read (in_quotes ws w) (String.◌∷◌ c s) ≡ read (in_quotes ws (w ++ String.◌∷◌ c "")) s
unfolding read
read_other ws w c s e = ap (λ (r : Reader). read r s) (read_inside ws w c e)

read_escaped_quote :
    (ws : List String) (w s : String)
    → read (in_quotes ws w) (escape_quotes (String.◌∷◌ "'" s))
      ≡ read (in_quotes ws (w ++ "'")) (escape_quotes s)
unfolding read read_char escape_quotes
read_escaped_quote ws w s = refl

read-escape_quotes :
    (ws : List String) (w s : String)
    → read (in_quotes ws w) (escape_quotes s) ≡ in_quotes ws (w ++ s)
read-escape_quotes ws w String.[] =
    unfold read escape_quotes in ap (λ (x : String). in_quotes ws x) (sym (append-nil w))
read-escape_quotes ws w (String.◌∷◌ c s) = elim (Bool-cases (code c == 39)) [
  | inl e ↦
      let same : c ≡ "'" = Char-path c "'" (ground arith) in
      rw same (
        read_escaped_quote ws w s
        ∙ (read-escape_quotes ws (w ++ "'") s ∙ ap (λ (x : String). in_quotes ws x) (snoc w "'" s)))
  | inr e ↦ rw (escape_other c s e) (
      read_other ws w c (escape_quotes s) e
      ∙ (read-escape_quotes ws (w ++ String.◌∷◌ c "") s
          ∙ ap (λ (x : String). in_quotes ws x) (snoc w c s)))
]

-- Quoted text is read as one piece of a word, whatever it holds.
pub read-shell_quote :
    (ws : List String) (s : String) → read (at_gap ws) (shell_quote s) ≡ at_word ws s
unfolding shell_quote
read-shell_quote ws s =
    read-append (at_gap ws) ("'" ++ escape_quotes s) "'"
    ∙ rw
        (
          read-append (at_gap ws) "'" (escape_quotes s),
          open_quote ws,
          read-escape_quotes ws "" s,
          nil-append s,
        )
        (close_quote ws s)

-- A word of literal characters at the start of a line or after a space.
pub read_first :
    (ws : List String) (s : String)
    → is_empty s ≡ false
    → is_plain s ≡ true
    → read (at_gap ws) s ≡ at_word ws s
unfolding read
read_first ws String.[] n h = absurd (ground (arith, str_eq_refl ""))
read_first ws (String.◌∷◌ c s) n h = rw (read_literal ws none c (ground arith)) (
    read-plain ws ("" ++ String.◌∷◌ c "") s (ground arith)
    ∙ ap (λ (x : String). at_word ws x) (snoc "" c s ∙ nil-append (String.◌∷◌ c s)))

pub shell_words-shell_quote : (s : String) → shell_words (shell_quote s) ≡ some (s ∷ [])
unfolding shell_words
shell_words-shell_quote s = ap result (read-shell_quote [] s)
