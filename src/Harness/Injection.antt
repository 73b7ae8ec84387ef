-- ===== src/Harness/Injection.antt =====
-- Every text that the dashboard puts on a command line reaches the agent as one word.
use Prim.Native.String.{◌++◌}
use agent_dashboard.Common.{
  String, ◌≡◌, refl, ap, ◌∙◌, true, false, some, List, [], ◌∷◌, ◌++◌ as append, is_empty,
  if◌then◌else◌, Bool-cases, inl, inr,
}
use agent_dashboard.Harness.{shell_quote, add_quoted}
use agent_dashboard.Harness.Shell.{
  Reader, read, read_char, read-append, shell_words, at_word, at_gap, is_plain, read_first,
  read-shell_quote,
}

-- The line `t` reads as the words `ws`, the last of which could go on.
pub record Reads (t : String) (ws : List String) : Type 0 where
  pub before : List String
  pub last : String
  pub reading : read (at_gap []) t ≡ at_word before last
  pub same : append before (last ∷ []) ≡ ws

pub Reads-shell_words : (t : String) (ws : List String) → Reads t ws → shell_words t ≡ some ws
unfolding shell_words
Reads-shell_words t ws h = rw h.reading (ap (λ (x : List String). some x) h.same)

append_cons :
    {A : Type 0}
    → (xs : List A) (y z : A) → append (append xs (y ∷ [])) (z ∷ []) ≡ append xs (y ∷ z ∷ [])
append_cons [] y z = refl
append_cons (x ∷ xs) y z = ap (λ l. x ∷ l) (append_cons xs y z)

-- What a flag written between spaces does, for each flag of the two commands.
abbrev pub IsFlag : String → String → Type 0
IsFlag flag word =
    (ws : List String) (w : String)
    → read (at_word ws w) flag ≡ at_gap (append (append ws (w ∷ [])) (word ∷ []))

pub Reads-flag :
    (flag word t value : String) (ws : List String)
    → IsFlag flag word
    → Reads t ws
    → Reads ((t ++ flag) ++ shell_quote value) (append ws (word ∷ value ∷ []))
Reads-flag flag word t value ws f h = record {
  before = append ws (word ∷ []);
  last = value;
  reading =
      read-append (at_gap []) (t ++ flag) (shell_quote value)
      ∙ (ap (λ (r : Reader). read r (shell_quote value))
            (read-append (at_gap []) t flag
              ∙ (ap (λ (r : Reader). read r flag) h.reading
                  ∙ (f h.before h.last
                      ∙ ap (λ (x : List String). at_gap (append x (word ∷ []))) h.same)))
          ∙ read-shell_quote (append ws (word ∷ [])) value);
  same = append_cons ws word value;
}

pub space : (ws : List String) (w : String) → read (at_word ws w) " " ≡ at_gap (append ws (w ∷ []))
unfolding read read_char
space ws w = refl

-- The words with an option, or with one more word, unless the value is empty.
abbrev pub with_option : String → String → List String → List String
with_option word value ws = if is_empty value then ws else append ws (word ∷ value ∷ [])

abbrev pub with_word : String → List String → List String
with_word value ws = if is_empty value then ws else append ws (value ∷ [])

pub Reads-option :
    (flag word t value : String) (ws : List String)
    → IsFlag flag word
    → Reads t ws
    → Reads (add_quoted flag value t) (with_option word value ws)
unfolding add_quoted
Reads-option flag word t value ws f h = elim (Bool-cases (is_empty value)) [
  | inl e ↦ rw e h
  | inr e ↦ rw e (Reads-flag flag word t value ws f h)
]

pub Reads-word :
    (t value : String) (ws : List String)
    → Reads t ws
    → Reads (add_quoted " " value t) (with_word value ws)
unfolding add_quoted
Reads-word t value ws h = elim (Bool-cases (is_empty value)) [
  | inl e ↦ rw e h
  | inr e ↦ rw e (record {
    before = ws;
    last = value;
    reading =
        read-append (at_gap []) (t ++ " ") (shell_quote value)
        ∙ (ap (λ (r : Reader). read r (shell_quote value))
              (read-append (at_gap []) t " "
                ∙ (ap (λ (r : Reader). read r " ") h.reading
                    ∙ (space h.before h.last ∙ ap (λ (x : List String). at_gap x) h.same)))
            ∙ read-shell_quote ws value);
    same = refl;
  })
]

-- A word that means nothing else to the shell.
abbrev pub IsWord : String → Type 0
IsWord s = (is_empty s ≡ false) × (is_plain s ≡ true)

pub Reads-command : (command : String) → IsWord command → Reads command (command ∷ [])
Reads-command command (n, p) = record {
  before = [];
  last = command;
  reading = read_first [] command n p;
  same = refl;
}
