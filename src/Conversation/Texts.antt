-- ===== src/Conversation/Texts.antt =====
-- internal/conversation/conversation.go: `truncate`, `cleanSlashCommand` and `stripSystemTags`, on
-- bytes, with `strings.Index`, `strings.HasPrefix` and `strings.Join`. The loop that removes a tag
-- runs on the length of the text, which is enough since every round removes some bytes.
pub mod Stripped
use agent_dashboard.Common.{
  ℕ, zero, suc, ◌+◌, ◌-◌, Bool, true, false, Option, none, some, List, [], ◌∷◌, ◌++◌, length, take,
  drop, map, leb, ltb, ◌==◌, if◌then◌else◌, String,
}
use agent_dashboard.Common.Text.{codes}

abbrev pub is_nil : List ℕ → Bool
is_nil [] = true
is_nil (c ∷ s) = false

unfoldable pub starts : List ℕ → List ℕ → Bool
starts [] s = true
starts (c ∷ p) [] = false
starts (c ∷ p) (d ∷ s) = let rest = starts p s in if c == d then rest else false

-- `strings.Index`.
unfoldable pub index : List ℕ → List ℕ → Option ℕ
unfolding starts
index sub [] = if starts sub [] then some 0 else none
index sub (c ∷ s) =
    let rest = index sub s in
    if starts sub (c ∷ s) then some 0 else elim rest [ none ↦ none | some i ↦ some (suc i) ]

unfoldable pub contains : List ℕ → List ℕ → Bool
unfolding index
contains s sub = elim (index sub s) [ none ↦ false | some i ↦ true ]

-- `strings.Join` with newlines.
unfoldable pub join : List (List ℕ) → List ℕ
join [] = []
join (t ∷ []) = t
join (t ∷ u ∷ ts) = t ++ b'\n' ∷ join (u ∷ ts)

-- The bytes of "…".
abbrev pub ellipsis : List ℕ
ellipsis = 226 ∷ 128 ∷ 166 ∷ []

unfoldable pub truncate : List ℕ → ℕ → List ℕ
truncate s max_len = if leb (length s) max_len then s else take (max_len - 1) s ++ ellipsis

abbrev pub name_open : List ℕ
name_open = codes "<command-name>"

abbrev pub name_close : List ℕ
name_close = codes "</command-name>"

abbrev pub args_open : List ℕ
args_open = codes "<command-args>"

abbrev pub args_close : List ℕ
args_close = codes "</command-args>"

-- `s[start+len(open):end]`
abbrev between : List ℕ → ℕ → ℕ → List ℕ
between s start end = drop start (take end s)

module _ (trim_space : List ℕ → List ℕ) where
  -- What follows the name of the command, with a space before it.
  unfoldable pub command_args : List ℕ → List ℕ
  unfolding index
  command_args s = elim (index args_open s) [
    | none ↦ []
    | some start ↦ elim (index args_close s) [
      | none ↦ []
      | some end ↦
          let args = trim_space (between s (start + length args_open) end) in
          if leb end (start + length args_open) then [] else if is_nil args then [] else b' ' ∷ args
    ]
  ]

  unfoldable pub clean_slash_command : List ℕ → List ℕ
  unfolding index command_args
  clean_slash_command s = elim (index name_open s) [
    | none ↦ s
    | some start ↦ elim (index name_close s) [
      | none ↦ s
      | some end ↦
          if leb end (start + length name_open)
          then s
          else trim_space (between s (start + length name_open) end) ++ command_args s
    ]
  ]

-- One round of the loop: the text without the first pair of the tag, if there is one.
unfoldable pub cut_tag : List ℕ → List ℕ → List ℕ → Option (List ℕ)
unfolding index
cut_tag opening closing s = elim (index opening s) [
  | none ↦ none
  | some start ↦ elim (index closing (drop start s)) [
    | none ↦ none
    | some end ↦ some (take start s ++ drop (start + end + length closing) s)
  ]
]

unfoldable pub strip_loop : ℕ → List ℕ → List ℕ → List ℕ → List ℕ
unfolding cut_tag
strip_loop zero opening closing s = s
strip_loop (suc fuel) opening closing s = elim (cut_tag opening closing s) [
  | none ↦ s
  | some t ↦ strip_loop fuel opening closing t
]

unfoldable pub strip_tag : List ℕ → List ℕ → List ℕ
unfolding strip_loop
strip_tag tag s = strip_loop (length s) (b'<' ∷ tag) (b'<' ∷ b'/' ∷ (tag ++ b'>' ∷ [])) s

unfoldable pub strip_system_tags : (List ℕ → List ℕ) → List ℕ → List ℕ
unfolding strip_tag
strip_system_tags trim_space s =
    trim_space (strip_tag (codes "command-message") (strip_tag (codes "system-reminder") s))
