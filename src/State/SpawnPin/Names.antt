-- ===== src/State/SpawnPin/Names.antt =====
-- The names of the staging files: different panes have different ones.
use Prim.Native.Char.{Char, code}
use text.Mathlib.TextLemmas.{
  append_cancel_right, head-eq_of_cons-eq, nil≢cons, cons≢nil, tail-eq_of_cons-eq,
}
use text.Mathlib.TextEquality.{Char-path}
use agent_dashboard.Common.{
  ◌≢◌, String, ◌≡◌, refl, ap, inl, inr, false, some, str_eq, str_eq_iff, is_empty, arith,
  if◌then◌else◌, ◌==◌, Bool-cases,
}
use agent_dashboard.Common.Dict.{lookup-insert}
use agent_dashboard.State.SpawnPin.{
  SpawnPin, pin, Staging, escape, escape_char, spawn_pin_filename, write_spawn_pin, read_spawn_pin,
}

-- What is read of a pane after a write: the pin that was written, for every pane whose staging file
-- has the same name, and otherwise what was there.
write_read :
    (p : SpawnPin) (st : Staging) (pane_id : String)
    → is_empty p.pane_id ≡ false
    → is_empty pane_id ≡ false
    → read_spawn_pin (write_spawn_pin p st) pane_id ≡ (
        if str_eq (spawn_pin_filename p.pane_id) (spawn_pin_filename pane_id)
        then some p
        else read_spawn_pin st pane_id)
unfolding write_spawn_pin read_spawn_pin
write_read p st pane_id h k =
    ground
      (arith, lookup-insert (spawn_pin_filename p.pane_id) (spawn_pin_filename pane_id) (pin p) st)

-- A tmux pane id has no underscore.
abbrev pub HasNoUnderscore : String → Type 0
HasNoUnderscore String.[] = Unit
HasNoUnderscore (String.◌∷◌ c s) = (code c ≢ 95) × HasNoUnderscore s

code-escape_char : (c : Char) → code (escape_char c) ≡ (if code c == 37 then 95 else code c)
code-escape_char c = elim (Bool-cases (code c == 37)) [ inl e ↦ simp e refl | inr e ↦ simp e refl ]

escape_char-injective :
    (c d : Char) → code c ≢ 95 → code d ≢ 95 → escape_char c ≡ escape_char d → c ≡ d
escape_char-injective c d nc nd e =
    Char-path c d (ground (arith, ap code e, code-escape_char c, code-escape_char d, nc, nd))

escape-injective :
    (a b : String) → HasNoUnderscore a → HasNoUnderscore b → escape a ≡ escape b → a ≡ b
unfolding escape
escape-injective String.[] String.[] ha hb e = refl
escape-injective String.[] (String.◌∷◌ d b) ha hb e = absurd (nil≢cons e)
escape-injective (String.◌∷◌ c a) String.[] ha hb e = absurd (cons≢nil e)
escape-injective (String.◌∷◌ c a) (String.◌∷◌ d b) (nc, ha) (nd, hb) e =
    rw
      (
        escape_char-injective c d nc nd (head-eq_of_cons-eq e),
        escape-injective a b ha hb (tail-eq_of_cons-eq e),
      )
      refl

spawn_pin_filename-injective :
    (a b : String)
    → HasNoUnderscore a
    → HasNoUnderscore b
    → spawn_pin_filename a ≡ spawn_pin_filename b
    → a ≡ b
unfolding spawn_pin_filename
spawn_pin_filename-injective a b ha hb e =
    escape-injective a b ha hb (append_cancel_right (escape a) (escape b) ".json" e)

-- Staged pins do not mix: what `ReadSpawnPin` says of a pane after `WriteSpawnPin` is the pin that
-- was written, field by field, if it is the pane's, and otherwise what it said before. Pane ids are
-- not empty and have no underscore.
write_spawn_pin_read_back :
    (p : SpawnPin) (st : Staging) (pane_id : String)
    → is_empty p.pane_id ≡ false
    → is_empty pane_id ≡ false
    → HasNoUnderscore p.pane_id
    → HasNoUnderscore pane_id
    → read_spawn_pin (write_spawn_pin p st) pane_id
      ≡ (if str_eq p.pane_id pane_id then some p else read_spawn_pin st pane_id)
write_spawn_pin_read_back p st pane_id h k hp hq = ground (
  arith,
  write_read p st pane_id h k,
  str_eq_iff p.pane_id pane_id,
  str_eq_iff (spawn_pin_filename p.pane_id) (spawn_pin_filename pane_id),
  spawn_pin_filename-injective p.pane_id pane_id hp hq,
)
