-- ===== src/Common/Chars.antt =====
-- Texts by the classes of their characters: what a class of characters takes from the front of a
-- text, `strings.Index` and `strings.LastIndex` of one character, and digits.
use Prim.Native.Nat.{ℕ}
use Prim.Native.Char.{Char, code}
use Prim.Native.String.{String, ◌++◌}
use mathlib.Core.Path.{◌≡◌, refl, ap, sym, ◌∙◌}
use mathlib.Core.Logic.{inl, inr}
use mathlib.Core.Bool.{Bool, true, false, not, ◌&&◌}
use mathlib.Core.Option.{Option, none, some}
use native.Mathlib.Omega.{arith}
use text.Mathlib.TextLemmas.{nil-append, cons-append}
use agent_dashboard.Common.Tests.{leb, ◌==◌, if◌then◌else◌, Bool-cases, Option-cases}

abbrev pub is_digit : ℕ → Bool
is_digit c = leb 48 c && leb c 57

abbrev pub all_chars : (ℕ → Bool) → String → Bool
all_chars p String.[] = true
all_chars p (String.◌∷◌ c s) = p (code c) && all_chars p s

abbrev pub starts_with : (ℕ → Bool) → String → Bool
starts_with p String.[] = false
starts_with p (String.◌∷◌ c s) = p (code c)

-- The longest front of the text in the class, and what follows it.
unfoldable pub take_while : (ℕ → Bool) → String → String
take_while p String.[] = ""
take_while p (String.◌∷◌ c s) =
    let rest = take_while p s in if p (code c) then String.◌∷◌ c rest else ""

unfoldable pub drop_while : (ℕ → Bool) → String → String
drop_while p String.[] = ""
drop_while p (String.◌∷◌ c s) =
    let rest = drop_while p s in if p (code c) then rest else String.◌∷◌ c s

pub take_while-append-drop_while :
    (p : ℕ → Bool) (s : String) → take_while p s ++ drop_while p s ≡ s
unfolding take_while drop_while
take_while-append-drop_while p String.[] = nil-append ""
take_while-append-drop_while p (String.◌∷◌ c s) = elim (Bool-cases (p (code c))) [
  | inl e ↦
      rw (e, cons-append c (take_while p s) (drop_while p s), take_while-append-drop_while p s) refl
  | inr e ↦ rw (e, nil-append (String.◌∷◌ c s)) refl
]

pub all_chars-take_while : (p : ℕ → Bool) (s : String) → all_chars p (take_while p s) ≡ true
unfolding take_while
all_chars-take_while p String.[] = refl
all_chars-take_while p (String.◌∷◌ c s) = elim (Bool-cases (p (code c))) [
  | inl e ↦ rw (e, e) (all_chars-take_while p s)
  | inr e ↦ rw e refl
]

pub drop_while-append :
    (p : ℕ → Bool) (s rest : String)
    → all_chars p s ≡ true
    → starts_with p rest ≡ false
    → drop_while p (s ++ rest) ≡ rest
unfolding drop_while
drop_while-append p String.[] String.[] h stop = rw (nil-append "") refl
drop_while-append p String.[] (String.◌∷◌ c s) h stop = rw (nil-append (String.◌∷◌ c s), stop) refl
drop_while-append p (String.◌∷◌ c s) rest h stop =
    rw (cons-append c s rest) (ground (arith, drop_while-append p s rest))

-- The parts before and after the first place of a character, if it is in the text.
unfoldable pub cut_at : ℕ → String → Option (String × String)
cut_at k String.[] = none
cut_at k (String.◌∷◌ c s) =
    let rest = cut_at k s in
    if code c == k
    then some ("", s)
    else elim rest [ none ↦ none | some (a, b) ↦ some (String.◌∷◌ c a, b) ]

-- What stands before the last place of a character, if it is in the text.
unfoldable pub before_last : ℕ → String → Option String
before_last k String.[] = none
before_last k (String.◌∷◌ c s) = elim (before_last k s) [
  | some a ↦ some (String.◌∷◌ c a)
  | none ↦ if code c == k then some "" else none
]

abbrev pub is_not : ℕ → ℕ → Bool
is_not k c = not (c == k)

pub cut_at-append :
    (k : ℕ) (a : String) (c : Char) (b : String)
    → all_chars (is_not k) a ≡ true
    → code c ≡ k
    → cut_at k (a ++ String.◌∷◌ c b) ≡ some (a, b)
unfolding cut_at
cut_at-append k String.[] c b h e = rw (nil-append (String.◌∷◌ c b)) (ground arith)
cut_at-append k (String.◌∷◌ d a) c b h e =
    rw (cons-append d a (String.◌∷◌ c b)) (ground (arith, cut_at-append k a c b))

pub cut_at-some :
    (k : ℕ) (s a b : String)
    → cut_at k s ≡ some (a, b)
    → (all_chars (is_not k) a ≡ true) × ((c : Char) × (code c ≡ k) × (s ≡ a ++ String.◌∷◌ c b))
unfolding cut_at
cut_at-some k String.[] a b h = absurd (ground arith)
cut_at-some k (String.◌∷◌ d s) a b h = elim (Bool-cases (code d == k)) [
  | inl e ↦
      let front : "" ≡ a = ground arith in
      let back : s ≡ b = ground arith in
      (
        ap (all_chars (is_not k)) (sym front),
        (
          d,
          ground arith,
          sym (nil-append (String.◌∷◌ d s))
              ∙ ap (λ (x : String). x ++ String.◌∷◌ d s) front
              ∙ ap (λ (x : String). a ++ String.◌∷◌ d x) back,
        ),
      )
  | inr e ↦ elim (Option-cases (cut_at k s)) [
    | inl n ↦ absurd (ground arith)
    | inr ((a', b'), q) ↦
        let (clear, (c, is_k, same)) = cut_at-some k s a' b' q in
        let front : String.◌∷◌ d a' ≡ a = ground arith in
        let back : b' ≡ b = ground arith in
        (
          ap (all_chars (is_not k)) (sym front) ∙ ground arith,
          (
            c,
            is_k,
            ap (λ (x : String). String.◌∷◌ d x) same
                ∙ sym (cons-append d a' (String.◌∷◌ c b'))
                ∙ ap (λ (x : String). x ++ String.◌∷◌ c b') front
                ∙ ap (λ (x : String). a ++ String.◌∷◌ c x) back,
          ),
        )
  ]
]

pub cut_at-missing : (k : ℕ) (s : String) → cut_at k s ≡ none → all_chars (is_not k) s ≡ true
unfolding cut_at
cut_at-missing k String.[] h = refl
cut_at-missing k (String.◌∷◌ d s) h = elim (Bool-cases (code d == k)) [
  | inl e ↦ absurd (ground arith)
  | inr e ↦ elim (Option-cases (cut_at k s)) [
    | inl n ↦ ground (arith, cut_at-missing k s n)
    | inr ((a, b), q) ↦ absurd (ground arith)
  ]
]

pub cut_at-none : (k : ℕ) (a : String) → all_chars (is_not k) a ≡ true → cut_at k a ≡ none
unfolding cut_at
cut_at-none k String.[] h = refl
cut_at-none k (String.◌∷◌ d a) h = ground (arith, cut_at-none k a)

pub before_last-none : (k : ℕ) (a : String) → all_chars (is_not k) a ≡ true → before_last k a ≡ none
unfolding before_last
before_last-none k String.[] h = refl
before_last-none k (String.◌∷◌ d a) h = ground (arith, before_last-none k a)

pub before_last-append :
    (k : ℕ) (a : String) (c : Char) (b : String)
    → code c ≡ k
    → all_chars (is_not k) b ≡ true
    → before_last k (a ++ String.◌∷◌ c b) ≡ some a
unfolding before_last
before_last-append k String.[] c b e h =
    rw (nil-append (String.◌∷◌ c b), before_last, before_last-none k b h) (ground arith)
before_last-append k (String.◌∷◌ d a) c b e h =
    rw (cons-append d a (String.◌∷◌ c b), before_last, before_last-append k a c b e h) refl
