-- ===== src/Conversation/Texts/Stripped.antt =====
-- internal/conversation/conversation.go: the loop of `stripSystemTags` ends, and leaves no pair of the
-- tag.
use mathlib.Core.List.{append_assoc}
use agent_dashboard.Common.{
  ℕ, zero, suc, ◌+◌, ◌≤◌, ◌<◌, ◌≡◌, ◌≢◌, refl, ap, sym, ◌∙◌, true, none, some, List, [], ◌∷◌, ◌++◌,
  length, length-append, take, drop, length-take, length-drop, drop-append, inl, inr, arith,
  Bool-cases, Option-cases,
}
use agent_dashboard.Conversation.Texts.{starts, index, cut_tag, strip_loop, strip_tag}

starts-append : (sub rest : List ℕ) → starts sub (sub ++ rest) ≡ true
unfolding starts
starts-append [] rest = refl
starts-append (c ∷ sub) rest = ground (arith, starts-append sub rest)

-- A text that holds another has a first place of it, no later than that one.
index-le :
    (sub a rest : List ℕ) → (i : ℕ) × (index sub (a ++ (sub ++ rest)) ≡ some i) × (i ≤ length a)
unfolding index
index-le [] [] [] = (0, ground arith, omega arith)
index-le [] [] (c ∷ rest) = (0, ground arith, omega arith)
index-le (c ∷ sub) [] rest = (0, ground (arith, starts-append (c ∷ sub) rest), omega arith)
index-le sub (d ∷ a) rest =
    let (i, e, le) = index-le sub a rest in
    elim (Bool-cases (starts sub (d ∷ (a ++ (sub ++ rest))))) [
      | inl here ↦ (0, rw here refl, omega arith)
      | inr later ↦ (suc i, rw (later, e) refl, omega (arith, le))
    ]

index-lt : (c : ℕ) (sub s : List ℕ) (i : ℕ) → index (c ∷ sub) s ≡ some i → i < length s
unfolding index starts
index-lt c sub [] i h = ground arith
index-lt c sub (d ∷ s) i h = elim (Option-cases (index (c ∷ sub) s)) [
  | inl n ↦ ground (arith, n)
  | inr (j, e) ↦ ground (arith, e, index-lt c sub s j e)
]

module _ (o k : ℕ) (opening closing : List ℕ) where
  -- A pair of the tag: an opening, and a closing behind it.
  abbrev pub pair_in : List ℕ → List ℕ → List ℕ → List ℕ
  pair_in a b c = a ++ ((o ∷ opening) ++ (b ++ ((k ∷ closing) ++ c)))

  cut_tag-pair : (a b c : List ℕ) → cut_tag (o ∷ opening) (k ∷ closing) (pair_in a b c) ≢ none
  unfolding cut_tag
  cut_tag-pair a b c h =
      let (i, e, le) = index-le (o ∷ opening) a (b ++ ((k ∷ closing) ++ c)) in
      let tail = drop i a ++ ((o ∷ opening) ++ b) in
      let behind : drop i (pair_in a b c) ≡ tail ++ ((k ∷ closing) ++ c) =
        drop-append i a ((o ∷ opening) ++ (b ++ ((k ∷ closing) ++ c))) le
        ∙ ap (λ l. drop i a ++ l) (sym (append_assoc (o ∷ opening) b ((k ∷ closing) ++ c)))
        ∙ sym (append_assoc (drop i a) ((o ∷ opening) ++ b) ((k ∷ closing) ++ c)) in
      let (j, f, le') = index-le (k ∷ closing) tail c in
      let found : index (k ∷ closing) (drop i (pair_in a b c)) ≡ some j =
        ap (index (k ∷ closing)) behind ∙ f in
      ground (arith, e, found, h)

  cut_tag-shorter :
      (s t : List ℕ) → cut_tag (o ∷ opening) (k ∷ closing) s ≡ some t → length t < length s
  unfolding cut_tag
  cut_tag-shorter s t h = elim (Option-cases (index (o ∷ opening) s)) [
    | inl n ↦ ground (arith, n, h)
    | inr (i, e) ↦ elim (Option-cases (index (k ∷ closing) (drop i s))) [
      | inl n ↦ ground (arith, e, n, h)
      | inr (j, f) ↦
          let cut : t ≡ take i s ++ drop (i + j + suc (length closing)) s =
            ground (arith, e, f, h) in
          omega (
            arith,
            ap length cut,
            length-append (take i s) (drop (i + j + suc (length closing)) s),
            length-take i s,
            length-drop (i + j + suc (length closing)) s,
            index-lt o opening s i e,
          )
    ]
  ]

  strip_loop-done :
      (fuel : ℕ) (s : List ℕ)
      → length s ≤ fuel
      → cut_tag (o ∷ opening) (k ∷ closing) (strip_loop fuel (o ∷ opening) (k ∷ closing) s) ≡ none
  unfolding strip_loop
  strip_loop-done zero s h = elim (Option-cases (cut_tag (o ∷ opening) (k ∷ closing) s)) [
    | inl n ↦ n
    | inr (t, e) ↦ absurd (omega (arith, cut_tag-shorter s t e))
  ]
  strip_loop-done (suc fuel) s h = elim (Option-cases (cut_tag (o ∷ opening) (k ∷ closing) s)) [
    | inl n ↦
        let stays : strip_loop (suc fuel) (o ∷ opening) (k ∷ closing) s ≡ s = ground (arith, n) in
        ap (cut_tag (o ∷ opening) (k ∷ closing)) stays ∙ n
    | inr (t, e) ↦
        let goes_on : strip_loop (suc fuel) (o ∷ opening) (k ∷ closing) s
            ≡ strip_loop fuel (o ∷ opening) (k ∷ closing) t =
          ground (arith, e) in
        ap (cut_tag (o ∷ opening) (k ∷ closing)) goes_on
        ∙ strip_loop-done fuel t (omega (arith, cut_tag-shorter s t e))
  ]

-- Whatever the text and the tag are, the loop ends, and what it leaves has no opening of the tag
-- with a closing anywhere behind it.
pub strip_tag-no_pair :
    (tag s a b c : List ℕ)
    → strip_tag tag s ≢ pair_in b'<' b'<' tag (b'/' ∷ (tag ++ b'>' ∷ [])) a b c
unfolding strip_tag
strip_tag-no_pair tag s a b c h =
    let closing = b'/' ∷ (tag ++ b'>' ∷ []) in
    cut_tag-pair b'<' b'<' tag closing a b c (
      ap (cut_tag (b'<' ∷ tag) (b'<' ∷ closing)) (sym h)
      ∙ strip_loop-done b'<' b'<' tag closing (length s) s (omega arith))
