-- ===== src/Tmux/Chunks.antt =====
-- A text reaches the pane whole, in calls of a bounded size, and the sending stops at the first
-- error.
use mathlib.Core.List.{append-nil}
use agent_dashboard.Common.{
  inl, inr, ltb→lt, ℕ, zero, suc, ◌≤◌, ◌<◌, ◌-◌, String, ◌≡◌, refl, ap, ◌∙◌, Bool, true, some, List,
  [], ◌∷◌, ◌++◌, map, length, take, drop, length-take, take-append-drop, All, ltb, arith,
  Bool-cases, if◌then◌else◌,
}
use agent_dashboard.Tmux.{Arg, Runner, and_then}
use agent_dashboard.Tmux.Keys.{
  tmux_send_keys, next_chunk, press, literal, tmux_send_submit_keys, send_loop,
  tmux_send_keys_with_submit, tmux_send_keys_clearing_input,
}

-- Commands in order, up to and with the first that fails; whether none failed.
unfoldable pub run_all : {W : Type 0} → Runner W → List (List Arg) → W → Bool × W
run_all r [] w = (true, w)
run_all r (c ∷ cs) w = and_then (r.run c w) (λ w'. run_all r cs w')

abbrev pub concat : List (List ℕ) → List ℕ
concat [] = []
concat (c ∷ cs) = c ++ concat cs

abbrev pub IsSendable : List ℕ → Type 0
IsSendable chunk = (0 < length chunk) × (length chunk ≤ 512)

-- The calls that carry the text.
abbrev pub AreChunksOf : List ℕ → List (List ℕ) → Type 0
AreChunksOf text chunks = (concat chunks ≡ text) × All IsSendable chunks

length-drop : (n : ℕ) (xs : List ℕ) → length (drop n xs) ≡ length xs - n
length-drop zero xs = omega arith
length-drop (suc n) [] = omega arith
length-drop (suc n) (x ∷ xs) = omega (arith, length-drop n xs)

-- The next chunk, with any bound.
abbrev chunk_of : ℕ → List ℕ → List ℕ
chunk_of n text = if ltb n (length text) then take n text else text

length-chunk_of :
    (n b : ℕ) (text : List ℕ)
    → 0 < n
    → (0 < length (chunk_of n (b ∷ text))) × (length (chunk_of n (b ∷ text)) ≤ n)
length-chunk_of n b text h = elim (Bool-cases (ltb n (length (b ∷ text)))) [
  | inl e ↦ rw e (
    omega (arith, h, length-take n (b ∷ text), ltb→lt n (length (b ∷ text)) e),
    omega (arith, length-take n (b ∷ text)),
  )
  | inr e ↦ rw e (omega arith, ground arith)
]

drop-length : (xs : List ℕ) → drop (length xs) xs ≡ []
drop-length [] = refl
drop-length (x ∷ xs) = drop-length xs

chunk_of-append-rest :
    (n : ℕ) (text : List ℕ) → chunk_of n text ++ drop (length (chunk_of n text)) text ≡ text
chunk_of-append-rest n text = elim (Bool-cases (ltb n (length text))) [
  | inl e ↦
      let exact : length (take n text) ≡ n =
        omega (arith, length-take n text, ltb→lt n (length text) e) in
      rw (e, exact) (take-append-drop n text)
  | inr e ↦ rw e (ap (λ (x : List ℕ). text ++ x) (drop-length text) ∙ append-nil text)
]

next_chunk-IsSendable : (b : ℕ) (text : List ℕ) → IsSendable (next_chunk (b ∷ text))
unfolding next_chunk
next_chunk-IsSendable b text = length-chunk_of 512 b text (omega arith)

next_chunk-append-rest :
    (text : List ℕ) → next_chunk text ++ drop (length (next_chunk text)) text ≡ text
unfolding next_chunk
next_chunk-append-rest text = chunk_of-append-rest 512 text

-- The chunks of a text, of at most as many bytes as the fuel.
unfoldable pub chunks_from : ℕ → List ℕ → List (List ℕ)
chunks_from fuel [] = []
chunks_from zero (b ∷ text) = []
chunks_from (suc fuel) (b ∷ text) =
    let chunk = next_chunk (b ∷ text) in chunk ∷ chunks_from fuel (drop (length chunk) (b ∷ text))

abbrev pub chunks_of : List ℕ → List (List ℕ)
chunks_of text = chunks_from (length text) text

rest-fits :
    (b : ℕ) (text : List ℕ) (fuel : ℕ)
    → length (b ∷ text) ≤ suc fuel
    → length (drop (length (next_chunk (b ∷ text))) (b ∷ text)) ≤ fuel
rest-fits b text fuel h =
    let (nonzero, bounded) = next_chunk-IsSendable b text in
    omega (arith, h, nonzero, length-drop (length (next_chunk (b ∷ text))) (b ∷ text))

chunks_from-AreChunksOf :
    (fuel : ℕ) (text : List ℕ) → length text ≤ fuel → AreChunksOf text (chunks_from fuel text)
unfolding chunks_from
chunks_from-AreChunksOf fuel [] h = (refl, tt)
chunks_from-AreChunksOf zero (b ∷ text) h = absurd (omega (arith, h))
chunks_from-AreChunksOf (suc fuel) (b ∷ text) h =
    let chunk = next_chunk (b ∷ text) in
    let (joined, sendable) =
      chunks_from-AreChunksOf fuel (drop (length chunk) (b ∷ text)) (rest-fits b text fuel h) in
    (
      ap (λ (x : List ℕ). chunk ++ x) joined ∙ next_chunk-append-rest (b ∷ text),
      (next_chunk-IsSendable b text, sendable),
    )

abbrev pub calls : String → List (List ℕ) → List String → List (List Arg)
calls target chunks keys = map (literal target) chunks ++ map (press target) keys

module _ {W : Type 0} (r : Runner W) (target : String) where
  run_all-press :
      (keys : List String) (w : W)
      → tmux_send_submit_keys r target keys w ≡ run_all r (map (press target) keys) w
  unfolding tmux_send_submit_keys run_all
  run_all-press [] w = refl
  run_all-press (key ∷ keys) w = elim (Bool-cases (r.run (press target key) w).0) [
    | inl e ↦ rw (e, run_all-press keys (r.run (press target key) w).1) refl
    | inr e ↦ rw e refl
  ]

  send_loop-run_all :
      (fuel : ℕ) (text : List ℕ) (keys : List String) (w : W)
      → length text ≤ fuel
      → send_loop r fuel target text keys w
        ≡ some (run_all r (calls target (chunks_from fuel text) keys) w)
  unfolding send_loop run_all chunks_from
  send_loop-run_all fuel [] keys w h = ap some (run_all-press keys w)
  send_loop-run_all zero (b ∷ text) keys w h = absurd (omega (arith, h))
  send_loop-run_all (suc fuel) (b ∷ text) keys w h =
      let chunk = next_chunk (b ∷ text) in
      elim (Bool-cases (r.run (literal target chunk) w).0) [
        | inl e ↦
            rw
              (
                e,
                send_loop-run_all fuel (drop (length chunk) (b ∷ text)) keys
                    (r.run (literal target chunk) w).1 (rest-fits b text fuel h),
              )
              refl
        | inr e ↦ rw e refl
      ]

  pub tmux_send_keys-run_all :
      (text : List ℕ) (w : W)
      → tmux_send_keys r target text w
        ≡ some (run_all r (calls target (chunks_of text) ("Enter" ∷ [])) w)
  unfolding tmux_send_keys tmux_send_keys_with_submit
  tmux_send_keys-run_all text w =
      send_loop-run_all (length text) text ("Enter" ∷ []) w (omega arith)

  -- `TmuxSendKeysClearingInput` clears the input line, sends the text in non-empty calls of at most
  -- 512 bytes that together are the text, and then presses the keys. It stops at the first command
  -- that fails, and its loop always ends.
  pub tmux_send_keys_clearing_input-run_all :
      (text : List ℕ) (keys : List String)
      → (chunks : List (List ℕ)) × AreChunksOf text chunks
        × ((w : W)
            → tmux_send_keys_clearing_input r target text keys w
              ≡ some (run_all r (press target "C-u" ∷ calls target chunks keys) w))
  unfolding tmux_send_keys_clearing_input tmux_send_keys_with_submit run_all
  tmux_send_keys_clearing_input-run_all text keys = (
    chunks_of text,
    chunks_from-AreChunksOf (length text) text (omega arith),
    λ w. elim (Bool-cases (r.run (press target "C-u") w).0) [
      | inl e ↦
          rw
            (
              e,
              send_loop-run_all (length text) text keys (r.run (press target "C-u") w).1
                  (omega arith),
            )
            refl
      | inr e ↦ rw e refl
    ],
  )

pub run_all-append :
    {W : Type 0} (r : Runner W) (a b : List (List Arg)) (w : W)
    → run_all r (a ++ b) w ≡ and_then (run_all r a w) (λ w'. run_all r b w')
unfolding run_all
run_all-append r [] b w = refl
run_all-append r (c ∷ a) b w = elim (Bool-cases (r.run c w).0) [
  | inl e ↦ rw (e, run_all-append r a b (r.run c w).1) refl
  | inr e ↦ rw e refl
]
