-- ===== src/Web/Actions/Questions/Refusal.antt =====
-- An answer is sent whole or not at all: before every answer has passed the tests no key reaches the
-- pane, and a failure on the way is followed by Escape.
use agent_dashboard.Common.{
  String, ◌≡◌, ◌≢◌, ◌⊎◌, inl, inr, refl, Bool, true, false, not, ◌&&◌, Option, none, some, List, [],
  ◌∷◌, length, All, str_eq, is_empty, ◌==◌, ==_iff, str_eq_iff, arith, Bool-cases,
}
use agent_dashboard.Common.Int.{ℤ, pos, ◌≤ℤ◌, ◌<ℤ◌, ltb_ℤ, leb_ℤ}
use agent_dashboard.Tmux.{Arg, Runner}
use agent_dashboard.Tmux.Keys.{tmux_send_raw}
use agent_dashboard.Tmux.Chunks.{run_all}
use agent_dashboard.Tmux.Panes.{tmux_is_available}
use agent_dashboard.Tmux.Windows.{resolve_target}
use agent_dashboard.Web.Actions.{
  Status, ok, bad_request, gone, internal_server_error, service_unavailable,
}
use agent_dashboard.Web.Actions.Questions.Sent.{answer_calls, drive-run_all}
use agent_dashboard.Web.Actions.Questions.{
  AskAnswerEntry, AskAnswerRequest, Asked, paused_on_question, want_tool, in_range, is_nil,
  accepts_entry, accepts_entries, accepts, deliver, answer_request, handle_answer_question,
}

-- An option is picked or a text is typed, and every pick is one of the options.
abbrev pub IsAnswer : ℤ → AskAnswerEntry → Type 0
IsAnswer count a =
    (pos 0 <ℤ count)
    × ((a.freeform ≢ []) ⊎ (a.option_indices ≢ []))
    × All (λ i. (pos 0 ≤ℤ i) × (i <ℤ count)) a.option_indices

-- Each question has its answer.
abbrev pub AreAnswers : List AskAnswerEntry → List ℤ → Type 0
AreAnswers [] [] = Unit
AreAnswers [] (count ∷ counts) = ⊥
AreAnswers (a ∷ answers) [] = ⊥
AreAnswers (a ∷ answers) (count ∷ counts) = IsAnswer count a × AreAnswers answers counts

abbrev pub IsAnswerable : AskAnswerRequest → Type 0
IsAnswerable req = (req.answers ≢ []) × AreAnswers req.answers req.option_counts

and_cases : (a b : Bool) → (a && b) ≡ true → (a ≡ true) × (b ≡ true)
and_cases a b h = (ground arith, ground arith)

and_cases3 : (a b c : Bool) → (a && b && c) ≡ true → (a ≡ true) × (b ≡ true) × (c ≡ true)
and_cases3 a b c h = (ground arith, ground arith, ground arith)

in_range-All :
    (count : ℤ) (indices : List ℤ)
    → in_range count indices ≡ true
    → All (λ i. (pos 0 ≤ℤ i) × (i <ℤ count)) indices
in_range-All count [] h = tt
in_range-All count (i ∷ indices) h =
    let (low, high, more) =
      and_cases3 (leb_ℤ (pos 0) i) (ltb_ℤ i count) (in_range count indices) h in
    ((ground arith, ground arith), in_range-All count indices more)

has_items :
    {A B : Type 0} (xs : List A) (ys : List B)
    → not (is_nil xs && is_nil ys) ≡ true
    → (xs ≢ []) ⊎ (ys ≢ [])
has_items (x ∷ xs) ys h = inl cc
has_items [] (y ∷ ys) h = inr cc
has_items [] [] h = ground arith

accepts_entry-IsAnswer :
    (count : ℤ) (a : AskAnswerEntry) → accepts_entry count a ≡ true → IsAnswer count a
unfolding accepts_entry
accepts_entry-IsAnswer count a h =
    let (some_options, given, all) =
      and_cases3 (ltb_ℤ (pos 0) count) (not (is_nil a.freeform && is_nil a.option_indices))
        (in_range count a.option_indices) h in
    (
      ground arith,
      has_items a.freeform a.option_indices given,
      in_range-All count a.option_indices all,
    )

accepts_entries-AreAnswers :
    (answers : List AskAnswerEntry) (counts : List ℤ)
    → length answers ≡ length counts
    → accepts_entries answers counts ≡ true
    → AreAnswers answers counts
unfolding accepts_entries
accepts_entries-AreAnswers [] [] e h = tt
accepts_entries-AreAnswers [] (count ∷ counts) e h = ground arith
accepts_entries-AreAnswers (a ∷ answers) [] e h = ground arith
accepts_entries-AreAnswers (a ∷ answers) (count ∷ counts) e h =
    let (first, rest) = and_cases (accepts_entry count a) (accepts_entries answers counts) h in
    (
      accepts_entry-IsAnswer count a first,
      accepts_entries-AreAnswers answers counts (omega (arith, e)) rest,
    )

accepts-IsAnswerable : (req : AskAnswerRequest) → accepts req ≡ true → IsAnswerable req
unfolding accepts
accepts-IsAnswerable req h =
    let (given, same, all) =
      and_cases3 (not (is_nil req.answers)) (length req.answers == length req.option_counts)
        (accepts_entries req.answers req.option_counts) h in
    (
      not_nil req.answers given,
      accepts_entries-AreAnswers req.answers req.option_counts
          ((==_iff (length req.answers) (length req.option_counts)).0 same) all,
    )
  where
    not_nil : (xs : List AskAnswerEntry) → not (is_nil xs) ≡ true → xs ≢ []
    not_nil [] h = ground arith
    not_nil (x ∷ xs) h = cc

-- The tool that the agent last reported is no other than the one that asks.
abbrev pub IsCurrent : Asked → Type 0
IsCurrent a = (a.pending_question ≡ false) ⊎ (a.current_tool ≡ want_tool a)

-- Every answer of the request has passed the tests, and the agent is paused on a question.
abbrev pub IsDue : Asked → AskAnswerRequest → Type 0
IsDue a req = (paused_on_question a ≡ true) × IsCurrent a × IsAnswerable req

not_stale :
    (a : Asked)
    → (a.pending_question && not (str_eq a.current_tool (want_tool a))) ≡ false
    → IsCurrent a
not_stale a h = elim (Bool-cases a.pending_question) [
  | inr idle ↦ inl idle
  | inl pending ↦ inr ((str_eq_iff a.current_tool (want_tool a)).0 (ground arith))
]

not_empty : (s : String) → is_empty s ≡ false → s ≢ ""
not_empty s h e = ground (arith, str_eq_iff s "", e)

result_cases :
    {W : Type 0} (q : Bool × W) → ((w : W) × (q ≡ (true, w))) ⊎ ((w : W) × (q ≡ (false, w)))
result_cases (true, w) = inl (w, refl)
result_cases (false, w) = inr (w, refl)

module _ {W : Type 0} (r : Runner W) where
  -- The state after the two questions that the handler asks of tmux.
  abbrev pub after_queries : String → W → W
  after_queries pane_id w = (resolve_target r pane_id (tmux_is_available r w).1).1

  -- A refusal: an error, and no command but the handler's questions to tmux.
  abbrev pub IsRefused : Asked → W → Status × W → Type 0
  IsRefused a w p =
      (p.0 ≢ ok)
      × ((p.1 ≡ w)
          ⊎ ((p.1 ≡ (tmux_is_available r w).1) ⊎ (p.1 ≡ after_queries a.agent.tmux_pane_id w)))

  -- All keys of the answer, or those up to the first that failed and then Escape.
  abbrev pub IsSent : List (List Arg) → String → W → Status × W → Type 0
  IsSent keys target w p =
      ((p.0 ≡ ok) × (run_all r keys w ≡ (true, p.1)))
      ⊎ ((p.0 ≡ internal_server_error)
          × (w' : W) × (run_all r keys w ≡ (false, w'))
          × (p.1 ≡ (tmux_send_raw r target "Escape" w').1))

  abbrev pub IsAnswered : Asked → Option AskAnswerRequest → W → Status × W → Type 0
  IsAnswered a body w p =
      (req : AskAnswerRequest) × (target : String) × (body ≡ some req)
      × IsDue a req
      × (target ≢ "")
      × IsSent (answer_calls a target req) target (after_queries a.agent.tmux_pane_id w) p

  deliver-IsSent :
      (a : Asked) (target : String) (req : AskAnswerRequest) (w : W)
      → (p : Status × W) × (deliver r a target req w ≡ some p)
        × IsSent (answer_calls a target req) target w p
  unfolding deliver
  deliver-IsSent a target req w = elim (result_cases (run_all r (answer_calls a target req) w)) [
    | inl (w', e) ↦ ((ok, w'), rw (deliver, drive-run_all r a target req w, e) refl, inl (refl, e))
    | inr (w', e) ↦ (
      (internal_server_error, (tmux_send_raw r target "Escape" w').1),
      rw (deliver, drive-run_all r a target req w, e) refl,
      inr (refl, w', e, refl),
    )
  ]

  -- What the handler gives for an agent that is found.
  abbrev pub Ends : Asked → Option AskAnswerRequest → W → Option (Status × W) → Type 0
  Ends a body w result =
      (p : Status × W) × (result ≡ some p) × (IsRefused a w p ⊎ IsAnswered a body w p)

  answer_request-Ends :
      (a : Asked) (body : Option AskAnswerRequest) (w : W)
      → paused_on_question a ≡ true
      → IsCurrent a
      → Ends a body w (answer_request r a body (tmux_is_available r w).1)
  unfolding answer_request
  answer_request-Ends a none w due current =
      ((bad_request, (tmux_is_available r w).1), refl, inl (cc, inr (inl refl)))
  answer_request-Ends a (some req) w due current =
      let w1 = (tmux_is_available r w).1 in
      let (target, w2) = resolve_target r a.agent.tmux_pane_id w1 in
      elim (Bool-cases (accepts req)) [
        | inr e ↦ ((bad_request, w1), rw (answer_request, e) refl, inl (cc, inr (inl refl)))
        | inl e ↦ elim (Bool-cases (is_empty (resolve_target r a.agent.tmux_pane_id w1).0)) [
          | inl f ↦ ((gone, w2), rw (answer_request, e, f) refl, inl (cc, inr (inr refl)))
          | inr f ↦
              let (p, same, sent) = deliver-IsSent a target req w2 in
              (
                p,
                rw (answer_request, e, f) same,
                inr (
                  req,
                  target,
                  refl,
                  (due, current, accepts-IsAnswerable req e),
                  not_empty (resolve_target r a.agent.tmux_pane_id w1).0 f,
                  sent,
                ),
              )
        ]
      ]

  -- For every agent that is found, `handleAnswerQuestion` ends in one of two ways. It refuses with an
  -- error, having asked tmux at most whether it runs and where the pane is; or the agent is paused on
  -- a question, its current tool is the one that asks unless no question is pending, every answer of
  -- the request is an answer to its question, and the pane gets all keys of the answer, or, with an
  -- error, the keys up to the first that fails and then Escape.
  pub handle_answer_question-Ends :
      (a : Asked) (body : Option AskAnswerRequest) (w : W)
      → (p : Status × W) × (handle_answer_question r (some a) body w ≡ some p)
        × (IsRefused a w p ⊎ IsAnswered a body w p)
  unfolding handle_answer_question
  handle_answer_question-Ends a body w =
      let w1 = (tmux_is_available r w).1 in
      elim (Bool-cases (paused_on_question a)) [
        | inr e ↦ ((bad_request, w), rw (handle_answer_question, e) refl, inl (cc, inl refl))
        | inl e ↦
            elim (Bool-cases (a.pending_question && not (str_eq a.current_tool (want_tool a)))) [
              | inl f ↦
                  ((bad_request, w), rw (handle_answer_question, e, f) refl, inl (cc, inl refl))
              | inr f ↦ elim (Bool-cases (tmux_is_available r w).0) [
                | inr g ↦ (
                  (service_unavailable, w1),
                  rw (handle_answer_question, e, f, g) refl,
                  inl (cc, inr (inl refl)),
                )
                | inl g ↦
                    let (p, same, end) = answer_request-Ends a body w e (not_stale a f) in
                    (p, rw (handle_answer_question, e, f, g) same, end)
              ]
            ]
      ]
