-- ===== src/State/FileLock/Examples.antt =====
-- The theorems on the lock for concrete schedules, and a test of two processes in turn.
use agent_dashboard.Common.{
  ℕ, zero, suc, List, ◌≤◌, ◌+◌, ◌≡◌, refl, true, none, some, [], ◌∷◌, arith,
}
use agent_dashboard.State.FileLock.{critical, finished, Event, turn, wait, step, move, run, start}
use agent_dashboard.State.FileLock.Exclusion.{
  in_critical, is_held, both_take_down, StaysFresh, mutual_exclusion, exclusion_lost,
}
use agent_dashboard.State.FileLock.Budget.{has_ended, turns-has_ended}

-- Two processes on one file: the second finds it locked, sleeps, and gets it later.
abbrev two_in_turn : List Event
two_in_turn = turn 0 ∷ turn 1 ∷ turn 1 ∷ turn 1 ∷ wait 5 ∷ turn 0 ∷ turn 1 ∷ []

two_in_turn_test :
    let s = run (start 100 none) two_in_turn in
    (s.pcs 0 ≡ finished) × (s.pcs 1 ≡ critical) × (s.lock ≡ some 105)
unfolding run step move
two_in_turn_test = (refl, refl, refl)

two_in_turn-StaysFresh : StaysFresh (start 100 none) two_in_turn
unfolding step move
two_in_turn-StaysFresh =
    let no : (t : ℕ) → none ≡ some t → 100 ≤ t + 5000 = (λ t h. ground arith) in
    let at : (t : ℕ) → some 100 ≡ some t → 100 ≤ t + 5000 = (λ t h. ground arith) in
    (
      (no, λ i n t h. ground arith),
      (
        (at, λ i n t h. ground arith),
        (
          (at, λ i n t h. ground arith),
          (
            (at, λ i n t h. ground arith),
            (
              (at, λ i n t h. ground arith),
              (
                (λ t h. ground arith, λ i n t h. ground arith),
                (
                  (λ t h. ground arith, λ i n t h. ground arith),
                  (λ t h. ground arith, λ i n t h. ground arith),
                ),
              ),
            ),
          ),
        ),
      ),
    )

mutual_exclusion_example :
    let s = run (start 100 none) two_in_turn in
    ((i j : ℕ) → in_critical (s.pcs i) ≡ true → in_critical (s.pcs j) ≡ true → i ≡ j)
    × ((i : ℕ) → in_critical (s.pcs i) ≡ true → is_held s.lock ≡ true)
mutual_exclusion_example = mutual_exclusion 100 none two_in_turn two_in_turn-StaysFresh

exclusion_lost_example :
    let s = run (start 6000 (some 0)) (both_take_down 0 1) in
    (in_critical (s.pcs 0) ≡ true) × (in_critical (s.pcs 1) ≡ true) × (s.now ≡ 6000)
exclusion_lost_example = exclusion_lost 6000 0 0 1 (omega arith) (omega arith)

-- A schedule that lets process 0 make `n` moves while another one keeps the lock.
abbrev moves_of_0 : ℕ → List Event
moves_of_0 zero = []
moves_of_0 (suc n) = turn 0 ∷ moves_of_0 n

turns-has_ended_example : has_ended ((run (start 0 (some 0)) (moves_of_0 1601)).pcs 0) ≡ true
turns-has_ended_example = turns-has_ended 0 (some 0) 0 (moves_of_0 1601) (omega arith)
