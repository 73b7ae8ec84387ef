-- ===== src/State/FileLock/Budget.antt =====
-- The retry budget: a process ends after a bounded number of its own moves.
use agent_dashboard.Common.{
  ℕ, suc, ◌+◌, ◌-◌, ◌*◌, ◌≤◌, ◌<◌, ◌≡◌, refl, ◌⊎◌, inl, inr, Bool, true, false, Option, none, some,
  List, [], ◌∷◌, ◌==◌, arith, if◌then◌else◌, Bool-cases, ==_iff, subst,
}
use agent_dashboard.State.FileLock.{
  lock_max_retries, Pc, trying, occupied, seen, expired, critical, finished, timed_out, move,
  System, Event, turn, wait, step, run, start,
}

-- How many of its own moves a process has left, at most.
abbrev rank : Pc → ℕ
rank (trying n) = 4 * (400 - n) + 1
rank (occupied n) = 4 * (400 - n)
rank (seen n mtime) = 4 * (400 - n) - 1
rank (expired n) = 4 * (400 - n) - 2
rank critical = 1
rank finished = 0
rank timed_out = 0

abbrev IsBudgeted : Pc → Type 0
IsBudgeted (trying n) = n ≤ lock_max_retries
IsBudgeted (occupied n) = n < lock_max_retries
IsBudgeted (seen n mtime) = n < lock_max_retries
IsBudgeted (expired n) = n < lock_max_retries
IsBudgeted _ = Unit

abbrev pub has_ended : Pc → Bool
has_ended finished = true
has_ended timed_out = true
has_ended _ = false

move-rank :
    (now : ℕ) (lock : Option ℕ) (p : Pc)
    → IsBudgeted p
    → IsBudgeted (move now lock p).1 × (rank (move now lock p).1 ≤ rank p - 1)
unfolding move
move-rank now none (trying n) h = ground arith
move-rank now (some t) (trying n) h = ground arith
move-rank now none (occupied n) h = ground arith
move-rank now (some t) (occupied n) h = ground arith
move-rank now lock (seen n mtime) h = ground arith
move-rank now lock (expired n) h = ground arith
move-rank now lock critical h = ground arith
move-rank now lock finished h = ground arith
move-rank now lock timed_out h = ground arith

-- How often a schedule lets process `i` move.
abbrev pub turns : ℕ → List Event → ℕ
turns i [] = 0
turns i (turn j ∷ es) = let rest = turns i es in if j == i then suc rest else rest
turns i (wait n ∷ es) = turns i es

-- A step of process `i` moves it on; any other step leaves it where it is.
pc_after :
    (s : System) (i j : ℕ)
    → ((j ≡ i) × ((step s (turn j)).pcs i ≡ (move s.now s.lock (s.pcs i)).1))
      ⊎ (((j == i) ≡ false) × ((step s (turn j)).pcs i ≡ s.pcs i))
unfolding step
pc_after s i j = elim (Bool-cases (j == i)) [
  | inl e ↦
      let q : j ≡ i = (==_iff j i).0 e in
      inl (
        q,
        subst
            (λ k.
              (if j == k then (move s.now s.lock (s.pcs j)).1 else s.pcs k)
              ≡ (move s.now s.lock (s.pcs k)).1)
            q (ground arith),
      )
  | inr e ↦ inr (e, rw e refl)
]

turns-∷ : (i : ℕ) (e : Event) (es : List Event) → turns i (e ∷ es) ≡ turns i (e ∷ []) + turns i es
turns-∷ i (turn j) es = ground arith
turns-∷ i (wait n) es = omega arith

step-rank :
    (s : System) (i : ℕ) (e : Event)
    → IsBudgeted (s.pcs i)
    → IsBudgeted ((step s e).pcs i) × (rank ((step s e).pcs i) ≤ rank (s.pcs i) - turns i (e ∷ []))
step-rank s i (wait n) h = unfold step in (h, omega arith)
step-rank s i (turn j) h = elim (pc_after s i j) [
  | inl (e, q) ↦ rw (q) (ground (arith, move-rank s.now s.lock (s.pcs i) h))
  | inr (e, q) ↦ rw (q, e) (h, omega arith)
]

run-rank :
    (s : System) (i : ℕ) (es : List Event)
    → IsBudgeted (s.pcs i)
    → IsBudgeted ((run s es).pcs i) × (rank ((run s es).pcs i) ≤ rank (s.pcs i) - turns i es)
unfolding run
run-rank s i [] h = (h, omega arith)
run-rank s i (e ∷ es) h =
    let (h', le) = step-rank s i e h in
    let (h'', le') = run-rank (step s e) i es h' in (h'', omega (arith, turns-∷ i e es))

rank-has_ended : (p : Pc) → IsBudgeted p → rank p ≤ 0 → has_ended p ≡ true
rank-has_ended (trying n) h le = absurd (omega arith)
rank-has_ended (occupied n) h le = absurd (omega arith)
rank-has_ended (seen n mtime) h le = absurd (omega arith)
rank-has_ended (expired n) h le = absurd (omega arith)
rank-has_ended critical h le = absurd (omega arith)
rank-has_ended finished h le = refl
rank-has_ended timed_out h le = refl

-- Whatever the other processes do, and however old the lock is, a process that has made 1601 of its
-- own moves has ended: it ran `fn` and gave the lock back, or it returned the time-out error.
pub turns-has_ended :
    (now : ℕ) (lock : Option ℕ) (i : ℕ) (es : List Event)
    → 1601 ≤ turns i es
    → has_ended ((run (start now lock) es).pcs i) ≡ true
turns-has_ended now lock i es enough =
    let (h, le) = run-rank (start now lock) i es (omega arith) in
    rank-has_ended ((run (start now lock) es).pcs i) h (omega arith)
