-- ===== src/State/FileLock/Exclusion.antt =====
-- Mutual exclusion: it holds while no lock is left for longer than `lock_stale_after`, and is lost
-- where two processes take down one abandoned lock.
use agent_dashboard.Common.{
  ℕ, ◌+◌, ◌≤◌, ◌<◌, ◌≡◌, refl, ◌≢◌, Bool, true, false, Option, none, some, List, [], ◌∷◌, arith,
}
use agent_dashboard.State.FileLock.{
  lock_stale_after, Pc, trying, occupied, seen, expired, critical, finished, timed_out, move,
  System, Event, turn, wait, step, run, start,
}

abbrev pub in_critical : Pc → Bool
in_critical critical = true
in_critical _ = false

abbrev pub takes_down : Pc → Bool
takes_down (expired n) = true
takes_down _ = false

abbrev pub is_held : Option ℕ → Bool
is_held none = false
is_held (some t) = true

-- The lock that is there, if any, is not older than the limit, nor is one whose time a process has
-- just read and not yet compared with the clock.
abbrev pub IsFresh : System → Type 0
IsFresh s =
    ((t : ℕ) → s.lock ≡ some t → s.now ≤ t + lock_stale_after)
    × ((i n t : ℕ) → s.pcs i ≡ seen n t → s.now ≤ t + lock_stale_after)

abbrev pub StaysFresh : System → List Event → Type 0
StaysFresh s [] = IsFresh s
StaysFresh s (e ∷ es) = IsFresh s × StaysFresh (step s e) es

record Inv (s : System) : Type 0 where
  unique : (i j : ℕ) → in_critical (s.pcs i) ≡ true → in_critical (s.pcs j) ≡ true → i ≡ j
  guarded : (i : ℕ) → in_critical (s.pcs i) ≡ true → is_held s.lock ≡ true
  none_expired : (i : ℕ) → takes_down (s.pcs i) ≡ false

-- What a move can do to a process and to the lock, while locks are fresh.
move_facts :
    (now : ℕ) (lock : Option ℕ) (p : Pc)
    → ((n t : ℕ) → p ≡ seen n t → now ≤ t + lock_stale_after)
    → takes_down p ≡ false
    → (takes_down (move now lock p).1 ≡ false)
      × (in_critical (move now lock p).1 ≡ true
          → (is_held (move now lock p).0 ≡ true) × (is_held lock ≡ false))
      × (in_critical p ≡ false → is_held lock ≡ true → is_held (move now lock p).0 ≡ true)
unfolding move
move_facts now none (trying n) f h = ground arith
move_facts now (some t) (trying n) f h = ground arith
move_facts now none (occupied n) f h = ground arith
move_facts now (some t) (occupied n) f h = ground arith
move_facts now none (seen n t) f h = ground (arith, f n t refl)
move_facts now (some t') (seen n t) f h = ground (arith, f n t refl)
move_facts now lock (expired n) f h = absurd (cc)
move_facts now lock critical f h = ground arith
move_facts now lock finished f h = ground arith
move_facts now lock timed_out f h = ground arith

turn-Inv : (s : System) (i : ℕ) → IsFresh s → Inv s → Inv (step s (turn i))
unfolding step
turn-Inv s i f v =
    let facts = move_facts s.now s.lock (s.pcs i) (f.1 i) (v.none_expired i) in
    record {
      unique = λ j k cj ck. ground (arith, facts.1, v.unique j k, v.guarded j, v.guarded k);
      guarded = λ j cj. ground (arith, facts.1, facts.2, v.guarded j, v.unique i j);
      none_expired = λ j. ground (arith, facts.0, v.none_expired j);
    }

step-Inv : (s : System) (e : Event) → IsFresh s → Inv s → Inv (step s e)
step-Inv s (turn i) f v = turn-Inv s i f v
step-Inv s (wait n) f v =
    unfold step in record { unique = v.unique; guarded = v.guarded; none_expired = v.none_expired }

run-Inv : (s : System) (es : List Event) → StaysFresh s es → Inv s → Inv (run s es)
unfolding run
run-Inv s [] f v = v
run-Inv s (e ∷ es) f v = run-Inv (step s e) es f.1 (step-Inv s e f.0 v)

-- However the processes are interleaved, no two are in `fn` together and one that is holds the
-- lock, provided that along the way no lock file gets older than the limit, whether it is there or a
-- process has read its time and not yet compared it with the clock.
pub mutual_exclusion :
    (now : ℕ) (lock : Option ℕ) (es : List Event)
    → StaysFresh (start now lock) es
    → let s = run (start now lock) es in
      ((i j : ℕ) → in_critical (s.pcs i) ≡ true → in_critical (s.pcs j) ≡ true → i ≡ j)
      × ((i : ℕ) → in_critical (s.pcs i) ≡ true → is_held s.lock ≡ true)
mutual_exclusion now lock es f =
    let v =
      run-Inv (start now lock) es f
        (record { unique = λ i j ci cj. cc; guarded = λ i ci. cc; none_expired = λ i. refl }) in
    (v.unique, v.guarded)

-- Two processes look at an abandoned lock; each then takes it down and locks.
abbrev pub both_take_down : ℕ → ℕ → List Event
both_take_down i j =
    turn i ∷ turn i ∷ turn i ∷ turn j ∷ turn j ∷ turn j ∷ turn i ∷ turn i ∷ turn j ∷ turn j ∷ []

-- From every lock file older than the limit, left by a process that died, and for every two
-- processes, an interleaving that takes no time puts both into `fn`: the second removes the fresh
-- lock of the first as the stale one that it saw.
pub exclusion_lost :
    (now mtime i j : ℕ)
    → mtime + lock_stale_after < now
    → i ≢ j
    → let s = run (start now (some mtime)) (both_take_down i j) in
      (in_critical (s.pcs i) ≡ true) × (in_critical (s.pcs j) ≡ true) × (s.now ≡ now)
unfolding run step move
exclusion_lost now mtime i j old ne = (ground arith, ground arith, refl)
