-- ===== src/State/FileLock.antt =====
-- internal/state/filelock.go: `withFileLock`, run by any number of processes on one agent file.
-- A process acts in atomic moves, one for each call that touches the lock file: the exclusive
-- create, the `Stat`, the `Remove` of a lock that looked stale, and the deferred `Remove`, and one for
-- the clock that `time.Since` reads after the `Stat`. Time is in milliseconds. The lock file counts as its modification time; its text, a process id, is never
-- read. The create fails only because the file exists. `fn` is the time between entering and
-- leaving, and between two moves of one process the others may make any number of moves.
pub mod Exclusion
pub mod Budget
mod Examples
use agent_dashboard.Common.{
  ℕ, suc, ◌+◌, Bool, true, false, Option, none, some, List, [], ◌∷◌, ltb, leb, ◌==◌, if◌then◌else◌,
}

abbrev pub lock_stale_after : ℕ
lock_stale_after = 5000

abbrev pub lock_max_retries : ℕ
lock_max_retries = 400

-- Where a process stands. A number counts its attempts so far.
pub data Pc : Type 0 where
  trying : ℕ → Pc  -- before `OpenFile`
  occupied : ℕ → Pc  -- `OpenFile` said that the file exists
  seen : ℕ → ℕ → Pc  -- `Stat` gave the time of a lock, the second number
  expired : ℕ → Pc  -- `time.Since` said that it is old
  critical : Pc  -- in `fn`
  finished : Pc  -- `fn` returned and the lock was removed
  timed_out : Pc  -- the error after the last attempt

abbrev pub is_stale : ℕ → ℕ → Bool
is_stale now mtime = ltb (mtime + lock_stale_after) now

-- The next atomic move of a process.
unfoldable pub move : ℕ → Option ℕ → Pc → Option ℕ × Pc
move now lock (trying n) =
    if leb lock_max_retries n
    then (lock, timed_out)
    else elim lock [ none ↦ (some now, critical) | some mtime ↦ (some mtime, occupied n) ]
move now lock (occupied n) = elim lock [
  | none ↦ (none, trying (suc n))
  | some mtime ↦ (some mtime, seen n mtime)
]
move now lock (seen n mtime) = (lock, if is_stale now mtime then expired n else trying (suc n))
move now lock (expired n) = (none, trying (suc n))
move now lock critical = (none, finished)
move now lock finished = (lock, finished)
move now lock timed_out = (lock, timed_out)

pub record System : Type 0 where
  pub now : ℕ
  pub lock : Option ℕ
  pub pcs : ℕ → Pc

abbrev pub update : (ℕ → Pc) → ℕ → Pc → ℕ → Pc
update f i p j = if i == j then p else f j

-- A process moves, or time passes.
pub data Event : Type 0 where
  turn : ℕ → Event
  wait : ℕ → Event

unfoldable pub step : System → Event → System
step s (turn i) =
    let (lock', pc') = move s.now s.lock (s.pcs i) in
    record s { lock = lock'; pcs = update s.pcs i pc' }
step s (wait n) = record s { now = s.now + n }

unfoldable pub run : System → List Event → System
run s [] = s
run s (e ∷ es) = run (step s e) es

-- Every process is about to make its first attempt.
abbrev pub start : ℕ → Option ℕ → System
start now lock = record { now = now; lock = lock; pcs = λ i. trying 0 }
