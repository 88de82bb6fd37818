-- ===== src/Campaign/Lease.antt =====
-- `CampaignCoordinatorLease` of src/control-plane/campaign-coordinator-lease.ts: the lock directory by
-- which one process at a time coordinates the campaigns of a state root. A step is one call of the file
-- system, so the steps of several processes may alternate in any order. A process is a number, which
-- stands for its pid and its token.
pub mod Laws
pub mod Race
pub mod Refinement
mod Tests
use run_forge.Common.{ℕ, zero, suc, ◌+◌, Bool, true, false, List, [], ◌∷◌, if◌then◌else◌, ◌==◌}

-- The lock directory: not there, without a readable owner file, or with that of a process.
pub data Lock : Type 0 where
  absent ownerless : Lock
  owned : ℕ → Lock

-- Where a process stands in `acquire` or `release`; the number is that of the attempt.
pub data Stage : Type 0 where
  idle holding releasing refused : Stage
  trying made contended condemned : ℕ → Stage

-- `processAlive(owner.pid)`, and `ownerlessAgeMs() >= ownerlessStaleMs`: whether a lock may be replaced.
unfoldable pub is_stale : Bool → (ℕ → Bool) → Lock → Bool
is_stale old alive (owned q) = if alive q then false else true
is_stale old alive ownerless = old
is_stale old alive absent = old

-- One call of process `p`, with the stage and the lock after it.
unfoldable pub next : Bool → (ℕ → Bool) → ℕ → Stage → Lock → Stage × Lock
unfolding is_stale
next old alive p idle l = (trying 0, l)
next old alive p (trying n) absent = (made n, ownerless)
next old alive p (trying n) ownerless = (contended n, ownerless)
next old alive p (trying n) (owned q) = (contended n, owned q)
next old alive p (made n) ownerless = (holding, owned p)
next old alive p (made n) absent = (contended n, absent)
next old alive p (made n) (owned q) = (contended n, owned q)
next old alive p (contended n) l = (if is_stale old alive l then condemned n else refused, l)
next old alive p (condemned zero) l = (trying 1, absent)
next old alive p (condemned (suc n)) l = (refused, absent)
next old alive p holding (owned q) = (if q == p then releasing else idle, owned q)
next old alive p holding absent = (idle, absent)
next old alive p holding ownerless = (idle, ownerless)
next old alive p releasing l = (idle, absent)
next old alive p refused l = (refused, l)

pub record World : Type 0 where
  pub lock : Lock
  pub stage : ℕ → Stage
  pub alive : ℕ → Bool

abbrev pub update : (ℕ → Stage) → ℕ → Stage → ℕ → Stage
update f p s q = if q == p then s else f q

unfoldable pub advance : Bool → ℕ → World → World
unfolding next
advance old p w =
    let after = next old w.alive p (w.stage p) w.lock in
    record w { lock = after.1; stage = update w.stage p after.0 }

-- The steps of a schedule: which process moves, and whether an ownerless lock counts as old.
unfoldable pub run : List (ℕ × Bool) → World → World
unfolding advance
run [] w = w
run ((p, old) ∷ rest) w = run rest (advance old p w)
