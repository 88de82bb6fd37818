-- ===== src/Campaign/Lease/Refinement.antt =====
-- The lease as a lock with one holder, and a stale lock that is replaced.
use run_forge.Common.{
  ℕ, suc, ◌≡◌, ◌≢◌, refl, Bool, true, false, Option, none, some, List, [], ◌∷◌, arith,
}
use run_forge.Campaign.Lease.{
  Lock, absent, ownerless, owned, Stage, idle, holding, releasing, refused, trying, made, contended,
  condemned, next, World, advance, run,
}
use run_forge.Campaign.Lease.Laws.{IsExclusive, is_inside, is_condemned}
use run_forge.Campaign.Lease.Race.{At, move_first, condemn}

-- The abstract lock: its holder, if there is one.
abbrev pub holder_of : Lock → Option ℕ
holder_of absent = none
holder_of ownerless = none
holder_of (owned p) = some p

-- What process `r` may do to it: nothing, take it when it is free, and give its own back.
pub data MutexStep (r : ℕ) (before after : Option ℕ) : Type 0 where
  stay : after ≡ before → MutexStep r before after
  take : before ≡ none → after ≡ some r → MutexStep r before after
  give : before ≡ some r → after ≡ none → MutexStep r before after

next-MutexStep :
    (alive : ℕ → Bool) (r : ℕ) (s : Stage) (l : Lock)
    → (is_inside s ≡ true → l ≡ owned r)
    → is_condemned s ≡ false
    → MutexStep r (holder_of l) (holder_of (next false alive r s l).1)
unfolding next
next-MutexStep alive r idle l i c = stay refl
next-MutexStep alive r (trying n) absent i c = stay refl
next-MutexStep alive r (trying n) ownerless i c = stay refl
next-MutexStep alive r (trying n) (owned q) i c = stay refl
next-MutexStep alive r (made n) absent i c = stay refl
next-MutexStep alive r (made n) ownerless i c = take refl refl
next-MutexStep alive r (made n) (owned q) i c = stay refl
next-MutexStep alive r (contended n) l i c = stay refl
next-MutexStep alive r (condemned n) l i c = let no : true ≡ false = c in stay cc
next-MutexStep alive r holding absent i c = stay refl
next-MutexStep alive r holding ownerless i c = stay refl
next-MutexStep alive r holding (owned q) i c = stay refl
next-MutexStep alive r releasing l i c = let own = i refl in give (rw own refl) refl
next-MutexStep alive r refused l i c = stay refl

-- Each call of a process is a step of the abstract lock: where all processes are alive and no lock is
-- old, it leaves the holder as it is, takes a lock that is free, or gives back its own.
pub advance-MutexStep :
    (r : ℕ) (w : World)
    → IsExclusive w
    → MutexStep r (holder_of w.lock) (holder_of (advance false r w).lock)
unfolding advance
advance-MutexStep r w i = next-MutexStep w.alive r (w.stage r) w.lock (i.held r) (i.spared r)

-- The calls of one process that finds the lock of another.
abbrev pub alone : ℕ → List (ℕ × Bool)
alone p = (p, false) ∷ (p, false) ∷ (p, false) ∷ (p, false) ∷ (p, false) ∷ (p, false) ∷ []

-- A process that finds the lock of a dead owner, and is not disturbed, comes to hold the lease with its
-- own name in the lock.
pub run-holding :
    (p d : ℕ) (w : World)
    → w.lock ≡ owned d
    → w.alive d ≡ false
    → w.stage p ≡ idle
    → ((run (alone p) w).stage p ≡ holding) × ((run (alone p) w).lock ≡ owned p)
unfolding run next
run-holding p d w lock dead start =
    let differ : p ≢ suc p = omega arith in
    let now : At w.alive p (suc p) w idle (w.stage (suc p)) (owned d) = record {
      first = start;
      second = refl;
      lock = lock;
      same = refl;
    } in
    let read =
      move_first w.alive p (suc p) differ
        (move_first w.alive p (suc p) differ (move_first w.alive p (suc p) differ now refl) refl)
        (condemn w.alive p (suc p) differ p d dead) in
    let end =
      move_first w.alive p (suc p) differ
        (move_first w.alive p (suc p) differ (move_first w.alive p (suc p) differ read refl) refl)
        refl in
    (end.first, end.lock)
