-- ===== src/Campaign/Lease/Tests.antt =====
-- Processes 1 and 2, and the lock of process 0, which is dead.
use run_forge.Common.{ℕ, ◌≡◌, refl, Bool, true, false, List, [], ◌∷◌, ◌==◌, if◌then◌else◌, arith}
use run_forge.Campaign.Lease.{owned, idle, holding, World, advance, run}
use run_forge.Campaign.Lease.Laws.{at_start, is_inside, run-exclusive}
use run_forge.Campaign.Lease.Laws.{at_start-IsExclusive}
use run_forge.Campaign.Lease.Refinement.{
  holder_of, MutexStep, alone, advance-MutexStep, run-holding,
}
use run_forge.Campaign.Lease.Race.{race, run-race}

abbrev taking : List (ℕ × Bool)
taking = (1, false) ∷ (2, false) ∷ (1, false) ∷ (2, false) ∷ (1, false) ∷ (2, false) ∷ []

one_holds : is_inside ((run taking at_start).stage 1) ≡ true
unfolding run
one_holds = refl

run-exclusive_example : ◌≡◌ {A = ℕ} 1 1
run-exclusive_example =
    run-exclusive taking 1 1 (refl, (refl, (refl, (refl, (refl, (refl, tt)))))) one_holds one_holds

abbrev left_behind : World
left_behind = record {
  lock = owned 0;
  stage = λ p. idle;
  alive = λ p. if p == 0 then false else true;
}

run-race_example :
    ((run (race 1 2) left_behind).stage 1 ≡ holding)
    × ((run (race 1 2) left_behind).stage 2 ≡ holding)
run-race_example = run-race 1 2 0 left_behind (omega arith) refl refl refl refl

advance-MutexStep_example :
    MutexStep 1 (holder_of at_start.lock) (holder_of (advance false 1 at_start).lock)
advance-MutexStep_example = advance-MutexStep 1 at_start at_start-IsExclusive

run-holding_example :
    ((run (alone 1) left_behind).stage 1 ≡ holding) × ((run (alone 1) left_behind).lock ≡ owned 1)
run-holding_example = run-holding 1 0 left_behind refl refl refl
