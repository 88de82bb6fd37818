-- ===== src/Planning/Cycle.antt =====
-- `detectCycle` of src/run/campaign-validation.ts: a depth-first search that returns the first cycle
-- that it meets, as the ids along it with the first one repeated, or an empty list.
pub mod Chains
pub mod Orders
pub mod Walks
pub mod Search
pub mod Laws
use run_forge.Common.{
  ℕ, zero, suc, ◌+◌, ◌≡◌, refl, Option, none, some, List, [], ◌∷◌, ◌++◌, String, if◌then◌else◌,
  length, str_eq,
}
use run_forge.Planning.Graph.{GraphNode, member, remove, deps_of, ids}

-- The sets `visiting` and `visited`, the latest first, and `stack`.
pub record WalkState : Type 0 where
  pub visiting : List String
  pub visited : List String
  pub stack : List String

-- What a walk returns, with the state it leaves; `none` means that the fuel ran out.
abbrev pub Outcome : Type 0
Outcome = Option (List String × WalkState)

-- `stack.slice(stack.indexOf(id))`
pub from_index : String → List String → List String
from_index id [] = []
from_index id (x ∷ xs) = let rest = from_index id xs in if str_eq x id then x ∷ xs else rest

-- `stack.pop()`
pub pop : List String → List String
pop [] = []
pop (x ∷ []) = []
pop (x ∷ y ∷ xs) = x ∷ pop (y ∷ xs)

abbrev pub enter : String → WalkState → WalkState
enter id s = record s { visiting = id ∷ s.visiting; stack = s.stack ++ id ∷ [] }

abbrev pub leave : String → WalkState → WalkState
leave id s = record {
  visiting = remove id s.visiting;
  visited = id ∷ s.visited;
  stack = pop s.stack;
}

-- `for (const dep of deps) { const found = walk(dep); if (found.length) return found; }`
pub each : (String → WalkState → Outcome) → List String → WalkState → Outcome
each walk_one [] s = some ([], s)
each walk_one (d ∷ ds) s = elim (walk_one d s) [
  | none ↦ none
  | some ([], s') ↦ each walk_one ds s'
  | some (x ∷ xs, s') ↦ some (x ∷ xs, s')
]

-- What follows the loop over the dependencies.
pub finish : String → Outcome → Outcome
unfolding remove pop
finish id none = none
finish id (some ([], s)) = some ([], leave id s)
finish id (some (x ∷ xs, s)) = some (x ∷ xs, s)

module _ (deps : String → List String) where
  pub walk : ℕ → String → WalkState → Outcome
  unfolding member from_index each finish
  walk zero id s = none
  walk (suc fuel) id s =
      let below = finish id (each (walk fuel) (deps id) (enter id s)) in
      if member id s.visiting
      then some (from_index id s.stack ++ id ∷ [], s)
      else if member id s.visited
      then some ([], s)
      else below

abbrev pub untouched : WalkState
untouched = record { visiting = []; visited = []; stack = [] }

-- The whole search, on a fuel that `detect_cycle_total` shows to be enough.
unfoldable pub search_cycle : List GraphNode → Outcome
unfolding walk deps_of
search_cycle nodes = each (walk (deps_of nodes) (length nodes + 2)) (ids nodes) untouched

pub found_cycle : Outcome → List String
found_cycle none = []
found_cycle (some (cycle, s)) = cycle

unfoldable pub detect_cycle : List GraphNode → List String
unfolding search_cycle found_cycle
detect_cycle nodes = found_cycle (search_cycle nodes)
