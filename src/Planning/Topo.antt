-- ===== src/Planning/Topo.antt =====
-- `topoSortPlan` of src/run/campaign-validation.ts: the ids of a plan by rounds, each id once all that
-- it depends on stands before it.
pub mod Rounds
pub mod Initial
pub mod Laws
use run_forge.Common.{
  ℕ, zero, suc, ◌+◌, ◌≡◌, refl, Bool, true, false, Option, none, some, List, [], ◌∷◌, ◌++◌, map,
  String, if◌then◌else◌, length, str_eq, filter,
}
use run_forge.Planning.Graph.{GraphNode, member, remove, ids}

-- An entry of the `Map` from ids to the dependencies that are still missing.
pub record Missing : Type 0 where
  pub id : String
  pub deps : List String

abbrev pub is_nil : List String → Bool
is_nil [] = true
is_nil (x ∷ xs) = false

-- `map.set(id, deps)`: an id that is in the map keeps its place.
pub put : Missing → List Missing → List Missing
put e [] = e ∷ []
put e (f ∷ es) = let rest = put e es in if str_eq f.id e.id then e ∷ es else f ∷ rest

-- `new Set(values)`
pub to_set : List String → List String → List String
to_set seen [] = seen
to_set seen (x ∷ xs) = to_set (if member x seen then seen else seen ++ x ∷ []) xs

pub entries : List Missing → List GraphNode → List Missing
unfolding put to_set
entries es [] = es
entries es (n ∷ ns) = entries (put (record { id = n.id; deps = to_set [] n.depends_on }) es) ns

-- The inner loop: `id` is deleted from each set, and an entry whose set it empties becomes ready.
pub release : String → List Missing → List Missing × List String
release id [] = ([], [])
release id (e ∷ es) =
    let (es', ready) = release id es in
    let left = remove id e.deps in
    if member id e.deps
    then (record e { deps = left } ∷ es', if is_nil left then e.id ∷ ready else ready)
    else (e ∷ es', ready)

-- `while (ready.length)`; `none` means that the fuel ran out.
pub rounds : ℕ → List String → List Missing → List String → Option (List String)
unfolding release
rounds zero ready es ordered = none
rounds (suc fuel) [] es ordered = some ordered
rounds (suc fuel) (id ∷ ready) es ordered =
    rounds fuel (ready ++ (release id es).1) (release id es).0 (ordered ++ id ∷ [])

-- The nodes without a dependency.
abbrev pub initial : List GraphNode → List String
initial nodes = map (λ n. n.id) (filter (λ n. is_nil n.depends_on) nodes)

unfoldable pub topo_sort : List GraphNode → Option (List String)
unfolding rounds entries
topo_sort nodes = rounds (suc (length nodes + length nodes)) (initial nodes) (entries [] nodes) []
