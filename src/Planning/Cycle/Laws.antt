-- ===== src/Planning/Cycle/Laws.antt =====
-- What `detectCycle` finds: it ends, a list that it returns is a cycle, and it returns none exactly
-- when the plan can be put in an order.
use run_forge.Common.{
  ◌+◌, ◌≤◌, ◌≡◌, ◌≢◌, ◌↔◌, refl, ◌∙◌, subst, true, false, ◌||◌, none, some, List, [], ◌∷◌, ◌++◌,
  String, inl, inr, ◌⊎◌, arith, str_eq, Bool-cases, length,
}
use run_forge.Planning.Graph.{GraphNode, member, ids, deps_of, deps_of-unknown, str_eq-eq}
use run_forge.Planning.Cycle.{
  WalkState, Outcome, walk, untouched, search_cycle, found_cycle, detect_cycle,
}
use run_forge.Planning.Cycle.Chains.{IsChain, IsCycle}
use run_forge.Planning.Cycle.Orders.{IsOrdered, not-cycle}
use run_forge.Planning.Cycle.Walks.{unseen, Ends, each-Ends, Ends-mono}
use run_forge.Planning.Cycle.Search.{IsVisited, walk-Ends}

pub unseen-ids_le : (nodes : List GraphNode) → unseen (ids nodes) [] ≤ length nodes
unfolding member
unseen-ids_le [] = omega arith
unseen-ids_le (n ∷ ns) = omega (arith, unseen-ids_le ns)

module _ (nodes : List GraphNode) where
  -- Between two nodes of the outer loop, `left` being the ids still to walk.
  record IsRound (left : List String) (s : WalkState) : Type 0 where
    visiting : s.visiting ≡ []
    stack : s.stack ≡ []
    ordered : IsOrdered (deps_of nodes) s.visited
    covered :
        (d : String) → member d (ids nodes) ≡ true → (member d left || member d s.visited) ≡ true

  IsRound-next :
      (d : String) (ds : List String) (s t : WalkState)
      → IsRound (d ∷ ds) s
      → IsVisited (deps_of nodes) (ids nodes) (deps_of-unknown nodes) d s t
      → IsRound ds t
  unfolding member
  IsRound-next d ds s t r v = record {
    visiting = v.visiting ∙ r.visiting;
    stack = v.stack ∙ r.stack;
    ordered = v.ordered;
    covered = λ x h. covered_next x h (Bool-cases (str_eq d x));
  }
    where
      covered_next :
          (x : String)
          → member x (ids nodes) ≡ true
          → (str_eq d x ≡ true) ⊎ (str_eq d x ≡ false)
          → (member x ds || member x t.visited) ≡ true
      covered_next x h (inl e) =
          let m : member x t.visited ≡ true =
            subst (λ (y : String). member y t.visited ≡ true) (str_eq-eq d x e) v.done in
          rw m (ground arith)
      covered_next x h (inr e) = ground (arith, r.covered x h, v.kept x)

  walk-IsRound :
      (d : String) (ds : List String) (s : WalkState)
      → IsRound (d ∷ ds) s
      → Ends (IsRound ds) (IsCycle (deps_of nodes)) (walk (deps_of nodes) (length nodes + 2) d s)
  unfolding member
  walk-IsRound d ds s r =
      Ends-mono (IsVisited (deps_of nodes) (ids nodes) (deps_of-unknown nodes) d s) (IsRound ds)
        (IsCycle (deps_of nodes)) (λ t. IsRound-next d ds s t r)
        (walk (deps_of nodes) (length nodes + 2) d s)
        (walk-Ends (deps_of nodes) (ids nodes) (deps_of-unknown nodes) (length nodes + 2) d s
          (rw r.visiting (omega (arith, unseen-ids_le nodes)))
          (record { ordered = r.ordered; on_stack = λ x. rw (r.visiting, r.stack) refl })
          (rw r.stack tt))

  search-Ends : Ends (IsRound []) (IsCycle (deps_of nodes)) (search_cycle nodes)
  unfolding search_cycle
  search-Ends =
      each-Ends IsRound (IsCycle (deps_of nodes)) (walk (deps_of nodes) (length nodes + 2))
        walk-IsRound (ids nodes) untouched
        (record { visiting = refl; stack = refl; ordered = tt; covered = λ d h. rw h refl })

-- The ids of a plan can be listed, the latest first, such that all that a listed id depends on stands
-- before it.
abbrev pub HasOrder : List GraphNode → Type 0
HasOrder nodes =
    (order : List String) × ((id : String) → member id (ids nodes) ≡ true → member id order ≡ true)
    × IsOrdered (deps_of nodes) order

List-cases : (xs : List String) → (xs ≡ []) ⊎ (xs ≢ [])
List-cases [] = inl refl
List-cases (x ∷ xs) = inr (λ e. cc)

outcome_order :
    (nodes : List GraphNode) (o : Outcome)
    → Ends (IsRound nodes []) (IsCycle (deps_of nodes)) o
    → found_cycle o ≡ []
    → HasOrder nodes
unfolding found_cycle member
outcome_order nodes none h e = elim h [ ]
outcome_order nodes (some ([], s)) h e = (s.visited, λ id m. h.covered id m, h.ordered)
outcome_order nodes (some (x ∷ xs, s)) h e = cc

outcome-IsCycle :
    (nodes : List GraphNode) (o : Outcome)
    → Ends (IsRound nodes []) (IsCycle (deps_of nodes)) o
    → found_cycle o ≢ []
    → IsCycle (deps_of nodes) (found_cycle o)
unfolding found_cycle
outcome-IsCycle nodes none h n = elim h [ ]
outcome-IsCycle nodes (some ([], s)) h n = absurd (n refl)
outcome-IsCycle nodes (some (x ∷ xs, s)) h n = h

outcome_some :
    (nodes : List GraphNode) (o : Outcome)
    → Ends (IsRound nodes []) (IsCycle (deps_of nodes)) o
    → (r : List String × WalkState) × (o ≡ some r)
outcome_some nodes none h = elim h [ ]
outcome_some nodes (some r) h = (r, refl)

-- The search always ends with its fuel, two more than the plan has nodes, and returns a result.
pub search_cycle_total :
    (nodes : List GraphNode) → (r : List String × WalkState) × (search_cycle nodes ≡ some r)
search_cycle_total nodes = outcome_some nodes (search_cycle nodes) (search-Ends nodes)

-- A list that is returned and is not empty is a cycle: it starts and ends with the same id, and each of
-- its ids depends on the next.
pub detect_cycle-IsCycle :
    (nodes : List GraphNode)
    → detect_cycle nodes ≢ []
    → IsCycle (deps_of nodes) (detect_cycle nodes)
unfolding detect_cycle
detect_cycle-IsCycle nodes = outcome-IsCycle nodes (search_cycle nodes) (search-Ends nodes)

id_of_dep :
    (nodes : List GraphNode) (x d : String)
    → member d (deps_of nodes x) ≡ true
    → member x (ids nodes) ≡ true
unfolding member
id_of_dep nodes x d h = elim (Bool-cases (member x (ids nodes))) [
  | inl e ↦ e
  | inr e ↦
      let no : member d [] ≡ true =
        subst (λ (ds : List String). member d ds ≡ true) (deps_of-unknown nodes x e) h in
      cc
]

cycle_start :
    (nodes : List GraphNode) (x : String) (mid : List String)
    → IsChain (deps_of nodes) (x ∷ (mid ++ x ∷ []))
    → member x (ids nodes) ≡ true
cycle_start nodes x [] h = id_of_dep nodes x x h.0
cycle_start nodes x (y ∷ mid) h = id_of_dep nodes x y h.0

order-not-IsCycle :
    (nodes : List GraphNode) (c : List String) → HasOrder nodes → ¬ IsCycle (deps_of nodes) c
order-not-IsCycle nodes c (order, all, o) (x, mid, e, h) =
    let h' = subst (IsChain (deps_of nodes)) e h in
    not-cycle (deps_of nodes) order x mid o (all x (cycle_start nodes x mid h')) h'

-- No cycle is returned exactly when the plan has an order in which every node comes after all that it
-- depends on.
pub detect_cycle_iff : (nodes : List GraphNode) → (detect_cycle nodes ≡ []) ↔ HasOrder nodes
unfolding detect_cycle
detect_cycle_iff nodes = (
  outcome_order nodes (search_cycle nodes) (search-Ends nodes),
  λ ordered. none_found ordered (List-cases (detect_cycle nodes)),
)
  where
    none_found :
        HasOrder nodes
        → (detect_cycle nodes ≡ []) ⊎ (detect_cycle nodes ≢ [])
        → detect_cycle nodes ≡ []
    none_found ordered (inl e) = e
    none_found ordered (inr n) =
        absurd (order-not-IsCycle nodes (detect_cycle nodes) ordered (detect_cycle-IsCycle nodes n))
