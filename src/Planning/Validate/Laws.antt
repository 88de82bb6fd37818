-- ===== src/Planning/Validate/Laws.antt =====
-- What a plan that passes the checks satisfies.
use run_forge.Common.{
  ap, str_eq_iff, ◌&&◌, ℕ, ◌+◌, ◌≤◌, ◌≡◌, refl, Bool, true, false, not, ◌||◌, Option, none, some,
  List, [], ◌∷◌, map, String, if◌then◌else◌, ltb, or_else, length, All, arith,
}
use run_forge.Common.Regex.{test}
use run_forge.Common.Json.{Json, undefined, null, str, coalesce, get, object, truthy, is_str}
use run_forge.Planning.Graph.{member}
use run_forge.Planning.Cycle.Laws.{HasOrder, detect_cycle_iff}
use run_forge.Planning.Validate.{
  PlanNode, Plan, PlanError, Rules, ◌then_check◌, require, check_each, check_unique, check_node,
  check_authority, check_phases, check_route, check_node_cost, check_cycle, check_plan_cost,
  check_plan, graph_of, is_nil, total_tokens, total_cost, is_other, amount, cap_check,
  plan_cost_check, dangerous_word, requested_phase,
}

-- A sequence of checks passes exactly when both do.
pub then_check-eq_none :
    (a b : Option PlanError) → (a then_check b) ≡ none → (a ≡ none) × (b ≡ none)
then_check-eq_none none b h = (refl, h)
then_check-eq_none (some e) b h = cc

pub require-eq_none : (b : Bool) (e : PlanError) → require b e ≡ none → b ≡ true
require-eq_none true e h = refl
require-eq_none false e h = cc

pub check_each-eq_none {ℓ} :
    {A : Type ℓ} (check : A → Option PlanError) (xs : List A)
    → check_each check xs ≡ none
    → All (λ x. check x ≡ none) xs
unfolding check_each
check_each-eq_none check [] h = tt
check_each-eq_none check (x ∷ xs) h =
    let (now, later) = then_check-eq_none (check x) (check_each check xs) h in
    (now, check_each-eq_none check xs later)

-- No id stands in the list before, and none twice.
abbrev pub IsUnique : List String → List String → Type 0
IsUnique seen [] = Unit
IsUnique seen (x ∷ xs) = (member x seen ≡ false) × IsUnique (x ∷ seen) xs

check_unique-IsUnique :
    (seen : List String) (nodes : List PlanNode)
    → check_unique seen nodes ≡ none
    → IsUnique seen (map (λ n. n.id) nodes)
unfolding check_unique
check_unique-IsUnique seen [] h = tt
check_unique-IsUnique seen (n ∷ ns) h =
    let (now, later) =
      then_check-eq_none (require (not (member n.id seen)) (PlanError.duplicate_id n.id))
        (check_unique (n.id ∷ seen) ns) h in
    (
      ground (arith, require-eq_none (not (member n.id seen)) (PlanError.duplicate_id n.id) now),
      check_unique-IsUnique (n.id ∷ seen) ns later,
    )

-- A value that is not there, or the text "none".
abbrev pub IsAbsentOrNone : Json → Type 0
IsAbsentOrNone undefined = Unit
IsAbsentOrNone null = Unit
IsAbsentOrNone v = v ≡ str "none"

not_both : (a b : Bool) → a && b ≡ false → a ≡ true → b ≡ false
not_both a b h t = ground (arith, h)

absent_or_none : (v : Json) → is_str "none" (coalesce v (str "none")) ≡ true → IsAbsentOrNone v
absent_or_none undefined h = tt
absent_or_none null h = tt
absent_or_none (str t) h = ap str ((str_eq_iff t "none").0 h)
absent_or_none v h = cc

-- What a node that passes asks for: its dependencies are nodes of the plan, it calls the provider or the
-- network only where the campaign may, it requests no merge, deployment or publication, its text does
-- not speak of a dangerous phase and of requesting one, and where the campaign is bound to the provider
-- it uses no other route and no fallback.
pub record IsGranted (rules : Rules) (known : List String) (node : PlanNode) : Type 0 where
  pub dependencies : All (λ dep. member dep known ≡ true) node.depends_on
  pub provider :
      truthy (get "allowProviderCalls" (get "authority" node.task_spec)) ≡ true
      → rules.authority.provider_calls ≡ true
  pub network :
      truthy (get "allowNetwork" (get "authority" node.task_spec)) ≡ true
      → rules.authority.network ≡ true
  pub merge : is_other "never" (get "policy" (object (get "merge" node.task_spec))) ≡ false
  pub deploy : is_other "never" (get "policy" (object (get "deploy" node.task_spec))) ≡ false
  pub publication : is_other "none" (get "publication" (object (get "git" node.task_spec))) ≡ false
  pub route :
      rules.options.require_open_router ≡ true
      → is_str "openrouter" (get "provider" (object (get "providerRouting" node.task_spec))) ≡ true
  pub fallback :
      rules.options.require_open_router ≡ true
      → IsAbsentOrNone (get "fallbackPolicy" (object (get "providerRouting" node.task_spec)))
  pub phase :
      test dangerous_word (rules.text node.task_spec) ≡ true
      → test requested_phase (rules.text node.task_spec) ≡ false

pub require-not : (b : Bool) (e : PlanError) → require (not b) e ≡ none → b ≡ false
require-not b e h = ground (arith, require-eq_none (not b) e h)

require_or : (a b : Bool) (e : PlanError) → require (not a || b) e ≡ none → a ≡ true → b ≡ true
require_or a b e h t = ground (arith, require-eq_none (not a || b) e h)

cap_within :
    (id : String) (b : Bool) (estimate cap : Option ℕ)
    → (if b then cap_check id estimate cap else none) ≡ none
    → (if b then or_else cap 0 else 0) ≤ or_else estimate 0
cap_within id false estimate cap h = omega arith
cap_within id true none cap h = cc
cap_within id true (some e) none h = cc
cap_within id true (some e) (some c) h =
    ground (arith, require-eq_none (not (ltb e c)) (PlanError.cap_exceeds_estimate id) h)

module _ (rules : Rules) (node : PlanNode) where
  abbrev asks : String → Bool
  asks key = truthy (get key (get "authority" node.task_spec))

  authority_granted :
      check_authority rules node ≡ none
      → (asks "allowProviderCalls" ≡ true → rules.authority.provider_calls ≡ true)
        × (asks "allowNetwork" ≡ true → rules.authority.network ≡ true)
  unfolding check_authority
  authority_granted h =
      let (p, n) = then_check-eq_none _ _ h in (require_or _ _ _ p, require_or _ _ _ n)

  phases_granted :
      check_phases rules node ≡ none
      → (is_other "never" (get "policy" (object (get "merge" node.task_spec))) ≡ false)
        × (is_other "never" (get "policy" (object (get "deploy" node.task_spec))) ≡ false)
        × (is_other "none" (get "publication" (object (get "git" node.task_spec))) ≡ false)
        × (test dangerous_word (rules.text node.task_spec) ≡ true
            → test requested_phase (rules.text node.task_spec) ≡ false)
  unfolding check_phases
  phases_granted h =
      let (merge, rest) = then_check-eq_none _ _ h in
      let (deploy, rest') = then_check-eq_none _ _ rest in
      let (publication, text) = then_check-eq_none _ _ rest' in
      (
        require-not _ _ merge,
        require-not _ _ deploy,
        require-not _ _ publication,
        not_both _ _ (require-not _ _ text),
      )

  route_granted :
      check_route rules node ≡ none
      → rules.options.require_open_router ≡ true
      → is_str "openrouter" (get "provider" (object (get "providerRouting" node.task_spec))) ≡ true
  unfolding check_route
  route_granted h r = require-eq_none _ _ (then_check-eq_none _ _ (rw r at h)).0

  fallback_granted :
      check_route rules node ≡ none
      → rules.options.require_open_router ≡ true
      → IsAbsentOrNone (get "fallbackPolicy" (object (get "providerRouting" node.task_spec)))
  unfolding check_route
  fallback_granted h r =
      absent_or_none _ (require-eq_none _ _ (then_check-eq_none _ _ (rw r at h)).1)

  -- The cap that a node's provider calls get, none for a node that calls no provider.
  abbrev pub child_cap : ℕ
  child_cap =
      let route = object (get "providerRouting" node.task_spec) in
      if is_str "openrouter" (get "provider" route)
      then or_else (amount (get "costBudgetUsd" route)) 0
      else 0

  cap_granted :
      (limit : ℕ)
      → rules.limits.max_cost_usd ≡ some limit
      → check_node_cost rules node ≡ none
      → child_cap ≤ or_else node.estimated_cost_usd 0
  unfolding check_node_cost
  cap_granted limit e h = cap_within node.id _ node.estimated_cost_usd _ (rw e at h)

module _ (rules : Rules) (known : List String) (node : PlanNode) where
  -- The checks of a node, one by one.
  check_node_parts :
      check_node rules known node ≡ none
      → (check_each
            (λ dep. require (member dep known) (PlanError.missing_dependency dep))
            node.depends_on
          ≡ none)
        × (check_authority rules node ≡ none)
        × (check_phases rules node ≡ none)
        × (check_route rules node ≡ none)
        × (check_node_cost rules node ≡ none)
  unfolding check_node
  check_node_parts h =
      let (deps, h1) = then_check-eq_none _ _ h in
      let (authority, h2) = then_check-eq_none _ _ h1 in
      let (phases, h3) = then_check-eq_none _ _ h2 in
      let (route, cost) = then_check-eq_none _ _ h3 in (deps, authority, phases, route, cost)

  check_node-IsGranted : check_node rules known node ≡ none → IsGranted rules known node
  check_node-IsGranted h =
      let (deps, authority, phases, route, cost) = check_node_parts h in
      let (provider, network) = authority_granted rules node authority in
      let (merge, deploy, publication, phase) = phases_granted rules node phases in
      record {
        dependencies = deps_known node.depends_on (check_each-eq_none _ node.depends_on deps);
        provider = provider;
        network = network;
        merge = merge;
        deploy = deploy;
        publication = publication;
        route = route_granted rules node route;
        fallback = fallback_granted rules node route;
        phase = phase;
      }
    where
      deps_known :
          (ds : List String)
          → All (λ d. require (member d known) (PlanError.missing_dependency d) ≡ none) ds
          → All (λ d. member d known ≡ true) ds
      deps_known [] h = tt
      deps_known (d ∷ ds) (h, hs) = (require-eq_none _ _ h, deps_known ds hs)

  check_node_cap :
      (limit : ℕ)
      → rules.limits.max_cost_usd ≡ some limit
      → check_node rules known node ≡ none
      → child_cap rules node ≤ or_else node.estimated_cost_usd 0
  check_node_cap limit e h = cap_granted rules node limit e (check_node_parts h).4

-- What a plan that passes satisfies as a whole.
pub record IsSound (rules : Rules) (plan : Plan) : Type 0 where
  pub not_empty : is_nil plan.nodes ≡ false
  pub tasks : length plan.nodes ≤ rules.limits.max_tasks
  pub unique : IsUnique [] (map (λ n. n.id) plan.nodes)
  pub granted : All (IsGranted rules (map (λ n. n.id) plan.nodes)) plan.nodes
  pub ordered : HasOrder (graph_of plan.nodes)
  pub tokens : total_tokens plan.nodes ≤ rules.limits.max_tokens

-- The caps of the children's provider calls, added up.
abbrev pub total_caps : Rules → List PlanNode → ℕ
total_caps rules [] = 0
total_caps rules (n ∷ ns) = child_cap rules n + total_caps rules ns

not-ltb : (a b : ℕ) (e : PlanError) → require (not (ltb a b)) e ≡ none → b ≤ a
not-ltb a b e h = ground (arith, require-not (ltb a b) e h)

check_cycle-HasOrder : (plan : Plan) → check_cycle plan ≡ none → HasOrder (graph_of plan.nodes)
unfolding check_cycle
check_cycle-HasOrder plan h =
    (detect_cycle_iff (graph_of plan.nodes)).0 (nil_of _ (require-eq_none _ _ h))
  where
    nil_of : (xs : List String) → is_nil xs ≡ true → xs ≡ []
    nil_of [] h = refl
    nil_of (x ∷ xs) h = cc

All-IsGranted :
    (rules : Rules) (known : List String) (nodes : List PlanNode)
    → All (λ n. check_node rules known n ≡ none) nodes
    → All (IsGranted rules known) nodes
All-IsGranted rules known [] h = tt
All-IsGranted rules known (n ∷ ns) (h, hs) =
    (check_node-IsGranted rules known n h, All-IsGranted rules known ns hs)

caps_within :
    (rules : Rules) (known : List String) (limit : ℕ) (nodes : List PlanNode)
    → rules.limits.max_cost_usd ≡ some limit
    → All (λ n. check_node rules known n ≡ none) nodes
    → total_caps rules nodes ≤ total_cost nodes
unfolding total_cost
caps_within rules known limit [] e h = omega arith
caps_within rules known limit (n ∷ ns) e (h, hs) =
    omega (arith, check_node_cap rules known n limit e h, caps_within rules known limit ns e hs)

cost_within :
    (rules : Rules) (plan : Plan) (limit : ℕ)
    → rules.limits.max_cost_usd ≡ some limit
    → check_plan_cost rules plan ≡ none
    → total_cost plan.nodes ≤ limit
unfolding check_plan_cost
cost_within rules plan limit e h = within plan.estimated_cost_usd (rw e at h)
  where
    within :
        (planned : Option ℕ)
        → plan_cost_check planned (total_cost plan.nodes) limit ≡ none
        → total_cost plan.nodes ≤ limit
    within none h = cc
    within (some p) h = not-ltb _ _ _ (then_check-eq_none _ _ h).1

-- The checks of a plan, one by one.
check_plan_parts :
    (rules : Rules) (plan : Plan)
    → check_plan rules plan ≡ none
    → (is_nil plan.nodes ≡ false)
      × (length plan.nodes ≤ rules.limits.max_tasks)
      × (check_unique [] plan.nodes ≡ none)
      × (check_each (check_node rules (map (λ n. n.id) plan.nodes)) plan.nodes ≡ none)
      × (check_cycle plan ≡ none)
      × (total_tokens plan.nodes ≤ rules.limits.max_tokens)
      × (check_plan_cost rules plan ≡ none)
unfolding check_plan
check_plan_parts rules plan h =
    let (not_empty, h1) = then_check-eq_none _ _ h in
    let (tasks, h2) = then_check-eq_none _ _ h1 in
    let (unique, h3) = then_check-eq_none _ _ h2 in
    let (nodes, h4) = then_check-eq_none _ _ h3 in
    let (cycle, h5) = then_check-eq_none _ _ h4 in
    let (tokens, cost) = then_check-eq_none _ _ h5 in
    (
      require-not _ _ not_empty,
      not-ltb _ _ _ tasks,
      unique,
      nodes,
      cycle,
      not-ltb _ _ _ tokens,
      cost,
    )

-- A plan that passes is not empty, keeps the task and token limits, has distinct ids and an order in
-- which every node comes after all that it depends on. Each of its nodes depends on nodes of the plan; calls
-- the provider or the network only where the campaign may; requests no merge, deployment or publication;
-- does not match the pattern of a requested phase where its text names a dangerous one; and, where the
-- campaign requires the provider, names it as its route and has the fallback policy "none" or none.
pub check_plan-IsSound :
    (rules : Rules) (plan : Plan) → check_plan rules plan ≡ none → IsSound rules plan
check_plan-IsSound rules plan h =
    let (not_empty, tasks, unique, nodes, cycle, tokens, cost) = check_plan_parts rules plan h in
    record {
      not_empty = not_empty;
      tasks = tasks;
      unique = check_unique-IsUnique [] plan.nodes unique;
      granted = All-IsGranted rules _ plan.nodes (check_each-eq_none _ plan.nodes nodes);
      ordered = check_cycle-HasOrder plan cycle;
      tokens = tokens;
    }

-- Where the campaign has a cost limit, the cost caps of the children of a plan that passes, added up,
-- stay within that limit.
pub check_plan-caps :
    (rules : Rules) (plan : Plan) (limit : ℕ)
    → rules.limits.max_cost_usd ≡ some limit
    → check_plan rules plan ≡ none
    → total_caps rules plan.nodes ≤ limit
check_plan-caps rules plan limit e h =
    let parts = check_plan_parts rules plan h in
    let known = map (λ (n : PlanNode). n.id) plan.nodes in
    omega (
      arith,
      caps_within rules known limit plan.nodes e (check_each-eq_none _ plan.nodes parts.3),
      cost_within rules plan limit e parts.6,
    )
