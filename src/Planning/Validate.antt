-- ===== src/Planning/Validate.antt =====
-- `validateCampaignPlan` of src/run/campaign-validation.ts: what a plan must satisfy before its campaign
-- may run. Each check returns the error that it throws.
pub mod Laws
use run_forge.Common.{
  ℕ, zero, suc, ◌+◌, ◌-◌, Bool, true, false, not, ◌&&◌, ◌||◌, Option, none, some, List, [], ◌∷◌,
  map, String, if◌then◌else◌, ltb, str_eq, or_else, length, any,
}
use run_forge.Common.Json.{Json, get, object, truthy, coalesce, is_str, str, num}
use run_forge.Common.Regex.{Regex, test, boundary, lit, one_of, all_of, alt, many}
use run_forge.Common.Text.{is_space}
use run_forge.Campaign.{Authority}
use run_forge.Planning.Graph.{GraphNode, member}
use run_forge.Planning.Cycle.{detect_cycle}

pub record PlanNode : Type 0 where
  pub id : String
  pub task_spec : Json
  pub depends_on : List String
  pub estimated_tokens : Option ℕ
  pub estimated_cost_usd : Option ℕ
  pub write_scopes : List String

pub record Plan : Type 0 where
  pub nodes : List PlanNode
  pub estimated_cost_usd : Option ℕ

pub record PlanLimits : Type 0 where
  pub max_tasks : ℕ
  pub max_tokens : ℕ
  pub max_cost_usd : Option ℕ

pub record PlanOptions : Type 0 where
  pub require_open_router : Bool
  pub implementation : Bool
  pub required_validation_commands : List String

pub data PlanError : Type 0 where
  no_node too_many_tasks token_budget_exceeded no_finite_plan_cost cost_mismatch : PlanError
  cost_budget_exceeded : PlanError
  duplicate_id missing_dependency provider_expansion network_expansion : String → PlanError
  merge_requested deploy_requested publication_requested dangerous_phase : String → PlanError
  local_provider fallback_expansion no_finite_cost no_finite_cap cap_exceeds_estimate :
      String → PlanError
  has_cycle : List String → PlanError
  no_implementation no_single_sink no_git_range git_not_required : PlanError
  sink_not_read_only sink_not_explicit sink_without_requirements : String → PlanError
  sink_misses_implementation omitted_command command_not_required : String → PlanError

-- A check that throws ends the validation.
infixr 25 ◌then_check◌
abbrev pub ◌then_check◌ : Option PlanError → Option PlanError → Option PlanError
none then_check next = next
some e then_check next = some e

abbrev pub require : Bool → PlanError → Option PlanError
require true e = none
require false e = some e

-- `for (const x of xs) ...`, up to the first error.
unfoldable pub check_each {ℓ} : {A : Type ℓ} → (A → Option PlanError) → List A → Option PlanError
check_each check [] = none
check_each check (x ∷ xs) = check x then_check check_each check xs

pub check_unique : List String → List PlanNode → Option PlanError
check_unique seen [] = none
check_unique seen (n ∷ ns) =
    require (not (member n.id seen)) (duplicate_id n.id) then_check check_unique (n.id ∷ seen) ns

-- `value && value !== text`
abbrev pub is_other : String → Json → Bool
is_other text v = truthy v && not (is_str text v)

-- `\b(?:database|production|secret|merge|deploy)\b`
abbrev pub dangerous_word : Regex
dangerous_word = all_of (
    boundary
    ∷ one_of (lit "database" ∷ lit "production" ∷ lit "secret" ∷ lit "merge" ∷ lit "deploy" ∷ [])
    ∷ boundary
    ∷ [])

-- `\bpolicy"\s*:\s*"always|requested"\s*:\s*true`
abbrev pub requested_phase : Regex
requested_phase =
    alt
      (all_of
        (boundary ∷ lit "policy\"" ∷ many is_space ∷ lit ":" ∷ many is_space ∷ lit "\"always" ∷ []))
      (all_of (lit "requested\"" ∷ many is_space ∷ lit ":" ∷ many is_space ∷ lit "true" ∷ []))

-- `finiteNonNegative(childCap)`, and the amount.
abbrev pub amount : Json → Option ℕ
amount (num n) = some n
amount v = none

-- What the checks of a plan ask for: the limits, the campaign's authority, the options, and the text of
-- a task, `JSON.stringify(task).toLowerCase()`.
pub record Rules : Type 0 where
  pub limits : PlanLimits
  pub authority : Authority
  pub options : PlanOptions
  pub text : Json → List ℕ

abbrev pub cap_check : String → Option ℕ → Option ℕ → Option PlanError
cap_check id none cap = some (no_finite_cost id)
cap_check id (some estimate) none = some (no_finite_cap id)
cap_check id (some estimate) (some cap) = require (not (ltb estimate cap)) (cap_exceeds_estimate id)

-- The cost of one node, where the campaign has a cost limit and the node calls the provider.
pub check_node_cost : Rules → PlanNode → Option PlanError
check_node_cost rules node = elim rules.limits.max_cost_usd [
  | none ↦ none
  | some limit ↦
      let route = object (get "providerRouting" node.task_spec) in
      if is_str "openrouter" (get "provider" route)
      then cap_check node.id node.estimated_cost_usd (amount (get "costBudgetUsd" route))
      else none
]

pub check_route : Rules → PlanNode → Option PlanError
check_route rules node =
    let route = object (get "providerRouting" node.task_spec) in
    if rules.options.require_open_router
    then require (is_str "openrouter" (get "provider" route)) (local_provider node.id)
      then_check require (is_str "none" (coalesce (get "fallbackPolicy" route) (str "none")))
          (fallback_expansion node.id)
    else none

pub check_authority : Rules → PlanNode → Option PlanError
check_authority rules node =
    let task_authority = get "authority" node.task_spec in
    require
      (not (truthy (get "allowProviderCalls" task_authority)) || rules.authority.provider_calls)
      (provider_expansion node.id)
    then_check require (not (truthy (get "allowNetwork" task_authority)) || rules.authority.network)
        (network_expansion node.id)

pub check_phases : Rules → PlanNode → Option PlanError
unfolding test
check_phases rules node =
    let task = node.task_spec in
    let text = rules.text task in
    require (not (is_other "never" (get "policy" (object (get "merge" task)))))
      (merge_requested node.id)
    then_check require (not (is_other "never" (get "policy" (object (get "deploy" task)))))
        (deploy_requested node.id)
    then_check require (not (is_other "none" (get "publication" (object (get "git" task)))))
        (publication_requested node.id)
    then_check require (not (test dangerous_word text && test requested_phase text))
        (dangerous_phase node.id)

-- The body of the loop over the nodes, `ids` being those of all nodes.
unfoldable pub check_node : Rules → List String → PlanNode → Option PlanError
unfolding check_each check_authority check_phases check_route check_node_cost
check_node rules ids node =
    check_each (λ dep. require (member dep ids) (missing_dependency dep)) node.depends_on
    then_check check_authority rules node
    then_check check_phases rules node
    then_check check_route rules node
    then_check check_node_cost rules node

abbrev pub graph_of : List PlanNode → List GraphNode
graph_of = map λ n. record { id = n.id; depends_on = n.depends_on }

abbrev pub is_nil {ℓ} : {A : Type ℓ} → List A → Bool
is_nil [] = true
is_nil (x ∷ xs) = false

unfoldable pub total_tokens : List PlanNode → ℕ
total_tokens [] = 0
total_tokens (n ∷ ns) = or_else n.estimated_tokens 0 + total_tokens ns

unfoldable pub total_cost : List PlanNode → ℕ
total_cost [] = 0
total_cost (n ∷ ns) = or_else n.estimated_cost_usd 0 + total_cost ns

-- `Math.abs(planned - estimated)`, in millionths.
abbrev pub distance : ℕ → ℕ → ℕ
distance a b = (a - b) + (b - a)

abbrev pub plan_cost_check : Option ℕ → ℕ → ℕ → Option PlanError
plan_cost_check none estimated limit = some no_finite_plan_cost
plan_cost_check (some planned) estimated limit =
    require (not (ltb 1 (distance planned estimated))) cost_mismatch
    then_check require (not (ltb limit estimated)) cost_budget_exceeded

pub check_plan_cost : Rules → Plan → Option PlanError
unfolding total_cost
check_plan_cost rules plan = elim rules.limits.max_cost_usd [
  | none ↦ none
  | some limit ↦ plan_cost_check plan.estimated_cost_usd (total_cost plan.nodes) limit
]

pub check_cycle : Plan → Option PlanError
check_cycle plan =
    let cycle = detect_cycle (graph_of plan.nodes) in require (is_nil cycle) (has_cycle cycle)

-- All checks but those of an implementation campaign's sinks.
unfoldable pub check_plan : Rules → Plan → Option PlanError
unfolding check_each check_unique check_plan_cost check_cycle total_tokens
check_plan rules plan =
    require (not (is_nil plan.nodes)) no_node
    then_check require (not (ltb rules.limits.max_tasks (length plan.nodes))) too_many_tasks
    then_check check_unique [] plan.nodes
    then_check check_each (check_node rules (map (λ n. n.id) plan.nodes)) plan.nodes
    then_check check_cycle plan
    then_check require (not (ltb rules.limits.max_tokens (total_tokens plan.nodes)))
        token_budget_exceeded
    then_check check_plan_cost rules plan
