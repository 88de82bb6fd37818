-- ===== src/Planning/Create.antt =====
-- `createCampaign` of src/control-plane/campaign-coordinator.ts: a campaign is refused, or recorded as on
-- hold, failed or queued. The coordinator is taken to stay the current one, no preflight hook is given, and
-- the evidence of the planner is only its usage.
pub mod Laws
use run_forge.Common.{
  ℕ, ◌+◌, Bool, true, false, not, ◌&&◌, ◌||◌, Option, none, some, List, [], ◌∷◌, map, String,
  if◌then◌else◌, ltb, or_else, is_some, str_eq,
}
use run_forge.Common.Json.{Json, get, str}
use run_forge.Common.Text.{is_blank}
use run_forge.Campaign.{
  CampaignStatus, ChildStatus, Provider, openrouter, local, FallbackPolicy, CampaignSpec,
  CampaignPlan, CampaignPlanNode, ExecutionMode, Child, Amount, Failure, CampaignRecord,
}
use run_forge.Campaign.Schedule.{cost_over}
use run_forge.Planning.Validate.{PlanNode, Plan, PlanError, Rules, graph_of, is_nil}
use run_forge.Planning.Cycle.{detect_cycle}
use run_forge.Planning.Sinks.{validate_campaign_plan}

pub data CreateError : Type 0 where
  inspect_denied provider_denied implementation_denied local_implementation no_repository :
      CreateError
  dual_binding branch_denied fallback_not_none same_provider_fallback : CreateError
  invalid_plan : PlanError → CreateError
  cycle_detected : List String → CreateError

pub data Created : Type 0 where
  refused : CreateError → Created
  saved : CampaignRecord → Created

-- What the planner returns: its usage, and the plan with its estimate of tokens if it succeeds.
pub record Planned : Type 0 where
  pub usage : Amount
  pub plan : Option (Plan × ℕ)

-- What the coordinator asks of its surroundings: a new id, the planner, `String` and the lower-case text
-- of a task, and whether the worktree of the campaign can be made.
pub record Services : Type 0 where
  pub id : String
  pub planned : Planned
  pub string_of : Json → String
  pub text : Json → List ℕ
  pub has_worktree : Bool

abbrev pub is_openrouter : Provider → Bool
is_openrouter openrouter = true
is_openrouter local = false

abbrev has_fallback : Option FallbackPolicy → Bool
has_fallback none = false
has_fallback (some FallbackPolicy.none) = false
has_fallback (some FallbackPolicy.same_provider) = true

-- `!text` for an optional text.
abbrev is_missing : Option String → Bool
is_missing none = true
is_missing (some s) = str_eq s ""

abbrev pub unless : Bool → CreateError → Option CreateError → Option CreateError
unless true e rest = some e
unless false e rest = rest

-- The guards on authority and target, the first that fails first.
unfoldable pub guards : CampaignSpec → Option CreateError
guards spec =
    let a = spec.authority in
    let remote = is_openrouter spec.provider in
    unless (not a.inspect) inspect_denied (
      unless (remote && (not a.provider_calls || not a.network)) provider_denied (
        unless (a.implementation && not a.provider_calls) implementation_denied (
          unless (a.implementation && not remote) local_implementation (
            unless (a.implementation && remote && is_missing spec.target.repository) no_repository (
              unless (a.implementation && remote && not (is_missing spec.target.project_id))
                dual_binding
                (unless (a.implementation && remote && (not a.local_branch || not a.local_commit))
                  branch_denied
                  (unless (remote && has_fallback spec.fallback_policy) fallback_not_none (
                    unless (not remote && has_fallback spec.fallback_policy) same_provider_fallback
                      none))))))))

abbrev pub new_record : Services → CampaignSpec → CampaignRecord
new_record services spec = record {
  id = services.id;
  status = CampaignStatus.planning;
  spec = spec;
  plan = none;
  children = [];
  usage = record { tokens = 0; cost_usd = 0; tasks = 0 };
  reserved = some (record { tokens = 0; cost_usd = 0 });
  failures = [];
  has_result = false;
}

-- A record with a failure of the whole campaign and its result.
abbrev pub stopped : CampaignStatus → String → CampaignRecord → CampaignRecord
stopped status reason campaign = record campaign {
  status = status;
  failures = record { node_id = none; reason = reason } ∷ [];
  has_result = true;
}

abbrev pub used : Amount → CampaignRecord → CampaignRecord
used amount campaign = record campaign {
  usage = record campaign.usage { tokens = amount.tokens; cost_usd = amount.cost_usd };
}

-- `taskIdFromSpec`
abbrev task_id_from_spec : Json → Option String
task_id_from_spec (str s) = if is_blank s then none else some s
task_id_from_spec v = none

abbrev mode_of : Json → ExecutionMode
mode_of (str s) =
    if str_eq s "implementation"
    then ExecutionMode.implementation
    else if str_eq s "validation"
    then ExecutionMode.validation
    else ExecutionMode.other
mode_of v = ExecutionMode.other

-- What the record keeps of a node and of a plan.
unfoldable pub node_of : PlanNode → CampaignPlanNode
node_of n = record {
  id = n.id;
  task_id = task_id_from_spec (get "taskId" n.task_spec);
  execution_mode = mode_of (get "mode" (get "execution" n.task_spec));
  depends_on = n.depends_on;
  estimated_tokens = n.estimated_tokens;
  estimated_cost_usd = n.estimated_cost_usd;
}

abbrev pub plan_of : Plan → ℕ → CampaignPlan
unfolding node_of
plan_of plan tokens = record {
  nodes = map node_of plan.nodes;
  estimated_tokens = tokens;
  estimated_cost_usd = plan.estimated_cost_usd;
}

abbrev pub pending_child : PlanNode → Child
pending_child n = record {
  node_id = n.id;
  depends_on = n.depends_on;
  task_id = none;
  status = ChildStatus.pending;
  started_at = none;
  finished_at = none;
  error = none;
  accounted = false;
  reserved_tokens = 0;
  reserved_cost_usd = 0;
  integration_repair_attempts = 0;
  execution_retry_attempts = 0;
}

abbrev pub rules_of : Services → CampaignSpec → Rules
rules_of services spec = record {
  limits = record {
    max_tasks = spec.limits.max_tasks;
    max_tokens = spec.limits.max_tokens;
    max_cost_usd = spec.limits.max_cost_usd;
  };
  authority = spec.authority;
  options = record {
    require_open_router = is_openrouter spec.provider;
    implementation = spec.authority.implementation;
    required_validation_commands = or_else spec.required_commands [];
  };
  text = services.text;
}

-- `plannedBudgetExceeded`
abbrev pub planned_over : CampaignSpec → Amount → Plan → ℕ → Bool
planned_over spec usage plan tokens =
    ltb spec.limits.max_tokens (usage.tokens + tokens)
    || cost_over spec.limits.max_cost_usd (usage.cost_usd + or_else plan.estimated_cost_usd 0)

abbrev pub queued_with : Plan → CampaignRecord → CampaignRecord
queued_with plan campaign = record campaign {
  children = map pending_child plan.nodes;
  status = CampaignStatus.queued;
}

-- What follows a plan within the budget.
unfoldable pub admit : Services → Plan → CampaignRecord → Created
admit services plan campaign =
    let spec = campaign.spec in
    let cycle = detect_cycle (graph_of plan.nodes) in
    elim (validate_campaign_plan services.string_of (rules_of services spec) plan) [
      | some e ↦ refused (invalid_plan e)
      | none ↦
          if not (is_nil cycle)
          then refused (cycle_detected cycle)
          else if spec.authority.implementation
              && is_openrouter spec.provider
              && not services.has_worktree
          then saved (stopped CampaignStatus.failed "campaign_integration_worktree_failed" campaign)
          else saved (queued_with plan campaign)
    ]

-- What follows the planner, by what it returned.
unfoldable pub with_plan : Services → CampaignRecord → Amount → Option (Plan × ℕ) → Created
unfolding node_of
with_plan services campaign usage none =
    saved (stopped CampaignStatus.failed "semantic_campaign_planning_failed" (used usage campaign))
with_plan services campaign usage (some (plan, tokens)) =
    let after = record (used usage campaign) { plan = some (plan_of plan tokens) } in
    if planned_over campaign.spec usage plan tokens
    then saved (stopped CampaignStatus.failed "campaign_budget_exceeded" after)
    else admit services plan after

unfoldable pub create_campaign : Services → CampaignSpec → Created
create_campaign services spec = elim (guards spec) [
  | some e ↦ refused e
  | none ↦
      if spec.authority.implementation && is_nil (or_else spec.required_commands [])
      then saved (
          stopped CampaignStatus.on_hold "campaign_validation_contract_unknown"
            (new_record services spec))
      else with_plan services (new_record services spec) services.planned.usage
          services.planned.plan
]
