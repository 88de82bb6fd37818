-- ===== src/Planning/Create/Laws.antt =====
-- What holds of a campaign that is queued.
use run_forge.Common.Json.{get, str}
use run_forge.Common.Text.{is_blank}
use run_forge.Common.{Pairwise, ℕ, ◌+◌, ◌≤◌, ◌≡◌, false, none, some, String, or_else}
use run_forge.Campaign.{
  ChildStatus, Child, ExecutionMode, CampaignPlan, CampaignPlanNode, CampaignSpec, CampaignRecord,
}
use run_forge.Campaign.Schedule.{cost_over}
use run_forge.Campaign.Schedule.Budget.{IsWithinBudget}
use run_forge.Planning.Validate.{PlanNode, Plan}
use run_forge.Planning.Validate.Laws.{IsSound}
use run_forge.Planning.Create.{Services, rules_of}

-- What the record keeps of a node of the plan.
pub record IsKept (node : PlanNode) (kept : CampaignPlanNode) : Type 0 where
  pub id : kept.id ≡ node.id
  pub depends_on : kept.depends_on ≡ node.depends_on
  pub tokens : kept.estimated_tokens ≡ node.estimated_tokens
  pub cost : kept.estimated_cost_usd ≡ node.estimated_cost_usd
  pub task_id :
      (s : String)
      → get "taskId" node.task_spec ≡ str s
      → is_blank s ≡ false
      → kept.task_id ≡ some s
  pub implements :
      get "mode" (get "execution" node.task_spec) ≡ str "implementation"
      → kept.execution_mode ≡ ExecutionMode.implementation
  pub validates :
      get "mode" (get "execution" node.task_spec) ≡ str "validation"
      → kept.execution_mode ≡ ExecutionMode.validation

-- A child that waits for its node's turn.
pub record IsWaiting (node : PlanNode) (child : Child) : Type 0 where
  pub id : child.node_id ≡ node.id
  pub depends_on : child.depends_on ≡ node.depends_on
  pub pending : child.status ≡ ChildStatus.pending
  pub no_task : child.task_id ≡ none
  pub not_accounted : child.accounted ≡ false
  pub no_tokens : child.reserved_tokens ≡ 0
  pub no_cost : child.reserved_cost_usd ≡ 0

-- The plan that a queued campaign runs, and that nothing is spent beyond the limits so far.
pub record IsAdmitted (services : Services) (spec : CampaignSpec) (campaign : CampaignRecord)
    : Type 0 where
  pub plan : Plan
  pub tokens : ℕ
  pub planned : services.planned.plan ≡ some (plan, tokens)
  pub sound : IsSound (rules_of services spec) plan
  pub same_spec : campaign.spec ≡ spec
  pub kept : CampaignPlan
  pub recorded : campaign.plan ≡ some kept
  pub nodes : Pairwise IsKept plan.nodes kept.nodes
  pub estimate : kept.estimated_tokens ≡ tokens
  pub children : Pairwise IsWaiting plan.nodes campaign.children
  pub used_tokens : campaign.usage.tokens ≡ services.planned.usage.tokens
  pub used_cost : campaign.usage.cost_usd ≡ services.planned.usage.cost_usd
  pub within : campaign.usage.tokens + tokens ≤ spec.limits.max_tokens
  pub cost_within :
      cost_over spec.limits.max_cost_usd
        (campaign.usage.cost_usd + or_else plan.estimated_cost_usd 0)
      ≡ false
  pub budget : IsWithinBudget campaign
