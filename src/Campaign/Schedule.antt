-- ===== src/Campaign/Schedule.antt =====
-- The dispatch of children in a round of a campaign, `runCampaign` and `dispatchReservedChild` of
-- src/control-plane/campaign-coordinator.ts. The coordinator's store of tasks is a parameter; a record
-- is what the coordinator holds in memory.
pub mod Children
pub mod Budget
pub mod Laws
pub mod Concurrency
use run_forge.Common.{
  ℕ, ◌+◌, ◌-◌, Bool, true, false, not, ◌&&◌, ◌||◌, Option, none, some, List, [], ◌∷◌, ◌++◌, String,
  if◌then◌else◌, ltb, every, filter, take, length, or_else, inl, inr,
}
use run_forge.Campaign.{
  CampaignStatus, CampaignRecord, Child, ChildStatus, CampaignPlanNode, Failure,
}
use run_forge.Campaign.Accounting.{
  CampaignError, child_of, put_child, reserved_usage, child_reservation_tokens, is_pending,
  reserve_campaign_child, release_campaign_reservation,
}

-- A task of the store, and whether its status is `queued`.
pub record ControlTask : Type 0 where
  pub id : String
  pub is_queued : Bool

-- What the coordinator asks of its surroundings: whether the campaign has an integration worktree, the
-- token budget that a node's task configures, `getTask` before and after a failed `createTask`, and
-- `createTask`, which fails or returns the task.
pub record Deps : Type 0 where
  pub is_integrated : Bool
  pub configured_total : CampaignPlanNode → ℕ
  pub existing : String → Option ControlTask
  pub create : CampaignPlanNode → Option ControlTask
  pub raced : String → Option ControlTask

pub data ScheduleError : Type 0 where
  rejected : CampaignError → ScheduleError
  child_missing create_failed : ScheduleError

-- How a part of the round ends: it goes on, it finishes the campaign, or it throws.
pub data Round : Type 0 where
  went_on finished : CampaignRecord → Round
  thrown : ScheduleError → CampaignRecord → Round

abbrev minimum : ℕ → ℕ → ℕ
minimum a b = if ltb a b then a else b

-- The token budget of a node's task: `Math.min(configuredTotal, nodeReservation, campaignRemaining)`.
unfoldable pub task_total : Deps → CampaignRecord → CampaignPlanNode → ℕ
unfolding child_reservation_tokens
task_total deps campaign node =
    let configured = deps.configured_total node in
    let held = (reserved_usage campaign).tokens in
    minimum configured (
      minimum (or_else node.estimated_tokens configured) (
        campaign.spec.limits.max_tokens
        + child_reservation_tokens campaign node.id
        - (campaign.usage.tokens + held)))

-- `taskSpecForNode` refuses a node that cannot get the least budget.
unfoldable pub has_task_spec : Deps → CampaignRecord → CampaignPlanNode → Bool
unfolding task_total
has_task_spec deps campaign node =
    not (deps.is_integrated && ltb (task_total deps campaign node) 1000)

abbrev pub cost_over : Option ℕ → ℕ → Bool
cost_over none cost = false
cost_over (some limit) cost = ltb limit cost

-- The node's estimate does not fit into what is left of the budget.
unfoldable pub over_budget : CampaignRecord → CampaignPlanNode → Bool
over_budget campaign node =
    ltb campaign.spec.limits.max_tokens
      (campaign.usage.tokens + (reserved_usage campaign).tokens + or_else node.estimated_tokens 0)
    || cost_over campaign.spec.limits.max_cost_usd (
        campaign.usage.cost_usd
        + (reserved_usage campaign).cost_usd
        + or_else node.estimated_cost_usd 0)

-- `finishCampaign` after the failure is noted.
abbrev pub budget_exceeded : CampaignRecord → CampaignRecord
budget_exceeded campaign = record campaign {
  failures =
      campaign.failures ++ (record { node_id = none; reason = "campaign_budget_exceeded" } ∷ []);
  status = CampaignStatus.failed;
  has_result = true;
}

abbrev pub bound : Child → ControlTask → ℕ → Child
bound child task now = record child {
  task_id = some task.id;
  status = if task.is_queued then ChildStatus.queued else ChildStatus.running;
  started_at = some (or_else child.started_at now);
}

unfoldable pub bind : CampaignRecord → Child → ControlTask → ℕ → CampaignRecord
bind campaign child task now = record campaign {
  children = put_child (bound child task now) campaign.children;
}

abbrev pub undispatched : Child → Child
undispatched child = record child {
  reserved_tokens = 0;
  reserved_cost_usd = 0;
  task_id = none;
  status = ChildStatus.pending;
  started_at = none;
  error = some "campaign_child_dispatch_failed";
}

-- The reservation is given back and the child is pending again.
unfoldable pub dispatch_failed : CampaignRecord → Child → CampaignRecord
dispatch_failed campaign child =
    let released = release_campaign_reservation campaign child in
    record released { children = put_child (undispatched child) released.children }

abbrev pub first_some {ℓ} : {A : Type ℓ} → Option A → Option A → Option A
first_some none b = b
first_some (some a) b = some a

unfoldable pub dispatch_reserved_child :
    Deps → CampaignRecord → Child → CampaignPlanNode → ℕ → Round
dispatch_reserved_child deps campaign child node now =
    elim (first_some child.task_id node.task_id) [
      | none ↦ Round.thrown (ScheduleError.rejected CampaignError.invalid_campaign) campaign
      | some id ↦
          elim (first_some (deps.existing id) (first_some (deps.create node) (deps.raced id))) [
            | some task ↦ Round.went_on (bind campaign child task now)
            | none ↦ Round.thrown ScheduleError.create_failed (dispatch_failed campaign child)
          ]
    ]

-- A child that has its reservation is dispatched, if its task can still be specified.
unfoldable pub dispatch_node : Deps → CampaignRecord → CampaignPlanNode → ℕ → Round
unfolding dispatch_reserved_child has_task_spec
dispatch_node deps campaign node now = elim (child_of node.id campaign.children) [
  | none ↦ Round.thrown ScheduleError.child_missing campaign
  | some child ↦
      if has_task_spec deps campaign node
      then dispatch_reserved_child deps campaign child node now
      else Round.thrown (ScheduleError.rejected CampaignError.campaign_budget_exhausted) campaign
]

unfoldable pub start_node : Deps → CampaignRecord → Child → CampaignPlanNode → ℕ → Round
unfolding dispatch_node
start_node deps campaign child node now =
    elim (reserve_campaign_child campaign child node node.task_id now) [
      | inl error ↦ Round.thrown (ScheduleError.rejected error) campaign
      | inr reserved ↦ dispatch_node deps reserved node now
    ]

unfoldable pub schedule_node : Deps → CampaignRecord → CampaignPlanNode → ℕ → Round
unfolding start_node over_budget has_task_spec
schedule_node deps campaign node now =
    if over_budget campaign node
    then Round.finished (budget_exceeded campaign)
    else elim (child_of node.id campaign.children) [
      | none ↦ Round.thrown ScheduleError.child_missing campaign
      | some child ↦
          if has_task_spec deps campaign node
          then start_node deps campaign child node now
          else Round.thrown (ScheduleError.rejected CampaignError.campaign_budget_exhausted)
              campaign
    ]

unfoldable pub schedule_nodes : Deps → ℕ → List CampaignPlanNode → CampaignRecord → Round
unfolding schedule_node
schedule_nodes deps now [] campaign = Round.went_on campaign
schedule_nodes deps now (node ∷ nodes) campaign = elim (schedule_node deps campaign node now) [
  | Round.went_on next ↦ schedule_nodes deps now nodes next
  | Round.finished last ↦ Round.finished last
  | Round.thrown error last ↦ Round.thrown error last
]

abbrev pub is_active : ChildStatus → Bool
is_active ChildStatus.dispatching = true
is_active ChildStatus.queued = true
is_active ChildStatus.running = true
is_active _ = false

abbrev pub is_completed : ChildStatus → Bool
is_completed ChildStatus.completed = true
is_completed _ = false

unfoldable pub active_children : List Child → ℕ
active_children [] = 0
active_children (c ∷ cs) =
    let rest = active_children cs in if is_active c.status then 1 + rest else rest

-- A child that may be missing satisfies a test of its status.
abbrev pub child_is : (ChildStatus → Bool) → Option Child → Bool
child_is p none = false
child_is p (some child) = p child.status

unfoldable pub is_ready : List Child → CampaignPlanNode → Bool
is_ready children node =
    child_is is_pending (child_of node.id children)
    && every (λ dep. child_is is_completed (child_of dep children)) node.depends_on

-- The free slots are `Math.max(0, maxConcurrency - activeChildren)`; the first ready nodes take them.
unfoldable pub ready_nodes : List CampaignPlanNode → CampaignRecord → List CampaignPlanNode
unfolding is_ready active_children
ready_nodes nodes campaign =
    take (campaign.spec.limits.max_concurrency - active_children campaign.children)
      (filter (is_ready campaign.children) nodes)

-- The part of a round that starts children, for the nodes of the campaign's plan.
unfoldable pub schedule : Deps → ℕ → List CampaignPlanNode → CampaignRecord → Round
unfolding schedule_nodes ready_nodes
schedule deps now nodes campaign = schedule_nodes deps now (ready_nodes nodes campaign) campaign
