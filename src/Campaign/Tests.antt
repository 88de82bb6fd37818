-- ===== src/Campaign/Tests.antt =====
-- A campaign of two nodes, the second after the first.
use run_forge.Common.{
  ◌+◌, ◌≤◌, ◌≡◌, refl, true, false, Option, none, some, List, [], ◌∷◌, String, arith,
}
use run_forge.Campaign.{
  CampaignStatus, CampaignRecord, CampaignPlanNode, CampaignSpec, Child, ChildStatus, ExecutionMode,
  Provider, Amount,
}
use run_forge.Campaign.Accounting.{
  ChildResult, child_of, put_child, aggregate_campaign_usage, reserved_by, reserved_usage,
  reserve_with, reserve_campaign_child, release_campaign_reservation, account_campaign_child_usage,
}
use run_forge.Campaign.Accounting.Laws.{
  HoldsNothing, IsBalanced, reserve_campaign_child-IsBalanced,
  release_campaign_reservation-IsBalanced, account_campaign_child_usage-IsBalanced,
  reserve_campaign_child-legacy,
}
use run_forge.Campaign.Schedule.{Deps, schedule, schedule_nodes, bind, active_children}
use run_forge.Campaign.Schedule.Budget.{IsWithinBudget, campaign_of}
use run_forge.Campaign.Schedule.Laws.{schedule_nodes-IsWithinBudget}
use run_forge.Campaign.Schedule.Concurrency.{schedule-active}
use run_forge.Campaign.PhaseBudgets.{PerPhase, project_phase_budgets}
use run_forge.Campaign.PhaseBudgets.Laws.{total_of, project_phase_budgets-total}

abbrev node : String → List String → CampaignPlanNode
node id depends_on = record {
  id = id;
  task_id = some id;
  execution_mode = ExecutionMode.implementation;
  depends_on = depends_on;
  estimated_tokens = some 40;
  estimated_cost_usd = some 7;
}

abbrev waiting : String → List String → Child
waiting id depends_on = record {
  node_id = id;
  depends_on = depends_on;
  task_id = none;
  status = ChildStatus.pending;
  started_at = none;
  finished_at = none;
  error = none;
  accounted = false;
  reserved_tokens = 0;
  reserved_cost_usd = 0;
  integration_repair_attempts = 0;
  execution_retry_attempts = 0;
}

abbrev holding : Child
holding = record (waiting "a" []) {
  status = ChildStatus.running;
  reserved_tokens = 40;
  reserved_cost_usd = 7;
}

abbrev spec : CampaignSpec
spec = record {
  target = record { project_id = none; repository = none };
  authority = record {
    inspect = true;
    implementation = true;
    provider_calls = true;
    network = true;
    local_branch = true;
    local_commit = true;
  };
  provider = Provider.openrouter;
  fallback_policy = none;
  limits = record { max_cost_usd = some 100; max_tokens = 90; max_tasks = 5; max_concurrency = 2 };
  required_commands = none;
}

abbrev campaign_with : Child → Option Amount → CampaignRecord
campaign_with first reserved = record {
  id = "c";
  status = CampaignStatus.running;
  spec = spec;
  plan = none;
  children = first ∷ waiting "b" ("a" ∷ []) ∷ [];
  usage = record { tokens = 10; cost_usd = 1; tasks = 0 };
  reserved = reserved;
  failures = [];
  has_result = false;
}

abbrev fresh : CampaignRecord
fresh = campaign_with (waiting "a" []) (some (record { tokens = 0; cost_usd = 0 }))

abbrev busy : CampaignRecord
busy = campaign_with holding (some (record { tokens = 40; cost_usd = 7 }))

abbrev plan_nodes : List CampaignPlanNode
plan_nodes = node "a" [] ∷ node "b" ("a" ∷ []) ∷ []

abbrev store : Deps
store = record {
  is_integrated = false;
  configured_total = λ n. 40;
  existing = λ id. none;
  create = λ n. some (record { id = "t"; is_queued = true });
  raced = λ id. none;
}

fresh-IsBalanced : IsBalanced fresh
unfolding reserved_by
fresh-IsBalanced = record { balanced = refl }

busy-IsBalanced : IsBalanced busy
unfolding reserved_by
busy-IsBalanced = record { balanced = refl }

abbrev reserved_fresh : CampaignRecord
reserved_fresh = reserve_with fresh (waiting "a" []) (node "a" []) "a" 5

-- Only the node without dependencies is ready, and it is started.
schedule_test :
    (active_children (campaign_of (schedule store 5 plan_nodes fresh)).children ≡ 1)
    × ((campaign_of (schedule store 5 plan_nodes fresh)).reserved
        ≡ some (record { tokens = 40; cost_usd = 7 }))
unfolding schedule reserve_campaign_child put_child bind
schedule_test = (refl, refl)

reserve_campaign_child-IsBalanced_example :
    IsBalanced reserved_fresh
    × ((reserved_usage reserved_fresh).tokens ≡ 40)
    × ((reserved_usage reserved_fresh).cost_usd ≡ 7)
unfolding reserve_campaign_child reserved_usage child_of
reserve_campaign_child-IsBalanced_example =
    reserve_campaign_child-IsBalanced fresh (waiting "a" []) (node "a" []) "a" 5 reserved_fresh
      fresh-IsBalanced refl refl refl refl

release_campaign_reservation-IsBalanced_example :
    IsBalanced (release_campaign_reservation busy holding)
    × ((reserved_usage (release_campaign_reservation busy holding)).tokens + 40 ≡ 40)
    × ((reserved_usage (release_campaign_reservation busy holding)).cost_usd + 7 ≡ 7)
unfolding reserved_usage child_of
release_campaign_reservation-IsBalanced_example =
    release_campaign_reservation-IsBalanced busy holding busy-IsBalanced refl

abbrev child_result : ChildResult
child_result = record { total_tokens = some 33; cost_usd = none; provider_calls = [] }

abbrev accounted : CampaignRecord
accounted = account_campaign_child_usage busy holding child_result

account_campaign_child_usage-IsBalanced_example :
    IsBalanced accounted
    × (accounted.usage.tokens ≡ 43)
    × (accounted.usage.cost_usd ≡ busy.usage.cost_usd + 0)
    × (accounted.usage.tasks ≡ 1)
    × ((reserved_usage accounted).tokens + 40 ≡ 40)
    × ((reserved_usage accounted).cost_usd + 7 ≡ 7)
    × HoldsNothing "a" accounted.children
unfolding reserved_usage child_of aggregate_campaign_usage
account_campaign_child_usage-IsBalanced_example =
    account_campaign_child_usage-IsBalanced busy holding child_result busy-IsBalanced refl

abbrev old_campaign : CampaignRecord
old_campaign = campaign_with (waiting "a" []) none

abbrev old_reserved : CampaignRecord
old_reserved = reserve_with old_campaign (waiting "a" []) (node "a" []) "a" 5

reserve_campaign_child-legacy_example :
    ((reserved_by old_reserved.children).tokens ≡ 40)
    × ((reserved_by old_reserved.children).cost_usd ≡ 7)
    × ((reserved_usage old_reserved).tokens ≡ 80)
    × ((reserved_usage old_reserved).cost_usd ≡ 14)
unfolding reserve_campaign_child reserved_by child_of
reserve_campaign_child-legacy_example =
    reserve_campaign_child-legacy old_campaign (waiting "a" []) (node "a" []) "a" 5 old_reserved
      refl refl refl refl refl

fresh-IsWithinBudget : IsWithinBudget fresh
unfolding reserved_usage
fresh-IsWithinBudget = record {
  is_balanced = fresh-IsBalanced;
  held = (λ _. (refl, refl), (λ _. (refl, refl), tt));
  tokens = omega arith;
  cost = refl;
}

schedule_nodes-IsWithinBudget_example :
    IsWithinBudget (campaign_of (schedule_nodes store 5 plan_nodes fresh))
schedule_nodes-IsWithinBudget_example =
    schedule_nodes-IsWithinBudget store 5 plan_nodes fresh fresh-IsWithinBudget

schedule-active_example :
    active_children (campaign_of (schedule store 5 plan_nodes fresh)).children ≤ 2
unfolding active_children
schedule-active_example = schedule-active store 5 plan_nodes fresh (omega arith)

abbrev asked : PerPhase
asked = record {
  planner = some 5;
  implementer = some 9;
  repair = some 4;
  reviewer = none;
  log_compression = some 3;
}

project_phase_budgets-total_example :
    (total_of (project_phase_budgets asked 12 false true true true) ≤ 12)
    × (total_of (project_phase_budgets asked 12 true true true true) ≡ 12)
project_phase_budgets-total_example = project_phase_budgets-total asked 12 true true true
