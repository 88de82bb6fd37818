-- ===== src/Campaign/Accounting.antt =====
-- The budget of a campaign, src/control-plane/campaign-coordinator-state.ts: a child reserves its estimate
-- when it is dispatched, and gives it back when its use is accounted.
pub mod Laws
use run_forge.Common.{
  ℕ, ◌+◌, ◌-◌, Bool, true, false, Option, none, some, List, [], ◌∷◌, String, if◌then◌else◌, or_else,
  ◌⊎◌, inl, inr, str_eq,
}
use run_forge.Campaign.{CampaignRecord, Child, ChildStatus, CampaignPlanNode, Amount, Usage}

pub data CampaignError : Type 0 where
  invalid_campaign campaign_child_not_pending campaign_budget_exhausted : CampaignError

-- `campaign.children[id]`
unfoldable pub child_of : String → List Child → Option Child
child_of id [] = none
child_of id (c ∷ cs) = if str_eq c.node_id id then some c else child_of id cs

-- A write to the child of a node.
unfoldable pub put_child : Child → List Child → List Child
put_child child [] = []
put_child child (c ∷ cs) =
    let rest = put_child child cs in if str_eq c.node_id child.node_id then child ∷ cs else c ∷ rest

unfoldable pub reserved_by : List Child → Amount
reserved_by [] = record { tokens = 0; cost_usd = 0 }
reserved_by (c ∷ cs) =
    let rest = reserved_by cs in
    record {
      tokens = c.reserved_tokens + rest.tokens;
      cost_usd = c.reserved_cost_usd + rest.cost_usd;
    }

-- The persisted amount, or what the children hold.
unfoldable pub reserved_usage : CampaignRecord → Amount
unfolding reserved_by
reserved_usage campaign = or_else campaign.reserved (reserved_by campaign.children)

unfoldable pub child_reservation_tokens : CampaignRecord → String → ℕ
unfolding child_of
child_reservation_tokens campaign id = elim (child_of id campaign.children) [
  | none ↦ 0
  | some c ↦ c.reserved_tokens
]

abbrev pub is_pending : ChildStatus → Bool
is_pending ChildStatus.pending = true
is_pending _ = false

abbrev pub reserve_with : CampaignRecord → Child → CampaignPlanNode → String → ℕ → CampaignRecord
reserve_with campaign child node task_id now =
    let tokens = or_else node.estimated_tokens 0 in
    let cost = or_else node.estimated_cost_usd 0 in
    let child' = record child {
      task_id = some task_id;
      status = ChildStatus.dispatching;
      started_at = some now;
      finished_at = none;
      error = none;
      reserved_tokens = tokens;
      reserved_cost_usd = cost;
    } in
    let campaign' = record campaign { children = put_child child' campaign.children } in
    let held = reserved_usage campaign' in
    record campaign' {
      reserved = some (record { tokens = held.tokens + tokens; cost_usd = held.cost_usd + cost });
    }

unfoldable pub reserve_campaign_child :
    CampaignRecord → Child → CampaignPlanNode → Option String → ℕ → CampaignError ⊎ CampaignRecord
unfolding reserved_usage
reserve_campaign_child campaign child node none now = inl CampaignError.invalid_campaign
reserve_campaign_child campaign child node (some task_id) now =
    if is_pending child.status
    then inr (reserve_with campaign child node task_id now)
    else inl CampaignError.campaign_child_not_pending

-- `Math.max(0, a - b)` is the subtraction of the natural numbers.
unfoldable pub release_campaign_reservation : CampaignRecord → Child → CampaignRecord
unfolding reserved_usage
release_campaign_reservation campaign child =
    let held = reserved_usage campaign in
    record campaign {
      reserved = some (record {
        tokens = held.tokens - child.reserved_tokens;
        cost_usd = held.cost_usd - child.reserved_cost_usd;
      });
      children =
          put_child (record child { reserved_tokens = 0; reserved_cost_usd = 0 }) campaign.children;
    }

-- `aggregateCampaignUsage`: the totals of the result, or else the sums over its provider calls.
pub record ProviderCall : Type 0 where
  pub token_usage : Option ℕ
  pub cost_usd : Option ℕ

pub record ChildResult : Type 0 where
  pub total_tokens : Option ℕ
  pub cost_usd : Option ℕ
  pub provider_calls : List ProviderCall

unfoldable pub sum_calls : List ProviderCall → Amount
sum_calls [] = record { tokens = 0; cost_usd = 0 }
sum_calls (c ∷ cs) =
    let rest = sum_calls cs in
    record {
      tokens = or_else c.token_usage 0 + rest.tokens;
      cost_usd = or_else c.cost_usd 0 + rest.cost_usd;
    }

unfoldable pub aggregate_campaign_usage : ChildResult → Amount
unfolding sum_calls
aggregate_campaign_usage result = record {
  tokens = or_else result.total_tokens (sum_calls result.provider_calls).tokens;
  cost_usd = or_else result.cost_usd (sum_calls result.provider_calls).cost_usd;
}

unfoldable pub account_campaign_child_usage : CampaignRecord → Child → ChildResult → CampaignRecord
unfolding aggregate_campaign_usage release_campaign_reservation
account_campaign_child_usage campaign child result =
    let used = aggregate_campaign_usage result in
    release_campaign_reservation
      (record campaign {
        usage = record {
          tokens = campaign.usage.tokens + used.tokens;
          cost_usd = campaign.usage.cost_usd + used.cost_usd;
          tasks = campaign.usage.tasks + 1;
        };
      })
      (record child { accounted = true })
