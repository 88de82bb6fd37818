-- ===== src/Campaign/Schedule/Laws.antt =====
-- Starting children keeps the campaign within its budget and its reservations in balance.
use run_forge.Common.{
  ℕ, ◌+◌, ◌≤◌, ◌≡◌, refl, sym, subst, Bool, true, false, ◌||◌, none, some, List, [], ◌∷◌, String,
  inl, inr, arith, ltb, or_else, Bool-cases, Option-cases, ◌⊎◌,
}
use run_forge.Campaign.{CampaignRecord, Child, ChildStatus, CampaignPlanNode}
use run_forge.Campaign.Accounting.{
  child_of, reserved_usage, is_pending, reserve_campaign_child, reserve_with,
}
use run_forge.Campaign.Accounting.Laws.{reserve_with_of, reserve_with-amounts}
use run_forge.Campaign.Schedule.{
  Deps, ScheduleError, Round, has_task_spec, cost_over, over_budget, budget_exceeded, start_node,
  schedule_node, schedule_nodes,
}
use run_forge.Campaign.Schedule.Children.{child_of-All, own_id, put_child-All}
use run_forge.Campaign.Schedule.Budget.{
  HoldsNothingWhilePending, IsWithinBudget, campaign_of, cost_less, dispatch_node-IsWithinBudget,
}

-- The child that a reservation writes.
abbrev pub reserving : Child → CampaignPlanNode → String → ℕ → Child
reserving child node task_id now = record child {
  task_id = some task_id;
  status = ChildStatus.dispatching;
  started_at = some now;
  finished_at = none;
  error = none;
  reserved_tokens = or_else node.estimated_tokens 0;
  reserved_cost_usd = or_else node.estimated_cost_usd 0;
}

pending_of : (s : ChildStatus) → is_pending s ≡ true → s ≡ ChildStatus.pending
pending_of s h = ground arith

neither : (a b : ℕ) (c : Bool) → ltb a b || c ≡ false → (b ≤ a) × (c ≡ false)
neither a b c h = ground arith

over_budget-false :
    (campaign : CampaignRecord) (node : CampaignPlanNode)
    → over_budget campaign node ≡ false
    → (campaign.usage.tokens + (reserved_usage campaign).tokens + or_else node.estimated_tokens 0
        ≤ campaign.spec.limits.max_tokens)
      × (cost_over campaign.spec.limits.max_cost_usd (
            campaign.usage.cost_usd
            + (reserved_usage campaign).cost_usd
            + or_else node.estimated_cost_usd 0)
          ≡ false)
unfolding over_budget
over_budget-false campaign node h = neither _ _ _ h

-- A reservation that is made is that of a child that waits.
pub reserve_with_if :
    (campaign : CampaignRecord) (child : Child) (node : CampaignPlanNode) (task_id : String)
    (now : ℕ) (after : CampaignRecord)
    → reserve_campaign_child campaign child node (some task_id) now ≡ inr after
    → (child.status ≡ ChildStatus.pending) × (after ≡ reserve_with campaign child node task_id now)
unfolding reserve_campaign_child
reserve_with_if campaign child node task_id now after h =
    elim (Bool-cases (is_pending child.status)) [
      | inl e ↦ (pending_of child.status e, reserve_with_of campaign child node task_id now h)
      | inr e ↦ absurd (cc (rw e at h))
    ]

reserve_with-IsWithinBudget :
    (campaign : CampaignRecord) (child : Child) (node : CampaignPlanNode) (task_id : String)
    (now : ℕ)
    → IsWithinBudget campaign
    → child_of node.id campaign.children ≡ some child
    → over_budget campaign node ≡ false
    → child.status ≡ ChildStatus.pending
    → IsWithinBudget (reserve_with campaign child node task_id now)
reserve_with-IsWithinBudget campaign child node task_id now w found fits pending =
    let own = own_id node.id child campaign.children found in
    let (t, c) =
      child_of-All HoldsNothingWhilePending node.id child campaign.children found w.held pending in
    let (b, more_tokens, more_cost) =
      reserve_with-amounts campaign child node task_id now w.is_balanced own t c in
    let (tokens_fit, cost_fits) = over_budget-false campaign node fits in
    record {
      is_balanced = record { balanced = b };
      held =
          put_child-All HoldsNothingWhilePending (reserving child node task_id now)
            campaign.children (λ e. absurd (cc)) w.held;
      tokens = omega (arith, more_tokens, tokens_fit);
      cost = cost_less campaign.spec.limits.max_cost_usd _ _ (omega (arith, more_cost)) cost_fits;
    }

with_task :
    (campaign : CampaignRecord) (child : Child) (node : CampaignPlanNode) (task_id : String)
    (now : ℕ) (after : CampaignRecord)
    → IsWithinBudget campaign
    → child_of node.id campaign.children ≡ some child
    → over_budget campaign node ≡ false
    → reserve_campaign_child campaign child node (some task_id) now ≡ inr after
    → IsWithinBudget after
with_task campaign child node task_id now after w found fits h =
    let (pending, same) = reserve_with_if campaign child node task_id now after h in
    subst IsWithinBudget (sym same)
      (reserve_with-IsWithinBudget campaign child node task_id now w found fits pending)

pub Sum-cases : {A B : Type 0} (x : A ⊎ B) → ((a : A) × (x ≡ inl a)) ⊎ ((b : B) × (x ≡ inr b))
Sum-cases (inl a) = inl (a, refl)
Sum-cases (inr b) = inr (b, refl)

reserved-IsWithinBudget :
    (campaign : CampaignRecord) (child : Child) (node : CampaignPlanNode) (now : ℕ)
    (after : CampaignRecord)
    → IsWithinBudget campaign
    → child_of node.id campaign.children ≡ some child
    → over_budget campaign node ≡ false
    → reserve_campaign_child campaign child node node.task_id now ≡ inr after
    → IsWithinBudget after
unfolding reserve_campaign_child
reserved-IsWithinBudget campaign child node now after w found fits h =
    elim (Option-cases node.task_id) [
      | inl e ↦ absurd (cc (rw (e, reserve_campaign_child) at h))
      | inr (id, e) ↦ with_task campaign child node id now after w found fits (rw e at h)
    ]

start_node-IsWithinBudget :
    (deps : Deps) (campaign : CampaignRecord) (child : Child) (node : CampaignPlanNode) (now : ℕ)
    → IsWithinBudget campaign
    → child_of node.id campaign.children ≡ some child
    → over_budget campaign node ≡ false
    → IsWithinBudget (campaign_of (start_node deps campaign child node now))
unfolding start_node
start_node-IsWithinBudget deps campaign child node now w found fits =
    elim (Sum-cases (reserve_campaign_child campaign child node node.task_id now)) [
      | inl (error, e) ↦ rw (e, start_node) w
      | inr (after, e) ↦
          rw (e, start_node)
            (dispatch_node-IsWithinBudget deps after node now
              (reserved-IsWithinBudget campaign child node now after w found fits e))
    ]

budget_exceeded-IsWithinBudget :
    (campaign : CampaignRecord)
    → IsWithinBudget campaign
    → IsWithinBudget (budget_exceeded campaign)
unfolding reserved_usage
budget_exceeded-IsWithinBudget campaign w = record {
  is_balanced = record { balanced = w.is_balanced.balanced };
  held = w.held;
  tokens = w.tokens;
  cost = w.cost;
}

schedule_node-IsWithinBudget :
    (deps : Deps) (campaign : CampaignRecord) (node : CampaignPlanNode) (now : ℕ)
    → IsWithinBudget campaign
    → IsWithinBudget (campaign_of (schedule_node deps campaign node now))
unfolding schedule_node
schedule_node-IsWithinBudget deps campaign node now w =
    elim (Bool-cases (over_budget campaign node)) [
      | inl o ↦ rw (o, schedule_node) (budget_exceeded-IsWithinBudget campaign w)
      | inr o ↦ elim (Option-cases (child_of node.id campaign.children)) [
        | inl e ↦ rw (o, e, schedule_node) w
        | inr (child, e) ↦ elim (Bool-cases (has_task_spec deps campaign node)) [
          | inl t ↦
              rw (o, e, t, schedule_node)
                (start_node-IsWithinBudget deps campaign child node now w e o)
          | inr t ↦ rw (o, e, t, schedule_node) w
        ]
      ]
    ]

pub Round-cases :
    (r : Round)
    → ((c : CampaignRecord) × (r ≡ Round.went_on c))
      ⊎ ((c : CampaignRecord) × (r ≡ Round.finished c))
      ⊎ ((e : ScheduleError) × (c : CampaignRecord) × (r ≡ Round.thrown e c))
Round-cases (Round.went_on c) = inl (c, refl)
Round-cases (Round.finished c) = inr (inl (c, refl))
Round-cases (Round.thrown e c) = inr (inr (e, c, refl))

-- Starting the ready children, from a record whose reservation is balanced and within the limits,
-- leaves it so, whichever tasks can be created and wherever the round stops: the tokens and the money
-- that are used and reserved stay within the campaign's limits together, and a child that waits holds
-- nothing.
pub schedule_nodes-IsWithinBudget :
    (deps : Deps) (now : ℕ) (nodes : List CampaignPlanNode) (campaign : CampaignRecord)
    → IsWithinBudget campaign
    → IsWithinBudget (campaign_of (schedule_nodes deps now nodes campaign))
unfolding schedule_nodes
schedule_nodes-IsWithinBudget deps now [] campaign w = w
schedule_nodes-IsWithinBudget deps now (node ∷ nodes) campaign w =
    let step = schedule_node-IsWithinBudget deps campaign node now w in
    elim (Round-cases (schedule_node deps campaign node now)) [
      | inl (next, e) ↦
          rw (e, schedule_nodes) (schedule_nodes-IsWithinBudget deps now nodes next (rw e at step))
      | inr (inl (last, e)) ↦ rw (e, schedule_nodes) (rw e at step)
      | inr (inr (error, last, e)) ↦ rw (e, schedule_nodes) (rw e at step)
    ]
