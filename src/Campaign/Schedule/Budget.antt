-- ===== src/Campaign/Schedule/Budget.antt =====
-- Writing a child back, giving up its reservation and dispatching it keep a campaign within its budget.
use run_forge.Common.{
  ℕ, ◌+◌, ◌≤◌, ◌≡◌, ◌≢◌, refl, sym, ◌∙◌, ap, Bool, true, false, Option, none, some, List, inl, inr,
  arith, if◌then◌else◌, All, Bool-cases, Option-cases,
}
use run_forge.Campaign.{CampaignRecord, Child, ChildStatus, CampaignPlanNode}
use run_forge.Campaign.Accounting.{
  child_of, put_child, reserved_usage, release_campaign_reservation,
}
use run_forge.Campaign.Accounting.Laws.{IsBalanced, release_campaign_reservation-IsBalanced}
use run_forge.Campaign.Accounting.Laws.{child_of-put_child}
use run_forge.Campaign.Schedule.{
  ControlTask, Deps, Round, has_task_spec, cost_over, bound, bind, undispatched, dispatch_failed,
  first_some, dispatch_reserved_child, dispatch_node,
}
use run_forge.Campaign.Schedule.Children.{own_id, put_child-All, put_child-same}

-- A child that waits holds no reservation.
abbrev pub HoldsNothingWhilePending : Child → Type 0
HoldsNothingWhilePending child =
    child.status ≡ ChildStatus.pending → (child.reserved_tokens ≡ 0) × (child.reserved_cost_usd ≡ 0)

-- The reservation is balanced, children that wait hold nothing, and what is used and what is reserved
-- stay within the limits together.
pub record IsWithinBudget (campaign : CampaignRecord) : Type 0 where
  pub is_balanced : IsBalanced campaign
  pub held : All HoldsNothingWhilePending campaign.children
  pub tokens :
      campaign.usage.tokens + (reserved_usage campaign).tokens ≤ campaign.spec.limits.max_tokens
  pub cost :
      cost_over campaign.spec.limits.max_cost_usd
        (campaign.usage.cost_usd + (reserved_usage campaign).cost_usd)
      ≡ false

abbrev pub campaign_of : Round → CampaignRecord
campaign_of (Round.went_on campaign) = campaign
campaign_of (Round.finished campaign) = campaign
campaign_of (Round.thrown error campaign) = campaign

pub rebalanced :
    (campaign : CampaignRecord) (child old : Child)
    → IsBalanced campaign
    → child_of child.node_id campaign.children ≡ some old
    → child.reserved_tokens ≡ old.reserved_tokens
    → child.reserved_cost_usd ≡ old.reserved_cost_usd
    → IsBalanced (record campaign { children = put_child child campaign.children })
rebalanced campaign child old b found t k = record {
  balanced = b.balanced ∙ ap some (sym (put_child-same child old campaign.children found t k));
}

-- The amounts of a balanced record do not change while what is persisted does not.
pub same_amount :
    (campaign : CampaignRecord) (cs : List Child)
    → IsBalanced campaign
    → reserved_usage (record campaign { children = cs }) ≡ reserved_usage campaign
unfolding reserved_usage
same_amount campaign cs b = rw b.balanced refl

pub not_pending :
    (b : Bool) → (if b then ChildStatus.queued else ChildStatus.running) ≢ ChildStatus.pending
not_pending true = λ e. absurd (cc)
not_pending false = λ e. absurd (cc)

pub written_back :
    (campaign : CampaignRecord) (child old : Child)
    → IsWithinBudget campaign
    → child_of child.node_id campaign.children ≡ some old
    → child.reserved_tokens ≡ old.reserved_tokens
    → child.reserved_cost_usd ≡ old.reserved_cost_usd
    → HoldsNothingWhilePending child
    → IsWithinBudget (record campaign { children = put_child child campaign.children })
written_back campaign child old w found t k holds =
    let same = same_amount campaign (put_child child campaign.children) w.is_balanced in
    record {
      is_balanced = rebalanced campaign child old w.is_balanced found t k;
      held = put_child-All HoldsNothingWhilePending child campaign.children holds w.held;
      tokens = rw same w.tokens;
      cost = rw same w.cost;
    }

pub bind-IsWithinBudget :
    (campaign : CampaignRecord) (child : Child) (task : ControlTask) (now : ℕ)
    → IsWithinBudget campaign
    → child_of child.node_id campaign.children ≡ some child
    → IsWithinBudget (bind campaign child task now)
unfolding bind
bind-IsWithinBudget campaign child task now w found =
    written_back campaign (bound child task now) child w found refl refl
      (λ e. absurd (not_pending task.is_queued e))

pub cost_less :
    (limit : Option ℕ) (a b : ℕ) → a ≤ b → cost_over limit b ≡ false → cost_over limit a ≡ false
cost_less none a b h k = refl
cost_less (some limit) a b h k = ground arith

pub released-IsWithinBudget :
    (campaign : CampaignRecord) (child : Child)
    → IsWithinBudget campaign
    → child_of child.node_id campaign.children ≡ some child
    → IsWithinBudget (release_campaign_reservation campaign child)
unfolding release_campaign_reservation
released-IsWithinBudget campaign child w found =
    let (b, t, c) = release_campaign_reservation-IsBalanced campaign child w.is_balanced found in
    let freed = record child { reserved_tokens = 0; reserved_cost_usd = 0 } in
    record {
      is_balanced = b;
      held =
          put_child-All HoldsNothingWhilePending freed campaign.children (λ _. (refl, refl)) w.held;
      tokens = omega (arith, t, w.tokens);
      cost = cost_less campaign.spec.limits.max_cost_usd _ _ (omega (arith, c)) w.cost;
    }

pub dispatch_failed-IsWithinBudget :
    (campaign : CampaignRecord) (child : Child)
    → IsWithinBudget campaign
    → child_of child.node_id campaign.children ≡ some child
    → IsWithinBudget (dispatch_failed campaign child)
unfolding dispatch_failed release_campaign_reservation
dispatch_failed-IsWithinBudget campaign child w found =
    let freed = record child { reserved_tokens = 0; reserved_cost_usd = 0 } in
    written_back (release_campaign_reservation campaign child) (undispatched child) freed
      (released-IsWithinBudget campaign child w found)
      (child_of-put_child freed child campaign.children found) refl refl (λ _. (refl, refl))

pub dispatch_reserved_child-IsWithinBudget :
    (deps : Deps) (campaign : CampaignRecord) (child : Child) (node : CampaignPlanNode) (now : ℕ)
    → IsWithinBudget campaign
    → child_of child.node_id campaign.children ≡ some child
    → IsWithinBudget (campaign_of (dispatch_reserved_child deps campaign child node now))
unfolding dispatch_reserved_child
dispatch_reserved_child-IsWithinBudget deps campaign child node now w found =
    elim (Option-cases (first_some child.task_id node.task_id)) [
      | inl e ↦ rw (e, dispatch_reserved_child) w
      | inr (id, e) ↦
          elim (Option-cases
            (first_some (deps.existing id) (first_some (deps.create node) (deps.raced id)))) [
              | inl f ↦
                  rw (e, f, dispatch_reserved_child)
                    (dispatch_failed-IsWithinBudget campaign child w found)
              | inr (task, f) ↦
                  rw (e, f, dispatch_reserved_child)
                    (bind-IsWithinBudget campaign child task now w found)
            ]
    ]

pub dispatch_node-IsWithinBudget :
    (deps : Deps) (campaign : CampaignRecord) (node : CampaignPlanNode) (now : ℕ)
    → IsWithinBudget campaign
    → IsWithinBudget (campaign_of (dispatch_node deps campaign node now))
unfolding dispatch_node
dispatch_node-IsWithinBudget deps campaign node now w =
    elim (Option-cases (child_of node.id campaign.children)) [
      | inl e ↦ rw (e, dispatch_node) w
      | inr (child, e) ↦ elim (Bool-cases (has_task_spec deps campaign node)) [
        | inl t ↦
            rw (e, t, dispatch_node)
              (dispatch_reserved_child-IsWithinBudget deps campaign child node now w
                (own_id node.id child campaign.children e))
        | inr t ↦ rw (e, t, dispatch_node) w
      ]
    ]
