-- ===== src/Campaign/Accounting/Laws.antt =====
-- The persisted reservation is always the sum of what the children hold.
use run_forge.Common.Text.{str_eq_self}
use run_forge.Common.{
  str_eq, ℕ, ◌+◌, ◌≤◌, ◌≡◌, refl, true, none, some, List, [], ◌∷◌, String, inl, inr, arith,
  Bool-cases, or_else,
}
use run_forge.Campaign.{CampaignRecord, Child, ChildStatus, CampaignPlanNode}
use run_forge.Campaign.Accounting.{
  child_of, put_child, reserved_by, reserved_usage, reserve_campaign_child, reserve_with,
  is_pending, release_campaign_reservation, ChildResult, account_campaign_child_usage,
  aggregate_campaign_usage,
}

-- The record persists its reservation, and it is the sum over the children.
pub record IsBalanced (campaign : CampaignRecord) : Type 0 where
  pub balanced : campaign.reserved ≡ some (reserved_by campaign.children)

-- Replacing a child changes the sum by the difference.
pub put_child-reserved :
    (child old : Child) (cs : List Child)
    → child_of child.node_id cs ≡ some old
    → ((reserved_by (put_child child cs)).tokens + old.reserved_tokens
        ≡ (reserved_by cs).tokens + child.reserved_tokens)
      × ((reserved_by (put_child child cs)).cost_usd + old.reserved_cost_usd
          ≡ (reserved_by cs).cost_usd + child.reserved_cost_usd)
unfolding put_child child_of reserved_by
put_child-reserved child old [] h = absurd (cc)
put_child-reserved child old (c ∷ cs) h = ground (arith, put_child-reserved child old cs)

pub held-le :
    (id : String) (c : Child) (cs : List Child)
    → child_of id cs ≡ some c
    → (c.reserved_tokens ≤ (reserved_by cs).tokens)
      × (c.reserved_cost_usd ≤ (reserved_by cs).cost_usd)
unfolding child_of reserved_by
held-le id c [] h = absurd (cc)
held-le id c (x ∷ cs) h = ground (arith, held-le id c cs)

pub reserve_with_of :
    (campaign : CampaignRecord) (child : Child) (node : CampaignPlanNode) (task_id : String)
    (now : ℕ) {after : CampaignRecord}
    → reserve_campaign_child campaign child node (some task_id) now ≡ inr after
    → after ≡ reserve_with campaign child node task_id now
unfolding reserve_campaign_child
reserve_with_of campaign child node task_id now h = elim (Bool-cases (is_pending child.status)) [
  | inl e ↦ cc (rw e at h)
  | inr e ↦ cc (rw e at h)
]

abbrev reserved_child : Child → CampaignPlanNode → String → ℕ → Child
reserved_child child node task_id now = record child {
  task_id = some task_id;
  status = ChildStatus.dispatching;
  started_at = some now;
  finished_at = none;
  error = none;
  reserved_tokens = or_else node.estimated_tokens 0;
  reserved_cost_usd = or_else node.estimated_cost_usd 0;
}

-- The amounts of the new record, with the child as it is after the reservation.
pub reserve_with-amounts :
    (campaign : CampaignRecord) (child : Child) (node : CampaignPlanNode) (task_id : String)
    (now : ℕ)
    → IsBalanced campaign
    → child_of child.node_id campaign.children ≡ some child
    → child.reserved_tokens ≡ 0
    → child.reserved_cost_usd ≡ 0
    → let after = reserve_with campaign child node task_id now in
      (after.reserved ≡ some (reserved_by after.children))
      × ((reserved_usage after).tokens
          ≡ (reserved_usage campaign).tokens + or_else node.estimated_tokens 0)
      × ((reserved_usage after).cost_usd
          ≡ (reserved_usage campaign).cost_usd + or_else node.estimated_cost_usd 0)
unfolding reserved_usage
reserve_with-amounts campaign child node task_id now b found t c =
    let child' = reserved_child child node task_id now in
    let (p, q) = put_child-reserved child' child campaign.children found in
    rw b.balanced (ground (arith, p, q), refl, refl)

-- Reserving for a pending child that holds nothing, in a balanced record, adds the node's estimate to
-- the reservation and leaves the record balanced.
pub reserve_campaign_child-IsBalanced :
    (campaign : CampaignRecord) (child : Child) (node : CampaignPlanNode) (task_id : String)
    (now : ℕ) (after : CampaignRecord)
    → IsBalanced campaign
    → child_of child.node_id campaign.children ≡ some child
    → child.reserved_tokens ≡ 0
    → child.reserved_cost_usd ≡ 0
    → reserve_campaign_child campaign child node (some task_id) now ≡ inr after
    → IsBalanced after
      × ((reserved_usage after).tokens
          ≡ (reserved_usage campaign).tokens + or_else node.estimated_tokens 0)
      × ((reserved_usage after).cost_usd
          ≡ (reserved_usage campaign).cost_usd + or_else node.estimated_cost_usd 0)
reserve_campaign_child-IsBalanced campaign child node task_id now after b found t c h =
    let (p, q, r) = reserve_with-amounts campaign child node task_id now b found t c in
    rw (reserve_with_of campaign child node task_id now h) (record { balanced = p }, q, r)

-- Giving a child's reservation back subtracts what it holds, exactly, and leaves the record balanced.
pub release_campaign_reservation-IsBalanced :
    (campaign : CampaignRecord) (child : Child)
    → IsBalanced campaign
    → child_of child.node_id campaign.children ≡ some child
    → let after = release_campaign_reservation campaign child in
      IsBalanced after
      × ((reserved_usage after).tokens + child.reserved_tokens ≡ (reserved_usage campaign).tokens)
      × ((reserved_usage after).cost_usd + child.reserved_cost_usd
          ≡ (reserved_usage campaign).cost_usd)
unfolding release_campaign_reservation
release_campaign_reservation-IsBalanced campaign child b found =
    let freed = record child { reserved_tokens = 0; reserved_cost_usd = 0 } in
    let (p, q) = put_child-reserved freed child campaign.children found in
    let (m, n) = held-le child.node_id child campaign.children found in
    rw b.balanced
      (record { balanced = ground (arith, p, q, m, n) }, omega (arith, m), omega (arith, n))

-- The child of this node is there, and holds no reservation.
abbrev pub HoldsNothing : String → List Child → Type 0
HoldsNothing id cs =
    (c : Child) × (child_of id cs ≡ some c) × (c.reserved_tokens ≡ 0) × (c.reserved_cost_usd ≡ 0)

pub child_of-put_child :
    (c old : Child) (cs : List Child)
    → child_of c.node_id cs ≡ some old
    → child_of c.node_id (put_child c cs) ≡ some c
unfolding child_of put_child
child_of-put_child c old [] h = absurd (cc)
child_of-put_child c old (x ∷ xs) h = elim (Bool-cases (str_eq x.node_id c.node_id)) [
  | inl e ↦ rw (e, str_eq_self c.node_id) refl
  | inr e ↦ rw (e, e) (child_of-put_child c old xs (rw e at h))
]

put_child-HoldsNothing :
    (child old : Child) (cs : List Child)
    → child.reserved_tokens ≡ 0
    → child.reserved_cost_usd ≡ 0
    → child_of child.node_id cs ≡ some old
    → HoldsNothing child.node_id (put_child child cs)
put_child-HoldsNothing child old cs t c found = (child, child_of-put_child child old cs found, t, c)

-- Accounting a child in a balanced record grows the usage by the tokens and the cost that the result
-- reports and by one task, shrinks the reservation by exactly what the child held, and leaves the
-- record balanced with the child holding nothing.
pub account_campaign_child_usage-IsBalanced :
    (campaign : CampaignRecord) (child : Child) (result : ChildResult)
    → IsBalanced campaign
    → child_of child.node_id campaign.children ≡ some child
    → let after = account_campaign_child_usage campaign child result in
      IsBalanced after
      × (after.usage.tokens ≡ campaign.usage.tokens + (aggregate_campaign_usage result).tokens)
      × (after.usage.cost_usd
          ≡ campaign.usage.cost_usd + (aggregate_campaign_usage result).cost_usd)
      × (after.usage.tasks ≡ campaign.usage.tasks + 1)
      × ((reserved_usage after).tokens + child.reserved_tokens ≡ (reserved_usage campaign).tokens)
      × ((reserved_usage after).cost_usd + child.reserved_cost_usd
          ≡ (reserved_usage campaign).cost_usd)
      × HoldsNothing child.node_id after.children
unfolding account_campaign_child_usage
account_campaign_child_usage-IsBalanced campaign child result b found =
    let freed = record child { accounted = true; reserved_tokens = 0; reserved_cost_usd = 0 } in
    let (p, q) = put_child-reserved freed child campaign.children found in
    let (m, n) = held-le child.node_id child campaign.children found in
    rw b.balanced (
      record { balanced = ground (arith, p, q, m, n) },
      refl,
      refl,
      refl,
      omega (arith, m),
      omega (arith, n),
      put_child-HoldsNothing freed child campaign.children refl refl found,
    )

-- Of a record whose reservation was not persisted, `reserve` counts the estimate of a child that held
-- nothing twice: the children hold one estimate more than before, and the reservation is two more than
-- they held.
pub reserve_campaign_child-legacy :
    (campaign : CampaignRecord) (child : Child) (node : CampaignPlanNode) (task_id : String)
    (now : ℕ) (after : CampaignRecord)
    → campaign.reserved ≡ none
    → child_of child.node_id campaign.children ≡ some child
    → child.reserved_tokens ≡ 0
    → child.reserved_cost_usd ≡ 0
    → reserve_campaign_child campaign child node (some task_id) now ≡ inr after
    → let tokens = or_else node.estimated_tokens 0 in
      let cost = or_else node.estimated_cost_usd 0 in
      let before = reserved_by campaign.children in
      ((reserved_by after.children).tokens ≡ before.tokens + tokens)
      × ((reserved_by after.children).cost_usd ≡ before.cost_usd + cost)
      × ((reserved_usage after).tokens ≡ before.tokens + tokens + tokens)
      × ((reserved_usage after).cost_usd ≡ before.cost_usd + cost + cost)
unfolding reserved_usage
reserve_campaign_child-legacy campaign child node task_id now after legacy found t c h =
    let child' = reserved_child child node task_id now in
    let (p, q) = put_child-reserved child' child campaign.children found in
    rw (reserve_with_of campaign child node task_id now h, legacy)
      (omega (arith, p, t), omega (arith, q, c), omega (arith, p, t), omega (arith, q, c))
