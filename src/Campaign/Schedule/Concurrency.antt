-- ===== src/Campaign/Schedule/Concurrency.antt =====
-- Starting children keeps to the number of slots.
use run_forge.Common.{
  ℕ, zero, suc, ◌+◌, ◌-◌, ◌≤◌, ◌≡◌, refl, sym, subst, Bool, true, false, some, List, [], ◌∷◌,
  String, inl, inr, arith, if◌then◌else◌, filter, take, length, str_eq, Bool-cases, Option-cases,
}
use run_forge.Campaign.{CampaignRecord, Child, ChildStatus, CampaignPlanNode}
use run_forge.Campaign.Accounting.{
  child_of, put_child, reserve_campaign_child, reserve_with, release_campaign_reservation,
}
use run_forge.Campaign.Accounting.Laws.{child_of-put_child}
use run_forge.Campaign.Schedule.{
  ControlTask, Deps, has_task_spec, over_budget, bound, bind, undispatched, dispatch_failed,
  first_some, dispatch_reserved_child, dispatch_node, start_node, schedule_node, schedule_nodes,
  is_active, active_children, is_ready, ready_nodes, schedule,
}
use run_forge.Campaign.Schedule.Children.{child_of-node_id, own_id}
use run_forge.Campaign.Schedule.Budget.{campaign_of}
use run_forge.Campaign.Schedule.Laws.{reserve_with_if, reserving, Sum-cases, Round-cases}

abbrev one_if : Bool → ℕ
one_if true = 1
one_if false = 0

abbrev active : CampaignRecord → ℕ
active campaign = active_children campaign.children

swap :
    (n : ℕ) (a b : Bool) → (if b then 1 + n else n) + one_if a ≡ (if a then 1 + n else n) + one_if b
swap n a b = ground arith

keep :
    (m n : ℕ) (a b c : Bool)
    → m + one_if a ≡ n + one_if b
    → (if c then 1 + m else m) + one_if a ≡ (if c then 1 + n else n) + one_if b
keep m n a b c h = ground arith

put_child-active :
    (child old : Child) (cs : List Child)
    → child_of child.node_id cs ≡ some old
    → active_children (put_child child cs) + one_if (is_active old.status)
      ≡ active_children cs + one_if (is_active child.status)
unfolding put_child child_of active_children
put_child-active child old [] h = absurd (cc)
put_child-active child old (c ∷ cs) h = elim (Bool-cases (str_eq c.node_id child.node_id)) [
  | inl e ↦
      let same : c ≡ old = cc (rw e at h) in
      rw (e, sym same) (swap (active_children cs) (is_active c.status) (is_active child.status))
  | inr e ↦ rw e (keep _ _ _ _ (is_active c.status) (put_child-active child old cs (rw e at h)))
]

is_bound_active :
    (b : Bool) → is_active (if b then ChildStatus.queued else ChildStatus.running) ≡ true
is_bound_active true = refl
is_bound_active false = refl

bind-active :
    (campaign : CampaignRecord) (child : Child) (task : ControlTask) (now : ℕ)
    → child_of child.node_id campaign.children ≡ some child
    → is_active child.status ≡ true
    → active (bind campaign child task now) ≤ active campaign
unfolding bind
bind-active campaign child task now found a = omega (
  arith,
  rw (a, is_bound_active task.is_queued) at
      (put_child-active (bound child task now) child campaign.children found),
)

dispatch_failed-active :
    (campaign : CampaignRecord) (child : Child)
    → child_of child.node_id campaign.children ≡ some child
    → active (dispatch_failed campaign child) ≤ active campaign
unfolding dispatch_failed release_campaign_reservation
dispatch_failed-active campaign child found =
    let freed = record child { reserved_tokens = 0; reserved_cost_usd = 0 } in
    omega (
      arith,
      put_child-active freed child campaign.children found,
      put_child-active (undispatched child) freed (put_child freed campaign.children)
          (child_of-put_child freed child campaign.children found),
    )

dispatch_reserved_child-active :
    (deps : Deps) (campaign : CampaignRecord) (child : Child) (node : CampaignPlanNode) (now : ℕ)
    → child_of child.node_id campaign.children ≡ some child
    → is_active child.status ≡ true
    → active (campaign_of (dispatch_reserved_child deps campaign child node now)) ≤ active campaign
unfolding dispatch_reserved_child
dispatch_reserved_child-active deps campaign child node now found a =
    elim (Option-cases (first_some child.task_id node.task_id)) [
      | inl e ↦ rw (e, dispatch_reserved_child) (omega arith)
      | inr (id, e) ↦
          elim (Option-cases
            (first_some (deps.existing id) (first_some (deps.create node) (deps.raced id)))) [
              | inl f ↦
                  rw (e, f, dispatch_reserved_child) (dispatch_failed-active campaign child found)
              | inr (task, f) ↦
                  rw (e, f, dispatch_reserved_child) (bind-active campaign child task now found a)
            ]
    ]

dispatch_node-active :
    (deps : Deps) (campaign : CampaignRecord) (child : Child) (node : CampaignPlanNode) (now : ℕ)
    → child_of node.id campaign.children ≡ some child
    → is_active child.status ≡ true
    → active (campaign_of (dispatch_node deps campaign node now)) ≤ active campaign
unfolding dispatch_node
dispatch_node-active deps campaign child node now found a =
    elim (Bool-cases (has_task_spec deps campaign node)) [
      | inl t ↦
          rw (found, t, dispatch_node)
            (dispatch_reserved_child-active deps campaign child node now
              (own_id node.id child campaign.children found) a)
      | inr t ↦ rw (found, t, dispatch_node) (omega arith)
    ]

reserve_with-active :
    (campaign : CampaignRecord) (child : Child) (node : CampaignPlanNode) (id : String) (now : ℕ)
    → child_of node.id campaign.children ≡ some child
    → active (reserve_with campaign child node id now) ≤ active campaign + 1
reserve_with-active campaign child node id now found = omega (
  arith,
  put_child-active (reserving child node id now) child campaign.children
      (own_id node.id child campaign.children found),
)

-- The child that was reserved, in the new record.
reserved_child :
    (campaign : CampaignRecord) (child : Child) (node : CampaignPlanNode) (id : String) (now : ℕ)
    → child_of node.id campaign.children ≡ some child
    → child_of node.id (reserve_with campaign child node id now).children
      ≡ some (reserving child node id now)
reserved_child campaign child node id now found =
    subst
      (λ i.
        child_of i (put_child (reserving child node id now) campaign.children)
        ≡ some (reserving child node id now))
      (child_of-node_id node.id child campaign.children found)
      (child_of-put_child (reserving child node id now) child campaign.children
        (own_id node.id child campaign.children found))

start_with_task :
    (deps : Deps) (campaign : CampaignRecord) (child : Child) (node : CampaignPlanNode)
    (id : String) (now : ℕ) (after : CampaignRecord)
    → child_of node.id campaign.children ≡ some child
    → reserve_campaign_child campaign child node (some id) now ≡ inr after
    → active (campaign_of (dispatch_node deps after node now)) ≤ active campaign + 1
start_with_task deps campaign child node id now after found h =
    let (pending, same) = reserve_with_if campaign child node id now after h in
    subst (λ c. active (campaign_of (dispatch_node deps c node now)) ≤ active campaign + 1)
      (sym same)
      (omega (
        arith,
        reserve_with-active campaign child node id now found,
        dispatch_node-active deps (reserve_with campaign child node id now)
            (reserving child node id now) node now (reserved_child campaign child node id now found)
            refl,
      ))

start_node-active :
    (deps : Deps) (campaign : CampaignRecord) (child : Child) (node : CampaignPlanNode) (now : ℕ)
    → child_of node.id campaign.children ≡ some child
    → active (campaign_of (start_node deps campaign child node now)) ≤ active campaign + 1
unfolding start_node reserve_campaign_child
start_node-active deps campaign child node now found =
    elim (Sum-cases (reserve_campaign_child campaign child node node.task_id now)) [
      | inl (error, e) ↦ rw (e, start_node) (omega arith)
      | inr (after, e) ↦ elim (Option-cases node.task_id) [
        | inl n ↦ absurd (cc (rw (n, reserve_campaign_child) at e))
        | inr (id, n) ↦
            rw (e, start_node)
              (start_with_task deps campaign child node id now after found (rw n at e))
      ]
    ]

schedule_node-active :
    (deps : Deps) (campaign : CampaignRecord) (node : CampaignPlanNode) (now : ℕ)
    → active (campaign_of (schedule_node deps campaign node now)) ≤ active campaign + 1
unfolding schedule_node
schedule_node-active deps campaign node now = elim (Bool-cases (over_budget campaign node)) [
  | inl o ↦ rw (o, schedule_node) (omega arith)
  | inr o ↦ elim (Option-cases (child_of node.id campaign.children)) [
    | inl e ↦ rw (o, e, schedule_node) (omega arith)
    | inr (child, e) ↦ elim (Bool-cases (has_task_spec deps campaign node)) [
      | inl t ↦ rw (o, e, t, schedule_node) (start_node-active deps campaign child node now e)
      | inr t ↦ rw (o, e, t, schedule_node) (omega arith)
    ]
  ]
]

schedule_nodes-active :
    (deps : Deps) (now : ℕ) (nodes : List CampaignPlanNode) (campaign : CampaignRecord)
    → active (campaign_of (schedule_nodes deps now nodes campaign)) ≤ active campaign + length nodes
unfolding schedule_nodes
schedule_nodes-active deps now [] campaign = omega arith
schedule_nodes-active deps now (node ∷ nodes) campaign =
    let step = schedule_node-active deps campaign node now in
    elim (Round-cases (schedule_node deps campaign node now)) [
      | inl (next, e) ↦
          rw (e, schedule_nodes)
            (omega (arith, schedule_nodes-active deps now nodes next, rw e at step))
      | inr (inl (last, e)) ↦ rw (e, schedule_nodes) (omega (arith, rw e at step))
      | inr (inr (error, last, e)) ↦ rw (e, schedule_nodes) (omega (arith, rw e at step))
    ]

length-take : {A : Type 0} (n : ℕ) (xs : List A) → length (take n xs) ≤ n
length-take zero xs = omega arith
length-take (suc n) [] = omega arith
length-take (suc n) (x ∷ xs) = omega (arith, length-take n xs)

-- A round that begins with no more active children than the campaign's concurrency ends with no more,
-- whatever the store of tasks answers and wherever the round stops.
pub schedule-active :
    (deps : Deps) (now : ℕ) (nodes : List CampaignPlanNode) (campaign : CampaignRecord)
    → active_children campaign.children ≤ campaign.spec.limits.max_concurrency
    → active_children (campaign_of (schedule deps now nodes campaign)).children
      ≤ campaign.spec.limits.max_concurrency
unfolding schedule ready_nodes
schedule-active deps now nodes campaign h = omega (
  arith,
  h,
  schedule_nodes-active deps now (ready_nodes nodes campaign) campaign,
  length-take (campaign.spec.limits.max_concurrency - active_children campaign.children)
      (filter (is_ready campaign.children) nodes),
)
