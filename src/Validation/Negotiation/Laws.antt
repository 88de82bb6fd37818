-- ===== src/Validation/Negotiation/Laws.antt =====
-- When a task's validation is refused before the task starts.
use run_forge.Common.{
  ◌≡◌, refl, sym, Bool, true, false, not, ◌&&◌, ◌||◌, List, [], ◌∷◌, String, inl, inr, arith,
  if◌then◌else◌, any, every, map, filter, is_some, Bool-cases,
}
use run_forge.Validation.{ValidationCapability, ValidationCommandRequirement}
use run_forge.Validation.Plan.{is_empty, policy_skips}
use run_forge.Validation.Outcome.{is_required}
use run_forge.Validation.Negotiation.{
  TaskSpec, NegotiationStatus, ExecutionAgreement, ValidationNegotiationDecision,
  is_statically_unsupported, statically_unsupported_of, static_reason, is_unsupported,
  decide_requirement, unsupported_entry, negotiate_validation_capabilities, capability_unavailable,
  accept_validation_capabilities,
}

-- A requirement can be met, as far as is known before the task starts: the policy does not skip it,
-- no capability that it requires is out of reach, and a Git command has a form that is supported.
unfoldable pub can_be_met : TaskSpec → ValidationCommandRequirement → Bool
can_be_met spec r =
    not (policy_skips spec.project_policy r)
    && (every (λ c. not (is_statically_unsupported c spec)) r.required_capabilities
        && not (is_some (static_reason spec r)))

filter_none :
    {A : Type 0} (p : A → Bool) (cs : List A) → is_empty (filter p cs) ≡ every (λ c. not (p c)) cs
filter_none p [] = refl
filter_none p (c ∷ cs) = elim (Bool-cases (p c)) [
  | inl e ↦ rw e refl
  | inr e ↦ rw e (filter_none p cs)
]

blocking_of :
    (required skipped none_missing refused : Bool)
    → not (required && (skipped || (not none_missing || refused)))
      ≡ not required || (not skipped && (none_missing && not refused))
blocking_of required skipped none_missing refused = ground arith

blocking-can_be_met :
    (spec : TaskSpec) (r : ValidationCommandRequirement)
    → not (decide_requirement spec r).blocking ≡ not (is_required r.acceptance) || can_be_met spec r
unfolding decide_requirement can_be_met is_unsupported statically_unsupported_of
blocking-can_be_met spec r =
    rw (sym (filter_none (λ c. is_statically_unsupported c spec) r.required_capabilities)) (
      blocking_of (is_required r.acceptance) (policy_skips spec.project_policy r)
        (is_empty (filter (λ c. is_statically_unsupported c spec) r.required_capabilities))
        (is_some (static_reason spec r)))

none_blocked :
    (spec : TaskSpec) (rs : List ValidationCommandRequirement)
    → is_empty (
        map unsupported_entry (
          filter
            (λ item. ValidationNegotiationDecision.blocking item)
            (map (decide_requirement spec) rs)))
      ≡ every
          (λ r. not (is_required (ValidationCommandRequirement.acceptance r)) || can_be_met spec r)
          rs
none_blocked spec [] = refl
none_blocked spec (r ∷ rs) = elim (Bool-cases (decide_requirement spec r).blocking) [
  | inl e ↦ rw (sym (blocking-can_be_met spec r), e) refl
  | inr e ↦ rw (sym (blocking-can_be_met spec r), e) (none_blocked spec rs)
]

-- Every requirement whose acceptance is `required` can be met.
abbrev pub required_can_be_met : TaskSpec → Bool
required_can_be_met spec =
    every (λ r. not (is_required (ValidationCommandRequirement.acceptance r)) || can_be_met spec r)
      spec.requirements

-- The task is accepted with its negotiation if every required requirement can be met, and is refused
-- for good with the negotiation otherwise; what the negotiation lists as unsupported is empty if and
-- only if every required requirement can be met.
pub accept_validation_capabilities-accepted :
    (spec : TaskSpec) (agreement : ExecutionAgreement) (task_id : String)
    → let negotiation = negotiate_validation_capabilities spec agreement in
      (accept_validation_capabilities spec agreement task_id ≡ (
        if required_can_be_met spec
        then inr negotiation
        else inl (capability_unavailable negotiation task_id)))
      × (is_empty negotiation.required_unsupported ≡ required_can_be_met spec)
unfolding accept_validation_capabilities negotiate_validation_capabilities
accept_validation_capabilities-accepted spec agreement task_id =
    elim (Bool-cases (required_can_be_met spec)) [
      | inl h ↦ rw (none_blocked spec spec.requirements, h) (refl, refl)
      | inr h ↦ rw (none_blocked spec spec.requirements, h) (refl, refl)
    ]

-- No lane has these capabilities.
abbrev pub is_unavailable_lane : ValidationCapability → Bool
is_unavailable_lane ValidationCapability.credentials = true
is_unavailable_lane ValidationCapability.database = true
is_unavailable_lane ValidationCapability.production = true
is_unavailable_lane _ = false

unavailable :
    (spec : TaskSpec) (c : ValidationCapability)
    → is_unavailable_lane c ≡ true
    → is_statically_unsupported c spec ≡ true
unfolding is_statically_unsupported
unavailable spec c h = ground arith

any_unavailable :
    (spec : TaskSpec) (cs : List ValidationCapability)
    → any is_unavailable_lane cs ≡ true
    → every (λ c. not (is_statically_unsupported c spec)) cs ≡ false
any_unavailable spec [] h = absurd (cc)
any_unavailable spec (c ∷ cs) h = ground (arith, unavailable spec c, any_unavailable spec cs)

unavailable-can_be_met :
    (spec : TaskSpec) (rs : List ValidationCommandRequirement)
    → any
        (λ r.
          is_required (ValidationCommandRequirement.acceptance r)
          && any is_unavailable_lane (ValidationCommandRequirement.required_capabilities r))
        rs
      ≡ true
    → every
        (λ r. not (is_required (ValidationCommandRequirement.acceptance r)) || can_be_met spec r)
        rs
      ≡ false
unfolding can_be_met
unavailable-can_be_met spec [] h = absurd (cc)
unavailable-can_be_met spec (r ∷ rs) h =
    ground (arith, any_unavailable spec r.required_capabilities, unavailable-can_be_met spec rs)

-- A task with a required command that needs credentials, a database or production is rejected, whatever
-- its authority, its runtime and its policy.
pub negotiate_validation_capabilities-unavailable :
    (spec : TaskSpec) (agreement : ExecutionAgreement)
    → any
        (λ r.
          is_required (ValidationCommandRequirement.acceptance r)
          && any is_unavailable_lane (ValidationCommandRequirement.required_capabilities r))
        spec.requirements
      ≡ true
    → (negotiate_validation_capabilities spec agreement).status ≡ NegotiationStatus.rejected
unfolding negotiate_validation_capabilities
negotiate_validation_capabilities-unavailable spec agreement h =
    rw (none_blocked spec spec.requirements, unavailable-can_be_met spec spec.requirements h) refl
