-- ===== src/Validation/Outcome/Laws.antt =====
-- When a validation counts as passed.
use run_forge.Common.{
  ◌≡◌, ◌↔◌, refl, Bool, true, false, not, ◌||◌, some, List, [], ◌∷◌, inl, inr, arith, filter, any,
  every, Bool-cases,
}
use run_forge.Validation.{
  ValidationCommandOutcome, ValidationAggregateStatus, Disposition, ValidationPlanEntry,
  ValidationOutcomeRecord,
}
use run_forge.Validation.Outcome.{
  Execution, text_given, classify_run, classify_validation_execution, is_required, is_passed,
  same_outcome, has, aggregate_from, aggregate_validation_outcomes, is_settled, exercises_candidate,
  validation_satisfies_implementation_checkpoint,
}

-- No required command ended in any way but passing.
abbrev pub required_passed : List ValidationOutcomeRecord → Bool
required_passed outcomes =
    every (λ item. not (is_required item.acceptance) || is_passed item.outcome) outcomes

abbrev relevant : List ValidationOutcomeRecord → List ValidationOutcomeRecord
relevant outcomes = filter (λ item. is_required item.acceptance) outcomes

-- Among the required commands no outcome but `passed` is present.
Absent : List ValidationOutcomeRecord → Type 0
Absent outcomes =
    (o : ValidationCommandOutcome) → is_passed o ≡ false → has (relevant outcomes) o ≡ false

same_self : (o : ValidationCommandOutcome) → same_outcome o o ≡ true
same_self o = ground arith

differs :
    (o o' : ValidationCommandOutcome)
    → is_passed o ≡ true
    → is_passed o' ≡ false
    → same_outcome o o' ≡ false
differs o o' h k = ground arith

split_or : (a b : Bool) → a || b ≡ false → (a ≡ false) × (b ≡ false)
split_or a b h = ground arith

required_passed-Absent :
    (outcomes : List ValidationOutcomeRecord) → required_passed outcomes ≡ true → Absent outcomes
unfolding Absent
required_passed-Absent [] h o k = refl
required_passed-Absent (item ∷ items) h o k = elim (Bool-cases (is_required item.acceptance)) [
  | inr e ↦ rw e (required_passed-Absent items (rw e at h) o k)
  | inl e ↦ elim (Bool-cases (is_passed item.outcome)) [
    | inl p ↦ rw (e, differs item.outcome o p k) (required_passed-Absent items (rw (e, p) at h) o k)
    | inr p ↦ absurd (cc (rw (e, p) at h))
  ]
]

Absent-required_passed :
    (outcomes : List ValidationOutcomeRecord) → Absent outcomes → required_passed outcomes ≡ true
unfolding Absent
Absent-required_passed [] h = refl
Absent-required_passed (item ∷ items) h = elim (Bool-cases (is_required item.acceptance)) [
  | inr e ↦ rw e (Absent-required_passed items (λ o k. rw e at (h o k)))
  | inl e ↦ elim (Bool-cases (is_passed item.outcome)) [
    | inl p ↦
        rw (e, p)
          (Absent-required_passed items (λ o k. rw (e, differs item.outcome o p k) at (h o k)))
    | inr p ↦ absurd (cc (rw (e, same_self item.outcome) at (h item.outcome p)))
  ]
]

settled_iff :
    (a b c d e f g gaps : Bool)
    → (is_settled (aggregate_from a b c d e f g gaps) ≡ true)
      ↔ (a ≡ false)
        × (b ≡ false)
        × (c ≡ false)
        × (d ≡ false)
        × (e ≡ false)
        × (f ≡ false)
        × (g ≡ false)
unfolding aggregate_from
settled_iff a b c d e f g gaps = ground arith

abbrev AllAbsent : List ValidationOutcomeRecord → Type 0
AllAbsent items =
    (has items ValidationCommandOutcome.cancelled ≡ false)
    × (has items ValidationCommandOutcome.timed_out ≡ false)
    × (has items ValidationCommandOutcome.runtime_failed ≡ false)
    × (has items ValidationCommandOutcome.setup_failed ≡ false)
    × (has items ValidationCommandOutcome.product_failed ≡ false)
    × (has items ValidationCommandOutcome.capability_unsupported ≡ false)
    × (has items ValidationCommandOutcome.skipped_by_policy ≡ false)

pick :
    (items : List ValidationOutcomeRecord) (o : ValidationCommandOutcome)
    → is_passed o ≡ false
    → AllAbsent items
    → has items o ≡ false
pick items ValidationCommandOutcome.passed k all = absurd (cc)
pick items ValidationCommandOutcome.cancelled k (a, b, c, d, e, f, g) = a
pick items ValidationCommandOutcome.timed_out k (a, b, c, d, e, f, g) = b
pick items ValidationCommandOutcome.runtime_failed k (a, b, c, d, e, f, g) = c
pick items ValidationCommandOutcome.setup_failed k (a, b, c, d, e, f, g) = d
pick items ValidationCommandOutcome.product_failed k (a, b, c, d, e, f, g) = e
pick items ValidationCommandOutcome.capability_unsupported k (a, b, c, d, e, f, g) = f
pick items ValidationCommandOutcome.skipped_by_policy k (a, b, c, d, e, f, g) = g

settled-Absent :
    (outcomes : List ValidationOutcomeRecord)
    → (is_settled (aggregate_validation_outcomes outcomes) ≡ true) ↔ Absent outcomes
unfolding Absent aggregate_validation_outcomes
settled-Absent outcomes =
    let (to, from) = settled_iff _ _ _ _ _ _ _ _ in
    (
      λ h o k. pick (relevant outcomes) o k (to h),
      λ h. from (h _ refl, h _ refl, h _ refl, h _ refl, h _ refl, h _ refl, h _ refl),
    )

settled-required_passed :
    (outcomes : List ValidationOutcomeRecord)
    → (is_settled (aggregate_validation_outcomes outcomes) ≡ true)
      ↔ (required_passed outcomes ≡ true)
settled-required_passed outcomes =
    let (to, from) = settled-Absent outcomes in
    (λ h. Absent-required_passed outcomes (to h), λ h. from (required_passed-Absent outcomes h))

abbrev pub all_passed : List ValidationOutcomeRecord → Bool
all_passed outcomes = every (λ item. is_passed item.outcome) outcomes

all_passed-required_passed :
    (outcomes : List ValidationOutcomeRecord)
    → all_passed outcomes ≡ true
    → required_passed outcomes ≡ true
all_passed-required_passed [] h = refl
all_passed-required_passed (item ∷ items) h = ground (arith, all_passed-required_passed items)

all_passed-gaps :
    (outcomes : List ValidationOutcomeRecord)
    → any (λ item. not (is_passed (ValidationOutcomeRecord.outcome item))) outcomes
      ≡ not (all_passed outcomes)
all_passed-gaps [] = refl
all_passed-gaps (item ∷ items) = elim (Bool-cases (is_passed item.outcome)) [
  | inl e ↦ rw e (all_passed-gaps items)
  | inr e ↦ rw e refl
]

passed_from :
    (a b c d e f g gaps : Bool)
    → (aggregate_from a b c d e f g gaps ≡ ValidationAggregateStatus.passed)
      ↔ (is_settled (aggregate_from a b c d e f g gaps) ≡ true) × (gaps ≡ false)
unfolding aggregate_from
passed_from a b c d e f g gaps = ground arith

-- The aggregate is `passed` or `completed_with_validation_gaps` if and only if every required command
-- passed, and it is `passed` if and only if every command passed, whatever its acceptance.
pub aggregate_validation_outcomes-passed_iff :
    (outcomes : List ValidationOutcomeRecord)
    → ((is_settled (aggregate_validation_outcomes outcomes) ≡ true)
        ↔ (required_passed outcomes ≡ true))
      × ((aggregate_validation_outcomes outcomes ≡ ValidationAggregateStatus.passed)
          ↔ (all_passed outcomes ≡ true))
unfolding aggregate_validation_outcomes
aggregate_validation_outcomes-passed_iff outcomes =
    let (to, from) = settled-required_passed outcomes in
    let (split, join) = passed_from _ _ _ _ _ _ _ _ in
    (
      (to, from),
      (
        λ h. let (s, gaps) = split h in ground (arith, all_passed-gaps outcomes),
        λ h. join (
          from (all_passed-required_passed outcomes h),
          ground (arith, all_passed-gaps outcomes),
        ),
      ),
    )

-- An implementation checkpoint is certified if and only if every required command passed and one of
-- them is more than Git evidence.
pub validation_satisfies_implementation_checkpoint_iff :
    (outcomes : List ValidationOutcomeRecord)
    → (validation_satisfies_implementation_checkpoint outcomes ≡ true)
      ↔ (required_passed outcomes ≡ true) × (any exercises_candidate outcomes ≡ true)
unfolding validation_satisfies_implementation_checkpoint
validation_satisfies_implementation_checkpoint_iff outcomes =
    let (to, from) = settled-required_passed outcomes in
    elim (Bool-cases (is_settled (aggregate_validation_outcomes outcomes))) [
      | inl e ↦ rw e (λ h. (to e, h), λ (p, h). h)
      | inr e ↦ rw e (λ h. absurd (cc), λ (p, h). absurd (cc (from p)))
    ]

run-passed :
    (plan : ValidationPlanEntry) (input : Execution)
    → ((classify_run plan input).outcome ≡ ValidationCommandOutcome.passed)
      ↔ (input.cancelled ≡ false)
        × (input.timed_out ≡ false)
        × (input.spawn_error ≡ false)
        × (text_given input.signal ≡ false)
        × (input.exit_code ≡ some 0)
unfolding classify_run
run-passed plan input = ground arith

-- A command passes if and only if the plan executes it, it was neither cancelled, timed out, stopped
-- by a signal nor impossible to start, and it exited with code zero; its record keeps the command and
-- the acceptance of the plan.
pub classify_validation_execution-passed_iff :
    (plan : ValidationPlanEntry) (input : Execution)
    → let result = classify_validation_execution plan input in
      ((result.outcome ≡ ValidationCommandOutcome.passed)
        ↔ (plan.disposition ≡ Disposition.execute)
          × (input.cancelled ≡ false)
          × (input.timed_out ≡ false)
          × (input.spawn_error ≡ false)
          × (text_given input.signal ≡ false)
          × (input.exit_code ≡ some 0))
      × (result.command ≡ plan.requirement.command)
      × (result.acceptance ≡ plan.requirement.acceptance)
unfolding classify_validation_execution classify_run
classify_validation_execution-passed_iff plan input = ground arith
