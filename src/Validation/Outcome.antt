-- ===== src/Validation/Outcome.antt =====
-- How a validation command ended and what the outcomes add up to,
-- src/validation/capability-contract.ts.
pub mod Laws
use run_forge.Common.{
  ℕ, Bool, true, false, not, ◌&&◌, Option, none, some, List, [], ◌∷◌, String, if◌then◌else◌, ◌==◌,
  filter, any, or_else, str_eq, ◌++◌,
}
use run_forge.Common.Text.{codes, show_nat, ◌+++◌}
use run_forge.Common.Regex.{alt, test, lit_i, one_of, seq}
use run_forge.Validation.{
  ValidationAcceptance, ValidationCommandOutcome, ValidationAggregateStatus, Disposition,
  ValidationPlanEntry, ValidationOutcomeRecord,
}
use run_forge.Validation.Plan.{is_git}

-- How the process of a command ended; a flag that is not given is false.
pub record Execution : Type 0 where
  pub exit_code : Option ℕ
  pub signal : Option String
  pub timed_out : Bool
  pub cancelled : Bool
  pub spawn_error : Bool
  pub stdout : Option String
  pub stderr : Option String

-- `input.signal` as a condition: a missing and an empty text are false.
abbrev pub text_given : Option String → Bool
text_given none = false
text_given (some s) = not (str_eq s "")

abbrev pub is_zero : Option ℕ → Bool
is_zero none = false
is_zero (some n) = n == 0

abbrev exit_code_text : Option ℕ → String
exit_code_text none = "unknown"
exit_code_text (some n) = show_nat n

-- The text of both streams names something that is not installed.
unfoldable pub setup_evidence : Option String → Option String → Bool
setup_evidence stdout stderr =
    test
      (one_of (
        seq (lit_i "cannot find ") (alt (lit_i "module") (lit_i "package"))
        ∷ lit_i "module_not_found"
        ∷ lit_i "command not found"
        ∷ lit_i "enoent"
        ∷ lit_i "missing dependency"
        ∷ lit_i "node_modules"
        ∷ []))
      (codes (or_else stdout "") ++ (10 ∷ codes (or_else stderr "")))

abbrev pub ended :
    ValidationPlanEntry
    → Option ℕ
    → ValidationCommandOutcome
    → Option String
    → ValidationOutcomeRecord
ended plan exit_code outcome reason = record {
  command = plan.requirement.command;
  acceptance = plan.requirement.acceptance;
  outcome = outcome;
  exit_code = exit_code;
  reason = reason;
  evidence_role = plan.requirement.evidence_role;
}

-- The outcome of a command that was executed.
unfoldable pub classify_run : ValidationPlanEntry → Execution → ValidationOutcomeRecord
classify_run plan input =
    if input.cancelled
    then ended plan input.exit_code ValidationCommandOutcome.cancelled
        (some "Validation was cancelled.")
    else if input.timed_out
    then ended plan input.exit_code ValidationCommandOutcome.timed_out
        (some "Validation exceeded its timeout.")
    else if input.spawn_error
    then ended plan input.exit_code ValidationCommandOutcome.runtime_failed
        (some "Validation process could not be started.")
    else if text_given input.signal
    then ended plan input.exit_code ValidationCommandOutcome.runtime_failed
        (some ("Validation process terminated by " +++ (or_else input.signal "" +++ ".")))
    else if is_zero input.exit_code
    then ended plan input.exit_code ValidationCommandOutcome.passed none
    else if setup_evidence input.stdout input.stderr
    then ended plan input.exit_code ValidationCommandOutcome.setup_failed
        (some "A required command or dependency is unavailable.")
    else ended plan input.exit_code ValidationCommandOutcome.product_failed
        (some ("Validation exited with code " +++ (exit_code_text input.exit_code +++ ".")))

unfoldable pub classify_validation_execution :
    ValidationPlanEntry → Execution → ValidationOutcomeRecord
classify_validation_execution plan input = elim plan.disposition [
  | Disposition.capability_unsupported ↦
      ended plan input.exit_code ValidationCommandOutcome.capability_unsupported (some plan.reason)
  | Disposition.skipped_by_policy ↦
      ended plan input.exit_code ValidationCommandOutcome.skipped_by_policy (some plan.reason)
  | Disposition.execute ↦ classify_run plan input
]

abbrev pub is_required : ValidationAcceptance → Bool
is_required ValidationAcceptance.required = true
is_required _ = false

abbrev pub is_passed : ValidationCommandOutcome → Bool
is_passed ValidationCommandOutcome.passed = true
is_passed _ = false

-- Equality of outcomes.
abbrev pub same_outcome : ValidationCommandOutcome → ValidationCommandOutcome → Bool
same_outcome ValidationCommandOutcome.passed ValidationCommandOutcome.passed = true
same_outcome ValidationCommandOutcome.product_failed ValidationCommandOutcome.product_failed = true
same_outcome ValidationCommandOutcome.setup_failed ValidationCommandOutcome.setup_failed = true
same_outcome ValidationCommandOutcome.runtime_failed ValidationCommandOutcome.runtime_failed = true
same_outcome ValidationCommandOutcome.capability_unsupported
      ValidationCommandOutcome.capability_unsupported =
    true
same_outcome ValidationCommandOutcome.skipped_by_policy ValidationCommandOutcome.skipped_by_policy =
    true
same_outcome ValidationCommandOutcome.timed_out ValidationCommandOutcome.timed_out = true
same_outcome ValidationCommandOutcome.cancelled ValidationCommandOutcome.cancelled = true
same_outcome _ _ = false

-- `relevant.some((item) => item.outcome === outcome)`
abbrev pub has : List ValidationOutcomeRecord → ValidationCommandOutcome → Bool
has relevant outcome = any (λ item. same_outcome item.outcome outcome) relevant

-- The first outcome of a required command that is present, in the order of severity.
unfoldable pub aggregate_from :
    (cancelled timed_out runtime_failed setup_failed product_failed unsupported skipped gaps : Bool)
    → ValidationAggregateStatus
aggregate_from cancelled timed_out runtime_failed setup_failed product_failed unsupported skipped
      gaps =
    if cancelled
    then ValidationAggregateStatus.cancelled
    else if timed_out
    then ValidationAggregateStatus.timed_out
    else if runtime_failed
    then ValidationAggregateStatus.runtime_failed
    else if setup_failed
    then ValidationAggregateStatus.setup_failed
    else if product_failed
    then ValidationAggregateStatus.product_failed
    else if unsupported
    then ValidationAggregateStatus.blocked_by_capability
    else if skipped
    then ValidationAggregateStatus.blocked_by_policy
    else if gaps
    then ValidationAggregateStatus.completed_with_validation_gaps
    else ValidationAggregateStatus.passed

unfoldable pub aggregate_validation_outcomes :
    List ValidationOutcomeRecord → ValidationAggregateStatus
unfolding aggregate_from
aggregate_validation_outcomes outcomes =
    let relevant = filter (λ item. is_required item.acceptance) outcomes in
    aggregate_from (has relevant ValidationCommandOutcome.cancelled)
      (has relevant ValidationCommandOutcome.timed_out)
      (has relevant ValidationCommandOutcome.runtime_failed)
      (has relevant ValidationCommandOutcome.setup_failed)
      (has relevant ValidationCommandOutcome.product_failed)
      (has relevant ValidationCommandOutcome.capability_unsupported)
      (has relevant ValidationCommandOutcome.skipped_by_policy)
      (any (λ item. not (is_passed item.outcome)) outcomes)

-- `aggregate === "passed" || aggregate === "completed_with_validation_gaps"`
abbrev pub is_settled : ValidationAggregateStatus → Bool
is_settled ValidationAggregateStatus.passed = true
is_settled ValidationAggregateStatus.completed_with_validation_gaps = true
is_settled _ = false

-- A required command that passed and is more than Git evidence.
unfoldable pub exercises_candidate : ValidationOutcomeRecord → Bool
exercises_candidate item =
    is_required item.acceptance
    && (is_passed item.outcome
        && (not (str_eq item.evidence_role "git-evidence") && not (is_git item.command)))

unfoldable pub validation_satisfies_implementation_checkpoint : List ValidationOutcomeRecord → Bool
unfolding aggregate_validation_outcomes
validation_satisfies_implementation_checkpoint outcomes =
    if not (is_settled (aggregate_validation_outcomes outcomes))
    then false
    else any exercises_candidate outcomes
