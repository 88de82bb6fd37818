-- ===== src/Triage/Readiness.antt =====
-- src/run/external-proposal-readiness-decision.ts and src/run/external-proposal-readiness-contract.ts: whether
-- a code proposal may be attempted, and the contract that it is bound to.
pub mod Laws
use run_forge.Common.{
  ℕ, Bool, true, false, not, ◌||◌, Option, none, some, List, [], ◌∷◌, String, if◌then◌else◌, ltb,
  or_else, str_eq,
}
use run_forge.Common.Text.{◌+++◌}
use run_forge.Triage.{
  FailureTriageCategory, FailureTriageConfidence, ProposalReadinessOutcome, ReadinessDecision,
  ReadinessRootCause, ReadinessTriageRun, ReadinessSafetyReport,
}
use mathlib.Core.Option

-- A category as its text in the source.
abbrev pub category_text : FailureTriageCategory → String
category_text FailureTriageCategory.dependency_missing = "dependency_missing"
category_text FailureTriageCategory.typecheck_error = "typecheck_error"
category_text FailureTriageCategory.test_assertion_failure = "test_assertion_failure"
category_text FailureTriageCategory.lint_error = "lint_error"
category_text FailureTriageCategory.build_error = "build_error"
category_text FailureTriageCategory.timeout = "timeout"
category_text FailureTriageCategory.command_not_found = "command_not_found"
category_text FailureTriageCategory.configuration_error = "configuration_error"
category_text FailureTriageCategory.environment_error = "environment_error"
category_text FailureTriageCategory.unknown_failure = "unknown_failure"
category_text FailureTriageCategory.no_failure_observed = "no_failure_observed"

-- `x === false` and `x === text` for a field that may be missing.
abbrev pub is_false : Option Bool → Bool
is_false none = false
is_false (some b) = not b

abbrev pub is_text : Option String → String → Bool
is_text none t = false
is_text (some s) t = str_eq s t

-- `a ?? b` where both may be missing.
abbrev pub first_some {ℓ} : {A : Type ℓ} → Option A → Option A → Option A
first_some none b = b
first_some (some a) b = some a

unfoldable pub has_safety_blocker : Option ReadinessSafetyReport → Bool
has_safety_blocker none = false
has_safety_blocker (some safety) =
    ltb 0 (or_else safety.blocked_commands 0)
    || (is_text safety.original_repo_mutation_verdict "changed"
        || (is_false safety.no_push_attempted
            || (is_false safety.no_merge_attempted
                || (is_false safety.no_deploy_attempted
                    || is_false safety.no_apply_to_original_repo_attempted))))

unfoldable pub is_diagnostic_setup_status : Option String → Bool
is_diagnostic_setup_status status =
    is_text status "setup_failed_main_passed" || is_text status "setup_failed_main_failed"

abbrev setup_recommended_next_action : Option String → String
setup_recommended_next_action fallback =
    or_else fallback
      "Install or prepare dependencies in the disposable workspace, or provide an explicit setup command, then rerun the failing command before attempting a code proposal."

abbrev pub is_no_failure : FailureTriageCategory → Bool
is_no_failure FailureTriageCategory.no_failure_observed = true
is_no_failure _ = false

abbrev pub is_timeout : FailureTriageCategory → Bool
is_timeout FailureTriageCategory.timeout = true
is_timeout _ = false

-- The categories that need a tool, a dependency or a setting before any edit.
abbrev pub needs_setup : FailureTriageCategory → Bool
needs_setup FailureTriageCategory.dependency_missing = true
needs_setup FailureTriageCategory.environment_error = true
needs_setup FailureTriageCategory.configuration_error = true
needs_setup FailureTriageCategory.command_not_found = true
needs_setup _ = false

-- The categories that a source edit can answer.
abbrev pub is_code_failure : FailureTriageCategory → Bool
is_code_failure FailureTriageCategory.test_assertion_failure = true
is_code_failure FailureTriageCategory.typecheck_error = true
is_code_failure FailureTriageCategory.lint_error = true
is_code_failure FailureTriageCategory.build_error = true
is_code_failure _ = false

abbrev at_least_medium : FailureTriageConfidence → FailureTriageConfidence
at_least_medium FailureTriageConfidence.low = FailureTriageConfidence.medium
at_least_medium confidence = confidence

abbrev decision :
    ProposalReadinessOutcome
    → Bool
    → FailureTriageCategory
    → FailureTriageConfidence
    → List String
    → String
    → ReadinessDecision
decision outcome can_attempt category confidence missing next = record {
  readiness_outcome = outcome;
  can_attempt_code_proposal = can_attempt;
  failure_category = category;
  confidence = confidence;
  missing_context = missing;
  recommended_next_action = next;
}

-- The category, the confidence and the statuses of the two sources of the decision.
abbrev pub failure_category_of :
    ReadinessRootCause → Option ReadinessTriageRun → FailureTriageCategory
failure_category_of cause none = or_else cause.category FailureTriageCategory.unknown_failure
failure_category_of cause (some run) =
    or_else cause.category (or_else run.category FailureTriageCategory.unknown_failure)

abbrev pub confidence_of : ReadinessRootCause → Option ReadinessTriageRun → FailureTriageConfidence
confidence_of cause none = or_else cause.confidence FailureTriageConfidence.low
confidence_of cause (some run) =
    or_else cause.confidence (or_else run.confidence FailureTriageConfidence.low)

abbrev pub status_of_run : Option ReadinessTriageRun → Option String
status_of_run none = none
status_of_run (some run) = run.status

abbrev pub check_status_of : ReadinessRootCause → Option ReadinessTriageRun → Option String
check_status_of cause none = cause.source_check_status
check_status_of cause (some run) =
    first_some cause.source_check_status (first_some run.source_check_status run.status)

-- The tests of `decideReadiness` in their order. The Booleans say that safety blocks the proposal,
-- that the triage saw no failure, and that the evidence is that of a diagnostic run.
unfoldable pub decide_from :
    Bool
    → FailureTriageCategory
    → FailureTriageConfidence
    → Bool
    → Bool
    → Option String
    → ReadinessDecision
decide_from blocked category confidence no_failure diagnostic safe_next_action =
    if blocked
    then decision ProposalReadinessOutcome.blocked_by_safety false category confidence
        ("Safety report indicates a blocked command or original repository mutation risk." ∷ [])
        "Resolve the safety blocker before attempting any code proposal."
    else if is_no_failure category || no_failure
    then decision ProposalReadinessOutcome.no_failure_observed false
        FailureTriageCategory.no_failure_observed FailureTriageConfidence.high []
        "No code proposal is needed because the source packet did not observe a failure."
    else if is_timeout category
    then decision ProposalReadinessOutcome.research_only false category confidence
        ("The timeout evidence does not identify a deterministic source edit." ∷ [])
        "Research the timeout with narrower commands or larger timeout limits before proposing code."
    else if diagnostic
    then decision ProposalReadinessOutcome.needs_more_context false category confidence
        ("Setup/preflight failed and main commands ran only in diagnostic mode, so this is not clean verification evidence."
          ∷ [])
        "Fix setup/preflight first, then rerun a clean external check before attempting a code proposal."
    else if needs_setup category
    then decision ProposalReadinessOutcome.needs_more_context false category confidence
        ((category_text category
            +++ " requires dependency, tool, or environment setup before source edits are safe to consider.")
          ∷ [])
        (setup_recommended_next_action safe_next_action)
    else if is_code_failure category
    then decision ProposalReadinessOutcome.ready_for_code_proposal true category
        (at_least_medium confidence) []
        "Create a proposal patch in a disposable workspace and verify it there; human review remains required."
    else decision ProposalReadinessOutcome.needs_more_context false category confidence
        ((category_text category
            +++ " is not deterministic enough for the current proposal engine.")
          ∷ [])
        (or_else safe_next_action
          "Collect more focused failure evidence before attempting a code proposal.")

unfoldable pub decide_readiness :
    ReadinessRootCause
    → Option ReadinessTriageRun
    → Option ReadinessSafetyReport
    → ReadinessDecision
decide_readiness cause run safety =
    decide_from (has_safety_blocker safety) (failure_category_of cause run)
      (confidence_of cause run) (is_text (status_of_run run) "no_failure_observed")
      (is_diagnostic_setup_status (check_status_of cause run)) cause.safe_next_action

-- What the contract grants; without leave to attempt a proposal it lists what is missing instead.
pub data Terms : Type 0 where
  refusal : List String → String → Terms
  grant :
      (allowed_actions forbidden_actions allowed_paths forbidden_paths : List String)
      → (max_files_changed max_patch_bytes : ℕ) → Terms

pub record ProposalContract : Type 0 where
  pub readiness_outcome : ProposalReadinessOutcome
  pub can_attempt_code_proposal : Bool
  pub failure_category : FailureTriageCategory
  pub confidence : FailureTriageConfidence
  pub terms : Terms
  pub human_gate_required : Bool

unfoldable pub build_proposal_contract : ReadinessDecision → ProposalContract
build_proposal_contract d = record {
  readiness_outcome = d.readiness_outcome;
  can_attempt_code_proposal = d.can_attempt_code_proposal;
  failure_category = d.failure_category;
  confidence = d.confidence;
  terms =
      if not d.can_attempt_code_proposal
      then Terms.refusal d.missing_context d.recommended_next_action
      else Terms.grant
          ("create proposal patch in disposable workspace"
            ∷ "run verification commands in disposable workspace" ∷ [])
          ("mutate original repo" ∷ "push" ∷ "merge" ∷ "deploy" ∷ "print secrets" ∷ []) []
          (".env" ∷ ".env.*" ∷ "**/secrets/**" ∷ "deploy/**" ∷ "infra/**" ∷ []) 3 50000;
  human_gate_required = true;
}
