-- ===== src/Triage.antt =====
-- From the evidence of a check to a decision on a code proposal: the types of
-- src/run/external-failure-triage-types.ts and of src/run/external-proposal-readiness-decision.ts.
pub mod Missing
pub mod Classifier
pub mod Readiness
mod Tests
use run_forge.Common.{ℕ, Bool, Option, List, String}
use run_forge.Check.{CommandPhase, CommandStatus, ExternalCheckStatus}

pub data FailureTriageCategory : Type 0 where
  dependency_missing typecheck_error test_assertion_failure lint_error build_error timeout
        command_not_found configuration_error environment_error unknown_failure
        no_failure_observed :
      FailureTriageCategory

pub data FailureTriageConfidence : Type 0 where
  high medium low : FailureTriageConfidence

pub record FailureEvidence : Type 0 where
  pub command_id : String
  pub phase : Option CommandPhase
  pub index : ℕ
  pub command : String
  pub status : CommandStatus
  pub exit_code : Option ℕ
  pub timed_out : Bool
  pub stdout_excerpt : String
  pub stderr_excerpt : String

-- The status of the packet as its text, and whether its setup policy continues after a failure.
pub record ExternalFailureTriageSourceRun : Type 0 where
  pub status : Option String
  pub continue_after_setup_failure : Bool

pub record FailureTriageAnalysis : Type 0 where
  pub category : FailureTriageCategory
  pub confidence : FailureTriageConfidence
  pub probable_root_cause : String
  pub evidence_basis : List String
  pub requires_more_context : Bool
  pub ready_for_code_proposal : Bool
  pub safe_next_action : String

pub data ProposalReadinessOutcome : Type 0 where
  ready_for_code_proposal needs_more_context research_only blocked_by_safety no_failure_observed :
      ProposalReadinessOutcome

pub record ReadinessDecision : Type 0 where
  pub readiness_outcome : ProposalReadinessOutcome
  pub can_attempt_code_proposal : Bool
  pub failure_category : FailureTriageCategory
  pub confidence : FailureTriageConfidence
  pub missing_context : List String
  pub recommended_next_action : String

pub record ReadinessRootCause : Type 0 where
  pub category : Option FailureTriageCategory
  pub confidence : Option FailureTriageConfidence
  pub safe_next_action : Option String
  pub source_check_status : Option String

pub record ReadinessTriageRun : Type 0 where
  pub status : Option String
  pub source_check_status : Option String
  pub category : Option FailureTriageCategory
  pub confidence : Option FailureTriageConfidence

pub record ReadinessSafetyReport : Type 0 where
  -- How many commands were blocked, where the report says so.
  pub blocked_commands : Option ℕ
  pub original_repo_mutation_verdict : Option String
  pub no_push_attempted : Option Bool
  pub no_merge_attempted : Option Bool
  pub no_deploy_attempted : Option Bool
  pub no_apply_to_original_repo_attempted : Option Bool
