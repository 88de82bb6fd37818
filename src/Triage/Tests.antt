-- ===== src/Triage/Tests.antt =====
-- A failed test that a proposal may answer.
use run_forge.Common.{◌≡◌, ◌↔◌, refl, true, none, some}
use run_forge.Triage.{FailureTriageCategory, ProposalReadinessOutcome, ReadinessRootCause}
use run_forge.Check.{CommandPhase, CommandStatus}
use run_forge.Common.{◌⊎◌, not, any, false, [], ◌∷◌}
use run_forge.Common.Regex.{test, seq, start, lit}
use run_forge.Common.Text.{codes}
use run_forge.Triage.{FailureEvidence, ExternalFailureTriageSourceRun}
use run_forge.Triage.Missing.{has_missing_external_package}
use run_forge.Triage.Classifier.{
  analyze_failure, setup_failure_classification, environment_setup_classification, combined,
  is_passed_status, has_timed_out, is_setup_evidence, missing_node_modules, missing_node_types,
}
use run_forge.Triage.Classifier.Laws.{analyze_failure-clean}
use run_forge.Triage.Readiness.{
  decide_readiness, decide_from, has_safety_blocker, is_diagnostic_setup_status,
}
use run_forge.Triage.Readiness.Laws.{MayPropose, decide_readiness-can_attempt_iff}

abbrev failed_test : ReadinessRootCause
failed_test = record {
  category = some FailureTriageCategory.test_assertion_failure;
  confidence = none;
  safe_next_action = none;
  source_check_status = some "failed";
}

decide_readiness-can_attempt_iff_example :
    (((decide_readiness failed_test none none).can_attempt_code_proposal ≡ true)
      ↔ MayPropose failed_test none none)
    × (((decide_readiness failed_test none none).readiness_outcome
          ≡ ProposalReadinessOutcome.ready_for_code_proposal)
        ↔ MayPropose failed_test none none)
decide_readiness-can_attempt_iff_example = decide_readiness-can_attempt_iff failed_test none none

attempt_test : (decide_readiness failed_test none none).can_attempt_code_proposal ≡ true
unfolding decide_readiness decide_from has_safety_blocker is_diagnostic_setup_status
attempt_test = refl

abbrev failing : FailureEvidence
failing = record {
  command_id = "r:command:001";
  phase = some CommandPhase.main;
  index = 1;
  command = "x";
  status = CommandStatus.failed;
  exit_code = some 1;
  timed_out = false;
  stdout_excerpt = "lint";
  stderr_excerpt = "";
}

abbrev failed_run : ExternalFailureTriageSourceRun
failed_run = record { status = some "failed"; continue_after_setup_failure = false }

analysis_is_ready : (analyze_failure failed_run (failing ∷ [])).ready_for_code_proposal ≡ true
unfolding analyze_failure setup_failure_classification environment_setup_classification combined
    test has_missing_external_package is_setup_evidence missing_node_modules missing_node_types
analysis_is_ready = refl

analyze_failure-clean_example :
    ((failed_run.status ≡ some "passed") ⊎ (failed_run.status ≡ some "success")
      → any (λ (i : FailureEvidence). not (is_passed_status i.status)) (failing ∷ []) ≡ true)
    × (test (seq start (lit "setup_")) (codes "failed") ≡ false)
    × (any is_setup_evidence (failing ∷ []) ≡ false)
    × (any has_timed_out (failing ∷ []) ≡ false)
    × (missing_node_modules (combined (failing ∷ [])) ≡ false)
    × (missing_node_types (combined (failing ∷ [])) ≡ false)
    × (has_missing_external_package (combined (failing ∷ [])) ≡ false)
analyze_failure-clean_example = analyze_failure-clean failed_run (failing ∷ []) analysis_is_ready
