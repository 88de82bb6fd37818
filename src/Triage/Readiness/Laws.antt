-- ===== src/Triage/Readiness/Laws.antt =====
-- When a code proposal may be attempted.
use run_forge.Common.{◌≡◌, ◌≢◌, ◌↔◌, Bool, true, false, Option, [], String, arith}
use run_forge.Triage.{
  FailureTriageCategory, FailureTriageConfidence, ProposalReadinessOutcome, ReadinessDecision,
  ReadinessRootCause, ReadinessTriageRun, ReadinessSafetyReport,
}
use run_forge.Triage.Readiness.{
  has_safety_blocker, is_diagnostic_setup_status, is_text, is_code_failure, failure_category_of,
  status_of_run, check_status_of, decide_from, decide_readiness,
}

module _ (cause : ReadinessRootCause) (run : Option ReadinessTriageRun)
    (safety : Option ReadinessSafetyReport) where
  abbrev pub MayPropose : Type 0
  MayPropose =
      (has_safety_blocker safety ≡ false)
      × (is_code_failure (failure_category_of cause run) ≡ true)
      × (is_text (status_of_run run) "no_failure_observed" ≡ false)
      × (is_diagnostic_setup_status (check_status_of cause run) ≡ false)

module _ (blocked no_failure diagnostic : Bool) (category : FailureTriageCategory)
    (confidence : FailureTriageConfidence) (next : Option String) where
  abbrev result : ReadinessDecision
  result = decide_from blocked category confidence no_failure diagnostic next

  abbrev Clear : Type 0
  Clear =
      (blocked ≡ false)
      × (is_code_failure category ≡ true)
      × (no_failure ≡ false)
      × (diagnostic ≡ false)

  can_attempt-Clear : result.can_attempt_code_proposal ≡ true → Clear
  unfolding decide_from
  can_attempt-Clear h = ground arith

  Clear-can_attempt : Clear → result.can_attempt_code_proposal ≡ true
  unfolding decide_from
  Clear-can_attempt h = ground arith

  ready-Clear : result.readiness_outcome ≡ ProposalReadinessOutcome.ready_for_code_proposal → Clear
  unfolding decide_from
  ready-Clear h = ground arith

  Clear-ready : Clear → result.readiness_outcome ≡ ProposalReadinessOutcome.ready_for_code_proposal
  unfolding decide_from
  Clear-ready h = ground arith

  -- A proposal is attempted with at least medium confidence, and names nothing as missing; what is
  -- refused for want of context names something.
  can_attempt-missing :
      result.can_attempt_code_proposal ≡ true
      → (result.missing_context ≡ []) × (result.confidence ≢ FailureTriageConfidence.low)
  unfolding decide_from
  can_attempt-missing h = (ground arith, λ e. ground arith)

-- A code proposal may be attempted exactly when nothing blocks it for safety, the failure is one of
-- tests, types, lint or build, the triage saw a failure, and the evidence is not that of a run after
-- a failed setup. The outcome is then `ready_for_code_proposal`, and only then.
pub decide_readiness-can_attempt_iff :
    (cause : ReadinessRootCause) (run : Option ReadinessTriageRun)
    (safety : Option ReadinessSafetyReport)
    → let d = decide_readiness cause run safety in
      ((d.can_attempt_code_proposal ≡ true) ↔ MayPropose cause run safety)
      × ((d.readiness_outcome ≡ ProposalReadinessOutcome.ready_for_code_proposal)
          ↔ MayPropose cause run safety)
unfolding decide_readiness
decide_readiness-can_attempt_iff cause run safety = (
  (
    can_attempt-Clear _ _ _ _ _ cause.safe_next_action,
    Clear-can_attempt _ _ _ _ _ cause.safe_next_action,
  ),
  (ready-Clear _ _ _ _ _ cause.safe_next_action, Clear-ready _ _ _ _ _ cause.safe_next_action),
)
