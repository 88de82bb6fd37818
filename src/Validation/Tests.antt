-- ===== src/Validation/Tests.antt =====
-- A task with a test command and a Git command.
use run_forge.Common.{
  ℕ, ◌≡◌, ◌↔◌, refl, true, false, none, some, List, [], ◌∷◌, String, map, length, any, All,
  if◌then◌else◌, inl, inr,
}
use run_forge.Common.Text.{codes, is_space, trim}
use run_forge.Common.Regex.{test}
use run_forge.Validation.{
  ValidationCapability, ValidationAcceptance, ValidationCommandOutcome, ValidationAggregateStatus,
  RequirementSource, Disposition, ValidationCommandRequirement, ValidationProfile,
  ValidationProjectPolicy, ValidationRuntimeCapabilities, ValidationLane, ValidationPlanEntry,
  ValidationOutcomeRecord,
}
use run_forge.Common.{not, ◌||◌}
use run_forge.Validation.{has_capability}
use run_forge.Validation.Detect.{
  trim_text, undeclared, declared_for, detect, normalize_validation_requirements,
}
use run_forge.Validation.Detect.Laws.{normalize_validation_requirements-keeps}
use run_forge.Validation.Plan.{
  ParsedGit, is_empty, plan_entry, build_validation_preflight_plan,
  build_multi_lane_validation_preflight_plan,
}
use run_forge.Validation.Plan.Laws.{
  MayRun, IsRouted, build_validation_preflight_plan-execute_iff,
  build_multi_lane_validation_preflight_plan-IsRouted,
}
use run_forge.Validation.Outcome.{
  Execution, text_given, exercises_candidate, classify_validation_execution,
  aggregate_validation_outcomes, validation_satisfies_implementation_checkpoint,
}
use run_forge.Validation.Outcome.Laws.{
  required_passed, validation_satisfies_implementation_checkpoint_iff,
  classify_validation_execution-passed_iff,
}
use run_forge.Validation.GitEvidence.{
  GitEvidenceKind, forbidden_syntax, split_spaces, same_text, parse_args, parse_status, equal,
  parse_git_evidence_command,
}
use run_forge.Validation.GitEvidence.Laws.{IsReadOnly, parse_git_evidence_command-IsReadOnly}
use run_forge.Validation.Negotiation.{
  TaskSpec, ExecutionAgreement, negotiate_validation_capabilities, accept_validation_capabilities,
  capability_unavailable,
}
use run_forge.Validation.Negotiation.Laws.{
  required_can_be_met, accept_validation_capabilities-accepted,
}

abbrev requirement : String → List ValidationCapability → ValidationCommandRequirement
requirement command capabilities = record {
  command = command;
  required_capabilities = capabilities;
  acceptance = ValidationAcceptance.required;
  evidence_role = "product-validation";
  fallbacks = [];
  source = RequirementSource.known_command;
}

abbrev requirements : List ValidationCommandRequirement
requirements =
    requirement "git status --porcelain" (ValidationCapability.git_metadata ∷ [])
    ∷ requirement "make test" (ValidationCapability.shell ∷ [])
    ∷ []

abbrev profile : ValidationProfile
profile = record {
  id = "p";
  default_acceptance = ValidationAcceptance.required;
  default_evidence_role = "product-validation";
  additional_capabilities = [];
}

abbrev open_policy : ValidationProjectPolicy
open_policy = record { denied_capabilities = []; skipped_commands = [] }

abbrev shell_runtime : ValidationRuntimeCapabilities
shell_runtime = record {
  runtime = "docker";
  lane = "docker-validation";
  available = ValidationCapability.shell ∷ [];
}

abbrev product_lane : ValidationLane
product_lane = record {
  capabilities = shell_runtime;
  cwd = "/w";
  repository_identity = none;
  bound_sha = none;
  safety_assertions = none;
}

abbrev any_git : String → ParsedGit
any_git command = record { supported = true; argv = some ("git" ∷ "status" ∷ []); reason = "" }

build_validation_preflight_plan-execute_iff_example :
    let commands =
      (build_validation_preflight_plan requirements profile open_policy shell_runtime "/w"
        3).commands in
    (map (λ e. ValidationPlanEntry.requirement e) commands ≡ requirements)
    × All
        (λ e.
          (ValidationPlanEntry.disposition e ≡ Disposition.execute)
          ↔ MayRun open_policy shell_runtime.available (ValidationPlanEntry.requirement e))
        commands
build_validation_preflight_plan-execute_iff_example =
    build_validation_preflight_plan-execute_iff requirements profile open_policy shell_runtime "/w"
      3

build_multi_lane_validation_preflight_plan-IsRouted_example :
    let commands =
      (build_multi_lane_validation_preflight_plan requirements profile open_policy product_lane none
        none any_git 3).commands in
    (length commands ≡ 2) × All (IsRouted open_policy product_lane none any_git) commands
build_multi_lane_validation_preflight_plan-IsRouted_example =
    build_multi_lane_validation_preflight_plan-IsRouted requirements profile open_policy
      product_lane none none any_git 3

abbrev ended : ValidationAcceptance → ValidationCommandOutcome → ValidationOutcomeRecord
ended acceptance ending = record {
  command = "make test";
  acceptance = acceptance;
  outcome = ending;
  exit_code = some 0;
  reason = none;
  evidence_role = "product-validation";
}

abbrev outcomes : List ValidationOutcomeRecord
outcomes =
    ended ValidationAcceptance.required ValidationCommandOutcome.passed
    ∷ ended ValidationAcceptance.optional ValidationCommandOutcome.setup_failed
    ∷ []

gaps_test :
    aggregate_validation_outcomes outcomes
    ≡ ValidationAggregateStatus.completed_with_validation_gaps
unfolding aggregate_validation_outcomes
gaps_test = refl

validation_satisfies_implementation_checkpoint_iff_example :
    (validation_satisfies_implementation_checkpoint outcomes ≡ true)
    ↔ (required_passed outcomes ≡ true) × (any exercises_candidate outcomes ≡ true)
validation_satisfies_implementation_checkpoint_iff_example =
    validation_satisfies_implementation_checkpoint_iff outcomes

abbrev execution : Execution
execution = record {
  exit_code = some 0;
  signal = none;
  timed_out = false;
  cancelled = false;
  spawn_error = false;
  stdout = none;
  stderr = none;
}

abbrev entry : ValidationPlanEntry
entry = plan_entry open_policy shell_runtime "/w" (requirement "make" [])

classify_validation_execution-passed_iff_example :
    (((classify_validation_execution entry execution).outcome ≡ ValidationCommandOutcome.passed)
      ↔ (entry.disposition ≡ Disposition.execute)
        × (execution.cancelled ≡ false)
        × (execution.timed_out ≡ false)
        × (execution.spawn_error ≡ false)
        × (text_given execution.signal ≡ false)
        × (execution.exit_code ≡ some 0))
    × ((classify_validation_execution entry execution).command ≡ entry.requirement.command)
    × ((classify_validation_execution entry execution).acceptance ≡ entry.requirement.acceptance)
classify_validation_execution-passed_iff_example =
    classify_validation_execution-passed_iff entry execution

abbrev status_argv : List (List ℕ)
status_argv = codes "git" ∷ codes "status" ∷ codes "--porcelain" ∷ []

parse_git_evidence_command-IsReadOnly_example :
    (any forbidden_syntax (trim (codes "git status --porcelain")) ≡ false)
    × IsReadOnly none status_argv
unfolding parse_git_evidence_command test trim forbidden_syntax split_spaces same_text parse_args
    parse_status equal
parse_git_evidence_command-IsReadOnly_example =
    parse_git_evidence_command-IsReadOnly (codes "git status --porcelain") none status_argv
      GitEvidenceKind.status refl

abbrev task : List ValidationCommandRequirement → TaskSpec
task requirements = record {
  expected_sha = "abc";
  runtime_preference = "docker";
  external_network = "denied";
  allow_provider_calls = false;
  allow_network = true;
  requirements = requirements;
  project_policy = open_policy;
}

abbrev agreement : ExecutionAgreement
agreement = record { agreement_id = "a"; phases = [] }

accept_validation_capabilities-accepted_example :
    (accept_validation_capabilities (task requirements) agreement "t1" ≡ (
      if required_can_be_met (task requirements)
      then inr (negotiate_validation_capabilities (task requirements) agreement)
      else inl (
          capability_unavailable
            (negotiate_validation_capabilities (task requirements) agreement)
            "t1")))
    × (is_empty
          (negotiate_validation_capabilities (task requirements) agreement).required_unsupported
        ≡ required_can_be_met (task requirements))
accept_validation_capabilities-accepted_example =
    accept_validation_capabilities-accepted (task requirements) agreement "t1"

abbrev migration : List ValidationCommandRequirement
migration = requirement "make migrate" (ValidationCapability.database ∷ []) ∷ []

abbrev network_profile : ValidationProfile
network_profile = record profile { additional_capabilities = ValidationCapability.network ∷ [] }

abbrev made : ValidationCommandRequirement
made = record {
  command = "make";
  required_capabilities = ValidationCapability.network ∷ [];
  acceptance = ValidationAcceptance.required;
  evidence_role = "product-validation";
  fallbacks = [];
  source = RequirementSource.auto_default;
}

normalize_validation_requirements-keeps_example :
    (undeclared ("make" ∷ []) [] ≡ none)
    × (map (λ r. ValidationCommandRequirement.command r) (made ∷ []) ≡ map trim_text ("make" ∷ []))
    × All
        (λ r.
          not (has_capability (ValidationCapability.network ∷ []) ValidationCapability.network)
            || has_capability
                (ValidationCommandRequirement.required_capabilities r)
                ValidationCapability.network
          ≡ true)
        (made ∷ [])
unfolding normalize_validation_requirements declared_for detect trim_text is_space
normalize_validation_requirements-keeps_example =
    normalize_validation_requirements-keeps [] ("make" ∷ []) [] network_profile (made ∷ [])
      ValidationCapability.network refl
