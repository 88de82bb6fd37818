-- ===== src/Validation/Negotiation.antt =====
-- What a task's validation may ask for before it starts, src/control-plane/validation-negotiation.ts,
-- with the parts that it reads of src/product/task-spec-v2.ts and src/product/execution-agreement.ts.
pub mod Laws
use run_forge.Common.{
  ℕ, Bool, true, false, not, ◌&&◌, ◌||◌, Option, none, some, List, [], ◌∷◌, String, if◌then◌else◌,
  any, map, filter, find, or_else, is_some, str_eq, ◌⊎◌, inl, inr,
}
use run_forge.Common.Text.{codes, ◌+++◌}
use run_forge.Validation.{
  ValidationCapability, ValidationAcceptance, ValidationCommandRequirement, ValidationProjectPolicy,
  has_capability, join_capabilities, same_capability,
}
use run_forge.Validation.Plan.{is_empty, is_git, policy_skips}
use run_forge.Validation.GitEvidence.{ParsedGitEvidence, parse_git_evidence_command}
use run_forge.Validation.Outcome.{is_required}

pub data ExecutionParty : Type 0 where
  runforge external_session owner external_system nobody : ExecutionParty

pub record ExecutionPhaseAgreement : Type 0 where
  pub phase_id : String
  pub requested : Bool
  pub responsible_party : ExecutionParty

pub record ExecutionAgreement : Type 0 where
  pub agreement_id : String
  pub phases : List ExecutionPhaseAgreement

-- The parts of a task's specification that the negotiation reads.
pub record TaskSpec : Type 0 where
  pub expected_sha : String
  pub runtime_preference : String
  pub external_network : String
  pub allow_provider_calls : Bool
  pub allow_network : Bool
  pub requirements : List ValidationCommandRequirement
  pub project_policy : ValidationProjectPolicy

pub data NegotiatedDisposition : Type 0 where
  execute deferred_preflight capability_unsupported skipped_by_policy : NegotiatedDisposition

pub record ValidationNegotiationDecision : Type 0 where
  pub command : String
  pub acceptance : ValidationAcceptance
  pub required_capabilities : List ValidationCapability
  pub disposition : NegotiatedDisposition
  pub statically_unsupported_capabilities : List ValidationCapability
  pub reason : String
  pub fallbacks : List String
  pub blocking : Bool

pub data NegotiationStatus : Type 0 where
  accepted rejected : NegotiationStatus

pub record RequiredUnsupported : Type 0 where
  pub command : String
  pub reason : String
  pub fallbacks : List String

pub record Responsibility : Type 0 where
  pub execution_agreement_id : String
  pub structural_review : ExecutionParty
  pub semantic_review : ExecutionParty

pub record ValidationCapabilityNegotiation : Type 0 where
  pub status : NegotiationStatus
  pub runtime : String
  pub requirements : List ValidationNegotiationDecision
  pub required_unsupported : List RequiredUnsupported
  pub responsibility : Responsibility

abbrev pub deferred_capabilities : List ValidationCapability
deferred_capabilities =
    ValidationCapability.filesystem ∷ ValidationCapability.shell
    ∷ ValidationCapability.package_manager ∷ ValidationCapability.dependencies
    ∷ ValidationCapability.git_metadata ∷ ValidationCapability.git_history
    ∷ ValidationCapability.working_tree_index ∷ ValidationCapability.git_read_only_evidence ∷ []

unfoldable pub is_statically_unsupported : ValidationCapability → TaskSpec → Bool
is_statically_unsupported ValidationCapability.credentials spec = true
is_statically_unsupported ValidationCapability.database spec = true
is_statically_unsupported ValidationCapability.production spec = true
is_statically_unsupported ValidationCapability.network spec =
    not spec.allow_network || not (str_eq spec.external_network "allowed")
is_statically_unsupported ValidationCapability.provider_model spec = not spec.allow_provider_calls
is_statically_unsupported ValidationCapability.docker spec =
    not (str_eq spec.runtime_preference "docker")
is_statically_unsupported ValidationCapability.local_disposable spec =
    not (str_eq spec.runtime_preference "local-disposable")
is_statically_unsupported _ spec = false

unfoldable pub statically_unsupported_of :
    TaskSpec → ValidationCommandRequirement → List ValidationCapability
statically_unsupported_of spec requirement =
    filter (λ c. is_statically_unsupported c spec) requirement.required_capabilities

abbrev pub refusal_of : ParsedGitEvidence → Option String
refusal_of (ParsedGitEvidence.supported argv kind) = none
refusal_of (ParsedGitEvidence.unsupported reason) = some reason

-- Why a Git command cannot be evidence, if it cannot.
unfoldable pub static_reason : TaskSpec → ValidationCommandRequirement → Option String
static_reason spec requirement =
    if is_git requirement.command
    then refusal_of
        (parse_git_evidence_command (codes requirement.command) (some (codes spec.expected_sha)))
    else none

unfoldable pub is_unsupported : TaskSpec → ValidationCommandRequirement → Bool
is_unsupported spec requirement =
    not (is_empty (statically_unsupported_of spec requirement))
    || is_some (static_reason spec requirement)

unfoldable pub negotiated_disposition :
    (skipped unsupported deferred : Bool) → NegotiatedDisposition
negotiated_disposition skipped unsupported deferred =
    if skipped
    then NegotiatedDisposition.skipped_by_policy
    else if unsupported
    then NegotiatedDisposition.capability_unsupported
    else if deferred
    then NegotiatedDisposition.deferred_preflight
    else NegotiatedDisposition.execute

unfoldable pub decide_requirement :
    TaskSpec → ValidationCommandRequirement → ValidationNegotiationDecision
unfolding negotiated_disposition
decide_requirement spec requirement =
    let skipped = policy_skips spec.project_policy requirement in
    let missing = statically_unsupported_of spec requirement in
    let unsupported = is_unsupported spec requirement in
    let deferred = any (has_capability deferred_capabilities) requirement.required_capabilities in
    record {
      command = requirement.command;
      acceptance = requirement.acceptance;
      required_capabilities = requirement.required_capabilities;
      disposition = negotiated_disposition skipped unsupported deferred;
      statically_unsupported_capabilities = missing;
      reason =
          if skipped
          then "Project policy skips this command or denies one of its capabilities."
          else or_else (static_reason spec requirement) (
              if not (is_empty missing)
              then "No accepted "
                +++ (spec.runtime_preference
                    +++ (" validation lane can provide: " +++ (join_capabilities missing +++ ".")))
              else if deferred
              then "Accepted; executable/package/Git evidence is verified again in runtime preflight before command execution."
              else "Accepted from statically available capability and authority facts.");
      fallbacks = requirement.fallbacks;
      blocking = is_required requirement.acceptance && (skipped || unsupported);
    }

abbrev pub unsupported_entry : ValidationNegotiationDecision → RequiredUnsupported
unsupported_entry item = record {
  command = item.command;
  reason = item.reason;
  fallbacks = item.fallbacks;
}

unfoldable pub phase_owner : ExecutionAgreement → String → ExecutionParty
phase_owner agreement phase_id =
    elim (find (λ phase. str_eq phase.phase_id phase_id && phase.requested) agreement.phases) [
      | none ↦ ExecutionParty.nobody
      | some phase ↦ phase.responsible_party
    ]

unfoldable pub negotiate_validation_capabilities :
    TaskSpec → ExecutionAgreement → ValidationCapabilityNegotiation
negotiate_validation_capabilities spec agreement =
    let requirements = map (decide_requirement spec) spec.requirements in
    let blocked =
      map unsupported_entry
        (filter (λ item. ValidationNegotiationDecision.blocking item) requirements) in
    record {
      status = if is_empty blocked then NegotiationStatus.accepted else NegotiationStatus.rejected;
      runtime = spec.runtime_preference;
      requirements = requirements;
      required_unsupported = blocked;
      responsibility = record {
        execution_agreement_id = agreement.agreement_id;
        structural_review = phase_owner agreement "localValidation";
        semantic_review = phase_owner agreement "independentReview";
      };
    }

-- The error that the task is refused with: its HTTP status, its code, the negotiation and the task.
pub record ValidationCapabilityUnavailable : Type 0 where
  pub http_status : ℕ
  pub code : String
  pub negotiation : ValidationCapabilityNegotiation
  pub retryable : Bool
  pub task_id : String

abbrev pub capability_unavailable :
    ValidationCapabilityNegotiation → String → ValidationCapabilityUnavailable
capability_unavailable negotiation task_id = record {
  http_status = 422;
  code = "validation_capability_unavailable";
  negotiation = negotiation;
  retryable = false;
  task_id = task_id;
}

abbrev pub is_rejected : NegotiationStatus → Bool
is_rejected NegotiationStatus.rejected = true
is_rejected NegotiationStatus.accepted = false

unfoldable pub accept_validation_capabilities :
    TaskSpec
    → ExecutionAgreement
    → (task_id : String) → ValidationCapabilityUnavailable ⊎ ValidationCapabilityNegotiation
unfolding negotiate_validation_capabilities
accept_validation_capabilities spec agreement task_id =
    let negotiation = negotiate_validation_capabilities spec agreement in
    if is_rejected negotiation.status
    then inl (capability_unavailable negotiation task_id)
    else inr negotiation
