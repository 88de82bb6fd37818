-- ===== src/Validation.antt =====
-- What a validation command needs and how it ended: the types of src/validation/capability-contract.ts.
-- Times are milliseconds; the fields that the source spreads from a requirement or from a lane stand
-- together in one field here.
pub mod Plan
pub mod Detect
pub mod Outcome
pub mod GitEvidence
pub mod Negotiation
mod Tests
use run_forge.Common.{
  ℕ, Bool, true, false, not, Option, List, [], ◌∷◌, String, if◌then◌else◌, filter, any, str_eq,
}
use run_forge.Common.Text.{◌+++◌}

pub data ValidationCapability : Type 0 where
  filesystem git_metadata git_history working_tree_index package_manager dependencies shell network
        credentials docker local_disposable provider_model database production
        git_read_only_evidence :
      ValidationCapability

pub data ValidationAcceptance : Type 0 where
  required optional advisory evidence_only : ValidationAcceptance

pub data ValidationCommandOutcome : Type 0 where
  passed product_failed setup_failed runtime_failed capability_unsupported skipped_by_policy
        timed_out cancelled :
      ValidationCommandOutcome

pub data ValidationAggregateStatus : Type 0 where
  passed completed_with_validation_gaps blocked_by_capability blocked_by_policy product_failed
        setup_failed runtime_failed timed_out cancelled :
      ValidationAggregateStatus

pub data RequirementSource : Type 0 where
  explicit known_command auto_default : RequirementSource

pub data Disposition : Type 0 where
  execute capability_unsupported skipped_by_policy : Disposition

pub record ValidationCommandRequirement : Type 0 where
  pub command : String
  pub required_capabilities : List ValidationCapability
  pub acceptance : ValidationAcceptance
  pub evidence_role : String
  pub fallbacks : List String
  pub source : RequirementSource

pub record ValidationProfile : Type 0 where
  pub id : String
  pub default_acceptance : ValidationAcceptance
  pub default_evidence_role : String
  pub additional_capabilities : List ValidationCapability

-- A missing list of the policy is the empty one.
pub record ValidationProjectPolicy : Type 0 where
  pub denied_capabilities : List ValidationCapability
  pub skipped_commands : List String

pub record ValidationRuntimeCapabilities : Type 0 where
  pub runtime : String
  pub lane : String
  pub available : List ValidationCapability

pub record ValidationLane : Type 0 where
  pub capabilities : ValidationRuntimeCapabilities
  pub cwd : String
  pub repository_identity : Option String
  pub bound_sha : Option String
  pub safety_assertions : Option (List String)

pub record ValidationPlanEntry : Type 0 where
  pub requirement : ValidationCommandRequirement
  pub runtime : String
  pub lane : String
  pub cwd : String
  pub available_capabilities : List ValidationCapability
  pub missing_capabilities : List ValidationCapability
  pub supported : Bool
  pub reason : String
  pub disposition : Disposition
  pub argv : Option (List String)
  pub repository_identity : Option String
  pub bound_sha : Option String
  pub safety_assertions : Option (List String)

pub record ValidationPreflightPlan : Type 0 where
  pub created_at : ℕ
  pub profile : ValidationProfile
  pub runtime : ValidationRuntimeCapabilities
  pub lanes : Option (List ValidationLane)
  pub commands : List ValidationPlanEntry

pub record ValidationOutcomeRecord : Type 0 where
  pub command : String
  pub acceptance : ValidationAcceptance
  pub outcome : ValidationCommandOutcome
  pub exit_code : Option ℕ
  pub reason : Option String
  pub evidence_role : String

-- A capability as its text in the source.
abbrev pub capability_text : ValidationCapability → String
capability_text ValidationCapability.filesystem = "filesystem"
capability_text ValidationCapability.git_metadata = "git-metadata"
capability_text ValidationCapability.git_history = "git-history"
capability_text ValidationCapability.working_tree_index = "working-tree-index"
capability_text ValidationCapability.package_manager = "package-manager"
capability_text ValidationCapability.dependencies = "dependencies"
capability_text ValidationCapability.shell = "shell"
capability_text ValidationCapability.network = "network"
capability_text ValidationCapability.credentials = "credentials"
capability_text ValidationCapability.docker = "docker"
capability_text ValidationCapability.local_disposable = "local-disposable"
capability_text ValidationCapability.provider_model = "provider-model"
capability_text ValidationCapability.database = "database"
capability_text ValidationCapability.production = "production"
capability_text ValidationCapability.git_read_only_evidence = "git-read-only-evidence"

abbrev pub same_capability : ValidationCapability → ValidationCapability → Bool
same_capability a b = str_eq (capability_text a) (capability_text b)

-- `set.has(capability)` and `set.has(command)`
abbrev pub has_capability : List ValidationCapability → ValidationCapability → Bool
has_capability set c = any (same_capability c) set

abbrev pub has_command : List String → String → Bool
has_command set command = any (str_eq command) set

-- `[...new Set(values)]`
abbrev pub unique : List ValidationCapability → List ValidationCapability
unique [] = []
unique (c ∷ cs) = c ∷ filter (λ d. not (same_capability c d)) (unique cs)

-- `names.join(", ")`
abbrev pub join_capabilities : List ValidationCapability → String
join_capabilities [] = ""
join_capabilities (c ∷ []) = capability_text c
join_capabilities (c ∷ d ∷ cs) = capability_text c +++ (", " +++ join_capabilities (d ∷ cs))
