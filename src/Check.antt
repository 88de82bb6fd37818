-- ===== src/Check.antt =====
-- The external command check, src/run/external-command-check.ts and its parts: user commands run in a
-- disposable copy of a repository, and the packet says what happened. This file has the types of
-- src/run/external-command-check-types.ts; times are milliseconds.
pub mod Status
pub mod Exec
pub mod Git
pub mod Report
pub mod Options
pub mod Log
pub mod Run
mod Tests
use run_forge.Common.{ℕ, Bool, Option, List, String}

pub data ExternalCheckStatus : Type 0 where
  passed failed timed_out error blocked setup_failed setup_timed_out setup_error
        setup_failed_main_passed setup_failed_main_failed :
      ExternalCheckStatus

pub data CommandStatus : Type 0 where
  passed failed timed_out error blocked : CommandStatus

pub data CommandPhase : Type 0 where
  setup main : CommandPhase

pub data MutationVerdict : Type 0 where
  unchanged changed unknown : MutationVerdict

pub data CliExitPolicy : Type 0 where
  packet command_status : CliExitPolicy

pub data SetupNetworkIntent : Type 0 where
  none expected unknown : SetupNetworkIntent

pub record ExternalCommandCheckOptions : Type 0 where
  pub repo : String
  pub setup_commands : Option (List String)
  pub setup_network_intent : Option SetupNetworkIntent
  pub continue_after_setup_failure : Option Bool
  pub commands : List String
  pub out : Option String
  pub timeout_ms : Option ℕ
  pub max_log_bytes : Option ℕ
  pub run_id : Option String
  pub exit_policy : Option CliExitPolicy

pub record CommandResult : Type 0 where
  pub command_id : String
  pub phase : CommandPhase
  pub index : ℕ
  pub command : String
  pub cwd : String
  pub started_at : ℕ
  pub finished_at : ℕ
  pub duration_ms : ℕ
  pub status : CommandStatus
  pub exit_code : Option ℕ
  pub signal : Option String
  pub timed_out : Bool
  pub stdout_path : String
  pub stderr_path : String
  pub stdout_bytes : ℕ
  pub stderr_bytes : ℕ
  pub stdout_truncated : Bool
  pub stderr_truncated : Bool
  pub block_reason : Option String

pub record GitSnapshot : Type 0 where
  pub head : Option String
  pub status : Option String
  pub error : Option String

pub record SetupPolicy : Type 0 where
  pub setup_commands_provided : Bool
  pub network_intent : SetupNetworkIntent
  pub continue_after_setup_failure : Bool
  pub main_commands_skipped_on_setup_failure : Bool

-- A command that was refused before the run.
pub record BlockedCommand : Type 0 where
  pub phase : CommandPhase
  pub index : ℕ
  pub command : String
  pub reason : String

-- `setupMayUseNetwork`
pub data MayUseNetwork : Type 0 where
  unknown yes_it_may no_setup : MayUseNetwork

pub record SafetyReport : Type 0 where
  pub run_id : String
  pub cli_exit_policy : CliExitPolicy
  pub cli_exit_code : ℕ
  pub original_repo_mutation_allowed : Bool
  pub original_repo_before : GitSnapshot
  pub original_repo_after : GitSnapshot
  pub original_repo_mutation_verdict : MutationVerdict
  pub workspace_path : Option String
  pub no_push_attempted : Bool
  pub no_merge_attempted : Bool
  pub no_apply_to_original_repo_attempted : Bool
  pub no_deploy_attempted : Bool
  pub commands_user_provided_via_cli : Bool
  pub setup_commands_user_provided : Bool
  pub setup_may_use_network : MayUseNetwork
  pub setup_policy : SetupPolicy
  pub setup_network_intent_enforced : Bool
  pub blocked_commands : List BlockedCommand

pub record ExternalCommandCheckResult : Type 0 where
  pub run_id : String
  pub status : ExternalCheckStatus
  pub repo_path : String
  pub workspace_path : Option String
  pub cli_exit_policy : CliExitPolicy
  pub cli_exit_code : ℕ
  pub setup_results : List CommandResult
  pub command_results : List CommandResult
  pub safety_report : SafetyReport
