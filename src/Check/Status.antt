-- ===== src/Check/Status.antt =====
-- src/run/external-command-check-helpers.ts: the reports and results of blocked commands, the final
-- status of a check and the exit code.
pub mod Laws
use run_forge.Common.{
  ℕ, ◌+◌, Bool, true, false, ◌&&◌, ◌||◌, not, Option, none, some, List, [], ◌∷◌, ◌++◌, String,
  if◌then◌else◌, any, every, find, length, ltb,
}
use run_forge.Common.Text.{codes, pad3, ◌+++◌}
use run_forge.CommandSafety.{command_reason}
use run_forge.Check.{
  ExternalCheckStatus, CommandStatus, CommandPhase, CliExitPolicy, CommandResult, BlockedCommand,
  MutationVerdict,
}

abbrev pub is_passed : CommandStatus → Bool
is_passed CommandStatus.passed = true
is_passed _ = false

abbrev pub is_failed : CommandStatus → Bool
is_failed CommandStatus.failed = true
is_failed _ = false

abbrev pub is_timed_out : CommandStatus → Bool
is_timed_out CommandStatus.timed_out = true
is_timed_out _ = false

abbrev pub is_error : CommandStatus → Bool
is_error CommandStatus.error = true
is_error _ = false

abbrev pub is_blocked : CommandStatus → Bool
is_blocked CommandStatus.blocked = true
is_blocked _ = false

abbrev report_of : CommandPhase → ℕ → String → Option String → List BlockedCommand
report_of phase index command none = []
report_of phase index command (some reason) =
    record { phase = phase; index = index; command = command; reason = reason } ∷ []

-- The `forEach` over the commands; `offset` commands stand before.
pub reports_from : CommandPhase → ℕ → List String → List BlockedCommand
reports_from phase offset [] = []
reports_from phase offset (command ∷ commands) =
    report_of phase (offset + 1) command (command_reason (codes command))
    ++ reports_from phase (offset + 1) commands

unfoldable pub blocked_command_reports : List String → CommandPhase → List BlockedCommand
unfolding reports_from
blocked_command_reports commands phase = reports_from phase 0 commands

abbrev pub id_prefix : CommandPhase → String
id_prefix CommandPhase.setup = "setup"
id_prefix CommandPhase.main = "command"

-- `${runId}:${prefix}:${padded index}`
abbrev pub command_id : String → CommandPhase → ℕ → String
command_id run_id phase index = run_id +++ ":" +++ id_prefix phase +++ ":" +++ pad3 index

abbrev pub log_path : CommandPhase → ℕ → String → String
log_path phase index stream =
    "logs/" +++ id_prefix phase +++ "-" +++ pad3 index +++ "." +++ stream +++ ".log"

unfoldable pub blocked_result : BlockedCommand → String → String → ℕ → CommandResult
blocked_result blocked cwd run_id now = record {
  command_id = command_id run_id blocked.phase blocked.index;
  phase = blocked.phase;
  index = blocked.index;
  command = blocked.command;
  cwd = cwd;
  started_at = now;
  finished_at = now;
  duration_ms = 0;
  status = CommandStatus.blocked;
  exit_code = none;
  signal = none;
  timed_out = false;
  stdout_path = log_path blocked.phase blocked.index "stdout";
  stderr_path = log_path blocked.phase blocked.index "stderr";
  stdout_bytes = 0;
  stderr_bytes = 0;
  stdout_truncated = false;
  stderr_truncated = false;
  block_reason = some blocked.reason;
}

pub data SetupPhaseStatus : Type 0 where
  setup_passed setup_failed setup_timed_out setup_error : SetupPhaseStatus

unfoldable pub setup_phase_status : List CommandResult → SetupPhaseStatus
setup_phase_status results =
    if any (λ r. is_timed_out r.status) results
    then SetupPhaseStatus.setup_timed_out
    else if any (λ r. is_error r.status) results
    then SetupPhaseStatus.setup_error
    else if any (λ r. is_failed r.status || is_blocked r.status) results
    then SetupPhaseStatus.setup_failed
    else SetupPhaseStatus.setup_passed

unfoldable pub first_setup_failure : List CommandResult → Option CommandResult
first_setup_failure results = find (λ r. not (is_passed r.status)) results

unfoldable pub main_commands_passed : List CommandResult → Bool
main_commands_passed results = ltb 0 (length results) && every (λ r. is_passed r.status) results

abbrev pub setup_failure_of : SetupPhaseStatus → Option ExternalCheckStatus
setup_failure_of SetupPhaseStatus.setup_passed = none
setup_failure_of SetupPhaseStatus.setup_failed = some ExternalCheckStatus.setup_failed
setup_failure_of SetupPhaseStatus.setup_timed_out = some ExternalCheckStatus.setup_timed_out
setup_failure_of SetupPhaseStatus.setup_error = some ExternalCheckStatus.setup_error

abbrev main_status : List CommandResult → ExternalCheckStatus
main_status results =
    if any (λ r. is_timed_out r.status) results
    then ExternalCheckStatus.timed_out
    else if any (λ r. is_error r.status) results
    then ExternalCheckStatus.error
    else if any (λ r. is_failed r.status) results
    then ExternalCheckStatus.failed
    else ExternalCheckStatus.passed

abbrev pub is_changed : MutationVerdict → Bool
is_changed MutationVerdict.changed = true
is_changed _ = false

abbrev pub is_blocked_check : ExternalCheckStatus → Bool
is_blocked_check ExternalCheckStatus.blocked = true
is_blocked_check _ = false

-- What is left of `finalStatus` once the setup phase is read; with no setup there is no failure.
abbrev status_after_setup :
    Option ExternalCheckStatus → List CommandResult → Bool → ExternalCheckStatus
status_after_setup none results continue_after = main_status results
status_after_setup (some failure) results continue_after =
    if continue_after
    then (if main_commands_passed results
        then ExternalCheckStatus.setup_failed_main_passed
        else ExternalCheckStatus.setup_failed_main_failed)
    else failure

unfoldable pub final_status :
    ExternalCheckStatus
    → List CommandResult
    → List CommandResult
    → MutationVerdict
    → Bool
    → ExternalCheckStatus
unfolding setup_phase_status main_commands_passed
final_status current setup_results command_results verdict continue_after =
    if is_changed verdict
    then ExternalCheckStatus.error
    else if is_blocked_check current
    then ExternalCheckStatus.blocked
    else status_after_setup
        (if ltb 0 (length setup_results)
          then setup_failure_of (setup_phase_status setup_results)
          else none)
        command_results continue_after

abbrev is_passed_check : ExternalCheckStatus → Bool
is_passed_check ExternalCheckStatus.passed = true
is_passed_check _ = false

unfoldable pub cli_exit_code_for : CliExitPolicy → ExternalCheckStatus → ℕ
cli_exit_code_for CliExitPolicy.packet status = 0
cli_exit_code_for CliExitPolicy.command_status status = if is_passed_check status then 0 else 1
