-- ===== src/Check/Options.antt =====
-- `validateOptions` and `assertDirectory` of src/run/external-command-check.ts.
use run_forge.Common.{
  ℕ, Bool, false, Option, none, some, [], if◌then◌else◌, any, length, or_else, str_eq, ◌==◌,
}
use run_forge.Common.Text.{is_blank}
use run_forge.Check.{ExternalCommandCheckOptions}

-- The errors that `validateOptions` and `assertDirectory` throw.
pub data CheckError : Type 0 where
  repo_required command_required empty_setup_command empty_command bad_timeout bad_max_log_bytes
        not_a_directory does_not_exist :
      CheckError

abbrev is_zero : Option ℕ → Bool
is_zero none = false
is_zero (some n) = n == 0

-- The tests on `exitPolicy` and `setupNetworkIntent` hold by the types here.
unfoldable pub validate_options : ExternalCommandCheckOptions → Option CheckError
unfolding is_blank
validate_options options =
    if str_eq options.repo ""
    then some CheckError.repo_required
    else if length options.commands == 0
    then some CheckError.command_required
    else if any is_blank (or_else options.setup_commands [])
    then some CheckError.empty_setup_command
    else if any is_blank options.commands
    then some CheckError.empty_command
    else if is_zero options.timeout_ms
    then some CheckError.bad_timeout
    else if is_zero options.max_log_bytes
    then some CheckError.bad_max_log_bytes
    else none

pub data PathKind : Type 0 where
  directory other missing : PathKind

unfoldable pub assert_directory : PathKind → Option CheckError
assert_directory PathKind.directory = none
assert_directory PathKind.other = some CheckError.not_a_directory
assert_directory PathKind.missing = some CheckError.does_not_exist
