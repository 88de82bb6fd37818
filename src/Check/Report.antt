-- ===== src/Check/Report.antt =====
-- The safety report and the trajectory of a check, from src/run/external-command-check-packet.ts.
use run_forge.Common.{
  ℕ, true, false, not, Option, List, [], ◌∷◌, ◌++◌, String, if◌then◌else◌, any, ltb, length,
  or_else,
}
use run_forge.Common.Text.{codes}
use run_forge.Common.Regex.{Regex, boundary, test, lit_i, one_of, all_of}
use run_forge.CommandSafety.{git_command, whole_word}
use run_forge.Check.{
  ExternalCheckStatus, CliExitPolicy, SetupNetworkIntent, ExternalCommandCheckOptions, GitSnapshot,
  MutationVerdict, SetupPolicy, MayUseNetwork, SafetyReport, BlockedCommand,
}

abbrev pub setup_commands_of : ExternalCommandCheckOptions → List String
setup_commands_of options = or_else options.setup_commands []

abbrev pub all_user_commands : ExternalCommandCheckOptions → List String
all_user_commands options = setup_commands_of options ++ options.commands

unfoldable pub build_setup_policy : ExternalCommandCheckOptions → SetupPolicy
build_setup_policy options = record {
  setup_commands_provided = ltb 0 (length (setup_commands_of options));
  network_intent = or_else options.setup_network_intent SetupNetworkIntent.unknown;
  continue_after_setup_failure = or_else options.continue_after_setup_failure false;
  main_commands_skipped_on_setup_failure = not (or_else options.continue_after_setup_failure false);
}

-- `\b(install|add|...)\b`, with the flag `i`
abbrev network_words : Regex
network_words = all_of (
    boundary
    ∷ one_of (
        lit_i "install"
        ∷ lit_i "add"
        ∷ lit_i "update"
        ∷ lit_i "fetch"
        ∷ lit_i "curl"
        ∷ lit_i "wget"
        ∷ lit_i "corepack"
        ∷ lit_i "npx"
        ∷ lit_i "pnpm"
        ∷ lit_i "npm"
        ∷ lit_i "yarn"
        ∷ lit_i "bun"
        ∷ [])
    ∷ boundary
    ∷ [])

unfoldable pub setup_may_use_network : List String → MayUseNetwork
setup_may_use_network [] = MayUseNetwork.no_setup
setup_may_use_network (command ∷ commands) =
    if any (λ c. test network_words (codes c)) (command ∷ commands)
    then MayUseNetwork.yes_it_may
    else MayUseNetwork.unknown

unfoldable pub build_safety_report :
    ExternalCommandCheckOptions
    → String
    → CliExitPolicy
    → ℕ
    → GitSnapshot
    → GitSnapshot
    → MutationVerdict
    → Option String
    → List BlockedCommand
    → SafetyReport
unfolding build_setup_policy setup_may_use_network
build_safety_report options run_id policy exit_code before after verdict workspace blocked =
    record {
      run_id = run_id;
      cli_exit_policy = policy;
      cli_exit_code = exit_code;
      original_repo_mutation_allowed = false;
      original_repo_before = before;
      original_repo_after = after;
      original_repo_mutation_verdict = verdict;
      workspace_path = workspace;
      no_push_attempted =
          not (any (λ c. test (git_command "push") (codes c)) (all_user_commands options));
      no_merge_attempted =
          not (any (λ c. test (git_command "merge") (codes c)) (all_user_commands options));
      no_apply_to_original_repo_attempted = true;
      no_deploy_attempted =
          not (any (λ c. test (whole_word "deploy") (codes c)) (all_user_commands options));
      commands_user_provided_via_cli = true;
      setup_commands_user_provided = ltb 0 (length (setup_commands_of options));
      setup_may_use_network = setup_may_use_network (setup_commands_of options);
      setup_policy = build_setup_policy options;
      setup_network_intent_enforced = false;
      blocked_commands = blocked;
    }

-- The statuses that the trajectory gives its setup and worker steps.
unfoldable pub setup_step_status : ExternalCheckStatus → String
setup_step_status ExternalCheckStatus.setup_failed = "setup_failed"
setup_step_status ExternalCheckStatus.setup_timed_out = "setup_timed_out"
setup_step_status ExternalCheckStatus.setup_error = "setup_error"
setup_step_status ExternalCheckStatus.setup_failed_main_passed = "setup_failed_main_passed"
setup_step_status ExternalCheckStatus.setup_failed_main_failed = "setup_failed_main_failed"
setup_step_status _ = "setup_passed"

unfoldable pub main_step_status : ExternalCheckStatus → String
main_step_status ExternalCheckStatus.setup_failed = "skipped"
main_step_status ExternalCheckStatus.setup_timed_out = "skipped"
main_step_status ExternalCheckStatus.setup_error = "skipped"
main_step_status _ = "finished"
