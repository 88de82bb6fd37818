-- ===== src/Check/Run.antt =====
-- `runExternalCommandCheck` of src/run/external-command-check.ts: the checks on its options, the two
-- loops over the commands, the events that it emits and the result. Text that names a moment in time
-- is left out of the events; an event's id is its number.
pub mod Laws
pub mod Summary
pub mod Outcome
pub mod Events
use run_forge.Common.{
  ℕ, suc, ◌+◌, Bool, true, false, not, ◌&&◌, ◌||◌, Option, none, some, List, [], ◌∷◌, ◌++◌, String,
  if◌then◌else◌, any, every, ltb, length, or_else, is_some, ◌⊎◌, inl, inr, str_eq, ◌==◌,
}
use run_forge.Common.Text.{codes, is_blank, ◌+++◌}
use run_forge.Check.{
  ExternalCheckStatus, CommandStatus, CommandPhase, MutationVerdict, CliExitPolicy,
  ExternalCommandCheckOptions, CommandResult, GitSnapshot, SetupPolicy, BlockedCommand,
  ExternalCommandCheckResult,
}
use run_forge.Check.Status.{
  is_passed, blocked_command_reports, blocked_result, command_id, SetupPhaseStatus,
  setup_phase_status, first_setup_failure, final_status, cli_exit_code_for,
}
use run_forge.Check.Exec.{ProcessOutcome, run_one_command}
use run_forge.Check.Git.{
  WorkspaceFileSnapshot, WorkspaceChangeSummary, mutation_verdict_for,
  compute_workspace_change_summary,
}
use run_forge.Check.Report.{build_setup_policy, build_safety_report, setup_commands_of}
use run_forge.Check.Options.{CheckError, validate_options, PathKind, assert_directory}
use run_forge.Check.Log.{
  EventBody, Event, Log, start_log, emit, emit_all, add_result, mark_logs, add_blocked,
}

-- What the machine does: `resolve`, the kind of a path, git, the workspace and its snapshots, and the
-- process that each command becomes.
pub record Env : Type 0 where
  pub new_run_id : String
  pub resolve : String → String
  pub kind : String → PathKind
  pub original_before : GitSnapshot
  pub original_after : GitSnapshot
  pub workspace : String → String
  pub snapshot_before : WorkspaceFileSnapshot ⊎ String
  pub snapshot_after : WorkspaceFileSnapshot ⊎ String
  pub process : CommandPhase → ℕ → String → ProcessOutcome
  pub now : ℕ

module _ (env : Env) (run_id cwd : String) (max_log_bytes worker : ℕ) where
  unfoldable pub result_of : CommandPhase → ℕ → String → CommandResult
  unfolding run_one_command
  result_of phase index command =
      run_one_command (command_id run_id phase index) phase index command cwd max_log_bytes
        (env.process phase index command)

  -- One round of either loop.
  pub run_command : CommandPhase → ℕ → String → Log → Log
  unfolding result_of
  run_command phase index command log =
      let r = result_of phase index command in
      emit_all (mark_logs r ++ EventBody.command_finished worker phase index command r.status ∷ [])
        (add_result r (emit (EventBody.command_started worker phase index command) log))

  -- `break` after the first command that does not pass; `done` commands were run before.
  pub run_setup : ℕ → List String → Log → Log
  run_setup done [] log = log
  run_setup done (command ∷ commands) log =
      let log' = run_command CommandPhase.setup (done + 1) command log in
      let rest = run_setup (done + 1) commands log' in
      if is_passed (result_of CommandPhase.setup (done + 1) command).status then rest else log'

  pub run_main : ℕ → List String → Log → Log
  run_main done [] log = log
  run_main done (command ∷ commands) log =
      run_main (done + 1) commands (run_command CommandPhase.main (done + 1) command log)

  pub setup_phase : List String → Log → Log
  unfolding run_setup setup_phase_status
  setup_phase [] log = log
  setup_phase (command ∷ commands) log =
      let log' =
        run_setup 0 (command ∷ commands)
          (emit (EventBody.setup_started worker (length (command ∷ commands))) log) in
      emit
        (EventBody.setup_finished worker (setup_phase_status log'.setup_results)
          (length log'.setup_results))
        log'

  pub main_phase : Bool → List String → Option CommandResult → Log → Log
  unfolding run_main
  main_phase continue_after commands none log = run_main 0 commands log
  main_phase continue_after commands (some failure) log =
      if continue_after
      then (run_main 0 commands (
          emit
            (EventBody.setup_diagnostic_main_commands_started worker failure.status
              (length commands))
            log))
      else emit (EventBody.setup_skipped_main_commands worker failure.status (length commands)) log

abbrev pub default_timeout_ms : ℕ
default_timeout_ms = 120000

abbrev pub default_max_log_bytes : ℕ
default_max_log_bytes = 1000000

abbrev pub snapshot_events : WorkspaceFileSnapshot ⊎ String → String → List EventBody
snapshot_events (inl snapshot) workspace = []
snapshot_events (inr error) workspace = EventBody.workspace_snapshot_failed workspace error ∷ []

abbrev pub run_id_of : Env → ExternalCommandCheckOptions → String
run_id_of env options = or_else options.run_id env.new_run_id

abbrev pub prepare_events : Env → ExternalCommandCheckOptions → List EventBody
prepare_events env options =
    let workspace = env.workspace (env.resolve options.repo) in
    snapshot_events env.snapshot_before workspace
    ++ EventBody.workspace_prepared workspace ∷ EventBody.worker_started ∷ []

-- The branch of a run in which no command is blocked.
pub run_commands : Env → ExternalCommandCheckOptions → Log → Log
unfolding first_setup_failure build_setup_policy
run_commands env options log =
    let workspace = env.workspace (env.resolve options.repo) in
    let prepared = emit_all (prepare_events env options) log in
    let worker = prepared.event_counter in
    let max_log_bytes = or_else options.max_log_bytes default_max_log_bytes in
    let id = run_id_of env options in
    let after_setup =
      setup_phase env id workspace max_log_bytes worker (setup_commands_of options) prepared in
    emit (EventBody.worker_finished worker) (
      main_phase env id workspace max_log_bytes worker
        (build_setup_policy options).continue_after_setup_failure options.commands
        (first_setup_failure after_setup.setup_results) after_setup)

abbrev pub blocked_commands_of : ExternalCommandCheckOptions → List BlockedCommand
blocked_commands_of options =
    blocked_command_reports (setup_commands_of options) CommandPhase.setup
    ++ blocked_command_reports options.commands CommandPhase.main

-- All the work before the safety check: the log, the status so far and the workspace.
pub record Work : Type 0 where
  pub log : Log
  pub status : ExternalCheckStatus
  pub workspace_path : Option String

pub do_work : Env → ExternalCommandCheckOptions → List BlockedCommand → Log → Work
unfolding run_commands add_blocked
do_work env options [] log = record {
  log = run_commands env options log;
  status = ExternalCheckStatus.passed;
  workspace_path = some (env.workspace (env.resolve options.repo));
}
do_work env options (b ∷ bs) log = record {
  log = add_blocked (env.resolve options.repo) (run_id_of env options) env.now (b ∷ bs) log;
  status = ExternalCheckStatus.blocked;
  workspace_path = none;
}

abbrev pub opening : ExternalCommandCheckOptions → CliExitPolicy → SetupPolicy → List EventBody
opening options policy setup_policy =
    EventBody.task_received (length (setup_commands_of options)) (length options.commands)
      setup_policy
    ∷ EventBody.run_created policy setup_policy
    ∷ EventBody.route_selected
    ∷ []

-- The files that `writeArtifacts` marks, in its order.
abbrev packet_files : List EventBody
packet_files =
    EventBody.artifact_written "setup-results.json"
    ∷ EventBody.artifact_written "command-results.json"
    ∷ EventBody.artifact_written "safety-report.json"
    ∷ EventBody.artifact_written "metrics.json"
    ∷ EventBody.artifact_written "trajectory.json"
    ∷ EventBody.artifact_written "run.json"
    ∷ EventBody.artifact_written "summary.md"
    ∷ []

abbrev before_snapshot : WorkspaceFileSnapshot ⊎ String → Option WorkspaceFileSnapshot
before_snapshot (inl snapshot) = some snapshot
before_snapshot (inr error) = none

pub record CheckRun : Type 0 where
  pub result : ExternalCommandCheckResult
  pub events : List Event
  pub change_summary : WorkspaceChangeSummary

-- From the safety check to the return.
pub finish : Env → ExternalCommandCheckOptions → Work → CheckRun
finish env options work =
    let policy = or_else options.exit_policy CliExitPolicy.packet in
    let checking = emit EventBody.safety_check_started work.log in
    let verdict = mutation_verdict_for env.original_before env.original_after in
    let status =
      final_status work.status work.log.setup_results work.log.command_results verdict
        (build_setup_policy options).continue_after_setup_failure in
    let exit_code = cli_exit_code_for policy status in
    let ended =
      emit_all
        (EventBody.safety_check_finished checking.event_counter verdict
          ∷ (packet_files ++ EventBody.summary_written ∷ EventBody.run_finished status ∷ []))
        checking in
    record {
      result = record {
        run_id = run_id_of env options;
        status = status;
        repo_path = env.resolve options.repo;
        workspace_path = work.workspace_path;
        cli_exit_policy = policy;
        cli_exit_code = exit_code;
        setup_results = work.log.setup_results;
        command_results = work.log.command_results;
        safety_report =
            build_safety_report options (run_id_of env options) policy exit_code env.original_before
              env.original_after verdict work.workspace_path (blocked_commands_of options);
      };
      events = ended.events;
      change_summary =
          compute_workspace_change_summary work.workspace_path (before_snapshot env.snapshot_before)
            env.snapshot_after;
    }

-- The log once the first events are emitted.
abbrev pub opened : ExternalCommandCheckOptions → Log
opened options =
    emit_all
      (opening options (or_else options.exit_policy CliExitPolicy.packet)
        (build_setup_policy options))
      start_log

abbrev pub run_valid : Env → ExternalCommandCheckOptions → Option CheckError → CheckError ⊎ CheckRun
run_valid env options (some error) = inl error
run_valid env options none =
    inr (finish env options (do_work env options (blocked_commands_of options) (opened options)))

abbrev pub first_error : Option CheckError → Option CheckError → Option CheckError
first_error none e = e
first_error (some e) _ = some e

unfoldable pub run_external_command_check :
    Env → ExternalCommandCheckOptions → CheckError ⊎ CheckRun
unfolding validate_options assert_directory
run_external_command_check env options = run_valid env options (
    first_error (validate_options options) (assert_directory (env.kind (env.resolve options.repo))))
