-- ===== src/Check/Log.antt =====
-- The events and the results that `runExternalCommandCheck` of src/run/external-command-check.ts
-- collects, and its loop over the blocked commands.
use run_forge.Common.{ℕ, ◌+◌, List, [], ◌∷◌, ◌++◌, String}
use run_forge.Check.{
  ExternalCheckStatus, CommandStatus, CommandPhase, MutationVerdict, CliExitPolicy, CommandResult,
  SetupPolicy, BlockedCommand,
}
use run_forge.Check.Status.{blocked_result, SetupPhaseStatus}

pub data EventBody : Type 0 where
  task_received : ℕ → ℕ → SetupPolicy → EventBody
  run_created : CliExitPolicy → SetupPolicy → EventBody
  route_selected : EventBody
  workspace_snapshot_failed : String → String → EventBody
  workspace_prepared : String → EventBody
  worker_started : EventBody
  setup_started : ℕ → ℕ → EventBody
  command_started : ℕ → CommandPhase → ℕ → String → EventBody
  command_finished : ℕ → CommandPhase → ℕ → String → CommandStatus → EventBody
  setup_finished : ℕ → SetupPhaseStatus → ℕ → EventBody
  setup_skipped_main_commands : ℕ → CommandStatus → ℕ → EventBody
  setup_diagnostic_main_commands_started : ℕ → CommandStatus → ℕ → EventBody
  worker_finished : ℕ → EventBody
  artifact_written : String → EventBody
  safety_check_started : EventBody
  safety_check_finished : ℕ → MutationVerdict → EventBody
  summary_written : EventBody
  run_finished : ExternalCheckStatus → EventBody

pub record Event : Type 0 where
  pub event_id : ℕ
  pub body : EventBody

-- The variables that the run changes.
pub record Log : Type 0 where
  pub event_counter : ℕ
  pub events : List Event
  pub setup_results : List CommandResult
  pub command_results : List CommandResult

abbrev pub start_log : Log
start_log = record { event_counter = 0; events = []; setup_results = []; command_results = [] }

unfoldable pub emit : EventBody → Log → Log
emit body log = record log {
  event_counter = log.event_counter + 1;
  events = log.events ++ record { event_id = log.event_counter + 1; body = body } ∷ [];
}

unfoldable pub emit_all : List EventBody → Log → Log
unfolding emit
emit_all [] log = log
emit_all (body ∷ bodies) log = emit_all bodies (emit body log)

abbrev pub add_result : CommandResult → Log → Log
add_result r log = elim r.phase [
  | CommandPhase.setup ↦ record log { setup_results = log.setup_results ++ r ∷ [] }
  | CommandPhase.main ↦ record log { command_results = log.command_results ++ r ∷ [] }
]

-- `markArtifact` for the two log files of a result.
abbrev pub mark_logs : CommandResult → List EventBody
mark_logs r =
    EventBody.artifact_written r.stdout_path ∷ EventBody.artifact_written r.stderr_path ∷ []

-- The loop over the blocked commands.
unfoldable pub add_blocked : String → String → ℕ → List BlockedCommand → Log → Log
unfolding blocked_result
add_blocked repo run_id now [] log = log
add_blocked repo run_id now (b ∷ bs) log =
    let r = blocked_result b repo run_id now in
    add_blocked repo run_id now bs (emit_all (mark_logs r) (add_result r log))
