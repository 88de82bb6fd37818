-- ===== src/Check/Tests.antt =====
-- A check of two commands with a setup command, a check that is refused, and the parts by themselves.
use run_forge.Common.{
  ℕ, ◌≡◌, ◌≢◌, refl, ◌↔◌, true, false, not, ◌&&◌, none, some, List, [], ◌∷◌, String, inl, inr,
  arith, is_some,
}
use run_forge.Common.Regex.{test}
use run_forge.CommandSafety.{command_reason}
use run_forge.Check.{
  ExternalCheckStatus, CommandPhase, CliExitPolicy, ExternalCommandCheckOptions, GitSnapshot,
}
use run_forge.Check.Status.{is_changed, blocked_command_reports}
use run_forge.Check.Exec.{ProcessOutcome, new_writer, write_all}
use run_forge.Check.Exec.Laws.{Keeps, concat, write_all-new_writer}
use run_forge.Check.Git.{
  WorkspaceFileEntry, WorkspaceFileSnapshot, get, diff_workspace_snapshots, mutation_verdict_for,
}
use run_forge.Check.Git.Laws.{contains, changed, diff_workspace_snapshots-contains}
use run_forge.Check.Report.{setup_commands_of}
use run_forge.Check.Options.{PathKind}
use run_forge.Check.Run.{
  Env, CheckRun, blocked_commands_of, do_work, finish, opened, run_external_command_check,
}
use run_forge.Check.Run.Summary.{all_pass}
use run_forge.Check.Run.Outcome.{
  run_external_command_check-passed_iff, run_external_command_check-blocked,
  run_external_command_check-exit_zero_iff,
}
use run_forge.Check.Run.Events.{NumberedFrom, run_external_command_check-numbered}

abbrev clean : GitSnapshot
clean = record { head = some "abc"; status = some ""; error = none }

abbrev exits : ℕ → ProcessOutcome
exits code = record {
  spawn_error = false;
  timed_out = false;
  exit_code = some code;
  signal = none;
  stdout_chunks = (b'o' ∷ b'k' ∷ []) ∷ [];
  stderr_chunks = [];
  started_at = 10;
  finished_at = 30;
}

abbrev machine : Env
machine = record {
  new_run_id = "r1";
  resolve = λ path. path;
  kind = λ path. PathKind.directory;
  original_before = clean;
  original_after = clean;
  workspace = λ path. "/tmp/w";
  snapshot_before = inl [];
  snapshot_after = inl [];
  process = λ phase index command. exits 0;
  now = 40;
}

abbrev options_for : List String → ExternalCommandCheckOptions
options_for commands = record {
  repo = "/repo";
  setup_commands = some ("pnpm i" ∷ []);
  setup_network_intent = none;
  continue_after_setup_failure = none;
  commands = commands;
  out = none;
  timeout_ms = none;
  max_log_bytes = none;
  run_id = none;
  exit_policy = some CliExitPolicy.command_status;
}

abbrev plain : ExternalCommandCheckOptions
plain = options_for ("make" ∷ "make t" ∷ [])

abbrev pushing : ExternalCommandCheckOptions
pushing = options_for ("git push" ∷ [])

abbrev run_of : ExternalCommandCheckOptions → CheckRun
run_of options =
    finish machine options (do_work machine options (blocked_commands_of options) (opened options))

plain_returns : run_external_command_check machine plain ≡ inr (run_of plain)
unfolding run_external_command_check
plain_returns = refl

pushing_returns : run_external_command_check machine pushing ≡ inr (run_of pushing)
unfolding run_external_command_check
pushing_returns = refl

plain_clear : blocked_commands_of plain ≡ []
unfolding blocked_command_reports command_reason test
plain_clear = refl

pushing_blocked : blocked_commands_of pushing ≢ []
unfolding blocked_command_reports command_reason test
pushing_blocked e = cc e

plain_passes : (run_of plain).result.status ≡ ExternalCheckStatus.passed
plain_passes =
    (run_external_command_check-passed_iff machine plain (run_of plain) plain_returns plain_clear).1
      (unfold mutation_verdict_for all_pass in (refl, refl, refl))

run_external_command_check-passed_iff_example :
    ((run_of plain).result.status ≡ ExternalCheckStatus.passed) ↔ (
      (is_changed (mutation_verdict_for clean clean) ≡ false)
      × (all_pass machine CommandPhase.setup 0 (setup_commands_of plain) ≡ true)
      × (all_pass machine CommandPhase.main 0 plain.commands ≡ true))
run_external_command_check-passed_iff_example =
    run_external_command_check-passed_iff machine plain (run_of plain) plain_returns plain_clear

run_external_command_check-blocked_example :
    (run_external_command_check
        (record machine { process = λ phase index command. exits 1 })
        pushing
      ≡ inr (run_of pushing))
    × ((run_of pushing).result.status ≢ ExternalCheckStatus.passed)
    × ((run_of pushing).result.workspace_path ≡ none)
run_external_command_check-blocked_example =
    run_external_command_check-blocked machine pushing (run_of pushing)
      (λ phase index command. exits 1) pushing_returns pushing_blocked

run_external_command_check-exit_zero_iff_example : ((run_of plain).result.cli_exit_code ≡ 0) ↔ (
    (is_changed (mutation_verdict_for clean clean) ≡ false)
    × (all_pass machine CommandPhase.setup 0 (setup_commands_of plain) ≡ true)
    × (all_pass machine CommandPhase.main 0 plain.commands ≡ true))
run_external_command_check-exit_zero_iff_example =
    run_external_command_check-exit_zero_iff machine plain (run_of plain) plain_returns plain_clear
      refl

run_external_command_check-numbered_example : NumberedFrom 0 (run_of pushing).events
run_external_command_check-numbered_example =
    run_external_command_check-numbered machine pushing (run_of pushing) pushing_returns

abbrev output : List (List ℕ)
output = (1 ∷ 2 ∷ []) ∷ (3 ∷ 4 ∷ 5 ∷ []) ∷ (6 ∷ []) ∷ []

write_all-new_writer_example : Keeps 4 (concat output) (write_all 4 new_writer output)
write_all-new_writer_example = write_all-new_writer 4 output (omega arith)

abbrev entry : String → WorkspaceFileEntry
entry hash = record { size = 1; mtime_ms = 2; hash = hash }

abbrev old_files : WorkspaceFileSnapshot
old_files = ("a", entry "1") ∷ ("b", entry "2") ∷ []

abbrev new_files : WorkspaceFileSnapshot
new_files = ("c", entry "3") ∷ ("b", entry "4") ∷ []

diff_test :
    let d = diff_workspace_snapshots old_files new_files in
    (d.added ≡ "c" ∷ []) × (d.modified ≡ "b" ∷ []) × (d.deleted ≡ "a" ∷ [])
unfolding diff_workspace_snapshots
diff_test = (refl, refl, refl)

diff_workspace_snapshots-contains_example :
    (contains "b" (diff_workspace_snapshots old_files new_files).added
      ≡ (not (is_some (get "b" old_files)) && is_some (get "b" new_files)))
    × (contains "b" (diff_workspace_snapshots old_files new_files).deleted
        ≡ (not (is_some (get "b" new_files)) && is_some (get "b" old_files)))
    × (contains "b" (diff_workspace_snapshots old_files new_files).modified
        ≡ changed (get "b" old_files) (get "b" new_files))
unfolding get
diff_workspace_snapshots-contains_example =
    diff_workspace_snapshots-contains old_files new_files "b" (refl, (refl, tt))
