-- ===== src/Check/Run/Outcome.antt =====
-- The outcome of a whole check, from the processes that its commands become.
use run_forge.Common.{
  ℕ, ◌≡◌, ◌≢◌, refl, sym, ◌∙◌, ap, ◌↔◌, Bool, true, false, ◌||◌, Option, none, some, List, [], ◌∷◌,
  String, if◌then◌else◌, inr, arith,
}
use run_forge.Check.{
  ExternalCheckStatus, CommandPhase, CliExitPolicy, ExternalCommandCheckOptions, BlockedCommand,
}
use run_forge.Check.Status.{is_changed, is_blocked_check, final_status, cli_exit_code_for}
use run_forge.Check.Status.Laws.{all_passed, none_failed, final_status-passed_iff}
use run_forge.Check.Exec.{ProcessOutcome}
use run_forge.Check.Git.{mutation_verdict_for}
use run_forge.Check.Report.{build_setup_policy, setup_commands_of}
use run_forge.Check.Options.{CheckError}
use run_forge.Check.Log.{Log, emit_all, start_log, emit}
use run_forge.Check.Run.{
  Env, CheckRun, Work, run_commands, do_work, finish, blocked_commands_of,
  run_external_command_check, opened, run_valid,
}
use run_forge.Check.Run.Laws.{emit_all-results}
use run_forge.Check.Run.Summary.{all_pass, run_commands-summary}

run_valid-completed :
    (env : Env) (options : ExternalCommandCheckOptions) (e : Option CheckError) (run : CheckRun)
    → run_valid env options e ≡ inr run
    → run ≡ finish env options (do_work env options (blocked_commands_of options) (opened options))
run_valid-completed env options (some e) run h = absurd (cc)
run_valid-completed env options none run h = cc

-- A check that returns has had valid options and a directory.
pub completed :
    (env : Env) (options : ExternalCommandCheckOptions) (run : CheckRun)
    → run_external_command_check env options ≡ inr run
    → run ≡ finish env options (do_work env options (blocked_commands_of options) (opened options))
unfolding run_external_command_check
completed env options run h = run_valid-completed env options _ run h

opened-results :
    (options : ExternalCommandCheckOptions)
    → ((opened options).setup_results ≡ []) × ((opened options).command_results ≡ [])
opened-results options = emit_all-results _ start_log

-- The status that the last steps give to what was done.
finish-status :
    (env : Env) (options : ExternalCommandCheckOptions) (work : Work)
    → (finish env options work).result.status
      ≡ final_status work.status work.log.setup_results work.log.command_results
          (mutation_verdict_for env.original_before env.original_after)
          (build_setup_policy options).continue_after_setup_failure
unfolding finish emit emit_all
finish-status env options work = refl

do_work-nil :
    (env : Env) (options : ExternalCommandCheckOptions) (log : Log)
    → let w = do_work env options [] log in
      (w.status ≡ ExternalCheckStatus.passed) × (w.log ≡ run_commands env options log)
unfolding do_work
do_work-nil env options log = (refl, refl)

-- A check that refuses none of its commands passes exactly when the repository is not seen to have
-- changed, every setup process passes and every main process passes: each ran without an error, in
-- time, and exited with 0.
pub run_external_command_check-passed_iff :
    (env : Env) (options : ExternalCommandCheckOptions) (run : CheckRun)
    → run_external_command_check env options ≡ inr run
    → blocked_commands_of options ≡ []
    → (run.result.status ≡ ExternalCheckStatus.passed) ↔ (
        (is_changed (mutation_verdict_for env.original_before env.original_after) ≡ false)
        × (all_pass env CommandPhase.setup 0 (setup_commands_of options) ≡ true)
        × (all_pass env CommandPhase.main 0 options.commands ≡ true))
run_external_command_check-passed_iff env options run h clear = (to, from)
  where
    policy : Bool
    policy = (build_setup_policy options).continue_after_setup_failure

    log : Log
    log = run_commands env options (opened options)

    status_eq :
        run.result.status
        ≡ final_status ExternalCheckStatus.passed log.setup_results log.command_results
            (mutation_verdict_for env.original_before env.original_after)
            policy
    status_eq =
        let w = do_work env options [] (opened options) in
        let (s, l) = do_work-nil env options (opened options) in
        ap (λ r. r.result.status) (completed env options run h)
        ∙ ap (λ bs. (finish env options (do_work env options bs (opened options))).result.status)
            clear
        ∙ finish-status env options w
        ∙ rw (s, l)

    summary :
        (all_passed log.setup_results
          ≡ all_pass env CommandPhase.setup 0 (setup_commands_of options))
        × (none_failed log.command_results ≡ (
            if all_pass env CommandPhase.setup 0 (setup_commands_of options) || policy
            then all_pass env CommandPhase.main 0 options.commands
            else true))
    summary =
        let (s, c) = opened-results options in run_commands-summary env options (opened options) s c

    final :
        (final_status ExternalCheckStatus.passed log.setup_results log.command_results
            (mutation_verdict_for env.original_before env.original_after)
            policy
          ≡ ExternalCheckStatus.passed)
        ↔ ((is_changed (mutation_verdict_for env.original_before env.original_after) ≡ false)
            × (is_blocked_check ExternalCheckStatus.passed ≡ false)
            × (all_passed log.setup_results ≡ true)
            × (none_failed log.command_results ≡ true))
    final = final_status-passed_iff _ _ _ _ _

    to :
        run.result.status ≡ ExternalCheckStatus.passed
        → (is_changed (mutation_verdict_for env.original_before env.original_after) ≡ false)
          × (all_pass env CommandPhase.setup 0 (setup_commands_of options) ≡ true)
          × (all_pass env CommandPhase.main 0 options.commands ≡ true)
    to st =
        let (u, b, s, m) = final.0 (sym status_eq ∙ st) in
        let ok = sym summary.0 ∙ s in (u, ok, sym (summary.1 ∙ rw ok) ∙ m)

    from :
        (is_changed (mutation_verdict_for env.original_before env.original_after) ≡ false)
          × (all_pass env CommandPhase.setup 0 (setup_commands_of options) ≡ true)
          × (all_pass env CommandPhase.main 0 options.commands ≡ true)
        → run.result.status ≡ ExternalCheckStatus.passed
    from (u, s, m) = status_eq ∙ final.1 (u, refl, summary.0 ∙ s, summary.1 ∙ rw s m)

module _ (env : Env) (options : ExternalCommandCheckOptions)
    (process : CommandPhase → ℕ → String → ProcessOutcome) where
  abbrev other : Env
  other = record env { process = process }

  finish-other :
      (bs : List BlockedCommand) (log : Log)
      → bs ≢ []
      → finish other options (do_work other options bs log)
        ≡ finish env options (do_work env options bs log)
  unfolding finish do_work
  finish-other [] log h = absurd (h refl)
  finish-other (b ∷ bs) log h = refl

  run_valid-other :
      (e : Option CheckError)
      → blocked_commands_of options ≢ []
      → run_valid other options e ≡ run_valid env options e
  run_valid-other (some e) h = refl
  run_valid-other none h = ap inr (finish-other (blocked_commands_of options) (opened options) h)

finish-blocked :
    (env : Env) (options : ExternalCommandCheckOptions) (bs : List BlockedCommand) (log : Log)
    → bs ≢ []
    → ((finish env options (do_work env options bs log)).result.status ≢ ExternalCheckStatus.passed)
      × ((finish env options (do_work env options bs log)).result.workspace_path ≡ none)
unfolding finish do_work
finish-blocked env options [] log h = absurd (h refl)
finish-blocked env options (b ∷ bs) log h = (
  λ e. let (_, p, _, _) = (final_status-passed_iff ExternalCheckStatus.blocked _ _ _ _).0 e in cc,
  refl,
)

-- A check that refuses a command runs none at all: its outcome is the same whatever the commands
-- would have done, it never passes, and no workspace is prepared.
pub run_external_command_check-blocked :
    (env : Env) (options : ExternalCommandCheckOptions) (run : CheckRun)
    (process : CommandPhase → ℕ → String → ProcessOutcome)
    → run_external_command_check env options ≡ inr run
    → blocked_commands_of options ≢ []
    → (run_external_command_check (record env { process = process }) options ≡ inr run)
      × (run.result.status ≢ ExternalCheckStatus.passed)
      × (run.result.workspace_path ≡ none)
unfolding run_external_command_check
run_external_command_check-blocked env options run process h some_blocked =
    let (p, q) = finish-blocked env options _ (opened options) some_blocked in
    let done = completed env options run h in
    (run_valid-other env options process _ some_blocked ∙ h, rw done p, rw done q)

exit_zero-passed :
    (status : ExternalCheckStatus)
    → cli_exit_code_for CliExitPolicy.command_status status ≡ 0
    → status ≡ ExternalCheckStatus.passed
unfolding cli_exit_code_for
exit_zero-passed status e = ground arith

passed-exit_zero : cli_exit_code_for CliExitPolicy.command_status ExternalCheckStatus.passed ≡ 0
unfolding cli_exit_code_for
passed-exit_zero = refl

finish-exit_code :
    (env : Env) (options : ExternalCommandCheckOptions) (work : Work) (run : CheckRun)
    → run ≡ finish env options work
    → options.exit_policy ≡ some CliExitPolicy.command_status
    → run.result.cli_exit_code ≡ cli_exit_code_for CliExitPolicy.command_status run.result.status
unfolding finish
finish-exit_code env options work run done policy = rw (done, policy)

-- Under the policy `command-status` a check that refuses nothing exits with 0 exactly when the
-- repository is not seen to have changed and every process passes.
pub run_external_command_check-exit_zero_iff :
    (env : Env) (options : ExternalCommandCheckOptions) (run : CheckRun)
    → run_external_command_check env options ≡ inr run
    → blocked_commands_of options ≡ []
    → options.exit_policy ≡ some CliExitPolicy.command_status
    → (run.result.cli_exit_code ≡ 0) ↔ (
        (is_changed (mutation_verdict_for env.original_before env.original_after) ≡ false)
        × (all_pass env CommandPhase.setup 0 (setup_commands_of options) ≡ true)
        × (all_pass env CommandPhase.main 0 options.commands ≡ true))
run_external_command_check-exit_zero_iff env options run h clear policy =
    (λ e. final.0 (passed_of (sym code ∙ e)), λ all. code ∙ rw (final.1 all) passed-exit_zero)
  where
    final : (run.result.status ≡ ExternalCheckStatus.passed) ↔ (
        (is_changed (mutation_verdict_for env.original_before env.original_after) ≡ false)
        × (all_pass env CommandPhase.setup 0 (setup_commands_of options) ≡ true)
        × (all_pass env CommandPhase.main 0 options.commands ≡ true))
    final = run_external_command_check-passed_iff env options run h clear

    code :
        run.result.cli_exit_code ≡ cli_exit_code_for CliExitPolicy.command_status run.result.status
    code = finish-exit_code env options _ run (completed env options run h) policy

    passed_of :
        cli_exit_code_for CliExitPolicy.command_status run.result.status ≡ 0
        → run.result.status ≡ ExternalCheckStatus.passed
    passed_of e = exit_zero-passed run.result.status e
