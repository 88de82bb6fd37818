-- ===== src/Check/Run/Summary.antt =====
-- What the results of the two phases say of the processes that the commands become.
use run_forge.Common.{
  ℕ, ◌+◌, ◌≡◌, refl, ◌∙◌, ap, Bool, true, not, ◌||◌, ◌&&◌, List, [], ◌∷◌, ◌++◌, String,
  if◌then◌else◌, or_else, is_some, arith,
}
use run_forge.Check.{CommandPhase, ExternalCommandCheckOptions}
use run_forge.Check.Status.{is_passed, first_setup_failure}
use run_forge.Check.Status.Laws.{all_passed, none_failed}
use run_forge.Check.Exec.{status_of}
use run_forge.Check.Report.{build_setup_policy, setup_commands_of}
use run_forge.Check.Log.{Log, emit}
use run_forge.Check.Run.{
  Env, result_of, run_commands, prepare_events, run_id_of, default_max_log_bytes, setup_phase,
  main_phase,
}
use run_forge.Check.Run.Laws.{
  upto_failure, results_from, all_passed-upto_failure, emit_all-results, setup_phase-results,
  main_phase-results, first_setup_failure-all_passed,
}

-- Every process of the commands passes, the first of them being the one numbered `done + 1`.
unfoldable pub all_pass : Env → CommandPhase → ℕ → List String → Bool
unfolding status_of
all_pass env phase done [] = true
all_pass env phase done (command ∷ commands) =
    is_passed (status_of (env.process phase (done + 1) command))
    && all_pass env phase (done + 1) commands

module _ (env : Env) (run_id cwd : String) (max_log_bytes worker : ℕ) (phase : CommandPhase) where
  all_passed-results_from :
      (done : ℕ) (commands : List String)
      → all_passed (results_from env run_id cwd max_log_bytes worker phase done commands)
        ≡ all_pass env phase done commands
  unfolding results_from all_pass result_of
  all_passed-results_from done [] = refl
  all_passed-results_from done (command ∷ commands) =
      ground (arith, all_passed-results_from (done + 1) commands)

  none_failed-results_from :
      (done : ℕ) (commands : List String)
      → none_failed (results_from env run_id cwd max_log_bytes worker phase done commands)
        ≡ all_pass env phase done commands
  unfolding results_from all_pass result_of
  none_failed-results_from done [] = refl
  none_failed-results_from done (command ∷ commands) =
      ground (arith, none_failed-results_from (done + 1) commands)

module _ (env : Env) (run_id cwd : String) (max_log_bytes worker : ℕ) (continue_after : Bool)
    (setups mains : List String) (log : Log) (no_setup : log.setup_results ≡ [])
    (no_main : log.command_results ≡ []) where
  abbrev after_setup : Log
  after_setup = setup_phase env run_id cwd max_log_bytes worker setups log

  abbrev after_main : Log
  after_main =
      main_phase env run_id cwd max_log_bytes worker continue_after mains
        (first_setup_failure after_setup.setup_results) after_setup

  all_passed-after_setup :
      all_passed after_setup.setup_results ≡ all_pass env CommandPhase.setup 0 setups
  all_passed-after_setup =
      let (e, _) = setup_phase-results env run_id cwd max_log_bytes worker setups log in
      let ran = results_from env run_id cwd max_log_bytes worker CommandPhase.setup 0 setups in
      let kept = e ∙ ap (λ rs. rs ++ upto_failure ran) no_setup in
      ap all_passed kept
      ∙ all_passed-upto_failure ran
      ∙ all_passed-results_from env run_id cwd max_log_bytes worker CommandPhase.setup 0 setups

  -- The setup results are final, and the main commands run if setup passed or in diagnostic mode.
  phases-summary :
      (all_passed after_main.setup_results ≡ all_pass env CommandPhase.setup 0 setups)
      × (none_failed after_main.command_results ≡ (
          if all_pass env CommandPhase.setup 0 setups || continue_after
          then all_pass env CommandPhase.main 0 mains
          else true))
  phases-summary =
      let failure = first_setup_failure after_setup.setup_results in
      let (_, c0) = setup_phase-results env run_id cwd max_log_bytes worker setups log in
      let (m, k) =
        main_phase-results env run_id cwd max_log_bytes worker continue_after mains failure
          after_setup in
      let ran = results_from env run_id cwd max_log_bytes worker CommandPhase.main 0 mains in
      let f = first_setup_failure-all_passed after_setup.setup_results in
      let n =
        none_failed-results_from env run_id cwd max_log_bytes worker CommandPhase.main 0 mains in
      let e =
        m
        ∙ ap (λ rs. rs ++ (if not (is_some failure) || continue_after then ran else []))
            (c0 ∙ no_main) in
      (
        ap all_passed k ∙ all_passed-after_setup,
        rw e (ground (arith, f, all_passed-after_setup, n)),
      )

-- Of a run in which nothing is blocked.
pub run_commands-summary :
    (env : Env) (options : ExternalCommandCheckOptions) (log : Log)
    → log.setup_results ≡ []
    → log.command_results ≡ []
    → let setup = all_pass env CommandPhase.setup 0 (setup_commands_of options) in
      let log' = run_commands env options log in
      (all_passed log'.setup_results ≡ setup)
      × (none_failed log'.command_results ≡ (
          if setup || (build_setup_policy options).continue_after_setup_failure
          then all_pass env CommandPhase.main 0 options.commands
          else true))
unfolding run_commands emit
run_commands-summary env options log s c =
    let (e, k) = emit_all-results (prepare_events env options) log in
    phases-summary env (run_id_of env options) (env.workspace (env.resolve options.repo))
      (or_else options.max_log_bytes default_max_log_bytes) _
      (build_setup_policy options).continue_after_setup_failure (setup_commands_of options)
      options.commands _ (e ∙ s) (k ∙ c)
