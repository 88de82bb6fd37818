-- ===== src/Check/Run/Laws.antt =====
-- What the two loops of a check run, and when a check passes.
use run_forge.Common.{
  ℕ, ◌+◌, ◌≡◌, refl, sym, ◌∙◌, Bool, true, false, not, ◌||◌, Option, none, some, List, [], ◌∷◌,
  ◌++◌, String, if◌then◌else◌, length, is_some, inl, inr, arith, Bool-cases,
}
use mathlib.Core.List.{append-nil, append_assoc}
use run_forge.Check.{CommandPhase, CommandResult}
use run_forge.Check.Status.{is_passed, first_setup_failure}
use run_forge.Check.Status.Laws.{all_passed}
use run_forge.Check.Log.{Log, EventBody, emit, emit_all}
use run_forge.Check.Run.{Env, result_of, run_command, run_setup, run_main, setup_phase, main_phase}

-- The results up to the first that did not pass.
abbrev pub upto_failure : List CommandResult → List CommandResult
upto_failure [] = []
upto_failure (r ∷ rs) =
    let rest = upto_failure rs in if is_passed r.status then r ∷ rest else r ∷ []

pub all_passed-upto_failure :
    (rs : List CommandResult) → all_passed (upto_failure rs) ≡ all_passed rs
all_passed-upto_failure [] = refl
all_passed-upto_failure (r ∷ rs) = ground (arith, all_passed-upto_failure rs)

pub emit_all-results :
    (bodies : List EventBody) (log : Log)
    → ((emit_all bodies log).setup_results ≡ log.setup_results)
      × ((emit_all bodies log).command_results ≡ log.command_results)
unfolding emit_all
emit_all-results [] log = (refl, refl)
emit_all-results (body ∷ bodies) log = emit_all-results bodies (emit body log)

then_append :
    (a b : List CommandResult) (r : CommandResult) {c : List CommandResult}
    → c ≡ a ++ r ∷ []
    → c ++ b ≡ a ++ r ∷ b
then_append a b r e = rw e (append_assoc a (r ∷ []) b)

module _ (env : Env) (run_id cwd : String) (max_log_bytes worker : ℕ) where
  -- The results of the commands from the one numbered `done + 1`, were they all run.
  unfoldable pub results_from : CommandPhase → ℕ → List String → List CommandResult
  results_from phase done [] = []
  results_from phase done (command ∷ commands) =
      result_of env run_id cwd max_log_bytes worker phase (done + 1) command
      ∷ results_from phase (done + 1) commands

  run_command-setup :
      (done : ℕ) (command : String) (log : Log)
      → let log' =
          run_command env run_id cwd max_log_bytes worker CommandPhase.setup done command log in
        (log'.setup_results
          ≡ log.setup_results
            ++ result_of env run_id cwd max_log_bytes worker CommandPhase.setup done command ∷ [])
        × (log'.command_results ≡ log.command_results)
  unfolding run_command emit emit_all
  run_command-setup done command log = (refl, refl)

  run_command-main :
      (done : ℕ) (command : String) (log : Log)
      → let log' =
          run_command env run_id cwd max_log_bytes worker CommandPhase.main done command log in
        (log'.command_results
          ≡ log.command_results
            ++ result_of env run_id cwd max_log_bytes worker CommandPhase.main done command ∷ [])
        × (log'.setup_results ≡ log.setup_results)
  unfolding run_command emit emit_all
  run_command-main done command log = (refl, refl)

  -- The setup loop stops after the first command that does not pass.
  pub run_setup-results :
      (done : ℕ) (commands : List String) (log : Log)
      → let log' = run_setup env run_id cwd max_log_bytes worker done commands log in
        (log'.setup_results
          ≡ log.setup_results ++ upto_failure (results_from CommandPhase.setup done commands))
        × (log'.command_results ≡ log.command_results)
  unfolding run_setup results_from
  run_setup-results done [] log = (sym (append-nil _), refl)
  run_setup-results done (command ∷ commands) log =
      let r = result_of env run_id cwd max_log_bytes worker CommandPhase.setup (done + 1) command in
      let log' =
        run_command env run_id cwd max_log_bytes worker CommandPhase.setup (done + 1) command log in
      let (here, kept) = run_command-setup (done + 1) command log in
      let (there, still) = run_setup-results (done + 1) commands log' in
      elim (Bool-cases (is_passed r.status)) [
        | inl e ↦ rw e (there ∙ then_append log.setup_results _ _ here, still ∙ kept)
        | inr e ↦ rw e (here, kept)
      ]

  -- The main loop runs every command.
  pub run_main-results :
      (done : ℕ) (commands : List String) (log : Log)
      → let log' = run_main env run_id cwd max_log_bytes worker done commands log in
        (log'.command_results ≡ log.command_results ++ results_from CommandPhase.main done commands)
        × (log'.setup_results ≡ log.setup_results)
  unfolding run_main results_from
  run_main-results done [] log = (sym (append-nil _), refl)
  run_main-results done (command ∷ commands) log =
      let log' =
        run_command env run_id cwd max_log_bytes worker CommandPhase.main (done + 1) command log in
      let (here, kept) = run_command-main (done + 1) command log in
      let (there, still) = run_main-results (done + 1) commands log' in
      (there ∙ then_append log.command_results _ _ here, still ∙ kept)

  pub setup_phase-results :
      (commands : List String) (log : Log)
      → let log' = setup_phase env run_id cwd max_log_bytes worker commands log in
        (log'.setup_results
          ≡ log.setup_results ++ upto_failure (results_from CommandPhase.setup 0 commands))
        × (log'.command_results ≡ log.command_results)
  unfolding setup_phase results_from emit
  setup_phase-results [] log = (sym (append-nil _), refl)
  setup_phase-results (command ∷ commands) log =
      run_setup-results 0 (command ∷ commands)
        (emit (EventBody.setup_started worker (length (command ∷ commands))) log)

  -- After a setup failure the main commands run only in diagnostic mode.
  pub main_phase-results :
      (continue_after : Bool) (commands : List String) (failure : Option CommandResult) (log : Log)
      → let log' =
          main_phase env run_id cwd max_log_bytes worker continue_after commands failure log in
        (log'.command_results
          ≡ log.command_results
            ++ (if not (is_some failure) || continue_after
                then results_from CommandPhase.main 0 commands
                else []))
        × (log'.setup_results ≡ log.setup_results)
  unfolding main_phase emit
  main_phase-results continue_after commands none log = run_main-results 0 commands log
  main_phase-results true commands (some failure) log = run_main-results 0 commands _
  main_phase-results false commands (some failure) log = (sym (append-nil _), refl)

pub first_setup_failure-all_passed :
    (rs : List CommandResult) → is_some (first_setup_failure rs) ≡ not (all_passed rs)
unfolding first_setup_failure
first_setup_failure-all_passed [] = refl
first_setup_failure-all_passed (r ∷ rs) = ground (arith, first_setup_failure-all_passed rs)
