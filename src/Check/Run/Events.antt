-- ===== src/Check/Run/Events.antt =====
-- The events of a check are numbered from 1, in order, with no number left out or used twice.
use run_forge.Common.{
  ℕ, ◌+◌, ◌≡◌, refl, Bool, true, false, Option, none, some, List, [], ◌∷◌, ◌++◌, String, inl, inr,
  arith, Bool-cases, length, length-append,
}
use run_forge.Check.{ExternalCommandCheckOptions, CommandPhase, CommandResult, BlockedCommand}
use run_forge.Check.Status.{is_passed}
use run_forge.Check.Log.{Event, EventBody, Log, emit, emit_all, add_result, add_blocked, start_log}
use run_forge.Check.Run.{
  Env, Work, CheckRun, result_of, run_command, run_setup, run_main, setup_phase, main_phase,
  do_work, finish, run_external_command_check,
}
use run_forge.Check.Run.Outcome.{completed}

-- The events are numbered from `n + 1` on.
abbrev pub NumberedFrom : ℕ → List Event → Type 0
NumberedFrom n [] = Unit
NumberedFrom n (e ∷ es) = (e.event_id ≡ n + 1) × NumberedFrom (n + 1) es

record Consistent (log : Log) : Type 0 where
  numbered : NumberedFrom 0 log.events
  counted : log.event_counter ≡ length log.events

NumberedFrom-concat :
    (n : ℕ) (es : List Event) (e : Event)
    → NumberedFrom n es
    → e.event_id ≡ n + length es + 1
    → NumberedFrom n (es ++ e ∷ [])
NumberedFrom-concat n [] e h k = (omega arith, tt)
NumberedFrom-concat n (x ∷ es) e (p, h) k = (p, NumberedFrom-concat (n + 1) es e h (omega arith))

emit-Consistent : (body : EventBody) (log : Log) → Consistent log → Consistent (emit body log)
unfolding emit
emit-Consistent body log c = record {
  numbered = NumberedFrom-concat 0 log.events _ c.numbered (omega (arith, c.counted));
  counted = omega (arith, c.counted, length-append {0} log.events);
}

emit_all-Consistent :
    (bodies : List EventBody) (log : Log) → Consistent log → Consistent (emit_all bodies log)
unfolding emit_all
emit_all-Consistent [] log c = c
emit_all-Consistent (body ∷ bodies) log c =
    emit_all-Consistent bodies (emit body log) (emit-Consistent body log c)

add_result-Consistent :
    (r : CommandResult) (log : Log) → Consistent log → Consistent (add_result r log)
add_result-Consistent r log c = go r.phase
  where
    go :
        (phase : CommandPhase)
        → Consistent (elim phase [
          | CommandPhase.setup ↦ record log { setup_results = log.setup_results ++ r ∷ [] }
          | CommandPhase.main ↦ record log { command_results = log.command_results ++ r ∷ [] }
        ])
    go CommandPhase.setup = record { numbered = c.numbered; counted = c.counted }
    go CommandPhase.main = record { numbered = c.numbered; counted = c.counted }

add_blocked-Consistent :
    (repo run_id : String) (now : ℕ) (bs : List BlockedCommand) (log : Log)
    → Consistent log
    → Consistent (add_blocked repo run_id now bs log)
unfolding add_blocked
add_blocked-Consistent repo run_id now [] log c = c
add_blocked-Consistent repo run_id now (b ∷ bs) log c =
    add_blocked-Consistent repo run_id now bs _
      (emit_all-Consistent _ _ (add_result-Consistent _ log c))

module _ (env : Env) (run_id cwd : String) (max_log_bytes worker : ℕ) where
  run_command-Consistent :
      (phase : CommandPhase) (index : ℕ) (command : String) (log : Log)
      → Consistent log
      → Consistent (run_command env run_id cwd max_log_bytes worker phase index command log)
  unfolding run_command
  run_command-Consistent phase index command log c =
      emit_all-Consistent _ _ (add_result-Consistent _ _ (emit-Consistent _ log c))

  run_setup-Consistent :
      (done : ℕ) (commands : List String) (log : Log)
      → Consistent log
      → Consistent (run_setup env run_id cwd max_log_bytes worker done commands log)
  unfolding run_setup
  run_setup-Consistent done [] log c = c
  run_setup-Consistent done (command ∷ commands) log c =
      let c' = run_command-Consistent CommandPhase.setup (done + 1) command log c in
      elim (Bool-cases (
        is_passed
          (result_of env run_id cwd max_log_bytes worker CommandPhase.setup (done + 1)
            command).status)) [
              | inl e ↦ rw e (run_setup-Consistent (done + 1) commands _ c')
              | inr e ↦ rw e c'
            ]

  run_main-Consistent :
      (done : ℕ) (commands : List String) (log : Log)
      → Consistent log
      → Consistent (run_main env run_id cwd max_log_bytes worker done commands log)
  unfolding run_main
  run_main-Consistent done [] log c = c
  run_main-Consistent done (command ∷ commands) log c =
      run_main-Consistent (done + 1) commands _
        (run_command-Consistent CommandPhase.main (done + 1) command log c)

  setup_phase-Consistent :
      (commands : List String) (log : Log)
      → Consistent log
      → Consistent (setup_phase env run_id cwd max_log_bytes worker commands log)
  unfolding setup_phase
  setup_phase-Consistent [] log c = c
  setup_phase-Consistent (command ∷ commands) log c =
      emit-Consistent _ _ (run_setup-Consistent 0 (command ∷ commands) _ (emit-Consistent _ log c))

  main_phase-Consistent :
      (continue_after : Bool) (commands : List String) (failure : Option CommandResult) (log : Log)
      → Consistent log
      → Consistent
          (main_phase env run_id cwd max_log_bytes worker continue_after commands failure log)
  unfolding main_phase
  main_phase-Consistent continue_after commands none log c = run_main-Consistent 0 commands log c
  main_phase-Consistent true commands (some failure) log c =
      run_main-Consistent 0 commands _ (emit-Consistent _ log c)
  main_phase-Consistent false commands (some failure) log c = emit-Consistent _ log c

do_work-Consistent :
    (env : Env) (options : ExternalCommandCheckOptions) (bs : List BlockedCommand) (log : Log)
    → Consistent log
    → Consistent (do_work env options bs log).log
unfolding do_work
do_work-Consistent env options [] log c = emit-Consistent _ _ (
    main_phase-Consistent env _ _ _ _ _ _ _ _
      (setup_phase-Consistent env _ _ _ _ _ _ (emit_all-Consistent _ log c)))
do_work-Consistent env options (b ∷ bs) log c = add_blocked-Consistent _ _ _ (b ∷ bs) log c

finish-numbered :
    (env : Env) (options : ExternalCommandCheckOptions) (work : Work)
    → Consistent work.log
    → NumberedFrom 0 (finish env options work).events
unfolding finish
finish-numbered env options work c =
    (emit_all-Consistent _ _ (emit-Consistent EventBody.safety_check_started work.log c)).numbered

-- The events that a check returns are numbered 1, 2, 3 and so on, whatever its commands do and
-- whether or not it refuses some of them.
pub run_external_command_check-numbered :
    (env : Env) (options : ExternalCommandCheckOptions) (run : CheckRun)
    → run_external_command_check env options ≡ inr run
    → NumberedFrom 0 run.events
run_external_command_check-numbered env options run h = rw (completed env options run h) (
    finish-numbered env options _
      (do_work-Consistent env options _ _ (emit_all-Consistent _ start_log start)))
  where
    start : Consistent start_log
    start = record { numbered = tt; counted = refl }
