-- ===== src/Control/Tests.antt =====
-- A task that was completed by an execution that had been interrupted, and a task that was running.
use run_forge.Common.{◌≡◌, refl, some, none, [], ◌∷◌, map}
use run_forge.Control.{ControlTaskStatus, WorkerStatus, LeaseState, ControlTask, Saved}
use run_forge.Control.Recovery.{
  journal_open, interrupt, recover_task, recover_interrupted_tasks, last_interrupted, journal_wins,
  late_terminal,
}
use run_forge.Control.Recovery.Laws.{
  IsRestarted, IsSame, recover_task-IsRestarted, recover_task-IsSame,
}

abbrev running_task : ControlTask
running_task = record {
  status = ControlTaskStatus.running;
  updated_at = 90;
  events = some [];
  progress = some (record {
    phase = "implementation";
    updated_at = 90;
    last_heartbeat_at = some 90;
    execution_id = some "exe_1";
    attempt = some 1;
    worker_status = WorkerStatus.active;
    diagnostic = none;
  });
  execution = some (record {
    attempt = 1;
    lease = some (record {
      execution_id = "exe_1";
      state = LeaseState.active;
      revoked_at = none;
      cleanup_deadline_at = none;
    });
  });
  recovery = none;
}

abbrev running_saved : Saved
running_saved = record { task = running_task; journal = []; published = none }

abbrev late_saved : Saved
late_saved = record {
  task = record running_task { status = ControlTaskStatus.completed };
  journal =
      record { type = "task_interrupted"; detail = some "cancelled"; execution_id = some "exe_1" }
      ∷ record { type = "task_completed"; detail = none; execution_id = some "exe_1" }
      ∷ [];
  published = none;
}

recovered_statuses :
    map
      (λ (s : Saved). s.task.status)
      (recover_interrupted_tasks 100 (running_saved ∷ late_saved ∷ []))
    ≡ ControlTaskStatus.interrupted ∷ ControlTaskStatus.interrupted ∷ []
unfolding recover_interrupted_tasks recover_task last_interrupted journal_wins late_terminal
    interrupt journal_open
recovered_statuses = refl

recover_task-IsRestarted_example : IsRestarted running_saved (recover_task 100 running_saved)
recover_task-IsRestarted_example = recover_task-IsRestarted 100 running_saved

recover_task-IsSame_example :
    IsSame (recover_task 100 late_saved) (recover_task 200 (recover_task 100 late_saved))
recover_task-IsSame_example = recover_task-IsSame 100 200 late_saved
