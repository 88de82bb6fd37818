-- ===== src/Control/Recovery.antt =====
-- `recoverInterruptedTasks` of src/control-plane/state.ts: what a restart makes of each task and its journal.
pub mod Laws
use run_forge.Common.{
  ℕ, Bool, true, false, not, ◌&&◌, ◌||◌, Option, none, some, List, [], ◌∷◌, ◌++◌, map, String,
  if◌then◌else◌, any, or_else, is_some, str_eq,
}
use run_forge.Common.Text.{◌+++◌}
use run_forge.Control.{
  ControlTaskStatus, WorkerStatus, TaskProgress, TaskRecovery, LeaseState, ExecutionLease,
  Execution, TaskEvent, ControlTask, JournalEvent, PublishedResult, Saved,
}

abbrev pub is_in_flight : ControlTaskStatus → Bool
is_in_flight ControlTaskStatus.queued = true
is_in_flight ControlTaskStatus.running = true
is_in_flight ControlTaskStatus.continuing = true
is_in_flight ControlTaskStatus.awaiting_owner_decision = false
is_in_flight ControlTaskStatus.completed = false
is_in_flight ControlTaskStatus.failed = false
is_in_flight ControlTaskStatus.interrupted = false

abbrev pub is_terminal : ControlTaskStatus → Bool
is_terminal ControlTaskStatus.completed = true
is_terminal ControlTaskStatus.failed = true
is_terminal ControlTaskStatus.queued = false
is_terminal ControlTaskStatus.running = false
is_terminal ControlTaskStatus.continuing = false
is_terminal ControlTaskStatus.awaiting_owner_decision = false
is_terminal ControlTaskStatus.interrupted = false

abbrev pub is_interrupted : ControlTaskStatus → Bool
is_interrupted ControlTaskStatus.interrupted = true
is_interrupted ControlTaskStatus.completed = false
is_interrupted ControlTaskStatus.failed = false
is_interrupted ControlTaskStatus.queued = false
is_interrupted ControlTaskStatus.running = false
is_interrupted ControlTaskStatus.continuing = false
is_interrupted ControlTaskStatus.awaiting_owner_decision = false

abbrev status_text : ControlTaskStatus → String
status_text ControlTaskStatus.queued = "queued"
status_text ControlTaskStatus.running = "running"
status_text ControlTaskStatus.continuing = "continuing"
status_text ControlTaskStatus.awaiting_owner_decision = "awaiting_owner_decision"
status_text ControlTaskStatus.completed = "completed"
status_text ControlTaskStatus.failed = "failed"
status_text ControlTaskStatus.interrupted = "interrupted"

abbrev same_execution : Option String → Option String → Bool
same_execution none none = true
same_execution none (some b) = false
same_execution (some a) none = false
same_execution (some a) (some b) = str_eq a b

abbrev has_type : List String → JournalEvent → Bool
has_type types e = any (λ t. str_eq e.type t) types

-- The last interruption in the journal, and what follows it.
unfoldable pub last_interrupted : List JournalEvent → Option (JournalEvent × List JournalEvent)
last_interrupted [] = none
last_interrupted (e ∷ es) = elim (last_interrupted es) [
  | some found ↦ some found
  | none ↦ if str_eq e.type "task_interrupted" then some (e, es) else none
]

abbrev replacement_started : JournalEvent → List JournalEvent → Bool
replacement_started last after =
    any
      (λ e.
        has_type ("retry_requested" ∷ "task_started" ∷ "continuation_started" ∷ []) e
        && not (same_execution e.execution_id last.execution_id))
      after

unfoldable pub late_terminal : ControlTaskStatus → Option (JournalEvent × List JournalEvent) → Bool
late_terminal status none = false
late_terminal status (some (last, after)) =
    is_terminal status
    && not (replacement_started last after)
    && any
        (λ e.
          has_type ("task_completed" ∷ "task_failed" ∷ []) e
          && same_execution e.execution_id last.execution_id)
        after

unfoldable pub journal_open : Option (JournalEvent × List JournalEvent) → Bool
journal_open none = false
journal_open (some (last, after)) = not (
    any (has_type ("task_started" ∷ "continuation_started" ∷ "task_completed" ∷ "task_failed" ∷ []))
      after)

unfoldable pub journal_wins : ControlTaskStatus → Option (JournalEvent × List JournalEvent) → Bool
journal_wins status last = late_terminal status last || (is_in_flight status && journal_open last)

pub reason_of : ControlTask → Option (JournalEvent × List JournalEvent) → Bool → String
reason_of task (some (last, after)) true = or_else last.detail "journal_reconstruction"
reason_of task none true = "journal_reconstruction"
reason_of task last false =
    if is_in_flight task.status
    then "service_restart"
    else elim task.recovery [ some r ↦ r.reason | none ↦ "service_restart" ]

abbrev fallback_progress : ℕ → TaskProgress
fallback_progress now = record {
  phase = "unknown";
  updated_at = now;
  last_heartbeat_at = some now;
  execution_id = none;
  attempt = some 1;
  worker_status = WorkerStatus.lost;
  diagnostic = none;
}

-- `task.progress?.attempt ?? task.execution?.attempt ?? 1`
pub attempt_of : Option TaskProgress → Option Execution → ℕ
attempt_of none none = 1
attempt_of none (some x) = x.attempt
attempt_of (some p) none = or_else p.attempt 1
attempt_of (some p) (some x) = or_else p.attempt x.attempt

abbrev pub lost_progress : ℕ → ControlTask → TaskProgress
unfolding attempt_of
lost_progress now task = record (or_else task.progress (fallback_progress now)) {
  attempt = some (attempt_of task.progress task.execution);
  updated_at = now;
  worker_status = WorkerStatus.lost;
  diagnostic = some "Worker identity was lost during control-plane restart.";
}

abbrev revoke : ℕ → ExecutionLease → ExecutionLease
revoke now lease = record lease {
  state = LeaseState.revoked;
  revoked_at = some (or_else lease.revoked_at now);
  cleanup_deadline_at = some now;
}

pub revoke_lease : ℕ → Option ExecutionLease → Option ExecutionLease
revoke_lease now none = none
revoke_lease now (some lease) = some (revoke now lease)

pub revoked_execution : ℕ → ControlTask → Execution
unfolding revoke_lease attempt_of
revoked_execution now task =
    let x =
      or_else task.execution
        (record { attempt = attempt_of task.progress task.execution; lease = none }) in
    record x { lease = revoke_lease now x.lease }

abbrev recovery_of : String → TaskProgress → TaskRecovery
recovery_of reason p = record {
  reason = reason;
  last_phase = p.phase;
  last_heartbeat_at = p.last_heartbeat_at;
  original_execution_id = p.execution_id;
}

abbrev pub when {ℓ} : {A : Type ℓ} → Bool → A → List A
when true x = x ∷ []
when false x = []

-- The task events and the journal events that the recovery adds.
pub new_events : ControlTaskStatus → Option (JournalEvent × List JournalEvent) → List TaskEvent
unfolding late_terminal
new_events status last =
    when (is_in_flight status) (record { type = "recovered_interrupted"; detail = none })
    ++ when (late_terminal status last) (record {
      type = "late_worker_terminal_ignored";
      detail = some (
          "Ignored "
          +++ status_text status
          +++ " from revoked execution "
          +++ elim last [ none ↦ "unknown" | some (e, after) ↦ or_else e.execution_id "unknown" ]
          +++ ".");
    })

pub new_journal :
    ControlTaskStatus
    → Option (JournalEvent × List JournalEvent)
    → String
    → Option String
    → List JournalEvent
unfolding late_terminal journal_wins
new_journal status last reason execution_id =
    when (is_in_flight status && not (journal_wins status last))
      (record { type = "task_interrupted"; detail = some reason; execution_id = execution_id })
    ++ when (late_terminal status last) (record {
      type = "late_worker_terminal_ignored";
      detail = some reason;
      execution_id = execution_id;
    })

unfoldable pub interrupt : ℕ → Option (JournalEvent × List JournalEvent) → Saved → Saved
unfolding new_events new_journal reason_of revoked_execution
interrupt now last s =
    let task = s.task in
    let reason = reason_of task last (journal_wins task.status last) in
    let progress = lost_progress now task in
    let recovery = recovery_of reason progress in
    record {
      task = record {
        status = ControlTaskStatus.interrupted;
        updated_at = now;
        events = some (or_else task.events [] ++ new_events task.status last);
        progress = some progress;
        execution = some (revoked_execution now task);
        recovery = some recovery;
      };
      journal = s.journal ++ new_journal task.status last reason progress.execution_id;
      published =
          some (record {
            execution_id = or_else progress.execution_id "unknown";
            recovery = recovery;
          });
    }

-- One round of the loop.
unfoldable pub recover_task : ℕ → Saved → Saved
recover_task now s =
    let last = last_interrupted s.journal in
    if journal_wins s.task.status last || is_in_flight s.task.status || is_interrupted s.task.status
    then interrupt now last s
    else s

unfoldable pub recover_interrupted_tasks : ℕ → List Saved → List Saved
unfolding recover_task
recover_interrupted_tasks now = map (recover_task now)
