-- ===== src/Control/Recovery/Laws.antt =====
-- What a restart leaves of a task, and what a second restart changes.
use run_forge.Common.{
  ℕ, ◌≡◌, refl, sym, ap, ◌∙◌, Bool, true, false, ◌||◌, Option, none, some, List, [], ◌∷◌, ◌++◌,
  str_eq, inl, inr, Bool-cases, or_else, arith,
}
use run_forge.Control.{
  TaskProgress, ControlTaskStatus, interrupted, LeaseState, revoked, ExecutionLease, Execution,
  ControlTask, JournalEvent, Saved, TaskEvent, TaskRecovery,
}
use run_forge.Control.Recovery.{
  is_in_flight, is_interrupted, last_interrupted, late_terminal, journal_open, journal_wins,
  new_events, new_journal, interrupt, recover_task, revoke_lease, revoked_execution, reason_of,
  attempt_of, lost_progress,
}

late_terminal-interrupted :
    (last : Option (JournalEvent × List JournalEvent)) → late_terminal interrupted last ≡ false
unfolding late_terminal
late_terminal-interrupted none = refl
late_terminal-interrupted (some (last, after)) = refl

journal_wins-interrupted :
    (last : Option (JournalEvent × List JournalEvent)) → journal_wins interrupted last ≡ false
unfolding journal_wins
journal_wins-interrupted last = rw (late_terminal-interrupted last) refl

late_terminal-in_flight :
    (status : ControlTaskStatus) (last : Option (JournalEvent × List JournalEvent))
    → is_in_flight status ≡ true
    → late_terminal status last ≡ false
unfolding late_terminal
late_terminal-in_flight status none h = refl
late_terminal-in_flight ControlTaskStatus.queued (some l) h = refl
late_terminal-in_flight ControlTaskStatus.running (some l) h = refl
late_terminal-in_flight ControlTaskStatus.continuing (some l) h = refl
late_terminal-in_flight ControlTaskStatus.awaiting_owner_decision (some l) h = cc
late_terminal-in_flight ControlTaskStatus.completed (some l) h = cc
late_terminal-in_flight ControlTaskStatus.failed (some l) h = cc
late_terminal-in_flight ControlTaskStatus.interrupted (some l) h = cc

last_interrupted-append :
    (xs : List JournalEvent) (e : JournalEvent)
    → str_eq e.type "task_interrupted" ≡ true
    → last_interrupted (xs ++ e ∷ []) ≡ some (e, [])
unfolding last_interrupted
last_interrupted-append [] e h = rw h refl
last_interrupted-append (x ∷ xs) e h = rw (last_interrupted-append xs e h) refl

open_after :
    (xs : List JournalEvent) (e : JournalEvent)
    → str_eq e.type "task_interrupted" ≡ true
    → journal_open (last_interrupted (xs ++ e ∷ [])) ≡ true
unfolding journal_open
open_after xs e h = rw (last_interrupted-append xs e h) refl

append_nil : (xs : List JournalEvent) → xs ++ [] ≡ xs
append_nil [] = refl
append_nil (x ∷ xs) = ap (λ ys. x ∷ ys) (append_nil xs)

-- Each lease of the execution is revoked.
abbrev pub IsRevoked : Option Execution → Type 0
IsRevoked none = Unit {0}
IsRevoked (some x) = (lease : ExecutionLease) → x.lease ≡ some lease → lease.state ≡ revoked

pub record IsRestarted (before after : Saved) : Type 0 where
  -- No task is in flight.
  pub idle : is_in_flight after.task.status ≡ false
  -- An interrupted task holds no lease that is not revoked.
  pub lease : after.task.status ≡ interrupted → IsRevoked after.task.execution
  -- No task counts as completed or failed by an execution that was interrupted and not replaced.
  pub honest : late_terminal after.task.status (last_interrupted after.journal) ≡ false
  -- The journal of a task that was in flight ends in an interruption that no start or end follows.
  pub closed :
      is_in_flight before.task.status ≡ true → journal_open (last_interrupted after.journal) ≡ true

abbrev state_of : Option ExecutionLease → LeaseState
state_of none = revoked
state_of (some lease) = lease.state

revoke_lease-revoked :
    (now : ℕ) (o : Option ExecutionLease) (lease : ExecutionLease)
    → revoke_lease now o ≡ some lease
    → lease.state ≡ revoked
unfolding revoke_lease
revoke_lease-revoked now none lease e = cc
revoke_lease-revoked now (some l) lease e = ap (λ (o : Option ExecutionLease). state_of o) (sym e)

revoked_execution-IsRevoked :
    (now : ℕ) (task : ControlTask) → IsRevoked (some (revoked_execution now task))
unfolding revoked_execution
revoked_execution-IsRevoked now task lease e = revoke_lease-revoked now _ lease e

interrupt-closed :
    (now : ℕ) (s : Saved)
    → is_in_flight s.task.status ≡ true
    → journal_open (last_interrupted (interrupt now (last_interrupted s.journal) s).journal) ≡ true
unfolding interrupt new_journal journal_wins
interrupt-closed now s h =
    let late = late_terminal-in_flight s.task.status (last_interrupted s.journal) h in
    elim (Bool-cases (journal_open (last_interrupted s.journal))) [
      | inl free ↦ rw (h, late, free, append_nil s.journal) free
      | inr shut ↦ rw (h, late, shut) (open_after s.journal _ refl)
    ]

or_left : (a b : Bool) → (a || b) ≡ false → (a ≡ false) × (b ≡ false)
or_left a b h = ground (arith, h)

not_interrupted :
    (status : ControlTaskStatus)
    → is_interrupted status ≡ false
    → status ≡ interrupted
    → false ≡ true
not_interrupted status h e = sym h ∙ ap is_interrupted e

not_late :
    (status : ControlTaskStatus) (last : Option (JournalEvent × List JournalEvent))
    → journal_wins status last ≡ false
    → late_terminal status last ≡ false
unfolding journal_wins
not_late status last h = (or_left (late_terminal status last) _ h).0

interrupt-IsRestarted :
    (now : ℕ) (s : Saved) → IsRestarted s (interrupt now (last_interrupted s.journal) s)
unfolding interrupt
interrupt-IsRestarted now s = record {
  idle = refl;
  lease = λ e. revoked_execution-IsRevoked now s.task;
  honest = late_terminal-interrupted _;
  closed = interrupt-closed now s;
}

kept-IsRestarted :
    (s : Saved)
    → (journal_wins s.task.status (last_interrupted s.journal)
        || is_in_flight s.task.status
        || is_interrupted s.task.status)
      ≡ false
    → IsRestarted s s
kept-IsRestarted s fine =
    let wins_now = journal_wins s.task.status (last_interrupted s.journal) in
    let (running, other) =
      or_left (wins_now || is_in_flight s.task.status) (is_interrupted s.task.status) fine in
    let (wins, idle) = or_left wins_now (is_in_flight s.task.status) running in
    record {
      idle = idle;
      lease = λ e. let no = not_interrupted s.task.status other e in cc;
      honest = not_late s.task.status (last_interrupted s.journal) wins;
      closed = λ h. cc;
    }

-- A restart leaves no task in flight, no interrupted task with a lease in force, no task whose end is that
-- of an execution that was interrupted and not replaced; and an interruption closes the journal of each
-- task that was in flight.
pub recover_task-IsRestarted : (now : ℕ) (s : Saved) → IsRestarted s (recover_task now s)
unfolding recover_task
recover_task-IsRestarted now s =
    elim (Bool-cases (
      journal_wins s.task.status (last_interrupted s.journal)
      || is_in_flight s.task.status
      || is_interrupted s.task.status)) [
        | inl stale ↦ rw stale (interrupt-IsRestarted now s)
        | inr fine ↦ rw fine (kept-IsRestarted s fine)
      ]

-- What a restart keeps of the progress and of the lease: all but the time of the change and the deadline.
abbrev pub SameProgress : Option TaskProgress → Option TaskProgress → Type 0
SameProgress none none = Unit
SameProgress (some p) (some q) =
    (q.phase ≡ p.phase)
    × (q.last_heartbeat_at ≡ p.last_heartbeat_at)
    × (q.execution_id ≡ p.execution_id)
    × (q.attempt ≡ p.attempt)
    × (q.worker_status ≡ p.worker_status)
    × (q.diagnostic ≡ p.diagnostic)
SameProgress p q = ⊥

SameProgress-refl : (p : Option TaskProgress) → SameProgress p p
SameProgress-refl none = tt
SameProgress-refl (some p) = (refl, refl, refl, refl, refl, refl)

abbrev pub SameLease : Option ExecutionLease → Option ExecutionLease → Type 0
SameLease none none = Unit
SameLease (some a) (some b) =
    (b.execution_id ≡ a.execution_id) × (b.state ≡ a.state) × (b.revoked_at ≡ a.revoked_at)
SameLease a b = ⊥

SameLease-refl : (l : Option ExecutionLease) → SameLease l l
SameLease-refl none = tt
SameLease-refl (some l) = (refl, refl, refl)

abbrev pub SameExecution : Option Execution → Option Execution → Type 0
SameExecution none none = Unit
SameExecution (some x) (some y) = (y.attempt ≡ x.attempt) × SameLease x.lease y.lease
SameExecution x y = ⊥

SameExecution-refl : (x : Option Execution) → SameExecution x x
SameExecution-refl none = tt
SameExecution-refl (some x) = (refl, SameLease-refl x.lease)

revoke_lease-SameLease :
    (now later : ℕ) (l : Option ExecutionLease)
    → SameLease (revoke_lease now l) (revoke_lease later (revoke_lease now l))
unfolding revoke_lease
revoke_lease-SameLease now later none = tt
revoke_lease-SameLease now later (some l) = (refl, refl, refl)

-- The two agree but for the times of their last change and the cleanup deadlines of their leases.
pub record IsSame (a b : Saved) : Type 0 where
  pub status : b.task.status ≡ a.task.status
  pub events : or_else b.task.events [] ≡ or_else a.task.events []
  pub progress : SameProgress a.task.progress b.task.progress
  pub execution : SameExecution a.task.execution b.task.execution
  pub recovery : b.task.recovery ≡ a.task.recovery
  pub journal : b.journal ≡ a.journal
  pub published : b.published ≡ a.published

append_no_events : (xs : List TaskEvent) → xs ++ [] ≡ xs
append_no_events [] = refl
append_no_events (x ∷ xs) = ap (λ ys. x ∷ ys) (append_no_events xs)

-- A task that is interrupted already keeps its reason.
reason_again :
    (task : ControlTask) (found : Option (JournalEvent × List JournalEvent)) (r : TaskRecovery)
    → task.status ≡ interrupted
    → task.recovery ≡ some r
    → reason_of task found (journal_wins interrupted found) ≡ r.reason
unfolding reason_of
reason_again task none r s e = rw (journal_wins-interrupted none, s, e) refl
reason_again task (some l) r s e = rw (journal_wins-interrupted (some l), s, e) refl

interrupted_again :
    (later : ℕ) (s : Saved) (now : ℕ) (last found : Option (JournalEvent × List JournalEvent))
    → IsSame (interrupt now last s) (interrupt later found (interrupt now last s))
unfolding interrupt new_events new_journal lost_progress attempt_of revoked_execution
interrupted_again later s now last found =
    let late = late_terminal-interrupted found in
    record {
      status = refl;
      events = rw late (append_no_events _);
      progress = (refl, refl, refl, refl, refl, refl);
      execution = (refl, revoke_lease-SameLease now later _);
      recovery = rw (reason_again (interrupt now last s).task found _ refl refl) refl;
      journal = rw late (append_nil _);
      published = rw (reason_again (interrupt now last s).task found _ refl refl) refl;
    }

stale_again :
    (last : Option (JournalEvent × List JournalEvent))
    → (journal_wins interrupted last || is_in_flight interrupted || is_interrupted interrupted)
      ≡ true
stale_again last = rw (journal_wins-interrupted last) refl

recovered_again :
    (now later : ℕ) (s : Saved) (b : Bool)
    → (journal_wins s.task.status (last_interrupted s.journal)
        || is_in_flight s.task.status
        || is_interrupted s.task.status)
      ≡ b
    → IsSame (recover_task now s) (recover_task later (recover_task now s))
unfolding recover_task interrupt
recovered_again now later s true h =
    let first = interrupt now (last_interrupted s.journal) s in
    rw (h, stale_again (last_interrupted first.journal))
      (interrupted_again later s now (last_interrupted s.journal) (last_interrupted first.journal))
recovered_again now later s false h =
    rw (h, h)
      (record {
        status = refl;
        events = refl;
        progress = SameProgress-refl s.task.progress;
        execution = SameExecution-refl s.task.execution;
        recovery = refl;
        journal = refl;
        published = refl;
      })

-- A second restart keeps the status of a task, its events, its progress, its execution with its lease, its
-- recovery with its reason, its journal and its published result as the first left them, but for the
-- times at which the task and its progress were updated and the cleanup deadline of the lease.
pub recover_task-IsSame :
    (now later : ℕ) (s : Saved)
    → IsSame (recover_task now s) (recover_task later (recover_task now s))
recover_task-IsSame now later s = recovered_again now later s _ refl
