-- ===== src/Control.antt =====
-- The control plane's tasks, ControlTaskRecord of src/control-plane/contracts.ts, as far as a restart reads
-- and changes them; times are milliseconds.
pub mod Recovery
mod Tests
use run_forge.Common.{ℕ, Option, List, String}

pub data ControlTaskStatus : Type 0 where
  queued running awaiting_owner_decision continuing completed failed interrupted : ControlTaskStatus

pub data WorkerStatus : Type 0 where
  idle starting active slow finished failed lost stalled cancelled revoked : WorkerStatus

pub record TaskProgress : Type 0 where
  pub phase : String
  pub updated_at : ℕ
  pub last_heartbeat_at : Option ℕ
  pub execution_id : Option String
  pub attempt : Option ℕ
  pub worker_status : WorkerStatus
  pub diagnostic : Option String

pub record TaskRecovery : Type 0 where
  pub reason : String
  pub last_phase : String
  pub last_heartbeat_at : Option ℕ
  pub original_execution_id : Option String

pub data LeaseState : Type 0 where
  active revoked finished : LeaseState

pub record ExecutionLease : Type 0 where
  pub execution_id : String
  pub state : LeaseState
  pub revoked_at : Option ℕ
  pub cleanup_deadline_at : Option ℕ

pub record Execution : Type 0 where
  pub attempt : ℕ
  pub lease : Option ExecutionLease

pub record TaskEvent : Type 0 where
  pub type : String
  pub detail : Option String

-- A task of an older version lacks its events, its progress, its execution or its recovery.
pub record ControlTask : Type 0 where
  pub status : ControlTaskStatus
  pub updated_at : ℕ
  pub events : Option (List TaskEvent)
  pub progress : Option TaskProgress
  pub execution : Option Execution
  pub recovery : Option TaskRecovery

pub record JournalEvent : Type 0 where
  pub type : String
  pub detail : Option String
  pub execution_id : Option String

-- The result that is published for a task that was interrupted: whose it is, and its recovery.
pub record PublishedResult : Type 0 where
  pub execution_id : String
  pub recovery : TaskRecovery

-- The files of one task: its state, its journal and its published result.
pub record Saved : Type 0 where
  pub task : ControlTask
  pub journal : List JournalEvent
  pub published : Option PublishedResult
