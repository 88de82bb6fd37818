-- ===== src/Check/Exec.antt =====
-- src/run/external-command-check-exec.ts: one command run in a shell, with its output kept up to a limit.
-- The process is the environment's: `ProcessOutcome` is what the events of a child process say of it.
pub mod Laws
use run_forge.Common.{
  ℕ, ◌+◌, ◌-◌, Bool, true, false, Option, none, some, List, [], ◌∷◌, ◌++◌, String, if◌then◌else◌,
  leb, ltb, ◌==◌, length, take,
}
use run_forge.Check.{CommandStatus, CommandPhase, CommandResult}
use run_forge.Check.Status.{log_path}

pub record ProcessOutcome : Type 0 where
  pub spawn_error : Bool
  pub timed_out : Bool
  pub exit_code : Option ℕ
  pub signal : Option String
  -- The chunks of bytes that the two pipes deliver.
  pub stdout_chunks : List (List ℕ)
  pub stderr_chunks : List (List ℕ)
  pub started_at : ℕ
  pub finished_at : ℕ

-- `createLimitedLogWriter`: what the stream has been given, and the two counters.
pub record LogWriter : Type 0 where
  pub written : List ℕ
  pub bytes_written : ℕ
  pub truncated : Bool

abbrev pub new_writer : LogWriter
new_writer = record { written = []; bytes_written = 0; truncated = false }

pub write : ℕ → LogWriter → List ℕ → LogWriter
write max_bytes w chunk =
    if leb max_bytes w.bytes_written
    then record w { truncated = true }
    else (let remaining = max_bytes - w.bytes_written in
        let slice = if ltb remaining (length chunk) then take remaining chunk else chunk in
        record {
          written = w.written ++ slice;
          bytes_written = w.bytes_written + length slice;
          truncated = if ltb (length slice) (length chunk) then true else w.truncated;
        })

pub write_all : ℕ → LogWriter → List (List ℕ) → LogWriter
write_all max_bytes w [] = w
write_all max_bytes w (chunk ∷ chunks) = write_all max_bytes (write max_bytes w chunk) chunks

abbrev exited_with_zero : Option ℕ → Bool
exited_with_zero none = false
exited_with_zero (some code) = code == 0

unfoldable pub status_of : ProcessOutcome → CommandStatus
status_of p =
    if p.spawn_error
    then CommandStatus.error
    else if p.timed_out
    then CommandStatus.timed_out
    else if exited_with_zero p.exit_code
    then CommandStatus.passed
    else CommandStatus.failed

-- The process `p` that the command started, read by `runOneCommand`.
unfoldable pub run_one_command :
    String → CommandPhase → ℕ → String → String → ℕ → ProcessOutcome → CommandResult
unfolding write write_all status_of
run_one_command command_id phase index command cwd max_log_bytes p =
    let stdout = write_all max_log_bytes new_writer p.stdout_chunks in
    let stderr = write_all max_log_bytes new_writer p.stderr_chunks in
    record {
      command_id = command_id;
      phase = phase;
      index = index;
      command = command;
      cwd = cwd;
      started_at = p.started_at;
      finished_at = p.finished_at;
      duration_ms = p.finished_at - p.started_at;
      status = status_of p;
      exit_code = p.exit_code;
      signal = p.signal;
      timed_out = p.timed_out;
      stdout_path = log_path phase index "stdout";
      stderr_path = log_path phase index "stderr";
      stdout_bytes = stdout.bytes_written;
      stderr_bytes = stderr.bytes_written;
      stdout_truncated = stdout.truncated;
      stderr_truncated = stderr.truncated;
      block_reason = none;
    }
