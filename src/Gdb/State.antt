-- ===== src/Gdb/State.antt =====
-- The fields of GdbInstance, in groups by the operations that change them. Traces are left out.
use mcu_debug.Prelude.{ℕ, Bool, true, false, Option, none, List, []}
use mcu_debug.Mi.Chars.{Text}
use mcu_debug.Mi.Parser.{Value}
use mcu_debug.Mi.Record.{GdbMiRecord, GdbMiOutput}

-- The errors that a promise is rejected with.
pub data Failure : Type 0 where
  -- "GDB: " and the message
  gdb : Option Value → Failure
  stopping not_running : Failure
  timer_expired : Text → Failure
  write_failed : Text → Failure

pub data Outcome : Type 0 where
  resolved : GdbMiOutput → Outcome
  rejected : Failure → Outcome

-- Whose promise a pending command settles: that of a caller of `sendCommand`, by a number of its own,
-- or the one that the loop of `processCommandQueue` waits for.
pub data Owner : Type 0 where
  caller : ℕ → Owner
  loop : Owner

-- PendingCmdPromise, and whether its timer runs.
pub record Pending : Type 0 where
  pub seq : ℕ
  pub cmd : Text
  pub owner : Owner
  pub timed : Bool

-- CommandQueueItem, with the number of its caller.
pub record Item : Type 0 where
  pub id : ℕ
  pub command : Text
  pub timeout : ℕ

-- The child process as far as it is read: whether its streams are open, and what `write` throws.
pub record Process : Type 0 where
  pub writable : Bool
  pub readable : Bool
  pub write_fails : Option Text

-- The commands. `awaiting` is the item that the loop of the queue has sent and waits for, and
-- `settled` the outcome of that wait before the loop goes on. Both lists of what went out have the
-- newest first.
pub record Books : Type 0 where
  pub process : Option Process
  pub session_ending : Bool
  pub disable_timeouts : Bool
  pub queue_requests : Bool
  pub cmd_seq : ℕ
  pub pending_cmds : List Pending
  pub command_queue : List Item
  pub is_processing : Bool
  pub awaiting : Option ℕ
  pub settled : Option Outcome
  pub answers : List (ℕ × Outcome)
  pub written : List Text

pub data Status : Type 0 where
  running stopped no_status : Status

pub data RecordEvent : Type 0 where
  breakpoint watchpoint watchpoint_scope step_end step_out_end signal_stop exited_normally :
      RecordEvent
  thread_created thread_exited thread_selected generic_stopped : RecordEvent

-- The reason that goes out with the event for a stop.
pub data Reason : Type 0 where
  entry unknown : Reason
  given : Value → Reason

pub data Event : Type 0 where
  emitted : RecordEvent → GdbMiRecord → Event
  halted : GdbMiRecord → Reason → Event
  started_running connected : Event
  -- the log of the console, with the text of gdb
  console_text : Value → Event
  program_exited : Option Value → Event
  program_stopped : Event
  other_reason : Reason → Event
  no_pending : Option ℕ → Event
  stderr_line : Text → Event
  -- a TypeError that nothing catches, for which the adapter ends itself: no event after it goes out
  crashed : Event
  -- whether the end is unexpected, the exit code and the signal
  quit : Bool → Option ℕ → Option Text → Event

-- What is known of the target, the records kept for a later answer, and the events, newest first.
pub record Front : Type 0 where
  pub status : Status
  pub first_stop : Bool
  pub suppress_console_output : Bool
  pub current_outof_band_records : List GdbMiRecord
  pub events : List Event

pub record GdbInstance : Type 0 where
  pub books : Books
  pub front : Front
  pub stdout_buf : Text
  pub stderr_buf : Text

unfoldable pub new_gdb : GdbInstance
new_gdb = record {
  books = record {
    process = none;
    session_ending = false;
    disable_timeouts = false;
    queue_requests = true;
    cmd_seq = 1;
    pending_cmds = [];
    command_queue = [];
    is_processing = false;
    awaiting = none;
    settled = none;
    answers = [];
    written = [];
  };
  front = record {
    status = no_status;
    first_stop = true;
    suppress_console_output = false;
    current_outof_band_records = [];
    events = [];
  };
  stdout_buf = [];
  stderr_buf = [];
}
