-- ===== src/Gdb/Run.antt =====
-- What can happen to a GdbInstance, in any order.
use mcu_debug.Prelude.{ℕ, ◌+◌, ◌==◌, if◌then◌else◌, Option, none, some, List, [], ◌∷◌}
use mcu_debug.Mi.Chars.{Text}
use mcu_debug.Gdb.State.{Process, Books, GdbInstance}
use mcu_debug.Gdb.Books.{
  send_command, send_user_input, resume_queue, expire, stop, disable_queue_processing,
  enable_queue_processing,
}
use mcu_debug.Gdb.Output.{
  handle_stdout_data, handle_stderr_data, handle_stdout_close, handle_stderr_close, handle_exit,
}

pub data Step : Type 0 where
  -- the process is there
  start : Process → Step
  -- a caller, by its number, sends a command with a timeout
  send user_input : ℕ → Text → ℕ → Step
  -- the loop of the queue goes on, if what it waits for is settled
  go_on : Step
  -- the timer of a token fires
  timer : ℕ → Step
  -- a chunk of bytes
  stdout stderr : List ℕ → Step
  stdout_closed stderr_closed stopping hold release : Step
  -- what `stop` put in the place of handleExit only forgets the process
  exit : Option ℕ → Option Text → Step

abbrev on_books : (Books → Books) → GdbInstance → GdbInstance
on_books change g = record g { books = change g.books }

unfoldable pub step : Step → GdbInstance → GdbInstance
step (start p) g = on_books (λ b. record b { process = some p }) g
step (send id command timeout) g = on_books (send_command id command timeout) g
step (user_input id command timeout) g = on_books (send_user_input id command timeout) g
step go_on g = on_books (λ b. resume_queue b.awaiting b.settled b) g
step (timer seq) g = on_books (expire seq) g
step (stdout data_bytes) g = handle_stdout_data data_bytes g
step (stderr data_bytes) g = handle_stderr_data data_bytes g
step stdout_closed g = handle_stdout_close g
step stderr_closed g = handle_stderr_close g
step stopping g = on_books stop g
step hold g = on_books disable_queue_processing g
step release g = on_books enable_queue_processing g
step (exit code signal) g =
    if g.books.session_ending
    then on_books (λ b. record b { process = none }) g
    else handle_exit code signal g

unfoldable pub run : List Step → GdbInstance → GdbInstance
run [] g = g
run (s ∷ steps) g = run steps (step s g)

-- How often a caller sends a command in a step, and in a sequence of steps.
abbrev pub asks : Step → ℕ → ℕ
asks (send caller command timeout) id = if caller == id then 1 else 0
asks (user_input caller command timeout) id = if caller == id then 1 else 0
asks _ id = 0

abbrev pub asked : ℕ → List Step → ℕ
asked id [] = 0
asked id (s ∷ steps) = asks s id + asked id steps
