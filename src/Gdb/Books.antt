-- ===== src/Gdb/Books.antt =====
-- `sendCommand`, the queue, the timers and `stop` up to its wait for the end of the process.
use mcu_debug.Prelude.{
  ℕ, ◌+◌, true, false, ◌&&◌, not, Option, none, some, List, [], ◌∷◌, ◌++◌, ◌==◌, ltb, if◌then◌else◌,
  codes,
}
use mcu_debug.Mi.Chars.{Text, starts}
use mcu_debug.Mi.Keys.{decimal}
use mcu_debug.Gdb.State.{
  stopping, not_running, timer_expired, write_failed, Outcome, rejected, Owner, caller, loop,
  Pending, Item, Process, Books,
}

-- A token is a key of the map once, so only its first entry is looked at.
unfoldable pub find_pending : ℕ → List Pending → Option Pending
find_pending seq [] = none
find_pending seq (p ∷ ps) =
    let later = find_pending seq ps in if p.seq == seq then some p else later

unfoldable pub delete_pending : ℕ → List Pending → List Pending
delete_pending seq [] = []
delete_pending seq (p ∷ ps) =
    let rest = delete_pending seq ps in if p.seq == seq then ps else p ∷ rest

unfoldable pub set_pending : Pending → List Pending → List Pending
set_pending new [] = new ∷ []
set_pending new (p ∷ ps) =
    let rest = set_pending new ps in if p.seq == new.seq then new ∷ ps else p ∷ rest

-- The `resolve` or `reject` of a promise.
unfoldable pub settle_owner : Owner → Outcome → Books → Books
settle_owner (caller id) outcome b = record b { answers = (id, outcome) ∷ b.answers }
settle_owner loop outcome b = record b { settled = some outcome }

abbrev pub with_dash : Text → Text
with_dash command = if starts b'-' command then command else b'-' ∷ command

-- The process whose streams can be used.
unfoldable pub usable : Books → Option Process
usable b = elim b.process [
  | none ↦ none
  | some p ↦ if p.writable && p.readable && not b.session_ending then some p else none
]

abbrev pub write_line : ℕ → Text → Books → Books
write_line seq command b = record b { written = (decimal seq ++ command ++ b'\n' ∷ []) ∷ b.written }

-- `stdin.write`, which takes the command back where it throws.
unfoldable pub write_command : Owner → ℕ → Text → Option Text → Books → Books
write_command owner seq command none b = write_line seq command b
write_command owner seq command (some e) b =
    settle_owner owner (rejected (write_failed e))
      (record b { pending_cmds = delete_pending seq b.pending_cmds })

unfoldable pub send_command_internal : Owner → Text → ℕ → Books → Books
send_command_internal owner command timeout b = elim (usable b) [
  | none ↦ settle_owner owner (rejected not_running) b
  | some p ↦
      let new : Pending = record {
        seq = b.cmd_seq;
        cmd = with_dash command;
        owner = owner;
        timed = ltb 0 timeout && not b.disable_timeouts;
      } in
      write_command owner b.cmd_seq (with_dash command) p.write_fails
        (record b { cmd_seq = b.cmd_seq + 1; pending_cmds = set_pending new b.pending_cmds })
]

-- The loop of `processCommandQueue` from its test up to the `await`.
unfoldable pub next_item : List Item → Books → Books
next_item [] b = record b { command_queue = []; is_processing = false }
next_item (item ∷ items) b =
    send_command_internal loop item.command item.timeout
      (record b { command_queue = items; awaiting = some item.id })

unfoldable pub process_command_queue : Books → Books
process_command_queue b =
    if b.is_processing then b else next_item b.command_queue (record b { is_processing = true })

-- The loop from the `await` on, once what it waits for is settled.
unfoldable pub resume_queue : Option ℕ → Option Outcome → Books → Books
resume_queue (some id) (some outcome) b =
    next_item b.command_queue
      (record b { awaiting = none; settled = none; answers = (id, outcome) ∷ b.answers })
resume_queue _ _ b = b

unfoldable pub send_command : ℕ → Text → ℕ → Books → Books
send_command id command timeout b =
    if b.queue_requests
    then process_command_queue (record b {
      command_queue =
          b.command_queue ++ record { id = id; command = command; timeout = timeout } ∷ [];
    })
    else send_command_internal (caller id) command timeout b

unfoldable pub send_user_input : ℕ → Text → ℕ → Books → Books
send_user_input id [] timeout b = send_command id (codes "interpreter-exec console \"\"") timeout b
send_user_input id (c ∷ s) timeout b =
    if c == b'-'
    then send_command id s timeout b
    else send_command id (codes "interpreter-exec console \"" ++ c ∷ s ++ codes "\"") timeout b

unfoldable pub disable_queue_processing : Books → Books
disable_queue_processing b = record b { queue_requests = false }

unfoldable pub enable_queue_processing : Books → Books
enable_queue_processing b = process_command_queue (record b { queue_requests = true })

unfoldable pub expire_found : ℕ → Option Pending → Books → Books
expire_found seq none b = b
expire_found seq (some p) b =
    if p.timed
    then settle_owner p.owner (rejected (timer_expired p.cmd))
        (record b { pending_cmds = delete_pending seq b.pending_cmds })
    else b

-- The timer of a command fires; a settled command has none.
unfoldable pub expire : ℕ → Books → Books
expire seq b = expire_found seq (find_pending seq b.pending_cmds) b

-- The loops of `stop` over the pending commands and over the queue.
unfoldable pub reject_pending : List Pending → Books → Books
reject_pending [] b = b
reject_pending (p ∷ ps) b = reject_pending ps (settle_owner p.owner (rejected stopping) b)

unfoldable pub reject_queue : List Item → Books → Books
reject_queue [] b = record b { command_queue = [] }
reject_queue (item ∷ items) b =
    reject_queue items (record b { answers = (item.id, rejected stopping) ∷ b.answers })

-- The number of the command is used up even where the write throws.
unfoldable pub write_exit : Option Text → Books → Books
write_exit none b = write_line b.cmd_seq (codes "-gdb-exit") (record b { cmd_seq = b.cmd_seq + 1 })
write_exit (some e) b = record b { cmd_seq = b.cmd_seq + 1 }

unfoldable pub stop_process : Option Process → Books → Books
stop_process none b = b
stop_process (some p) b =
    let left = record (reject_pending b.pending_cmds b) { pending_cmds = [] } in
    let ending = record (reject_queue left.command_queue left) { session_ending = true } in
    if p.writable then write_exit p.write_fails ending else ending

unfoldable pub stop : Books → Books
stop b = stop_process b.process b
