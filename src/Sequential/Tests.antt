-- ===== src/Sequential/Tests.antt =====
-- Runs of the queue of requests, and its theorems at concrete inputs.
use mcu_debug.Prelude.{false, true, some, [], ◌∷◌, ◌++◌, ◌≡◌, refl}
use mcu_debug.Sequential.{
  Request, next, other, dispatched, cancelled, Session, send_response, dispatch_request, exit_like,
  new_session, continue_like, enqueue, process_queue, loop, cancel_all, resolve,
}
use mcu_debug.Sequential.Fifo.{Run, start, arrive, handled, queued, handled-Run}
use mcu_debug.Sequential.Turns.{IsValid, Run-IsValid}
use mcu_debug.Sequential.Drain.{answer_each, answer_each-Run}

abbrev threads : Request
threads = record { seq = 1; command = other [] }

abbrev scopes : Request
scopes = record { seq = 2; command = other [] }

abbrev stepping : Request
stepping = record { seq = 3; command = next }

-- The first request is under way, and the second waits.
abbrev two_waiting : Session
two_waiting = record {
  request_queue = scopes ∷ [];
  is_processing = true;
  current = some (threads, false);
  exiting = false;
}

two_requests : Run (threads ∷ scopes ∷ []) (dispatched threads ∷ []) two_waiting
unfolding dispatch_request new_session exit_like continue_like enqueue process_queue loop
two_requests = arrive scopes (arrive threads start)

-- Stepping cancels what waits.
cancels : (dispatch_request stepping two_waiting).1 ≡ cancelled scopes ∷ []
unfolding dispatch_request exit_like continue_like enqueue process_queue loop cancel_all
    send_response resolve
cancels = refl

handled-Run_example :
    handled (dispatched threads ∷ []) ++ two_waiting.request_queue ≡ queued (threads ∷ scopes ∷ [])
handled-Run_example = handled-Run two_requests

Run-IsValid_example : IsValid two_waiting
Run-IsValid_example = Run-IsValid two_requests

answer_each-Run_example :
    let t = answer_each 2 two_waiting in
    (t.1 ≡ dispatched scopes ∷ []) × (t.0.request_queue ≡ []) × (t.0.is_processing ≡ false)
answer_each-Run_example = answer_each-Run two_requests refl
