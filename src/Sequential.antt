-- ===== src/Sequential.antt =====
-- `SeqDebugSession` of packages/mcu-debug/src/adapter/seq-debug-session.ts: requests are handed on
-- one at a time. A call returns the new state and what went out. The promise of the request under
-- way is the request with a mark, true once the promise is resolved; the loop of `processQueue`
-- stops at its `await`, and `resume` is its continuation. What the parent class does with a request
-- shows only in the responses sent later: an exception of its `dispatchRequest` resolves the promise
-- as a response does.
pub mod Fifo
pub mod Turns
pub mod Drain
mod Tests
use mcu_debug.Prelude.{
  ℕ, Bool, true, false, ◌||◌, ◌==◌, if◌then◌else◌, Option, none, some, List, [], ◌∷◌, ◌++◌, ◌≡◌,
}

-- The commands that the two sets name, and all others.
pub data Command : Type 0 where
  disconnect terminate exit continue next step_in step_out goto : Command
  other : List ℕ → Command

pub record Request : Type 0 where
  pub seq : ℕ
  pub command : Command

pub data Output : Type 0 where
  -- the request goes to the parent class past the queue
  direct : Request → Output
  -- the request goes to the parent class from the queue
  dispatched : Request → Output
  -- the response "cancelled" goes out
  cancelled : Request → Output

pub record Session : Type 0 where
  pub request_queue : List Request
  pub is_processing : Bool
  pub current : Option (Request × Bool)
  pub exiting : Bool

unfoldable pub new_session : Session
new_session = record { request_queue = []; is_processing = false; current = none; exiting = false }

unfoldable pub exit_like : Command → Bool
exit_like disconnect = true
exit_like terminate = true
exit_like exit = true
exit_like _ = false

unfoldable pub continue_like : Command → Bool
continue_like continue = true
continue_like next = true
continue_like step_in = true
continue_like step_out = true
continue_like goto = true
continue_like _ = false

-- A response resolves the promise of the request under way if its number is that of the request.
unfoldable pub resolve : ℕ → Option (Request × Bool) → Option (Request × Bool)
resolve request_seq none = none
resolve request_seq (some (request, resolved)) =
    some (request, resolved || request_seq == request.seq)

unfoldable pub send_response : ℕ → Session → Session
send_response request_seq s = record s { current = resolve request_seq s.current }

unfoldable pub cancel_all : List Request → Session → Session × List Output
cancel_all [] s = (s, [])
cancel_all (req ∷ rest) s =
    let (s', out) = cancel_all rest (send_response req.seq s) in (s', cancelled req ∷ out)

-- The loop of `processQueue`, up to its next `await` or its end, for a given queue.
unfoldable pub loop : List Request → Session → Session × List Output
loop [] s = (record s { request_queue = []; is_processing = false }, [])
loop (request ∷ rest) s =
    if s.exiting
    then (record s { request_queue = request ∷ rest; is_processing = false }, [])
    else (
      record s { request_queue = rest; current = some (request, false) },
      dispatched request ∷ [],
    )

unfoldable pub process_queue : Session → Session × List Output
process_queue s =
    if s.is_processing then (s, []) else loop s.request_queue (record s { is_processing = true })

-- What follows the `await`, once the promise is resolved.
unfoldable pub resume_with : Option (Request × Bool) → Session → Session × List Output
resume_with none s = (s, [])
resume_with (some (request, false)) s = (s, [])
resume_with (some (request, true)) s = loop s.request_queue (record s { current = none })

unfoldable pub resume : Session → Session × List Output
resume s = resume_with s.current s

unfoldable pub enqueue : Request → Session → Session × List Output
enqueue request s = process_queue (record s { request_queue = s.request_queue ++ request ∷ [] })

unfoldable pub dispatch_request : Request → Session → Session × List Output
dispatch_request request s =
    if exit_like request.command
    then (record s { exiting = true }, direct request ∷ [])
    else (if continue_like request.command
        then (let (s', out) = cancel_all s.request_queue s in
            let (s'', out') = enqueue request (record s' { request_queue = [] }) in
            (s'', out ++ out'))
        else enqueue request s)
