-- ===== src/Sequential/Turns.antt =====
-- One request is under way at a time, and no request waits while none is under way.
use mcu_debug.Prelude.{
  ℕ, Bool, true, false, ◌||◌, ◌==◌, if◌then◌else◌, Option, none, some, List, [], ◌∷◌, ◌++◌, ◌≡◌,
  ◌≢◌, refl, sym, ap, ◌∙◌, none-ne-some, true≢false,
}
use mcu_debug.Sequential.{
  Request, Output, direct, dispatched, Session, new_session, exit_like, continue_like, resolve,
  send_response, cancel_all, loop, process_queue, resume, resume_with, enqueue, dispatch_request,
}
use mcu_debug.Sequential.Fifo.{Run, start, arrive, respond, continue_loop}

-- The processing loop runs exactly while a request is under way.
pub record HasTurn (s : Session) : Type 0 where
  pub idle : s.is_processing ≡ false → s.current ≡ none
  pub busy : s.is_processing ≡ true → s.current ≢ none

pub record IsValid (s : Session) : Type 0 where
  pub turn : HasTurn s
  pub drained : s.is_processing ≡ false → s.exiting ≡ false → s.request_queue ≡ []

-- Of the result of a call.
abbrev Leaves : Session × List Output → Type 0
Leaves t = IsValid t.0

loop-IsValid :
    (q : List Request) (s : Session)
    → s.is_processing ≡ true
    → s.current ≡ none
    → IsValid (loop q s).0
unfolding loop
loop-IsValid [] s running empty = record {
  turn = record { idle = λ e. empty; busy = λ e. absurd (true≢false (sym e)) };
  drained = λ e f. refl;
}
loop-IsValid (request ∷ q) s running empty = by_exit s.exiting refl
  where
    by_exit :
        (b : Bool)
        → s.exiting ≡ b
        → Leaves (
            if b then (record s { request_queue = request ∷ q; is_processing = false }, []) else (
              record s { request_queue = q; current = some (request, false) },
              dispatched request ∷ [],
            ))
    by_exit true e = record {
      turn = record { idle = λ f. empty; busy = λ f. absurd (true≢false (sym f)) };
      drained = λ f g. absurd (true≢false (sym e ∙ g));
    }
    by_exit false e = record {
      turn = record {
        idle = λ f. absurd (true≢false (sym running ∙ f));
        busy = λ f g. none-ne-some (request, false) (sym g);
      };
      drained = λ f g. absurd (true≢false (sym running ∙ f));
    }

process_queue-IsValid : (s : Session) → HasTurn s → IsValid (process_queue s).0
unfolding process_queue
process_queue-IsValid s turn = by_flag s.is_processing refl
  where
    by_flag :
        (b : Bool)
        → s.is_processing ≡ b
        → Leaves (if b then (s, []) else loop s.request_queue (record s { is_processing = true }))
    by_flag true e = record { turn = turn; drained = λ f g. absurd (true≢false (sym e ∙ f)) }
    by_flag false e =
        loop-IsValid s.request_queue (record s { is_processing = true }) refl (turn.idle e)

resolve-none :
    (request_seq : ℕ) (o : Option (Request × Bool)) → resolve request_seq o ≡ none → o ≡ none
unfolding resolve
resolve-none request_seq none e = refl
resolve-none request_seq (some (request, resolved)) e =
    absurd (none-ne-some (request, resolved || request_seq == request.seq) (sym e))

send_response-HasTurn :
    (request_seq : ℕ) (s : Session) → HasTurn s → HasTurn (send_response request_seq s)
unfolding send_response resolve
send_response-HasTurn request_seq s turn = record {
  idle = λ e. ap (resolve request_seq) (turn.idle e);
  busy = λ e f. turn.busy e (resolve-none request_seq s.current f);
}

cancel_all-HasTurn : (q : List Request) (s : Session) → HasTurn s → HasTurn (cancel_all q s).0
unfolding cancel_all
cancel_all-HasTurn [] s turn = turn
cancel_all-HasTurn (request ∷ q) s turn =
    cancel_all-HasTurn q (send_response request.seq s) (send_response-HasTurn request.seq s turn)

enqueue-IsValid : (request : Request) (s : Session) → HasTurn s → IsValid (enqueue request s).0
unfolding enqueue
enqueue-IsValid request s turn =
    process_queue-IsValid (record s { request_queue = s.request_queue ++ request ∷ [] })
      (record { idle = turn.idle; busy = turn.busy })

dispatch_request-IsValid :
    (request : Request) (s : Session) → IsValid s → IsValid (dispatch_request request s).0
unfolding dispatch_request
dispatch_request-IsValid request s valid =
    by_kind (exit_like request.command) (continue_like request.command)
  where
    by_kind :
        (b c : Bool)
        → Leaves (
            if b
            then (record s { exiting = true }, direct request ∷ [])
            else (if c
                then (let (s', out) = cancel_all s.request_queue s in
                    let (s'', out') = enqueue request (record s' { request_queue = [] }) in
                    (s'', out ++ out'))
                else enqueue request s))
    by_kind true c = record {
      turn = record { idle = valid.turn.idle; busy = valid.turn.busy };
      drained = λ e f. absurd (true≢false f);
    }
    by_kind false true =
        let turn = cancel_all-HasTurn s.request_queue s valid.turn in
        enqueue-IsValid request (record (cancel_all s.request_queue s).0 { request_queue = [] })
          (record { idle = turn.idle; busy = turn.busy })
    by_kind false false = enqueue-IsValid request s valid.turn

resume_with-IsValid :
    (o : Option (Request × Bool)) (s : Session)
    → s.current ≡ o
    → IsValid s
    → IsValid (resume_with o s).0
unfolding resume_with
resume_with-IsValid none s e valid = valid
resume_with-IsValid (some (request, false)) s e valid = valid
resume_with-IsValid (some (request, true)) s e valid = by_flag s.is_processing refl
  where
    by_flag :
        (b : Bool)
        → s.is_processing ≡ b
        → IsValid (loop s.request_queue (record s { current = none })).0
    by_flag true running = loop-IsValid s.request_queue (record s { current = none }) running refl
    by_flag false stopped =
        absurd (none-ne-some (request, true) (sym (valid.turn.idle stopped) ∙ e))

-- In every run the processing loop runs exactly while a request is under way, and while it does not
-- run and the session does not end, no request waits.
pub Run-IsValid :
    {came : List Request} {out : List Output} {s : Session} → Run came out s → IsValid s
unfolding new_session resume send_response
Run-IsValid start = record {
  turn = record { idle = λ e. refl; busy = λ e. absurd (true≢false (sym e)) };
  drained = λ e f. refl;
}
Run-IsValid (arrive request {s = s} run) = dispatch_request-IsValid request s (Run-IsValid run)
Run-IsValid (respond request_seq {s = s} run) =
    let before = Run-IsValid run in
    record { turn = send_response-HasTurn request_seq s before.turn; drained = before.drained }
Run-IsValid (continue_loop {s = s} run) = resume_with-IsValid s.current s refl (Run-IsValid run)
