-- ===== src/Sequential/Fifo.antt =====
-- The requests leave the queue in the order in which they came, each once.
use mcu_debug.Prelude.{
  ℕ, Bool, true, false, if◌then◌else◌, Option, none, some, List, [], ◌∷◌, ◌++◌, ◌≡◌, refl, sym, ap,
  ◌∙◌, append-nil, append_assoc,
}
use mcu_debug.Sequential.{
  Request, Output, direct, dispatched, cancelled, Session, new_session, exit_like, continue_like,
  send_response, cancel_all, loop, process_queue, resume, resume_with, enqueue, dispatch_request,
}

-- The requests that left the queue.
abbrev pub handled : List Output → List Request
handled [] = []
handled (direct request ∷ rest) = handled rest
handled (dispatched request ∷ rest) = request ∷ handled rest
handled (cancelled request ∷ rest) = request ∷ handled rest

-- The requests that are meant for the queue.
abbrev pub queued : List Request → List Request
queued [] = []
queued (request ∷ rest) = if exit_like request.command then queued rest else request ∷ queued rest

handled-append : (xs ys : List Output) → handled (xs ++ ys) ≡ handled xs ++ handled ys
handled-append [] ys = refl
handled-append (direct request ∷ xs) ys = handled-append xs ys
handled-append (dispatched request ∷ xs) ys = ap (◌∷◌ request) (handled-append xs ys)
handled-append (cancelled request ∷ xs) ys = ap (◌∷◌ request) (handled-append xs ys)

queued-append : (xs ys : List Request) → queued (xs ++ ys) ≡ queued xs ++ queued ys
queued-append [] ys = refl
queued-append (request ∷ xs) ys = by_kind (exit_like request.command) (queued-append xs ys)
  where
    by_kind :
        (b : Bool)
        → queued (xs ++ ys) ≡ queued xs ++ queued ys
        → (if b then queued (xs ++ ys) else request ∷ queued (xs ++ ys))
          ≡ (if b then queued xs else request ∷ queued xs) ++ queued ys
    by_kind true e = e
    by_kind false e = ap (◌∷◌ request) e

-- What left the queue, and what is in it.
abbrev seen : Session × List Output → List Request
seen t = handled t.1 ++ t.0.request_queue

seen-loop : (q : List Request) (s : Session) → seen (loop q s) ≡ q
unfolding loop
seen-loop [] s = refl
seen-loop (request ∷ q) s = by_exit s.exiting
  where
    by_exit :
        (b : Bool)
        → seen (
            if b then (record s { request_queue = request ∷ q; is_processing = false }, []) else (
              record s { request_queue = q; current = some (request, false) },
              dispatched request ∷ [],
            ))
          ≡ request ∷ q
    by_exit true = refl
    by_exit false = refl

seen-process_queue : (s : Session) → seen (process_queue s) ≡ s.request_queue
unfolding process_queue
seen-process_queue s = by_flag s.is_processing
  where
    by_flag :
        (b : Bool)
        → seen (if b then (s, []) else loop s.request_queue (record s { is_processing = true }))
          ≡ s.request_queue
    by_flag true = refl
    by_flag false = seen-loop s.request_queue (record s { is_processing = true })

seen-resume_with :
    (o : Option (Request × Bool)) (s : Session) → seen (resume_with o s) ≡ s.request_queue
unfolding resume_with
seen-resume_with none s = refl
seen-resume_with (some (request, false)) s = refl
seen-resume_with (some (request, true)) s = seen-loop s.request_queue (record s { current = none })

seen-resume : (s : Session) → seen (resume s) ≡ s.request_queue
unfolding resume
seen-resume s = seen-resume_with s.current s

seen-enqueue :
    (request : Request) (s : Session) → seen (enqueue request s) ≡ s.request_queue ++ request ∷ []
unfolding enqueue
seen-enqueue request s =
    seen-process_queue (record s { request_queue = s.request_queue ++ request ∷ [] })

handled-cancel_all : (q : List Request) (s : Session) → handled (cancel_all q s).1 ≡ q
unfolding cancel_all
handled-cancel_all [] s = refl
handled-cancel_all (request ∷ q) s =
    ap (◌∷◌ request) (handled-cancel_all q (send_response request.seq s))

seen-dispatch_request :
    (request : Request) (s : Session)
    → seen (dispatch_request request s) ≡ s.request_queue ++ queued (request ∷ [])
unfolding dispatch_request
seen-dispatch_request request s =
    by_kind (exit_like request.command) (continue_like request.command)
  where
    by_kind :
        (b c : Bool)
        → seen (
            if b
            then (record s { exiting = true }, direct request ∷ [])
            else (if c
                then (let (s', out) = cancel_all s.request_queue s in
                    let (s'', out') = enqueue request (record s' { request_queue = [] }) in
                    (s'', out ++ out'))
                else enqueue request s))
          ≡ s.request_queue ++ (if b then [] else request ∷ [])
    by_kind true c = sym (append-nil s.request_queue)
    by_kind false true =
        let first = cancel_all s.request_queue s in
        let second = enqueue request (record first.0 { request_queue = [] }) in
        ap (λ (l : List Request). l ++ second.0.request_queue) (handled-append first.1 second.1)
        ∙ append_assoc (handled first.1) (handled second.1) second.0.request_queue
        ∙ ap (λ (l : List Request). l ++ seen second) (handled-cancel_all s.request_queue s)
        ∙ ap (λ (l : List Request). s.request_queue ++ l)
            (seen-enqueue request (record first.0 { request_queue = [] }))
    by_kind false false = seen-enqueue request s

-- A session after the requests that came and the outputs that went out, from the first to the last.
pub data Run : List Request → List Output → Session → Type 0 where
  start : Run [] [] new_session
  arrive :
      (request : Request) {came : List Request} {out : List Output} {s : Session}
      → Run came out s
      → Run
          (came ++ request ∷ [])
          (out ++ (dispatch_request request s).1)
          (dispatch_request request s).0
  respond :
      (request_seq : ℕ) {came : List Request} {out : List Output} {s : Session}
      → Run came out s
      → Run came out (send_response request_seq s)
  continue_loop :
      {came : List Request} {out : List Output} {s : Session}
      → Run came out s
      → Run came (out ++ (resume s).1) (resume s).0

-- Two blocks of outputs, the second for what was in the queue after the first.
join :
    (out more : List Output) (q q' came : List Request)
    → handled out ++ q ≡ came
    → (tail : List Request) → handled more ++ q' ≡ q ++ tail
    → handled (out ++ more) ++ q' ≡ came ++ tail
join out more q q' came before tail after =
    ap (λ (l : List Request). l ++ q') (handled-append out more)
    ∙ append_assoc (handled out) (handled more) q'
    ∙ ap (λ (l : List Request). handled out ++ l) after
    ∙ sym (append_assoc (handled out) q tail)
    ∙ ap (λ (l : List Request). l ++ tail) before

-- In every run, the requests that left the queue, dispatched or cancelled, followed by those in it
-- are exactly the requests that came and do not end the session, in the order in which they came.
pub handled-Run :
    {came : List Request} {out : List Output} {s : Session}
    → Run came out s
    → handled out ++ s.request_queue ≡ queued came
unfolding new_session send_response
handled-Run start = refl
handled-Run (arrive request {came} {out} {s} run) =
    join out (dispatch_request request s).1 s.request_queue
      (dispatch_request request s).0.request_queue (queued came) (handled-Run run)
      (queued (request ∷ [])) (seen-dispatch_request request s)
    ∙ sym (queued-append came (request ∷ []))
handled-Run (respond request_seq run) = handled-Run run
handled-Run (continue_loop {came} {out} {s} run) =
    join out (resume s).1 s.request_queue (resume s).0.request_queue (queued came) (handled-Run run)
      [] (seen-resume s ∙ sym (append-nil s.request_queue))
    ∙ append-nil (queued came)
