-- ===== src/Sequential/Drain.antt =====
-- Where every request that goes out is answered, all that wait go out.
use mcu_debug.Prelude.{
  ℕ, zero, suc, Bool, true, false, ◌||◌, ◌==◌, Option, none, some, List, [], ◌∷◌, ◌++◌, ◌≡◌, refl,
  sym, ap, ◌∙◌, subst, map, length, arith,
}
use mcu_debug.Sequential.{
  Request, Output, dispatched, Session, resolve, send_response, loop, resume, resume_with,
}
use mcu_debug.Sequential.Fifo.{Run}
use mcu_debug.Sequential.Turns.{IsValid, Run-IsValid}

-- The response to the request under way, if there is one, and what the loop does then.
abbrev pub answer : Option (Request × Bool) → Session → Session × List Output
answer none s = (s, [])
answer (some (request, resolved)) s = resume (send_response request.seq s)

abbrev pub answer_each : ℕ → Session → Session × List Output
answer_each zero s = (s, [])
answer_each (suc n) s =
    let (s', out) = answer s.current s in let (s'', out') = answer_each n s' in (s'', out ++ out')

abbrev under_way : List Request → Bool → Request → Bool → Session
under_way q processing request resolved = record {
  request_queue = q;
  is_processing = processing;
  current = some (request, resolved);
  exiting = false;
}

abbrev free : List Request → Bool → Session
free q processing = record {
  request_queue = q;
  is_processing = processing;
  current = none;
  exiting = false;
}

own_number : (resolved : Bool) (n : ℕ) → (resolved || n == n) ≡ true
own_number true n = refl
own_number false n = ground arith

answer-under_way :
    (q : List Request) (processing : Bool) (request : Request) (resolved : Bool)
    → answer (some (request, resolved)) (under_way q processing request resolved)
      ≡ loop q (free q processing)
unfolding resume resume_with send_response resolve
answer-under_way q processing request resolved =
    ap (λ b. resume_with (some (request, b)) (under_way q processing request b))
      (own_number resolved request.seq)

-- The queue is empty, the loop has ended, and `q` went out.
record IsDrained (q : List Request) (t : Session × List Output) : Type 0 where
  pub all_out : t.1 ≡ map dispatched q
  pub none_waits : t.0.request_queue ≡ []
  pub ended : t.0.is_processing ≡ false

add_next :
    (next : Request) (q : List Request) (processing : Bool)
    → IsDrained q (answer_each (suc (length q)) (under_way q processing next false))
    → let t = loop (next ∷ q) (free (next ∷ q) processing) in
      let u = answer_each (suc (length q)) t.0 in IsDrained (next ∷ q) (u.0, t.1 ++ u.1)
unfolding loop
add_next next q processing later = record {
  all_out = ap (◌∷◌ (dispatched next)) later.all_out;
  none_waits = later.none_waits;
  ended = later.ended;
}

last_round :
    (processing : Bool) → let t = loop [] (free [] processing) in IsDrained [] (t.0, t.1 ++ [])
unfolding loop
last_round processing = record { all_out = refl; none_waits = refl; ended = refl }

answer_each-under_way :
    (q : List Request) (processing : Bool) (request : Request) (resolved : Bool)
    → IsDrained q (answer_each (suc (length q)) (under_way q processing request resolved))
answer_each-under_way [] processing request resolved =
    subst (λ t. IsDrained [] (t.0, t.1 ++ []))
      (sym (answer-under_way [] processing request resolved)) (last_round processing)
answer_each-under_way (next ∷ q) processing request resolved =
    subst (λ t. let u = answer_each (suc (length q)) t.0 in IsDrained (next ∷ q) (u.0, t.1 ++ u.1))
      (sym (answer-under_way (next ∷ q) processing request resolved))
      (add_next next q processing (answer_each-under_way q processing next false))

answer_each-idle : (n : ℕ) (s : Session) → s.current ≡ none → answer_each n s ≡ (s, [])
answer_each-idle zero s e = refl
answer_each-idle (suc n) s e =
    ap (λ o. let t = answer o s in let u = answer_each n t.0 in (u.0, t.1 ++ u.1)) e
    ∙ answer_each-idle n s e

answer_each-IsValid :
    (s : Session)
    → IsValid s
    → s.exiting ≡ false
    → IsDrained s.request_queue (answer_each (suc (length s.request_queue)) s)
answer_each-IsValid s valid going = by_current s.current refl
  where
    by_processing :
        (b : Bool) → s.is_processing ≡ b → s.current ≡ none → IsDrained s.request_queue (s, [])
    by_processing true e idle = absurd (valid.turn.busy e idle)
    by_processing false e idle = record {
      all_out = ap (map dispatched) (sym (valid.drained e going));
      none_waits = valid.drained e going;
      ended = e;
    }

    by_current :
        (o : Option (Request × Bool))
        → s.current ≡ o
        → IsDrained s.request_queue (answer_each (suc (length s.request_queue)) s)
    by_current none e =
        subst (IsDrained s.request_queue)
          (sym (answer_each-idle (suc (length s.request_queue)) s e))
          (by_processing s.is_processing refl e)
    by_current (some (request, resolved)) e =
        subst
          (λ (c : Option (Request × Bool) × Bool). IsDrained s.request_queue (
            answer_each (suc (length s.request_queue)) (record s { current = c.0; exiting = c.1 })))
          (sym (ap (λ o. (o, s.exiting)) e ∙ ap (λ b. (some (request, resolved), b)) going))
          (answer_each-under_way s.request_queue s.is_processing request resolved)

-- From every state that a run reaches and in which the session does not end: if each request under way
-- is answered in turn, as often as requests wait and once more, all requests that wait go out in their
-- order, none waits then, and the loop has ended.
pub answer_each-Run :
    {came : List Request} {out : List Output} {s : Session}
    → Run came out s
    → s.exiting ≡ false
    → let t = answer_each (suc (length s.request_queue)) s in
      (t.1 ≡ map dispatched s.request_queue)
      × (t.0.request_queue ≡ [])
      × (t.0.is_processing ≡ false)
answer_each-Run {s = s} run going =
    let drained = answer_each-IsValid s (Run-IsValid run) going in
    (drained.all_out, drained.none_waits, drained.ended)
