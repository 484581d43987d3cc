-- ===== src/Gdb/Stop.antt =====
-- `stop` settles every promise once.
use mcu_debug.Prelude.{
  ℕ, ◌+◌, ◌≤◌, Bool, true, false, if◌then◌else◌, Option, none, some, List, [], ◌∷◌, ◌≡◌, refl, sym,
  ap, subst, ◌∙◌, arith,
}
use mcu_debug.Mi.Chars.{Text}
use mcu_debug.Gdb.State.{rejected, stopping, Owner, caller, loop, Pending, Item, Process, Books}
use mcu_debug.Gdb.Books.{settle_owner, reject_pending, reject_queue, stop_process, write_exit, stop}
use mcu_debug.Gdb.Tally.{
  is_some, is_some_le, flag, of_loop, of_caller, count_loop, count_pending, count_queue,
  count_awaiting, count_answers,
}
use mcu_debug.Gdb.Valid.{HasTokens, IsValid}
use mcu_debug.Gdb.Moves.{Leads, nobody}

-- The promises of the pending commands are settled one after the other.
record Rejected (ps : List Pending) (b b' : Books) : Type 0 where
  outcome : is_some b'.settled ≡ count_loop ps + is_some b.settled
  answered :
      (id : ℕ) → count_answers id b'.answers ≡ count_pending id ps + count_answers id b.answers
  same_seq : b'.cmd_seq ≡ b.cmd_seq
  same_queue : b'.command_queue ≡ b.command_queue
  same_awaiting : b'.awaiting ≡ b.awaiting
  same_processing : b'.is_processing ≡ b.is_processing

reject_pending-Rejected :
    (ps : List Pending) (b : Books)
    → count_loop ps + is_some b.settled ≤ 1
    → Rejected ps b (reject_pending ps b)
unfolding reject_pending settle_owner
reject_pending-Rejected [] b h = record {
  outcome = omega arith;
  answered = λ id. omega arith;
  same_seq = refl;
  same_queue = refl;
  same_awaiting = refl;
  same_processing = refl;
}
reject_pending-Rejected (p ∷ ps) b h = by_owner (reject_pending-Rejected ps) p.owner refl
  where
    by_owner :
        ((c : Books) → count_loop ps + is_some c.settled ≤ 1 → Rejected ps c (reject_pending ps c))
        → (owner : Owner) → p.owner ≡ owner
        → Rejected (p ∷ ps) b (reject_pending ps (settle_owner owner (rejected stopping) b))
    by_owner later (caller j) o =
        let rest =
          later (settle_owner (caller j) (rejected stopping) b) (omega (arith, h, ap of_loop o)) in
        record {
          outcome = omega (arith, rest.outcome, ap of_loop o);
          answered = λ id. omega (arith, rest.answered id, ap (of_caller id) o);
          same_seq = rest.same_seq;
          same_queue = rest.same_queue;
          same_awaiting = rest.same_awaiting;
          same_processing = rest.same_processing;
        }
    by_owner later loop o =
        let rest =
          later (settle_owner loop (rejected stopping) b) (omega (arith, h, ap of_loop o)) in
        record {
          outcome = omega (arith, rest.outcome, h, ap of_loop o);
          answered = λ id. omega (arith, rest.answered id, ap (of_caller id) o);
          same_seq = rest.same_seq;
          same_queue = rest.same_queue;
          same_awaiting = rest.same_awaiting;
          same_processing = rest.same_processing;
        }

reject_queue-answers :
    (items : List Item) (b : Books)
    → (id : ℕ)
    → count_answers id (reject_queue items b).answers
      ≡ count_queue id items + count_answers id b.answers
unfolding reject_queue
reject_queue-answers [] b id = omega arith
reject_queue-answers (item ∷ items) b id = omega (
  arith,
  reject_queue-answers items (record b { answers = (item.id, rejected stopping) ∷ b.answers }) id,
)

-- The other fields are those of before.
reject_queue-fields :
    (items : List Item) (b : Books)
    → reject_queue items b
      ≡ record b { command_queue = []; answers = (reject_queue items b).answers }
unfolding reject_queue
reject_queue-fields [] b = refl
reject_queue-fields (item ∷ items) b =
    reject_queue-fields items (record b { answers = (item.id, rejected stopping) ∷ b.answers })

no_tokens : (seq : ℕ) → HasTokens seq []
no_tokens seq = record { below = λ t h. refl; once = λ t. omega arith }

stopped-Leads :
    (b c : Books)
    → IsValid b
    → c.pending_cmds ≡ []
    → c.command_queue ≡ []
    → is_some c.settled ≡ count_loop b.pending_cmds + is_some b.settled
    → c.awaiting ≡ b.awaiting
    → c.is_processing ≡ b.is_processing
    → ((id : ℕ)
        → count_answers id c.answers
          ≡ count_queue id b.command_queue
            + (count_pending id b.pending_cmds + count_answers id b.answers))
    → Leads nobody b c
stopped-Leads b c valid no_pending no_queue outcome same_awaiting same_processing answered =
    record {
      valid = record {
        tokens = subst (HasTokens c.cmd_seq) (sym no_pending) (no_tokens c.cmd_seq);
        awaited = omega (
          arith,
          valid.awaited,
          outcome,
          ap count_loop no_pending,
          ap (λ o. is_some o) same_awaiting,
        );
        busy =
            omega (arith, valid.busy, ap flag same_processing, ap (λ o. is_some o) same_awaiting);
        waits = λ f. no_queue;
      };
      kept = λ id. omega (
        arith,
        answered id,
        ap (count_pending id) no_pending,
        ap (count_queue id) no_queue,
        ap (count_awaiting id) same_awaiting,
      );
    }

pub stop-Leads : (b : Books) → IsValid b → Leads nobody b (stop b)
unfolding stop
stop-Leads b valid = by_process b.process
  where
    done : Rejected b.pending_cmds b (reject_pending b.pending_cmds b)
    done =
        reject_pending-Rejected b.pending_cmds b
          (omega (arith, valid.awaited, is_some_le b.awaiting))

    left : Books
    left = record (reject_pending b.pending_cmds b) { pending_cmds = [] }

    ending : Books
    ending = record (reject_queue left.command_queue left) { session_ending = true }

    fields : reject_queue left.command_queue left ≡ record left {
      command_queue = [];
      answers = (reject_queue left.command_queue left).answers;
    }
    fields = reject_queue-fields left.command_queue left

    answered :
        (id : ℕ)
        → count_answers id ending.answers
          ≡ count_queue id b.command_queue
            + (count_pending id b.pending_cmds + count_answers id b.answers)
    answered id = omega (
      arith,
      reject_queue-answers left.command_queue left id,
      done.answered id,
      ap (count_queue id) done.same_queue,
    )

    outcome : is_some ending.settled ≡ count_loop b.pending_cmds + is_some b.settled
    outcome = ap (λ (c : Books). is_some c.settled) fields ∙ done.outcome

    ended :
        (c : Books)
        → c.pending_cmds ≡ ending.pending_cmds
        → c.command_queue ≡ ending.command_queue
        → c.settled ≡ ending.settled
        → c.awaiting ≡ ending.awaiting
        → c.is_processing ≡ ending.is_processing
        → c.answers ≡ ending.answers
        → Leads nobody b c
    ended c e1 e2 e3 e4 e5 e6 =
        stopped-Leads b c valid (e1 ∙ ap (λ (c : Books). c.pending_cmds) fields)
          (e2 ∙ ap (λ (c : Books). c.command_queue) fields) (ap (λ o. is_some o) e3 ∙ outcome)
          (e4 ∙ ap (λ (c : Books). c.awaiting) fields ∙ done.same_awaiting)
          (e5 ∙ ap (λ (c : Books). c.is_processing) fields ∙ done.same_processing)
          (λ id. ap (count_answers id) e6 ∙ answered id)

    by_write : (fails : Option Text) → Leads nobody b (write_exit fails ending)
    by_write none = unfold write_exit in ended _ refl refl refl refl refl refl
    by_write (some text) = unfold write_exit in ended _ refl refl refl refl refl refl

    by_flag :
        (f : Bool) (fails : Option Text)
        → Leads nobody b (if f then write_exit fails ending else ending)
    by_flag true fails = by_write fails
    by_flag false fails = ended ending refl refl refl refl refl refl

    by_process : (process : Option Process) → Leads nobody b (stop_process process b)
    by_process none = unfold stop_process in record { valid = valid; kept = λ id. omega arith }
    by_process (some p) = unfold stop_process in by_flag p.writable p.write_fails
