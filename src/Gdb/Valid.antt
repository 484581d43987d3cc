-- ===== src/Gdb/Valid.antt =====
-- What each operation on the commands does to the tokens, the queue and the promises.
use mcu_debug.Prelude.{
  ℕ, ◌+◌, ◌≤◌, false, Option, none, some, List, [], ◌≡◌, refl, arith, Option-cases, inl, inr, subst,
  sym, ap, ◌∙◌,
}
use mcu_debug.Mi.Chars.{Text}
use mcu_debug.Gdb.State.{rejected, Outcome, Owner, caller, loop, Pending, Books, write_failed}
use mcu_debug.Gdb.Books.{
  find_pending, delete_pending, set_pending, settle_owner, write_command, usable,
  send_command_internal,
}
use mcu_debug.Gdb.Tally.{
  one_if, is_some, is_some_le, flag, of_loop, of_caller, count_token, count_loop, count_pending,
  count_queue, count_awaiting, count_answers, sum_by-set_pending, sum_by-delete_pending,
  count_token-delete_pending, delete_pending-set_pending,
}

-- The tokens of the pending commands are different and were given out.
pub record HasTokens (cmd_seq : ℕ) (ps : List Pending) : Type 0 where
  pub below : (seq : ℕ) → cmd_seq ≤ seq → count_token seq ps ≡ 0
  pub once : (seq : ℕ) → count_token seq ps ≤ 1

-- The loop of the queue runs exactly while it waits for an item; then either one pending command is
-- that item's or the outcome is there, never both; and no item waits while it does not run.
pub record IsValid (b : Books) : Type 0 where
  pub tokens : HasTokens b.cmd_seq b.pending_cmds
  pub awaited : count_loop b.pending_cmds + is_some b.settled ≡ is_some b.awaiting
  pub busy : flag b.is_processing ≡ is_some b.awaiting
  pub waits : b.is_processing ≡ false → b.command_queue ≡ []

-- How many promises of a caller are open or settled.
abbrev pub promises : ℕ → Books → ℕ
promises id b =
    count_queue id b.command_queue
    + count_awaiting id b.awaiting
    + count_pending id b.pending_cmds
    + count_answers id b.answers

-- A promise of an owner was made, or settled at once.
pub record Sent (owner : Owner) (b b' : Books) : Type 0 where
  pub tokens : HasTokens b'.cmd_seq b'.pending_cmds
  pub loops :
      count_loop b'.pending_cmds + is_some b'.settled
      ≡ of_loop owner + (count_loop b.pending_cmds + is_some b.settled)
  pub callers :
      (id : ℕ)
      → count_pending id b'.pending_cmds + count_answers id b'.answers
        ≡ of_caller id owner + (count_pending id b.pending_cmds + count_answers id b.answers)
  pub same_queue : b'.command_queue ≡ b.command_queue
  pub same_awaiting : b'.awaiting ≡ b.awaiting
  pub same_processing : b'.is_processing ≡ b.is_processing

-- Nothing is there yet that a settled wait would overwrite.
abbrev pub IsFree : Owner → Books → Type 0
IsFree owner b = of_loop owner + is_some b.settled ≤ 1

pub settle_owner-Sent :
    (owner : Owner) (outcome : Outcome) (b : Books)
    → HasTokens b.cmd_seq b.pending_cmds
    → IsFree owner b
    → Sent owner b (settle_owner owner outcome b)
unfolding settle_owner
settle_owner-Sent (caller j) outcome b tokens free = record {
  tokens = tokens;
  loops = omega arith;
  callers = λ id. omega arith;
  same_queue = refl;
  same_awaiting = refl;
  same_processing = refl;
}
settle_owner-Sent loop outcome b tokens free = record {
  tokens = tokens;
  loops = omega (arith, free);
  callers = λ id. omega arith;
  same_queue = refl;
  same_awaiting = refl;
  same_processing = refl;
}

abbrev entered : Pending → Books → Books
entered new b = record b { cmd_seq = b.cmd_seq + 1; pending_cmds = set_pending new b.pending_cmds }

entered-Sent :
    (new : Pending) (b : Books)
    → new.seq ≡ b.cmd_seq
    → HasTokens b.cmd_seq b.pending_cmds
    → Sent new.owner b (entered new b)
entered-Sent new b e tokens =
    let fresh : count_token new.seq b.pending_cmds ≡ 0 = tokens.below new.seq (omega (arith, e)) in
    record {
      tokens = record {
        below = λ seq h. ground (
          arith,
          e,
          tokens.below seq,
          sum_by-set_pending (λ p. one_if seq p.seq) new b.pending_cmds fresh,
        );
        once = λ seq. ground (
          arith,
          e,
          fresh,
          tokens.once seq,
          sum_by-set_pending (λ p. one_if seq p.seq) new b.pending_cmds fresh,
        );
      };
      loops = omega (arith, sum_by-set_pending (λ p. of_loop p.owner) new b.pending_cmds fresh);
      callers = λ id.
          omega (arith, sum_by-set_pending (λ p. of_caller id p.owner) new b.pending_cmds fresh);
      same_queue = refl;
      same_awaiting = refl;
      same_processing = refl;
    }

write_command-Sent :
    (owner : Owner) (command : Text) (fails : Option Text) (new : Pending) (b : Books)
    → new.seq ≡ b.cmd_seq
    → new.owner ≡ owner
    → HasTokens b.cmd_seq b.pending_cmds
    → IsFree owner b
    → Sent owner b (write_command owner b.cmd_seq command fails (entered new b))
unfolding write_command
write_command-Sent owner command none new b e o tokens free =
    let sent = entered-Sent new b e tokens in
    record {
      tokens = sent.tokens;
      loops =
          subst
            (λ w.
              count_loop (entered new b).pending_cmds + is_some b.settled
              ≡ of_loop w + (count_loop b.pending_cmds + is_some b.settled))
            o sent.loops;
      callers = λ id.
          subst
            (λ w.
              count_pending id (entered new b).pending_cmds + count_answers id b.answers
              ≡ of_caller id w + (count_pending id b.pending_cmds + count_answers id b.answers))
            o (sent.callers id);
      same_queue = refl;
      same_awaiting = refl;
      same_processing = refl;
    }
write_command-Sent owner command (some text) new b e o tokens free =
    let fresh : count_token new.seq b.pending_cmds ≡ 0 = tokens.below new.seq (omega (arith, e)) in
    let taken = delete_pending-set_pending new b.pending_cmds fresh in
    let later : HasTokens (b.cmd_seq + 1) b.pending_cmds = record {
      below = λ seq h. tokens.below seq (omega (arith, h));
      once = tokens.once;
    } in
    let sent =
      settle_owner-Sent owner (rejected (write_failed text)) (record b { cmd_seq = b.cmd_seq + 1 })
        later free in
    subst
      (λ ps. Sent owner b (
        settle_owner owner (rejected (write_failed text))
          (record (entered new b) { pending_cmds = ps })))
      (sym (ap (λ seq. delete_pending seq (set_pending new b.pending_cmds)) (sym e) ∙ taken))
      (record {
        tokens = sent.tokens;
        loops = sent.loops;
        callers = sent.callers;
        same_queue = sent.same_queue;
        same_awaiting = sent.same_awaiting;
        same_processing = sent.same_processing;
      })

pub send_command_internal-Sent :
    (owner : Owner) (command : Text) (timeout : ℕ) (b : Books)
    → HasTokens b.cmd_seq b.pending_cmds
    → IsFree owner b
    → Sent owner b (send_command_internal owner command timeout b)
unfolding send_command_internal
send_command_internal-Sent owner command timeout b tokens free = elim (Option-cases (usable b)) [
  | inl e ↦ rw (send_command_internal, e) (settle_owner-Sent owner _ b tokens free)
  | inr (p, e) ↦
      rw (send_command_internal, e)
        (write_command-Sent owner _ p.write_fails _ b refl refl tokens free)
]

-- A pending command is settled and taken out, in this order.
abbrev pub close_pending : ℕ → Pending → Outcome → Books → Books
close_pending seq p outcome b =
    let settled = settle_owner p.owner outcome b in
    record settled { pending_cmds = delete_pending seq settled.pending_cmds }

pub close_pending-IsValid :
    (seq : ℕ) (p : Pending) (outcome : Outcome) (b : Books)
    → find_pending seq b.pending_cmds ≡ some p
    → IsValid b
    → IsValid (close_pending seq p outcome b)
      × ((id : ℕ) → promises id (close_pending seq p outcome b) ≡ promises id b)
unfolding settle_owner
close_pending-IsValid seq p outcome b e valid = by_owner p.owner refl
  where
    loops :
        count_loop b.pending_cmds ≡ of_loop p.owner + count_loop (delete_pending seq b.pending_cmds)
    loops = sum_by-delete_pending (λ q. of_loop q.owner) seq b.pending_cmds p e

    callers :
        (id : ℕ)
        → count_pending id b.pending_cmds
          ≡ of_caller id p.owner + count_pending id (delete_pending seq b.pending_cmds)
    callers id = sum_by-delete_pending (λ q. of_caller id q.owner) seq b.pending_cmds p e

    tokens : HasTokens b.cmd_seq (delete_pending seq b.pending_cmds)
    tokens = record {
      below = λ t h.
          omega (arith, valid.tokens.below t h, count_token-delete_pending seq t b.pending_cmds);
      once =
          λ t. omega (arith, valid.tokens.once t, count_token-delete_pending seq t b.pending_cmds);
    }

    closed : Owner → Books
    closed owner =
        let settled = settle_owner owner outcome b in
        record settled { pending_cmds = delete_pending seq settled.pending_cmds }

    by_owner :
        (owner : Owner)
        → p.owner ≡ owner
        → IsValid (closed owner) × ((id : ℕ) → promises id (closed owner) ≡ promises id b)
    by_owner (caller j) o = (
      record {
        tokens = tokens;
        awaited = omega (arith, valid.awaited, loops, ap of_loop o);
        busy = valid.busy;
        waits = valid.waits;
      },
      λ id. omega (arith, callers id, ap (of_caller id) o),
    )
    by_owner loop o = (
      record {
        tokens = tokens;
        awaited = omega (arith, valid.awaited, loops, ap of_loop o, is_some_le b.awaiting);
        busy = valid.busy;
        waits = valid.waits;
      },
      λ id. omega (arith, callers id, ap (of_caller id) o),
    )
