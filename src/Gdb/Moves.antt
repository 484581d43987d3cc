-- ===== src/Gdb/Moves.antt =====
-- Each operation on the commands keeps them in order, and loses or doubles no promise.
use mcu_debug.Prelude.{
  ℕ, ◌+◌, Bool, true, false, ◌==◌, if◌then◌else◌, Option, none, some, List, [], ◌∷◌, ◌++◌, ◌≡◌,
  refl, sym, ap, subst, ◌∙◌, arith, Bool-cases, inl, inr, true≢false,
}
use mcu_debug.Mi.Chars.{Text}
use mcu_debug.Gdb.State.{
  timer_expired, rejected, Outcome, Owner, caller, loop, Pending, Item, Books,
}
use mcu_debug.Gdb.Books.{
  find_pending, settle_owner, send_command_internal, next_item, process_command_queue, resume_queue,
  send_command, send_user_input, enable_queue_processing, expire, expire_found, delete_pending,
}
use mcu_debug.Gdb.Tally.{
  one_if, is_some, is_some_le, flag, count_loop, count_queue, count_awaiting, count_queue-append,
}
use mcu_debug.Gdb.Valid.{
  HasTokens, IsValid, promises, Sent, send_command_internal-Sent, close_pending,
  close_pending-IsValid,
}

-- What an operation leads to, where the caller `id` asked for as many commands as `added` says.
pub record Leads (added : ℕ → ℕ) (b b' : Books) : Type 0 where
  pub valid : IsValid b'
  pub kept : (id : ℕ) → promises id b' ≡ added id + promises id b

abbrev pub nobody : ℕ → ℕ
nobody id = 0

-- The loop has taken its last item and is about to look for the next.
record IsReady (b : Books) : Type 0 where
  tokens : HasTokens b.cmd_seq b.pending_cmds
  no_loop : count_loop b.pending_cmds ≡ 0
  no_outcome : b.settled ≡ none
  no_item : b.awaiting ≡ none
  going : b.is_processing ≡ true

next_item-Leads :
    (items : List Item) (b : Books)
    → IsReady b
    → b.command_queue ≡ items
    → Leads nobody b (next_item items b)
unfolding next_item
next_item-Leads [] b ready e = record {
  valid = record {
    tokens = ready.tokens;
    awaited = omega (
      arith,
      ready.no_loop,
      ap (λ o. is_some o) ready.no_outcome,
      ap (λ o. is_some o) ready.no_item,
    );
    busy = omega (arith, ap (λ o. is_some o) ready.no_item);
    waits = λ f. refl;
  };
  kept = λ id. omega (arith, ap (count_queue id) e);
}
next_item-Leads (item ∷ items) b ready e =
    let sent =
      send_command_internal-Sent loop item.command item.timeout
        (record b { command_queue = items; awaiting = some item.id }) ready.tokens
        (omega (arith, ap (λ o. is_some o) ready.no_outcome)) in
    record {
      valid = record {
        tokens = sent.tokens;
        awaited = omega (
          arith,
          sent.loops,
          ready.no_loop,
          ap (λ o. is_some o) ready.no_outcome,
          ap (λ o. is_some o) sent.same_awaiting,
        );
        busy = omega (
          arith,
          ap flag sent.same_processing,
          ap flag ready.going,
          ap (λ o. is_some o) sent.same_awaiting,
        );
        waits = λ f. absurd (true≢false (sym ready.going ∙ sym sent.same_processing ∙ f));
      };
      kept = λ id. omega (
        arith,
        sent.callers id,
        ap (count_queue id) e,
        ap (count_queue id) sent.same_queue,
        ap (count_awaiting id) sent.same_awaiting,
        ap (count_awaiting id) ready.no_item,
      );
    }

none_of {ℓ} : {A : Type ℓ} (o : Option A) → is_some o ≡ 0 → o ≡ none
none_of none e = refl
none_of (some a) e = absurd (omega (arith, e))

-- A state in which an item may have come to a queue that is not processed.
process_command_queue-Leads :
    (b : Books)
    → HasTokens b.cmd_seq b.pending_cmds
    → count_loop b.pending_cmds + is_some b.settled ≡ is_some b.awaiting
    → flag b.is_processing ≡ is_some b.awaiting
    → Leads nobody b (process_command_queue b)
unfolding process_command_queue
process_command_queue-Leads b tokens awaited busy = by_flag b.is_processing refl
  where
    by_flag :
        (f : Bool)
        → b.is_processing ≡ f
        → Leads nobody b
            (if f then b else next_item b.command_queue (record b { is_processing = true }))
    by_flag true e = record {
      valid = record {
        tokens = tokens;
        awaited = awaited;
        busy = busy;
        waits = λ f. absurd (true≢false (sym e ∙ f));
      };
      kept = λ id. omega arith;
    }
    by_flag false e =
        let led =
          next_item-Leads b.command_queue (record b { is_processing = true })
            (record {
              tokens = tokens;
              no_loop = omega (arith, awaited, busy, ap flag e);
              no_outcome = none_of b.settled (omega (arith, awaited, busy, ap flag e));
              no_item = none_of b.awaiting (omega (arith, busy, ap flag e));
              going = refl;
            })
            refl in
        record { valid = led.valid; kept = led.kept }

sent-Leads :
    (id : ℕ) (b b' : Books) → IsValid b → Sent (caller id) b b' → Leads (λ i. one_if i id) b b'
sent-Leads id b b' valid sent = record {
  valid = record {
    tokens = sent.tokens;
    awaited = omega (arith, sent.loops, valid.awaited, ap (λ o. is_some o) sent.same_awaiting);
    busy =
        omega
          (arith, valid.busy, ap flag sent.same_processing, ap (λ o. is_some o) sent.same_awaiting);
    waits = λ f. sent.same_queue ∙ valid.waits (sym sent.same_processing ∙ f);
  };
  kept = λ i. omega (
    arith,
    sent.callers i,
    ap (count_queue i) sent.same_queue,
    ap (count_awaiting i) sent.same_awaiting,
  );
}

pub send_command-Leads :
    (id : ℕ) (command : Text) (timeout : ℕ) (b : Books)
    → IsValid b
    → Leads (λ i. one_if i id) b (send_command id command timeout b)
unfolding send_command
send_command-Leads id command timeout b valid = by_flag b.queue_requests
  where
    item : Item
    item = record { id = id; command = command; timeout = timeout }

    pushed : Books
    pushed = record b { command_queue = b.command_queue ++ item ∷ [] }

    by_flag :
        (f : Bool)
        → Leads
            (λ i. one_if i id)
            b
            (if f
              then process_command_queue pushed
              else send_command_internal (caller id) command timeout b)
    by_flag true =
        let led = process_command_queue-Leads pushed valid.tokens valid.awaited valid.busy in
        record {
          valid = led.valid;
          kept = λ i. omega (arith, led.kept i, count_queue-append i b.command_queue item);
        }
    by_flag false = sent-Leads id b _ valid (
        send_command_internal-Sent (caller id) command timeout b valid.tokens
          (omega (arith, valid.awaited, is_some_le b.awaiting)))

pub send_user_input-Leads :
    (id : ℕ) (command : Text) (timeout : ℕ) (b : Books)
    → IsValid b
    → Leads (λ i. one_if i id) b (send_user_input id command timeout b)
unfolding send_user_input
send_user_input-Leads id [] timeout b valid = send_command-Leads id _ timeout b valid
send_user_input-Leads id (c ∷ s) timeout b valid = elim (Bool-cases (c == b'-')) [
  | inl e ↦ rw (send_user_input, e) (send_command-Leads id s timeout b valid)
  | inr e ↦ rw (send_user_input, e) (send_command-Leads id _ timeout b valid)
]

true_of : (f : Bool) → flag f ≡ 1 → f ≡ true
true_of true e = refl
true_of false e = absurd (omega (arith, e))

pub resume_queue-Leads :
    (b : Books) → IsValid b → Leads nobody b (resume_queue b.awaiting b.settled b)
resume_queue-Leads b valid = by_wait b.awaiting b.settled refl refl
  where
    by_wait :
        (awaiting : Option ℕ) (settled : Option Outcome)
        → b.awaiting ≡ awaiting
        → b.settled ≡ settled
        → Leads nobody b (resume_queue awaiting settled b)
    by_wait none settled e f =
        unfold resume_queue in record { valid = valid; kept = λ id. omega arith }
    by_wait (some id) none e f =
        unfold resume_queue in record { valid = valid; kept = λ i. omega arith }
    by_wait (some id) (some outcome) e f =
        let b' : Books = record b {
          awaiting = none;
          settled = none;
          answers = (id, outcome) ∷ b.answers;
        } in
        let led =
          next_item-Leads b.command_queue b'
            (record {
              tokens = valid.tokens;
              no_loop = omega (arith, valid.awaited, ap (λ o. is_some o) e, ap (λ o. is_some o) f);
              no_outcome = refl;
              no_item = refl;
              going = true_of b.is_processing (omega (arith, valid.busy, ap (λ o. is_some o) e));
            })
            refl in
        unfold resume_queue in
        record { valid = led.valid; kept = λ i. omega (arith, led.kept i, ap (count_awaiting i) e) }

pub enable_queue_processing-Leads :
    (b : Books) → IsValid b → Leads nobody b (enable_queue_processing b)
unfolding enable_queue_processing
enable_queue_processing-Leads b valid =
    let led =
      process_command_queue-Leads (record b { queue_requests = true }) valid.tokens valid.awaited
        valid.busy in
    record { valid = led.valid; kept = led.kept }

pub closed-Leads :
    (seq : ℕ) (p : Pending) (outcome : Outcome) (b : Books)
    → find_pending seq b.pending_cmds ≡ some p
    → IsValid b
    → Leads nobody b (close_pending seq p outcome b)
closed-Leads seq p outcome b e valid =
    let (closed, kept) = close_pending-IsValid seq p outcome b e valid in
    record { valid = closed; kept = λ id. omega (arith, kept id) }

settle_owner-pending :
    (owner : Owner) (outcome : Outcome) (seq : ℕ) (b : Books)
    → settle_owner owner outcome (record b { pending_cmds = delete_pending seq b.pending_cmds })
      ≡ record (settle_owner owner outcome b) {
        pending_cmds = delete_pending seq (settle_owner owner outcome b).pending_cmds;
      }
unfolding settle_owner
settle_owner-pending (caller id) outcome seq b = refl
settle_owner-pending loop outcome seq b = refl

pub expire-Leads : (seq : ℕ) (b : Books) → IsValid b → Leads nobody b (expire seq b)
unfolding expire expire_found
expire-Leads seq b valid = by_found (find_pending seq b.pending_cmds) refl
  where
    by_found :
        (found : Option Pending)
        → find_pending seq b.pending_cmds ≡ found
        → Leads nobody b (expire_found seq found b)
    by_found none e = record { valid = valid; kept = λ id. omega arith }
    by_found (some p) e = by_flag p.timed
      where
        by_flag :
            (f : Bool)
            → Leads nobody b (
                if f
                then settle_owner p.owner
                    (rejected (timer_expired p.cmd))
                    (record b { pending_cmds = delete_pending seq b.pending_cmds })
                else b)
        by_flag true =
            subst (Leads nobody b) (sym (settle_owner-pending p.owner _ seq b))
              (closed-Leads seq p _ b e valid)
        by_flag false = record { valid = valid; kept = λ id. omega arith }
