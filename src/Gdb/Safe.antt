-- ===== src/Gdb/Safe.antt =====
-- The same of whole runs: the output of gdb settles a pending command, or changes no command.
use mcu_debug.Prelude.{
  ℕ, ◌+◌, Bool, true, false, if◌then◌else◌, Option, none, some, List, [], ◌∷◌, ◌++◌, ◌≡◌, refl, sym,
  subst, arith, All, codes,
}
use mcu_debug.Mi.Chars.{Text, trim}
use mcu_debug.Mi.Keys.{text_eq}
use mcu_debug.Mi.Record.{GdbMiRecord, GdbMiOutput, parse_gdb_mi_out}
use mcu_debug.Gdb.State.{Pending, Process, Books, GdbInstance, new_gdb, no_pending}
use mcu_debug.Gdb.Books.{find_pending, disable_queue_processing}
use mcu_debug.Gdb.Utf8.{to_string}
use mcu_debug.Gdb.Output.{
  parse_token, find_token, handle_answer, handle_found, handle_out_of_band, clear_kept, last_error,
  exit_process, handle_result, handle_output, handle_output_line, handle_lines, handle_stdout_data,
  handle_stdout_text, handle_stderr_data, handle_stderr_close, handle_exit, cut_lines,
}
use mcu_debug.Gdb.Run.{
  asks, Step, start, send, user_input, go_on, timer, stdout, stderr, stdout_closed, stderr_closed,
  stopping, hold, release, exit, step, run, asked,
}
use mcu_debug.Gdb.Valid.{IsValid, promises}
use mcu_debug.Gdb.Stop.{stop-Leads}
use mcu_debug.Gdb.Records.{emit}
use mcu_debug.Gdb.Moves.{
  Leads, nobody, send_command-Leads, send_user_input-Leads, resume_queue-Leads,
  enable_queue_processing-Leads, expire-Leads, closed-Leads,
}

stays : (b : Books) → IsValid b → Leads nobody b b
stays b valid = record { valid = valid; kept = λ id. omega arith }

process_changed :
    (process : Option Process) (b : Books)
    → IsValid b
    → Leads nobody b (record b { process = process })
process_changed process b valid = record {
  valid = record {
    tokens = valid.tokens;
    awaited = valid.awaited;
    busy = valid.busy;
    waits = valid.waits;
  };
  kept = λ id. omega arith;
}

after : (b c d : Books) → Leads nobody b c → (IsValid c → Leads nobody c d) → Leads nobody b d
after b c d first second =
    let next = second first.valid in
    record { valid = next.valid; kept = λ id. omega (arith, first.kept id, next.kept id) }

find_token-some :
    (token : Option ℕ) (ps : List Pending) (found : ℕ × Pending)
    → find_token token ps ≡ some found
    → find_pending found.0 ps ≡ some found.1
unfolding find_token
find_token-some token ps found e = ground (arith, e)

handle_result-Leads :
    (r : Option GdbMiRecord) (out : GdbMiOutput) (g : GdbInstance)
    → IsValid g.books
    → Leads nobody g.books (handle_result r out g).books
unfolding handle_result
handle_result-Leads none out g valid = stays g.books valid
handle_result-Leads (some r) out g valid =
    by_found (find_token (parse_token r.token) g.books.pending_cmds) refl
  where
    by_flag :
        (f : Bool)
        → Leads nobody g.books
            (if f
              then g
              else record g { front = emit (no_pending (parse_token r.token)) g.front }).books
    by_flag true = stays g.books valid
    by_flag false = stays g.books valid

    by_found :
        (found : Option (ℕ × Pending))
        → find_token (parse_token r.token) g.books.pending_cmds ≡ found
        → Leads nobody g.books (handle_found found r out g).books
    by_found none e = unfold handle_found in by_flag g.books.session_ending
    by_found (some (token, p)) e =
        unfold handle_found handle_answer in
        closed-Leads token p _ g.books
          (find_token-some (parse_token r.token) g.books.pending_cmds (token, p) e) valid

out_of_band_books :
    (rs : List GdbMiRecord) (g : GdbInstance) → (handle_out_of_band rs g).books ≡ g.books
out_of_band_books [] g = refl
out_of_band_books (r ∷ rs) g = refl

handle_output-Leads :
    (out : Option GdbMiOutput) (g : GdbInstance)
    → IsValid g.books
    → Leads nobody g.books (handle_output out g).books
unfolding handle_output
handle_output-Leads none g valid = stays g.books valid
handle_output-Leads (some out) g valid =
    subst (Leads nobody g.books)
      (sym (out_of_band_books out.out_of_band_records (handle_result out.result_record out g)))
      (handle_result-Leads out.result_record out g valid)

handle_output_line-Leads :
    (line : Text) (g : GdbInstance)
    → IsValid g.books
    → Leads nobody g.books (handle_output_line line g).books
unfolding handle_output_line
handle_output_line-Leads line g valid = by_flag (text_eq line (codes "(gdb)"))
  where
    by_flag :
        (f : Bool)
        → Leads nobody g.books
            (if f
              then record g { front = clear_kept g.front }
              else handle_output (parse_gdb_mi_out line) g).books
    by_flag true = stays g.books valid
    by_flag false = handle_output-Leads (parse_gdb_mi_out line) g valid

handle_lines-Leads :
    (lines : List Text) (g : GdbInstance)
    → IsValid g.books
    → Leads nobody g.books (handle_lines lines g).books
unfolding handle_lines
handle_lines-Leads [] g valid = stays g.books valid
handle_lines-Leads (line ∷ lines) g valid =
    after g.books _ _ (handle_output_line-Leads (trim line) g valid)
      (λ next. handle_lines-Leads lines (handle_output_line (trim line) g) next)

-- Every step but the close of gdb's output, which drops the pending commands.
abbrev pub IsOpen : Step → Type 0
IsOpen stdout_closed = ⊥
IsOpen _ = Unit {0}

step-Leads :
    (s : Step) (g : GdbInstance)
    → IsOpen s
    → IsValid g.books
    → Leads (asks s) g.books (step s g).books
unfolding step disable_queue_processing
step-Leads (start p) g opened valid = process_changed (some p) g.books valid
step-Leads (send id command timeout) g opened valid =
    send_command-Leads id command timeout g.books valid
step-Leads (user_input id command timeout) g opened valid =
    send_user_input-Leads id command timeout g.books valid
step-Leads go_on g opened valid = resume_queue-Leads g.books valid
step-Leads (timer seq) g opened valid = expire-Leads seq g.books valid
step-Leads (stdout str) g opened valid =
    unfold handle_stdout_data handle_stdout_text in
    handle_lines-Leads (cut_lines (g.stdout_buf ++ to_string str)).0
      (record g { stdout_buf = (cut_lines (g.stdout_buf ++ to_string str)).1 }) valid
step-Leads (stderr str) g opened valid = unfold handle_stderr_data in stays g.books valid
step-Leads stdout_closed g opened valid = absurd opened
step-Leads stderr_closed g opened valid = unfold handle_stderr_close in by_buffer g.stderr_buf
  where
    by_buffer : (buf : Text) → Leads nobody g.books (last_error buf g).books
    by_buffer [] = stays g.books valid
    by_buffer (c ∷ s) = stays g.books valid
step-Leads stopping g opened valid = stop-Leads g.books valid
step-Leads hold g opened valid = record {
  valid = record {
    tokens = valid.tokens;
    awaited = valid.awaited;
    busy = valid.busy;
    waits = valid.waits;
  };
  kept = λ id. omega arith;
}
step-Leads release g opened valid = enable_queue_processing-Leads g.books valid
step-Leads (exit code signal) g opened valid = by_end g.books.session_ending
  where
    by_process :
        (process : Option Process) → Leads nobody g.books (exit_process process code signal g).books
    by_process none = stays g.books valid
    by_process (some p) = process_changed none g.books valid

    by_end :
        (f : Bool)
        → Leads nobody g.books
            (if f
              then record g { books = record g.books { process = none } }
              else handle_exit code signal g).books
    by_end true = process_changed none g.books valid
    by_end false = unfold handle_exit in by_process g.books.process

run-Leads :
    (steps : List Step) (g : GdbInstance)
    → All IsOpen steps
    → IsValid g.books
    → IsValid (run steps g).books
      × ((id : ℕ) → promises id (run steps g).books ≡ asked id steps + promises id g.books)
unfolding run
run-Leads [] g opened valid = (valid, λ id. omega arith)
run-Leads (s ∷ steps) g (opened, all) valid =
    let led = step-Leads s g opened valid in
    let (later, kept) = run-Leads steps (step s g) all led.valid in
    (later, λ id. omega (arith, led.kept id, kept id))

new_gdb-IsValid : IsValid new_gdb.books
unfolding new_gdb
new_gdb-IsValid = record {
  tokens = record { below = λ seq h. refl; once = λ seq. omega arith };
  awaited = refl;
  busy = refl;
  waits = λ f. refl;
}

-- After every sequence of steps in which gdb's output is not closed: the tokens of the pending commands
-- are different and below the next one; the loop of the queue runs exactly while it waits for an item,
-- for which there is either one pending command or its outcome; and no item is in the queue while the
-- loop does not run.
pub run-IsValid : (steps : List Step) → All IsOpen steps → IsValid (run steps new_gdb).books
run-IsValid steps all = (run-Leads steps new_gdb all new_gdb-IsValid).0

-- After every such sequence, each command that a caller asked for is in exactly one place: in the queue,
-- awaited by its loop, pending, or answered, so no promise is lost or settled twice.
pub run-promises :
    (steps : List Step) (id : ℕ)
    → All IsOpen steps
    → promises id (run steps new_gdb).books ≡ asked id steps
unfolding new_gdb
run-promises steps id all = omega (arith, (run-Leads steps new_gdb all new_gdb-IsValid).1 id)
