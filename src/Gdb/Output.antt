-- ===== src/Gdb/Output.antt =====
-- `handleStdoutData` and `handleOutputLine`, and the ends of the streams and of the process.
use mcu_debug.Prelude.{
  ℕ, Bool, true, false, ◌&&◌, ◌||◌, not, Option, none, some, List, [], ◌∷◌, ◌++◌, ◌==◌,
  if◌then◌else◌, codes,
}
use mcu_debug.Mi.Chars.{Text, trim}
use mcu_debug.Mi.Keys.{text_eq}
use mcu_debug.Mi.Record.{GdbMiRecord, GdbMiOutput, parse_gdb_mi_out}
use mcu_debug.Breakpoints.Args.{parse_digits}
use mcu_debug.Lines.Cut.{cut_by}
use mcu_debug.Gdb.State.{
  gdb, resolved, rejected, Pending, Process, connected, no_pending, stderr_line, quit, Front,
  GdbInstance,
}
use mcu_debug.Gdb.Books.{find_pending, delete_pending, settle_owner}
use mcu_debug.Gdb.Utf8.{to_string}
use mcu_debug.Gdb.Records.{emit, property, handle_records}

-- `parseInt` of a token, which is digits only; none for NaN.
unfoldable pub parse_token : Text → Option ℕ
parse_token [] = none
parse_token (c ∷ s) = some (parse_digits 0 (c ∷ s))

-- An answer without records of its own takes those kept from the lines before.
unfoldable pub with_kept : List GdbMiRecord → GdbMiOutput → GdbMiOutput
with_kept kept out = elim out.out_of_band_records [
  | [] ↦ record out { out_of_band_records = kept }
  | ◌∷◌ r rs ↦ out
]

abbrev pub clear_kept : Front → Front
clear_kept f = record f { current_outof_band_records = [] }

-- The answer to a pending command.
unfoldable pub handle_answer : ℕ → Pending → GdbMiRecord → GdbMiOutput → GdbInstance → GdbInstance
handle_answer token p r out g =
    let failed = text_eq r.class (codes "error") in
    let outcome =
      if failed
      then rejected (gdb (property (codes "msg") r.result))
      else resolved (with_kept g.front.current_outof_band_records out) in
    let settled = settle_owner p.owner outcome g.books in
    record g {
      books = record settled { pending_cmds = delete_pending token settled.pending_cmds };
      front = clear_kept (
          if not failed && text_eq r.class (codes "connected")
          then emit connected g.front
          else g.front);
    }

unfoldable pub find_token : Option ℕ → List Pending → Option (ℕ × Pending)
find_token none ps = none
find_token (some token) ps = elim (find_pending token ps) [ none ↦ none | some p ↦ some (token, p) ]

unfoldable pub handle_found :
    Option (ℕ × Pending) → GdbMiRecord → GdbMiOutput → GdbInstance → GdbInstance
handle_found none r out g =
    if g.books.session_ending
    then g
    else record g { front = emit (no_pending (parse_token r.token)) g.front }
handle_found (some (token, p)) r out g = handle_answer token p r out g

unfoldable pub handle_result : Option GdbMiRecord → GdbMiOutput → GdbInstance → GdbInstance
handle_result none out g = g
handle_result (some r) out g =
    handle_found (find_token (parse_token r.token) g.books.pending_cmds) r out g

-- The loop over the records, which sees the first of them.
abbrev pub handle_out_of_band : List GdbMiRecord → GdbInstance → GdbInstance
handle_out_of_band [] g = g
handle_out_of_band (r ∷ rs) g = record g { front = handle_records r (r ∷ rs) g.front }

unfoldable pub handle_output : Option GdbMiOutput → GdbInstance → GdbInstance
handle_output none g = g
handle_output (some out) g =
    handle_out_of_band out.out_of_band_records (handle_result out.result_record out g)

unfoldable pub handle_output_line : Text → GdbInstance → GdbInstance
handle_output_line line g =
    if text_eq line (codes "(gdb)")
    then record g { front = clear_kept g.front }
    else handle_output (parse_gdb_mi_out line) g

-- The loop that cuts a buffer at its line feeds: the lines, and what is left.
abbrev pub cut_lines : Text → List Text × Text
cut_lines s = cut_by (λ c. c == b'\n') s

unfoldable pub handle_lines : List Text → GdbInstance → GdbInstance
handle_lines [] g = g
handle_lines (line ∷ lines) g = handle_lines lines (handle_output_line (trim line) g)

-- Handling a line does not touch the buffer, so the rest is put there at once.
unfoldable pub handle_stdout_text : Text → GdbInstance → GdbInstance
handle_stdout_text str g =
    let cut = cut_lines (g.stdout_buf ++ str) in
    handle_lines cut.0 (record g { stdout_buf = cut.1 })

-- A chunk of bytes is decoded on its own.
unfoldable pub handle_stdout_data : List ℕ → GdbInstance → GdbInstance
handle_stdout_data data_bytes g = handle_stdout_text (to_string data_bytes) g

abbrev emit_lines : List Text → Front → Front
emit_lines [] f = f
emit_lines (line ∷ lines) f = emit_lines lines (emit (stderr_line (trim line)) f)

unfoldable pub handle_stderr_data : List ℕ → GdbInstance → GdbInstance
handle_stderr_data data_bytes g =
    let cut = cut_lines (g.stderr_buf ++ to_string data_bytes) in
    record g { stderr_buf = cut.1; front = emit_lines cut.0 g.front }

-- The line is encoded, and decoded again by `handleStdoutData`: that gives the same text, since the
-- buffer has decoded text only.
abbrev pub last_line : Text → GdbInstance → GdbInstance
last_line [] g = g
last_line (c ∷ s) g = handle_stdout_text (trim (c ∷ s)) (record g { stdout_buf = [] })

unfoldable pub handle_stdout_close : GdbInstance → GdbInstance
handle_stdout_close g =
    let g' = last_line g.stdout_buf g in record g' { books = record g'.books { pending_cmds = [] } }

abbrev pub last_error : Text → GdbInstance → GdbInstance
last_error [] g = g
last_error (c ∷ s) g = record g {
  stderr_buf = [];
  front = emit (stderr_line (trim (c ∷ s))) g.front;
}

unfoldable pub handle_stderr_close : GdbInstance → GdbInstance
handle_stderr_close g = last_error g.stderr_buf g

abbrev is_signal : Option Text → Bool
is_signal (some (c ∷ s)) = true
is_signal _ = false

-- A code other than 0, or a signal with a name.
abbrev is_unexpected : Option ℕ → Option Text → Bool
is_unexpected none signal = is_signal signal
is_unexpected (some code) signal = not (code == 0) || is_signal signal

abbrev pub exit_process : Option Process → Option ℕ → Option Text → GdbInstance → GdbInstance
exit_process none code signal g = g
exit_process (some p) code signal g = record g {
  books = record g.books { process = none };
  front = emit (quit (not g.books.session_ending && is_unexpected code signal) code signal) g.front;
}

unfoldable pub handle_exit : Option ℕ → Option Text → GdbInstance → GdbInstance
handle_exit code signal g = exit_process g.books.process code signal g
