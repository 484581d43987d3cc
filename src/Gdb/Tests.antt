-- ===== src/Gdb/Tests.antt =====
-- Runs of a GdbInstance, and its theorems at concrete output.
use mcu_debug.Prelude.{ℕ, true, none, some, List, [], ◌∷◌, ◌≡◌, refl, arith, codes, All}
use mcu_debug.Mi.Chars.{trim}
use mcu_debug.Lines.Chunks.{joined}
use mcu_debug.Gdb.State.{Process, GdbInstance, new_gdb}
use mcu_debug.Gdb.Output.{handle_stdout_data, handle_stdout_text, handle_lines, handle_stdout_close}
use mcu_debug.Gdb.Utf8.{to_string, decode_from, decode_byte, decode_first, decode_more, units}
use mcu_debug.Lines.Cut.{cut_by}
use mcu_debug.Gdb.Run.{
  Step, start, send, user_input, go_on, timer, stdout, stopping, exit, run, asked,
}
use mcu_debug.Gdb.Valid.{IsValid, promises}
use mcu_debug.Gdb.Chunks.{IsComplete, handle_chunks, handle_chunks-joined}
use mcu_debug.Gdb.Safe.{IsOpen, run-IsValid, run-promises}
use mcu_debug.Gdb.Close.{HasNoFeed, handle_stdout_close_lem}

abbrev open_process : Process
open_process = record { writable = true; readable = true; write_fails = none }

-- Two commands, the answer to the first in two chunks, the time-out of the second, and the end.
abbrev two_commands : List Step
two_commands =
    start open_process
    ∷ send 7 (codes "-break-list") 1000
    ∷ send 8 (codes "exec-run") 1000
    ∷ stdout (codes "1^do")
    ∷ stdout (codes "ne\n(gdb)\n")
    ∷ go_on
    ∷ timer 2
    ∷ go_on
    ∷ user_input 8 (codes "info mem") 0
    ∷ stopping
    ∷ go_on
    ∷ exit (some 0) none
    ∷ []

two_commands-IsOpen : All IsOpen two_commands
two_commands-IsOpen = (tt, (tt, (tt, (tt, (tt, (tt, (tt, (tt, (tt, (tt, (tt, (tt, tt))))))))))))

run-IsValid_example : IsValid (run two_commands new_gdb).books
run-IsValid_example = run-IsValid two_commands two_commands-IsOpen

run-promises_example : promises 8 (run two_commands new_gdb).books ≡ asked 8 two_commands
run-promises_example = run-promises two_commands 8 two_commands-IsOpen

abbrev running_chunks : List (List ℕ)
running_chunks = codes "ning,thread-id=\"all\"" ∷ codes "\n(gdb" ∷ codes ")\n~\"a" ∷ []

running_chunks-IsComplete : All IsComplete (codes "*run" ∷ running_chunks)
unfolding decode_byte decode_first
running_chunks-IsComplete = (refl, (refl, (refl, (refl, tt))))

handle_chunks-joined_example :
    handle_chunks (codes "*run" ∷ running_chunks) new_gdb
    ≡ handle_stdout_data (joined (codes "*run" ∷ running_chunks)) new_gdb
handle_chunks-joined_example =
    handle_chunks-joined (codes "*run") running_chunks new_gdb running_chunks-IsComplete

-- A character that is cut in two becomes two replacement characters.
cut_character :
    ((handle_chunks ((0xC3 ∷ []) ∷ (0xA9 ∷ []) ∷ []) new_gdb).stdout_buf ≡ 0xFFFD ∷ 0xFFFD ∷ [])
    × ((handle_stdout_data (0xC3 ∷ 0xA9 ∷ []) new_gdb).stdout_buf ≡ 0xE9 ∷ [])
unfolding handle_stdout_data handle_stdout_text handle_lines cut_by to_string decode_from
    decode_byte decode_first decode_more units new_gdb
cut_character = (refl, refl)

abbrev late : GdbInstance
late = record new_gdb { stdout_buf = codes "3^done " }

late-HasNoFeed : HasNoFeed (codes "3^done ")
late-HasNoFeed = (
  λ e. omega (arith, e),
  (
    λ e. omega (arith, e),
    (
      λ e. omega (arith, e),
      (
        λ e. omega (arith, e),
        (λ e. omega (arith, e), (λ e. omega (arith, e), (λ e. omega (arith, e), tt))),
      ),
    ),
  ),
)

handle_stdout_close_lem_example : handle_stdout_close late ≡ record late {
  stdout_buf = trim (codes "3^done ");
  books = record late.books { pending_cmds = [] };
}
handle_stdout_close_lem_example =
    handle_stdout_close_lem late b'3' (codes "^done ") refl late-HasNoFeed
