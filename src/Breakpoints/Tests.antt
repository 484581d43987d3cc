-- ===== src/Breakpoints/Tests.antt =====
-- Runs of the requests, and their theorems with a gdb that is a list of breakpoint numbers.
use mcu_debug.Prelude.{
  ℕ, suc, ◌+◌, true, false, ◌==◌, if◌then◌else◌, Option, none, some, List, [], ◌∷◌, ◌≡◌, refl,
  arith, count, length, codes, pos, ◌<◌,
}
use mcu_debug.Mi.Chars.{Text, span, trim}
use mcu_debug.Breakpoints.Args.{
  ignore_count, exec_interrupt, Command, break_insert, dprintf_insert, break_watch, break_delete,
  parse_hit_contion, clean_address,
}
use mcu_debug.Breakpoints.World.{
  Request, Result, failed, gdb, function_request, instruction_request, set_entry, Answer, done,
  BkptInfo, World, throws, bad_reference, ids, InstructionBreakpoint, FunctionBreakpoint,
}
use mcu_debug.Breakpoints.Settle.{Breakpoint, verified, settle, report_function}
use mcu_debug.Breakpoints.Requests.{
  execute_while_stopped, arm, require_done, finally_continue, Outside, set_request, handle_request,
  set_function_break_points, replace_all, delete_breakpoints, post_each, post, function_command,
}
use mcu_debug.Breakpoints.Counts.{accepted, verified_ids}
use mcu_debug.Breakpoints.Tracking.{IsInsert, insert, log, watch, Documented, IsTracked, total}
use mcu_debug.Breakpoints.Kept.{handle_request-IsTracked}
use mcu_debug.Breakpoints.Responses.{set_request-responses, set_request-untracked}
use mcu_debug.Breakpoints.Hits.{parse_hit_contion-decimal}
use mcu_debug.Mi.Keys.{decimal}

abbrev sum : List ℕ → ℕ
sum [] = 0
sum (n ∷ ns) = n + sum ns

abbrev remove : List ℕ → List ℕ → List ℕ
remove list [] = []
remove list (n ∷ ns) = if count n list == 0 then n ∷ remove list ns else remove list ns

abbrev info_of : ℕ → BkptInfo
info_of n = record { number = n; line = none; address = none; addr = none }

-- A new breakpoint gets a number above all others.
abbrev list_gdb : Command → List ℕ → Answer × List ℕ
list_gdb (break_insert l args) g = (done (some (info_of (suc (sum g)))), suc (sum g) ∷ g)
list_gdb (dprintf_insert l args) g = (done (some (info_of (suc (sum g)))), suc (sum g) ∷ g)
list_gdb (break_watch a t) g = (done (some (info_of (suc (sum g)))), suc (sum g) ∷ g)
list_gdb (break_delete list) g = (done none, remove list g)
list_gdb _ g = (done none, g)

above_sum : (n : ℕ) (g : List ℕ) → sum g < n → count n g ≡ 0
above_sum n [] h = refl
above_sum n (m ∷ g) h = ground (arith, above_sum n g)

count-remove :
    (n : ℕ) (list g : List ℕ)
    → count n (remove list g) ≡ (if count n list == 0 then count n g else 0)
count-remove n list [] = ground arith
count-remove n list (m ∷ g) = ground (arith, count-remove n list g)

list_gdb-Documented : Documented list_gdb (λ g. g)
list_gdb-Documented = record {
  inserted = λ c g i n. inserted_lem c g i n;
  fresh = λ c g info i e. fresh_lem c g info i e;
  deleted = λ list g info e n. count-remove n list g;
  kept = λ list g text e n. cc;
  interrupted = λ g n. refl;
  continued = λ g n. refl;
}
  where
    inserted_lem :
        (c : Command) (g : List ℕ)
        → IsInsert c
        → (n : ℕ)
        → count n (list_gdb c g).1 ≡ count n (accepted ((list_gdb c g).0 ∷ [])) + count n g
    inserted_lem c g (insert l args) n = ground arith
    inserted_lem c g (log l args) n = ground arith
    inserted_lem c g (watch a t) n = ground arith

    fresh_lem :
        (c : Command) (g : List ℕ) (info : BkptInfo)
        → IsInsert c
        → (list_gdb c g).0 ≡ done (some info)
        → count info.number g ≡ 0
    fresh_lem c g info (insert l args) e = above_sum info.number g (ground (arith, e))
    fresh_lem c g info (log l args) e = above_sum info.number g (ground (arith, e))
    fresh_lem c g info (watch a t) e = above_sum info.number g (ground (arith, e))

-- gdb as above with a target that runs, and two references that parse.
abbrev outside : Outside (List ℕ)
outside = record {
  gdb_answers = list_gdb;
  is_running = λ g. true;
  canonicalize_path = λ path. path;
  big_int = parse_address;
  require = false;
}
  where
    parse_address : Text → Option ℕ
    parse_address [] = none
    parse_address (c ∷ s) = if c == b'0' then some 4096 else none

abbrev empty_world : World (List ℕ)
empty_world = record {
  manager = record {
    file_breakpoints = [];
    instr_breakpoints = [];
    function_breakpoints = [];
    data_breakpoints = [];
  };
  gdb_state = [];
  sent = [];
  messages = [];
  armed = [];
}

empty_world-IsTracked : IsTracked list_gdb (λ g. g) list_gdb-Documented empty_world
empty_world-IsTracked = record { same = λ n. refl; once = λ n. omega arith }

abbrev at_reference : Text → InstructionBreakpoint
at_reference reference = record {
  instruction_reference = reference;
  offset = pos 4;
  condition = [];
  hit_condition = [];
}

abbrev at_function : Text → FunctionBreakpoint
at_function name = record { name = name; condition = codes "n > \"a\""; hit_condition = codes "3" }

handle_request-IsTracked_example :
    IsTracked list_gdb
      (λ g. g)
      list_gdb-Documented
      (handle_request outside
        (instruction_request (at_reference (codes "0x1000") ∷ at_reference (codes "0x1000") ∷ []))
        empty_world).1
unfolding clean_address span trim
handle_request-IsTracked_example =
    handle_request-IsTracked outside (λ g. g) list_gdb-Documented
      (instruction_request (at_reference (codes "0x1000") ∷ at_reference (codes "0x1000") ∷ []))
      empty_world ((4096, refl), ((4096, refl), tt)) refl empty_world-IsTracked

abbrev two_functions : List FunctionBreakpoint
two_functions = at_function (codes "main") ∷ at_function (codes "loop") ∷ []

set_request-responses_example :
    let answered = verified 1 none none ∷ verified 2 none none ∷ [] in
    (length answered ≡ 2)
    × (verified_ids answered
        ≡ ids
            (set_request outside
              (function_request two_functions)
              empty_world).1.manager.function_breakpoints)
unfolding set_request set_function_break_points replace_all delete_breakpoints post_each post
    function_command settle set_entry report_function
set_request-responses_example =
    set_request-responses outside (λ g. g) list_gdb-Documented two_functions empty_world
      (verified 1 none none ∷ verified 2 none none ∷ []) empty_world-IsTracked refl

set_request-untracked_example :
    let t =
      set_request outside
        (instruction_request (at_reference (codes "0x10") ∷ at_reference (codes "main") ∷ []))
        empty_world in
    (t.0 ≡ throws (bad_reference (codes "main")))
    × (count 1 t.1.gdb_state ≡ 1)
    × (total 1 t.1.manager ≡ 0)
unfolding clean_address span trim
set_request-untracked_example =
    set_request-untracked outside (λ g. g) list_gdb-Documented (at_reference (codes "0x10"))
      (at_reference (codes "main")) 4096 (info_of 1) empty_world empty_world-IsTracked refl refl
      refl refl

abbrev two_requests : List Request
two_requests =
    function_request two_functions ∷ instruction_request (at_reference (codes "0x1000") ∷ []) ∷ []

-- gdb that refuses every interrupt: the request throws and its operation stays armed.
abbrev stubborn : Outside (List ℕ)
stubborn = record outside { gdb_answers = refuse }
  where
    refuse : Command → List ℕ → Answer × List ℕ
    refuse exec_interrupt g = (failed (codes "no"), g)
    refuse c g = list_gdb c g

abbrev refused : Result (List Breakpoint) × World (List ℕ)
refused = handle_request stubborn (function_request []) empty_world

stays_armed : (refused.0 ≡ throws (gdb (codes "no"))) × (refused.1.armed ≡ function_request [] ∷ [])
unfolding handle_request execute_while_stopped arm post require_done finally_continue
stays_armed = (refl, refl)

parse_hit_contion-decimal_example :
    (parse_hit_contion (decimal 10) ≡ ([], true))
    × (parse_hit_contion (b'>' ∷ decimal 10) ≡ (ignore_count (some (decimal 10)) ∷ [], false))
parse_hit_contion-decimal_example = parse_hit_contion-decimal 10
