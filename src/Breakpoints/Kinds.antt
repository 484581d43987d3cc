-- ===== src/Breakpoints/Kinds.antt =====
-- The four kinds of request, each with its table.
use mcu_debug.Prelude.{
  if_pos, if_neg, inl, inr, Option-cases, append-nil, if◌then◌else◌, ap, ◌∙◌, ℕ, ◌+◌, Bool, true,
  false, Option, none, some, List, [], ◌∷◌, ◌++◌, ◌≡◌, refl, arith, count,
}
use mcu_debug.Mi.Chars.{Text}
use mcu_debug.Breakpoints.Args.{
  BkptArg, Command, clean_address, break_insert, dprintf_insert, break_watch, source, address,
  function, log_message,
}
use mcu_debug.Breakpoints.World.{
  Table, ids, Manager, World, ok, SourceBreakpoint, InstructionBreakpoint, get_entry, set_entry,
  Message, hardware_dprintf,
}
use mcu_debug.Breakpoints.Settle.{
  Text_discrete, file_table, table_or_empty, clear_file, set_file, access_of, condition_args,
  hit_args, hit_messages, hardware_args,
}
use mcu_debug.Breakpoints.Requests.{
  source_command, log_command, instruction_command, function_command, data_command,
  clear_instructions, store_instructions, clear_functions, store_functions, clear_data, store_data,
  Outside,
}
use mcu_debug.Breakpoints.Counts.{count_files, count_files-set_entry}
use mcu_debug.Breakpoints.Tracking.{
  IsInsert, insert, log, watch, Documented, total, MakesInsert, Replaces,
}

pub instructions-Replaces :
    (m : Manager) → Replaces m (ids m.instr_breakpoints) clear_instructions store_instructions
instructions-Replaces m = record {
  others = λ n.
      count_files n m.file_breakpoints
      + count n (ids m.function_breakpoints)
      + count n (ids m.data_breakpoints);
  before = λ n. omega arith;
  cleared = λ n. omega arith;
  stored = λ t n. omega arith;
}

pub functions-Replaces :
    (m : Manager) → Replaces m (ids m.function_breakpoints) clear_functions store_functions
functions-Replaces m = record {
  others = λ n.
      count_files n m.file_breakpoints
      + count n (ids m.instr_breakpoints)
      + count n (ids m.data_breakpoints);
  before = λ n. omega arith;
  cleared = λ n. omega arith;
  stored = λ t n. omega arith;
}

pub data-Replaces : (m : Manager) → Replaces m (ids m.data_breakpoints) clear_data store_data
data-Replaces m = record {
  others = λ n.
      count_files n m.file_breakpoints
      + count n (ids m.instr_breakpoints)
      + count n (ids m.function_breakpoints);
  before = λ n. omega arith;
  cleared = λ n. omega arith;
  stored = λ t n. omega arith;
}

get_entry-set_entry_self :
    (file : Text) (t : Table SourceBreakpoint) (files : List (Text × Table SourceBreakpoint))
    → get_entry Text_discrete file (set_entry Text_discrete file t files) ≡ some t
unfolding get_entry set_entry
get_entry-set_entry_self file t [] = if_pos (Text_discrete file file) refl (some t) none
get_entry-set_entry_self file t ((other, u) ∷ files) = elim (Text_discrete other file) [
  | yes e ↦
      rw (if_pos (Text_discrete other file) e)
        (if_pos (Text_discrete file file) refl (some t) (get_entry Text_discrete file files))
  | no ne ↦ rw (if_neg (Text_discrete other file) ne) (
      if_neg (Text_discrete other file) ne (some u)
        (get_entry Text_discrete file (set_entry Text_discrete file t files))
      ∙ get_entry-set_entry_self file t files)
]

file_table-clear_file : (file : Text) (m : Manager) → file_table file (clear_file file m) ≡ []
unfolding clear_file file_table
file_table-clear_file file m =
    elim (Option-cases (get_entry Text_discrete file m.file_breakpoints)) [
      | inl e ↦ rw (e, clear_file) (ap table_or_empty e)
      | inr (t, e) ↦
          rw (e, clear_file)
            (ap table_or_empty (get_entry-set_entry_self file [] m.file_breakpoints))
    ]

total-clear_file :
    (n : ℕ) (file : Text) (m : Manager)
    → total n m ≡ count n (ids (file_table file m)) + total n (clear_file file m)
unfolding clear_file file_table
total-clear_file n file m = elim (Option-cases (get_entry Text_discrete file m.file_breakpoints)) [
  | inl e ↦ rw (e, clear_file) (omega arith)
  | inr (t, e) ↦
      let set = count_files-set_entry n file [] m.file_breakpoints in
      let here = ap (λ (o : Option (Table SourceBreakpoint)). count n (ids (table_or_empty o))) e in
      rw (e, clear_file) (omega (arith, set, here))
]

pub file-Replaces :
    (file : Text) (m : Manager)
    → Replaces m (ids (file_table file m)) (clear_file file) (set_file file)
unfolding set_file file_table
file-Replaces file m = record {
  others = λ n. total n (clear_file file m);
  before = λ n. total-clear_file n file m;
  cleared = λ n. refl;
  stored = λ t n. omega (
    arith,
    count_files-set_entry n file t (clear_file file m).file_breakpoints,
    ap (λ (u : Table SourceBreakpoint). count n (ids u)) (file_table-clear_file file m),
  );
}

-- The command of a log point or a breakpoint, and the message about it.
abbrev log_made : Text → Option ℕ → List BkptArg → Bool → Text → Command
log_made file line args require [] = break_insert (source file line) args
log_made file line args require (c ∷ s) =
    dprintf_insert (source file line) (if require then args else args ++ log_message (c ∷ s) ∷ [])

abbrev log_shown : Text → Option ℕ → Bool → Text → List Message
log_shown file line require [] = []
log_shown file line require (c ∷ s) = if require then hardware_dprintf file line ∷ [] else []

log_inserts :
    (file : Text) (line : Option ℕ) (args : List BkptArg) (require : Bool) (text : Text)
    → IsInsert (log_made file line args require text)
log_inserts file line args require [] = insert (source file line) args
log_inserts file line args require (c ∷ s) =
    log (source file line) (if require then args else args ++ log_message (c ∷ s) ∷ [])

module _ {G : Type 0} (o : Outside G) (active : G → List ℕ)
    (gdb : Documented o.gdb_answers active) where
  log_makes :
      (file : Text) (line : Option ℕ) (args : List BkptArg) (require : Bool) (text : Text)
      (w : World G)
      → log_command o.gdb_answers file line args require text w ≡ (
        ok (log_made file line args require text),
        record w { messages = w.messages ++ log_shown file line require text },
      )
  unfolding log_command
  log_makes file line args require [] w = rw (append-nil w.messages)
  log_makes file line args true (c ∷ s) w = refl
  log_makes file line args false (c ∷ s) w = rw (append-nil w.messages)

  pub source-MakesInsert :
      (file : Text)
      → MakesInsert o.gdb_answers active gdb
          (λ bp. Unit {0})
          (source_command o.gdb_answers file o.require)
  unfolding source_command
  source-MakesInsert file =
      let args = λ (bp : SourceBreakpoint).
        condition_args bp.condition ++ hit_args bp.hit_condition ++ hardware_args o.require in
      record {
        command = λ bp p w. log_made file bp.line (args bp) o.require bp.log_message;
        shown = λ bp w.
            (w.messages ++ hit_messages bp.hit_condition)
            ++ log_shown file bp.line o.require bp.log_message;
        makes = λ bp p w.
            log_makes file bp.line (args bp) o.require bp.log_message
              (record w { messages = w.messages ++ hit_messages bp.hit_condition });
        inserts = λ bp p w. log_inserts file bp.line (args bp) o.require bp.log_message;
      }

  pub function-MakesInsert :
      MakesInsert o.gdb_answers active gdb
        (λ bp. Unit {0})
        (function_command o.gdb_answers o.require)
  unfolding function_command
  function-MakesInsert = record {
    command = λ bp p w.
        break_insert (function bp.name)
          (condition_args bp.condition ++ hit_args bp.hit_condition ++ hardware_args o.require);
    shown = λ bp w. w.messages ++ hit_messages bp.hit_condition;
    makes = λ bp p w. refl;
    inserts = λ bp p w. insert _ _;
  }

  pub data-MakesInsert :
      MakesInsert o.gdb_answers active gdb (λ bp. Unit {0}) (data_command o.gdb_answers)
  unfolding data_command
  data-MakesInsert = record {
    command = λ bp p w. break_watch (access_of bp.access_type) bp.data_id;
    shown = λ bp w. w.messages;
    makes = λ bp p w. refl;
    inserts = λ bp p w. watch _ _;
  }

  -- The reference is an address.
  abbrev pub Parses : InstructionBreakpoint → Type 0
  Parses bp = (a : ℕ) × (o.big_int (clean_address bp.instruction_reference) ≡ some a)

  pub instruction-MakesInsert :
      MakesInsert o.gdb_answers active gdb Parses
        (instruction_command o.gdb_answers o.big_int o.require)
  unfolding instruction_command
  instruction-MakesInsert = record {
    command = λ bp p w.
        break_insert (address p.0 bp.offset)
          (condition_args bp.condition ++ hit_args bp.hit_condition ++ hardware_args o.require);
    shown = λ bp w. w.messages ++ hit_messages bp.hit_condition;
    makes = λ bp p w. rw (instruction_command, p.1) refl;
    inserts = λ bp p w. insert _ _;
  }
