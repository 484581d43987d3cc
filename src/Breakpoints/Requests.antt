-- ===== src/Breakpoints/Requests.antt =====
-- The four requests, `deleteBreakpoints` and `executeWhileStopped`. All commands of a request go out
-- before the first answer is looked at; gdb answers them in their order.
use mcu_debug.Prelude.{ℕ, Bool, Option, none, some, List, [], ◌∷◌, ◌++◌, if◌then◌else◌}
use mcu_debug.Mi.Chars.{Text}
use mcu_debug.Breakpoints.Args.{
  BkptArg, log_message, source, address, function, Command, break_insert, dprintf_insert,
  break_watch, break_delete, break_delete_all, exec_interrupt, exec_continue, clean_address,
}
use mcu_debug.Breakpoints.World.{
  Error, gdb, deleting, bad_reference, Answer, done, failed, hardware_dprintf, Table, ids, Request,
  source_request, instruction_request, function_request, data_request, SourceBreakpoint,
  InstructionBreakpoint, FunctionBreakpoint, DataBreakpoint, Manager, Result, ok, M, ◌>>=◌, ◌>>◌,
  pure, throw, modify, handle_msg, BkptInfo,
}
use mcu_debug.Breakpoints.Settle.{
  Breakpoint, settle, condition_args, hit_args, hit_messages, hardware_args, keep_source,
  report_source, report_instruction, report_function, report_data, access_of, file_table,
  clear_file, set_file,
}

abbrev pub clear_instructions : Manager → Manager
clear_instructions m = record m { instr_breakpoints = [] }

abbrev pub store_instructions : Table InstructionBreakpoint → Manager → Manager
store_instructions table m = record m { instr_breakpoints = table }

abbrev pub clear_functions : Manager → Manager
clear_functions m = record m { function_breakpoints = [] }

abbrev pub store_functions : Table FunctionBreakpoint → Manager → Manager
store_functions table m = record m { function_breakpoints = table }

abbrev pub clear_data : Manager → Manager
clear_data m = record m { data_breakpoints = [] }

abbrev pub store_data : Table DataBreakpoint → Manager → Manager
store_data table m = record m { data_breakpoints = table }

module _ {G : Type 0} (gdb_answers : Command → G → Answer × G) where
  unfoldable pub post : Command → M G Answer
  post command w =
      let (answer, g) = gdb_answers command w.gdb_state in
      (ok answer, record w { gdb_state = g; sent = w.sent ++ command ∷ [] })

  -- `await` of a command whose answer is not used.
  unfoldable pub require_done : (Error → Error) → Answer → M G (Unit {0})
  require_done wrap (done info) = pure tt
  require_done wrap (failed text) = throw (wrap (gdb text))

  unfoldable pub delete_breakpoints : List ℕ → M G (Unit {0})
  delete_breakpoints [] = pure tt
  delete_breakpoints (id ∷ list) = do
    answer ← post (break_delete (id ∷ list))
    require_done deleting answer

  unfoldable pub post_each : {X : Type 0} → (X → M G Command) → List X → M G (List Answer)
  post_each make [] = pure []
  post_each make (x ∷ xs) = do
    command ← make x
    answer ← post command
    answers ← post_each make xs
    pure (answer ∷ answers)

  unfoldable pub delete_all_breakpoints : M G (Unit {0})
  delete_all_breakpoints = do answer ← post break_delete_all; require_done deleting answer

  -- `finally`: the last command goes out after a throw too, and its own failure counts.
  unfoldable pub finally_continue : {A : Type 0} → Result A → M G A
  finally_continue result = do
    answer ← post exec_continue
    require_done (λ e. e) answer
    (λ w. (result, w))

  -- `once("stopped")`.
  unfoldable pub arm : Request → M G (Unit {0})
  arm request w = (ok tt, record w { armed = w.armed ++ request ∷ [] })

  -- The operations that a stop lets run, with the outcome of the last. Those before it are of requests
  -- that have failed, so nothing takes their outcome. Each runs to its end here before the next.
  unfoldable pub run_armed :
      (Request → M G (List Breakpoint)) → List Request → M G (List Breakpoint)
  run_armed operation [] = pure []
  run_armed operation (request ∷ []) = operation request
  run_armed operation (request ∷ next ∷ rest) =
      (λ w. run_armed operation (next ∷ rest) (operation request w).1)

  -- gdb says that the target stopped.
  unfoldable pub handle_stop : (Request → M G (List Breakpoint)) → M G (List Breakpoint)
  handle_stop operation w = run_armed operation w.armed (record w { armed = [] })

  -- The operation is armed before the interrupt goes out, which the stop follows. If gdb refuses the
  -- interrupt, the operation stays armed.
  unfoldable pub execute_while_stopped :
      (G → Bool) → (Request → M G (List Breakpoint)) → Request → M G (List Breakpoint)
  execute_while_stopped is_running operation request w =
      if is_running w.gdb_state
      then (let attempt = (do
        arm request
        answer ← post exec_interrupt
        require_done (λ e. e) answer
        handle_stop operation) in
          let (result, w') = attempt w in finally_continue result w')
      else operation request w

  -- A log point goes out without its text where hardware breakpoints are required.
  unfoldable pub log_command : Text → Option ℕ → List BkptArg → Bool → Text → M G Command
  log_command file line args require [] = pure (break_insert (source file line) args)
  log_command file line args require (c ∷ s) =
      if require
      then (do
        handle_msg (hardware_dprintf file line ∷ [])
        pure (dprintf_insert (source file line) args))
      else pure (dprintf_insert (source file line) (args ++ log_message (c ∷ s) ∷ []))

  unfoldable pub source_command : Text → Bool → SourceBreakpoint → M G Command
  source_command file require bp = do
    handle_msg (hit_messages bp.hit_condition)
    log_command file bp.line
        (condition_args bp.condition ++ hit_args bp.hit_condition ++ hardware_args require) require
        bp.log_message

  unfoldable pub instruction_command :
      (Text → Option ℕ) → Bool → InstructionBreakpoint → M G Command
  instruction_command big_int require bp = elim (big_int (clean_address bp.instruction_reference)) [
    | none ↦ throw (bad_reference bp.instruction_reference)
    | some base ↦ do
      handle_msg (hit_messages bp.hit_condition)
      pure (
          break_insert (address base bp.offset)
            (condition_args bp.condition ++ hit_args bp.hit_condition ++ hardware_args require))
  ]

  unfoldable pub function_command : Bool → FunctionBreakpoint → M G Command
  function_command require bp = do
    handle_msg (hit_messages bp.hit_condition)
    pure (
        break_insert (function bp.name)
          (condition_args bp.condition ++ hit_args bp.hit_condition ++ hardware_args require))

  unfoldable pub data_command : DataBreakpoint → M G Command
  data_command bp = pure (break_watch (access_of bp.access_type) bp.data_id)

  -- What the four requests have in common: the old breakpoints `old` are deleted and forgotten, the
  -- new ones are sent, and what gdb took goes into the table.
  unfoldable pub replace_all :
      {X : Type 0}
      → List ℕ
      → (Manager → Manager)
      → (X → M G Command)
      → (BkptInfo → X → X)
      → (BkptInfo → X → Breakpoint)
      → (Table X → Manager → Manager)
      → List X
      → M G (List Breakpoint)
  replace_all old clear make keep report store bps = do
    delete_breakpoints old
    modify clear
    answers ← post_each make bps
    handle_msg (settle keep report bps answers []).messages
    modify (store (settle keep report bps answers []).table)
    pure (settle keep report bps answers []).breakpoints

  unfoldable pub set_break_points :
      (Text → Text) → Bool → Text → List SourceBreakpoint → M G (List Breakpoint)
  set_break_points canonicalize_path require path bps w =
      let file = canonicalize_path path in
      replace_all (ids (file_table file w.manager)) (clear_file file) (source_command file require)
        keep_source report_source (set_file file) bps w

  unfoldable pub set_instruction_break_points :
      (Text → Option ℕ) → Bool → List InstructionBreakpoint → M G (List Breakpoint)
  set_instruction_break_points big_int require bps w =
      replace_all (ids w.manager.instr_breakpoints) clear_instructions
        (instruction_command big_int require) (λ info bp. bp) report_instruction store_instructions
        bps w

  unfoldable pub set_function_break_points : Bool → List FunctionBreakpoint → M G (List Breakpoint)
  set_function_break_points require bps w =
      replace_all (ids w.manager.function_breakpoints) clear_functions (function_command require)
        (λ info bp. bp) report_function store_functions bps w

  unfoldable pub set_data_break_points : List DataBreakpoint → M G (List Breakpoint)
  set_data_break_points bps w =
      replace_all (ids w.manager.data_breakpoints) clear_data data_command (λ info bp. bp)
        report_data store_data bps w

-- What the requests take from outside: gdb, whether its target runs, the canonical form of a path,
-- the language's `BigInt`, and the option that requires hardware breakpoints.
pub record Outside (G : Type 0) : Type 0 where
  pub gdb_answers : Command → G → Answer × G
  pub is_running : G → Bool
  pub canonicalize_path : Text → Text
  pub big_int : Text → Option ℕ
  pub require : Bool

unfoldable pub set_request : {G : Type 0} → Outside G → Request → M G (List Breakpoint)
set_request o (source_request path bps) =
    set_break_points o.gdb_answers o.canonicalize_path o.require path bps
set_request o (instruction_request bps) =
    set_instruction_break_points o.gdb_answers o.big_int o.require bps
set_request o (function_request bps) = set_function_break_points o.gdb_answers o.require bps
set_request o (data_request bps) = set_data_break_points o.gdb_answers bps

unfoldable pub handle_request : {G : Type 0} → Outside G → Request → M G (List Breakpoint)
handle_request o = execute_while_stopped o.gdb_answers o.is_running (set_request o)
