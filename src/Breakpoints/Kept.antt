-- ===== src/Breakpoints/Kept.antt =====
-- Every request leaves the tables and gdb's breakpoints the same, also around a stop of the target.
use mcu_debug.Prelude.{
  sym, ap, subst, ◌++◌, Bool-cases, inl, inr, ℕ, List, [], ◌∷◌, ◌≡◌, arith, count, All,
}
use mcu_debug.Breakpoints.Args.{Command, exec_interrupt, exec_continue}
use mcu_debug.Breakpoints.World.{
  Request, source_request, instruction_request, function_request, data_request, Answer, done,
  failed, World, Result, M, Error, ◌>>◌, ids,
}
use mcu_debug.Breakpoints.Settle.{
  Breakpoint, file_table, clear_file, set_file, keep_source, report_source, report_instruction,
  report_function, report_data,
}
use mcu_debug.Breakpoints.Requests.{
  arm, run_armed, handle_stop, post, require_done, Outside, set_request, handle_request,
  execute_while_stopped, finally_continue, source_command, instruction_command, function_command,
  data_command, clear_instructions, store_instructions, clear_functions, store_functions,
  clear_data, store_data, set_break_points, set_instruction_break_points, set_function_break_points,
  set_data_break_points,
}
use mcu_debug.Breakpoints.Tracking.{Documented, IsTracked, replace_all-IsTracked}
use mcu_debug.Breakpoints.Kinds.{
  Parses, source-MakesInsert, instruction-MakesInsert, function-MakesInsert, data-MakesInsert,
  file-Replaces, instructions-Replaces, functions-Replaces, data-Replaces,
}

pub All-unit : {X : Type 0} → (xs : List X) → All (λ (x : X). Unit {0}) xs
All-unit [] = tt
All-unit (x ∷ xs) = (tt, All-unit xs)

module _ {G : Type 0} (o : Outside G) (active : G → List ℕ)
    (gdb : Documented o.gdb_answers active) where
  -- In a request for instructions every reference is an address.
  abbrev pub IsReadable : Request → Type 0
  IsReadable (source_request path bps) = Unit {0}
  IsReadable (instruction_request bps) = All (Parses o active gdb) bps
  IsReadable (function_request bps) = Unit {0}
  IsReadable (data_request bps) = Unit {0}

  set_request-IsTracked :
      (request : Request) (w : World G)
      → IsReadable request
      → IsTracked o.gdb_answers active gdb w
      → IsTracked o.gdb_answers active gdb (set_request o request w).1
  unfolding set_request set_break_points set_instruction_break_points set_function_break_points
      set_data_break_points
  set_request-IsTracked (source_request path bps) w readable tracked =
      let file = o.canonicalize_path path in
      replace_all-IsTracked o.gdb_answers active gdb (λ bp. Unit {0})
        (source_command o.gdb_answers file o.require) keep_source report_source
        (ids (file_table file w.manager)) (clear_file file) (set_file file) bps w
        (source-MakesInsert o active gdb file) (All-unit bps) (file-Replaces file w.manager) tracked
  set_request-IsTracked (instruction_request bps) w readable tracked =
      replace_all-IsTracked o.gdb_answers active gdb (Parses o active gdb)
        (instruction_command o.gdb_answers o.big_int o.require) (λ info bp. bp) report_instruction
        (ids w.manager.instr_breakpoints) clear_instructions store_instructions bps w
        (instruction-MakesInsert o active gdb) readable (instructions-Replaces w.manager) tracked
  set_request-IsTracked (function_request bps) w readable tracked =
      replace_all-IsTracked o.gdb_answers active gdb (λ bp. Unit {0})
        (function_command o.gdb_answers o.require) (λ info bp. bp) report_function
        (ids w.manager.function_breakpoints) clear_functions store_functions bps w
        (function-MakesInsert o active gdb) (All-unit bps) (functions-Replaces w.manager) tracked
  set_request-IsTracked (data_request bps) w readable tracked =
      replace_all-IsTracked o.gdb_answers active gdb (λ bp. Unit {0}) (data_command o.gdb_answers)
        (λ info bp. bp) report_data (ids w.manager.data_breakpoints) clear_data store_data bps w
        (data-MakesInsert o active gdb) (All-unit bps) (data-Replaces w.manager) tracked

  required-IsTracked :
      (a : Answer) (wrap : Error → Error) (k : M G (List Breakpoint)) (w : World G)
      → IsTracked o.gdb_answers active gdb w
      → IsTracked o.gdb_answers active gdb (k w).1
      → IsTracked o.gdb_answers active gdb ((require_done o.gdb_answers wrap a >> k) w).1
  unfolding require_done
  required-IsTracked (done info) wrap k w tracked inside = inside
  required-IsTracked (failed text) wrap k w tracked inside = tracked

  posted-IsTracked :
      (c : Command) (w : World G)
      → ((n : ℕ) → count n (active (o.gdb_answers c w.gdb_state).1) ≡ count n (active w.gdb_state))
      → IsTracked o.gdb_answers active gdb w
      → IsTracked o.gdb_answers active gdb (post o.gdb_answers c w).1
  unfolding post
  posted-IsTracked c w kept tracked = record {
    same = λ n. omega (arith, kept n, tracked.same n);
    once = λ n. omega (arith, kept n, tracked.once n);
  }

  finally_continue-IsTracked :
      (result : Result (List Breakpoint)) (w : World G)
      → IsTracked o.gdb_answers active gdb w
      → IsTracked o.gdb_answers active gdb (finally_continue o.gdb_answers result w).1
  unfolding finally_continue post
  finally_continue-IsTracked result w tracked =
      required-IsTracked (o.gdb_answers exec_continue w.gdb_state).0 (λ e. e) (λ w'. (result, w'))
        (post o.gdb_answers exec_continue w).1
        (posted-IsTracked exec_continue w (gdb.continued w.gdb_state) tracked)
        (posted-IsTracked exec_continue w (gdb.continued w.gdb_state) tracked)

  armed-IsTracked :
      (w : World G) (armed : List Request)
      → IsTracked o.gdb_answers active gdb w
      → IsTracked o.gdb_answers active gdb (record w { armed = armed })
  armed-IsTracked w armed tracked = record { same = tracked.same; once = tracked.once }

  handle_stop-IsTracked :
      (operation : Request → M G (List Breakpoint)) (request : Request) (w : World G)
      → w.armed ≡ request ∷ []
      → ((w' : World G)
          → IsTracked o.gdb_answers active gdb w'
          → IsTracked o.gdb_answers active gdb (operation request w').1)
      → IsTracked o.gdb_answers active gdb w
      → IsTracked o.gdb_answers active gdb (handle_stop o.gdb_answers operation w).1
  unfolding handle_stop
  handle_stop-IsTracked operation request w e inside tracked = by_armed w.armed e
    where
      by_armed :
          (armed : List Request)
          → armed ≡ request ∷ []
          → IsTracked o.gdb_answers active gdb
              (run_armed o.gdb_answers operation armed (record w { armed = [] })).1
      by_armed armed f =
          subst
            (λ l.
              IsTracked o.gdb_answers active gdb
                (run_armed o.gdb_answers operation l (record w { armed = [] })).1)
            (sym f)
            (unfold run_armed in inside (record w { armed = [] }) (armed-IsTracked w [] tracked))

  -- What an operation keeps holds also where the target is stopped before and continued after.
  execute_while_stopped-IsTracked :
      (operation : Request → M G (List Breakpoint)) (request : Request) (w : World G)
      → w.armed ≡ []
      → ((w' : World G)
          → IsTracked o.gdb_answers active gdb w'
          → IsTracked o.gdb_answers active gdb (operation request w').1)
      → IsTracked o.gdb_answers active gdb w
      → IsTracked o.gdb_answers active gdb
          (execute_while_stopped o.gdb_answers o.is_running operation request w).1
  unfolding execute_while_stopped post arm
  execute_while_stopped-IsTracked operation request w none_armed inside tracked =
      elim (Bool-cases (o.is_running w.gdb_state)) [
        | inl running ↦
            let armed = record w { armed = w.armed ++ request ∷ [] } in
            let stopped =
              posted-IsTracked exec_interrupt armed (gdb.interrupted w.gdb_state)
                (armed-IsTracked w (w.armed ++ request ∷ []) tracked) in
            let attempt =
              (require_done o.gdb_answers (λ e. e) (o.gdb_answers exec_interrupt w.gdb_state).0
                  >> handle_stop o.gdb_answers operation)
                (post o.gdb_answers exec_interrupt armed).1 in
            rw running (
              finally_continue-IsTracked attempt.0 attempt.1 (
                required-IsTracked (o.gdb_answers exec_interrupt w.gdb_state).0 (λ e. e)
                  (handle_stop o.gdb_answers operation) (post o.gdb_answers exec_interrupt armed).1
                  stopped
                  (handle_stop-IsTracked operation request
                    (post o.gdb_answers exec_interrupt armed).1
                    (ap (λ l. l ++ request ∷ []) none_armed) inside stopped)))
        | inr still ↦ rw still (inside w tracked)
      ]

  -- Where gdb does as it documents, every reference of the request is an address, and no operation of
  -- an earlier request is armed: if the tables hold exactly the breakpoints that gdb has, they do so
  -- after the request, whether it returns or throws, and whichever of its commands gdb refuses.
  pub handle_request-IsTracked :
      (request : Request) (w : World G)
      → IsReadable request
      → w.armed ≡ []
      → IsTracked o.gdb_answers active gdb w
      → IsTracked o.gdb_answers active gdb (handle_request o request w).1
  unfolding handle_request
  handle_request-IsTracked request w readable none_armed tracked =
      execute_while_stopped-IsTracked (set_request o) request w none_armed
        (λ w' held. set_request-IsTracked request w' readable held) tracked
