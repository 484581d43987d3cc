-- ===== src/Breakpoints/Responses.antt =====
-- What a request answers, and what it leaves behind where it cannot read a reference.
use mcu_debug.Breakpoints.Kept.{All-unit}
use mcu_debug.Prelude.{
  ℕ, ◌≤◌, none, some, List, [], ◌∷◌, ◌++◌, ◌≡◌, refl, sym, ap, ◌∙◌, arith, count, length,
  if◌then◌else◌, ◌==◌,
}
use mcu_debug.Breakpoints.Args.{Command, clean_address, break_insert, address}
use mcu_debug.Breakpoints.World.{
  function_request, instruction_request, Answer, done, BkptInfo, World, Result, ok, throws, M,
  and_then, Error, bad_reference, ◌>>=◌, ◌>>◌, ids, Table, InstructionBreakpoint, modify,
  handle_msg, pure, FunctionBreakpoint,
}
use mcu_debug.Breakpoints.Settle.{
  Breakpoint, settle, report_function, condition_args, hit_args, hardware_args,
}
use mcu_debug.Breakpoints.Requests.{
  post, post_each, delete_breakpoints, replace_all, Outside, set_request, set_function_break_points,
  set_instruction_break_points, instruction_command, function_command, clear_functions,
  store_functions,
}
use mcu_debug.Breakpoints.Counts.{
  accepted, verified_ids, ids-settle, length-settle, verified_ids-settle,
}
use mcu_debug.Breakpoints.Tracking.{
  Documented, IsTracked, total, Posted, post_each-Posted, Deleted, gone, refused,
  delete_breakpoints-Deleted, insert, insert_once,
}
use mcu_debug.Breakpoints.Kinds.{function-MakesInsert}

same_number : (n : ℕ) → count n (n ∷ []) ≡ 1
same_number n = ground arith

throws-ne-ok : {A : Type 0} (e : Error) (a : A) → ◌≡◌ {A = Result A} (throws e) (ok a) → ⊥
throws-ne-ok e a p = cc

ok-injective : {A : Type 0} (a b : A) → ◌≡◌ {A = Result A} (ok a) (ok b) → a ≡ b
ok-injective a b p = cc

module _ {G : Type 0} (o : Outside G) (active : G → List ℕ)
    (gdb : Documented o.gdb_answers active) where
  -- Where gdb does as it documents and the tables hold its breakpoints: the response to a request for
  -- functions has one entry for each breakpoint that was asked for, and the numbers of its verified
  -- entries are those of the table afterwards, in that order.
  pub set_request-responses :
      (bps : List FunctionBreakpoint) (w : World G) (response : List Breakpoint)
      → IsTracked o.gdb_answers active gdb w
      → (set_request o (function_request bps) w).0 ≡ ok response
      → (length response ≡ length bps)
        × (verified_ids response
            ≡ ids (set_request o (function_request bps) w).1.manager.function_breakpoints)
  unfolding set_request set_function_break_points replace_all report_function
  set_request-responses bps w response tracked =
      by_delete (delete_breakpoints o.gdb_answers old w)
        (delete_breakpoints-Deleted o.gdb_answers active gdb old w)
    where
      old : List ℕ
      old = ids w.manager.function_breakpoints

      make : FunctionBreakpoint → M G Command
      make = function_command o.gdb_answers o.require

      rest : Unit {0} → M G (List Breakpoint)
      rest _ = do
        modify clear_functions
        answers ← post_each o.gdb_answers make bps
        handle_msg (settle (λ info bp. bp) report_function bps answers []).messages
        modify (store_functions (settle (λ info bp. bp) report_function bps answers []).table)
        pure (settle (λ info bp. bp) report_function bps answers []).breakpoints

      at_most_once :
          (n : ℕ) {kept_active : ℕ}
          → kept_active ≡ (if count n old == 0 then count n (active w.gdb_state) else 0)
          → kept_active ≤ 1
      at_most_once n less = ground (arith, tracked.once n)

      record_answers : List Answer → M G (List Breakpoint)
      record_answers answers = do
        handle_msg (settle (λ info bp. bp) report_function bps answers []).messages
        modify (store_functions (settle (λ info bp. bp) report_function bps answers []).table)
        pure (settle (λ info bp. bp) report_function bps answers []).breakpoints

      settled :
          (w' : World G)
          → Posted o.gdb_answers active gdb w' (length bps) (post_each o.gdb_answers make bps w')
          → (◌>>=◌ (post_each o.gdb_answers make bps) record_answers w').0 ≡ ok response
          → (length response ≡ length bps)
            × (verified_ids response
                ≡ ids
                    (◌>>=◌
                      (post_each o.gdb_answers make bps)
                      record_answers
                      w').1.manager.function_breakpoints)
      settled w' posted h =
          let p = post_each o.gdb_answers make bps w' in
          let shown =
            ok-injective (settle (λ info bp. bp) report_function bps posted.answers []).breakpoints
              response (sym (ap (λ x. (and_then x record_answers p.1).0) posted.returned) ∙ h) in
          let table =
            ids-settle (λ info (bp : FunctionBreakpoint). bp) report_function bps posted.answers []
              posted.one_each (λ n. omega (arith, posted.gdb_gained n, posted.gdb_once n)) in
          rw posted.returned (
            ap length (sym shown)
                ∙ length-settle (λ info (bp : FunctionBreakpoint). bp) report_function bps
                    posted.answers [] posted.one_each,
            ap verified_ids (sym shown)
                ∙ verified_ids-settle (λ info (bp : FunctionBreakpoint). bp) report_function
                    (λ info bp. refl) bps posted.answers [] posted.one_each
                ∙ sym table,
          )

      by_delete :
          (r : Result (Unit {0}) × World G)
          → Deleted o.gdb_answers active gdb old w r
          → (and_then r.0 rest r.1).0 ≡ ok response
          → (length response ≡ length bps)
            × (verified_ids response ≡ ids (and_then r.0 rest r.1).1.manager.function_breakpoints)
      by_delete r (refused e thrown kept same) h =
          absurd (throws-ne-ok e response (sym (ap (λ x. (and_then x rest r.1).0) thrown) ∙ h))
      by_delete r (gone returned kept less) h = rw returned (
          settled (record r.1 { manager = clear_functions r.1.manager })
            (post_each-Posted o.gdb_answers active gdb (λ bp. Unit {0}) make
              (function-MakesInsert o active gdb) bps
              (record r.1 { manager = clear_functions r.1.manager }) (All-unit bps)
              (λ n. at_most_once n (less n)))
            (sym (ap (λ x. (and_then x rest r.1).0) returned) ∙ h))

  -- The command that the first reference makes.
  abbrev first_command : ℕ → InstructionBreakpoint → Command
  first_command a bp =
      break_insert (address a bp.offset)
        (condition_args bp.condition ++ hit_args bp.hit_condition ++ hardware_args o.require)

  -- Where gdb does as it documents, the tables hold its breakpoints and none is for an instruction: a
  -- request whose first reference is an address, at which gdb sets a breakpoint, and whose second is
  -- not, throws, and gdb has a breakpoint then that stands in no table.
  pub set_request-untracked :
      (first second : InstructionBreakpoint) (a : ℕ) (info : BkptInfo) (w : World G)
      → IsTracked o.gdb_answers active gdb w
      → w.manager.instr_breakpoints ≡ []
      → o.big_int (clean_address first.instruction_reference) ≡ some a
      → o.big_int (clean_address second.instruction_reference) ≡ none
      → (o.gdb_answers (first_command a first) w.gdb_state).0 ≡ done (some info)
      → let t = set_request o (instruction_request (first ∷ second ∷ [])) w in
        (t.0 ≡ throws (bad_reference second.instruction_reference))
        × (count info.number (active t.1.gdb_state) ≡ 1)
        × (total info.number t.1.manager ≡ 0)
  unfolding set_request set_instruction_break_points replace_all delete_breakpoints post_each post
      instruction_command
  set_request-untracked first second a info w tracked empty parses fails accepts =
      let c = first_command a first in
      let gained = gdb.inserted c w.gdb_state (insert _ _) info.number in
      let fresh =
        insert_once o.gdb_answers active gdb c w.gdb_state info.number (insert _ _)
          (tracked.once info.number) in
      let one = ap (λ (x : Answer). count info.number (accepted (x ∷ []))) accepts in
      let number = same_number info.number in
      rw (empty, delete_breakpoints, parses, instruction_command, fails)
        (
          refl,
          omega (arith, gained, fresh, one, number),
          omega (
            arith,
            tracked.same info.number,
            fresh,
            one,
            number,
            ap (λ (t : Table InstructionBreakpoint). count info.number (ids t)) empty,
          ),
        )
