-- ===== src/Gdb/Records.antt =====
-- The records of gdb's output that are no answers: `handleStopped` and the loop of `handleOutputLine`.
use mcu_debug.Prelude.{
  Bool, true, false, ◌||◌, Option, none, some, List, [], ◌∷◌, ◌++◌, ◌==◌, if◌then◌else◌, codes,
}
use mcu_debug.Mi.Chars.{Text}
use mcu_debug.Mi.Keys.{text_eq}
use mcu_debug.Mi.Parser.{Value, Values, nil, cons, const, tuple, list, Fields, end, field}
use mcu_debug.Mi.Record.{GdbMiRecord, async, stream, console, log, target, notify}
use mcu_debug.Gdb.State.{
  running, stopped, breakpoint, watchpoint, watchpoint_scope, step_end, step_out_end, signal_stop,
  exited_normally, thread_created, thread_exited, thread_selected, generic_stopped, Reason, entry,
  unknown, given, Event, emitted, halted, started_running, console_text, program_exited,
  program_stopped, other_reason, crashed, Front,
}

-- `result[key]`; a key of an object stands in it once.
unfoldable pub field_of : Text → Fields → Option Value
field_of key end = none
field_of key (field k v rest) =
    let later = field_of key rest in if text_eq key k then some v else later

unfoldable pub property : Text → Value → Option Value
property key (tuple fields) = field_of key fields
property key _ = none

unfoldable pub is_prefix : Text → Text → Bool
is_prefix [] t = true
is_prefix (c ∷ s) [] = false
is_prefix (c ∷ s) (d ∷ t) = let rest = is_prefix s t in if c == d then rest else false

-- `includes`.
unfoldable pub is_within : Text → Text → Bool
is_within s [] = is_prefix s []
is_within s (d ∷ t) = is_prefix s (d ∷ t) || is_within s t

abbrev pub emit : Event → Front → Front
emit e f = record f { events = e ∷ f.events }

-- The chain of tests on a reason that is a text that is not empty.
unfoldable pub reason_events : GdbMiRecord → Text → Front → Front
reason_events r reason f =
    if text_eq reason (codes "breakpoint-hit")
    then emit (emitted breakpoint r) f
    else if is_within (codes "watchpoint-trigger") reason
    then emit (emitted watchpoint r) f
    else if is_within (codes "watchpoint-scope") reason
    then emit (emitted watchpoint_scope r) f
    else if text_eq reason (codes "end-stepping-range")
    then emit (emitted step_end r) f
    else if text_eq reason (codes "function-finished")
    then emit (emitted step_out_end r) f
    else if text_eq reason (codes "signal-received")
    then emit (emitted signal_stop r) f
    else if text_eq reason (codes "exited-normally")
    then emit (emitted exited_normally r) f
    else if text_eq reason (codes "exited")
    then emit (emitted exited_normally r)
        (emit (program_exited (property (codes "exit-code") r.result)) f)
    else emit (other_reason (given (const reason))) f

-- The last lines of `handleStopped`.
unfoldable pub stopped_with : GdbMiRecord → Reason → Front → Front
stopped_with r reason f =
    emit (emitted generic_stopped r) (emit (halted r reason) (record f { first_stop = false }))

abbrev is_text : Text → Value → Bool
is_text s (const t) = text_eq s t
is_text s _ = false

-- `includes` of an array.
unfoldable pub has_element : Text → Values → Bool
has_element s nil = false
has_element s (cons v rest) = let later = has_element s rest in is_text s v || later

-- A reason is a text as a rule. An array has an `includes` too, an object has none.
unfoldable pub handle_reason : GdbMiRecord → Option Value → Front → Front
handle_reason r none f =
    if f.first_stop
    then stopped_with r entry (emit program_stopped f)
    else stopped_with r unknown (emit (other_reason unknown) f)
handle_reason r (some (const [])) f = stopped_with r unknown (emit (other_reason unknown) f)
handle_reason r (some (const (c ∷ s))) f =
    stopped_with r (given (const (c ∷ s))) (reason_events r (c ∷ s) f)
handle_reason r (some (tuple fields)) f = emit crashed f
handle_reason r (some (list values)) f =
    if has_element (codes "watchpoint-trigger") values
    then stopped_with r (given (list values)) (emit (emitted watchpoint r) f)
    else if has_element (codes "watchpoint-scope") values
    then stopped_with r (given (list values)) (emit (emitted watchpoint_scope r) f)
    else stopped_with r (given (list values)) (emit (other_reason (given (list values))) f)

-- It is called with an output that has a record, of which it takes the first.
unfoldable pub handle_stopped : GdbMiRecord → Front → Front
handle_stopped r f =
    handle_reason r (property (codes "reason") r.result) (record f { status = stopped })

unfoldable pub handle_notify : GdbMiRecord → Front → Front
handle_notify r f =
    if text_eq r.class (codes "thread-created")
    then emit (emitted thread_created r) f
    else if text_eq r.class (codes "thread-exited")
    then emit (emitted thread_exited r) f
    else if text_eq r.class (codes "thread-selected")
    then emit (emitted thread_selected r) f
    else f

-- `first` is the first record of the output.
unfoldable pub handle_async : GdbMiRecord → GdbMiRecord → Front → Front
handle_async first r f =
    if text_eq r.class (codes "stopped")
    then handle_stopped first f
    else if text_eq r.class (codes "running")
    then emit started_running (record f { status = running })
    else elim r.output_type [ notify ↦ handle_notify r f | _ ↦ f ]

unfoldable pub handle_stream : GdbMiRecord → Front → Front
handle_stream r f = elim r.output_type [
  | console ↦
      let kept = record f { current_outof_band_records = f.current_outof_band_records ++ r ∷ [] } in
      if f.suppress_console_output then kept else emit (console_text r.result) kept
  | target ↦ emit (console_text r.result) f
  | log ↦ emit (console_text r.result) f
  | _ ↦ f
]

unfoldable pub handle_record : GdbMiRecord → GdbMiRecord → Front → Front
handle_record first r f = elim r.record_type [
  | async ↦ handle_async first r (record f { current_outof_band_records = [] })
  | stream ↦ handle_stream r f
  | _ ↦ f
]

unfoldable pub handle_records : GdbMiRecord → List GdbMiRecord → Front → Front
handle_records first [] f = f
handle_records first (r ∷ rs) f = handle_records first rs (handle_record first r f)
