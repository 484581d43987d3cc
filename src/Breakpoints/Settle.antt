-- ===== src/Breakpoints/Settle.antt =====
-- The parts of the requests that only compute: the options of a command, and what the answers of gdb
-- put into a table and into the response.
use mcu_debug.Breakpoints.World.{
  Table, BkptInfo, Error, Message, Answer, unsupported_count, done, set_entry, no_information,
  not_set, failed, gdb, FunctionBreakpoint, Manager, SourceBreakpoint, DataBreakpoint,
  InstructionBreakpoint, get_entry,
}
use mcu_debug.Prelude.{
  ℕ, zero, suc, Bool, Option, none, some, List, [], ◌∷◌, if◌then◌else◌, ℕ_discrete,
}
use mcu_debug.Mi.Chars.{Text}
use mcu_debug.Breakpoints.Args.{
  BkptArg, condition, hardware, Access, parse_hit_contion, escape_gdb_string, write, read,
  read_write,
}

pub Text_discrete : Discrete Text
Text_discrete = hlevel ℕ_discrete

-- What the response says of one requested breakpoint.
pub data Breakpoint : Type 0 where
  verified : ℕ → Option ℕ → Option Text → Breakpoint
  unverified : Error → Breakpoint

-- `-c` and the options of the hit condition, where they are given.
unfoldable pub condition_args : Text → List BkptArg
condition_args [] = []
condition_args (c ∷ s) = condition (escape_gdb_string (c ∷ s)) ∷ []

unfoldable pub hit_args : Text → List BkptArg
hit_args [] = []
hit_args (c ∷ s) = (parse_hit_contion (c ∷ s)).0

unfoldable pub hit_messages : Text → List Message
hit_messages [] = []
hit_messages (c ∷ s) = if (parse_hit_contion (c ∷ s)).1 then unsupported_count (c ∷ s) ∷ [] else []

unfoldable pub hardware_args : Bool → List BkptArg
hardware_args require = if require then hardware ∷ [] else []

-- Recording the answers: what goes into the table, what the response says, what is shown.
pub record Settled (X : Type 0) : Type 0 where
  pub table : Table X
  pub breakpoints : List Breakpoint
  pub messages : List Message

module _ {X : Type 0} (keep : BkptInfo → X → X) (report : BkptInfo → X → Breakpoint) where
  unfoldable pub settle : List X → List Answer → Table X → Settled X
  settle [] answers table = record { table = table; breakpoints = []; messages = [] }
  settle (x ∷ xs) [] table = record { table = table; breakpoints = []; messages = [] }
  settle (x ∷ xs) (done (some info) ∷ answers) table =
      let rest = settle xs answers (set_entry ℕ_discrete info.number (keep info x) table) in
      record rest { breakpoints = report info x ∷ rest.breakpoints }
  settle (x ∷ xs) (done none ∷ answers) table =
      let rest = settle xs answers table in
      record {
        table = rest.table;
        breakpoints = unverified no_information ∷ rest.breakpoints;
        messages = not_set no_information ∷ rest.messages;
      }
  settle (x ∷ xs) (failed text ∷ answers) table =
      let rest = settle xs answers table in
      record {
        table = rest.table;
        breakpoints = unverified (gdb text) ∷ rest.breakpoints;
        messages = not_set (gdb text) ∷ rest.messages;
      }

unfoldable pub keep_source : BkptInfo → SourceBreakpoint → SourceBreakpoint
keep_source info bp = record bp { line = info.line }

unfoldable pub report_source : BkptInfo → SourceBreakpoint → Breakpoint
report_source info bp = verified info.number info.line info.address

-- `??` on two optional texts.
abbrev or_else : Option Text → Option Text → Option Text
or_else (some a) b = some a
or_else none b = b

unfoldable pub report_instruction : BkptInfo → InstructionBreakpoint → Breakpoint
report_instruction info bp =
    verified info.number none (or_else info.addr (some bp.instruction_reference))

unfoldable pub report_function : BkptInfo → FunctionBreakpoint → Breakpoint
report_function info bp = verified info.number info.line info.addr

unfoldable pub report_data : BkptInfo → DataBreakpoint → Breakpoint
report_data info bp = verified info.number none none

unfoldable pub access_of : ℕ → Access
access_of zero = write
access_of (suc zero) = read
access_of (suc (suc n)) = read_write

abbrev pub table_or_empty : Option (Table SourceBreakpoint) → Table SourceBreakpoint
table_or_empty none = []
table_or_empty (some table) = table

-- The breakpoints of a file; none for a file that has no entry.
unfoldable pub file_table : Text → Manager → Table SourceBreakpoint
file_table file m = table_or_empty (get_entry Text_discrete file m.file_breakpoints)

-- An entry that is there is emptied in place.
unfoldable pub clear_file : Text → Manager → Manager
clear_file file m = elim (get_entry Text_discrete file m.file_breakpoints) [
  | none ↦ m
  | some table ↦ record m { file_breakpoints = set_entry Text_discrete file [] m.file_breakpoints }
]

unfoldable pub set_file : Text → Table SourceBreakpoint → Manager → Manager
set_file file table m = record m {
  file_breakpoints = set_entry Text_discrete file table m.file_breakpoints;
}
