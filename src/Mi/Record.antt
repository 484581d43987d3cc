-- ===== src/Mi/Record.antt =====
-- `parseGdbMiLine` and `parseGdbMiOut`: the records of gdb's output.
use mcu_debug.Prelude.{
  ℕ, Bool, true, false, ◌&&◌, Option, none, some, List, [], ◌∷◌, ◌++◌, ◌==◌, if◌then◌else◌, codes,
}
use mcu_debug.Mi.Chars.{Text, is_digit, span, trim, eat_whitespace, next_const, skip}
use mcu_debug.Mi.Keys.{text_eq}
use mcu_debug.Mi.Parser.{Value, const, tuple, next_tuple, enough, ◌>>=◌}

pub data RecordType : Type 0 where
  result async stream : RecordType

pub data OutputType : Type 0 where
  result console log target exec status notify : OutputType

-- `recordTypeMapping` and `outputTypeMapping`.
unfoldable pub prefix_types : ℕ → Option (RecordType × OutputType)
prefix_types c =
    if c == b'^'
    then some (RecordType.result, OutputType.result)
    else if c == b'~'
    then some (stream, console)
    else if c == b'&'
    then some (stream, log)
    else if c == b'@'
    then some (stream, target)
    else if c == b'*'
    then some (async, exec)
    else if c == b'+'
    then some (async, status)
    else if c == b'='
    then some (async, notify)
    else none

pub record GdbMiRecord : Type 0 where
  pub token : Text
  pub record_type : RecordType
  pub output_type : OutputType
  pub class : Text
  pub result : Value
  pub prefix : ℕ

-- The string that an output type is.
abbrev pub output_name : OutputType → Text
output_name OutputType.result = codes "result"
output_name console = codes "console"
output_name log = codes "log"
output_name target = codes "target"
output_name exec = codes "exec"
output_name status = codes "status"
output_name notify = codes "notify"

unfoldable pub next_token : Text → Text × Text
unfolding span is_digit
next_token s = let (token, rest) = span is_digit s in (rest, token)

abbrev pub not_comma : ℕ → Bool
not_comma c = if c == b',' then false else true

-- The character at the position, which is the prefix, is passed over.
unfoldable pub next_class : Text → Text × Text
unfolding span trim
next_class s = let (class, rest) = span not_comma (skip s) in (rest, trim class)

-- The trailing backslash and `n` that gdb sometimes leaves.
unfoldable pub drop_trailing_escape : Text → Text
drop_trailing_escape [] = []
drop_trailing_escape (c ∷ []) = c ∷ []
drop_trailing_escape (c ∷ d ∷ []) = if c == b'\\' && d == b'n' then [] else c ∷ d ∷ []
drop_trailing_escape (c ∷ d ∷ e ∷ s) = c ∷ drop_trailing_escape (d ∷ e ∷ s)

-- A record whose prefix is known; `s` is the text behind the prefix.
unfoldable pub record_at : RecordType → OutputType → Text → ℕ → Text → Option (Option GdbMiRecord)
record_at stream output_type token prefix s = some (
    some (record {
      token = token;
      record_type = stream;
      output_type = output_type;
      class = output_name output_type;
      result = const (next_const s).1;
      prefix = prefix;
    }))
record_at record_type output_type token prefix s =
    let (rest, class) = next_class (prefix ∷ s) in
    next_tuple (enough rest) [] rest >>= λ r. some (
      some (record {
        token = token;
        record_type = record_type;
        output_type = output_type;
        class = class;
        result = tuple r.1;
        prefix = prefix;
      }))

-- What follows the token, at its prefix.
unfoldable pub parse_record : Text → Text → Option (Option GdbMiRecord)
unfolding prefix_types
parse_record token [] = some none
parse_record token (prefix ∷ s) = elim (prefix_types prefix) [
  | none ↦ some none
  | some (record_type, output_type) ↦ record_at record_type output_type token prefix s
]

-- The inner `none` is `undefined`: a line with no known prefix, such as the echo of a command.
unfoldable pub parse_gdb_mi_line : Text → Option (Option GdbMiRecord)
parse_gdb_mi_line line =
    let (rest, token) = next_token (eat_whitespace (drop_trailing_escape line)) in
    parse_record token (eat_whitespace rest)

pub record GdbMiOutput : Type 0 where
  pub has_terminator : Bool
  pub out_of_band_records : List GdbMiRecord
  pub result_record : Option GdbMiRecord

abbrev extend_first : ℕ → List Text → List Text
extend_first c [] = (c ∷ []) ∷ []
extend_first c (l ∷ ls) = (c ∷ l) ∷ ls

-- `split("\n")`: a text with `n` line feeds has `n + 1` pieces.
unfoldable pub split_lines : Text → List Text
split_lines [] = [] ∷ []
split_lines (c ∷ s) =
    let pieces = split_lines s in if c == b'\n' then [] ∷ pieces else extend_first c pieces

-- A result record replaces an earlier one.
unfoldable pub add_record : GdbMiRecord → GdbMiOutput → GdbMiOutput
add_record r out = elim r.record_type [
  | RecordType.result ↦ record out { result_record = some r }
  | _ ↦ record out { out_of_band_records = out.out_of_band_records ++ r ∷ [] }
]

-- What the loop does with a line once it is trimmed.
unfoldable pub add_trimmed : Text → GdbMiOutput → Option GdbMiOutput
add_trimmed [] out = some out
add_trimmed (c ∷ s) out =
    let parsed = parse_gdb_mi_line (c ∷ s) >>= λ r.
    some (elim r [ none ↦ out | some rec ↦ add_record rec out ]) in
    if text_eq (c ∷ s) (codes "(gdb)") then some (record out { has_terminator = true }) else parsed

unfoldable pub add_line : Text → GdbMiOutput → Option GdbMiOutput
add_line line out = add_trimmed (trim line) out

unfoldable pub add_lines : List Text → GdbMiOutput → Option GdbMiOutput
add_lines [] out = some out
add_lines (line ∷ lines) out = add_line line out >>= λ out'. add_lines lines out'

unfoldable pub parse_gdb_mi_out : Text → Option GdbMiOutput
parse_gdb_mi_out text =
    add_lines (split_lines text)
      (record { has_terminator = false; out_of_band_records = []; result_record = none })
