-- ===== src/Mi/Tests.antt =====
-- Runs of the parser on lines that gdb prints.
use mcu_debug.Mi.Answers.{print_line, next_const_blank, parse_gdb_mi_line-print_line}
use mcu_debug.Mi.RoundTrip.{next_value-print_value}
use mcu_debug.Mi.Lines.{
  has_prompt, unsolicited, records, last_result, parse_gdb_mi_out_lem, parse_gdb_mi_line-total,
}
use mcu_debug.Mi.Print.{
  print_more_fields, escape_char, IsName, print_value, IsPrintable, tuple_printable, ArePrintable,
  list_printable, more_fields, more_values, const_printable, no_values, no_fields,
}
use mcu_debug.Mi.Unique.{Distinct, next_tuple-Distinct}
use mcu_debug.Mi.Keys.{unique_key, is_in}
use mcu_debug.Mi.Chars.{next_variable_name, next_const, is_whitespace, trim, is_digit}
use mcu_debug.Prelude.{ℕ, ◌≡◌, refl, some, none, [], codes, Option, List, arith}
use mcu_debug.Mi.Record.{
  GdbMiRecord, parse_gdb_mi_line, parse_gdb_mi_out, async, exec, record_at, parse_record,
  drop_trailing_escape, next_token, split_lines, prefix_types, stream, next_class,
}
use mcu_debug.Mi.Parser.{
  next_value, next_tuple, tuple, field, const, list, cons, end, nil, value_position, Fields, enough,
}

abbrev stopped_line : List ℕ
stopped_line =
    codes
      "12*stopped,reason=\"a\\nb\",frame={level=\"0\",args=[{name=\"x\"},\"y\"],level=\"1\"},toString=\"\""

parses_stopped :
    parse_gdb_mi_line stopped_line
    ≡ some (
        some (record {
          token = codes "12";
          record_type = async;
          output_type = exec;
          class = codes "stopped";
          result = tuple (
              field (codes "reason") (const (codes "a\nb")) (
                field
                  (codes "frame")
                  (tuple (
                    field (codes "level") (const (codes "0")) (
                      field
                        (codes "args")
                        (list (
                          cons
                            (tuple (field (codes "name") (const (codes "x")) end))
                            (cons (const (codes "y")) nil)))
                        (field (codes "level#1") (const (codes "1")) end))))
                  (field (codes "toString#1") (const []) end)));
          prefix = b'*';
        }))
unfolding parse_gdb_mi_line next_tuple next_variable_name next_const unique_key value_position
    record_at parse_record drop_trailing_escape next_token next_class
parses_stopped = refl

abbrev sample_fields : Fields
sample_fields = field (codes "reason") (const (codes "a \"b\"\n")) (
    field (codes "frame")
      (tuple (field (codes "args") (list (cons (const (codes "1")) (cons (list nil) nil))) end))
      end)

reason-IsName : IsName (codes "reason")
unfolding trim
reason-IsName = record { no_equals = omega arith; trimmed = refl }

frame-IsName : IsName (codes "frame")
unfolding trim
frame-IsName = record { no_equals = omega arith; trimmed = refl }

args-IsName : IsName (codes "args")
unfolding trim
args-IsName = record { no_equals = omega arith; trimmed = refl }

args-IsPrintable : IsPrintable (list (cons (const (codes "1")) (cons (list nil) nil)))
unfolding trim escape_char
args-IsPrintable =
    list_printable
      (more_values (const_printable refl) (more_values (list_printable no_values) no_values))

sample_fields-ArePrintable : ArePrintable [] sample_fields
unfolding trim escape_char is_in
sample_fields-ArePrintable = more_fields reason-IsName refl (const_printable refl) (
    more_fields frame-IsName refl
      (tuple_printable (more_fields args-IsName refl args-IsPrintable no_fields)) no_fields)

next_value-print_value_example :
    next_value
      (enough (print_value (tuple sample_fields) (codes ",x")))
      (print_value (tuple sample_fields) (codes ",x"))
    ≡ some (some (codes ",x", tuple sample_fields))
next_value-print_value_example =
    next_value-print_value (codes ",x") (tuple_printable sample_fields-ArePrintable)

print_sample :
    print_line (codes "7") b'*' (codes "stopped") sample_fields
    ≡ codes "7*stopped,reason=\"a \\\"b\\\"\\n\",frame={args=[\"1\",[]]}"
unfolding print_more_fields escape_char
print_sample = refl

parse_gdb_mi_line-print_line_example :
    parse_gdb_mi_line (print_line (codes "7") b'*' (codes "stopped") sample_fields)
    ≡ some (
        some (record {
          token = codes "7";
          record_type = async;
          output_type = exec;
          class = codes "stopped";
          result = tuple sample_fields;
          prefix = b'*';
        }))
unfolding drop_trailing_escape print_more_fields escape_char trim prefix_types is_digit
parse_gdb_mi_line-print_line_example =
    parse_gdb_mi_line-print_line (codes "7") b'*' (codes "stopped") sample_fields
      (record {
        digits = (refl, tt);
        known = refl;
        not_stream = λ (e : async ≡ stream). cc;
        one_class = omega arith;
        class_trimmed = refl;
        printable = sample_fields-ArePrintable;
      })
      refl

parse_gdb_mi_out_lem_example :
    parse_gdb_mi_out (codes "~\"x\"\n(gdb)\n")
    ≡ some (record {
      has_terminator = has_prompt (split_lines (codes "~\"x\"\n(gdb)\n"));
      out_of_band_records = unsolicited (records (split_lines (codes "~\"x\"\n(gdb)\n")));
      result_record = last_result none (records (split_lines (codes "~\"x\"\n(gdb)\n")));
    })
parse_gdb_mi_out_lem_example = parse_gdb_mi_out_lem (codes "~\"x\"\n(gdb)\n")

next_tuple-Distinct_example :
    Distinct [] (field (codes "a") (const []) (field (codes "a#1") (const []) end))
unfolding next_tuple next_variable_name next_const unique_key
next_tuple-Distinct_example = next_tuple-Distinct 30 [] (codes ",a=\"\",a=\"\"") {t = []} refl

-- An empty tuple that another result follows is not read as empty.
empty_tuple_misread :
    next_value 48 (codes "{},b=\"1\"},c=\"2\"")
    ≡ some (some (codes ",c=\"2\"", tuple (field (codes "},b") (const (codes "1")) end)))
unfolding next_value next_tuple next_variable_name next_const unique_key
empty_tuple_misread = refl

next_const_blank_example : next_const (codes "\"  - 3\"") ≡ next_const (codes "\" - 3\"")
unfolding is_whitespace escape_char
next_const_blank_example = next_const_blank b' ' (codes " - 3") [] refl

parse_gdb_mi_line-total_example :
    (x : Option GdbMiRecord) × (parse_gdb_mi_line (codes "^done,a={[") ≡ some x)
parse_gdb_mi_line-total_example = parse_gdb_mi_line-total (codes "^done,a={[")
