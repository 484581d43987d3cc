-- ===== src/Mi/Lines.antt =====
-- Whole outputs of gdb: which records come out, and in which order.
use mcu_debug.Mi.Keys.{text_eq}
use mcu_debug.Mi.Fuel.{next_tuple-total}
use mcu_debug.Prelude.{
  ℕ, none, some, ◌≡◌, refl, List, [], ◌∷◌, ◌++◌, ◌∙◌, arith, append_assoc, false, true, Option,
  Bool, if◌then◌else◌, ◌||◌, codes, append-nil, ap, Bool-cases, inl, inr,
}
use mcu_debug.Mi.Chars.{Text, eat_whitespace, trim}
use mcu_debug.Mi.Parser.{◌>>=◌}
use mcu_debug.Mi.Record.{
  RecordType, async, stream, OutputType, GdbMiRecord, prefix_types, parse_gdb_mi_line,
  parse_gdb_mi_out, GdbMiOutput, parse_record, record_at, add_line, add_lines, add_trimmed,
  add_record, drop_trailing_escape, next_class, next_token, split_lines,
}

bind-total :
    {A B : Type 0} (m : Option A) (g : A → B) {a : A}
    → m ≡ some a
    → (x : B) × ((m >>= λ r. some (g r)) ≡ some x)
bind-total m g {a} e = (g a, rw e)

record_at-total :
    (r : RecordType) (o : OutputType) (token : Text) (c : ℕ) (s : Text)
    → (x : Option GdbMiRecord) × (record_at r o token c s ≡ some x)
unfolding record_at
record_at-total stream o token c s = (_, refl)
record_at-total RecordType.result o token c s =
    let (t, f, e) = next_tuple-total (next_class (c ∷ s)).0 in bind-total _ _ e
record_at-total async o token c s =
    let (t, f, e) = next_tuple-total (next_class (c ∷ s)).0 in bind-total _ _ e

parse_record-total : (token s : Text) → (x : Option GdbMiRecord) × (parse_record token s ≡ some x)
unfolding parse_record
parse_record-total token [] = (none, refl)
parse_record-total token (c ∷ s) = by_prefix (prefix_types c)
  where
    by_prefix :
        (o : Option (RecordType × OutputType))
        → (x : Option GdbMiRecord) × (◌≡◌ {A = Option (Option GdbMiRecord)}
            (elim o [ none ↦ some none | some (r, t) ↦ record_at r t token c s ])
            (some x))
    by_prefix none = (none, refl)
    by_prefix (some (r, t)) = record_at-total r t token c s

-- Every line is parsed to its end: the fuel never runs out.
pub parse_gdb_mi_line-total :
    (line : Text) → (x : Option GdbMiRecord) × (parse_gdb_mi_line line ≡ some x)
unfolding parse_gdb_mi_line
parse_gdb_mi_line-total line =
    let (rest, token) = next_token (eat_whitespace (drop_trailing_escape line)) in
    parse_record-total token (eat_whitespace rest)

-- The record of a line, which a blank line, the prompt and an echoed command do not have.
line_record : Text → Option GdbMiRecord
line_record [] = none
line_record (c ∷ s) =
    if text_eq (c ∷ s) (codes "(gdb)") then none else (parse_gdb_mi_line-total (c ∷ s)).0

pub records : List Text → List GdbMiRecord
records [] = []
records (line ∷ lines) = elim (line_record (trim line)) [
  | none ↦ records lines
  | some r ↦ r ∷ records lines
]

is_result : GdbMiRecord → Bool
is_result r = elim r.record_type [ RecordType.result ↦ true | _ ↦ false ]

-- The records that are not answers, in order.
pub unsolicited : List GdbMiRecord → List GdbMiRecord
unsolicited [] = []
unsolicited (r ∷ rs) = if is_result r then unsolicited rs else r ∷ unsolicited rs

-- The last answer.
pub last_result : Option GdbMiRecord → List GdbMiRecord → Option GdbMiRecord
last_result before [] = before
last_result before (r ∷ rs) = if is_result r then last_result (some r) rs else last_result before rs

pub has_prompt : List Text → Bool
has_prompt [] = false
has_prompt (line ∷ lines) = text_eq (trim line) (codes "(gdb)") || has_prompt lines

as_list : Option GdbMiRecord → List GdbMiRecord
as_list none = []
as_list (some r) = r ∷ []

-- What a line does to the output, by the record that it has.
after : Text → GdbMiOutput → GdbMiOutput
after line out = record {
  has_terminator = out.has_terminator || text_eq line (codes "(gdb)");
  out_of_band_records = out.out_of_band_records ++ unsolicited (as_list (line_record line));
  result_record = last_result out.result_record (as_list (line_record line));
}

add_record-after :
    (r : GdbMiRecord) (out : GdbMiOutput)
    → add_record r out ≡ record {
      has_terminator = out.has_terminator;
      out_of_band_records = out.out_of_band_records ++ unsolicited (r ∷ []);
      result_record = last_result out.result_record (r ∷ []);
    }
unfolding add_record unsolicited last_result is_result
add_record-after r out = ground (arith, append-nil out.out_of_band_records)

add_trimmed-after : (line : Text) (out : GdbMiOutput) → add_trimmed line out ≡ some (after line out)
unfolding add_trimmed after line_record as_list
add_trimmed-after [] out =
    unfold unsolicited last_result text_eq in ground (arith, append-nil out.out_of_band_records)
add_trimmed-after (c ∷ s) out = elim (Bool-cases (text_eq (c ∷ s) (codes "(gdb)"))) [
  | inl prompt ↦
      unfold unsolicited last_result in ground (arith, append-nil out.out_of_band_records)
  | inr other ↦ let (r, e) = parse_gdb_mi_line-total (c ∷ s) in rw (other, e) (by_record r)
]
  where
    by_record :
        (r : Option GdbMiRecord)
        → ◌≡◌ {A = Option GdbMiOutput} (some (elim r [ none ↦ out | some x ↦ add_record x out ])) (
            some (record {
              has_terminator = out.has_terminator || false;
              out_of_band_records = out.out_of_band_records ++ unsolicited (as_list r);
              result_record = last_result out.result_record (as_list r);
            }))
    by_record none =
        unfold unsolicited last_result in ground (arith, append-nil out.out_of_band_records)
    by_record (some x) = rw (add_record-after x out) (ground arith)

-- What `parseGdbMiOut` returns, line by line.
summary : GdbMiOutput → List Text → GdbMiOutput
summary out lines = record {
  has_terminator = out.has_terminator || has_prompt lines;
  out_of_band_records = out.out_of_band_records ++ unsolicited (records lines);
  result_record = last_result out.result_record (records lines);
}

summary-after :
    (line : Text) (lines : List Text) (out : GdbMiOutput)
    → summary (after (trim line) out) lines ≡ summary out (line ∷ lines)
unfolding summary after records has_prompt
summary-after line lines out = by_record (line_record (trim line)) refl
  where
    by_record :
        (r : Option GdbMiRecord)
        → line_record (trim line) ≡ r
        → summary (after (trim line) out) lines ≡ summary out (line ∷ lines)
    by_record none e =
        unfold unsolicited last_result as_list in ground (arith, append-nil out.out_of_band_records)
    by_record (some x) e =
        unfold unsolicited last_result as_list in
        ground (
          arith,
          append_assoc out.out_of_band_records (x ∷ []) (unsolicited (records lines)),
          append-nil out.out_of_band_records,
        )

add_lines-summary :
    (lines : List Text) (out : GdbMiOutput) → add_lines lines out ≡ some (summary out lines)
unfolding add_lines add_line
add_lines-summary [] out =
    unfold summary records has_prompt unsolicited last_result in
    ground (arith, append-nil out.out_of_band_records)
add_lines-summary (line ∷ lines) out =
    rw (add_trimmed-after (trim line) out)
      (add_lines-summary lines (after (trim line) out) ∙ ap some (summary-after line lines out))

-- `parseGdbMiOut` returns on every text, with the records of its lines: those that are not answers
-- in their order, the last answer, and whether a line is the prompt.
pub parse_gdb_mi_out_lem :
    (text : Text)
    → let lines = split_lines text in
      parse_gdb_mi_out text
      ≡ some (record {
        has_terminator = has_prompt lines;
        out_of_band_records = unsolicited (records lines);
        result_record = last_result none (records lines);
      })
unfolding parse_gdb_mi_out summary
parse_gdb_mi_out_lem text = add_lines-summary (split_lines text) _
