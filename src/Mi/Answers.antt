-- ===== src/Mi/Answers.antt =====
-- Single lines: records with fields, and an input that gdb may print and that is misread.
use mcu_debug.Mi.Consts.{span-append, const_loop_plain, append-ne-nil, const_loop-escape}
use mcu_debug.Mi.RoundTrip.{next_tuple-print_more_fields}
use mcu_debug.Prelude.{
  ℕ, some, ◌≡◌, ◌≢◌, refl, [], ◌∷◌, ◌++◌, ◌∙◌, arith, false, true, All, Bool, append-nil,
}
use mcu_debug.Mi.Chars.{
  Text, eat_whitespace, trim, span, is_digit, is_whitespace, next_const, const_loop,
}
use mcu_debug.Mi.Parser.{Fields, end, field, tuple}
use mcu_debug.Mi.Print.{ArePrintable, print_more_fields, escape, print_const}
use mcu_debug.Mi.Record.{
  RecordType, async, stream, OutputType, prefix_types, parse_gdb_mi_line, parse_record, record_at,
  drop_trailing_escape, next_class, next_token, not_comma,
}

eat_whitespace_plain : (c : ℕ) (s : Text) → is_whitespace c ≡ false → eat_whitespace (c ∷ s) ≡ c ∷ s
unfolding span
eat_whitespace_plain c s h = unfold eat_whitespace in ground (arith, h)

digit_plain : (c : ℕ) → is_digit c ≡ true → is_whitespace c ≡ false
unfolding is_digit is_whitespace
digit_plain c h = ground arith

prefix_plain :
    (c : ℕ) {t : RecordType × OutputType}
    → prefix_types c ≡ some t
    → (is_whitespace c ≡ false) × (is_digit c ≡ false)
unfolding prefix_types is_whitespace is_digit
prefix_plain c h = ground arith

eat_whitespace_line :
    (token : Text) (c : ℕ) (s : Text)
    → All (λ d. is_digit d ≡ true) token
    → is_whitespace c ≡ false
    → eat_whitespace (token ++ c ∷ s) ≡ token ++ c ∷ s
eat_whitespace_line [] c s h p = eat_whitespace_plain c s p
eat_whitespace_line (d ∷ token) c s (q, h) p =
    eat_whitespace_plain d (token ++ c ∷ s) (digit_plain d q)

next_token-append :
    (token : Text) (c : ℕ) (s : Text)
    → All (λ d. is_digit d ≡ true) token
    → is_digit c ≡ false
    → next_token (token ++ c ∷ s) ≡ (c ∷ s, token)
unfolding next_token
next_token-append token c s h p = rw (span-append is_digit token c s h p)

parse_record_known :
    (token : Text) (c : ℕ) (s : Text) {t : RecordType × OutputType}
    → prefix_types c ≡ some t
    → parse_record token (c ∷ s) ≡ record_at t.0 t.1 token c s
unfolding parse_record
parse_record_known token c s known = ground (arith, known)

-- The token and the prefix of a line.
pub parse_gdb_mi_line-prefix :
    (token : Text) (c : ℕ) (s : Text) {t : RecordType × OutputType}
    → All (λ d. is_digit d ≡ true) token
    → prefix_types c ≡ some t
    → drop_trailing_escape (token ++ c ∷ s) ≡ token ++ c ∷ s
    → parse_gdb_mi_line (token ++ c ∷ s) ≡ record_at t.0 t.1 token c s
unfolding parse_gdb_mi_line
parse_gdb_mi_line-prefix token c s {t} digits known whole =
    let (blank, digit) = prefix_plain c known in
    rw whole (
      rw (eat_whitespace_line token c s digits blank) (
        rw (next_token-append token c s digits digit)
          (rw (eat_whitespace_plain c s blank) (parse_record_known token c s known))))

span-All : (test : ℕ → Bool) (s : Text) → All (λ d. test d ≡ true) s → span test s ≡ (s, [])
unfolding span
span-All test [] h = refl
span-All test (d ∷ s) (p, h) = ground (arith, p, span-All test s h)

All-not_comma : (s : Text) → All (λ d. d ≢ b',') s → All (λ d. not_comma d ≡ true) s
All-not_comma [] h = tt
All-not_comma (d ∷ s) (p, h) = (ground arith, All-not_comma s h)

next_class-print :
    (c : ℕ) (class : Text) (f : Fields)
    → All (λ d. d ≢ b',') class
    → trim class ≡ class
    → next_class (c ∷ (class ++ print_more_fields f [])) ≡ (print_more_fields f [], class)
unfolding next_class print_more_fields
next_class-print c class end h t =
    rw (append-nil, span-All not_comma class (All-not_comma class h)) (rw t)
next_class-print c class (field k v f) h t =
    rw (span-append not_comma class b',' _ (All-not_comma class h) refl) (rw t)

-- The parts of a line that is an answer or an asynchronous record.
pub record IsLine (token : Text) (c : ℕ) (class : Text) (f : Fields) (t : RecordType × OutputType)
    : Type 0 where
  pub digits : All (λ d. is_digit d ≡ true) token
  pub known : prefix_types c ≡ some t
  pub not_stream : t.0 ≢ stream
  pub one_class : All (λ d. d ≢ b',') class
  pub class_trimmed : trim class ≡ class
  pub printable : ArePrintable [] f

abbrev pub print_line : Text → ℕ → Text → Fields → Text
print_line token c class f = token ++ c ∷ (class ++ print_more_fields f [])

record_at-print :
    (r : RecordType) (o : OutputType) (token : Text) (c : ℕ) (class : Text) (f : Fields)
    → r ≢ stream
    → All (λ d. d ≢ b',') class
    → trim class ≡ class
    → ArePrintable [] f
    → record_at r o token c (class ++ print_more_fields f [])
      ≡ some (
          some (record {
            token = token;
            record_type = r;
            output_type = o;
            class = class;
            result = tuple f;
            prefix = c;
          }))
unfolding record_at
record_at-print stream o token c class f ne h t p = absurd (ne refl)
record_at-print RecordType.result o token c class f ne h t p =
    rw (next_class-print c class f h t) (rw (next_tuple-print_more_fields p))
record_at-print async o token c class f ne h t p =
    rw (next_class-print c class f h t) (rw (next_tuple-print_more_fields p))

-- A line that prints a token, a class and fields is read back as a record with just these, if the
-- line does not end in a backslash and `n`.
pub parse_gdb_mi_line-print_line :
    (token : Text) (c : ℕ) (class : Text) (f : Fields) {t : RecordType × OutputType}
    → IsLine token c class f t
    → drop_trailing_escape (print_line token c class f) ≡ print_line token c class f
    → parse_gdb_mi_line (print_line token c class f)
      ≡ some (
          some (record {
            token = token;
            record_type = t.0;
            output_type = t.1;
            class = class;
            result = tuple f;
            prefix = c;
          }))
parse_gdb_mi_line-print_line token c class f {t} v whole =
    parse_gdb_mi_line-prefix token c (class ++ print_more_fields f []) v.digits v.known whole
    ∙ record_at-print t.0 t.1 token c class f v.not_stream v.one_class v.class_trimmed v.printable

blank-ne : (b : ℕ) → is_whitespace b ≡ true → (b ≢ b'\\') × (b ≢ b'"')
unfolding is_whitespace
blank-ne b h = ground arith

trim_blank : (b : ℕ) (s : Text) → is_whitespace b ≡ true → trim (b ∷ s) ≡ trim s
unfolding trim span
trim_blank b s h = unfold eat_whitespace in ground (arith, h)

-- White space at the start of a quoted constant is lost, also inside the quotes.
pub next_const_blank :
    (b : ℕ) (s rest : Text)
    → is_whitespace b ≡ true
    → next_const (b'"' ∷ b ∷ (escape s ++ b'"' ∷ rest)) ≡ next_const (print_const s rest)
unfolding next_const
next_const_blank b s rest h =
    rw (const_loop-blank, const_loop-escape s rest) (rw (trim_blank b (escape s) h))
  where
    const_loop-blank : const_loop (b ∷ (escape s ++ b'"' ∷ rest)) ≡ (b ∷ escape s, rest)
    const_loop-blank =
        const_loop_plain b _ (blank-ne b h).0 (blank-ne b h).1 (append-ne-nil (escape s) rest b'"')
        ∙ rw (const_loop-escape s rest)
