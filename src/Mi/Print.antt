-- ===== src/Mi/Print.antt =====
-- The values that gdb prints, after the grammar that the parser's source quotes.
use mcu_debug.Prelude.{ℕ, ◌≡◌, ◌≢◌, List, [], ◌∷◌, ◌++◌, ◌==◌, if◌then◌else◌, All, false}
use mcu_debug.Mi.Chars.{Text, trim}
use mcu_debug.Mi.Keys.{is_in}
use mcu_debug.Mi.Parser.{Value, const, tuple, list, Fields, end, field, Values, nil, cons}

-- A character inside a quoted constant.
unfoldable pub escape_char : ℕ → Text
escape_char c =
    if c == b'\\'
    then b'\\' ∷ b'\\' ∷ []
    else if c == b'"'
    then b'\\' ∷ b'"' ∷ []
    else if c == b'\n'
    then b'\\' ∷ b'n' ∷ []
    else if c == b'\r'
    then b'\\' ∷ b'r' ∷ []
    else if c == b'\t'
    then b'\\' ∷ b't' ∷ []
    else c ∷ []

abbrev pub escape : Text → Text
escape [] = []
escape (c ∷ s) = escape_char c ++ escape s

abbrev pub print_const : Text → Text → Text
print_const s rest = b'"' ∷ (escape s ++ b'"' ∷ rest)

-- Each function prints in front of what follows.
unfoldable mutual
  pub print_value : Value → Text → Text
  print_value (const s) rest = print_const s rest
  print_value (tuple f) rest = b'{' ∷ print_fields f (b'}' ∷ rest)
  print_value (list l) rest = b'[' ∷ print_values l (b']' ∷ rest)

  pub print_fields : Fields → Text → Text
  print_fields end rest = rest
  print_fields (field k v f) rest = k ++ b'=' ∷ print_value v (print_more_fields f rest)

  -- The fields behind the first, each with its comma.
  pub print_more_fields : Fields → Text → Text
  print_more_fields end rest = rest
  print_more_fields (field k v f) rest =
      b',' ∷ (k ++ b'=' ∷ print_value v (print_more_fields f rest))

  pub print_values : Values → Text → Text
  print_values nil rest = rest
  print_values (cons v l) rest = print_value v (print_more_values l rest)

  pub print_more_values : Values → Text → Text
  print_more_values nil rest = rest
  print_more_values (cons v l) rest = b',' ∷ print_value v (print_more_values l rest)

-- A name without `=` and without white space at its ends.
pub record IsName (k : Text) : Type 0 where
  pub no_equals : All (λ c. c ≢ b'=') k
  pub trimmed : trim k ≡ k

-- What reads back: constants and names without white space at their ends, names that the object
-- does not have yet, and no empty tuple.
mutual
  pub data IsPrintable : Value → Type 0 where
    const_printable : {s : Text} → trim (escape s) ≡ escape s → IsPrintable (const s)
    tuple_printable :
        {k : Text} {v : Value} {f : Fields}
        → ArePrintable [] (field k v f)
        → IsPrintable (tuple (field k v f))
    list_printable : {l : Values} → AllPrintable l → IsPrintable (list l)

  pub data ArePrintable : List Text → Fields → Type 0 where
    no_fields : {keys : List Text} → ArePrintable keys end
    more_fields :
        {keys : List Text} {k : Text} {v : Value} {f : Fields}
        → IsName k
        → is_in k keys ≡ false
        → IsPrintable v
        → ArePrintable (k ∷ keys) f
        → ArePrintable keys (field k v f)

  pub data AllPrintable : Values → Type 0 where
    no_values : AllPrintable nil
    more_values :
        {v : Value} {l : Values} → IsPrintable v → AllPrintable l → AllPrintable (cons v l)
