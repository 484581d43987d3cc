-- ===== src/Breakpoints/Args.antt =====
-- The options of a breakpoint command, `parseHitContion` and `escapeGdbString`. A command is data
-- here: its options in the order in which the text has them. A text is a list of code units.
use mcu_debug.Prelude.{
  ℕ, ◌+◌, ◌*◌, ◌-◌, Bool, true, false, not, Option, none, some, List, [], ◌∷◌, ◌==◌, if◌then◌else◌,
  length, ℤ,
}
use mcu_debug.Mi.Chars.{Text, is_digit, span, trim}

pub data BkptArg : Type 0 where
  -- -c "text"
  condition : Text → BkptArg
  -- -i text, where a missing number prints as "undefined"
  ignore_count : Option Text → BkptArg
  -- -t -i number
  temporary : ℕ → BkptArg
  -- -h
  hardware : BkptArg
  -- the text of a log message, as it is
  log_message : Text → BkptArg

pub data Location : Type 0 where
  source : Text → Option ℕ → Location
  -- the address of a reference, and the offset that is added to it
  address : ℕ → ℤ → Location
  function : Text → Location

pub data Access : Type 0 where
  read write read_write : Access

pub data Command : Type 0 where
  break_insert dprintf_insert : Location → List BkptArg → Command
  break_watch : Access → Text → Command
  break_delete : List ℕ → Command
  break_delete_all exec_interrupt exec_continue : Command

-- The first match of the pattern for digits.
unfoldable pub first_number : Text → Option Text
first_number [] = none
first_number (c ∷ s) =
    let rest = first_number s in if is_digit c then some (c ∷ (span is_digit s).0) else rest

-- `parseInt` of digits.
unfoldable pub parse_digits : ℕ → Text → ℕ
parse_digits n [] = n
parse_digits n (c ∷ s) = parse_digits (10 * n + (c - b'0')) s

-- The options, and whether the message about an unsupported expression goes out. A match of the
-- pattern is an array with one element, so its length is 1.
unfoldable pub match_length : ℕ
match_length = 1

unfoldable pub parse_trimmed : Text → List BkptArg × Bool
parse_trimmed [] = ([], false)
parse_trimmed (c ∷ s) =
    if c == b'>' then (ignore_count (first_number s) ∷ [], false) else elim (first_number (c ∷ s)) [
      | none ↦ ([], false)
      | some digits ↦
          if not (match_length == length (c ∷ s))
          then ([], true)
          else if not (parse_digits 0 digits == 0)
          then (temporary (parse_digits 0 digits) ∷ [], false)
          else ([], false)
    ]

unfoldable pub parse_hit_contion : Text → List BkptArg × Bool
unfolding parse_trimmed
parse_hit_contion hit_condition = parse_trimmed (trim hit_condition)

-- The two replacements, one after the other.
unfoldable pub escape_backslashes : Text → Text
escape_backslashes [] = []
escape_backslashes (c ∷ s) =
    let rest = escape_backslashes s in if c == b'\\' then b'\\' ∷ b'\\' ∷ rest else c ∷ rest

unfoldable pub escape_quotes : Text → Text
escape_quotes [] = []
escape_quotes (c ∷ s) =
    let rest = escape_quotes s in if c == b'"' then b'\\' ∷ b'"' ∷ rest else c ∷ rest

unfoldable pub escape_gdb_string : Text → Text
escape_gdb_string s = escape_quotes (escape_backslashes s)

-- The body of `parseAddressCleaned`: up to the first blank, then up to the first colon.
unfoldable pub clean_address : Text → Text
clean_address s = (span (λ c. not (c == b':')) (span (λ c. not (c == b' ')) (trim s)).0).0
