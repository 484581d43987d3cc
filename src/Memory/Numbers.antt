-- ===== src/Memory/Numbers.antt =====
-- Addresses and bytes as text: `formatAddress` and `parseAddress` of
-- packages/mcu-debug/src/common/utils.ts, and what they and memory.ts use of the language.
use mcu_debug.Prelude.{
  ℕ, zero, suc, ◌+◌, ◌*◌, ◌-◌, ◌/◌, ◌%◌, ◌&&◌, ◌||◌, Option, none, some, List, [], ◌∷◌, ◌++◌, ◌==◌,
  ltb, leb, if◌then◌else◌, codes, ℤ, pos, negsuc, negate,
}
use mcu_debug.Mi.Chars.{Text, trim}

-- A digit of a base up to 36; none for other characters.
unfoldable pub digit_value : ℕ → Option ℕ
digit_value c =
    if leb b'0' c && leb c b'9'
    then some (c - b'0')
    else if leb b'a' c && leb c b'z'
    then some (c - b'a' + 10)
    else if leb b'A' c && leb c b'Z'
    then some (c - b'A' + 10)
    else none

abbrev add_digit : ℕ → ℕ → Option ℕ → Option ℕ
add_digit base n none = none
add_digit base n (some d) = if ltb d base then some (n * base + d) else none

-- The number that digits make behind the number `n`.
unfoldable pub digits_value : ℕ → Option ℕ → Text → Option ℕ
digits_value base n [] = n
digits_value base none (c ∷ s) = none
digits_value base (some n) (c ∷ s) = digits_value base (add_digit base n (digit_value c)) s

-- Digits of a base, one at least.
unfoldable pub digits_of : ℕ → Text → Option ℤ
digits_of base [] = none
digits_of base (c ∷ s) = elim (digits_value base (some 0) (c ∷ s)) [
  | none ↦ none
  | some n ↦ some (pos n)
]

abbrev negated : Option ℤ → Option ℤ
negated none = none
negated (some n) = some (negate n)

-- `BigInt` of a text without blanks at its ends: a prefix for the base, or decimal with a sign.
unfoldable pub big_int : Text → Option ℤ
big_int [] = some (pos 0)
big_int (c ∷ []) = digits_of 10 (c ∷ [])
big_int (c ∷ d ∷ s) =
    if c == b'0' && (d == b'x' || d == b'X')
    then digits_of 16 s
    else if c == b'0' && (d == b'o' || d == b'O')
    then digits_of 8 s
    else if c == b'0' && (d == b'b' || d == b'B')
    then digits_of 2 s
    else if c == b'-'
    then negated (digits_of 10 (d ∷ s))
    else if c == b'+'
    then digits_of 10 (d ∷ s)
    else digits_of 10 (c ∷ d ∷ s)

unfoldable pub parse_address : Text → Option ℤ
parse_address addr = big_int (trim addr)

unfoldable pub hex_digit : ℕ → ℕ
hex_digit n = if ltb n 10 then b'0' + n else b'a' + (n - 10)

-- A number in base 16; the first number is fuel, and a number's own value is enough.
unfoldable pub hex_from : ℕ → ℕ → Text
hex_from zero n = hex_digit (n % 16) ∷ []
hex_from (suc fuel) n =
    let more = hex_from fuel (n / 16) in
    if ltb n 16 then hex_digit n ∷ [] else more ++ hex_digit (n % 16) ∷ []

unfoldable pub format_address : ℤ → Text
format_address (pos n) = codes "0x" ++ hex_from n n
format_address (negsuc n) = codes "0x-" ++ hex_from (n + 1) (n + 1)

-- `toString("hex")`, and `Buffer.from(text, "hex")`, which stops at what is no pair of digits.
unfoldable pub bytes_to_hex : List ℕ → Text
bytes_to_hex [] = []
bytes_to_hex (b ∷ bytes) = hex_digit (b / 16) ∷ hex_digit (b % 16) ∷ bytes_to_hex bytes

abbrev pub byte_of : Option ℕ → Option ℕ → Option ℕ
byte_of (some high) (some low) = if ltb high 16 && ltb low 16 then some (16 * high + low) else none
byte_of _ _ = none

abbrev pub put_byte : Option ℕ → List ℕ → List ℕ
put_byte none bytes = []
put_byte (some b) bytes = b ∷ bytes

unfoldable pub bytes_from_hex : Text → List ℕ
bytes_from_hex [] = []
bytes_from_hex (c ∷ []) = []
bytes_from_hex (c ∷ d ∷ s) = put_byte (byte_of (digit_value c) (digit_value d)) (bytes_from_hex s)
