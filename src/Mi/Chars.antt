-- ===== src/Mi/Chars.antt =====
-- White space, quoted constants and names of a line of GDB/MI output.
use mcu_debug.Prelude.{
  ℕ, Bool, true, false, ◌&&◌, ◌||◌, Option, none, some, List, [], ◌∷◌, ◌==◌, leb, if◌then◌else◌,
}

-- The code units of a string.
abbrev pub Text : Type 0
Text = List ℕ

-- `\s`, which is also what `trim` removes.
unfoldable pub is_whitespace : ℕ → Bool
is_whitespace c =
    c == 0x20
    || (leb 0x09 c && leb c 0x0d)
    || c == 0xa0
    || c == 0x1680
    || (leb 0x2000 c && leb c 0x200a)
    || c == 0x2028
    || c == 0x2029
    || c == 0x202f
    || c == 0x205f
    || c == 0x3000
    || c == 0xfeff

-- `\d`.
unfoldable pub is_digit : ℕ → Bool
is_digit c = leb b'0' c && leb c b'9'

-- The text from the first place on at which the test fails, behind what stands before it.
unfoldable pub span : (ℕ → Bool) → Text → Text × Text
span test [] = ([], [])
span test (c ∷ s) =
    let later = span test s in if test c then (c ∷ later.0, later.1) else ([], c ∷ s)

unfoldable pub eat_whitespace : Text → Text
unfolding span is_whitespace
eat_whitespace s = (span is_whitespace s).1

abbrev pub keep_unless_blank : ℕ → Text → Text
keep_unless_blank c [] = []
keep_unless_blank c (d ∷ t) = c ∷ d ∷ t

unfoldable pub trim_end : Text → Text
unfolding is_whitespace
trim_end [] = []
trim_end (c ∷ s) = let t = trim_end s in if is_whitespace c then keep_unless_blank c t else c ∷ t

unfoldable pub trim : Text → Text
unfolding eat_whitespace trim_end
trim s = trim_end (eat_whitespace s)

-- `line.substring(i + 1)`.
abbrev pub skip : Text → Text
skip [] = []
skip (c ∷ s) = s

-- `line[i] == c`, false past the end.
abbrev pub starts : ℕ → Text → Bool
starts c [] = false
starts c (d ∷ s) = d == c

abbrev pub not_equals : ℕ → Bool
not_equals c = if c == b'=' then false else true

unfoldable pub eat_variable_name : Text → Text
unfolding span
eat_variable_name s = skip (span not_equals s).1

unfoldable pub next_variable_name : Text → Text × Text
unfolding span trim
next_variable_name s = let (name, rest) = span not_equals s in (rest, trim name)

-- `escapedChars`.
unfoldable pub escaped_chars : ℕ → Option ℕ
escaped_chars c =
    if c == b'\\'
    then some b'\\'
    else if c == b'n'
    then some b'\n'
    else if c == b'r'
    then some b'\r'
    else if c == b't'
    then some b'\t'
    else if c == b'\''
    then some b'\''
    else if c == b'"'
    then some b'"'
    else none

-- A backslash that starts no known escape stands for itself.
unfoldable pub unescape_loop : Text → Text
unfolding escaped_chars
unescape_loop [] = []
unescape_loop (c ∷ []) = c ∷ []
unescape_loop (c ∷ next_char ∷ s) =
    let both = unescape_loop s in
    let one = unescape_loop (next_char ∷ s) in
    if c == b'\\'
    then (elim (escaped_chars next_char) [ some repl ↦ repl ∷ both | none ↦ c ∷ one ])
    else c ∷ one

unfoldable pub has_backslash : Text → Bool
has_backslash [] = false
has_backslash (c ∷ s) = c == b'\\' || has_backslash s

unfoldable pub simple_unescape : Text → Text
unfolding unescape_loop has_backslash
simple_unescape line = if has_backslash line then unescape_loop line else line

-- The loop of `nextConst`: the text up to the closing quote, and the text behind it. A backslash
-- takes the next character along.
unfoldable pub const_loop : Text → Text × Text
const_loop [] = ([], [])
const_loop (c ∷ []) = if c == b'"' then ([], []) else (c ∷ [], [])
const_loop (c ∷ d ∷ s) =
    let both = const_loop s in
    let one = const_loop (d ∷ s) in
    if c == b'\\'
    then (c ∷ d ∷ both.0, both.1)
    else if c == b'"'
    then ([], d ∷ s)
    else (c ∷ one.0, one.1)

-- The character at the position itself is passed over.
unfoldable pub next_const : Text → Text × Text
unfolding const_loop simple_unescape trim
next_const s = let (raw, rest) = const_loop (skip s) in (rest, simple_unescape (trim raw))
