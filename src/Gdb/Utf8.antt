-- ===== src/Gdb/Utf8.antt =====
-- `Buffer.toString()`, with which the chunks of gdb's output become text: each chunk is decoded on its
-- own. Bytes that are no UTF-8 become the replacement character, one for each longest start of a
-- character; a character above 0xFFFF becomes two units.
use mcu_debug.Prelude.{
  ℕ, zero, suc, ◌+◌, ◌*◌, ◌-◌, ◌/◌, ◌%◌, ltb, leb, ◌&&◌, ◌==◌, List, [], ◌∷◌, ◌++◌, if◌then◌else◌,
  ◌≡◌, refl,
}
use mcu_debug.Mi.Chars.{Text}

-- The bytes that are still needed for a character, what is known of it, and the range of the next.
pub record Decoder : Type 0 where
  pub needed : ℕ
  pub code_point : ℕ
  pub lower : ℕ
  pub upper : ℕ

abbrev pub between : Decoder
between = record { needed = 0; code_point = 0; lower = 0x80; upper = 0xBF }

abbrev expecting : ℕ → ℕ → ℕ → ℕ → Text × Decoder
expecting needed code_point lower upper =
    ([], record { needed = needed; code_point = code_point; lower = lower; upper = upper })

-- The first byte of a character.
unfoldable pub decode_first : ℕ → Text × Decoder
decode_first b =
    if ltb b 0x80
    then (b ∷ [], between)
    else if leb 0xC2 b && leb b 0xDF
    then expecting 1 (b - 0xC0) 0x80 0xBF
    else if leb 0xE0 b && leb b 0xEF
    then expecting 2 (b - 0xE0) (if b == 0xE0 then 0xA0 else 0x80)
        (if b == 0xED then 0x9F else 0xBF)
    else if leb 0xF0 b && leb b 0xF4
    then expecting 3 (b - 0xF0) (if b == 0xF0 then 0x90 else 0x80)
        (if b == 0xF4 then 0x8F else 0xBF)
    else (0xFFFD ∷ [], between)

unfoldable pub units : ℕ → Text
units c =
    if ltb c 0x10000
    then c ∷ []
    else (0xD800 + (c - 0x10000) / 1024) ∷ (0xDC00 + (c - 0x10000) % 1024) ∷ []

unfoldable pub decode_more : ℕ → ℕ → Text × Decoder
decode_more zero code_point = (units code_point, between)
decode_more (suc needed) code_point = expecting (suc needed) code_point 0x80 0xBF

abbrev replaced : Text × Decoder → Text × Decoder
replaced t = (0xFFFD ∷ t.0, t.1)

unfoldable pub decode_byte : Decoder → ℕ → Text × Decoder
decode_byte d b = elim d.needed [
  | zero ↦ decode_first b
  | suc needed ↦
      if leb d.lower b && leb b d.upper
      then decode_more needed (d.code_point * 64 + (b - 0x80))
      else replaced (decode_first b)
]

abbrev cut_short : ℕ → Text
cut_short zero = []
cut_short (suc n) = 0xFFFD ∷ []

unfoldable pub decode_from : Decoder → List ℕ → Text
decode_from d [] = cut_short d.needed
decode_from d (b ∷ s) = let (out, d') = decode_byte d b in out ++ decode_from d' s

unfoldable pub to_string : List ℕ → Text
to_string bytes = decode_from between bytes

-- "é€😀" and an overlong, a surrogate and a cut character.
decoded :
    to_string (
      0xC3 ∷ 0xA9 ∷ 0xE2 ∷ 0x82 ∷ 0xAC ∷ 0xF0 ∷ 0x9F ∷ 0x98 ∷ 0x80 ∷ 0xC0 ∷ 0xAF ∷ 0xE2 ∷ 0x82
      ∷ b'a' ∷ 0xC3 ∷ [])
    ≡ 0xE9 ∷ 0x20AC ∷ 0xD83D ∷ 0xDE00 ∷ 0xFFFD ∷ 0xFFFD ∷ 0xFFFD ∷ b'a' ∷ 0xFFFD ∷ []
unfolding to_string decode_from decode_byte decode_first decode_more units
decoded = refl
