-- ===== src/Mi/Consts.antt =====
-- Quoted constants and names read back.
use mcu_debug.Prelude.{ℕ, ◌≡◌, ◌≢◌, refl, [], ◌∷◌, ◌++◌, arith, Bool, All, false, true}
use mcu_debug.Mi.Chars.{
  Text, span, const_loop, unescape_loop, simple_unescape, next_const, has_backslash, trim,
}
use mcu_debug.Mi.Print.{escape_char, escape, print_const}

pub const_loop_plain :
    (c : ℕ) (t : Text)
    → c ≢ b'\\'
    → c ≢ b'"'
    → t ≢ []
    → const_loop (c ∷ t) ≡ (c ∷ (const_loop t).0, (const_loop t).1)
unfolding const_loop
const_loop_plain c [] p q h = absurd (h refl)
const_loop_plain c (d ∷ t) p q h = ground arith

pub append-ne-nil : (s t : Text) (c : ℕ) → s ++ c ∷ t ≢ []
append-ne-nil [] t c e = cc
append-ne-nil (d ∷ s) t c e = cc

-- The loop of `nextConst` stops at the closing quote, not at an escaped one.
pub const_loop-escape : (s rest : Text) → const_loop (escape s ++ b'"' ∷ rest) ≡ (escape s, rest)
unfolding const_loop escape_char
const_loop-escape [] [] = refl
const_loop-escape [] (c ∷ rest) = refl
const_loop-escape (c ∷ s) rest = ground (
  arith,
  const_loop-escape s rest,
  const_loop_plain c (escape s ++ b'"' ∷ rest),
  append-ne-nil (escape s) rest b'"',
)

pub unescape_loop_plain :
    (c : ℕ) (t : Text) → c ≢ b'\\' → unescape_loop (c ∷ t) ≡ c ∷ unescape_loop t
unfolding unescape_loop
unescape_loop_plain c [] p = refl
unescape_loop_plain c (d ∷ t) p = ground arith

unescape_loop-escape : (s : Text) → unescape_loop (escape s) ≡ s
unfolding unescape_loop escape_char
unescape_loop-escape [] = refl
unescape_loop-escape (c ∷ s) =
    ground (arith, unescape_loop-escape s, unescape_loop_plain c (escape s))

pub unescape_loop_same : (s : Text) → has_backslash s ≡ false → unescape_loop s ≡ s
unfolding has_backslash
unescape_loop_same [] h = unfold unescape_loop in refl
unescape_loop_same (c ∷ s) h = ground (arith, unescape_loop_same s, unescape_loop_plain c s)

-- `simpleUnescape` takes back the escapes of a printed constant.
pub simple_unescape-escape : (s : Text) → simple_unescape (escape s) ≡ s
unfolding simple_unescape
simple_unescape-escape s = ground (arith, unescape_loop_same (escape s), unescape_loop-escape s)

pub next_const-print_const :
    (s rest : Text) → trim (escape s) ≡ escape s → next_const (print_const s rest) ≡ (rest, s)
unfolding next_const
next_const-print_const s rest h = rw (const_loop-escape s rest, h, simple_unescape-escape s)

-- A test that holds of a text and fails at the next character.
pub span-append :
    (test : ℕ → Bool) (s : Text) (c : ℕ) (rest : Text)
    → All (λ d. test d ≡ true) s
    → test c ≡ false
    → span test (s ++ c ∷ rest) ≡ (s, c ∷ rest)
unfolding span
span-append test [] c rest h e = rw e
span-append test (d ∷ s) c rest (p, h) e = ground (arith, p, span-append test s c rest h e)
