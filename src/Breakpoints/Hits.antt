-- ===== src/Breakpoints/Hits.antt =====
-- Which hit conditions are taken.
use mcu_debug.Prelude.{
  ℕ, zero, suc, ◌+◌, ◌/◌, ◌%◌, ◌<◌, ◌≤◌, Bool, true, false, ◌==◌, ltb, some, List, [], ◌∷◌, ◌++◌,
  ◌≡◌, refl, ap, ◌∙◌, arith, All, if◌then◌else◌, length, length-append,
}
use mcu_debug.Mi.Chars.{Text, trim, trim_end, eat_whitespace, is_whitespace, is_digit, span}
use mcu_debug.Mi.Keys.{decimal, decimal_from}
use mcu_debug.Breakpoints.Args.{
  BkptArg, temporary, ignore_count, first_number, parse_digits, match_length, parse_trimmed,
  parse_hit_contion,
}

abbrev AreDigits : Text → Type 0
AreDigits s = All (λ c. is_digit c ≡ true) s

AreDigits-snoc : (s : Text) (c : ℕ) → AreDigits s → is_digit c ≡ true → AreDigits (s ++ c ∷ [])
AreDigits-snoc [] c h e = (e, tt)
AreDigits-snoc (d ∷ s) c (hd, h) e = (hd, AreDigits-snoc s c h e)

digit-IsDigit : (n : ℕ) → n < 10 → is_digit (b'0' + n) ≡ true
unfolding is_digit
digit-IsDigit n h = ground arith

decimal_from-AreDigits : (fuel n : ℕ) → AreDigits (decimal_from fuel n)
unfolding decimal_from
decimal_from-AreDigits zero n = (digit-IsDigit (n % 10) (omega arith), tt)
decimal_from-AreDigits (suc fuel) n = by_size (ltb n 10) refl (decimal_from-AreDigits fuel (n / 10))
  where
    by_size :
        (b : Bool)
        → ltb n 10 ≡ b
        → AreDigits (decimal_from fuel (n / 10))
        → AreDigits
            (if b then (b'0' + n) ∷ [] else decimal_from fuel (n / 10) ++ (b'0' + n % 10) ∷ [])
    by_size true e rest = (digit-IsDigit n (ground (arith, e)), tt)
    by_size false e rest =
        AreDigits-snoc (decimal_from fuel (n / 10)) (b'0' + n % 10) rest
          (digit-IsDigit (n % 10) (omega arith))

digit-ne-blank : (c : ℕ) → is_digit c ≡ true → is_whitespace c ≡ false
unfolding is_digit is_whitespace
digit-ne-blank c h = ground arith

trim_end-digits : (s : Text) → AreDigits s → trim_end s ≡ s
unfolding trim_end
trim_end-digits [] h = refl
trim_end-digits (c ∷ s) (hc, h) = rw (digit-ne-blank c hc, trim_end-digits s h) refl

eat_whitespace-digit : (c : ℕ) (s : Text) → is_digit c ≡ true → eat_whitespace (c ∷ s) ≡ c ∷ s
unfolding eat_whitespace span
eat_whitespace-digit c s h = ground (arith, digit-ne-blank c h)

trim-digits : (s : Text) → AreDigits s → trim s ≡ s
unfolding trim
trim-digits [] h = unfold eat_whitespace span trim_end in refl
trim-digits (c ∷ s) (hc, h) =
    ap trim_end (eat_whitespace-digit c s hc) ∙ trim_end-digits (c ∷ s) (hc, h)

trim-greater : (s : Text) → AreDigits s → trim (b'>' ∷ s) ≡ b'>' ∷ s
unfolding trim eat_whitespace span trim_end is_whitespace
trim-greater s h = rw (trim_end-digits s h) refl

span-digits : (s : Text) → AreDigits s → span is_digit s ≡ (s, [])
unfolding span
span-digits [] h = refl
span-digits (c ∷ s) (hc, h) = rw (hc, span-digits s h) refl

first_number-digits : (c : ℕ) (s : Text) → AreDigits (c ∷ s) → first_number (c ∷ s) ≡ some (c ∷ s)
unfolding first_number
first_number-digits c s (hc, h) = rw (hc, span-digits s h) refl

length-decimal_from : (fuel n : ℕ) → 1 ≤ length (decimal_from fuel n)
unfolding decimal_from
length-decimal_from zero n = omega arith
length-decimal_from (suc fuel) n =
    ground (arith, length-append (decimal_from fuel (n / 10)) ((b'0' + n % 10) ∷ []))

decimal-short : (n : ℕ) → ltb n 10 ≡ true → decimal n ≡ (b'0' + n) ∷ []
unfolding decimal decimal_from
decimal-short zero e = refl
decimal-short (suc n) e = rw e refl

decimal-long : (n : ℕ) → ltb n 10 ≡ false → 2 ≤ length (decimal n)
unfolding decimal decimal_from
decimal-long zero e = ground (arith, e)
decimal-long (suc n) e = ground (
  arith,
  e,
  length-append (decimal_from n (suc n / 10)) ((b'0' + suc n % 10) ∷ []),
  length-decimal_from n (suc n / 10),
)

decimal-AreDigits : (n : ℕ) → AreDigits (decimal n)
unfolding decimal
decimal-AreDigits n = decimal_from-AreDigits n n

first_number-filled : (s : Text) → 1 ≤ length s → AreDigits s → first_number s ≡ some s
first_number-filled [] l h = absurd (omega arith)
first_number-filled (c ∷ s) l h = first_number-digits c s h

parse_trimmed-greater :
    (n : ℕ) → parse_trimmed (b'>' ∷ decimal n) ≡ (ignore_count (some (decimal n)) ∷ [], false)
unfolding parse_trimmed
parse_trimmed-greater n =
    ap (λ count. (ignore_count count ∷ [], false))
      (first_number-filled (decimal n) (unfold decimal in length-decimal_from n n)
        (decimal-AreDigits n))

-- A number as a hit condition is refused if it has two digits or more, sets nothing if it is 0, and
-- else makes a temporary breakpoint.
abbrev pub counted : ℕ → List BkptArg × Bool
counted n =
    if n == 0 then ([], false) else if ltb n 10 then (temporary n ∷ [], false) else ([], true)

digit-ne-greater : (c : ℕ) → is_digit c ≡ true → (c == b'>') ≡ false
unfolding is_digit
digit-ne-greater c h = ground arith

parse_trimmed-long : (s : Text) → AreDigits s → 2 ≤ length s → parse_trimmed s ≡ ([], true)
unfolding parse_trimmed match_length
parse_trimmed-long [] h l = absurd (omega arith)
parse_trimmed-long (c ∷ []) h l = absurd (omega arith)
parse_trimmed-long (c ∷ d ∷ s) h l =
    rw (digit-ne-greater c h.0, first_number-digits c (d ∷ s) h) (ground arith)

parse_trimmed-short :
    (n : ℕ)
    → n < 10
    → parse_trimmed ((b'0' + n) ∷ []) ≡ (if n == 0 then ([], false) else (temporary n ∷ [], false))
unfolding parse_trimmed match_length parse_digits
parse_trimmed-short n h =
    rw
      (
        digit-ne-greater (b'0' + n) (digit-IsDigit n h),
        first_number-digits (b'0' + n) [] (digit-IsDigit n h, tt),
      )
      (ground (arith, h))

parse_hit_contion-digits : (n : ℕ) (b : Bool) → ltb n 10 ≡ b → parse_trimmed (decimal n) ≡ counted n
parse_hit_contion-digits n true e =
    ap parse_trimmed (decimal-short n e)
    ∙ parse_trimmed-short n (ground (arith, e))
    ∙ ground (arith, e)
parse_hit_contion-digits n false e =
    parse_trimmed-long (decimal n) (decimal-AreDigits n) (decimal-long n e) ∙ ground (arith, e)

-- A number in decimal notation as a hit condition: 0 sets nothing, a number from 1 to 9 makes a
-- temporary breakpoint with that count, and every number from 10 on is refused with the message about
-- unsupported expressions. Behind `>` every number is taken as the count of hits to ignore.
pub parse_hit_contion-decimal :
    (n : ℕ)
    → (parse_hit_contion (decimal n) ≡ counted n)
      × (parse_hit_contion (b'>' ∷ decimal n) ≡ (ignore_count (some (decimal n)) ∷ [], false))
unfolding parse_hit_contion
parse_hit_contion-decimal n = (
  ap parse_trimmed (trim-digits (decimal n) (decimal-AreDigits n))
      ∙ parse_hit_contion-digits n (ltb n 10) refl,
  ap parse_trimmed (trim-greater (decimal n) (decimal-AreDigits n)) ∙ parse_trimmed-greater n,
)
