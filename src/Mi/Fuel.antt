-- ===== src/Mi/Fuel.antt =====
-- The parser ends on every text: fuel linear in its length is enough.
use mcu_debug.Prelude.{
  ℕ, zero, suc, ◌+◌, ◌*◌, ◌≤◌, ◌≡◌, refl, List, [], ◌∷◌, Option, none, some, length, arith, Bool,
  ◌⊎◌, inl, inr,
}
use mcu_debug.Mi.Chars.{
  Text, span, eat_whitespace, eat_variable_name, next_variable_name, next_const, const_loop, skip,
  not_equals, is_whitespace,
}
use mcu_debug.Mi.Keys.{unique_key}
use mcu_debug.Mi.Parser.{
  Value, Fields, next_value, next_result, next_tuple, next_list, value_position, enough,
}

length-span : (test : ℕ → Bool) (s : Text) → length (span test s).1 ≤ length s
unfolding span
length-span test [] = omega arith
length-span test (c ∷ s) = ground (arith, length-span test s)

length-eat_whitespace : (s : Text) → length (eat_whitespace s) ≤ length s
unfolding eat_whitespace
length-eat_whitespace s = length-span _ s

length-skip : (s : Text) → length (skip s) ≤ length s
length-skip [] = omega arith
length-skip (c ∷ s) = omega arith

length-next_variable_name : (s : Text) → length (next_variable_name s).0 ≤ length s
unfolding next_variable_name
length-next_variable_name s = length-span _ s

length-value_position : (s : Text) → length (value_position s) ≤ length s
unfolding value_position
length-value_position s = ground (
  arith,
  length-span not_equals s,
  length-skip (span not_equals s).1,
  length-eat_whitespace (eat_variable_name s),
  length-span is_whitespace (eat_variable_name s),
)

length-const_loop : (s : Text) → length (const_loop s).1 ≤ length s
unfolding const_loop
length-const_loop [] = omega arith
length-const_loop (c ∷ []) = ground arith
length-const_loop (c ∷ d ∷ s) = ground (arith, length-const_loop s, length-const_loop (d ∷ s))

length-next_const : (s : Text) → length (next_const s).0 ≤ length s
unfolding next_const
length-next_const s = omega (arith, length-const_loop (skip s), length-skip s)

-- A result is there, and the text left over is no longer than the one given.
abbrev ValueEnds : Text → Option (Option (Text × Value)) → Type 0
ValueEnds s none = ⊥
ValueEnds s (some none) = Unit
ValueEnds s (some (some (t, v))) = length t ≤ length s

abbrev ResultEnds : Text → Option (Option (Text × Text × Value)) → Type 0
ResultEnds s none = ⊥
ResultEnds s (some none) = Unit
ResultEnds s (some (some (t, k, v))) = length t ≤ length s

abbrev Ends : {A : Type 0} → Text → Option (Text × A) → Type 0
Ends s none = ⊥
Ends s (some (t, v)) = length t ≤ length s

ValueEnds-cases :
    (s : Text) (r : Option (Option (Text × Value)))
    → ValueEnds s r
    → (r ≡ some none)
      ⊎ ((t : Text) × (v : Value) × (r ≡ some (some (t, v))) × (length t ≤ length s))
ValueEnds-cases s none h = absurd h
ValueEnds-cases s (some none) h = inl refl
ValueEnds-cases s (some (some (t, v))) h = inr (t, v, refl, h)

ResultEnds-cases :
    (s : Text) (r : Option (Option (Text × Text × Value)))
    → ResultEnds s r
    → (r ≡ some none)
      ⊎ ((t k : Text) × (v : Value) × (r ≡ some (some (t, k, v))) × (length t ≤ length s))
ResultEnds-cases s none h = absurd h
ResultEnds-cases s (some none) h = inl refl
ResultEnds-cases s (some (some (t, k, v))) h = inr (t, k, v, refl, h)

pub Ends-cases :
    {A : Type 0} (s : Text) (r : Option (Text × A))
    → Ends s r
    → (t : Text) × (v : A) × (r ≡ some (t, v)) × (length t ≤ length s)
Ends-cases s none h = absurd h
Ends-cases s (some (t, v)) h = (t, v, refl, h)

mutual
  unfolding next_tuple

  next_value-Ends : (n : ℕ) (s : Text) → 3 * length s + 2 ≤ n → ValueEnds s (next_value n s)
  next_value-Ends zero s h = absurd (omega arith)
  next_value-Ends (suc n) s h = ground (
    arith,
    length-next_const s,
    next_tuple-Ends n [] s (omega arith),
    next_list-Ends n s (omega arith),
  )

  next_result-Ends : (n : ℕ) (s : Text) → 3 * length s + 3 ≤ n → ResultEnds s (next_result n s)
  next_result-Ends zero s h = absurd (omega arith)
  next_result-Ends (suc n) s h =
      let at = eat_whitespace (skip (next_variable_name s).0) in
      let shorter : length at ≤ length s = omega (
        arith,
        length-next_variable_name s,
        length-skip (next_variable_name s).0,
        length-eat_whitespace (skip (next_variable_name s).0),
      ) in
      elim (ValueEnds-cases at (next_value n at) (next_value-Ends n at (omega arith))) [
        | inl e ↦ rw e tt
        | inr (t, v, e, l) ↦ rw e (omega arith)
      ]

  next_tuple-Ends :
      (n : ℕ) (keys : List Text) (s : Text) → 3 * length s + 1 ≤ n → Ends s (next_tuple n keys s)
  next_tuple-Ends zero keys s h = absurd (omega arith)
  next_tuple-Ends (suc n) keys [] h = omega arith
  next_tuple-Ends (suc n) keys (c ∷ s) h =
      elim (ResultEnds-cases s (next_result n s) (next_result-Ends n s (omega arith))) [
        | inl e ↦ rw e (ground arith)
        | inr (t, k, v, e, l) ↦
            let at = eat_whitespace t in
            let rec =
              next_tuple-Ends n (unique_key k keys ∷ keys) at
                (omega (arith, length-eat_whitespace t)) in
            let (t', f, e', l') = Ends-cases at (next_tuple n (unique_key k keys ∷ keys) at) rec in
            rw e (rw e' (ground (arith, length-eat_whitespace t)))
      ]

  next_list-Ends : (n : ℕ) (s : Text) → 3 * length s + 1 ≤ n → Ends s (next_list n s)
  next_list-Ends zero s h = absurd (omega arith)
  next_list-Ends (suc n) [] h = omega arith
  next_list-Ends (suc n) (c ∷ s) h =
      let at = eat_whitespace s in
      let from = value_position at in
      let shorter : length from ≤ length s =
        omega (arith, length-eat_whitespace s, length-value_position at) in
      let (t1, l1, e1, k1) =
        Ends-cases at (next_list n at)
          (next_list-Ends n at (omega (arith, length-eat_whitespace s))) in
      elim (ValueEnds-cases from (next_value n from) (next_value-Ends n from (omega arith))) [
        | inl e ↦
            let (t2, l2, e2, k2) =
              Ends-cases from (next_list n from) (next_list-Ends n from (omega arith)) in
            rw (e1, e, e2) (ground (arith, length-eat_whitespace s))
        | inr (t, v, e, l) ↦
            let rec =
              next_list-Ends n (eat_whitespace t) (omega (arith, length-eat_whitespace t)) in
            let (t2, l2, e2, k2) =
              Ends-cases (eat_whitespace t) (next_list n (eat_whitespace t)) rec in
            rw (e1, e, e2) (ground (arith, length-eat_whitespace s, length-eat_whitespace t))
      ]

-- What is left behind a value is no longer than the text that it was read from.
pub length-next_value :
    (n : ℕ) (s : Text) {t : Text} {v : Value}
    → 3 * length s + 2 ≤ n
    → next_value n s ≡ some (some (t, v))
    → length t ≤ length s
length-next_value n s h e = rw e at (next_value-Ends n s h)

-- With the fuel that `parse_record` gives, a tuple is read to its end.
pub next_tuple-total :
    (s : Text) → (t : Text) × (f : Fields) × (next_tuple (enough s) [] s ≡ some (t, f))
next_tuple-total s =
    let (t, f, e, l) =
      Ends-cases s (next_tuple (enough s) [] s) (next_tuple-Ends (enough s) [] s (omega arith)) in
    (t, f, e)
