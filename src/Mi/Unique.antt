-- ===== src/Mi/Unique.antt =====
-- The keys of an object are distinct: no result of a tuple is lost to another of the same name.
use mcu_debug.Prelude.{
  ℕ, ◌+◌, ◌<◌, ◌≡◌, refl, List, [], ◌∷◌, ◌++◌, false, true, none, some, zero, suc, length, arith,
  length-append, Bool-cases, some, inl, inr, Option, ◌==◌, Option-cases,
}
use mcu_debug.Mi.Chars.{Text, eat_whitespace}
use mcu_debug.Mi.Keys.{
  text_eq, contains, is_in, inherited, decimal, unique_loop, unique_key, longest,
}
use mcu_debug.Mi.Parser.{Fields, end, field, next_tuple, Value, ◌>>=◌, next_result}

length-text_eq : (s t : Text) → text_eq s t ≡ true → length s ≡ length t
unfolding text_eq
length-text_eq [] [] h = refl
length-text_eq [] (d ∷ t) h = cc
length-text_eq (c ∷ s) [] h = cc
length-text_eq (c ∷ s) (d ∷ t) h = ground (arith, length-text_eq s t)

-- A key longer than every key is none of them.
contains_longer : (key : Text) (ks : List Text) → longest ks < length key → contains key ks ≡ false
unfolding contains
contains_longer key [] h = refl
contains_longer key (k ∷ ks) h = ground (arith, length-text_eq key k, contains_longer key ks)

unique_loop-is_in :
    (fuel : ℕ) (key : Text) (count : ℕ) (keys : List Text)
    → longest (keys ++ inherited) < fuel + length key
    → is_in (unique_loop fuel key count keys) keys ≡ false
unfolding unique_loop
unique_loop-is_in zero key count keys h = contains_longer key (keys ++ inherited) (omega arith)
unique_loop-is_in (suc fuel) key count keys h = elim (Bool-cases (is_in key keys)) [
  | inl taken ↦ rw taken (
      unique_loop-is_in fuel (key ++ b'#' ∷ decimal count) (count + 1) keys
        (omega (arith, length-append key (b'#' ∷ decimal count))))
  | inr free ↦ rw free free
]

-- The loop ends at a key that the object does not have, not even by inheritance.
pub unique_key-is_in : (key : Text) (keys : List Text) → is_in (unique_key key keys) keys ≡ false
unfolding unique_key
unique_key-is_in key keys =
    unique_loop-is_in (suc (longest (keys ++ inherited))) key 1 keys (omega arith)

-- A key that is free is taken as it is.
pub unique_key_free :
    (key : Text) (keys : List Text) → is_in key keys ≡ false → unique_key key keys ≡ key
unfolding unique_key
unique_key_free key keys h = rw h

-- Each key is new to the keys before it.
abbrev pub Distinct : List Text → Fields → Type 0
Distinct keys end = Unit
Distinct keys (field k v f) = (is_in k keys ≡ false) × Distinct (k ∷ keys) f

abbrev Keeps : List Text → Option (Text × Fields) → Type 0
Keeps keys none = Unit
Keeps keys (some (t, f)) = Distinct keys f

Keeps-field :
    (keys : List Text) (k : Text) (v : Value) (r : Option (Text × Fields))
    → Keeps (unique_key k keys ∷ keys) r
    → Keeps keys (r >>= λ t. some (t.0, field (unique_key k keys) v t.1))
Keeps-field keys k v none h = tt
Keeps-field keys k v (some (t, f)) h = (unique_key-is_in k keys, h)

next_tuple-Keeps : (n : ℕ) (keys : List Text) (s : Text) → Keeps keys (next_tuple n keys s)
unfolding next_tuple
next_tuple-Keeps zero keys s = tt
next_tuple-Keeps (suc n) keys [] = tt
next_tuple-Keeps (suc n) keys (c ∷ s) = elim (Bool-cases (c == b'}')) [
  | inl closed ↦ rw closed tt
  | inr more ↦ rw more (elim (Option-cases (next_result n s)) [
    | inl e ↦ rw e tt
    | inr (r, e) ↦ rw e (elim (Option-cases r) [
      | inl e' ↦ rw e' tt
      | inr ((rest, k, v), e') ↦ rw e' (
          Keeps-field keys k v (next_tuple n (unique_key k keys ∷ keys) (eat_whitespace rest))
            (next_tuple-Keeps n (unique_key k keys ∷ keys) (eat_whitespace rest)))
    ])
  ])
]

-- Whatever text is parsed, the fields of the object have distinct keys, none of them inherited, so
-- each result that was read is kept.
pub next_tuple-Distinct :
    (n : ℕ) (keys : List Text) (s : Text) {t : Text} {f : Fields}
    → next_tuple n keys s ≡ some (t, f)
    → Distinct keys f
next_tuple-Distinct n keys s e = rw e at (next_tuple-Keeps n keys s)
