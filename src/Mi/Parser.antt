-- ===== src/Mi/Parser.antt =====
-- The recursive part of the parser. `none` says that the fuel ran out, which `Fuel` rules out;
-- an inner `none` is the `undefined` of the source.
use mcu_debug.Prelude.{
  ℕ, zero, suc, ◌+◌, ◌*◌, Bool, ◌||◌, Option, none, some, List, [], ◌∷◌, if◌then◌else◌, length,
  ◌==◌,
}
use mcu_debug.Mi.Chars.{
  Text, eat_whitespace, eat_variable_name, next_variable_name, next_const, skip, starts,
}
use mcu_debug.Mi.Keys.{unique_key}

-- What the parser builds: a string, an object or an array. The fields stand in the order in which
-- they were set.
mutual
  pub data Value : Type 0 where
    const : Text → Value
    tuple : Fields → Value
    list : Values → Value

  pub data Fields : Type 0 where
    end : Fields
    field : Text → Value → Fields → Fields

  pub data Values : Type 0 where
    nil : Values
    cons : Value → Values → Values

infixl 5 ◌>>=◌
abbrev pub ◌>>=◌ : {A B : Type 0} → Option A → (A → Option B) → Option B
none >>= f = none
some a >>= f = f a

abbrev is_value_start : Text → Bool
is_value_start s = starts b'"' s || (starts b'{' s || starts b'[' s)

-- The position from which `nextList` reads a value: the name of a result is dropped.
unfoldable pub value_position : Text → Text
unfolding eat_whitespace eat_variable_name
value_position s = if is_value_start s then s else eat_whitespace (eat_variable_name s)

unfoldable mutual
  pub next_value : ℕ → Text → Option (Option (Text × Value))
  next_value zero s = none
  next_value (suc n) s =
      let as_tuple = next_tuple n [] s >>= λ r. some (some (r.0, tuple r.1)) in
      let as_list = next_list n s >>= λ r. some (some (r.0, list r.1)) in
      if starts b'"' s
      then some (some ((next_const s).0, const (next_const s).1))
      else if starts b'{' s
      then as_tuple
      else if starts b'[' s
      then as_list
      else some none

  pub next_result : ℕ → Text → Option (Option (Text × Text × Value))
  next_result zero s = none
  next_result (suc n) s =
      let (rest, name) = next_variable_name s in
      next_value n (eat_whitespace (skip rest)) >>= λ r.
      some (elim r [ none ↦ none | some (rest', v) ↦ some (rest', name, v) ])

  -- `keys` are the keys of `ret` so far.
  pub next_tuple : ℕ → List Text → Text → Option (Text × Fields)
  next_tuple zero keys s = none
  next_tuple (suc n) keys [] = some ([], end)
  next_tuple (suc n) keys (c ∷ s) =
      let more = next_result n s >>= λ r. elim r [
        | none ↦ some (s, end)
        | some (rest, name, v) ↦
            let key = unique_key name keys in
            next_tuple n (key ∷ keys) (eat_whitespace rest) >>= λ t. some (t.0, field key v t.1)
      ] in
      if c == b'}' then some (s, end) else more

  pub next_list : ℕ → Text → Option (Text × Values)
  next_list zero s = none
  next_list (suc n) [] = some ([], nil)
  next_list (suc n) (c ∷ s) =
      let at = eat_whitespace s in
      let closed = next_list n at in
      let more = next_value n (value_position at) >>= λ r. elim r [
        | none ↦ next_list n (value_position at)
        | some (rest, v) ↦ next_list n (eat_whitespace rest) >>= λ t. some (t.0, cons v t.1)
      ] in
      if c == b']' then some (s, nil) else if starts b']' at then closed else more

-- Enough for every text.
abbrev pub enough : Text → ℕ
enough s = 3 * length s + 3
