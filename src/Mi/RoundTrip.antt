-- ===== src/Mi/RoundTrip.antt =====
-- The parser reads back what gdb prints.
use mcu_debug.Mi.Fuel.{length-next_value}
use mcu_debug.Mi.Unique.{unique_key_free}
use mcu_debug.Mi.Keys.{is_in}
use mcu_debug.Mi.Consts.{span-append, next_const-print_const}
use mcu_debug.Prelude.{
  ℕ, zero, suc, some, ◌≡◌, ◌≢◌, refl, List, [], ◌∷◌, ◌++◌, arith, false, length, All, ◌*◌, true,
  ◌≤◌, ◌+◌, length-append,
}
use mcu_debug.Mi.Chars.{Text, eat_whitespace, next_variable_name, starts, not_equals}
use mcu_debug.Mi.Parser.{
  Value, const, tuple, list, Fields, end, field, Values, nil, cons, next_value, next_result,
  next_tuple, next_list, value_position, enough,
}
use mcu_debug.Mi.Print.{
  print_value, print_more_fields, print_more_values, IsName, IsPrintable, ArePrintable,
  AllPrintable, const_printable, tuple_printable, list_printable, no_fields, more_fields, no_values,
  more_values, const_printable, tuple_printable, list_printable, more_values, more_fields,
}

All-not_equals : (k : Text) → All (λ c. c ≢ b'=') k → All (λ c. not_equals c ≡ true) k
All-not_equals [] h = tt
All-not_equals (c ∷ k) (p, h) = (ground arith, All-not_equals k h)

next_variable_name-append :
    (k rest : Text) → IsName k → next_variable_name (k ++ b'=' ∷ rest) ≡ (b'=' ∷ rest, k)
unfolding next_variable_name
next_variable_name-append k rest v =
    rw (span-append not_equals k b'=' rest (All-not_equals k v.no_equals) refl, v.trimmed)

-- A printed value starts with a quote or a bracket, so there is no white space to eat.
eat_whitespace-print_value :
    (v : Value) (rest : Text) → eat_whitespace (print_value v rest) ≡ print_value v rest
unfolding eat_whitespace print_value
eat_whitespace-print_value (const s) rest = refl
eat_whitespace-print_value (tuple f) rest = refl
eat_whitespace-print_value (list l) rest = refl

value_position-print_value :
    (v : Value) (rest : Text) → value_position (print_value v rest) ≡ print_value v rest
unfolding value_position print_value
value_position-print_value (const s) rest = refl
value_position-print_value (tuple f) rest = refl
value_position-print_value (list l) rest = refl

starts-print_value : (v : Value) (rest : Text) → starts b']' (print_value v rest) ≡ false
unfolding print_value
starts-print_value (const s) rest = refl
starts-print_value (tuple f) rest = refl
starts-print_value (list l) rest = refl

-- How the fields of an object end: at its brace, or at the end of the line.
pub data Closes : Text → Text → Type 0 where
  line_end : Closes [] []
  brace : (t : Text) → Closes (b'}' ∷ t) t

-- The text of some fields, the first of which stands behind the character `sep`.
abbrev opened : ℕ → Fields → Text → Text
opened sep end rest = rest
opened sep (field k v f) rest = sep ∷ (k ++ b'=' ∷ print_value v (print_more_fields f rest))

opened-comma : (f : Fields) (rest : Text) → print_more_fields f rest ≡ opened b',' f rest
unfolding print_more_fields
opened-comma end rest = refl
opened-comma (field k v f) rest = refl

eat_whitespace-opened :
    (f : Fields) {r t : Text} → Closes r t → eat_whitespace (opened b',' f r) ≡ opened b',' f r
unfolding eat_whitespace
eat_whitespace-opened end line_end = refl
eat_whitespace-opened end (brace t) = refl
eat_whitespace-opened (field k v f) c = refl

-- A value reads back in front of `rest`, on every fuel that is enough.
abbrev ReadsBack : Value → Text → Type 0
ReadsBack v rest =
    (n : ℕ)
    → 3 * length (print_value v rest) + 2 ≤ n
    → next_value n (print_value v rest) ≡ some (some (rest, v))

ReadsBack-le :
    (v : Value) (rest : Text) → ReadsBack v rest → length rest ≤ length (print_value v rest)
ReadsBack-le v rest h =
    let n = 3 * length (print_value v rest) + 2 in
    length-next_value n (print_value v rest) (omega arith) (h n (omega arith))

next_result-print :
    (n : ℕ) (k : Text) (v : Value) (rest : Text)
    → IsName k
    → ReadsBack v rest
    → 3 * length (k ++ b'=' ∷ print_value v rest) + 3 ≤ n
    → next_result n (k ++ b'=' ∷ print_value v rest) ≡ some (some (rest, k, v))
unfolding next_result
next_result-print zero k v rest name h l = absurd (omega arith)
next_result-print (suc n) k v rest name h l =
    rw (next_variable_name-append k (print_value v rest) name) (
      rw (eat_whitespace-print_value v rest) (
        rw (h n (omega (arith, length-append k (b'=' ∷ print_value v rest))))
          (rw (next_variable_name-append k (print_value v rest) name))))

-- One field and what is read behind it.
next_tuple-field :
    (n sep : ℕ) (keys : List Text) (k : Text) (v : Value) (f : Fields) (r t : Text)
    → sep ≢ b'}'
    → IsName k
    → is_in k keys ≡ false
    → ReadsBack v (print_more_fields f r)
    → Closes r t
    → 3 * length (opened sep (field k v f) r) + 1 ≤ suc n
    → next_tuple n (k ∷ keys) (opened b',' f r) ≡ some (t, f)
    → next_tuple (suc n) keys (opened sep (field k v f) r) ≡ some (t, field k v f)
unfolding next_tuple
next_tuple-field n sep keys k v f r t ne name free h c l more =
    let e = next_result-print n k v (print_more_fields f r) name h (omega arith) in
    rw (e, unique_key_free k keys free)
      (rw (opened-comma f r) (rw (eat_whitespace-opened f c) (rw more (ground arith))))

-- The text of some values, the first of which stands behind the character `sep`.
abbrev opened_values : ℕ → Values → Text → Text
opened_values sep nil rest = rest
opened_values sep (cons v l) rest = sep ∷ print_value v (print_more_values l rest)

opened_values-comma :
    (l : Values) (rest : Text) → print_more_values l rest ≡ opened_values b',' l rest
unfolding print_more_values
opened_values-comma nil rest = refl
opened_values-comma (cons v l) rest = refl

eat_whitespace-opened_values :
    (l : Values) (t : Text)
    → eat_whitespace (opened_values b',' l (b']' ∷ t)) ≡ opened_values b',' l (b']' ∷ t)
unfolding eat_whitespace
eat_whitespace-opened_values nil t = refl
eat_whitespace-opened_values (cons v l) t = refl

next_list-value :
    (n sep : ℕ) (v : Value) (l : Values) (t : Text)
    → sep ≢ b']'
    → ReadsBack v (print_more_values l (b']' ∷ t))
    → 3 * length (opened_values sep (cons v l) (b']' ∷ t)) + 1 ≤ suc n
    → next_list n (opened_values b',' l (b']' ∷ t)) ≡ some (t, l)
    → next_list (suc n) (opened_values sep (cons v l) (b']' ∷ t)) ≡ some (t, cons v l)
unfolding next_list
next_list-value n sep v l t ne h b more =
    let r = print_more_values l (b']' ∷ t) in
    rw (eat_whitespace-print_value v r) (
      rw (starts-print_value v r, value_position-print_value v r)
        (rw (h n (omega arith)) (
          rw (opened_values-comma l (b']' ∷ t))
            (rw (eat_whitespace-opened_values l t) (rw more (ground arith))))))

next_list_empty :
    (n : ℕ) (rest : Text) → 2 ≤ n → next_list n (b'[' ∷ b']' ∷ rest) ≡ some (rest, nil)
unfolding next_list eat_whitespace
next_list_empty zero rest h = absurd (omega arith)
next_list_empty (suc zero) rest h = absurd (omega arith)
next_list_empty (suc (suc n)) rest h = refl

-- The fuel that is left after a field is enough for the fields behind it.
fields_fuel :
    (n sep : ℕ) (k : Text) (v : Value) (f : Fields) (r : Text)
    → ReadsBack v (print_more_fields f r)
    → 3 * length (opened sep (field k v f) r) + 1 ≤ suc n
    → 3 * length (opened b',' f r) + 1 ≤ n
fields_fuel n sep k v f r h b = rw (← opened-comma f r) (
    omega (
      arith,
      ReadsBack-le v (print_more_fields f r) h,
      length-append k (b'=' ∷ print_value v (print_more_fields f r)),
    ))

values_fuel :
    (n sep : ℕ) (v : Value) (l : Values) (t : Text)
    → ReadsBack v (print_more_values l t)
    → 3 * length (opened_values sep (cons v l) t) + 1 ≤ suc n
    → 3 * length (opened_values b',' l t) + 1 ≤ n
values_fuel n sep v l t h b =
    rw (← opened_values-comma l t) (omega (arith, ReadsBack-le v (print_more_values l t) h))

mutual
  unfolding next_tuple print_value

  value-ReadsBack : {v : Value} → IsPrintable v → (rest : Text) → ReadsBack v rest
  value-ReadsBack p rest zero b = absurd (omega arith)
  value-ReadsBack (const_printable {s} h) rest (suc n) b = rw (next_const-print_const s rest h)
  value-ReadsBack (tuple_printable {k} {v} {f} p) rest (suc n) b =
      rw (fields-ReadsBack p n b'{' (omega arith) (brace rest) (omega arith))
  value-ReadsBack (list_printable no_values) rest (suc n) b =
      rw (next_list_empty n rest (omega arith))
  value-ReadsBack (list_printable (more_values p q)) rest (suc n) b =
      rw (values-ReadsBack (more_values p q) n b'[' rest (omega arith) (omega arith))

  fields-ReadsBack :
      {keys : List Text} {f : Fields}
      → ArePrintable keys f
      → (n sep : ℕ) {r t : Text} → sep ≢ b'}'
      → Closes r t
      → 3 * length (opened sep f r) + 1 ≤ n
      → next_tuple n keys (opened sep f r) ≡ some (t, f)
  fields-ReadsBack p zero sep ne c b = absurd (omega arith)
  fields-ReadsBack no_fields (suc n) sep ne line_end b = refl
  fields-ReadsBack no_fields (suc n) sep ne (brace t) b = refl
  fields-ReadsBack (more_fields {keys} {k} {v} {f} name free p q) (suc n) sep {r} {t} ne c b =
      let h = value-ReadsBack p (print_more_fields f r) in
      next_tuple-field n sep keys k v f r t ne name free h c b
        (fields-ReadsBack q n b',' (omega arith) c (fields_fuel n sep k v f r h b))

  values-ReadsBack :
      {l : Values}
      → AllPrintable l
      → (n sep : ℕ) (t : Text) → sep ≢ b']'
      → 3 * length (opened_values sep l (b']' ∷ t)) + 1 ≤ n
      → next_list n (opened_values sep l (b']' ∷ t)) ≡ some (t, l)
  values-ReadsBack p zero sep t ne b = absurd (omega arith)
  values-ReadsBack no_values (suc n) sep t ne b = refl
  values-ReadsBack (more_values {v} {l} p q) (suc n) sep t ne b =
      let h = value-ReadsBack p (print_more_values l (b']' ∷ t)) in
      next_list-value n sep v l t ne h b
        (values-ReadsBack q n b',' t (omega arith) (values_fuel n sep v l (b']' ∷ t) h b))

-- A printed value is read back, whatever text follows it, and that text is left.
pub next_value-print_value :
    {v : Value} (rest : Text)
    → IsPrintable v
    → next_value (enough (print_value v rest)) (print_value v rest) ≡ some (some (rest, v))
next_value-print_value rest p = value-ReadsBack p rest _ (omega arith)

-- The fields that follow the class of a record are read back up to the end of the line.
pub next_tuple-print_more_fields :
    {f : Fields}
    → ArePrintable [] f
    → next_tuple (enough (print_more_fields f [])) [] (print_more_fields f []) ≡ some ([], f)
next_tuple-print_more_fields {f} p =
    rw (opened-comma f []) (fields-ReadsBack p _ b',' (omega arith) line_end (omega arith))
