-- ===== src/Mi/Keys.antt =====
-- How `nextTuple` makes the key of a repeated result unique.
use mcu_debug.Prelude.{
  ℕ, zero, suc, ◌+◌, ◌/◌, ◌%◌, Bool, true, false, ◌||◌, List, [], ◌∷◌, ◌++◌, ◌==◌, ltb, codes,
  length, if◌then◌else◌,
}
use mcu_debug.Mi.Chars.{Text}

unfoldable pub text_eq : Text → Text → Bool
text_eq [] [] = true
text_eq (c ∷ s) (d ∷ t) = if c == d then text_eq s t else false
text_eq _ _ = false

unfoldable pub contains : Text → List Text → Bool
unfolding text_eq
contains key [] = false
contains key (k ∷ ks) = text_eq key k || contains key ks

-- The names that every object has from `Object.prototype`, which `in` finds too.
abbrev pub inherited : List Text
inherited =
    codes "constructor"
    ∷ codes "__proto__"
    ∷ codes "__defineGetter__"
    ∷ codes "__defineSetter__"
    ∷ codes "hasOwnProperty"
    ∷ codes "__lookupGetter__"
    ∷ codes "__lookupSetter__"
    ∷ codes "isPrototypeOf"
    ∷ codes "propertyIsEnumerable"
    ∷ codes "toString"
    ∷ codes "valueOf"
    ∷ codes "toLocaleString"
    ∷ []

-- `key in ret`, where `keys` are the keys set so far.
unfoldable pub is_in : Text → List Text → Bool
unfolding contains
is_in key keys = contains key (keys ++ inherited)

-- A number in decimal notation; the first number is fuel, and a number's own value is enough.
unfoldable pub decimal_from : ℕ → ℕ → Text
decimal_from zero n = (b'0' + n % 10) ∷ []
decimal_from (suc fuel) n =
    let more = decimal_from fuel (n / 10) in
    if ltb n 10 then (b'0' + n) ∷ [] else more ++ (b'0' + n % 10) ∷ []

unfoldable pub decimal : ℕ → Text
unfolding decimal_from
decimal n = decimal_from n n

-- The loop `while (key in ret)`, on fuel.
unfoldable pub unique_loop : ℕ → Text → ℕ → List Text → Text
unfolding is_in decimal
unique_loop zero key count keys = key
unique_loop (suc fuel) key count keys =
    let later = unique_loop fuel (key ++ b'#' ∷ decimal count) (count + 1) keys in
    if is_in key keys then later else key

-- The longest key: no longer key is taken.
abbrev pub longest : List Text → ℕ
longest [] = 0
longest (k ∷ ks) = if ltb (longest ks) (length k) then length k else longest ks

unfoldable pub unique_key : Text → List Text → Text
unfolding unique_loop
unique_key key keys = unique_loop (suc (longest (keys ++ inherited))) key 1 keys
