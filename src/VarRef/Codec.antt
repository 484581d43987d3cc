-- ===== src/VarRef/Codec.antt =====
-- Decoding undoes encoding on the bits that fit: four of the thread, 24 of the frame, four of the
-- scope.
use mcu_debug.Prelude.{
  ℕ, ◌+◌, ◌*◌, ◌/◌, ◌%◌, ◌^◌, ◌<◌, bit_and, bit_or, true, false, ◌≡◌, ◌↔◌, refl, sym, ap, ◌∙◌,
  bit_or-fields, bit_and-ones, arith, not, bit_or-8, ◌==◌, bit_and-8,
}
use mcu_debug.VarRef.{
  to_int32, to_uint32, shift_left, decode_reference, encode_reference, encode_scope_reference,
  encode_var_reference, is_variable_reference,
}

to_uint32-to_int32 : (pattern : ℕ) → pattern < 2 ^ 32 → to_uint32 (to_int32 pattern) ≡ pattern
unfolding to_uint32 to_int32
to_uint32-to_int32 pattern h = ground arith

-- The pattern of a reference, field by field.
abbrev packed : ℕ → ℕ → ℕ → ℕ
packed t f s = t % 16 * 2 ^ 28 + f % 2 ^ 24 * 2 ^ 4 + s % 16

encode_reference-packed : (t f s : ℕ) → encode_reference t f s ≡ to_int32 (packed t f s)
unfolding encode_reference shift_left
encode_reference-packed t f s =
    let thread : bit_and t 33554431 * 2 ^ 28 % 2 ^ 32 ≡ t % 16 * 2 ^ 28 =
      omega (arith, bit_and-ones 25 t 33554431 refl) in
    let frame : bit_and f 16777215 * 2 ^ 4 % 2 ^ 32 ≡ f % 2 ^ 24 * 2 ^ 4 =
      omega (arith, bit_and-ones 24 f 16777215 refl) in
    let scope : bit_and s 15 ≡ s % 16 = bit_and-ones 4 s 15 refl in
    let upper = bit_or-fields 28 (t % 16) (f % 2 ^ 24 * 2 ^ 4) (omega arith) in
    let high : t % 16 * 2 ^ 28 + f % 2 ^ 24 * 2 ^ 4 ≡ (t % 16 * 2 ^ 24 + f % 2 ^ 24) * 2 ^ 4 =
      omega arith in
    let lower = bit_or-fields 4 (t % 16 * 2 ^ 24 + f % 2 ^ 24) (s % 16) (omega arith) in
    ap to_int32 (rw (thread, frame, scope, upper, high, lower) (omega arith))

decode_reference-packed :
    (t f s : ℕ) → decode_reference (to_int32 (packed t f s)) ≡ (t % 16, f % 2 ^ 24, s % 16)
unfolding decode_reference
decode_reference-packed t f s =
    let whole = to_uint32-to_int32 (packed t f s) (omega arith) in
    let frame = bit_and-ones 24 (packed t f s / 2 ^ 4) 16777215 refl in
    let scope = bit_and-ones 4 (packed t f s) 15 refl in
    let t_field : packed t f s / 2 ^ 28 ≡ t % 16 = omega arith in
    let f_field : packed t f s / 2 ^ 4 % 2 ^ 24 ≡ f % 2 ^ 24 = omega arith in
    let s_field : packed t f s % 2 ^ 4 ≡ s % 16 = omega arith in
    rw (whole, frame, scope) (λ i. (t_field i, f_field i, s_field i))

-- Decoding an encoded reference gives the thread modulo 16, the frame modulo 2 ^ 24 and the scope
-- modulo 16, for all numbers.
pub decode_reference-encode_reference :
    (t f s : ℕ) → decode_reference (encode_reference t f s) ≡ (t % 16, f % 2 ^ 24, s % 16)
decode_reference-encode_reference t f s =
    rw (encode_reference-packed t f s) (decode_reference-packed t f s)

-- Two triples have the same reference exactly if their threads agree modulo 16, their frames modulo
-- 2 ^ 24 and their scopes modulo 16.
pub encode_reference_iff :
    (t f s u g r : ℕ)
    → (encode_reference t f s ≡ encode_reference u g r)
      ↔ ((t % 16 ≡ u % 16) × (f % 2 ^ 24 ≡ g % 2 ^ 24) × (s % 16 ≡ r % 16))
encode_reference_iff t f s u g r = (
  λ e.
      let same =
        sym (decode_reference-encode_reference t f s)
        ∙ ap decode_reference e
        ∙ decode_reference-encode_reference u g r in
      (ap (λ d. d.0) same, ap (λ d. d.1) same, ap (λ d. d.2) same),
  λ e.
      encode_reference-packed t f s
      ∙ ap to_int32 (omega (arith, e.0, e.1, e.2))
      ∙ sym (encode_reference-packed u g r),
)

-- The same for scope references, whose scope counts modulo 8.
pub encode_scope_reference_iff :
    (t f s u g r : ℕ)
    → (encode_scope_reference t f s ≡ encode_scope_reference u g r)
      ↔ ((t % 16 ≡ u % 16) × (f % 2 ^ 24 ≡ g % 2 ^ 24) × (s % 8 ≡ r % 8))
unfolding encode_scope_reference
encode_scope_reference_iff t f s u g r =
    let both = encode_reference_iff t f (bit_and s 7) u g (bit_and r 7) in
    let left = bit_and-ones 3 s 7 refl in
    let right = bit_and-ones 3 r 7 refl in
    (
      λ e. let d = both.0 e in (d.0, d.1, omega (arith, d.2, left, right)),
      λ e. both.1 (e.0, e.1, omega (arith, e.2, left, right)),
    )

is_variable_reference-packed :
    (t f s : ℕ) → is_variable_reference (to_int32 (packed t f s)) ≡ not (8 * (s / 8 % 2) == 0)
unfolding is_variable_reference
is_variable_reference-packed t f s =
    let digit : 8 * (packed t f s / 8 % 2) ≡ 8 * (s / 8 % 2) = omega arith in
    rw (to_uint32-to_int32 (packed t f s) (omega arith), bit_and-8 (packed t f s), digit)

-- A scope reference decodes to the thread modulo 16, the frame modulo 2 ^ 24 and the low three bits
-- of the scope, and is no variable reference.
pub encode_scope_reference_lem :
    (t f s : ℕ)
    → (decode_reference (encode_scope_reference t f s) ≡ (t % 16, f % 2 ^ 24, s % 8))
      × (is_variable_reference (encode_scope_reference t f s) ≡ false)
unfolding encode_scope_reference
encode_scope_reference_lem t f s =
    let scope = bit_and-ones 3 s 7 refl in
    let low : s % 8 % 16 ≡ s % 8 = omega arith in
    let digit : 8 * (s % 8 / 8 % 2) ≡ 0 = omega arith in
    (
      rw (scope, decode_reference-encode_reference t f (s % 8), low),
      rw (
        scope,
        encode_reference-packed t f (s % 8),
        is_variable_reference-packed t f (s % 8),
        digit,
      ),
    )

-- A variable reference decodes to the thread modulo 16, the frame modulo 2 ^ 24 and the low three
-- bits of the scope with the fourth bit set, and is a variable reference.
pub encode_var_reference_lem :
    (t f s : ℕ)
    → (decode_reference (encode_var_reference t f s) ≡ (t % 16, f % 2 ^ 24, 8 + s % 8))
      × (is_variable_reference (encode_var_reference t f s) ≡ true)
unfolding encode_var_reference
encode_var_reference_lem t f s =
    let scope = bit_or-8 s in
    let low : (s / 16 * 16 + 8 + s % 8) % 16 ≡ 8 + s % 8 = omega arith in
    let digit : 8 * ((s / 16 * 16 + 8 + s % 8) / 8 % 2) ≡ 8 = omega arith in
    (
      rw (scope, decode_reference-encode_reference t f (s / 16 * 16 + 8 + s % 8), low),
      rw (
        scope,
        encode_reference-packed t f (s / 16 * 16 + 8 + s % 8),
        is_variable_reference-packed t f (s / 16 * 16 + 8 + s % 8),
        digit,
      ),
    )

-- The fourth bit put into a scope reference changes its scope alone.
pub decode_reference-typed :
    (t f s : ℕ)
    → decode_reference (to_int32 (bit_or (to_uint32 (encode_scope_reference t f s)) 8))
      ≡ (t % 16, f % 2 ^ 24, 8 + s % 8)
unfolding encode_scope_reference
decode_reference-typed t f s =
    let scope = bit_and-ones 3 s 7 refl in
    let pattern = to_uint32-to_int32 (packed t f (s % 8)) (omega arith) in
    let typed : packed t f (s % 8) / 16 * 16 + 8 + packed t f (s % 8) % 8 ≡ packed t f (8 + s % 8) =
      omega arith in
    let low : (8 + s % 8) % 16 ≡ 8 + s % 8 = omega arith in
    rw (
      scope,
      encode_reference-packed t f (s % 8),
      pattern,
      bit_or-8 (packed t f (s % 8)),
      typed,
      decode_reference-packed t f (8 + s % 8),
      low,
    )

-- A handle below 2 ^ 28 stands above the four bits of a scope.
pub handle_scope :
    (handle scope : ℕ)
    → handle < 2 ^ 28
    → to_uint32 (to_int32 (bit_or (shift_left handle 4) (bit_and scope 15)))
      ≡ handle * 16 + scope % 16
unfolding shift_left
handle_scope handle scope h =
    let low = bit_and-ones 4 scope 15 refl in
    let fits : handle * 2 ^ 4 % 2 ^ 32 ≡ handle * 2 ^ 4 = omega arith in
    rw (
      low,
      fits,
      bit_or-fields 4 handle (scope % 16) (omega arith),
      to_uint32-to_int32 (handle * 2 ^ 4 + scope % 16) (omega arith),
    )
