-- ===== src/VarRef.antt =====
-- packages/mcu-debug/src/adapter/var-scopes.ts: a thread, a frame and a scope packed into one
-- number. JavaScript's `&`, `|` and `<<` work on 32 bits: a number is a pattern below 2 ^ 32 on the
-- way, and read as a signed number at the end. `VariableScope` is its number.
pub mod Scope
pub mod Codec
mod Tests
use mcu_debug.VarRef.Scope
use mcu_debug.Prelude.{
  ℕ, ◌+◌, ◌-◌, ◌*◌, ◌/◌, ◌%◌, ◌^◌, bit_and, bit_or, Bool, not, ◌==◌, ◌||◌, ltb, ℤ, pos, negsuc,
  if◌then◌else◌,
}

abbrev pub variable_type_mask : ℕ
variable_type_mask = 8

abbrev pub actual_scope_mask : ℕ
actual_scope_mask = 7

abbrev pub frame_id_mask : ℕ
frame_id_mask = 16777215

abbrev pub thread_id_mask : ℕ
thread_id_mask = 33554431

abbrev pub scope_mask : ℕ
scope_mask = 15

abbrev pub scope_bits : ℕ
scope_bits = 4

abbrev pub frame_id_bits : ℕ
frame_id_bits = 24

-- The signed number of a pattern, and the pattern of a number, as the language defines them.
unfoldable pub to_int32 : ℕ → ℤ
to_int32 pattern = if ltb pattern (2 ^ 31) then pos pattern else negsuc (2 ^ 32 - 1 - pattern)

unfoldable pub to_uint32 : ℤ → ℕ
to_uint32 (pos n) = n % 2 ^ 32
to_uint32 (negsuc n) = 2 ^ 32 - 1 - n % 2 ^ 32

unfoldable pub shift_left : ℕ → ℕ → ℕ
shift_left pattern bits = pattern * 2 ^ bits % 2 ^ 32

unfoldable pub is_variable_reference : ℤ → Bool
is_variable_reference variables_reference =
    not (bit_and (to_uint32 variables_reference) variable_type_mask == 0)

unfoldable pub is_var_ref_global_or_static : ℤ → Bool
is_var_ref_global_or_static variables_reference =
    let scope = bit_and (to_uint32 variables_reference) actual_scope_mask in
    scope == Scope.global || scope == Scope.static || scope == Scope.scope

unfoldable pub decode_reference : ℤ → ℕ × ℕ × ℕ
decode_reference var_ref = (
  to_uint32 var_ref / 2 ^ (frame_id_bits + scope_bits),
  bit_and (to_uint32 var_ref / 2 ^ scope_bits) frame_id_mask,
  bit_and (to_uint32 var_ref) scope_mask,
)

unfoldable pub encode_reference : ℕ → ℕ → ℕ → ℤ
encode_reference thread_id frame_id scope = to_int32 (
    bit_or
      (bit_or (shift_left (bit_and thread_id thread_id_mask) (frame_id_bits + scope_bits))
        (shift_left (bit_and frame_id frame_id_mask) scope_bits))
      (bit_and scope scope_mask))

unfoldable pub get_scope_from_reference : ℤ → ℕ
get_scope_from_reference var_ref = bit_and (to_uint32 var_ref) scope_mask

unfoldable pub get_variable_class : ℕ → ℕ
get_variable_class scope = bit_and scope actual_scope_mask

unfoldable pub encode_var_reference : ℕ → ℕ → ℕ → ℤ
encode_var_reference thread_id frame_id scope =
    encode_reference thread_id frame_id (bit_or scope variable_type_mask)

unfoldable pub encode_scope_reference : ℕ → ℕ → ℕ → ℤ
encode_scope_reference thread_id frame_id scope =
    encode_reference thread_id frame_id (bit_and scope actual_scope_mask)
