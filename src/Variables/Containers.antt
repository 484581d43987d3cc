-- ===== src/Variables/Containers.antt =====
-- What a reference to a variable leads to.
use mcu_debug.Prelude.{
  ℕ, ◌+◌, ◌*◌, ◌/◌, ◌%◌, ◌^◌, ◌<◌, bit_and, ℤ, some, ◌≡◌, ◌≢◌, refl, sym, ap, ◌∙◌, arith, List,
  bit_and-ones, bit_and-8, ℕ_discrete,
}
use mcu_debug.Maps.{put, get-put_self}
use mcu_debug.Handles.{add_object}
use mcu_debug.Handles.Laws.{IsValid, add_object-IsValid}
use mcu_debug.Handles.Add.{add_object-get_object, add_object-counter}
use mcu_debug.VarRef.{decode_reference, encode_scope_reference, to_uint32}
use mcu_debug.VarRef.Codec.{decode_reference-typed, handle_scope}
use mcu_debug.Variables.Frames.{not_zero}
use mcu_debug.Variables.{
  VariableObject, VariableKeys, VariableKeys_discrete, keys_of, object_truthy, create_variable,
  new_variable, new_keys, get_thread_frame_info, get_variable_by_ref, get_scope_from_handle,
  Container, VariableManager, get_var_or_frame_info, get_variable_info, get_container,
}

abbrev pub IsContainer : Container → Type 0
IsContainer c = IsValid VariableKeys_discrete keys_of object_truthy c

-- Creating a variable keeps the handles of a container valid.
pub create_variable-IsContainer :
    (scope : ℕ) (parent : ℤ) (name value type : List ℕ) (t f : ℕ) {c : Container}
    → IsContainer c
    → IsContainer (create_variable scope parent name value type t f c).1
unfolding create_variable
create_variable-IsContainer scope parent name value type t f valid =
    add_object-IsValid VariableKeys_discrete keys_of object_truthy _ valid

-- In a valid container with a counter below 2 ^ 28 - 1, the reference that `createVariable` gives
-- carries the low four bits of the scope, and finds a variable with the keys of the created one, which
-- decode to the thread modulo 16 and the frame modulo 2 ^ 24.
pub create_variable-get_variable_by_ref :
    (scope : ℕ) (parent : ℤ) (name value type : List ℕ) (t f : ℕ) (c : Container)
    → IsContainer c
    → c.counter + 1 < 2 ^ 28
    → let created = create_variable scope parent name value type t f c in
      (kept : VariableObject) × (get_variable_by_ref created.0.1 created.1 ≡ some kept)
      × (kept.keys ≡ created.0.0.keys)
      × (get_thread_frame_info kept ≡ (t % 16, f % 2 ^ 24, 8 + scope % 8))
      × (get_scope_from_handle created.0.1 ≡ scope % 16)
unfolding create_variable get_variable_by_ref get_scope_from_handle new_variable new_keys
    get_thread_frame_info
create_variable-get_variable_by_ref scope parent name value type t f c valid bound =
    let var_ref = encode_scope_reference t f (bit_and scope 7) in
    let variable = new_variable scope parent name var_ref value type in
    let kept = add_object-get_object VariableKeys_discrete keys_of object_truthy variable valid in
    let below = add_object-counter VariableKeys_discrete keys_of object_truthy variable valid in
    let handle = (add_object VariableKeys_discrete keys_of object_truthy variable c).0 in
    let pattern = handle_scope handle scope (omega (arith, below, bound)) in
    let upper : (handle * 16 + scope % 16) / 2 ^ 4 ≡ handle = omega arith in
    let class : bit_and scope 7 % 8 ≡ scope % 8 = omega (arith, bit_and-ones 3 scope 7 refl) in
    let low = bit_and-ones 4 (handle * 16 + scope % 16) 15 refl in
    let same : (handle * 16 + scope % 16) % 2 ^ 4 ≡ scope % 16 = omega arith in
    (
      kept.0,
      rw (get_variable_by_ref, pattern, upper) kept.1,
      kept.2,
      ap (λ (k : VariableKeys). decode_reference k.frame_ref) kept.2
          ∙ rw (decode_reference-typed t f (bit_and scope 7), class),
      rw (get_scope_from_handle, pattern, low, same),
    )

-- The fourth bit and the low three of a pattern are those of its scope.
same_bits :
    (pattern scope : ℕ)
    → bit_and pattern 15 ≡ scope % 16
    → (bit_and pattern 8 ≡ bit_and scope 8) × (bit_and (bit_and pattern 15) 7 ≡ bit_and scope 7)
same_bits pattern scope e =
    let low = bit_and-ones 4 pattern 15 refl in
    let mine = bit_and-ones 3 (bit_and pattern 15) 7 refl in
    let its = bit_and-ones 3 scope 7 refl in
    (omega (arith, e, low, bit_and-8 pattern, bit_and-8 scope), omega (arith, e, mine, its))

-- If a variable is created in a valid container with a counter below 2 ^ 28 - 1, with a scope whose
-- fourth bit is one, and the container stands in the manager for that scope, `getVarOrFrameInfo` of
-- the variable's reference gives its thread modulo 16, its frame modulo 2 ^ 24 and its scope modulo 16.
pub create_variable-get_var_or_frame_info :
    (scope : ℕ) (parent : ℤ) (name value type : List ℕ) (t f : ℕ) (c : Container)
    (m : VariableManager)
    → IsContainer c
    → c.counter + 1 < 2 ^ 28
    → bit_and scope 8 ≢ 0
    → let created = create_variable scope parent name value type t f c in
      let after : VariableManager = record m {
        containers = put ℕ_discrete (bit_and scope 7) created.1 m.containers;
      } in
      get_var_or_frame_info created.0.1 after ≡ some (t % 16, f % 2 ^ 24, scope % 16)
unfolding get_var_or_frame_info get_variable_info get_container get_scope_from_handle
create_variable-get_var_or_frame_info scope parent name value type t f c m valid bound typed =
    let created = create_variable scope parent name value type t f c in
    let reference = created.0.1 in
    let found =
      create_variable-get_variable_by_ref scope parent name value type t f c valid bound in
    let bits = same_bits (to_uint32 reference) scope found.4 in
    let typed_reference =
      not_zero (bit_and (to_uint32 reference) 8) (λ e. typed (sym bits.0 ∙ e)) in
    let container = get-put_self ℕ_discrete (bit_and scope 7) created.1 m.containers in
    rw (typed_reference, bits.1, container, found.1, found.3, found.4) refl
