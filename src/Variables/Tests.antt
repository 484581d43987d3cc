-- ===== src/Variables/Tests.antt =====
-- Runs of the references to frames and variables, and their theorems at concrete inputs.
use mcu_debug.Handles.{add_object, get_object, new_registry}
use mcu_debug.Prelude.{
  zero, ℕ, ◌%◌, ◌^◌, bit_and, pos, none, some, [], ◌∷◌, ◌≡◌, refl, arith, ℕ_discrete, suc,
  ℤ_discrete,
}
use mcu_debug.Maps.{get, put}
use mcu_debug.Handles.Laws.{new_registry-IsValid}
use mcu_debug.VarRef.{to_uint32, encode_scope_reference, encode_reference, to_int32, shift_left}
use mcu_debug.Variables.{
  VariableManager, VariableKeys_discrete, keys_of, object_truthy, number_key, number_truthy,
  new_manager, new_container, add_frame_info, get_frame_info, get_var_or_frame_info,
  get_variable_info, create_variable, get_container, get_variable_by_ref,
}
use mcu_debug.Variables.Frames.{
  HasFrames, add_frame_info-HasFrames, add_frame_info-get_frame_info,
  add_frame_info-get_var_or_frame_info, add_frame_info-lost,
}
use mcu_debug.Variables.Containers.{create_variable-get_var_or_frame_info}

-- The frames `n - 1`, ..., 0 of thread 1 are added.
abbrev stack : ℕ → VariableManager
stack zero = new_manager
stack (suc n) = (add_frame_info 1 n 2 (stack n)).1

new_manager-HasFrames : HasFrames new_manager
unfolding new_manager
new_manager-HasFrames = new_registry-IsValid _ number_key number_truthy

stack-HasFrames : (n : ℕ) → HasFrames (stack n)
stack-HasFrames zero = new_manager-HasFrames
stack-HasFrames (suc n) = add_frame_info-HasFrames 1 n 2 (stack n) (stack-HasFrames n)

-- The eighth frame of a stack gets the reference 8, which has a fourth bit of one.
eighth_reference : (add_frame_info 1 7 2 (stack 7)).0 ≡ pos 8
unfolding add_frame_info new_manager add_object new_registry get put encode_scope_reference
    encode_reference to_int32 shift_left native.Mathlib.Decide.ℕ_discrete ℤ_discrete
eighth_reference = refl

add_frame_info-get_frame_info_example :
    let added = add_frame_info 1 2 2 (stack 2) in
    get_frame_info added.0 added.1 ≡ some (1 % 16, 2 % 2 ^ 24, 2 % 8)
add_frame_info-get_frame_info_example =
    add_frame_info-get_frame_info 1 2 2 (stack 2) (stack-HasFrames 2)

add_frame_info-get_var_or_frame_info_example :
    let added = add_frame_info 1 2 2 (stack 2) in
    get_var_or_frame_info added.0 added.1 ≡ some (1 % 16, 2 % 2 ^ 24, 2 % 8)
unfolding add_frame_info new_manager add_object new_registry get put encode_scope_reference
    encode_reference to_uint32 to_int32 shift_left native.Mathlib.Decide.ℕ_discrete ℤ_discrete
add_frame_info-get_var_or_frame_info_example =
    add_frame_info-get_var_or_frame_info 1 2 2 (stack 2) (stack-HasFrames 2) refl

add_frame_info-lost_example :
    let added = add_frame_info 1 7 2 (stack 7) in
    (get_var_or_frame_info added.0 added.1 ≡ none)
    × (get_frame_info added.0 added.1 ≡ some (1 % 16, 7 % 2 ^ 24, 2 % 8))
unfolding get_variable_info get_container get_variable_by_ref get_object add_frame_info new_manager
    add_object new_registry get put encode_scope_reference encode_reference to_uint32 to_int32
    shift_left native.Mathlib.Decide.ℕ_discrete ℤ_discrete
add_frame_info-lost_example =
    add_frame_info-lost 1 7 2 (stack 7) (stack-HasFrames 7) (λ e. omega (arith, e)) refl

create_variable-get_var_or_frame_info_example :
    let created = create_variable 10 (pos 0) (120 ∷ []) [] [] 1 3 new_container in
    let after : VariableManager = record (stack 2) {
      containers = put ℕ_discrete (bit_and 10 7) created.1 (stack 2).containers;
    } in
    get_var_or_frame_info created.0.1 after ≡ some (1 % 16, 3 % 2 ^ 24, 10 % 16)
unfolding new_registry
create_variable-get_var_or_frame_info_example =
    create_variable-get_var_or_frame_info 10 (pos 0) (120 ∷ []) [] [] 1 3 new_container (stack 2)
      (new_registry-IsValid VariableKeys_discrete keys_of object_truthy) (omega arith)
      (λ e. omega (arith, e))
