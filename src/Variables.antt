-- ===== src/Variables.antt =====
-- `VariableKeys`, `VariableObject`, the handles of `VariableContainer` and the references of
-- `VariableManager` in packages/mcu-debug/src/adapter/variables.ts. An error that is thrown is
-- `none`. The key of a variable is the text of its three fields, here the fields themselves; names,
-- values and types are lists of code points. A variable keeps the fields that its constructor is
-- given; its handle is what `create_variable` gives beside it.
pub mod Frames
pub mod Containers
mod Tests
use mcu_debug.Prelude.{
  ◌>>=◌, ℕ, ◌+◌, ◌/◌, ◌%◌, ◌^◌, bit_and, bit_or, Bool, true, not, ◌==◌, ℤ, pos, negsuc, ℤ_discrete,
  Option, none, some, List, [], ℕ_discrete, ◌≡◌, if◌then◌else◌,
}
use mcu_debug.Maps.{Map, get, put}
use mcu_debug.Handles.{Registry, new_registry, add_object, get_object, release, clear_registry}
use mcu_debug.VarRef.Scope
use mcu_debug.VarRef.{
  variable_type_mask, actual_scope_mask, scope_mask, scope_bits, to_int32, to_uint32, shift_left,
  decode_reference, encode_scope_reference,
}

pub record VariableKeys : Type 0 where
  pub parent : ℤ
  pub name : List ℕ
  pub frame_ref : ℤ

pub VariableKeys_discrete : Discrete VariableKeys
VariableKeys_discrete = hlevel (ℕ_discrete, ℤ_discrete)

pub record VariableObject : Type 0 where
  pub keys : VariableKeys
  pub scope : ℕ
  pub value : List ℕ
  pub type : List ℕ

unfoldable pub new_keys : ℤ → List ℕ → ℤ → VariableKeys
new_keys parent name frame_ref = record {
  parent = parent;
  name = name;
  frame_ref = to_int32 (bit_or (to_uint32 frame_ref) variable_type_mask);
}

unfoldable pub new_variable : ℕ → ℤ → List ℕ → ℤ → List ℕ → List ℕ → VariableObject
new_variable scope parent name frame_ref value type = record {
  keys = new_keys parent name frame_ref;
  scope = bit_or scope variable_type_mask;
  value = value;
  type = type;
}

unfoldable pub get_thread_frame_info : VariableObject → ℕ × ℕ × ℕ
get_thread_frame_info variable = decode_reference variable.keys.frame_ref

abbrev pub Container : Type 0
Container = Registry VariableObject VariableKeys

-- An object counts as true.
abbrev pub object_truthy : VariableObject → Bool
object_truthy variable = true

abbrev pub keys_of : VariableObject → VariableKeys
keys_of variable = variable.keys

unfoldable pub create_variable :
    ℕ → ℤ → List ℕ → List ℕ → List ℕ → ℕ → ℕ → Container → (VariableObject × ℤ) × Container
create_variable scope parent name value type thread_id frame_id container =
    let var_ref = encode_scope_reference thread_id frame_id (bit_and scope actual_scope_mask) in
    let variable = new_variable scope parent name var_ref value type in
    let added = add_object VariableKeys_discrete keys_of object_truthy variable container in
    (
      (variable, to_int32 (bit_or (shift_left added.0 scope_bits) (bit_and scope scope_mask))),
      added.1,
    )

unfoldable pub get_variable_by_ref : ℤ → Container → Option VariableObject
get_variable_by_ref handle container =
    get_object VariableKeys_discrete keys_of object_truthy (to_uint32 handle / 2 ^ scope_bits)
      container

unfoldable pub release_variable : ℤ → Container → Bool × Container
release_variable handle container =
    release VariableKeys_discrete keys_of object_truthy (to_uint32 handle / 2 ^ scope_bits)
      container

unfoldable pub get_scope_from_handle : ℤ → ℕ
get_scope_from_handle handle = bit_and (to_uint32 handle) scope_mask

pub record VariableManager : Type 0 where
  pub frame_handles : Registry ℤ ℤ
  pub containers : Map ℕ Container

-- A primitive value is its own key, and a number counts as false if it is zero.
abbrev pub number_key : ℤ → ℤ
number_key n = n

abbrev pub number_truthy : ℤ → Bool
number_truthy (pos n) = not (n == 0)
number_truthy (negsuc n) = true

unfoldable pub get_container : ℕ → VariableManager → Option Container
get_container scope m = get ℕ_discrete (bit_and scope actual_scope_mask) m.containers

-- No handle is negative.
unfoldable pub frame_handle : ℤ → VariableManager → Option ℤ
frame_handle (pos handle) m = get_object ℤ_discrete number_key number_truthy handle m.frame_handles
frame_handle (negsuc n) m = none

unfoldable pub get_frame_info : ℤ → VariableManager → Option (ℕ × ℕ × ℕ)
get_frame_info handle m = do encoded ← frame_handle handle m; some (decode_reference encoded)

unfoldable pub add_frame_info : ℕ → ℕ → ℕ → VariableManager → ℤ × VariableManager
add_frame_info thread_id frame_id scope m =
    let h = encode_scope_reference thread_id frame_id scope in
    let added = add_object ℤ_discrete number_key number_truthy h m.frame_handles in
    (pos added.0, record m { frame_handles = added.1 })

unfoldable pub get_variable_info : ℤ → VariableManager → Option (ℕ × ℕ × ℕ)
get_variable_info handle m =
    let scope = bit_and (to_uint32 handle) scope_mask in
    do
      container ← get_container scope m
      variable ← get_variable_by_ref handle container
      some ((get_thread_frame_info variable).0, (get_thread_frame_info variable).1, scope)

unfoldable pub get_var_or_frame_info : ℤ → VariableManager → Option (ℕ × ℕ × ℕ)
get_var_or_frame_info handle m =
    if bit_and (to_uint32 handle) variable_type_mask == 0
    then get_frame_info handle m
    else get_variable_info handle m

abbrev new_container : Container
new_container = new_registry VariableKeys_discrete keys_of object_truthy

-- The constructor, with its five containers.
unfoldable pub new_manager : VariableManager
new_manager = record {
  frame_handles = new_registry ℤ_discrete number_key number_truthy;
  containers = put ℕ_discrete Scope.registers new_container (
      put ℕ_discrete Scope.watch new_container (
        put ℕ_discrete Scope.local new_container (
          put ℕ_discrete Scope.static new_container
            (put ℕ_discrete Scope.global new_container []))));
}
