-- ===== src/Handles.antt =====
-- `ValueHandleRegistry` and `ValueHandleRegistryPrimitive` of packages/shared/src/handles.ts: each
-- value gets a number, the same for equal values. The key of a value, `toValueKey` or its sorted
-- JSON text, is a parameter; a primitive value is its own key. The truth value of `!obj` too.
pub mod Laws
pub mod Add
pub mod Release
pub mod Reach
mod Tests
use mcu_debug.Prelude.{
  ℕ, ◌+◌, Bool, true, false, Option, none, some, List, [], ◌≡◌, ℕ_discrete, if◌then◌else◌,
}
use mcu_debug.Maps.{Map, get, put, delete}

pub record Registry (T K : Type 0) : Type 0 where
  pub key_to_handle : Map K ℕ
  pub handle_to_obj : Map ℕ T
  pub counter : ℕ

module _ {T K : Type 0} (dec : Discrete K) (key : T → K) (truthy : T → Bool) where
  unfoldable pub new_registry : Registry T K
  new_registry = record { key_to_handle = []; handle_to_obj = []; counter = 0 }

  unfoldable pub add_object : T → Registry T K → ℕ × Registry T K
  add_object obj r = elim (get dec (key obj) r.key_to_handle) [
    | some handle ↦ (handle, r)
    | none ↦
        let handle = r.counter + 1 in
        (
          handle,
          record r {
            key_to_handle = put dec (key obj) handle r.key_to_handle;
            handle_to_obj = put ℕ_discrete handle obj r.handle_to_obj;
            counter = handle;
          },
        )
  ]

  unfoldable pub get_handle : T → Registry T K → Option ℕ
  get_handle obj r = get dec (key obj) r.key_to_handle

  unfoldable pub get_object : ℕ → Registry T K → Option T
  get_object handle r = get ℕ_discrete handle r.handle_to_obj

  unfoldable pub get_object_by_key : T → Registry T K → Option T
  get_object_by_key obj r = elim (get dec (key obj) r.key_to_handle) [
    | some handle ↦ get ℕ_discrete handle r.handle_to_obj
    | none ↦ none
  ]

  unfoldable pub release : ℕ → Registry T K → Bool × Registry T K
  release handle r = elim (get ℕ_discrete handle r.handle_to_obj) [
    | none ↦ (false, r)
    | some obj ↦
        let removed : Registry T K = record r {
          key_to_handle = delete dec (key obj) r.key_to_handle;
          handle_to_obj = delete ℕ_discrete handle r.handle_to_obj;
        } in
        if truthy obj then (true, removed) else (false, r)
  ]

  unfoldable pub clear_registry : Registry T K → Registry T K
  clear_registry r = record { key_to_handle = []; handle_to_obj = []; counter = 0 }
