-- ===== src/Handles/Tests.antt =====
-- Runs of the registry of handles, and its theorems at concrete inputs. A value is a number with a
-- note, the number is its key, and 0 counts as false.
use mcu_debug.Maps.{get, put}
use mcu_debug.Prelude.{ℕ, Bool, true, false, not, ◌==◌, none, some, ◌≡◌, ◌≢◌, ◌↔◌, refl, ℕ_discrete}
use mcu_debug.Handles.{Registry, new_registry, add_object, get_handle, get_object, release}
use mcu_debug.Handles.Laws.{IsValid}
use mcu_debug.Handles.Add.{add_object-get_object, add_object-add_object, get_object-add_object}
use mcu_debug.Handles.Release.{release-get_object}
use mcu_debug.Handles.Reach.{created, adding, releasing, Reachable-IsValid}

abbrev noted : ℕ × ℕ → ℕ
noted value = value.0

abbrev nonzero : ℕ × ℕ → Bool
nonzero value = not (value.0 == 0)

-- 5 has the handle 1, and 0 the handle 2.
abbrev two_values : Registry (ℕ × ℕ) ℕ
two_values =
    (add_object ℕ_discrete noted nonzero (0, 8)
      (add_object ℕ_discrete noted nonzero (5, 7) (new_registry ℕ_discrete noted nonzero)).1).1

two_values-IsValid : IsValid ℕ_discrete noted nonzero two_values
two_values-IsValid =
    Reachable-IsValid ℕ_discrete noted nonzero (adding (0, 8) (adding (5, 7) created))

keeps_first :
    get_object ℕ_discrete noted nonzero 1 (add_object ℕ_discrete noted nonzero (5, 9) two_values).1
    ≡ some (5, 7)
unfolding get_object add_object new_registry get put native.Mathlib.Decide.ℕ_discrete
keeps_first = refl

-- A value that counts as false stays.
keeps_zero : (release ℕ_discrete noted nonzero 2 two_values).0 ≡ false
unfolding release add_object new_registry get put native.Mathlib.Decide.ℕ_discrete
keeps_zero = refl

Reachable-IsValid_example :
    IsValid ℕ_discrete noted nonzero (release ℕ_discrete noted nonzero 1 two_values).1
Reachable-IsValid_example =
    Reachable-IsValid ℕ_discrete noted nonzero (releasing 1 (adding (0, 8) (adding (5, 7) created)))

add_object-get_object_example :
    let t = add_object ℕ_discrete noted nonzero (6, 1) two_values in
    (kept : ℕ × ℕ) × (get_object ℕ_discrete noted nonzero t.0 t.1 ≡ some kept) × (noted kept ≡ 6)
add_object-get_object_example =
    add_object-get_object ℕ_discrete noted nonzero (6, 1) two_values-IsValid

add_object-add_object_example :
    let t = add_object ℕ_discrete noted nonzero (6, 1) two_values in
    ((add_object ℕ_discrete noted nonzero (6, 2) t.1).0 ≡ t.0) ↔ (noted (6, 2) ≡ noted (6, 1))
add_object-add_object_example =
    add_object-add_object ℕ_discrete noted nonzero (6, 1) (6, 2) two_values-IsValid

get_object-add_object_example :
    get_object ℕ_discrete noted nonzero 1 (add_object ℕ_discrete noted nonzero (6, 1) two_values).1
    ≡ some (5, 7)
unfolding get_object add_object new_registry get put native.Mathlib.Decide.ℕ_discrete
get_object-add_object_example =
    get_object-add_object ℕ_discrete noted nonzero (6, 1) (5, 7) 1 two_values-IsValid refl

release-get_object_example :
    let t = release ℕ_discrete noted nonzero 1 two_values in
    (t.0 ≡ true)
    × (get_object ℕ_discrete noted nonzero 1 t.1 ≡ none)
    × (get_handle ℕ_discrete noted nonzero (5, 7) t.1 ≡ none)
    × ((other : ℕ)
        → 1 ≢ other
        → get_object ℕ_discrete noted nonzero other t.1
          ≡ get_object ℕ_discrete noted nonzero other two_values)
unfolding get_object add_object new_registry get put native.Mathlib.Decide.ℕ_discrete
release-get_object_example =
    release-get_object ℕ_discrete noted nonzero 1 (5, 7) two_values-IsValid refl refl
