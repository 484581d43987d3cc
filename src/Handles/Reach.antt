-- ===== src/Handles/Reach.antt =====
-- The registries that a program can come to, as a relation, and what holds in all of them.
use mcu_debug.Prelude.{ℕ, Bool}
use mcu_debug.Handles.{Registry, new_registry, add_object, release, clear_registry}
use mcu_debug.Handles.Laws.{IsValid, new_registry-IsValid, add_object-IsValid}
use mcu_debug.Handles.Release.{release-IsValid}

module _ {T K : Type 0} (dec : Discrete K) (key : T → K) (truthy : T → Bool) where
  pub data Reachable : Registry T K → Type 0 where
    created : Reachable (new_registry dec key truthy)
    adding :
        (obj : T) {r : Registry T K} → Reachable r → Reachable (add_object dec key truthy obj r).1
    releasing :
        (handle : ℕ) {r : Registry T K}
        → Reachable r
        → Reachable (release dec key truthy handle r).1
    clearing : {r : Registry T K} → Reachable r → Reachable (clear_registry dec key truthy r)

  -- After any number of `addObject`, `release` and `clear` calls on a new registry, its two maps are
  -- inverse to each other and no handle exceeds the counter.
  pub Reachable-IsValid : {r : Registry T K} → Reachable r → IsValid dec key truthy r
  unfolding clear_registry new_registry
  Reachable-IsValid created = new_registry-IsValid dec key truthy
  Reachable-IsValid (adding obj before) =
      add_object-IsValid dec key truthy obj (Reachable-IsValid before)
  Reachable-IsValid (releasing handle before) =
      release-IsValid dec key truthy handle (Reachable-IsValid before)
  Reachable-IsValid (clearing before) = new_registry-IsValid dec key truthy
