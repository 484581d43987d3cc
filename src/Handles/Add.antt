-- ===== src/Handles/Add.antt =====
-- What adding a value gives: a handle that shows a value of the same key, the same handle for the
-- same key only, and no change to the handles that were given before.
use mcu_debug.Prelude.{
  ℕ, Bool, some, ◌≡◌, ◌↔◌, refl, sym, ap, ◌∙◌, subst, ℕ_discrete, some-injective, ◌≤◌, ◌+◌, arith,
}
use mcu_debug.Maps.{get}
use mcu_debug.Handles.{Registry, add_object, get_object}
use mcu_debug.Handles.Laws.{
  Holds, IsValid, hit, miss, found, add_object-known, add_object-new, added-Holds, added-Holds_new,
  add_object-IsValid,
}

module _ {T K : Type 0} (dec : Discrete K) (key : T → K) (truthy : T → Bool) where
  pub add_object-Holds :
      (obj : T) {r : Registry T K}
      → IsValid dec key truthy r
      → let t = add_object dec key truthy obj r in
        (kept : T) × (key kept ≡ key obj) × Holds dec key truthy t.1 t.0 kept
  add_object-Holds obj {r} valid = elim (found (get dec (key obj) r.key_to_handle)) [
    | hit handle e ↦
        subst (λ t. (kept : T) × (key kept ≡ key obj) × Holds dec key truthy t.1 t.0 kept)
          (sym (add_object-known dec key truthy obj r handle e)) (valid.by_key (key obj) handle e)
    | miss e ↦
        subst (λ t. (kept : T) × (key kept ≡ key obj) × Holds dec key truthy t.1 t.0 kept)
          (sym (add_object-new dec key truthy obj r e))
          (obj, refl, added-Holds_new dec key truthy obj r)
  ]

  pub add_object-Holds_old :
      (obj other : T) (r : Registry T K) (handle : ℕ)
      → Holds dec key truthy r handle other
      → Holds dec key truthy (add_object dec key truthy obj r).1 handle other
  add_object-Holds_old obj other r handle old = elim (found (get dec (key obj) r.key_to_handle)) [
    | hit given e ↦
        subst (λ t. Holds dec key truthy t.1 handle other)
          (sym (add_object-known dec key truthy obj r given e)) old
    | miss e ↦
        subst (λ t. Holds dec key truthy t.1 handle other)
          (sym (add_object-new dec key truthy obj r e))
          (added-Holds dec key truthy obj other r handle e old)
  ]

  -- Two handles that a registry holds are equal exactly if the keys of their values are.
  handles_iff :
      {r : Registry T K} {a b : T} {g h : ℕ}
      → Holds dec key truthy r g a
      → Holds dec key truthy r h b
      → (g ≡ h) ↔ (key a ≡ key b)
  handles_iff {r} {a} {b} {g} {h} left right = (
    λ e. ap key (
        some-injective a b
          (sym left.stored ∙ ap (λ n. get ℕ_discrete n r.handle_to_obj) e ∙ right.stored)),
    λ e. some-injective g h (sym left.known ∙ ap (λ k. get dec k r.key_to_handle) e ∙ right.known),
  )

  -- In a valid registry the handle that `addObject` gives shows a value with the key of the one that
  -- was added.
  pub add_object-get_object :
      (obj : T) {r : Registry T K}
      → IsValid dec key truthy r
      → let t = add_object dec key truthy obj r in
        (kept : T) × (get_object dec key truthy t.0 t.1 ≡ some kept) × (key kept ≡ key obj)
  unfolding get_object
  add_object-get_object obj valid =
      let given = add_object-Holds obj valid in (given.0, given.2.stored, given.1)

  -- In a valid registry two values that are added one after the other get the same handle exactly if
  -- their keys are equal.
  pub add_object-add_object :
      (a b : T) {r : Registry T K}
      → IsValid dec key truthy r
      → let t = add_object dec key truthy a r in
        ((add_object dec key truthy b t.1).0 ≡ t.0) ↔ (key b ≡ key a)
  add_object-add_object a b {r} valid =
      let first = add_object-Holds a valid in
      let t = add_object dec key truthy a r in
      let second = add_object-Holds b (add_object-IsValid dec key truthy a valid) in
      let both = handles_iff second.2 (add_object-Holds_old b first.0 t.1 t.0 first.2) in
      (λ e. sym second.1 ∙ both.0 e ∙ first.1, λ e. both.1 (second.1 ∙ e ∙ sym first.1))

  -- In a valid registry a handle that shows a value shows the same one after `addObject` of any value.
  pub get_object-add_object :
      (obj other : T) (handle : ℕ) {r : Registry T K}
      → IsValid dec key truthy r
      → get_object dec key truthy handle r ≡ some other
      → get_object dec key truthy handle (add_object dec key truthy obj r).1 ≡ some other
  unfolding get_object
  get_object-add_object obj other handle {r} valid e =
      (add_object-Holds_old obj other r handle (valid.by_handle handle other e)).stored

  pub add_object-counter :
      (obj : T) {r : Registry T K}
      → IsValid dec key truthy r
      → (add_object dec key truthy obj r).0 ≤ r.counter + 1
  add_object-counter obj {r} valid = elim (found (get dec (key obj) r.key_to_handle)) [
    | hit handle e ↦
        let old = valid.by_key (key obj) handle e in
        rw (add_object-known dec key truthy obj r handle e) (omega (arith, old.2.below))
    | miss e ↦ rw (add_object-new dec key truthy obj r e) (omega arith)
  ]
