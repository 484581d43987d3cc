-- ===== src/Handles/Laws.antt =====
-- What holds of every registry of handles: its two maps are inverse to each other, and adding,
-- asking and releasing fit together.
use mcu_debug.Prelude.{
  ℕ, ◌+◌, ◌≤◌, Bool, Option, none, some, ◌≡◌, ◌≢◌, refl, sym, ap, ◌∙◌, ℕ_discrete, arith,
  some-injective, none-ne-some, subst,
}
use mcu_debug.Maps.{get, put, get-put_self, get-put_ne}
use mcu_debug.Handles.{Registry, new_registry, add_object}

-- The result of a look-up, decided.
pub data Found {ℓ} {A : Type ℓ} (o : Option A) : Type ℓ where
  hit : (a : A) → o ≡ some a → Found o
  miss : o ≡ none → Found o

pub found {ℓ} : {A : Type ℓ} → (o : Option A) → Found o
found none = miss refl
found (some a) = hit a refl

module _ {T K : Type 0} (dec : Discrete K) (key : T → K) (truthy : T → Bool) where
  -- `obj` has the handle `handle` in both maps.
  pub record Holds (r : Registry T K) (handle : ℕ) (obj : T) : Type 0 where
    pub stored : get ℕ_discrete handle r.handle_to_obj ≡ some obj
    pub known : get dec (key obj) r.key_to_handle ≡ some handle
    pub below : handle ≤ r.counter

  pub record IsValid (r : Registry T K) : Type 0 where
    pub by_key :
        (k : K) (handle : ℕ)
        → get dec k r.key_to_handle ≡ some handle
        → (obj : T) × (key obj ≡ k) × Holds r handle obj
    pub by_handle :
        (handle : ℕ) (obj : T)
        → get ℕ_discrete handle r.handle_to_obj ≡ some obj
        → Holds r handle obj

  -- The registry that a value with a new key leads to.
  abbrev pub added : T → Registry T K → Registry T K
  added obj r = record r {
    key_to_handle = put dec (key obj) (r.counter + 1) r.key_to_handle;
    handle_to_obj = put ℕ_discrete (r.counter + 1) obj r.handle_to_obj;
    counter = r.counter + 1;
  }

  pub add_object-known :
      (obj : T) (r : Registry T K) (handle : ℕ)
      → get dec (key obj) r.key_to_handle ≡ some handle
      → add_object dec key truthy obj r ≡ (handle, r)
  unfolding add_object
  add_object-known obj r handle e = rw (add_object, e)

  pub add_object-new :
      (obj : T) (r : Registry T K)
      → get dec (key obj) r.key_to_handle ≡ none
      → add_object dec key truthy obj r ≡ (r.counter + 1, added obj r)
  unfolding add_object
  add_object-new obj r e = rw (add_object, e)

  pub added-Holds_new : (obj : T) (r : Registry T K) → Holds (added obj r) (r.counter + 1) obj
  added-Holds_new obj r = record {
    stored = get-put_self ℕ_discrete (r.counter + 1) obj r.handle_to_obj;
    known = get-put_self dec (key obj) (r.counter + 1) r.key_to_handle;
    below = omega arith;
  }

  pub added-Holds :
      (obj other : T) (r : Registry T K) (handle : ℕ)
      → get dec (key obj) r.key_to_handle ≡ none
      → Holds r handle other
      → Holds (added obj r) handle other
  added-Holds obj other r handle fresh old =
      let other_key : key obj ≢ key other =
        λ e. none-ne-some handle (sym fresh ∙ ap (λ k. get dec k r.key_to_handle) e ∙ old.known) in
      let other_handle : r.counter + 1 ≢ handle = λ e. omega (arith, old.below) in
      record {
        stored =
            get-put_ne ℕ_discrete handle (r.counter + 1) obj r.handle_to_obj other_handle
            ∙ old.stored;
        known =
            get-put_ne dec (key other) (key obj) (r.counter + 1) r.key_to_handle other_key
            ∙ old.known;
        below = omega (arith, old.below);
      }

  added-IsValid :
      (obj : T) {r : Registry T K}
      → get dec (key obj) r.key_to_handle ≡ none
      → IsValid r
      → IsValid (added obj r)
  added-IsValid obj {r} fresh valid = record {
    by_key = λ k handle e. elim (dec (key obj) k) [
      | yes q ↦
          let same : r.counter + 1 ≡ handle = some-injective (r.counter + 1) handle (
            sym (get-put_self dec (key obj) (r.counter + 1) r.key_to_handle)
            ∙ ap (λ j. get dec j (added obj r).key_to_handle) q
            ∙ e) in
          (obj, q, subst (λ h. Holds (added obj r) h obj) same (added-Holds_new obj r))
      | no ne ↦
          let old =
            valid.by_key k handle
              (sym (get-put_ne dec k (key obj) (r.counter + 1) r.key_to_handle ne) ∙ e) in
          (old.0, old.1, added-Holds obj old.0 r handle fresh old.2)
    ];
    by_handle = λ handle other e. elim (ℕ_discrete (r.counter + 1) handle) [
      | yes q ↦
          let same : obj ≡ other = some-injective obj other (
            sym (get-put_self ℕ_discrete (r.counter + 1) obj r.handle_to_obj)
            ∙ ap (λ j. get ℕ_discrete j (added obj r).handle_to_obj) q
            ∙ e) in
          subst (λ h. Holds (added obj r) h other) q
            (subst (Holds (added obj r) (r.counter + 1)) same (added-Holds_new obj r))
      | no ne ↦ added-Holds obj other r handle fresh (
          valid.by_handle handle other
            (sym (get-put_ne ℕ_discrete handle (r.counter + 1) obj r.handle_to_obj ne) ∙ e))
    ];
  }

  -- A new registry is valid.
  pub new_registry-IsValid : IsValid (new_registry dec key truthy)
  unfolding new_registry get
  new_registry-IsValid = record {
    by_key = λ k handle e. absurd (none-ne-some handle e);
    by_handle = λ handle obj e. absurd (none-ne-some obj e);
  }

  -- Adding a value keeps a registry valid.
  pub add_object-IsValid :
      (obj : T) {r : Registry T K} → IsValid r → IsValid (add_object dec key truthy obj r).1
  add_object-IsValid obj {r} valid = elim (found (get dec (key obj) r.key_to_handle)) [
    | hit handle e ↦ subst (λ t. IsValid t.1) (sym (add_object-known obj r handle e)) valid
    | miss e ↦ subst (λ t. IsValid t.1) (sym (add_object-new obj r e)) (added-IsValid obj e valid)
  ]
