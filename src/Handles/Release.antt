-- ===== src/Handles/Release.antt =====
-- What releasing a handle does: the value goes out of both maps, and nothing else changes.
use mcu_debug.Prelude.{
  ℕ, Bool, true, false, none, some, ◌≡◌, ◌≢◌, refl, sym, ap, ◌∙◌, subst, ℕ_discrete, some-injective,
  none-ne-some,
}
use mcu_debug.Maps.{get, delete, get-delete_self, get-delete_ne}
use mcu_debug.Handles.{Registry, get_handle, get_object, release}
use mcu_debug.Handles.Laws.{Holds, IsValid, hit, miss, found}

module _ {T K : Type 0} (dec : Discrete K) (key : T → K) (truthy : T → Bool) where
  abbrev removed : ℕ → T → Registry T K → Registry T K
  removed handle obj r = record r {
    key_to_handle = delete dec (key obj) r.key_to_handle;
    handle_to_obj = delete ℕ_discrete handle r.handle_to_obj;
  }

  release-missing :
      (handle : ℕ) (r : Registry T K)
      → get ℕ_discrete handle r.handle_to_obj ≡ none
      → release dec key truthy handle r ≡ (false, r)
  unfolding release
  release-missing handle r e = rw (release, e)

  release-falsy :
      (handle : ℕ) (obj : T) (r : Registry T K)
      → get ℕ_discrete handle r.handle_to_obj ≡ some obj
      → truthy obj ≡ false
      → release dec key truthy handle r ≡ (false, r)
  unfolding release
  release-falsy handle obj r e t = rw (release, e) (rw t)

  release-truthy :
      (handle : ℕ) (obj : T) (r : Registry T K)
      → get ℕ_discrete handle r.handle_to_obj ≡ some obj
      → truthy obj ≡ true
      → release dec key truthy handle r ≡ (true, removed handle obj r)
  unfolding release
  release-truthy handle obj r e t = rw (release, e) (rw t)

  removed-Holds :
      (handle other_handle : ℕ) (obj other : T) (r : Registry T K)
      → handle ≢ other_handle
      → Holds dec key truthy r handle obj
      → Holds dec key truthy r other_handle other
      → Holds dec key truthy (removed handle obj r) other_handle other
  removed-Holds handle other_handle obj other r ne gone old =
      let other_key : key obj ≢ key other = λ e. ne (
        some-injective handle other_handle
          (sym gone.known ∙ ap (λ k. get dec k r.key_to_handle) e ∙ old.known)) in
      record {
        stored = get-delete_ne ℕ_discrete other_handle handle r.handle_to_obj ne ∙ old.stored;
        known = get-delete_ne dec (key other) (key obj) r.key_to_handle other_key ∙ old.known;
        below = old.below;
      }

  removed-IsValid :
      (handle : ℕ) (obj : T) {r : Registry T K}
      → IsValid dec key truthy r
      → Holds dec key truthy r handle obj
      → IsValid dec key truthy (removed handle obj r)
  removed-IsValid handle obj {r} valid gone = record {
    by_key = λ k given e. elim (dec (key obj) k) [
      | yes q ↦ absurd (
          none-ne-some given (
            sym (get-delete_self dec (key obj) r.key_to_handle)
            ∙ ap (λ j. get dec j (removed handle obj r).key_to_handle) q
            ∙ e))
      | no ne ↦
          let old =
            valid.by_key k given (sym (get-delete_ne dec k (key obj) r.key_to_handle ne) ∙ e) in
          let other_handle : handle ≢ given = λ q. ne (
            ap key (
              some-injective obj old.0
                (sym gone.stored ∙ ap (λ n. get ℕ_discrete n r.handle_to_obj) q ∙ old.2.stored))
            ∙ old.1) in
          (old.0, old.1, removed-Holds handle given obj old.0 r other_handle gone old.2)
    ];
    by_handle = λ given other e. elim (ℕ_discrete handle given) [
      | yes q ↦ absurd (
          none-ne-some other (
            sym (get-delete_self ℕ_discrete handle r.handle_to_obj)
            ∙ ap (λ n. get ℕ_discrete n (removed handle obj r).handle_to_obj) q
            ∙ e))
      | no ne ↦ removed-Holds handle given obj other r ne gone (
          valid.by_handle given other
            (sym (get-delete_ne ℕ_discrete given handle r.handle_to_obj ne) ∙ e))
    ];
  }

  -- Whatever handle is released, a valid registry stays valid.
  pub release-IsValid :
      (handle : ℕ) {r : Registry T K}
      → IsValid dec key truthy r
      → IsValid dec key truthy (release dec key truthy handle r).1
  release-IsValid handle {r} valid = elim (found (get ℕ_discrete handle r.handle_to_obj)) [
    | miss e ↦ subst (λ t. IsValid dec key truthy t.1) (sym (release-missing handle r e)) valid
    | hit obj e ↦ by_truth obj e (truthy obj) refl
  ]
    where
      by_truth :
          (obj : T)
          → get ℕ_discrete handle r.handle_to_obj ≡ some obj
          → (t : Bool) → truthy obj ≡ t
          → IsValid dec key truthy (release dec key truthy handle r).1
      by_truth obj e true t =
          subst (λ t. IsValid dec key truthy t.1) (sym (release-truthy handle obj r e t))
            (removed-IsValid handle obj valid (valid.by_handle handle obj e))
      by_truth obj e false t =
          subst (λ t. IsValid dec key truthy t.1) (sym (release-falsy handle obj r e t)) valid

  -- In a valid registry `release` of a handle that shows a truthy value answers true; afterwards
  -- neither the handle nor the value is known, and every other handle shows what it showed.
  pub release-get_object :
      (handle : ℕ) (obj : T) {r : Registry T K}
      → IsValid dec key truthy r
      → get_object dec key truthy handle r ≡ some obj
      → truthy obj ≡ true
      → let t = release dec key truthy handle r in
        (t.0 ≡ true)
        × (get_object dec key truthy handle t.1 ≡ none)
        × (get_handle dec key truthy obj t.1 ≡ none)
        × ((other : ℕ)
            → handle ≢ other
            → get_object dec key truthy other t.1 ≡ get_object dec key truthy other r)
  unfolding get_object get_handle
  release-get_object handle obj {r} valid e t = rw (release-truthy handle obj r e t) (
    refl,
    get-delete_self ℕ_discrete handle r.handle_to_obj,
    get-delete_self dec (key obj) r.key_to_handle,
    λ other ne. get-delete_ne ℕ_discrete other handle r.handle_to_obj ne,
  )
