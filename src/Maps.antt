-- ===== src/Maps.antt =====
-- The `Map` of JavaScript as a list of entries; a key stands in it at most once for a reader, since
-- `get` takes the first entry and `delete` drops them all.
use mcu_debug.Prelude.{
  ◌≡◌, ◌≢◌, refl, Option, none, some, List, [], ◌∷◌, ite, if_pos, if_neg, sym, ◌∙◌, ap,
}

abbrev pub Map {ℓ κ} : Type ℓ → Type κ → Type (ℓ ⊔ κ)
Map K V = List (K × V)

module _ {ℓ κ} {K : Type ℓ} {V : Type κ} (dec : Discrete K) where
  unfoldable pub get : K → Map K V → Option V
  get k [] = none
  get k ((j, v) ∷ m) = ite (dec j k) (some v) (get k m)

  unfoldable pub put : K → V → Map K V → Map K V
  put k v m = (k, v) ∷ m

  unfoldable pub delete : K → Map K V → Map K V
  delete k [] = []
  delete k ((j, v) ∷ m) = let rest = delete k m in ite (dec j k) rest ((j, v) ∷ rest)

  pub get-put :
      (j k : K) (v : V) (m : Map K V) → get j (put k v m) ≡ ite (dec k j) (some v) (get j m)
  unfolding get put
  get-put j k v m = refl

  pub get-put_self : (k : K) (v : V) (m : Map K V) → get k (put k v m) ≡ some v
  unfolding get put
  get-put_self k v m = if_pos (dec k k) refl (some v) (get k m)

  pub get-put_ne : (j k : K) (v : V) (m : Map K V) → k ≢ j → get j (put k v m) ≡ get j m
  unfolding get put
  get-put_ne j k v m ne = if_neg (dec k j) ne (some v) (get j m)

  pub get-delete_self : (k : K) (m : Map K V) → get k (delete k m) ≡ none
  unfolding get delete
  get-delete_self k [] = refl
  get-delete_self k ((j, v) ∷ m) = elim (dec j k) [
    | yes e ↦ rw (if_pos (dec j k) e) (get-delete_self k m)
    | no ne ↦ rw (if_neg (dec j k) ne) (rw (if_neg (dec j k) ne) (get-delete_self k m))
  ]

  pub get-delete_ne : (j k : K) (m : Map K V) → k ≢ j → get j (delete k m) ≡ get j m
  unfolding delete put
  get-delete_ne j k [] ne = refl
  get-delete_ne j k ((i, v) ∷ m) ne = elim (dec i k) [
    | yes e ↦
        rw (if_pos (dec i k) e)
          (get-delete_ne j k m ne ∙ sym (get-put_ne j i v m (λ f. ne (sym e ∙ f))))
    | no n ↦ rw (if_neg (dec i k) n) (
        get-put j i v (delete k m)
        ∙ ap (λ rest. ite (dec i j) (some v) rest) (get-delete_ne j k m ne)
        ∙ sym (get-put j i v m))
  ]
