-- ===== src/Variables/Frames.antt =====
-- What a reference to a frame leads to.
use mcu_debug.Prelude.{
  ℕ, ◌%◌, ◌^◌, bit_and, false, ◌==◌, ℤ, pos, negsuc, ℤ_discrete, Option, none, some, ◌≡◌, ◌≢◌, ◌↔◌,
  refl, sym, ap, ◌∙◌, arith, ◌>>=◌, none-ne-some,
}
use mcu_debug.Handles.{get_object}
use mcu_debug.Handles.Laws.{IsValid, hit, miss, found, add_object-IsValid}
use mcu_debug.Handles.Add.{add_object-get_object, add_object-add_object, get_object-add_object}
use mcu_debug.VarRef.{decode_reference, encode_scope_reference, to_uint32}
use mcu_debug.VarRef.Codec.{encode_scope_reference_lem, encode_scope_reference_iff}
use mcu_debug.Variables.{
  VariableManager, number_key, number_truthy, frame_handle, get_frame_info, add_frame_info,
  get_var_or_frame_info, get_variable_info, get_container,
}

-- The frame handles of the manager make a valid registry.
abbrev pub HasFrames : VariableManager → Type 0
HasFrames m = IsValid ℤ_discrete number_key number_truthy m.frame_handles

-- Adding a frame keeps the frame handles valid.
pub add_frame_info-HasFrames :
    (t f s : ℕ) (m : VariableManager) → HasFrames m → HasFrames (add_frame_info t f s m).1
unfolding add_frame_info
add_frame_info-HasFrames t f s m valid =
    add_object-IsValid ℤ_discrete number_key number_truthy (encode_scope_reference t f s) valid

-- If the frame handles are valid, the reference that `addFrameInfo` gives for thread `t`, frame `f`
-- and scope `s` stands in `getFrameInfo` for `t` modulo 16, `f` modulo 2 ^ 24 and `s` modulo 8.
pub add_frame_info-get_frame_info :
    (t f s : ℕ) (m : VariableManager)
    → HasFrames m
    → let added = add_frame_info t f s m in
      get_frame_info added.0 added.1 ≡ some (t % 16, f % 2 ^ 24, s % 8)
unfolding add_frame_info get_frame_info frame_handle
add_frame_info-get_frame_info t f s m valid =
    let kept =
      add_object-get_object ℤ_discrete number_key number_truthy (encode_scope_reference t f s)
        valid in
    rw (kept.1, kept.2, (encode_scope_reference_lem t f s).0)

abbrev magnitude : ℤ → ℕ
magnitude (pos n) = n
magnitude (negsuc n) = n

-- The last step of `get_frame_info`.
abbrev decoded : Option ℤ → Option (ℕ × ℕ × ℕ)
decoded encoded = encoded >>= λ e. some (decode_reference e)

-- If the frame handles are valid, two frames that are added one after the other get the same
-- reference exactly if their threads agree modulo 16, their frames modulo 2 ^ 24 and their scopes
-- modulo 8.
pub add_frame_info-add_frame_info :
    (t f s u g r : ℕ) (m : VariableManager)
    → HasFrames m
    → let added = add_frame_info t f s m in
      ((add_frame_info u g r added.1).0 ≡ added.0)
      ↔ ((u % 16 ≡ t % 16) × (g % 2 ^ 24 ≡ f % 2 ^ 24) × (r % 8 ≡ s % 8))
unfolding add_frame_info
add_frame_info-add_frame_info t f s u g r m valid =
    let handles =
      add_object-add_object ℤ_discrete number_key number_truthy (encode_scope_reference t f s)
        (encode_scope_reference u g r) valid in
    let references = encode_scope_reference_iff u g r t f s in
    (λ e. references.0 (handles.0 (ap magnitude e)), λ e. ap pos (handles.1 (references.1 e)))

-- If the frame handles are valid, adding a frame leaves what every earlier reference stands for.
pub get_frame_info-add_frame_info :
    (t f s : ℕ) (reference : ℤ) (info : ℕ × ℕ × ℕ) (m : VariableManager)
    → HasFrames m
    → get_frame_info reference m ≡ some info
    → get_frame_info reference (add_frame_info t f s m).1 ≡ some info
unfolding add_frame_info get_frame_info frame_handle
get_frame_info-add_frame_info t f s (pos handle) info m valid e =
    elim (found (get_object ℤ_discrete number_key number_truthy handle m.frame_handles)) [
      | hit encoded q ↦
          rw
            (get_object-add_object ℤ_discrete number_key number_truthy
              (encode_scope_reference t f s) encoded handle valid q)
            (sym (ap decoded q) ∙ e)
      | miss q ↦ absurd (none-ne-some info (sym (ap decoded q) ∙ e))
    ]
get_frame_info-add_frame_info t f s (negsuc n) info m valid e = absurd (none-ne-some info e)

-- A frame's reference is a small number that is counted up. If the frame handles are valid and the
-- reference that `addFrameInfo` gives has a fourth bit of zero, `getVarOrFrameInfo` finds the frame.
pub add_frame_info-get_var_or_frame_info :
    (t f s : ℕ) (m : VariableManager)
    → HasFrames m
    → bit_and (to_uint32 (add_frame_info t f s m).0) 8 ≡ 0
    → let added = add_frame_info t f s m in
      get_var_or_frame_info added.0 added.1 ≡ some (t % 16, f % 2 ^ 24, s % 8)
unfolding get_var_or_frame_info
add_frame_info-get_var_or_frame_info t f s m valid clear =
    rw clear (add_frame_info-get_frame_info t f s m valid)

get_variable_info-add_frame_info :
    (t f s : ℕ) (reference : ℤ) (m : VariableManager)
    → get_variable_info reference (add_frame_info t f s m).1 ≡ get_variable_info reference m
unfolding get_variable_info add_frame_info get_container
get_variable_info-add_frame_info t f s reference m = refl

pub not_zero : (n : ℕ) → n ≢ 0 → (n == 0) ≡ false
not_zero n ne = ground (arith, ne)

-- If the frame handles are valid and the reference that `addFrameInfo` gives has a fourth bit of one,
-- and no variable has that reference, `getVarOrFrameInfo` fails, where `getFrameInfo` knows the frame.
pub add_frame_info-lost :
    (t f s : ℕ) (m : VariableManager)
    → HasFrames m
    → bit_and (to_uint32 (add_frame_info t f s m).0) 8 ≢ 0
    → get_variable_info (add_frame_info t f s m).0 m ≡ none
    → let added = add_frame_info t f s m in
      (get_var_or_frame_info added.0 added.1 ≡ none)
      × (get_frame_info added.0 added.1 ≡ some (t % 16, f % 2 ^ 24, s % 8))
unfolding get_var_or_frame_info
add_frame_info-lost t f s m valid typed missing =
    let reference = (add_frame_info t f s m).0 in
    (
      rw (not_zero (bit_and (to_uint32 reference) 8) typed)
          (get_variable_info-add_frame_info t f s reference m ∙ missing),
      add_frame_info-get_frame_info t f s m valid,
    )
