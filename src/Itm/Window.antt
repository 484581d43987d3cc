-- ===== src/Itm/Window.antt =====
-- The window of six bytes in which `checkSync` looks for the sync pattern.
use mcu_debug.Prelude.{
  ℕ, zero, suc, ◌-◌, ◌<◌, ◌≡◌, ◌≢◌, refl, ◌∙◌, false, some, List, [], ◌∷◌, ◌++◌, arith, length,
  drop, get_elem?, length-drop, length-append, get_elem?-append,
}
use mcu_debug.Itm.Sync.{SyncRing, is_sync}
use mcu_debug.Itm.{Decoder, step, process_byte}

-- The six bytes seen last, once the constructor has filled them in.
pub record IsPrimed (ring : SyncRing) (b : ring.Buf) : Type 0 where
  pub size_six : ring.size b ≡ 6
  pub six : length (ring.to_array b) ≡ 6

-- Such a window is six bytes.
abbrev pub window : ℕ → ℕ → ℕ → ℕ → ℕ → ℕ → List ℕ
window a b c d e f = a ∷ b ∷ c ∷ d ∷ e ∷ f ∷ []

pub six_bytes : (w : List ℕ) → length w ≡ 6 → (a b c d e f : ℕ) × (w ≡ window a b c d e f)
six_bytes (a ∷ b ∷ c ∷ d ∷ e ∷ f ∷ []) h = (a, b, c, d, e, f, refl)
six_bytes _ h = absurd (omega arith)

-- A byte in the window that rules the sync pattern out.
abbrev pub Guarded : ℕ → List ℕ → Type 0
Guarded i w = (h : ℕ) × (get_elem? w i ≡ some h) × (h ≢ 0) × (h ≢ 0x80)

guard_position :
    (i a b c d e f : ℕ) → Guarded i (window a b c d e f) → is_sync (window a b c d e f) ≡ false
unfolding is_sync
guard_position zero a b c d e f g = ground arith
guard_position (suc zero) a b c d e f g = ground arith
guard_position (suc (suc zero)) a b c d e f g = ground arith
guard_position (suc (suc (suc zero))) a b c d e f g = ground arith
guard_position (suc (suc (suc (suc zero)))) a b c d e f g = ground arith
guard_position (suc (suc (suc (suc (suc zero))))) a b c d e f g = ground arith
guard_position (suc (suc (suc (suc (suc (suc j)))))) a b c d e f (h, at, ne, ne') = cc

Guarded-is_sync : (i : ℕ) (w : List ℕ) → length w ≡ 6 → Guarded i w → is_sync w ≡ false
Guarded-is_sync i w l g =
    let (a, b, c, d, e, f, split) = six_bytes w l in
    rw split (guard_position i a b c d e f (rw split at g))

get_elem?-shift :
    (w ys : List ℕ) (i : ℕ)
    → suc i < length w
    → get_elem? (drop 1 (w ++ ys)) i ≡ get_elem? w (suc i)
get_elem?-shift [] ys i h = absurd (omega arith)
get_elem?-shift (a ∷ w) ys i h = get_elem?-append w ys i (omega arith)

module _ (ring : SyncRing) where
  open ring use {Buf, add, to_array, size}

  pub to_array-add_primed :
      (b : Buf) (x : ℕ) → IsPrimed ring b → to_array (add b x) ≡ drop 1 (to_array b ++ x ∷ [])
  to_array-add_primed b x v = ring.to_array-add b x ∙ rw one
    where
      one : length (to_array b ++ x ∷ []) - size b ≡ 1
      one = omega (arith, length-append (to_array b) (x ∷ []), v.size_six, v.six)

  pub add-IsPrimed : (b : Buf) (x : ℕ) → IsPrimed ring b → IsPrimed ring (add b x)
  add-IsPrimed b x v = record {
    size_six = ring.size-add b x ∙ v.size_six;
    six = rw (to_array-add_primed b x v) (
        omega (
          arith,
          length-drop 1 (to_array b ++ x ∷ []),
          length-append (to_array b) (x ∷ []),
          v.six,
        ));
  }

  -- The next byte moves the guard one place down.
  pub add-Guarded :
      (b : Buf) (x i : ℕ)
      → IsPrimed ring b
      → suc i < 6
      → Guarded (suc i) (to_array b)
      → Guarded i (to_array (add b x))
  add-Guarded b x i v k (h, at, ne, ne') = (
    h,
    rw (to_array-add_primed b x v)
        (get_elem?-shift (to_array b) (x ∷ []) i (omega (arith, v.six)) ∙ at),
    ne,
    ne',
  )

  pub add-Guarded_new :
      (b : Buf) (x : ℕ) → IsPrimed ring b → x ≢ 0 → x ≢ 0x80 → Guarded 5 (to_array (add b x))
  add-Guarded_new b x v p q =
      (x, rw (to_array-add_primed b x v) (get_elem?-last (to_array b) x v.six), p, q)
    where
      get_elem?-last :
          (w : List ℕ) (x : ℕ) → length w ≡ 6 → get_elem? (drop 1 (w ++ x ∷ [])) 5 ≡ some x
      get_elem?-last w x l = let (a, b, c, d, e, f, split) = six_bytes w l in rw split

  -- A byte that completes no sync pattern goes to the `switch`.
  pub process_byte-step :
      (byte i : ℕ) (d : Decoder Buf)
      → IsPrimed ring (add d.sync_buffer byte)
      → Guarded i (to_array (add d.sync_buffer byte))
      → process_byte ring byte d
        ≡ step d.status byte (record d { sync_buffer = add d.sync_buffer byte })
  unfolding process_byte
  process_byte-step byte i d v g =
      rw (Guarded-is_sync i (to_array (add d.sync_buffer byte)) v.six g)
