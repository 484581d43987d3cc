-- ===== src/Itm/Sync.antt =====
-- The six bytes that `checkSync` looks at. The ring buffer of the package ring-buffer-ts is taken
-- by what its documentation says: `add` keeps the newest items, `toArray` lists them oldest first.
use mcu_debug.Prelude.{ℕ, ◌-◌, ◌≡◌, Bool, false, ◌&&◌, List, [], ◌∷◌, ◌++◌, ◌==◌, length, drop}

pub record SyncRing : Type 1 where
  pub Buf : Type 0
  pub fresh : ℕ → Buf
  pub size : Buf → ℕ
  pub add : Buf → ℕ → Buf
  pub to_array : Buf → List ℕ
  pub size-fresh : (n : ℕ) → size (fresh n) ≡ n
  pub size-add : (b : Buf) (x : ℕ) → size (add b x) ≡ size b
  pub to_array-fresh : (n : ℕ) → to_array (fresh n) ≡ []
  pub to_array-add :
      (b : Buf) (x : ℕ)
      → to_array (add b x) ≡ drop (length (to_array b ++ x ∷ []) - size b) (to_array b ++ x ∷ [])

-- The comparison in `checkSync`. An index past the end reads `undefined`, which equals no number.
unfoldable pub is_sync : List ℕ → Bool
is_sync (b0 ∷ b1 ∷ b2 ∷ b3 ∷ b4 ∷ b5 ∷ rest) =
    b5 == 0x80 && (b4 == 0 && (b3 == 0 && (b2 == 0 && (b1 == 0 && b0 == 0))))
is_sync _ = false
