-- ===== src/RingBuffer/Queue.antt =====
-- What a byte ring promises: a queue, oldest byte first, which holds at most `capacity` bytes.
use mcu_debug.Prelude.{ℕ, ◌%◌, ◌-◌, Option, none, some, List, [], ◌∷◌, ◌++◌, length, drop}

-- The last `capacity` bytes.
abbrev pub newest : ℕ → List ℕ → List ℕ
newest capacity q = drop (length q - capacity) q

unfoldable pub push : ℕ → List ℕ → ℕ → List ℕ
push capacity q byte = newest capacity (q ++ byte % 256 ∷ [])

unfoldable pub push_all : ℕ → List ℕ → List ℕ → List ℕ
unfolding push
push_all capacity q [] = q
push_all capacity q (byte ∷ rest) = push_all capacity (push capacity q byte) rest

unfoldable pub pop : List ℕ → Option ℕ × List ℕ
pop [] = (none, [])
pop (x ∷ q) = (some x, q)
