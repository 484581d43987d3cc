-- ===== src/RingBuffer/Tests.antt =====
-- Runs of the byte ring, and its theorems at concrete inputs.
use mcu_debug.Prelude.{◌≡◌, refl, true, some, [], ◌∷◌, arith}
use mcu_debug.RingBuffer.{Ring, create, write, write_buffer, read, snapshot}
use mcu_debug.RingBuffer.Queue
use mcu_debug.RingBuffer.Refine.{
  IsValid, write_refines, read_refines, write_buffer_refines, snapshot-write_buffer-create,
}

-- 8, 9 and 7 with the oldest byte at index 2: the ring is full.
abbrev full_ring : Ring
full_ring = record { buffer = 9 ∷ 7 ∷ 8 ∷ []; head = 2; tail = 2; is_full = true; capacity = 3 }

full_ring-IsValid : IsValid full_ring
full_ring-IsValid = record {
  storage = refl;
  head_in = omega arith;
  tail_in = omega arith;
  full_meets = λ e. refl;
}

overwrites : snapshot (write_buffer (create 3) (1 ∷ 2 ∷ 3 ∷ 4 ∷ 261 ∷ [])) ≡ 3 ∷ 4 ∷ 5 ∷ []
unfolding snapshot write_buffer write create
overwrites = refl

reads_in_order : (read (write_buffer (create 2) (1 ∷ 2 ∷ 3 ∷ []))).0 ≡ some 2
unfolding read write_buffer write create
reads_in_order = refl

write_refines_example : snapshot (write full_ring 4) ≡ Queue.push 3 (8 ∷ 9 ∷ 7 ∷ []) 4
unfolding snapshot
write_refines_example = write_refines 4 full_ring-IsValid

read_refines_example :
    ((read full_ring).0, snapshot (read full_ring).1) ≡ Queue.pop (8 ∷ 9 ∷ 7 ∷ [])
unfolding snapshot
read_refines_example = read_refines full_ring-IsValid

write_buffer_refines_example :
    snapshot (write_buffer full_ring (1 ∷ 2 ∷ [])) ≡ Queue.newest 3 (8 ∷ 9 ∷ 7 ∷ 1 ∷ 2 ∷ [])
unfolding snapshot
write_buffer_refines_example = write_buffer_refines (1 ∷ 2 ∷ []) full_ring-IsValid

snapshot-write_buffer-create_example :
    snapshot (write_buffer (create 3) (1 ∷ 2 ∷ 3 ∷ 4 ∷ [])) ≡ Queue.newest 3 (1 ∷ 2 ∷ 3 ∷ 4 ∷ [])
snapshot-write_buffer-create_example =
    snapshot-write_buffer-create 3 (1 ∷ 2 ∷ 3 ∷ 4 ∷ []) (omega arith)
