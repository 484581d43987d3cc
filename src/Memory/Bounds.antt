-- ===== src/Memory/Bounds.antt =====
-- What a read asks of gdb, whatever gdb answers.
use mcu_debug.Prelude.{
  ℕ, zero, suc, ◌+◌, ◌-◌, ◌≤◌, ◌<◌, min, Bool, true, false, Option, none, some, List, [], ◌∷◌, ◌++◌,
  ◌≡◌, refl, arith, ℤ, pos, ◌+ℤ◌, negate, less, ℤ_discrete, All, ite, if◌then◌else◌,
}
use mcu_debug.Mi.Chars.{Text}
use mcu_debug.Memory.Numbers.{bytes_from_hex}
use mcu_debug.Memory.Requests.{
  Command, read_bytes, write_bytes, Answer, done, failed, MemoryError, unexpected_address,
  out_of_fuel, Result, ok, throws, Port, Checked, whole, partial, refused, number_or_zero,
  check_length, check_block, check_answer, all_settled, Callback, call_back, post, read_loop,
  read_memory_bytes,
}

-- A read of 1 to 512 bytes.
abbrev pub IsChunk : Command → Type 0
IsChunk (read_bytes address n) = (1 ≤ n) × (n ≤ 512)
IsChunk (write_bytes address text) = ⊥

abbrev pub size_of : Command → ℕ
size_of (read_bytes address n) = n
size_of (write_bytes address text) = 0

abbrev pub total_size : List Command → ℕ
total_size [] = 0
total_size (c ∷ cs) = size_of c + total_size cs

abbrev fuel_error : MemoryError → ℕ
fuel_error out_of_fuel = 1
fuel_error _ = 0

abbrev fuel_checked : Checked → ℕ
fuel_checked (refused e) = fuel_error e
fuel_checked _ = 0

abbrev pub fuel_result {ℓ} : {A : Type ℓ} → Result A → ℕ
fuel_result (ok a) = 0
fuel_result (throws e) = fuel_error e

check_answer-fuel :
    (address : ℤ) (size : ℕ) (answer : Answer) → fuel_checked (check_answer address size answer) ≡ 0
unfolding check_answer
check_answer-fuel address size (failed text) = refl
check_answer-fuel address size (done []) = refl
check_answer-fuel address size (done (block ∷ [])) =
    by_numbers (number_or_zero block.begin) (number_or_zero block.offset)
  where
    by_less :
        (chunk : List ℕ) (actual : ℤ) (b : Bool)
        → fuel_checked (if b then partial chunk else whole chunk actual) ≡ 0
    by_less chunk actual true = refl
    by_less chunk actual false = refl

    by_end :
        (chunk : List ℕ) (start : ℤ) (end : Option ℤ)
        → fuel_checked (check_length chunk size start block.end end) ≡ 0
    by_end chunk start none = unfold check_length in refl
    by_end chunk start (some end) =
        unfold check_length in
        by_less chunk (end +ℤ negate start) (less (end +ℤ negate start) (pos size))

    by_address :
        (start : ℤ) (d : Dec (start ≡ address))
        → fuel_checked (
            ite d
              (check_length
                (bytes_from_hex block.contents)
                size
                start
                block.end
                (number_or_zero block.end))
              (refused (unexpected_address address start)))
          ≡ 0
    by_address start (yes e) =
        by_end (bytes_from_hex block.contents) start (number_or_zero block.end)
    by_address start (no ne) = refl

    by_numbers :
        (begin offset : Option ℤ) → fuel_checked (check_block address size block begin offset) ≡ 0
    by_numbers none offset = unfold check_block in refl
    by_numbers (some begin) none = unfold check_block in refl
    by_numbers (some begin) (some offset) =
        unfold check_block in by_address (begin +ℤ offset) (ℤ_discrete (begin +ℤ offset) address)
check_answer-fuel address size (done (block ∷ other ∷ blocks)) = refl

all_settled-fuel :
    (promises : List (Option Text)) (ret : List ℕ) → fuel_result (all_settled promises ret) ≡ 0
unfolding all_settled
all_settled-fuel [] ret = refl
all_settled-fuel (none ∷ promises) ret = all_settled-fuel promises ret
all_settled-fuel (some text ∷ promises) ret = refl

module _ {G : Type 0} (gdb_answers : Command → G → Answer × G) where
  -- Of a run of the loop that may still ask for `n` bytes.
  record Bounded (n : ℕ) (p : Port G) (r : Result (List ℕ) × Port G) : Type 0 where
    fuelled : fuel_result r.0 ≡ 0
    chunks : All IsChunk p.sent → All IsChunk r.1.sent
    at_most : total_size r.1.sent ≤ n + total_size p.sent

  read_loop-Bounded :
      (callback : Callback) (fuel : ℕ) (address : ℤ) (n : ℕ) (ret : List ℕ)
      (promises : List (Option Text)) (p : Port G)
      → n < fuel
      → Bounded n p (read_loop gdb_answers callback fuel address n ret promises p)
  unfolding read_loop
  read_loop-Bounded callback zero address n ret promises p h = absurd (omega (arith, h))
  read_loop-Bounded callback (suc fuel) address zero ret promises p h = record {
    fuelled = all_settled-fuel promises ret;
    chunks = λ all. all;
    at_most = omega arith;
  }
  read_loop-Bounded callback (suc fuel) address (suc more) ret promises p h =
      by_checked (check_answer address size sent.0) (check_answer-fuel address size sent.0)
        (read_loop-Bounded callback fuel)
    where
      size : ℕ
      size = min (suc more) 512

      sent : Answer × Port G
      sent = post gdb_answers (read_bytes address size) p

      by_checked :
          (c : Checked)
          → fuel_checked c ≡ 0
          → ((a : ℤ) (n : ℕ) (ret : List ℕ) (ps : List (Option Text)) (q : Port G)
              → n < fuel
              → Bounded n q (read_loop gdb_answers callback fuel a n ret ps q))
          → Bounded (suc more) p (elim c [
            | refused e ↦ (throws e, sent.1)
            | partial chunk ↦ (all_settled promises (ret ++ chunk), sent.1)
            | whole chunk actual ↦
                read_loop gdb_answers callback fuel
                  (address +ℤ pos size)
                  (suc more - size)
                  (ret ++ chunk)
                  (promises ++ call_back callback chunk actual)
                  sent.1
          ])
      by_checked (refused e) no_fuel later = record {
        fuelled = no_fuel;
        chunks = λ all. ((omega arith, omega arith), all);
        at_most = omega arith;
      }
      by_checked (partial chunk) no_fuel later = record {
        fuelled = all_settled-fuel promises (ret ++ chunk);
        chunks = λ all. ((omega arith, omega arith), all);
        at_most = omega arith;
      }
      by_checked (whole chunk actual) no_fuel later =
          let rest =
            later (address +ℤ pos size) (suc more - size) (ret ++ chunk)
              (promises ++ call_back callback chunk actual) sent.1 (omega (arith, h)) in
          record {
            fuelled = rest.fuelled;
            chunks = λ all. rest.chunks ((omega arith, omega arith), all);
            at_most = omega (arith, rest.at_most);
          }

  -- Whatever gdb answers and whatever the callback does: a read returns or throws without running out
  -- of fuel, every command that it sends reads 1 to 512 bytes, and together they read no more bytes
  -- than were asked for.
  pub read_memory_bytes-bounds :
      (address : ℤ) (n : ℕ) (callback : Callback) (g : G)
      → let r =
          read_memory_bytes gdb_answers address n callback (record { gdb_state = g; sent = [] }) in
        (fuel_result r.0 ≡ 0) × All IsChunk r.1.sent × (total_size r.1.sent ≤ n)
  unfolding read_memory_bytes
  read_memory_bytes-bounds address n callback g =
      let start : Port G = record { gdb_state = g; sent = [] } in
      let bounded = read_loop-Bounded callback (suc n) address n [] [] start (omega arith) in
      (bounded.fuelled, bounded.chunks tt, omega (arith, bounded.at_most))
