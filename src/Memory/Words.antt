-- ===== src/Memory/Words.antt =====
-- A word that is written is read back.
use mcu_debug.Prelude.{
  suc, min, ℕ, ◌+◌, ◌-◌, ◌*◌, ◌/◌, ◌%◌, ◌≤◌, ◌<◌, ◌^◌, none, List, [], ◌∷◌, ◌++◌, ◌≡◌, refl, ap,
  ◌∙◌, arith, ℤ, pos, ◌+ℤ◌, All, length, lt→ltb,
}
use mcu_debug.Memory.Numbers.{bytes_to_hex}
use mcu_debug.Memory.Requests.{
  Command, read_bytes, write_bytes, Answer, done, Result, ok, throws, Port, check_answer, read_loop,
  all_settled, post, uint32, read_uint32, Checked, whole, partial, refused, read_memory_bytes,
  write_memory_bytes, read_word, write_word,
}
use mcu_debug.Memory.Reads.{bytes_at, Reads, check_answer-Reads}

-- What gdb documents of reads and writes below `limit`, where `mem` is the memory in a state of gdb:
-- it answers a read with the bytes there, and after a write those written are there.
pub record Stores {G : Type 0} (gdb_answers : Command → G → Answer × G) (mem : G → ℕ → ℕ)
    (limit : ℕ) : Type 0 where
  pub reads :
      (a n : ℕ) (g : G) → a + n ≤ limit → Reads (mem g) a n (gdb_answers (read_bytes (pos a) n) g).0
  pub accepts :
      (a : ℕ) (bytes : List ℕ) (g : G)
      → a + length bytes ≤ limit
      → (gdb_answers (write_bytes (pos a) (bytes_to_hex bytes)) g).0 ≡ done []
  pub stored :
      (a : ℕ) (bytes : List ℕ) (g : G)
      → All (λ b. b < 256) bytes
      → a + length bytes ≤ limit
      → bytes_at (mem (gdb_answers (write_bytes (pos a) (bytes_to_hex bytes)) g).1) a (length bytes)
        ≡ bytes

abbrev word_bytes : ℕ → List ℕ
word_bytes value = value % 256 ∷ value / 256 % 256 ∷ value / 65536 % 256 ∷ value / 16777216 ∷ []

word_bytes-All : (value : ℕ) → value < 4294967296 → All (λ b. b < 256) (word_bytes value)
word_bytes-All value h = (omega arith, (omega arith, (omega arith, (omega (arith, h), tt))))

uint32-word_bytes :
    (value : ℕ)
    → value % 256
        + 256 * (value / 256 % 256)
        + 65536 * (value / 65536 % 256)
        + 16777216 * (value / 16777216)
      ≡ value
uint32-word_bytes value = omega arith

module _ {G : Type 0} (gdb_answers : Command → G → Answer × G) (mem : G → ℕ → ℕ) (limit : ℕ)
    (gdb : Stores gdb_answers mem limit) where
  -- A turn of the loop that reads a whole chunk.
  read_loop-whole :
      (fuel more : ℕ) (address actual : ℤ) (ret chunk : List ℕ) (p : Port G)
      → let size = min (suc more) 512 in
        let sent = post gdb_answers (read_bytes address size) p in
        check_answer address size sent.0 ≡ whole chunk actual
        → read_loop gdb_answers none (suc fuel) address (suc more) ret [] p
          ≡ read_loop gdb_answers none fuel
              (address +ℤ pos size)
              (suc more - size)
              (ret ++ chunk)
              []
              sent.1
  unfolding read_loop all_settled
  read_loop-whole fuel more address actual ret chunk p e = ap next e
    where
      size : ℕ
      size = min (suc more) 512

      sent : Answer × Port G
      sent = post gdb_answers (read_bytes address size) p

      next : Checked → Result (List ℕ) × Port G
      next c = elim c [
        | refused e ↦ (throws e, sent.1)
        | partial chunk ↦ (ok (ret ++ chunk), sent.1)
        | whole chunk actual ↦
            read_loop gdb_answers none fuel (address +ℤ pos size) (suc more - size) (ret ++ chunk)
              [] sent.1
      ]

  read_memory_bytes-4 :
      (a : ℕ) (p : Port G)
      → a + 4 ≤ limit
      → (read_memory_bytes gdb_answers (pos a) 4 none p).0 ≡ ok (bytes_at (mem p.gdb_state) a 4)
  unfolding read_memory_bytes read_loop all_settled
  read_memory_bytes-4 a p h =
      ap (λ (r : Result (List ℕ) × Port G). r.0)
        (read_loop-whole 4 3 (pos a) (pos 4) [] (bytes_at (mem p.gdb_state) a 4) p
          (check_answer-Reads (mem p.gdb_state) a 4 4 _ (gdb.reads a 4 p.gdb_state h)))

  read_word-bytes :
      (a : ℕ) (p : Port G)
      → a + 4 ≤ limit
      → (read_word gdb_answers (pos a) p).0 ≡ uint32 (bytes_at (mem p.gdb_state) a 4)
  unfolding read_word
  read_word-bytes a p h = ap read_uint32 (read_memory_bytes-4 a p h)

  -- Where gdb reads and writes as it documents below `limit`: a value below 2^32 that is written to the
  -- address of four bytes below `limit` is accepted, and reading the word there gives the value.
  pub read_word-write_word :
      (a value : ℕ) (p : Port G)
      → a + 4 ≤ limit
      → value < 2 ^ 32
      → let w = write_word gdb_answers (pos a) value p in
        (w.0 ≡ ok tt) × ((read_word gdb_answers (pos a) w.1).0 ≡ ok value)
  unfolding write_word write_memory_bytes
  read_word-write_word a value p h small =
      let written = post gdb_answers (write_bytes (pos a) (bytes_to_hex (word_bytes value))) p in
      rw (lt→ltb value (2 ^ 32) small, gdb.accepts a (word_bytes value) p.gdb_state h)
        (
          refl,
          read_word-bytes a written.1 h
              ∙ ap uint32
                  (gdb.stored a (word_bytes value) p.gdb_state (word_bytes-All value small) h)
              ∙ ap ok (uint32-word_bytes value),
        )
