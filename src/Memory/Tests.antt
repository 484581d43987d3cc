-- ===== src/Memory/Tests.antt =====
-- The theorems on reads with a gdb whose memory has three bytes.
use mcu_debug.Prelude.{
  ℕ, zero, suc, ◌+◌, ◌-◌, ◌*◌, ◌/◌, ◌%◌, ◌≤◌, ◌<◌, min, none, some, List, [], ◌∷◌, ◌≡◌, refl, arith,
  ltb, lt→ltb, if◌then◌else◌, pos, negsuc, All, codes, length, ap, ◌==◌, ◌∙◌, false,
}
use mcu_debug.Mi.Chars.{trim}
use mcu_debug.Memory.Numbers.{
  bytes_to_hex, bytes_from_hex, hex_digit, digit_value, parse_address, big_int, digits_of,
  digits_value, byte_of, put_byte,
}
use mcu_debug.Memory.Requests.{
  Command, read_bytes, write_bytes, Block, Answer, done, failed, number_or_zero, read_memory_bytes,
  write_word, ok, read_word,
}
use mcu_debug.Memory.Reads.{
  bytes_at, Reads, Documented, to_option, expected, read_memory_bytes-expected,
}
use mcu_debug.Memory.Words.{Stores, read_word-write_word}
use mcu_debug.Memory.Bounds.{IsChunk, total_size, fuel_result, read_memory_bytes-bounds}

digit_value-hex_digit : (n : ℕ) → n < 16 → digit_value (hex_digit n) ≡ some n
unfolding digit_value hex_digit
digit_value-hex_digit n h = ground arith

bytes_from_hex-bytes_to_hex :
    (bytes : List ℕ) → All (λ b. b < 256) bytes → bytes_from_hex (bytes_to_hex bytes) ≡ bytes
unfolding bytes_from_hex bytes_to_hex
bytes_from_hex-bytes_to_hex [] h = refl
bytes_from_hex-bytes_to_hex (b ∷ bytes) (h, hs) =
    rw
      (
        digit_value-hex_digit (b / 16) (omega (arith, h)),
        digit_value-hex_digit (b % 16) (omega (arith, h)),
      )
      (by_byte (b / 16) (b % 16) (bytes_from_hex-bytes_to_hex bytes hs) (omega arith)
        (omega (arith, h)) (omega (arith, h)))
  where
    by_byte :
        (high low : ℕ)
        → bytes_from_hex (bytes_to_hex bytes) ≡ bytes
        → 16 * high + low ≡ b
        → high < 16
        → low < 16
        → put_byte (byte_of (some high) (some low)) (bytes_from_hex (bytes_to_hex bytes))
          ≡ b ∷ bytes
    by_byte high low rest e small_high small_low = ground (arith, rest, e)

-- Three bytes, 17, 18 and 19, from the address 0 on.
abbrev small_memory : ℕ → ℕ
small_memory a = 17 + a % 3

abbrev small_block : ℕ → ℕ → Block
small_block a k = record {
  contents = bytes_to_hex (bytes_at small_memory a k);
  begin = (b'0' + a) ∷ [];
  offset = codes "0x0";
  end = (b'0' + (a + k)) ∷ [];
}

abbrev small_gdb : Command → Unit {0} → Answer × Unit {0}
small_gdb (read_bytes (pos a) n) g = (
  if ltb a 3
      then done (small_block a (min n (3 - a)) ∷ [])
      else failed (codes "Cannot access memory"),
  g,
)
small_gdb (read_bytes (negsuc a) n) g = (failed (codes "Cannot access memory"), g)
small_gdb (write_bytes address text) g = (done [], g)

small_number : (a : ℕ) → a ≤ 4 → number_or_zero ((b'0' + a) ∷ []) ≡ some (pos a)
unfolding number_or_zero parse_address big_int trim digits_of digits_value digit_value
small_number zero h = refl
small_number (suc zero) h = refl
small_number (suc (suc zero)) h = refl
small_number (suc (suc (suc zero))) h = refl
small_number (suc (suc (suc (suc zero)))) h = refl
small_number (suc (suc (suc (suc (suc a))))) h = absurd (omega (arith, h))

small_bytes : (a k : ℕ) → All (λ b. b < 256) (bytes_at small_memory a k)
small_bytes a zero = tt
small_bytes a (suc k) = (omega arith, small_bytes (suc a) k)

small_gdb-Documented : Documented small_gdb small_memory 3
small_gdb-Documented = record {
  reads = λ a n g h. reads_lem a n h;
  refuses = λ a n g h. (codes "Cannot access memory", refuses_lem a n h);
}
  where
    reads_lem :
        (a n : ℕ)
        → a < 3
        → Reads small_memory a (min n (3 - a)) (small_gdb (read_bytes (pos a) n) tt).0
    reads_lem a n h =
        let k = min n (3 - a) in
        record {
          block = small_block a k;
          answered = rw (lt→ltb a 3 h) refl;
          contents = bytes_from_hex-bytes_to_hex (bytes_at small_memory a k) (small_bytes a k);
          begin = small_number a (omega (arith, h));
          offset =
              unfold number_or_zero parse_address big_int trim digits_of digits_value digit_value in
              refl;
          end = small_number (a + k) (omega (arith, h));
        }

    refuses_lem :
        (a n : ℕ)
        → 3 ≤ a
        → (small_gdb (read_bytes (pos a) n) tt).0 ≡ failed (codes "Cannot access memory")
    refuses_lem a n h = ground arith

read_memory_bytes-expected_example :
    to_option (read_memory_bytes small_gdb (pos 1) 5 none (record { gdb_state = tt; sent = [] })).0
    ≡ expected small_gdb small_memory 3 small_gdb-Documented 1 5
read_memory_bytes-expected_example =
    read_memory_bytes-expected small_gdb small_memory 3 small_gdb-Documented 1 5
      (record { gdb_state = tt; sent = [] })

-- Of the five bytes that were asked for, two are there.
two_bytes : expected small_gdb small_memory 3 small_gdb-Documented 1 5 ≡ some (18 ∷ 19 ∷ [])
two_bytes = refl

read_memory_bytes-bounds_example :
    let r = read_memory_bytes small_gdb (pos 0) 1300 none (record { gdb_state = tt; sent = [] }) in
    (fuel_result r.0 ≡ 0) × All IsChunk r.1.sent × (total_size r.1.sent ≤ 1300)
read_memory_bytes-bounds_example = read_memory_bytes-bounds small_gdb (pos 0) 1300 none tt

-- A gdb whose state is the memory, shown as bytes.
abbrev shown : (ℕ → ℕ) → ℕ → ℕ
shown g i = g i % 256

abbrev overwrite : ℕ → List ℕ → (ℕ → ℕ) → ℕ → ℕ
overwrite a [] g i = g i
overwrite a (b ∷ bytes) g i = if i == a then b else overwrite (suc a) bytes g i

abbrev store_gdb : Command → (ℕ → ℕ) → Answer × (ℕ → ℕ)
store_gdb (read_bytes (pos a) n) g = (
  done (
      record {
        contents = bytes_to_hex (bytes_at (shown g) a n);
        begin = (b'0' + a) ∷ [];
        offset = [];
        end = (b'0' + (a + n)) ∷ [];
      }
      ∷ []),
  g,
)
store_gdb (write_bytes (pos a) text) g = (done [], overwrite a (bytes_from_hex text) g)
store_gdb (read_bytes (negsuc a) n) g = (failed [], g)
store_gdb (write_bytes (negsuc a) text) g = (failed [], g)

shown_bytes : (g : ℕ → ℕ) (a n : ℕ) → All (λ b. b < 256) (bytes_at (shown g) a n)
shown_bytes g a zero = tt
shown_bytes g a (suc n) = (omega arith, shown_bytes g (suc a) n)

overwrite_behind :
    (a b k n : ℕ) (bytes : List ℕ) (g : ℕ → ℕ)
    → a < b
    → bytes_at (shown (overwrite a (n ∷ bytes) g)) b k
      ≡ bytes_at (shown (overwrite (suc a) bytes g)) b k
overwrite_behind a b zero n bytes g h = refl
overwrite_behind a b (suc k) n bytes g h =
    let other : (b == a) ≡ false = ground (arith, h) in
    rw other (
      ap (◌∷◌ (shown (overwrite (suc a) bytes g) b))
        (overwrite_behind a (suc b) k n bytes g (omega (arith, h))))

stored_bytes :
    (a : ℕ) (bytes : List ℕ) (g : ℕ → ℕ)
    → All (λ b. b < 256) bytes
    → bytes_at (shown (overwrite a bytes g)) a (length bytes) ≡ bytes
stored_bytes a [] g h = refl
stored_bytes a (b ∷ bytes) g (h, hs) =
    let here : shown (overwrite a (b ∷ bytes) g) a ≡ b = ground (arith, h) in
    ap (λ c. c ∷ bytes_at (shown (overwrite a (b ∷ bytes) g)) (suc a) (length bytes)) here
    ∙ ap (◌∷◌ b) (
        overwrite_behind a (suc a) (length bytes) b bytes g (omega arith)
        ∙ stored_bytes (suc a) bytes g hs)

store_gdb-Stores : Stores store_gdb shown 4
store_gdb-Stores = record {
  reads = λ a n g h. reads_lem a n g h;
  accepts = λ a bytes g h. refl;
  stored = λ a bytes g small h.
      ap (λ l. bytes_at (shown (overwrite a l g)) a (length bytes))
        (bytes_from_hex-bytes_to_hex bytes small)
      ∙ stored_bytes a bytes g small;
}
  where
    reads_lem :
        (a n : ℕ) (g : ℕ → ℕ)
        → a + n ≤ 4
        → Reads (shown g) a n (store_gdb (read_bytes (pos a) n) g).0
    reads_lem a n g h = record {
      block = _;
      answered = refl;
      contents = bytes_from_hex-bytes_to_hex (bytes_at (shown g) a n) (shown_bytes g a n);
      begin = small_number a (omega (arith, h));
      offset = unfold number_or_zero in refl;
      end = small_number (a + n) h;
    }

read_word-write_word_example :
    let w = write_word store_gdb (pos 0) 3735928559 (record { gdb_state = λ i. i; sent = [] }) in
    (w.0 ≡ ok tt) × ((read_word store_gdb (pos 0) w.1).0 ≡ ok 3735928559)
read_word-write_word_example =
    read_word-write_word store_gdb shown 4 store_gdb-Stores 0 3735928559
      (record { gdb_state = λ i. i; sent = [] }) (omega arith) (omega arith)
