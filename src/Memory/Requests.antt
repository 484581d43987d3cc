-- ===== src/Memory/Requests.antt =====
-- The methods of MemoryRequests. A command is data here; gdb gives the answer and its state after it.
use mcu_debug.Prelude.{
  ite, ℕ, zero, suc, ◌+◌, ◌*◌, ◌-◌, ◌/◌, ◌%◌, ◌^◌, min, Option, none, some, List, [], ◌∷◌, ◌++◌,
  ◌==◌, ltb, if◌then◌else◌, length, ℤ, pos, ◌+ℤ◌, negate, less, ℤ_discrete,
}
use mcu_debug.Mi.Chars.{Text}
use mcu_debug.Memory.Numbers.{parse_address, format_address, bytes_to_hex, bytes_from_hex}

pub data Command : Type 0 where
  -- -data-read-memory-bytes
  read_bytes : ℤ → ℕ → Command
  -- -data-write-memory-bytes, with its hexadecimal text
  write_bytes : ℤ → Text → Command

-- A block of gdb's answer; a field that is missing counts as one that is empty.
pub record Block : Type 0 where
  pub contents : Text
  pub begin : Text
  pub offset : Text
  pub end : Text

-- The blocks of a read; none of them where the answer has no such field.
pub data Answer : Type 0 where
  done : List Block → Answer
  failed : Text → Answer

pub data MemoryError : Type 0 where
  gdb : Text → MemoryError
  no_data : MemoryError
  several_regions : ℕ → MemoryError
  bad_number : Text → MemoryError
  unexpected_address : ℤ → ℤ → MemoryError
  callback_failed : Text → MemoryError
  too_short out_of_range : MemoryError
  out_of_fuel : MemoryError

pub data Result {ℓ} (A : Type ℓ) : Type ℓ where
  ok : A → Result A
  throws : MemoryError → Result A

-- gdb's state, and the commands sent, newest first.
pub record Port (G : Type 0) : Type 0 where
  pub gdb_state : G
  pub sent : List Command

-- What a block says of a chunk that was asked for.
pub data Checked : Type 0 where
  -- with the length that the block claims
  whole : List ℕ → ℤ → Checked
  partial : List ℕ → Checked
  refused : MemoryError → Checked

-- `memory[key] || "0x0"`.
unfoldable pub number_or_zero : Text → Option ℤ
number_or_zero [] = some (pos 0)
number_or_zero (c ∷ s) = parse_address (c ∷ s)

unfoldable pub check_length : List ℕ → ℕ → ℤ → Text → Option ℤ → Checked
check_length chunk size start text none = refused (bad_number text)
check_length chunk size start text (some end) =
    let actual = end +ℤ negate start in
    if less actual (pos size) then partial chunk else whole chunk actual

unfoldable pub check_block : ℤ → ℕ → Block → Option ℤ → Option ℤ → Checked
check_block address size block none offset = refused (bad_number block.begin)
check_block address size block (some begin) none = refused (bad_number block.offset)
check_block address size block (some begin) (some offset) =
    ite (ℤ_discrete (begin +ℤ offset) address)
      (check_length (bytes_from_hex block.contents) size (begin +ℤ offset) block.end
        (number_or_zero block.end))
      (refused (unexpected_address address (begin +ℤ offset)))

unfoldable pub check_answer : ℤ → ℕ → Answer → Checked
check_answer address size (failed text) = refused (gdb text)
check_answer address size (done []) = refused no_data
check_answer address size (done (block ∷ [])) =
    check_block address size block (number_or_zero block.begin) (number_or_zero block.offset)
check_answer address size (done (block ∷ other ∷ blocks)) =
    refused (several_regions (length blocks + 2))

-- `Promise.all` of the callbacks; a promise that rejects has a message.
unfoldable pub all_settled : List (Option Text) → List ℕ → Result (List ℕ)
all_settled [] ret = ok ret
all_settled (none ∷ promises) ret = all_settled promises ret
all_settled (some text ∷ promises) ret = throws (callback_failed text)

-- The callback is optional, and so is the message of what it returns.
abbrev pub Callback : Type 0
Callback = Option (List ℕ → ℤ → Option Text)

abbrev pub call_back : Callback → List ℕ → ℤ → List (Option Text)
call_back none chunk actual = []
call_back (some callback) chunk actual = callback chunk actual ∷ []

-- `readUInt32LE(0)`, which throws on fewer than four bytes.
abbrev pub uint32 : List ℕ → Result ℕ
uint32 (a ∷ b ∷ c ∷ d ∷ more) = ok (a + 256 * b + 65536 * c + 16777216 * d)
uint32 _ = throws too_short

abbrev pub read_uint32 : Result (List ℕ) → Result ℕ
read_uint32 (ok bytes) = uint32 bytes
read_uint32 (throws e) = throws e

module _ {G : Type 0} (gdb_answers : Command → G → Answer × G) where
  abbrev pub post : Command → Port G → Answer × Port G
  post command p =
      let (answer, g) = gdb_answers command p.gdb_state in
      (answer, record { gdb_state = g; sent = command ∷ p.sent })

  -- The loop, on fuel, with the bytes read and the promises of the callbacks so far.
  unfoldable pub read_loop :
      Callback → ℕ → ℤ → ℕ → List ℕ → List (Option Text) → Port G → Result (List ℕ) × Port G
  read_loop callback zero address length ret promises p = (throws out_of_fuel, p)
  read_loop callback (suc fuel) address zero ret promises p = (all_settled promises ret, p)
  read_loop callback (suc fuel) address (suc more) ret promises p =
      let size = min (suc more) 512 in
      let (answer, p') = post (read_bytes address size) p in
      elim (check_answer address size answer) [
        | refused e ↦ (throws e, p')
        | partial chunk ↦ (all_settled promises (ret ++ chunk), p')
        | whole chunk actual ↦
            read_loop callback fuel (address +ℤ pos size) (suc more - size) (ret ++ chunk)
              (promises ++ call_back callback chunk actual) p'
      ]

  unfoldable pub read_memory_bytes : ℤ → ℕ → Callback → Port G → Result (List ℕ) × Port G
  read_memory_bytes address length callback p =
      read_loop callback (suc length) address length [] [] p

  abbrev sent_write : Answer → Result (Unit {0})
  sent_write (done blocks) = ok tt
  sent_write (failed text) = throws (gdb text)

  unfoldable pub write_memory_bytes : ℤ → List ℕ → Port G → Result (Unit {0}) × Port G
  write_memory_bytes address [] p = (ok tt, p)
  write_memory_bytes address (b ∷ data_bytes) p =
      let (answer, p') = post (write_bytes address (bytes_to_hex (b ∷ data_bytes))) p in
      (sent_write answer, p')

  unfoldable pub read_word : ℤ → Port G → Result ℕ × Port G
  read_word addr p = let (bytes, p') = read_memory_bytes addr 4 none p in (read_uint32 bytes, p')

  -- `writeUInt32LE`; a value of 2^32 or more throws there.
  unfoldable pub write_word : ℤ → ℕ → Port G → Result (Unit {0}) × Port G
  write_word addr value p =
      if ltb value (2 ^ 32)
      then write_memory_bytes addr
          (value % 256 ∷ value / 256 % 256 ∷ value / 65536 % 256 ∷ value / 16777216 ∷ []) p
      else (throws out_of_range, p)

  abbrev answer_with : Text → Result (List ℕ) → Result (Text × List ℕ)
  answer_with address (ok bytes) = ok (address, bytes)
  answer_with address (throws e) = throws e

  -- The address and the bytes of the response; the bytes go out in base 64.
  unfoldable pub read_memory_request : Text → ℤ → ℕ → Port G → Result (Text × List ℕ) × Port G
  read_memory_request reference offset count p = elim (parse_address reference) [
    | none ↦ (throws (bad_number reference), p)
    | some start ↦
        let use_addr = start +ℤ offset in
        if count == 0
        then (ok (format_address use_addr, []), p)
        else (let (bytes, p') = read_memory_bytes use_addr count none p in
            (answer_with (format_address use_addr) bytes, p'))
  ]

  abbrev written_bytes : Text → Result (Unit {0}) → Result ℕ
  written_bytes hex (ok u) = ok (length hex / 2)
  written_bytes hex (throws e) = throws e

  -- The number of bytes written, for the bytes that came in base 64.
  unfoldable pub write_memory_request : Text → ℤ → List ℕ → Port G → Result ℕ × Port G
  write_memory_request reference offset data_bytes p = elim (parse_address reference) [
    | none ↦ (throws (bad_number reference), p)
    | some start ↦
        let (written, p') = write_memory_bytes (start +ℤ offset) data_bytes p in
        (written_bytes (bytes_to_hex data_bytes) written, p')
  ]
