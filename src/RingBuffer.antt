-- ===== src/RingBuffer.antt =====
-- `BinaryRingBuffer` of packages/mcu-debug/src/common/ring-buffer.ts: a byte ring that
-- overwrites its oldest byte. A method that mutates `this` returns the new record.
pub mod Queue
pub mod Refine
mod Tests
use mcu_debug.Prelude.{
  ℕ, ◌+◌, ◌-◌, ◌%◌, Bool, true, false, not, ◌&&◌, Option, none, some, List, [], ◌∷◌, ◌++◌, ◌==◌,
  leb, if◌then◌else◌, get_elem?, set, take, drop, replicate,
}

pub record Ring : Type 0 where
  pub buffer : List ℕ
  pub head : ℕ
  pub tail : ℕ
  pub is_full : Bool
  pub capacity : ℕ

-- `constructor`; `Buffer.alloc` fills with zeros.
unfoldable pub create : ℕ → Ring
create capacity = record {
  buffer = replicate capacity 0;
  head = 0;
  tail = 0;
  is_full = false;
  capacity = capacity;
}

unfoldable pub is_empty : Ring → Bool
is_empty r = r.head == r.tail && not r.is_full

-- A `Buffer` keeps the low eight bits of what is stored into it. The two assignments after the
-- `if` read the `head` that it leaves.
unfoldable pub write : Ring → ℕ → Ring
write r byte =
    let head = if r.is_full then (r.head + 1) % r.capacity else r.head in
    let tail = (r.tail + 1) % r.capacity in
    record r {
      buffer = set r.buffer r.tail (byte % 256);
      head = head;
      tail = tail;
      is_full = tail == head;
    }

-- The `for` loop over the bytes of a `Buffer`.
unfoldable pub write_buffer : Ring → List ℕ → Ring
write_buffer r [] = r
write_buffer r (byte ∷ rest) = write_buffer (write r byte) rest

-- The byte read, or `none` for `null`, beside the new ring. The outer option of `get_elem?` is
-- `none` only for a `head` outside of the buffer, which `IsValid` rules out.
unfoldable pub read : Ring → Option ℕ × Ring
read r =
    if r.tail == r.head && not r.is_full
    then (none, r)
    else (get_elem? r.buffer r.head, record r { head = (r.head + 1) % r.capacity; is_full = false })

-- `Buffer.subarray(start, end)` at `start ≤ end`.
abbrev pub subarray : List ℕ → ℕ → ℕ → List ℕ
subarray b start end = drop start (take end b)

unfoldable pub snapshot : Ring → List ℕ
snapshot r =
    if r.is_full
    then drop r.head r.buffer ++ subarray r.buffer 0 r.head
    else if leb r.head r.tail
    then subarray r.buffer r.head r.tail
    else drop r.head r.buffer ++ subarray r.buffer 0 r.tail

unfoldable pub clear : Ring → Ring
clear r = record r { head = 0; tail = 0; is_full = false }
