-- ===== src/Itm/Frames.antt =====
-- The wire format of source packets, and how the decoder reads it back.
use Prim.Native.Nat.{bit_and}
use mcu_debug.Prelude.{
  ℕ, suc, ◌+◌, ◌*◌, ◌/◌, ◌%◌, ◌<◌, ◌≡◌, ◌≢◌, refl, ap, Bool, true, false, none, some, List, [], ◌∷◌,
  ◌++◌, arith, length, set, replicate, if◌then◌else◌, ◌==◌, bit_and-3, bit_and-4, bit_and-15,
  bit_and-248, length-append, append-nil,
}
use mcu_debug.Itm.Inv.{IsSize}
use mcu_debug.Itm.{
  Status, idle, PacketType, hardware, software, Packet, Event, Decoder, port_mask, hardware_mask,
  payload_size, start_event, step_idle, step, start_timestamp,
}

-- A source packet of the trace protocol: `hard` tells one of the hardware from one of a program.
pub record Frame : Type 0 where
  pub hard : Bool
  pub port : ℕ
  pub payload : List ℕ

pub record IsFrame (f : Frame) : Type 0 where
  pub port_in : f.port < 32
  pub sized : IsSize (length f.payload)

-- The header holds the port, the source and the size, where 3 stands for four bytes.
unfoldable pub header : Frame → ℕ
header f =
    f.port * 8 + (if f.hard then 4 else 0) + (if length f.payload == 4 then 3 else length f.payload)

abbrev pub encode : Frame → List ℕ
encode f = header f ∷ f.payload

abbrev pub type_of : Bool → PacketType
type_of true = hardware
type_of false = software

abbrev pub status_of : Bool → Status
status_of true = Status.hardware_event
status_of false = Status.software_event

abbrev pub event_of : Bool → Packet → Event
event_of true p = Event.hardware_event p
event_of false p = Event.software_event p

-- The event that a frame stands for.
abbrev pub decoded : Frame → Event
decoded f = event_of f.hard (record {
  type = type_of f.hard;
  port = some f.port;
  size = length f.payload;
  payload = f.payload;
})

-- `seen` has arrived, and as many bytes as `rest` has are to come.
pub record IsFilling {Buf : Type 0} (hard : Bool) (port : ℕ) (seen rest : List ℕ) (d : Decoder Buf)
    : Type 0 where
  pub status_is : d.status ≡ status_of hard
  pub type_is : d.rx_packet_type ≡ type_of hard
  pub port_is : d.rx_port ≡ some port
  pub target_is : d.rx_target_length ≡ length seen + length rest
  pub count_is : d.rx_count ≡ length seen
  pub buffer_is : d.rx_buffer ≡ seen ++ replicate (length rest) 0

set-append :
    (xs : List ℕ) (x : ℕ) (n : ℕ)
    → set (xs ++ replicate (suc n) 0) (length xs) x ≡ (xs ++ x ∷ []) ++ replicate n 0
set-append [] x n = refl
set-append (y ∷ xs) x n = ap (◌∷◌ y) (set-append xs x n)

pub header-lt : (f : Frame) → IsFrame f → header f < 256
unfolding header
header-lt f v = ground (arith, v.port_in, v.sized)

-- What the decoder reads of a header.
pub header_size :
    (f : Frame) → IsFrame f → (header f % 4 ≢ 0) × (payload_size (header f) ≡ length f.payload)
unfolding header
header_size f v = ground (arith, v.port_in, v.sized, bit_and-3 (header f) (header-lt f v))

header_port : (f : Frame) → IsFrame f → bit_and (header f) port_mask / 8 ≡ f.port
unfolding header
header_port f v = ground (arith, v.port_in, v.sized, bit_and-248 (header f) (header-lt f v))

header_hard : (f : Frame) → IsFrame f → bit_and (header f) hardware_mask ≡ (if f.hard then 4 else 0)
unfolding header
header_hard f v = ground (arith, v.port_in, v.sized, bit_and-4 (header f) (header-lt f v))

module _ {Buf : Type 0} where
  pub start_event-IsFilling :
      (f : Frame) (d : Decoder Buf)
      → IsFrame f
      → ((start_event (header f) d).1 ≡ none)
        × IsFilling f.hard f.port [] f.payload (start_event (header f) d).0
  unfolding start_event
  start_event-IsFilling f d v = ground (arith, header_hard f v, header_port f v, header_size f v)

  pub step_idle-header :
      (f : Frame) (d : Decoder Buf) → IsFrame f → step_idle (header f) d ≡ start_event (header f) d
  unfolding step_idle
  step_idle-header f d v = ground (
    arith,
    header_size f v,
    bit_and-3 (header f) (header-lt f v),
    bit_and-15 (header f) (header-lt f v),
  )

  -- A byte of the payload that is not the last.
  pub step-more :
      (hard : Bool) (port x y : ℕ) (seen rest : List ℕ) (d : Decoder Buf)
      → IsFilling hard port seen (x ∷ y ∷ rest) d
      → ((step d.status x d).1 ≡ none)
        × IsFilling hard port (seen ++ x ∷ []) (y ∷ rest) (step d.status x d).0
  unfolding step
  step-more true port x y seen rest d v = ground (
    arith,
    v.status_is,
    set-append seen x (suc (length rest)),
    length-append seen (x ∷ []),
    length-append seen (replicate (suc (suc (length rest))) 0),
  )
  step-more false port x y seen rest d v = ground (
    arith,
    v.status_is,
    set-append seen x (suc (length rest)),
    length-append seen (x ∷ []),
    length-append seen (replicate (suc (suc (length rest))) 0),
  )

  -- The last byte.
  pub step-last :
      (hard : Bool) (port x : ℕ) (seen : List ℕ) (d : Decoder Buf)
      → IsFilling hard port seen (x ∷ []) d
      → ((step d.status x d).0.status ≡ idle)
        × ((step d.status x d).1
            ≡ some (decoded (record { hard = hard; port = port; payload = seen ++ x ∷ [] })))
  unfolding step
  step-last true port x seen d v = ground (
    arith,
    v.status_is,
    set-append seen x 0,
    length-append seen (x ∷ []),
    length-append seen (0 ∷ []),
    append-nil (seen ++ x ∷ []),
  )
  step-last false port x seen d v = ground (
    arith,
    v.status_is,
    set-append seen x 0,
    length-append seen (x ∷ []),
    length-append seen (0 ∷ []),
    append-nil (seen ++ x ∷ []),
  )

  pub step-sync_buffer :
      (s : Status) (x : ℕ) (d : Decoder Buf) → (step s x d).0.sync_buffer ≡ d.sync_buffer
  unfolding step
  step-sync_buffer idle x d = unfold step_idle start_event start_timestamp in ground arith
  step-sync_buffer _ x d = ground arith

pub IsFilling-sync_buffer :
    {Buf : Type 0} {hard : Bool} {port : ℕ} {seen rest : List ℕ} {d : Decoder Buf} (b : Buf)
    → IsFilling hard port seen rest d
    → IsFilling hard port seen rest (record d { sync_buffer = b })
IsFilling-sync_buffer b v = record {
  status_is = v.status_is;
  type_is = v.type_is;
  port_is = v.port_is;
  target_is = v.target_is;
  count_is = v.count_is;
  buffer_is = v.buffer_is;
}
