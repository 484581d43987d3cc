-- ===== src/Itm.antt =====
-- `ITMDecoder` of packages/mcu-debug/src/common/swo/swo-core.ts: the state machine that cuts the
-- SWO byte stream into packets. A byte emits at most one event, which `process_byte` returns
-- beside the new decoder. The class `RingBuffer` of the package ring-buffer-ts is a parameter.
pub mod Sync
pub mod Inv
pub mod Window
pub mod Frames
pub mod Stream
pub mod Resync
mod Tests
use Prim.Native.Nat.{bit_and}
use mcu_debug.Prelude.{
  ℕ, ◌+◌, ◌/◌, Bool, true, false, not, Option, none, some, List, [], ◌∷◌, ◌==◌, ltb, if◌then◌else◌,
  length, set, replicate,
}
use mcu_debug.Itm.Sync.{SyncRing, is_sync}

pub data Status : Type 0 where
  idle unsynced timestamp hardware_event software_event reserved : Status

pub data PacketType : Type 0 where
  hardware software timestamp : PacketType

-- `none` is the port -1 of a timestamp.
pub record Packet : Type 0 where
  pub type : PacketType
  pub port : Option ℕ
  pub size : ℕ
  pub payload : List ℕ

-- The first argument of `emit`, with the packet that goes along.
pub data Event : Type 0 where
  synchronized overflow lost_synchronization : Event
  timestamp software_event hardware_event : Packet → Event

pub record Decoder (Buf : Type 0) : Type 0 where
  pub sync_buffer : Buf
  pub status : Status
  pub rx_count : ℕ
  pub rx_buffer : List ℕ
  pub rx_port : Option ℕ
  pub rx_target_length : ℕ
  pub rx_packet_type : PacketType
  pub timestamp : ℕ

abbrev pub length_mask : ℕ
length_mask = 0b00000011

abbrev pub hardware_mask : ℕ
hardware_mask = 0b00000100

abbrev pub port_mask : ℕ
port_mask = 0b11111000

abbrev pub timestamp_mask : ℕ
timestamp_mask = 0b00001111

-- The number of payload bytes that a header announces.
abbrev pub payload_size : ℕ → ℕ
payload_size byte = let count = bit_and byte 0x03 in if count == 3 then 4 else count

module _ {Buf : Type 0} where
  pub reset_rx_packet : Option ℕ → ℕ → PacketType → Decoder Buf → Decoder Buf
  reset_rx_packet port size type d = record d {
    rx_buffer = replicate size 0;
    rx_target_length = size;
    rx_packet_type = type;
    rx_port = port;
    rx_count = 0;
  }

  -- A byte that does not fit is dropped.
  pub rx_write_byte : ℕ → Decoder Buf → Decoder Buf
  rx_write_byte byte d =
      if ltb d.rx_count (length d.rx_buffer)
      then record d { rx_buffer = set d.rx_buffer d.rx_count byte; rx_count = d.rx_count + 1 }
      else d

  -- The result of `rxWriteByte`, read of the decoder that it leaves.
  abbrev pub rx_full : Decoder Buf → Bool
  rx_full d = d.rx_count == d.rx_target_length

  abbrev pub get_rx_packet : Decoder Buf → Packet
  get_rx_packet d = record {
    type = d.rx_packet_type;
    port = d.rx_port;
    size = d.rx_count;
    payload = d.rx_buffer;
  }

  -- The first byte of a timestamp packet, which is the only one if its top bit is clear.
  pub start_timestamp : ℕ → Decoder Buf → Decoder Buf × Option Event
  unfolding reset_rx_packet rx_write_byte
  start_timestamp byte d =
      let started =
        rx_write_byte byte
          (reset_rx_packet none 5 PacketType.timestamp (record d { timestamp = 0 })) in
      if not (bit_and byte 0x80 == 0)
      then (record started { status = Status.timestamp }, none)
      else (started, some (Event.timestamp (get_rx_packet started)))

  -- The header of a source packet.
  pub start_event : ℕ → Decoder Buf → Decoder Buf × Option Event
  unfolding reset_rx_packet
  start_event byte d =
      let port = some (bit_and byte port_mask / 8) in
      if not (bit_and byte hardware_mask == 0)
      then (
        record (reset_rx_packet port (payload_size byte) hardware d) {
          status = Status.hardware_event;
        },
        none,
      )
      else (
        record (reset_rx_packet port (payload_size byte) software d) {
          status = Status.software_event;
        },
        none,
      )

  -- `case Status.IDLE`.
  pub step_idle : ℕ → Decoder Buf → Decoder Buf × Option Event
  step_idle byte d =
      if byte == 0
      then (d, none)
      else if byte == 0b01110000
      then (d, some overflow)
      else if bit_and byte timestamp_mask == 0
      then start_timestamp byte d
      else if not (bit_and byte length_mask == 0)
      then start_event byte d
      else (record d { status = reserved }, some lost_synchronization)

  -- The `switch` on the status.
  pub step : Status → ℕ → Decoder Buf → Decoder Buf × Option Event
  unfolding step_idle rx_write_byte
  step idle byte d = step_idle byte d
  step Status.timestamp byte d =
      let d' = rx_write_byte byte d in
      if bit_and byte 0x80 == 0
      then (record d' { status = idle }, some (Event.timestamp (get_rx_packet d')))
      else (if rx_full d' then record d' { status = idle } else d', none)
  step unsynced byte d = (d, none)
  step Status.software_event byte d =
      let d' = rx_write_byte byte d in
      if rx_full d'
      then (record d' { status = idle }, some (Event.software_event (get_rx_packet d')))
      else (d', none)
  step Status.hardware_event byte d =
      let d' = rx_write_byte byte d in
      if rx_full d'
      then (record d' { status = idle }, some (Event.hardware_event (get_rx_packet d')))
      else (d', none)
  step reserved byte d = (if bit_and byte 0x80 == 0 then record d { status = idle } else d, none)

abbrev pub emitted : Option Event → List Event → List Event
emitted none events = events
emitted (some e) events = e ∷ events

module _ (ring : SyncRing) where
  open ring use {Buf, fresh, add, to_array}

  -- The constructor, which prefills the sync buffer.
  pub create : Decoder Buf
  create = record {
    sync_buffer = add (add (add (add (add (add (fresh 6) 0xff) 0xff) 0xff) 0xff) 0xff) 0xff;
    status = idle;
    rx_count = 0;
    rx_buffer = replicate 100 0;
    rx_port = none;
    rx_target_length = 0;
    rx_packet_type = software;
    timestamp = 0;
  }

  pub process_byte : ℕ → Decoder Buf → Decoder Buf × Option Event
  process_byte byte d =
      let d' : Decoder Buf = record d { sync_buffer = add d.sync_buffer byte } in
      if is_sync (to_array d'.sync_buffer)
      then (record d' { status = idle }, some synchronized)
      else step d'.status byte d'

  -- `handleData` of `SWOCore`: the bytes in turn, with the events in order.
  pub handle_data : List ℕ → Decoder Buf → Decoder Buf × List Event
  handle_data [] d = (d, [])
  handle_data (byte ∷ rest) d =
      let (d', event) = process_byte byte d in
      let (d'', events) = handle_data rest d' in (d'', emitted event events)
