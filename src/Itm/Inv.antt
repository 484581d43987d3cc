-- ===== src/Itm/Inv.antt =====
-- What holds of the decoder between two bytes, and of each packet that it emits.
use Prim.Native.Nat.{bit_and}
use mcu_debug.Prelude.{
  ℕ, ◌≤◌, ◌<◌, ◌≡◌, refl, ◌⊎◌, inl, inr, Option, none, some, List, [], ◌∷◌, arith, Bool-cases,
  length, length-set, length-replicate, bit_and-3, bit_and-248, All, ◌≢◌,
}
use mcu_debug.Itm.Sync.{SyncRing, is_sync}
use mcu_debug.Itm.{
  Status, idle, unsynced, reserved, PacketType, hardware, software, Packet, Event, synchronized,
  overflow, lost_synchronization, Decoder, payload_size, start_timestamp, start_event, step_idle,
  step, create, emitted, process_byte, handle_data,
}

-- A port fits the five bits of a header.
abbrev pub IsPort : Option ℕ → Type 0
IsPort (some p) = p < 32
IsPort none = ⊥

abbrev pub IsSize : ℕ → Type 0
IsSize n = (n ≡ 1) ⊎ ((n ≡ 2) ⊎ (n ≡ 4))

-- A payload of `d.rx_target_length` bytes is on its way and not complete.
abbrev Awaits : PacketType → {Buf : Type 0} → Decoder Buf → Type 0
Awaits type d =
    (d.rx_packet_type ≡ type)
    × IsPort d.rx_port
    × IsSize d.rx_target_length
    × (length d.rx_buffer ≡ d.rx_target_length)
    × (d.rx_count < d.rx_target_length)

abbrev StatusInv : {Buf : Type 0} → Status → Decoder Buf → Type 0
StatusInv idle d = Unit
StatusInv reserved d = Unit
StatusInv unsynced d = ⊥
StatusInv Status.timestamp d =
    (d.rx_packet_type ≡ PacketType.timestamp)
    × (d.rx_port ≡ none)
    × (d.rx_target_length ≡ 5)
    × (length d.rx_buffer ≡ 5)
    × (0 < d.rx_count)
    × (d.rx_count < 5)
StatusInv Status.software_event d = Awaits software d
StatusInv Status.hardware_event d = Awaits hardware d

-- A packet holds as many bytes as its header says; `UNSYNCED` is never entered.
abbrev pub IsValid : {Buf : Type 0} → Decoder Buf → Type 0
IsValid d = StatusInv d.status d

abbrev pub IsFramed : PacketType → Packet → Type 0
IsFramed type p = (p.type ≡ type) × IsPort p.port × IsSize p.size × (length p.payload ≡ p.size)

abbrev pub IsWellFormed : Event → Type 0
IsWellFormed synchronized = Unit
IsWellFormed overflow = Unit
IsWellFormed lost_synchronization = Unit
IsWellFormed (Event.timestamp p) =
    (p.type ≡ PacketType.timestamp)
    × (p.port ≡ none)
    × (length p.payload ≡ 5)
    × (0 < p.size)
    × (p.size ≤ 5)
IsWellFormed (Event.software_event p) = IsFramed software p
IsWellFormed (Event.hardware_event p) = IsFramed hardware p

abbrev pub Emits : Option Event → Type 0
Emits none = Unit
Emits (some e) = IsWellFormed e

module _ {Buf : Type 0} where
  start_timestamp-StatusInv :
      (byte : ℕ) (d : Decoder Buf)
      → d.status ≡ idle
      → IsValid (start_timestamp byte d).0 × Emits (start_timestamp byte d).1
  unfolding start_timestamp
  start_timestamp-StatusInv byte d e = ground arith

  start_event-StatusInv :
      (byte : ℕ) (d : Decoder Buf)
      → byte < 256
      → bit_and byte 3 ≢ 0
      → IsValid (start_event byte d).0 × Emits (start_event byte d).1
  unfolding start_event
  start_event-StatusInv byte d b h =
      ground (
        arith,
        bit_and-3 byte b,
        bit_and-248 byte b,
        length-replicate {A = ℕ} (payload_size byte) 0,
      )

  step_idle-StatusInv :
      (byte : ℕ) (d : Decoder Buf)
      → d.status ≡ idle
      → byte < 256
      → IsValid (step_idle byte d).0 × Emits (step_idle byte d).1
  unfolding step_idle
  step_idle-StatusInv byte d e b =
      ground (arith, start_timestamp-StatusInv byte d e, start_event-StatusInv byte d b)

  step-StatusInv :
      (s : Status) (byte : ℕ) (d : Decoder Buf)
      → d.status ≡ s
      → byte < 256
      → StatusInv s d
      → IsValid (step s byte d).0 × Emits (step s byte d).1
  unfolding step
  step-StatusInv idle byte d e b v = step_idle-StatusInv byte d e b
  step-StatusInv unsynced byte d e b v = absurd v
  step-StatusInv _ byte d e b v = ground (arith, length-set d.rx_buffer d.rx_count byte)

StatusInv-sync_buffer :
    {Buf : Type 0} (s : Status) (b : Buf) (d : Decoder Buf)
    → StatusInv s d
    → StatusInv s (record d { sync_buffer = b })
StatusInv-sync_buffer idle b d v = v
StatusInv-sync_buffer _ b d v = v

All-emitted :
    (o : Option Event) (es : List Event)
    → Emits o
    → All IsWellFormed es
    → All IsWellFormed (emitted o es)
All-emitted none es v vs = vs
All-emitted (some e) es v vs = (v, vs)

module _ (ring : SyncRing) where
  open ring use {Buf}

  -- The decoder starts valid.
  pub create-IsValid : IsValid (create ring)
  unfolding create
  create-IsValid = tt

  -- A byte keeps the decoder valid, and the event that it may emit is well formed.
  pub process_byte-IsValid :
      (byte : ℕ) (d : Decoder Buf)
      → byte < 256
      → IsValid d
      → IsValid (process_byte ring byte d).0 × Emits (process_byte ring byte d).1
  unfolding process_byte
  process_byte-IsValid byte d b v =
      let d' : Decoder Buf = record d { sync_buffer = ring.add d.sync_buffer byte } in
      elim (Bool-cases (is_sync (ring.to_array d'.sync_buffer))) [
        | inl hit ↦ rw hit (tt, tt)
        | inr miss ↦ rw miss (
            step-StatusInv d.status byte d' refl b
              (StatusInv-sync_buffer d.status d'.sync_buffer d v))
      ]

  -- Whatever bytes come, the decoder stays valid, and each packet that it emits holds the number
  -- of bytes and the port that its header can announce.
  pub handle_data-IsValid :
      (bytes : List ℕ) (d : Decoder Buf)
      → All (λ b. b < 256) bytes
      → IsValid d
      → IsValid (handle_data ring bytes d).0 × All IsWellFormed (handle_data ring bytes d).1
  unfolding handle_data
  handle_data-IsValid [] d b v = (v, tt)
  handle_data-IsValid (byte ∷ rest) d (b, bs) v =
      let one = process_byte-IsValid byte d b v in
      let more = handle_data-IsValid rest (process_byte ring byte d).0 bs one.0 in
      (more.0, All-emitted (process_byte ring byte d).1 _ one.1 more.1)
