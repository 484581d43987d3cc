-- ===== src/Itm/Tests.antt =====
-- Runs of the decoder over a ring buffer kept as a list, and its theorems at concrete inputs.
use mcu_debug.Itm.Frames.{header}
use mcu_debug.Itm.Resync.{sync_packet, handle_data-sync_packet}
use mcu_debug.Itm.Stream.{wires, Item, IsItem, meaning, IsReady, handle_data-wires, create-IsReady}
use mcu_debug.Itm.Inv.{IsValid, IsWellFormed, handle_data-IsValid}
use mcu_debug.Prelude.{
  ℕ, ◌≡◌, refl, List, [], ◌∷◌, ◌++◌, ◌-◌, arith, All, drop, false, length, map, inr, true, inl,
  none,
}
use mcu_debug.Itm.Sync.{SyncRing}
use mcu_debug.Itm.{Decoder, Event, handle_data, synchronized, create, Status, PacketType}

record Listed : Type 0 where
  limit : ℕ
  items : List ℕ

abbrev listed : SyncRing
listed = record {
  Buf = Listed;
  fresh = λ n. record { limit = n; items = [] };
  size = λ b. b.limit;
  add = λ b x. record b { items = drop (length (b.items ++ x ∷ []) - b.limit) (b.items ++ x ∷ []) };
  to_array = λ b. b.items;
  size-fresh = λ n. refl;
  size-add = λ b x. refl;
  to_array-fresh = λ n. refl;
  to_array-add = λ b x. refl;
}

-- A software packet of four bytes on port 3, and a hardware packet of one byte on port 2.
abbrev two_frames : List Item
two_frames =
    Item.frame (record { hard = false; port = 3; payload = 0 ∷ 0 ∷ 0 ∷ 0 ∷ [] })
    ∷ Item.frame (record { hard = true; port = 2; payload = 0x80 ∷ [] })
    ∷ Item.short_timestamp 2
    ∷ Item.overflow_packet
    ∷ []

two_frames-All : All IsItem two_frames
two_frames-All = (
  record { port_in = omega arith; sized = inr (inr refl) },
  (record { port_in = omega arith; sized = inl refl }, ((omega arith, omega arith), (tt, tt))),
)

-- In the middle of a timestamp, with a window that was filled by other bytes.
abbrev lost : Decoder Listed
lost = record (create listed) {
  sync_buffer = record { limit = 6; items = 1 ∷ 2 ∷ 3 ∷ 0xc0 ∷ 0x81 ∷ 0x80 ∷ [] };
  status = Status.timestamp;
  rx_buffer = 0xc0 ∷ 0x81 ∷ 0x80 ∷ 0 ∷ 0 ∷ [];
  rx_packet_type = PacketType.timestamp;
  rx_target_length = 5;
  rx_count = 3;
  rx_port = none;
}

wires_run : wires two_frames ≡ 0x1b ∷ 0 ∷ 0 ∷ 0 ∷ 0 ∷ 0x15 ∷ 0x80 ∷ 0x20 ∷ 0x70 ∷ []
unfolding header
wires_run = refl

handle_data-IsValid_example :
    IsValid (handle_data listed (0x1b ∷ 0 ∷ 0xc0 ∷ []) lost).0
    × All IsWellFormed (handle_data listed (0x1b ∷ 0 ∷ 0xc0 ∷ []) lost).1
handle_data-IsValid_example =
    handle_data-IsValid listed (0x1b ∷ 0 ∷ 0xc0 ∷ []) lost (omega arith)
      (refl, refl, refl, refl, omega arith, omega arith)

handle_data-wires_example :
    ((handle_data listed (wires two_frames) (create listed)).1 ≡ map meaning two_frames)
    × IsReady listed (handle_data listed (wires two_frames) (create listed)).0
handle_data-wires_example =
    handle_data-wires listed two_frames (create listed) two_frames-All (create-IsReady listed)

handle_data-sync_packet_example :
    (noise : List Event) × ((handle_data listed (sync_packet listed ++ wires two_frames) lost).1
      ≡ noise ++ synchronized ∷ map meaning two_frames)
    × IsReady listed (handle_data listed (sync_packet listed ++ wires two_frames) lost).0
handle_data-sync_packet_example =
    handle_data-sync_packet listed two_frames lost two_frames-All
      (record { size_six = refl; six = refl })
