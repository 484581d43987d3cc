-- ===== src/Itm/Stream.antt =====
-- The decoder over a whole stream of packets.
use mcu_debug.Prelude.{
  ℕ, zero, suc, ◌≡◌, refl, ◌∷◌, ◌≤◌, ◌++◌, arith, append_assoc, ◌≢◌, ◌∙◌, ap, ◌<◌, ◌*◌, bit_and-15,
  All, map, bit_and-128, ◌-◌, length-append,
}
use mcu_debug.Itm.Sync.{SyncRing}
use mcu_debug.Itm.Window.{
  IsPrimed, Guarded, add-IsPrimed, add-Guarded, add-Guarded_new, process_byte-step,
}
use mcu_debug.Itm.Frames.{
  Frame, IsFrame, header, encode, decoded, IsFilling, IsFilling-sync_buffer, step-last,
  step-sync_buffer, step-more, header_size, step_idle-header, start_event-IsFilling,
}
use mcu_debug.Itm.{
  idle, Event, Decoder, step, process_byte, handle_data, List, Option, Bool, none, length, [],
  step_idle, overflow, PacketType, start_timestamp, some, emitted, create,
}

-- What arrives between two packets is at rest: no packet is begun, and the window is filled.
pub record IsReady (ring : SyncRing) (d : Decoder ring.Buf) : Type 0 where
  pub at_rest : d.status ≡ idle
  pub primed : IsPrimed ring d.sync_buffer

step-idle : {Buf : Type 0} (x : ℕ) (d : Decoder Buf) → step idle x d ≡ step_idle x d
unfolding step
step-idle x d = refl

emitted-append : (o : Option Event) (es fs : List Event) → emitted o es ++ fs ≡ emitted o (es ++ fs)
emitted-append none es fs = refl
emitted-append (some e) es fs = refl

module _ (ring : SyncRing) where
  open ring use {Buf, add, to_array}

  -- These bytes make the decoder emit these events, and leave it at rest.
  pub record Reads (bytes : List ℕ) (events : List Event) (d : Decoder Buf) : Type 0 where
    pub last : Decoder Buf
    pub runs : handle_data ring bytes d ≡ (last, events)
    pub ready : IsReady ring last

  -- One byte more, which emits nothing.
  Reads-silent :
      (x : ℕ) (rest : List ℕ) (es : List Event) (d d' : Decoder Buf) {o : Option Event}
      → process_byte ring x d ≡ (d', o)
      → o ≡ none
      → Reads rest es d'
      → Reads (x ∷ rest) es d
  unfolding handle_data
  Reads-silent x rest es d d' e n r = record {
    last = r.last;
    runs = rw (e, n, r.runs);
    ready = r.ready;
  }

  fill :
      (rest : List ℕ) (hard : Bool) (port x : ℕ) (seen : List ℕ) (i : ℕ) (d : Decoder Buf)
      → IsFilling hard port seen (x ∷ rest) d
      → IsPrimed ring d.sync_buffer
      → Guarded (suc i) (to_array d.sync_buffer)
      → length rest ≤ i
      → i ≤ 4
      → Reads
          (x ∷ rest)
          (decoded (record { hard = hard; port = port; payload = seen ++ x ∷ rest }) ∷ [])
          d
  unfolding handle_data
  fill [] hard port x seen i d v w g k l =
      let d1 : Decoder Buf = record d { sync_buffer = add d.sync_buffer x } in
      let w1 = add-IsPrimed ring d.sync_buffer x w in
      let e =
        process_byte-step ring x i d w1 (add-Guarded ring d.sync_buffer x i w (omega arith) g) in
      let (rests, emits) = step-last hard port x seen d1 (IsFilling-sync_buffer d1.sync_buffer v) in
      record {
        last = (step d.status x d1).0;
        runs = rw (e, emits);
        ready = record { at_rest = rests; primed = rw (step-sync_buffer d.status x d1) w1 };
      }
  fill (y ∷ rest) hard port x seen zero d v w g k l = absurd (omega arith)
  fill (y ∷ rest) hard port x seen (suc i) d v w g k l =
      let d1 : Decoder Buf = record d { sync_buffer = add d.sync_buffer x } in
      let w1 = add-IsPrimed ring d.sync_buffer x w in
      let g1 = add-Guarded ring d.sync_buffer x (suc i) w (omega arith) g in
      let e = process_byte-step ring x (suc i) d w1 g1 in
      let (silent, filling) =
        step-more hard port x y seen rest d1 (IsFilling-sync_buffer d1.sync_buffer v) in
      let kept = step-sync_buffer d.status x d1 in
      rw (← append_assoc seen (x ∷ []) (y ∷ rest)) (
        Reads-silent x (y ∷ rest) _ d (step d.status x d1).0 e silent (
          fill rest hard port y (seen ++ x ∷ []) i (step d.status x d1).0 filling (rw kept w1)
            (rw kept g1) (omega arith) (omega arith)))

  -- A header takes the decoder from rest to the payload's first byte.
  read_header :
      (f : Frame) (d : Decoder Buf)
      → IsFrame f
      → IsReady ring d
      → (d' : Decoder Buf) × (process_byte ring (header f) d ≡ (d', none))
        × IsFilling f.hard f.port [] f.payload d'
        × IsPrimed ring d'.sync_buffer
        × Guarded 5 (to_array d'.sync_buffer)
  read_header f d v r =
      let d1 : Decoder Buf = record d { sync_buffer = add d.sync_buffer (header f) } in
      let low_bits = (header_size f v).0 in
      let w1 = add-IsPrimed ring d.sync_buffer (header f) r.primed in
      let g1 =
        add-Guarded_new ring d.sync_buffer (header f) r.primed
          (λ (e : header f ≡ 0). low_bits (omega arith))
          (λ (e : header f ≡ 0x80). low_bits (omega arith)) in
      let kept = step-sync_buffer d.status (header f) d1 in
      let e =
        ap (λ s. step s (header f) d1) r.at_rest
        ∙ (step-idle (header f) d1 ∙ step_idle-header f d1 v) in
      let begun = start_event-IsFilling f d1 v in
      (
        (step d.status (header f) d1).0,
        process_byte-step ring (header f) 5 d w1 g1
            ∙ ap (λ o. ((step d.status (header f) d1).0, o)) (ap (λ t. t.1) e ∙ begun.0),
        rw e begun.1,
        rw kept w1,
        rw kept g1,
      )

  frame-Reads :
      (payload : List ℕ) (hard : Bool) (port : ℕ) (d : Decoder Buf)
      → let f : Frame = record { hard = hard; port = port; payload = payload } in
        IsFrame f → IsReady ring d → Reads (encode f) (decoded f ∷ []) d
  frame-Reads [] hard port d v r = absurd (ground (arith, v.sized))
  frame-Reads (x ∷ rest) hard port d v r =
      let (d', e, filling, w, g) =
        read_header (record { hard = hard; port = port; payload = x ∷ rest }) d v r in
      Reads-silent _ (x ∷ rest) _ d d' e refl
        (fill rest hard port x [] 4 d' filling w g (ground (arith, v.sized)) (omega arith))

  -- To read two pieces is to read the first, and then the second.
  pub handle_data-append :
      (xs ys : List ℕ) (d : Decoder Buf)
      → let (d', es) = handle_data ring xs d in
        let (d'', fs) = handle_data ring ys d' in handle_data ring (xs ++ ys) d ≡ (d'', es ++ fs)
  unfolding handle_data
  handle_data-append [] ys d = refl
  handle_data-append (x ∷ xs) ys d =
      let (d', o) = process_byte ring x d in rw (handle_data-append xs ys d') (rw emitted-append)

  Reads-append :
      {xs ys : List ℕ} {es fs : List Event} {d : Decoder Buf} (r : Reads xs es d)
      → Reads ys fs r.last
      → Reads (xs ++ ys) (es ++ fs) d
  Reads-append {xs} {ys} {d = d} r t = record {
    last = t.last;
    runs = handle_data-append xs ys d ∙ rw (r.runs, t.runs);
    ready = t.ready;
  }

-- What the trace unit sends: source packets, overflow packets, and one-byte timestamps.
pub data Item : Type 0 where
  frame : Frame → Item
  overflow_packet : Item
  short_timestamp : ℕ → Item

-- A one-byte timestamp holds its value in three bits, and 0 or 7 would be another packet.
abbrev pub IsItem : Item → Type 0
IsItem (frame f) = IsFrame f
IsItem overflow_packet = Unit
IsItem (short_timestamp t) = (0 < t) × (t < 7)

abbrev pub wire : Item → List ℕ
wire (frame f) = encode f
wire overflow_packet = 0b01110000 ∷ []
wire (short_timestamp t) = 16 * t ∷ []

abbrev pub meaning : Item → Event
meaning (frame f) = decoded f
meaning overflow_packet = overflow
meaning (short_timestamp t) = Event.timestamp (record {
  type = PacketType.timestamp;
  port = none;
  size = 1;
  payload = 16 * t ∷ 0 ∷ 0 ∷ 0 ∷ 0 ∷ [];
})

abbrev pub wires : List Item → List ℕ
wires [] = []
wires (i ∷ is) = wire i ++ wires is

short_timestamp-step_idle :
    {Buf : Type 0} (t : ℕ) (d : Decoder Buf)
    → IsItem (short_timestamp t)
    → ((step_idle (16 * t) d).0.status ≡ d.status)
      × ((step_idle (16 * t) d).1 ≡ some (meaning (short_timestamp t)))
unfolding step_idle start_timestamp
short_timestamp-step_idle t d (p, q) =
    let b : 16 * t < 256 = omega arith in
    ground (arith, bit_and-15 (16 * t) b, bit_and-128 (16 * t) b)

overflow-step_idle : {Buf : Type 0} (d : Decoder Buf) → step_idle 0b01110000 d ≡ (d, some overflow)
unfolding step_idle
overflow-step_idle d = refl

module _ (ring : SyncRing) where
  open ring use {Buf, add}

  -- A byte that is a packet of its own.
  single-Reads :
      (x : ℕ) (e : Event) (d : Decoder Buf)
      → x ≢ 0
      → x ≢ 0x80
      → let d1 : Decoder Buf = record d { sync_buffer = add d.sync_buffer x } in
        ((step_idle x d1).0.status ≡ d1.status) × ((step_idle x d1).1 ≡ some e)
        → IsReady ring d
        → Reads ring (x ∷ []) (e ∷ []) d
  unfolding handle_data
  single-Reads x e d p q (stays, emits) r =
      let d1 : Decoder Buf = record d { sync_buffer = add d.sync_buffer x } in
      let w1 = add-IsPrimed ring d.sync_buffer x r.primed in
      let g1 = add-Guarded_new ring d.sync_buffer x r.primed p q in
      let same = ap (λ s. step s x d1) r.at_rest ∙ step-idle x d1 in
      record {
        last = (step d.status x d1).0;
        runs = rw (process_byte-step ring x 5 d w1 g1, ap (λ t. t.1) same, emits);
        ready = record {
          at_rest = ap (λ t. t.0.status) same ∙ (stays ∙ r.at_rest);
          primed = rw (step-sync_buffer d.status x d1) w1;
        };
      }

  item-Reads :
      (i : Item) (d : Decoder Buf)
      → IsItem i
      → IsReady ring d
      → Reads ring (wire i) (meaning i ∷ []) d
  item-Reads (frame f) d v r = frame-Reads ring f.payload f.hard f.port d v r
  item-Reads overflow_packet d v r =
      single-Reads 0b01110000 overflow d (omega arith) (omega arith)
        (ap (λ t. t.0.status) (overflow-step_idle _), ap (λ t. t.1) (overflow-step_idle _)) r
  item-Reads (short_timestamp t) d v r =
      single-Reads (16 * t) (meaning (short_timestamp t)) d (omega arith) (omega arith)
        (short_timestamp-step_idle t _ v) r

  items-Reads :
      (is : List Item) (d : Decoder Buf)
      → All IsItem is
      → IsReady ring d
      → Reads ring (wires is) (map meaning is) d
  items-Reads [] d v r = record { last = d; runs = unfold handle_data in refl; ready = r }
  items-Reads (i ∷ is) d (v, vs) r =
      let one = item-Reads i d v r in Reads-append ring one (items-Reads is one.last vs one.ready)

  -- From a decoder at rest, a stream of source packets, overflow packets and one-byte timestamps
  -- gives exactly their events, in order and with their payloads, and the decoder is at rest again.
  pub handle_data-wires :
      (is : List Item) (d : Decoder Buf)
      → All IsItem is
      → IsReady ring d
      → ((handle_data ring (wires is) d).1 ≡ map meaning is)
        × IsReady ring (handle_data ring (wires is) d).0
  handle_data-wires is d v r = let all = items-Reads is d v r in rw all.runs (refl, all.ready)

  -- One more item in a window with room.
  add_room :
      (b : Buf) (x : ℕ) (w : List ℕ)
      → ring.size b ≡ 6
      → ring.to_array b ≡ w
      → length w < 6
      → (ring.size (add b x) ≡ 6) × (ring.to_array (add b x) ≡ w ++ x ∷ [])
  add_room b x w s e l =
      let none_dropped : length (w ++ x ∷ []) - 6 ≡ 0 = omega (arith, length-append w (x ∷ [])) in
      (ring.size-add b x ∙ s, ring.to_array-add b x ∙ rw (e, s) (rw none_dropped))

  -- The six bytes that the constructor fills in make the window whole, so `handleData` starts at
  -- rest.
  pub create-IsReady : IsReady ring (create ring)
  unfolding create
  create-IsReady =
      let c1 = add_room _ 0xff [] (ring.size-fresh 6) (ring.to_array-fresh 6) (omega arith) in
      let c2 = add_room _ 0xff (0xff ∷ []) c1.0 c1.1 (omega arith) in
      let c3 = add_room _ 0xff (0xff ∷ 0xff ∷ []) c2.0 c2.1 (omega arith) in
      let c4 = add_room _ 0xff (0xff ∷ 0xff ∷ 0xff ∷ []) c3.0 c3.1 (omega arith) in
      let c5 = add_room _ 0xff (0xff ∷ 0xff ∷ 0xff ∷ 0xff ∷ []) c4.0 c4.1 (omega arith) in
      let c6 = add_room _ 0xff (0xff ∷ 0xff ∷ 0xff ∷ 0xff ∷ 0xff ∷ []) c5.0 c5.1 (omega arith) in
      record { at_rest = refl; primed = record { size_six = c6.0; six = ap (length {A = ℕ}) c6.1 } }
