-- ===== src/Itm/Resync.antt =====
-- How the decoder finds the packets again after bytes that it could not read.
use mcu_debug.Itm.Frames.{step-sync_buffer}
use mcu_debug.Itm.Window.{IsPrimed, add-IsPrimed, six_bytes, to_array-add_primed}
use mcu_debug.Itm.Stream.{
  Item, IsItem, wires, meaning, IsReady, handle_data-wires, handle_data-append,
}
use mcu_debug.Prelude.{
  zero, suc, ℕ, ◌≡◌, refl, List, [], ◌∷◌, ◌++◌, ◌∙◌, suc, All, Bool-cases, ap, inl, inr, map,
  replicate, true, some,
}
use mcu_debug.Itm.Sync.{SyncRing, is_sync}
use mcu_debug.Itm.{Decoder, Event, handle_data, process_byte, idle, synchronized}

module _ (ring : SyncRing) where
  open ring use {Buf, add, to_array}

  process_byte-sync_buffer :
      (x : ℕ) (d : Decoder Buf) → (process_byte ring x d).0.sync_buffer ≡ add d.sync_buffer x
  unfolding process_byte
  process_byte-sync_buffer x d =
      let d1 : Decoder Buf = record d { sync_buffer = add d.sync_buffer x } in
      elim (Bool-cases (is_sync (to_array d1.sync_buffer))) [
        | inl hit ↦ rw hit
        | inr miss ↦ rw miss (step-sync_buffer d.status x d1)
      ]

  -- The window after `n` zeros.
  after_zeros : ℕ → Buf → Buf
  after_zeros zero b = b
  after_zeros (suc n) b = after_zeros n (add b 0)

  handle_data-zeros :
      (n : ℕ) (d : Decoder Buf)
      → (handle_data ring (replicate n 0) d).0.sync_buffer ≡ after_zeros n d.sync_buffer
  unfolding handle_data after_zeros
  handle_data-zeros zero d = refl
  handle_data-zeros (suc n) d =
      let d' = (process_byte ring 0 d).0 in
      handle_data-zeros n d' ∙ ap (after_zeros n) (process_byte-sync_buffer 0 d)

  -- Five zeros and 0x80 fill the window with the sync pattern.
  sync_seen :
      (b : Buf)
      → IsPrimed ring b
      → IsPrimed ring (add (after_zeros 5 b) 0x80)
        × (is_sync (to_array (add (after_zeros 5 b) 0x80)) ≡ true)
  unfolding after_zeros is_sync
  sync_seen b v =
      let v1 = add-IsPrimed ring b 0 v in
      let v2 = add-IsPrimed ring _ 0 v1 in
      let v3 = add-IsPrimed ring _ 0 v2 in
      let v4 = add-IsPrimed ring _ 0 v3 in
      let v5 = add-IsPrimed ring _ 0 v4 in
      let (p, q, r, s, t, u, split) = six_bytes (to_array b) v.six in
      (
        add-IsPrimed ring _ 0x80 v5,
        rw (to_array-add_primed ring _ 0x80 v5) (
            rw (to_array-add_primed ring _ 0 v4) (
              rw (to_array-add_primed ring _ 0 v3) (
                rw (to_array-add_primed ring _ 0 v2) (
                  rw (to_array-add_primed ring _ 0 v1)
                    (rw (to_array-add_primed ring b 0 v) (rw split)))))),
      )

  -- The sync packet.
  abbrev pub sync_packet : List ℕ
  sync_packet = replicate 5 0 ++ 0x80 ∷ []

  -- At the last byte of the sync packet the decoder emits `synchronized` and is at rest, in
  -- whatever state it was.
  process_byte-sync :
      (d : Decoder Buf)
      → is_sync (to_array (add d.sync_buffer 0x80)) ≡ true
      → process_byte ring 0x80 d
        ≡ (record d { sync_buffer = add d.sync_buffer 0x80; status = idle }, some synchronized)
  unfolding process_byte
  process_byte-sync d h = rw h

  handle_data-first :
      (rest : List ℕ) (d : Decoder Buf)
      → is_sync (to_array (add d.sync_buffer 0x80)) ≡ true
      → let (d', es) =
          handle_data ring rest
            (record d { sync_buffer = add d.sync_buffer 0x80; status = idle }) in
        handle_data ring (0x80 ∷ rest) d ≡ (d', synchronized ∷ es)
  unfolding handle_data
  handle_data-first rest d h = rw (process_byte-sync d h)

  -- From every state, also one in which the stream was misread, a sync packet is followed by
  -- `synchronized` and by the events of the packets behind it, and by nothing else.
  pub handle_data-sync_packet :
      (is : List Item) (d : Decoder Buf)
      → All IsItem is
      → IsPrimed ring d.sync_buffer
      → (noise : List Event) × ((handle_data ring (sync_packet ++ wires is) d).1
          ≡ noise ++ synchronized ∷ map meaning is)
        × IsReady ring (handle_data ring (sync_packet ++ wires is) d).0
  handle_data-sync_packet is d v p =
      let (d5, noise) = handle_data ring (replicate 5 0) d in
      let seen = sync_seen d.sync_buffer p in
      let same = handle_data-zeros 5 d in
      let at_rest : Decoder Buf = record d5 {
        sync_buffer = add d5.sync_buffer 0x80;
        status = idle;
      } in
      let ready : IsReady ring at_rest = record { at_rest = refl; primed = rw same seen.0 } in
      let rest = handle_data-wires ring is at_rest v ready in
      let runs =
        handle_data-append ring (replicate 5 0) (0x80 ∷ wires is) d
        ∙ ap (λ t. (t.0, noise ++ t.1)) (handle_data-first (wires is) d5 (rw same seen.1)) in
      (noise, rw (runs, rest.0), rw runs rest.1)
