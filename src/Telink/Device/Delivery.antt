-- ===== src/Telink/Device/Delivery.antt =====
-- A command that `_send_now` delivers after some failed writes.
use tuya_ble_mesh.Prelude.{
  ℕ, zero, suc, ◌+◌, ◌^◌, ◌≤◌, ◌<◌, ◌≡◌, refl, arith, true, none, some, List, [], ◌∷◌,
}
use tuya_ble_mesh.Prelude.{length, ok, Error}
use tuya_ble_mesh.Prelude.Int.{pos}
use tuya_ble_mesh.Bytes.{Bytes, rstrip_zeros}
use tuya_ble_mesh.Telink.Crypto.{BlockCipher}
use tuya_ble_mesh.Telink.Packet.{decode_command_packet}
use tuya_ble_mesh.Telink.Packet.Command.{decode-encode_command_packet}
use tuya_ble_mesh.Telink.Device.{
  TelinkDevice, WriteAttempt, is_retried, retry_write, write_packet, make_packet,
}
use tuya_ble_mesh.Telink.Device.{require_session_key, next_sequence, send_now}

module _ (aes : BlockCipher) (mac : Bytes) (hm : length mac ≡ 6) where
  -- An attempt with a session key, its own one, and a number in range.
  abbrev pub Ready : WriteAttempt → Type 0
  Ready found =
      (key : Bytes) × (found.session_key ≡ some key) × (length key ≡ 16) × (found.sequence < 2 ^ 24)

  -- From one attempt on, so many writes fail with an exception that is retried; the next does not.
  abbrev pub FailsThenWrites : (ℕ → WriteAttempt) → ℕ → ℕ → Type 0
  FailsThenWrites found attempt zero = Ready (found attempt) × ((found attempt).write ≡ none)
  FailsThenWrites found attempt (suc failures) =
      Ready (found attempt)
      × (((e : Error) × (((found attempt).write ≡ some e) × (is_retried e ≡ true)))
          × FailsThenWrites found (attempt + 1) failures)

  -- Under the session key of its attempt the packet decodes to the command.
  abbrev pub Decodes : WriteAttempt → ℕ → ℕ → ℕ → ℕ → Bytes → Bytes → Type 0
  Decodes found dest_id opcode v w params packet =
      (key : Bytes) × (found.session_key ≡ some key)
      × (decode_command_packet aes key mac packet
          ≡ ok (record {
            sequence = found.sequence;
            dest_id = dest_id;
            opcode = opcode;
            vendor_id = v ∷ w ∷ [];
            params = rstrip_zeros params;
          }))

  -- The packets of the attempts from one on all decode to the command, each with its own number.
  abbrev pub Carry : (ℕ → WriteAttempt) → ℕ → ℕ → ℕ → ℕ → ℕ → Bytes → List Bytes → Type 0
  Carry found attempt dest_id opcode v w params [] = Unit
  Carry found attempt dest_id opcode v w params (packet ∷ packets) =
      Decodes (found attempt) dest_id opcode v w params packet
      × Carry found (attempt + 1) dest_id opcode v w params packets

  make_packet-Decodes :
      (found : WriteAttempt) (d : TelinkDevice) (dest_id opcode v w : ℕ) (params : Bytes)
      → d.mac_bytes ≡ mac
      → d.vendor_id ≡ v ∷ w ∷ []
      → dest_id < 2 ^ 16
      → opcode < 256
      → length params ≤ 10
      → Ready found
      → (packet : Bytes) × (make_packet aes d (pos dest_id) (pos opcode) params found ≡ ok packet)
        × Decodes found dest_id opcode v w params packet
  unfolding make_packet require_session_key next_sequence
  make_packet-Decodes found d dest_id opcode v w params hmac hv hd ho hp (key, keyed, hk, small) =
      let (packet, made, size, decodes) =
        decode-encode_command_packet aes key mac hk hm found.sequence dest_id opcode v w params
          small hd ho hp in
      (packet, rw (keyed, hmac, hv) made, (key, keyed, decodes))

  -- Each attempt finds a session key, where the one before failed that of a connection made again in
  -- the delay, and a number below 2^24, and the arguments are in range: where the first writes fail
  -- with an exception that is retried, fewer than `max_retries` of them, and the next does not,
  -- `_send_now` returns; it wrote one packet per attempt, and each of them decodes to the command
  -- under the key of its attempt, with the number that the attempt took.
  pub send_now-Carry :
      (failures max_retries attempt : ℕ) (found : ℕ → WriteAttempt) (d : TelinkDevice)
      (dest_id opcode v w : ℕ) (params : Bytes)
      → d.mac_bytes ≡ mac
      → d.vendor_id ≡ v ∷ w ∷ []
      → dest_id < 2 ^ 16
      → opcode < 256
      → length params ≤ 10
      → failures < max_retries
      → FailsThenWrites found attempt failures
      → let sent = send_now aes max_retries found attempt d (pos opcode) params (pos dest_id) in
        (sent.outcome ≡ ok tt)
        × ((length sent.packets ≡ failures + 1)
            × Carry found attempt dest_id opcode v w params sent.packets)
  unfolding send_now write_packet retry_write
  send_now-Carry zero (suc left) attempt found d dest_id opcode v w params hmac hv hd ho hp h
        (ready, written) =
      let (packet, made, decodes) =
        make_packet-Decodes (found attempt) d dest_id opcode v w params hmac hv hd ho hp ready in
      rw (written, made) (refl, (refl, (decodes, tt)))
  send_now-Carry (suc failures) (suc (suc left)) attempt found d dest_id opcode v w params hmac hv
        hd ho hp h (ready, ((e, (failed, again)), later)) =
      let (packet, made, decodes) =
        make_packet-Decodes (found attempt) d dest_id opcode v w params hmac hv hd ho hp ready in
      let (returns, (counted, carried)) =
        send_now-Carry failures (suc left) (attempt + 1) found d dest_id opcode v w params hmac hv
          hd ho hp (omega (arith, h)) later in
      rw (failed, made, again) (returns, (omega (arith, counted), (decodes, carried)))
  send_now-Carry failures max_retries attempt found d dest_id opcode v w params hmac hv hd ho hp h
        _ =
      absurd (omega (arith, h))
