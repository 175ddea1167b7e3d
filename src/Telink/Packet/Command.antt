-- ===== src/Telink/Packet/Command.antt =====
-- Command packets both ways: `encode_command_packet` and `decode_command_packet`.
use tuya_ble_mesh.Prelude.{ℕ, ◌-◌, ◌^◌, ◌≤◌, ◌<◌, ◌≡◌, refl, sym, ap, ◌∙◌, arith}
use tuya_ble_mesh.Prelude.{subst, [], ◌∷◌, ◌++◌, ok, length, take}
use tuya_ble_mesh.Prelude.{
  length-append, take_all, length-take, take-append, drop-append, >>=-eq-ok,
}
use tuya_ble_mesh.Prelude.{inl, inr, Bool-cases, ◌==◌}
use tuya_ble_mesh.Prelude.Int.{pos}
use tuya_ble_mesh.Bytes.{Bytes, IsBytes, zeros, le_digits, from_bytes_le, rstrip_zeros}
use tuya_ble_mesh.Bytes.Words.{from_bytes_le-le_digits, le_digits-from_bytes_le}
use tuya_ble_mesh.Bytes.Strings.{
  rstrip_zeros-append_zeros, rstrip_zeros_pad, length-rstrip_zeros-le,
}
use tuya_ble_mesh.Telink.Crypto.{BlockCipher, crypt_payload, verify_checksum}
use tuya_ble_mesh.Telink.Crypto.Counter.{crypt_payload_involutive, crypt_payload-IsBytes}
use tuya_ble_mesh.Telink.Crypto.Checksum.{full_mac, make_checksum-full_mac}
use tuya_ble_mesh.Telink.Crypto.Checksum.{verify_checksum_decides, verify_checksum_accepts}
use tuya_ble_mesh.Telink.Packet.{CommandPacket, parse_command_payload}
use tuya_ble_mesh.Telink.Packet.{
  encode_command_payload, encode_command_packet, decode_command_packet,
}
use tuya_ble_mesh.Telink.Packet.Layout.{command_nonce, build_nonce-command_nonce, command_payload}
use tuya_ble_mesh.Telink.Packet.Layout.{length-command_payload, sequence_bytes-le_digits}
use tuya_ble_mesh.Telink.Packet.Layout.{encode_command_payload-command_payload}

parse_command_payload-command_payload :
    (sequence dest_id opcode v w : ℕ) (params : Bytes)
    → dest_id < 2 ^ 16
    → parse_command_payload sequence (command_payload dest_id opcode v w params)
      ≡ ok (record {
        sequence = sequence;
        dest_id = dest_id;
        opcode = opcode;
        vendor_id = v ∷ w ∷ [];
        params = rstrip_zeros params;
      })
unfolding parse_command_payload command_payload
parse_command_payload-command_payload sequence dest_id opcode v w params hd =
    rw (from_bytes_le-le_digits 2 dest_id hd, rstrip_zeros-append_zeros params (10 - length params))
      refl

abbrev fields_of : ℕ → ℕ → ℕ → ℕ → ℕ → Bytes → CommandPacket
fields_of sequence dest_id opcode v w params = record {
  sequence = sequence;
  dest_id = dest_id;
  opcode = opcode;
  vendor_id = v ∷ w ∷ [];
  params = params;
}

-- What a payload of 15 bytes parses to encodes back to that payload.
encode-parse_command_payload :
    (sequence : ℕ) (payload : Bytes) {fields : CommandPacket}
    → IsBytes payload
    → length payload ≡ 15
    → parse_command_payload sequence payload ≡ ok fields
    → (fields.sequence ≡ sequence)
      × (encode_command_payload
            (pos fields.dest_id)
            (pos fields.opcode)
            fields.params
            fields.vendor_id
          ≡ ok payload)
unfolding parse_command_payload command_payload
encode-parse_command_payload sequence (a ∷ b ∷ c ∷ v ∷ w ∷ rest) {fields} h size e =
    let dest = from_bytes_le (a ∷ b ∷ []) in
    let kept = rstrip_zeros rest in
    let fits : length kept ≤ 10 = omega (arith, length-rstrip_zeros-le rest) in
    let pad : 10 ≡ length rest = omega arith in
    let wide : dest < 2 ^ 16 = omega arith in
    let whole : kept ++ zeros (10 - length kept) ≡ rest =
      ap (λ (n : ℕ). kept ++ zeros (n - length kept)) pad ∙ rstrip_zeros_pad rest in
    let same : command_payload dest c v w kept ≡ a ∷ b ∷ c ∷ v ∷ w ∷ rest =
      ap (λ (t : Bytes). le_digits 2 dest ++ (c ∷ v ∷ w ∷ t)) whole
      ∙ ap (λ (d : Bytes). d ++ (c ∷ v ∷ w ∷ rest))
          (le_digits-from_bytes_le (a ∷ b ∷ []) (h.0, (h.1.0, tt))) in
    let found : fields_of sequence dest c v w kept ≡ fields = cc in
    subst
      (λ (f : CommandPacket).
        (f.sequence ≡ sequence)
        × (encode_command_payload (pos f.dest_id) (pos f.opcode) f.params f.vendor_id
            ≡ ok (a ∷ b ∷ c ∷ v ∷ w ∷ rest)))
      found
      (refl, encode_command_payload-command_payload dest c v w kept wide h.1.1.0 fits ∙ ap ok same)
encode-parse_command_payload sequence _ h size e = absurd (omega arith)

module _ (aes : BlockCipher) (key mac : Bytes) (hk : length key ≡ 16) (hm : length mac ≡ 6) where
  two_of_mac : ℕ → Bytes → Bytes
  two_of_mac sequence payload = take 2 (full_mac aes key (command_nonce mac sequence) payload)

  length-two_of_mac :
      (sequence : ℕ) (payload : Bytes)
      → length payload ≡ 15
      → length (two_of_mac sequence payload) ≡ 2
  unfolding two_of_mac
  length-two_of_mac sequence payload hp = omega (
    arith,
    length-take 2 (full_mac aes key (command_nonce mac sequence) payload),
    (make_checksum-full_mac aes key (command_nonce mac sequence) payload hk (omega arith)).1,
  )

  -- A packet whose cipher text decrypts to `payload` under its own sequence number and whose two
  -- MAC bytes are those of `payload` decodes to the fields of `payload`.
  decode_sealed :
      (sequence : ℕ) (payload cipher : Bytes)
      → sequence < 2 ^ 24
      → length payload ≡ 15
      → length cipher ≡ 15
      → crypt_payload aes key (command_nonce mac sequence) cipher ≡ ok payload
      → decode_command_packet aes key mac
          (le_digits 3 sequence ++ two_of_mac sequence payload ++ cipher)
        ≡ parse_command_payload sequence payload
  unfolding decode_command_packet two_of_mac
  decode_sealed sequence payload cipher hs hp hc opens =
      let two = two_of_mac sequence payload in
      let size = length-two_of_mac sequence payload hp in
      let total : length (two ++ cipher) ≡ 17 = omega (arith, length-append two cipher, size) in
      let (accepts, _) =
        verify_checksum_decides aes key (command_nonce mac sequence) payload two hk (omega arith) in
      rw
        (
          total,
          from_bytes_le-le_digits 3 sequence hs,
          take-append 2 two cipher size,
          drop-append 2 two cipher size,
          build_nonce-command_nonce mac sequence hm hs,
          opens,
          accepts.1 (sym (take_all 2 two (omega arith))),
        )
        refl

  -- Decoding what encoding returned gives the fields back, with the zeros at the end of the
  -- parameters stripped: for every 24-bit sequence number, 16-bit address, one-byte opcode, two
  -- vendor bytes and up to 10 bytes of parameters, under a key of 16 bytes and an address of 6.
  -- The packet has 20 bytes.
  pub decode-encode_command_packet :
      (sequence dest_id opcode v w : ℕ) (params : Bytes)
      → sequence < 2 ^ 24
      → dest_id < 2 ^ 16
      → opcode < 256
      → length params ≤ 10
      → (packet : Bytes) × (encode_command_packet aes key mac
            (pos sequence)
            (pos dest_id)
            (pos opcode)
            params
            (v ∷ w ∷ [])
          ≡ ok packet)
        × (length packet ≡ 20)
        × (decode_command_packet aes key mac packet
            ≡ ok (record {
              sequence = sequence;
              dest_id = dest_id;
              opcode = opcode;
              vendor_id = v ∷ w ∷ [];
              params = rstrip_zeros params;
            }))
  unfolding encode_command_packet two_of_mac
  decode-encode_command_packet sequence dest_id opcode v w params hs hd ho hp =
      let nonce = command_nonce mac sequence in
      let payload = command_payload dest_id opcode v w params in
      let size = length-command_payload dest_id opcode v w params hp in
      let (cipher, seals, long, opens) =
        crypt_payload_involutive aes key nonce payload hk (omega arith) in
      let two = two_of_mac sequence payload in
      (
        le_digits 3 sequence ++ two ++ cipher,
        rw
            (
              sequence_bytes-le_digits sequence hs,
              build_nonce-command_nonce mac sequence hm hs,
              encode_command_payload-command_payload dest_id opcode v w params hd ho hp,
              (make_checksum-full_mac aes key nonce payload hk (omega arith)).0,
              seals,
            )
            refl,
        omega (arith, length-append two cipher, length-two_of_mac sequence payload size),
        decode_sealed sequence payload cipher hs size (omega arith) opens
            ∙ parse_command_payload-command_payload sequence dest_id opcode v w params hd,
      )

  -- Every 20-byte packet that decodes is what encoding the decoded fields returns, byte for byte:
  -- the decoder accepts no packet that the encoder would not have sent.
  pub encode-decode_command_packet :
      (packet : Bytes) (fields : CommandPacket)
      → IsBytes packet
      → decode_command_packet aes key mac packet ≡ ok fields
      → encode_command_packet aes key mac
          (pos fields.sequence)
          (pos fields.dest_id)
          (pos fields.opcode)
          fields.params
          fields.vendor_id
        ≡ ok packet
  unfolding decode_command_packet encode_command_packet
  encode-decode_command_packet (s ∷ t ∷ u ∷ m ∷ n ∷ cipher) fields h e =
      elim (Bool-cases (length cipher == 15)) [
        | inl fits ↦
            let start = s ∷ t ∷ u ∷ [] in
            let sequence = from_bytes_le start in
            let nonce = command_nonce mac sequence in
            let in_bytes : IsBytes start = (h.0, (h.1.0, (h.1.1.0, tt))) in
            let small : sequence < 2 ^ 24 = omega arith in
            let (payload, opens, size, seals) =
              crypt_payload_involutive aes key nonce cipher hk (ground arith) in
            let full : length cipher ≡ 15 = ground arith in
            let size' : length payload ≡ 15 = omega arith in
            let (_, accepted, parsed) =
              >>=-eq-ok (verify_checksum aes key nonce payload (m ∷ n ∷ []))
                (λ _. parse_command_payload sequence payload)
                (rw (full, build_nonce-command_nonce mac sequence hm small, opens) at e) in
            let payload_bytes =
              crypt_payload-IsBytes aes key nonce cipher hk (ground arith) h.1.1.1.1.1 opens in
            let (numbered, encoded) =
              encode-parse_command_payload sequence payload payload_bytes size' parsed in
            rw
              (
                numbered,
                sequence_bytes-le_digits sequence small,
                build_nonce-command_nonce mac sequence hm small,
                encoded,
                (make_checksum-full_mac aes key nonce payload hk (omega arith)).0,
                seals,
                verify_checksum_accepts aes key nonce payload (m ∷ n ∷ []) hk (omega arith)
                    accepted,
              )
              (ap (λ (b : Bytes). ok (b ++ (m ∷ n ∷ cipher)))
                (le_digits-from_bytes_le start in_bytes))
        | inr bad ↦ absurd (ground arith)
      ]
  encode-decode_command_packet _ fields h e = absurd (cc e)
