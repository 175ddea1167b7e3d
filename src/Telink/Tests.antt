-- ===== src/Telink/Tests.antt =====
-- The Telink theorems at concrete inputs, with a toy block cipher and bytes for text.
use tuya_ble_mesh.Prelude.{ℕ, ◌≡◌, refl, arith, true, [], ◌∷◌, ◌++◌, List, ok, length, take}
use tuya_ble_mesh.Prelude.Int.{pos, negsuc}
use tuya_ble_mesh.Prelude.Dict.{lookup}
use tuya_ble_mesh.Bytes.{Bytes, IsBytes, rstrip_zeros}
use tuya_ble_mesh.Telink.Crypto.{pad_to_block, crypt_payload, verify_checksum}
use tuya_ble_mesh.Telink.Crypto.Checksum.{full_mac}
use tuya_ble_mesh.Telink.Packet.{CommandPacket, build_nonce}
use tuya_ble_mesh.Telink.Packet.{encode_command_packet, decode_command_packet, decrypt_notification}
use tuya_ble_mesh.Telink.Packet.Command.{decode-encode_command_packet, encode-decode_command_packet}
use tuya_ble_mesh.Telink.Packet.Notification.{notification_nonce, decrypt_notification-sealed}
use tuya_ble_mesh.Telink.DataPoint.{
  DpValue, Utf8, encode_dps_command, decode_dps_response, is_int32,
}
use tuya_ble_mesh.Telink.DataPoint.Many.{decode-encode_dps_command}
use tuya_ble_mesh.Prelude.Int.{in_range}
use tuya_ble_mesh.Telink.Packet.{parse_command_payload}
use tuya_ble_mesh.Telink.Crypto.{
  make_checksum, validate_key, telink_aes_encrypt, ctr_loop, mac_loop, next_counter, compare_digest,
}
use tuya_ble_mesh.Bytes.{all_bytes, to_bytes_le, bytes_of, xor_bytes, zip_xor}
use native.Mathlib.Decide.{ℕ_discrete}
use tuya_ble_mesh.Telink.ToyCipher.{sum_cipher, key16, address}

-- Bytes in place of text.
abbrev bytes_text : Utf8 Bytes
bytes_text = record { encode = λ t. t; decode = λ b. b; decode-encode = λ t. refl }

decode-encode_command_packet_example :
    (packet : Bytes) × (encode_command_packet sum_cipher key16 address
        (pos 300)
        (pos 5)
        (pos 0xd0)
        (1 ∷ 0 ∷ [])
        (0x11 ∷ 2 ∷ [])
      ≡ ok packet)
    × (length packet ≡ 20)
    × (decode_command_packet sum_cipher key16 address packet
        ≡ ok (record {
          sequence = 300;
          dest_id = 5;
          opcode = 0xd0;
          vendor_id = 0x11 ∷ 2 ∷ [];
          params = 1 ∷ [];
        }))
unfolding rstrip_zeros
decode-encode_command_packet_example =
    decode-encode_command_packet sum_cipher key16 address refl refl 300 5 0xd0 0x11 2 (1 ∷ 0 ∷ [])
      (omega arith) (omega arith) (omega arith) (omega arith)

decrypt_notification-sealed_example :
    let nonce = notification_nonce address (1 ∷ 2 ∷ 3 ∷ 4 ∷ 5 ∷ []) in
    let two = take 2 (full_mac sum_cipher key16 nonce (8 ∷ 9 ∷ [])) in
    (cipher : Bytes) × (crypt_payload sum_cipher key16 nonce (8 ∷ 9 ∷ []) ≡ ok cipher)
    × (decrypt_notification sum_cipher key16 address ((1 ∷ 2 ∷ 3 ∷ 4 ∷ 5 ∷ []) ++ two ++ cipher)
        ≡ ok ((1 ∷ 2 ∷ 3 ∷ 4 ∷ 5 ∷ []) ++ two ++ (8 ∷ 9 ∷ [])))
decrypt_notification-sealed_example =
    decrypt_notification-sealed sum_cipher key16 address (1 ∷ 2 ∷ 3 ∷ 4 ∷ 5 ∷ []) (8 ∷ 9 ∷ []) refl
      refl refl (omega arith) (omega arith)

abbrev two_dps : List (ℕ × DpValue Bytes)
two_dps = (2, DpValue.int (negsuc 4)) ∷ (1, DpValue.flag true) ∷ []

decode-encode_dps_command_example :
    (bytes : Bytes) × (encode_dps_command bytes_text two_dps ≡ ok bytes)
    × (result : List (ℕ × DpValue Bytes)) × (decode_dps_response bytes_text bytes ≡ ok result)
    × ((k : ℕ) → lookup ℕ_discrete k result ≡ lookup ℕ_discrete k two_dps)
unfolding lookup ℕ_discrete is_int32
decode-encode_dps_command_example =
    decode-encode_dps_command bytes_text two_dps (refl, (refl, tt))
      (omega arith, omega arith, refl, (omega arith, omega arith, tt, tt))

all_bytes-IsBytes : (b : Bytes) → all_bytes b ≡ true → IsBytes b
all_bytes-IsBytes [] h = tt
all_bytes-IsBytes (x ∷ b) h = ground (arith, all_bytes-IsBytes b)

abbrev packet_300 : Bytes
packet_300 =
    44 ∷ 1 ∷ 0 ∷ 15 ∷ 19 ∷ 2 ∷ 13 ∷ 220 ∷ 26 ∷ 8 ∷ 9 ∷ 51 ∷ 8 ∷ 7 ∷ 7 ∷ 7 ∷ 7 ∷ 7 ∷ 7 ∷ 7 ∷ []

abbrev fields_300 : CommandPacket
fields_300 = record {
  sequence = 300;
  dest_id = 5;
  opcode = 0xd0;
  vendor_id = 0x11 ∷ 2 ∷ [];
  params = 1 ∷ [];
}

packet_300-IsBytes : IsBytes packet_300
packet_300-IsBytes = all_bytes-IsBytes packet_300 refl

packet_300-fields : decode_command_packet sum_cipher key16 address packet_300 ≡ ok fields_300
unfolding decode_command_packet parse_command_payload build_nonce verify_checksum make_checksum
    crypt_payload validate_key telink_aes_encrypt pad_to_block ctr_loop mac_loop next_counter
    compare_digest to_bytes_le in_range bytes_of xor_bytes zip_xor rstrip_zeros
packet_300-fields = refl

encode-decode_command_packet_example :
    encode_command_packet sum_cipher key16 address
      (pos 300)
      (pos 5)
      (pos 0xd0)
      (1 ∷ [])
      (0x11 ∷ 2 ∷ [])
    ≡ ok packet_300
encode-decode_command_packet_example =
    encode-decode_command_packet sum_cipher key16 address refl refl packet_300 fields_300
      packet_300-IsBytes packet_300-fields
