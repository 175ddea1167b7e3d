-- ===== src/Telink/Packet.antt =====
-- `lib/tuya_ble_mesh/protocol.py`: nonces, command packets, notifications, status and pair
-- responses. The offsets and opcodes are those of `lib/tuya_ble_mesh/const.py`.
pub mod Layout
pub mod Command
pub mod Notification
use tuya_ble_mesh.Prelude.{
  ℕ, zero, suc, ◌+◌, ◌-◌, ◌≡◌, Bool, [], ◌∷◌, ◌++◌, reverse, ltb, leb, ◌==◌,
}
use tuya_ble_mesh.Prelude.{if◌then◌else◌, length, take, drop, Result, ok, err, ◌>>=◌, ◌>>◌, guard}
use tuya_ble_mesh.Prelude.{raise_if, protocol_error, overflow_error, malformed_packet_error}
use tuya_ble_mesh.Prelude.Int.{ℤ, pos, in_range}
use tuya_ble_mesh.Bytes.{
  Bytes, zeros, to_bytes_le, pack_le, from_bytes_le, index, slice, rstrip_zeros,
}
use tuya_ble_mesh.Telink.Crypto.{BlockCipher, crypt_payload, make_checksum, verify_checksum}

pub record CommandPacket : Type 0 where
  pub sequence : ℕ
  pub dest_id : ℕ
  pub opcode : ℕ
  pub vendor_id : Bytes
  pub params : Bytes

pub record StatusResponse : Type 0 where
  pub mesh_id : ℕ
  pub mode : ℕ
  pub white_brightness : ℕ
  pub white_temp : ℕ
  pub color_brightness : ℕ
  pub red : ℕ
  pub green : ℕ
  pub blue : ℕ

pub record PairResponse : Type 0 where
  pub opcode : ℕ
  pub device_random : Bytes

unfoldable pub build_nonce : Bytes → ℤ → Result Bytes
build_nonce mac_bytes sequence = do
  guard (length mac_bytes == 6) protocol_error
  seq ← in_range 0 0xffffff protocol_error sequence
  let rev_mac = reverse mac_bytes
  seq_bytes ← to_bytes_le 3 seq
  ok (take 4 rev_mac ++ (1 ∷ seq_bytes))

unfoldable pub encode_command_payload : ℤ → ℤ → Bytes → Bytes → Result Bytes
encode_command_payload dest_id opcode params vendor_id = do
  guard (length vendor_id == 2) protocol_error
  dest ← in_range 0 0xffff protocol_error dest_id
  op ← in_range 0 0xff protocol_error opcode
  raise_if (ltb 10 (length params)) protocol_error
  dest_bytes ← pack_le 2 dest
  op_bytes ← pack_le 1 op
  let payload = dest_bytes ++ op_bytes ++ vendor_id ++ params
  ok (payload ++ zeros (15 - length payload))

-- `int.to_bytes(3, "little")` refuses a negative number too.
unfoldable pub sequence_bytes : ℤ → Result Bytes
sequence_bytes (pos n) = to_bytes_le 3 n
sequence_bytes (ℤ.negsuc n) = err overflow_error

unfoldable pub build_notification_nonce : Bytes → Bytes → Result Bytes
build_notification_nonce mac_bytes raw_header = do
  guard (length mac_bytes == 6) protocol_error
  raise_if (ltb (length raw_header) 5) protocol_error
  let rev_mac = reverse mac_bytes
  ok (take 3 rev_mac ++ take 5 raw_header)

-- The fields of a decrypted payload.
unfoldable pub parse_command_payload : ℕ → Bytes → Result CommandPacket
parse_command_payload sequence payload = do
  opcode ← index payload 2
  ok (record {
    sequence = sequence;
    dest_id = from_bytes_le (take 2 payload);
    opcode = opcode;
    vendor_id = slice 3 5 payload;
    params = rstrip_zeros (drop 5 payload);
  })

module _ (aes : BlockCipher) where
  unfoldable pub encode_command_packet : Bytes → Bytes → ℤ → ℤ → ℤ → Bytes → Bytes → Result Bytes
  encode_command_packet key mac_bytes sequence dest_id opcode params vendor_id = do
    seq_bytes ← sequence_bytes sequence
    nonce ← build_nonce mac_bytes sequence
    payload ← encode_command_payload dest_id opcode params vendor_id
    checksum ← make_checksum aes key nonce payload
    encrypted ← crypt_payload aes key nonce payload
    ok (seq_bytes ++ take 2 checksum ++ encrypted)

  unfoldable pub decode_command_packet : Bytes → Bytes → Bytes → Result CommandPacket
  decode_command_packet key mac_bytes packet = do
    guard (length packet == 20) malformed_packet_error
    let sequence = from_bytes_le (take 3 packet)
    let expected_mac = slice 3 5 packet
    let encrypted = drop 5 packet
    nonce ← build_nonce mac_bytes (pos sequence)
    payload ← crypt_payload aes key nonce encrypted
    _ ← verify_checksum aes key nonce payload expected_mac
    parse_command_payload sequence payload

  unfoldable pub decrypt_notification : Bytes → Bytes → Bytes → Result Bytes
  decrypt_notification key mac_bytes packet = do
    raise_if (ltb (length packet) 8) malformed_packet_error
    let nonce_header = take 5 packet
    let expected_mac = slice 5 7 packet
    let encrypted = drop 7 packet
    nonce ← build_notification_nonce mac_bytes nonce_header
    payload ← crypt_payload aes key nonce encrypted
    _ ← verify_checksum aes key nonce payload expected_mac
    ok (take 7 packet ++ payload)

unfoldable pub decode_status : Bytes → Result StatusResponse
decode_status packet = do
  raise_if (ltb (length packet) 19) malformed_packet_error
  mesh_id ← index packet 3
  mode ← index packet 12
  white_brightness ← index packet 13
  white_temp ← index packet 14
  color_brightness ← index packet 15
  red ← index packet 16
  green ← index packet 17
  blue ← index packet 18
  ok (record {
    mesh_id = mesh_id;
    mode = mode;
    white_brightness = white_brightness;
    white_temp = white_temp;
    color_brightness = color_brightness;
    red = red;
    green = green;
    blue = blue;
  })

-- The tests on the opcode of a pair response: 0x0D success, 0x0E failure, 0x07 credentials set.
unfoldable pub parse_pair_opcode : ℕ → Bytes → Result PairResponse
parse_pair_opcode opcode response =
    if opcode == 0x0d
    then (if ltb (length response) 9
        then err malformed_packet_error
        else ok (record { opcode = opcode; device_random = slice 1 9 response }))
    else if opcode == 0x0e
    then ok (record { opcode = opcode; device_random = [] })
    else if opcode == 0x07
    then ok (record { opcode = opcode; device_random = [] })
    else err malformed_packet_error

unfoldable pub parse_pair_response : Bytes → Result PairResponse
unfolding parse_pair_opcode
parse_pair_response response = do
  raise_if (ltb (length response) 1) malformed_packet_error
  opcode ← index response 0
  parse_pair_opcode opcode response
