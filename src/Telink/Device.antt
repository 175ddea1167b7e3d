-- ===== src/Telink/Device.antt =====
-- `lib/tuya_ble_mesh/device.py` and `device_commands.py`: a Telink device, and the sequence numbers
-- of `connection.py`. Status callbacks are handed the value that `handle_notification` returns.
pub mod Delivery
mod Tests
use tuya_ble_mesh.Prelude.{ℕ, zero, suc, ◌+◌, ◌%◌, ◌^◌, Bool, true, false, Option, none, some}
use tuya_ble_mesh.Prelude.{List, [], ◌∷◌, if◌then◌else◌, Result, ok, err, ◌>>=◌, ◌>>◌, Error}
use tuya_ble_mesh.Prelude.{protocol_error, disconnected_error, mesh_connection_error, os_error}
use tuya_ble_mesh.Prelude.{crypto_error, authentication_error, malformed_packet_error}
use tuya_ble_mesh.Prelude.Int.{ℤ, pos, in_range}
use tuya_ble_mesh.Bytes.{Bytes, to_bytes_le}
use tuya_ble_mesh.Telink.Crypto.{BlockCipher}
use tuya_ble_mesh.Telink.Packet.{
  StatusResponse, encode_command_packet, decrypt_notification, decode_status,
}
use tuya_ble_mesh.Telink.DataPoint.{encode_compact_dp}
use tuya_ble_mesh.Telink.Queue.{
  CommandDispatcher, new_command_dispatcher, start_worker, enqueue_command,
}

-- `mesh_id` is a plain argument of the constructor, which does not check it.
pub record TelinkDevice : Type 0 where
  pub mesh_id : ℤ
  pub vendor_id : Bytes
  pub mac_bytes : Bytes
  pub dispatcher : CommandDispatcher
  pub connected_event : Bool

unfoldable pub new_telink_device : ℤ → Bytes → Bytes → TelinkDevice
new_telink_device mesh_id vendor_id mac_bytes = record {
  mesh_id = mesh_id;
  vendor_id = vendor_id;
  mac_bytes = mac_bytes;
  dispatcher = new_command_dispatcher 32 60;
  connected_event = false;
}

-- The setter of `mesh_id`.
unfoldable pub set_mesh_id : TelinkDevice → ℤ → Result TelinkDevice
set_mesh_id d value = do
  id ← in_range 0 0xffff protocol_error value
  ok (record d { mesh_id = pos id })

-- `connect`, after the connection is made.
unfoldable pub on_connect : TelinkDevice → TelinkDevice
on_connect d = record d { connected_event = true; dispatcher = start_worker d.dispatcher }

unfoldable pub on_disconnect : TelinkDevice → TelinkDevice
on_disconnect d = record d { connected_event = false }

-- `except (CryptoError, MalformedPacketError)`, the subclasses with it.
unfoldable pub is_decode_error : Error → Bool
is_decode_error crypto_error = true
is_decode_error authentication_error = true
is_decode_error malformed_packet_error = true
is_decode_error _ = false

unfoldable pub report_status : Result StatusResponse → Result (Option StatusResponse)
unfolding is_decode_error
report_status (ok status) = ok (some status)
report_status (err e) = if is_decode_error e then ok none else err e

-- `target = dest_id if dest_id is not None else self._mesh_id`
unfoldable pub target_of : TelinkDevice → Option ℤ → ℤ
target_of d none = d.mesh_id
target_of d (some dest_id) = dest_id

unfoldable pub send_command : TelinkDevice → ℤ → Bytes → Option ℤ → ℕ → Result TelinkDevice
unfolding target_of
send_command d opcode params dest_id now = do
  dispatcher ← enqueue_command d.dispatcher opcode params (target_of d dest_id) now
  ok (record d { dispatcher = dispatcher })

unfoldable pub send_telink_power : TelinkDevice → Bool → ℕ → Result TelinkDevice
send_telink_power d on now = do
  params ← encode_compact_dp (pos 121) (pos 2) (if on then pos 1 else pos 0)
  send_command d (pos 0xd2) params none now

unfoldable pub send_brightness : TelinkDevice → ℤ → ℕ → Result TelinkDevice
send_brightness d level now = do
  percent ← in_range 1 100 protocol_error level
  params ← encode_compact_dp (pos 122) (pos 2) (pos percent)
  send_command d (pos 0xd2) params none now

unfoldable pub send_color_temp : TelinkDevice → ℤ → ℕ → Result TelinkDevice
send_color_temp d temp now = do
  byte ← in_range 0 0xff protocol_error temp
  send_command d (pos 0xf0) (byte ∷ []) none now

unfoldable pub send_color : TelinkDevice → ℤ → ℤ → ℤ → ℕ → Result TelinkDevice
send_color d red green blue now = do
  r ← in_range 0 0xff protocol_error red
  g ← in_range 0 0xff protocol_error green
  b ← in_range 0 0xff protocol_error blue
  send_command d (pos 0xe2) (r ∷ g ∷ b ∷ []) none now

unfoldable pub send_color_brightness : TelinkDevice → ℤ → ℕ → Result TelinkDevice
send_color_brightness d level now = do
  byte ← in_range 0 0xff protocol_error level
  send_command d (pos 0xf2) (byte ∷ []) none now

unfoldable pub send_light_mode : TelinkDevice → ℤ → ℕ → Result TelinkDevice
send_light_mode d mode now = do
  byte ← in_range 0 0xff protocol_error mode
  send_command d (pos 0x33) (byte ∷ []) none now

unfoldable pub send_mesh_address : TelinkDevice → ℤ → ℕ → Result TelinkDevice
send_mesh_address d new_address now = do
  address ← in_range 1 0x7fff protocol_error new_address
  params ← to_bytes_le 2 address
  send_command d (pos 0xe0) params none now

unfoldable pub send_mesh_reset : TelinkDevice → ℕ → Result TelinkDevice
send_mesh_reset d now = send_command d (pos 0xe3) [] none now

-- `next_sequence` of the connection: the number, and the counter after it.
unfoldable pub next_sequence : ℕ → ℕ × ℕ
next_sequence sequence = (sequence, (sequence + 1) % 2 ^ 24)

-- What an attempt finds: the session key, the counter of the connection, and what becomes of the
-- write.
pub record WriteAttempt : Type 0 where
  pub session_key : Option Bytes
  pub sequence : ℕ
  pub write : Option Error

-- The packets that were given to the connection, the first of them first, and the end of `_send_now`.
pub record Written : Type 0 where
  pub packets : List Bytes
  pub outcome : Result (Unit {0})

-- `except (MeshConnectionError, OSError)`, after `except DisconnectedError: raise`.
unfoldable pub is_retried : Error → Bool
is_retried mesh_connection_error = true
is_retried os_error = true
is_retried _ = false

-- After a failed write: the attempts that are left, and what they would do.
unfoldable pub retry_write : ℕ → Written → Bytes → Error → Written
retry_write zero rest packet e = record { packets = packet ∷ []; outcome = err e }
retry_write (suc left) rest packet e =
    if is_retried e
    then record rest { packets = packet ∷ rest.packets }
    else record { packets = packet ∷ []; outcome = err e }

unfoldable pub write_packet : ℕ → Written → Option Error → Result Bytes → Written
unfolding retry_write
write_packet left rest write (err e) = record { packets = []; outcome = err e }
write_packet left rest none (ok packet) = record { packets = packet ∷ []; outcome = ok tt }
write_packet left rest (some e) (ok packet) = retry_write left rest packet e

unfoldable pub require_session_key : Option Bytes → Result Bytes
require_session_key none = err disconnected_error
require_session_key (some key) = ok key

module _ (aes : BlockCipher) where
  -- `_handle_notification`, with the session key of the connection.
  unfoldable pub handle_notification :
      TelinkDevice → Option Bytes → Bytes → Result (Option StatusResponse)
  unfolding report_status
  handle_notification d none data_bytes = ok none
  handle_notification d (some key) data_bytes =
      report_status (do
        decrypted ← decrypt_notification aes key d.mac_bytes data_bytes
        decode_status decrypted)

  unfoldable pub make_packet : TelinkDevice → ℤ → ℤ → Bytes → WriteAttempt → Result Bytes
  unfolding require_session_key next_sequence
  make_packet d dest_id opcode params found = do
    key ← require_session_key found.session_key
    encode_command_packet aes key d.mac_bytes (pos (next_sequence found.sequence).0) dest_id opcode
        params d.vendor_id

  -- `_send_now`, with the attempts left and the number of the next one.
  unfoldable pub send_now : ℕ → (ℕ → WriteAttempt) → ℕ → TelinkDevice → ℤ → Bytes → ℤ → Written
  unfolding write_packet make_packet
  send_now zero found attempt d opcode params dest_id = record {
    packets = [];
    outcome = err mesh_connection_error;
  }
  send_now (suc left) found attempt d opcode params dest_id =
      write_packet left (send_now left found (attempt + 1) d opcode params dest_id)
        (found attempt).write (make_packet d dest_id opcode params (found attempt))
