-- ===== src/Telink/Connection/Traffic.antt =====
-- The writes and the keep-alive probes of `lib/tuya_ble_mesh/connection.py`.
use tuya_ble_mesh.Prelude.{true, Option, none, some}
use tuya_ble_mesh.Prelude.{List, [], ◌∷◌, if◌then◌else◌, Result, ok, err, Error, ◌&&◌}
use tuya_ble_mesh.Prelude.{mesh_connection_error, disconnected_error}
use tuya_ble_mesh.Prelude.Int.{pos}
use tuya_ble_mesh.Bytes.{Bytes}
use tuya_ble_mesh.Telink.Crypto.{BlockCipher}
use tuya_ble_mesh.Telink.Packet.{encode_command_packet}
use tuya_ble_mesh.Telink.Connection.{
  BleConnection, is_ready, take_sequence, handle_disconnect, Ended, is_os_error,
}
use tuya_ble_mesh.Telink.Connection.Connect.{and_then}

-- The end of a write in `write_command`.
unfoldable pub after_write : Option Error → BleConnection → Ended
unfolding is_os_error handle_disconnect
after_write none c = record { connection = record c { keep_alive = true }; outcome = ok tt }
after_write (some e) c =
    if is_os_error e
    then record { connection = handle_disconnect c; outcome = err mesh_connection_error }
    else record { connection = c; outcome = err e }

-- `write_command`, over what becomes of the write.
unfoldable pub write_command : Option Error → BleConnection → Ended
unfolding after_write
write_command write c =
    if is_ready c.state && c.has_client
    then after_write write c
    else record { connection = c; outcome = err disconnected_error }

module _ (aes : BlockCipher) where
  -- The packet of a probe: a status query for every node.
  unfoldable pub probe_packet : BleConnection → Bytes → Result Bytes
  probe_packet c key =
      encode_command_packet aes key c.mac_bytes (pos c.sequence) (pos 0xffff) (pos 0xda) (0x10 ∷ [])
        c.vendor_id

  -- The write of a probe.
  unfoldable pub write_probe : Option Error → BleConnection → Result Bytes → Ended
  unfolding is_os_error handle_disconnect
  write_probe write c (err e) = record { connection = c; outcome = err e }
  write_probe none c (ok packet) = record { connection = c; outcome = ok tt }
  write_probe (some e) c (ok packet) =
      if is_os_error e
      then record { connection = handle_disconnect c; outcome = ok tt }
      else record { connection = c; outcome = err e }

  unfoldable pub probe_with : Option Error → Option Bytes → BleConnection → Ended
  unfolding take_sequence probe_packet write_probe
  probe_with write none c = record { connection = c; outcome = ok tt }
  probe_with write (some key) c = write_probe write (take_sequence c).1 (probe_packet c key)

  -- `_send_keep_alive`
  unfoldable pub send_keep_alive : Option Error → BleConnection → Ended
  unfolding probe_with
  send_keep_alive write c =
      if is_ready c.state && c.has_client
      then probe_with write c.session_key c
      else record { connection = c; outcome = ok tt }

  -- `_keep_alive_loop`, one round for each interval that passes.
  unfoldable pub keep_alive_loop : List (Option Error) → BleConnection → Ended
  unfolding and_then send_keep_alive
  keep_alive_loop [] c = record { connection = c; outcome = ok tt }
  keep_alive_loop (write ∷ writes) c =
      let probed = send_keep_alive write c in
      let rest = and_then probed (keep_alive_loop writes) in
      if is_ready c.state then rest else record { connection = c; outcome = ok tt }
