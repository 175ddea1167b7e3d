-- ===== src/Telink/Connection/Connect.antt =====
-- `connect` of `lib/tuya_ble_mesh/connection.py`, cut at its waits.
use tuya_ble_mesh.Prelude.{ℕ, zero, suc, ◌+◌, Bool, true, false, Option, none, some}
use tuya_ble_mesh.Prelude.{if◌then◌else◌, Result, ok, err, Error, ◌&&◌, ◌||◌}
use tuya_ble_mesh.Prelude.{mesh_connection_error, disconnected_error, os_error, bleak_error}
use tuya_ble_mesh.Prelude.{cancelled_error}
use tuya_ble_mesh.Bytes.{Bytes}
use tuya_ble_mesh.Telink.Connection.{
  disconnected, connecting, pairing, ready, BleConnection, is_ready, cleanup, Ended, is_os_error,
}

-- What an attempt meets: an exception of the scan, no device, or a device, with an exception of
-- `establish_connection` or none.
pub data Scan : Type 0 where
  scan_raises : Error → Scan
  no_device : Scan
  device_found : Option Error → Scan

unfoldable pub scan_error : Scan → Option Error
scan_error (scan_raises e) = some e
scan_error no_device = some mesh_connection_error
scan_error (device_found established) = established

unfoldable pub is_cancelled : Error → Bool
is_cancelled cancelled_error = true
is_cancelled _ = false

-- `except (OSError, TimeoutError, BleakError, asyncio.CancelledError)`
unfoldable pub is_connect_retried : Error → Bool
is_connect_retried os_error = true
is_connect_retried bleak_error = true
is_connect_retried cancelled_error = true
is_connect_retried _ = false

-- `MeshConnectionError` and its subclass.
unfoldable pub is_mesh_connection_error : Error → Bool
is_mesh_connection_error mesh_connection_error = true
is_mesh_connection_error disconnected_error = true
is_mesh_connection_error _ = false

-- The end of an attempt; `rest` is what the attempts after it would do with no client.
unfoldable pub after_scan : BleConnection → Option Error → Ended → Ended
unfolding is_connect_retried is_mesh_connection_error
after_scan c none rest = record { connection = record c { has_client = true }; outcome = ok tt }
after_scan c (some e) rest =
    if is_mesh_connection_error e
    then record { connection = record c { has_client = false }; outcome = err e }
    else if is_connect_retried e
    then rest
    else record { connection = c; outcome = err e }

-- `_connect_with_retry`, with the attempts left and the number of the next one.
unfoldable pub connect_with_retry : ℕ → (ℕ → Scan) → ℕ → BleConnection → Ended
unfolding after_scan scan_error
connect_with_retry zero scan attempt c = record {
  connection = c;
  outcome = err mesh_connection_error;
}
connect_with_retry (suc left) scan attempt c =
    after_scan c (scan_error (scan attempt))
      (connect_with_retry left scan (attempt + 1) (record c { has_client = false }))

-- `_read_firmware_version` after its wait: the answer of the read, already decoded and stripped.
unfoldable pub after_read : BleConnection → Result Bytes → Ended
unfolding is_os_error
after_read c (ok version) = record {
  connection = record c { firmware_version = some version };
  outcome = ok tt;
}
after_read c (err e) =
    if is_os_error e
    then record { connection = c; outcome = ok tt }
    else record { connection = c; outcome = err e }

-- `_read_firmware_version`, where nothing else changes the connection during the read.
unfoldable pub read_firmware_version : BleConnection → Result Bytes → Ended
unfolding after_read
read_firmware_version c version =
    if c.has_client then after_read c version else record { connection = c; outcome = ok tt }

-- `except (BleakError, OSError, EOFError)` leaves the polling; no other exception is expected.
unfoldable pub start_notify_safe : BleConnection → Bool → BleConnection
start_notify_safe c subscribed =
    if c.has_client && c.has_handler then record c { notify_active = subscribed } else c

-- What `connect` does after each of its waits: the attempts, the pairing, the read of the version and
-- the subscription. An exception ends it.
unfoldable pub and_then : Ended → (BleConnection → Ended) → Ended
and_then ended next = elim ended.outcome [ err e ↦ ended | ok _ ↦ next ended.connection ]

-- After the attempts: `except (TimeoutError, OSError, MeshConnectionError)`, and the test of the
-- client.
unfoldable pub on_attempts : Ended → Ended
unfolding is_os_error is_mesh_connection_error
on_attempts ended = elim ended.outcome [
  | ok _ ↦
      if ended.connection.has_client
      then record { connection = record ended.connection { state = pairing }; outcome = ok tt }
      else record {
        connection = record ended.connection { state = disconnected };
        outcome = err mesh_connection_error;
      }
  | err e ↦
      if is_os_error e || is_mesh_connection_error e
      then record { connection = record ended.connection { state = disconnected }; outcome = err e }
      else ended
]

-- `except Exception`, of which `CancelledError` is none.
unfoldable pub on_paired : Result Bytes → BleConnection → Ended
unfolding is_cancelled cleanup
on_paired (ok key) c = record { connection = record c { session_key = some key }; outcome = ok tt }
on_paired (err e) c =
    if is_cancelled e
    then record { connection = c; outcome = err e }
    else record { connection = cleanup c; outcome = err mesh_connection_error }

unfoldable pub on_firmware : Bool → BleConnection → Ended
unfolding start_notify_safe
on_firmware subscribed c = record {
  connection = start_notify_safe (record c { state = ready; keep_alive = true }) subscribed;
  outcome = ok tt;
}

-- What follows the attempts.
unfoldable pub after_attempts : Result Bytes → Result Bytes → Bool → Ended → Ended
unfolding and_then on_attempts on_paired read_firmware_version on_firmware
after_attempts paired version subscribed attempts =
    and_then
      (and_then (and_then (on_attempts attempts) (on_paired paired))
        (λ c. read_firmware_version c version))
      (on_firmware subscribed)

-- `connect`, where nothing else changes the connection meanwhile.
unfoldable pub connect : ℕ → (ℕ → Scan) → Result Bytes → Result Bytes → Bool → BleConnection → Ended
unfolding after_attempts
connect max_retries scan paired version subscribed c =
    if is_ready c.state
    then record { connection = c; outcome = ok tt }
    else after_attempts paired version subscribed
        (connect_with_retry max_retries scan 1 (record c { state = connecting }))
