-- ===== src/Telink/Connection.antt =====
-- `lib/tuya_ble_mesh/connection.py`: `BLEConnection`, its states and what each operation does. The
-- answers of the Bluetooth client and of the pairing are parameters: an exception, or what they
-- return. `os_error` is `OSError` with its subclass `TimeoutError`.
pub mod Connect
pub mod Traffic
pub mod Runs
mod Tests
use tuya_ble_mesh.Prelude.{ℕ, zero, suc, ◌+◌, ◌%◌, ◌^◌, Bool, true, false, Option, none, some}
use tuya_ble_mesh.Prelude.{
  List, [], ◌∷◌, if◌then◌else◌, Result, ok, err, Error, is_some, ◌&&◌, not, ◌||◌,
}
use tuya_ble_mesh.Prelude.{mesh_connection_error, disconnected_error, os_error, bleak_error}
use tuya_ble_mesh.Prelude.{cancelled_error}
use tuya_ble_mesh.Prelude.Int.{ℤ, pos}
use tuya_ble_mesh.Bytes.{Bytes}
use tuya_ble_mesh.Telink.Crypto.{BlockCipher}
use tuya_ble_mesh.Telink.Packet.{encode_command_packet}

pub data ConnectionState : Type 0 where
  disconnected connecting pairing ready disconnecting degraded recovering : ConnectionState

-- `has_client` and `keep_alive` tell whether there is a client and a task; `notices` counts the calls
-- of the disconnect callbacks.
pub record BleConnection : Type 0 where
  pub mac_bytes : Bytes
  pub vendor_id : Bytes
  pub state : ConnectionState
  pub has_client : Bool
  pub session_key : Option Bytes
  pub firmware_version : Option Bytes
  pub sequence : ℕ
  pub keep_alive : Bool
  pub has_handler : Bool
  pub notify_active : Bool
  pub notices : ℕ

unfoldable pub new_connection : Bytes → Bytes → BleConnection
new_connection mac_bytes vendor_id = record {
  mac_bytes = mac_bytes;
  vendor_id = vendor_id;
  state = disconnected;
  has_client = false;
  session_key = none;
  firmware_version = none;
  sequence = 0;
  keep_alive = false;
  has_handler = false;
  notify_active = false;
  notices = 0;
}

abbrev pub is_ready : ConnectionState → Bool
is_ready ready = true
is_ready _ = false

abbrev pub is_disconnected : ConnectionState → Bool
is_disconnected disconnected = true
is_disconnected _ = false

abbrev pub is_disconnecting : ConnectionState → Bool
is_disconnecting disconnecting = true
is_disconnecting _ = false

-- The number, and the connection that counted it.
unfoldable pub take_sequence : BleConnection → ℕ × BleConnection
take_sequence c = (c.sequence, record c { sequence = (c.sequence + 1) % 2 ^ 24 })

-- `_cleanup`, where the disconnect of the client returns or raises OSError. (Another exception of it
-- leaves the client and the state as they are, without the key and the probes.)
unfoldable pub cleanup : BleConnection → BleConnection
cleanup c = record c {
  keep_alive = false;
  notify_active = false;
  session_key = none;
  has_client = false;
  state = disconnected;
}

-- `_handle_disconnect`
unfoldable pub handle_disconnect : BleConnection → BleConnection
unfolding cleanup
handle_disconnect c =
    if is_disconnecting c.state then c else record (cleanup c) { notices = c.notices + 1 }

-- How an operation ends: the connection it leaves, and its return or its exception.
pub record Ended : Type 0 where
  pub connection : BleConnection
  pub outcome : Result (Unit {0})

unfoldable pub is_os_error : Error → Bool
is_os_error os_error = true
is_os_error _ = false

unfoldable pub disconnect : BleConnection → BleConnection
unfolding cleanup
disconnect c = if is_disconnected c.state then c else cleanup c
