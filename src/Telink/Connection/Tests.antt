-- ===== src/Telink/Connection/Tests.antt =====
-- Runs of a `BLEConnection`.
use tuya_ble_mesh.Prelude.{ℕ, zero, suc, true, some, none, [], ◌∷◌}
use tuya_ble_mesh.Prelude.{ok, err, bleak_error, os_error}
use tuya_ble_mesh.Bytes.{Bytes}
use tuya_ble_mesh.Telink.ToyCipher.{key16, address}
use tuya_ble_mesh.Telink.Connection.{pairing, BleConnection, new_connection}
use tuya_ble_mesh.Telink.Connection.Connect.{Scan, device_found, connect}

abbrev vendor : Bytes
vendor = 0x11 ∷ 2 ∷ []

abbrev fresh : BleConnection
fresh = new_connection address vendor

-- The first attempt raises BleakError.
abbrev second_connects : ℕ → Scan
second_connects n = device_found (elim n [ suc zero ↦ some bleak_error | _ ↦ none ])

abbrev connected : BleConnection
connected = (connect 5 second_connects (ok key16) (err os_error) true fresh).connection

abbrev paired : BleConnection
paired = record fresh { state = pairing; has_client = true; session_key = some key16 }
