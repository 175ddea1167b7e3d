-- ===== src/Telink.antt =====
-- The Telink protocol of `lib/tuya_ble_mesh`: `crypto.py`, `protocol.py`, `device.py`,
-- `device_commands.py` and `device_dispatcher.py`.
pub mod Crypto
pub mod Packet
pub mod DataPoint
pub mod Queue
pub mod Device
pub mod Connection
pub mod ToyCipher
mod Tests
