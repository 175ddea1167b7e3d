-- ===== src/Device.antt =====
-- A SIG Mesh device behind its GATT proxy: `lib/tuya_ble_mesh/sig_mesh_device.py` with its two mixins,
-- `sig_mesh_device_segments.py` (receiving) and `sig_mesh_device_commands.py` (sending), and the
-- store of sequence numbers, `ha_sequence.py`.
pub mod State
pub mod Receive
pub mod Sequence
pub mod Send
mod Tests
