-- ===== src/Mesh.antt =====
-- The SIG Mesh protocol of `lib/tuya_ble_mesh`: `sig_mesh_protocol_codec.py`, `sig_mesh_crypto.py`
-- and `sig_mesh_protocol.py`.
pub mod Codec
pub mod Ccm
pub mod Keys
pub mod Network
pub mod Transport
pub mod ToyCipher
mod Tests
