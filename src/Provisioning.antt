-- ===== src/Provisioning.antt =====
-- Provisioning over PB-GATT: `lib/tuya_ble_mesh/sig_mesh_provisioner_exchange.py`.
pub mod Data
pub mod Bearer
pub mod Exchange
mod Tests
