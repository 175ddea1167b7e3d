-- ===== src/Provisioning/Data.antt =====
-- What the provisioner of `sig_mesh_provisioner_exchange.py` holds, and the data that it hands out.
use tuya_ble_mesh.Prelude.{ℕ, Option, [], ◌∷◌, ◌++◌, Result, ok, ◌>>=◌}
use tuya_ble_mesh.Bytes.{Bytes, pack_be, bytes_of}

-- What the provisioner holds: its keys and numbers, and the key agreement with its private key, where
-- `none` is the ValueError of a point that is not on the curve.
pub record Provisioner : Type 0 where
  pub our_pub_key_bytes : Bytes
  pub agree : ℕ → ℕ → Option Bytes
  pub net_key : Bytes
  pub app_key : Bytes
  pub net_key_index : ℕ
  pub iv_index : ℕ
  pub flags : ℕ
  pub unicast_addr : ℕ

-- NetKey, NetKeyIndex, Flags, IVIndex and UnicastAddr.
unfoldable pub provisioning_data : Provisioner → Result Bytes
provisioning_data p = do
  index ← pack_be 2 p.net_key_index
  flags ← bytes_of (p.flags ∷ [])
  iv ← pack_be 4 p.iv_index
  address ← pack_be 2 p.unicast_addr
  ok (p.net_key ++ index ++ flags ++ iv ++ address)
