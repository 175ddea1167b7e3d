-- ===== src/Mesh/Keys.antt =====
-- `lib/tuya_ble_mesh/sig_mesh_crypto.py`: AES-CMAC and the key derivation functions, over AES on one
-- block.
pub mod Derived
use tuya_ble_mesh.Prelude.{
  ℕ, zero, suc, ◌+◌, ◌-◌, ◌*◌, ◌/◌, ◌%◌, [], ◌∷◌, ◌++◌, max, bit_and, bit_or,
}
use tuya_ble_mesh.Prelude.{ltb, ◌==◌, ◌&&◌, if◌then◌else◌, length, take, drop, replicate}
use tuya_ble_mesh.Prelude.{Result, ok, err, ◌>>=◌, ◌>>◌, guard, crypto_error}
use tuya_ble_mesh.Bits.Fields.{◌<<<◌, ◌>>>◌}
use tuya_ble_mesh.Bytes.{Bytes, zeros, index, xor_bytes}
use tuya_ble_mesh.Mesh.Ccm.{MeshCipher, aes_ecb}

-- Every byte with the top bit of the one behind it.
unfoldable pub shift_left : Bytes → Bytes
shift_left [] = []
shift_left (a ∷ []) = bit_and (a <<< 1) 0xff ∷ []
shift_left (a ∷ b ∷ rest) = bit_or (bit_and (a <<< 1) 0xff) (b >>> 7) ∷ shift_left (b ∷ rest)

abbrev pub cmac_rb : Bytes
cmac_rb = replicate 15 0 ++ (0x87 ∷ [])

-- A subkey from the block before it.
unfoldable pub next_subkey : Bytes → Result Bytes
next_subkey block = do
  first ← index block 0
  if bit_and first 0x80 == 0 then ok (shift_left block) else xor_bytes (shift_left block) cmac_rb

-- `n = max(1, (len(msg) + 15) // 16)`
unfoldable pub cmac_blocks : Bytes → ℕ
cmac_blocks msg = max 1 ((length msg + 16 - 1) / 16)

-- `m_last`
unfoldable pub last_block : Bytes → Bytes → Bytes → Result Bytes
unfolding cmac_blocks
last_block msg k1 k2 =
    let tail = drop ((cmac_blocks msg - 1) * 16) msg in
    if ltb 0 (length msg) && length msg % 16 == 0
    then xor_bytes tail k1
    else xor_bytes (take 16 (tail ++ (0x80 ∷ zeros (16 - 1 - length tail)))) k2

module _ (cipher : MeshCipher) where
  -- The loop over the blocks before the last: the rounds left, and what of the message is left.
  unfoldable pub cmac_loop : ℕ → Bytes → Bytes → Bytes → Result Bytes
  cmac_loop zero key x rest = ok x
  cmac_loop (suc rounds) key x rest = do
    mixed ← xor_bytes x (take 16 rest)
    y ← aes_ecb cipher key mixed
    cmac_loop rounds key y (drop 16 rest)

  unfoldable pub aes_cmac : Bytes → Bytes → Result Bytes
  aes_cmac key msg = do
    guard (length key == 16) crypto_error
    l_val ← aes_ecb cipher key (zeros 16)
    k1 ← next_subkey l_val
    k2 ← next_subkey k1
    m_last ← last_block msg k1 k2
    x ← cmac_loop (cmac_blocks msg - 1) key (zeros 16) msg
    mixed ← xor_bytes x m_last
    aes_ecb cipher key mixed

  unfoldable pub s1 : Bytes → Result Bytes
  s1 m = do guard (ltb 0 (length m)) crypto_error; aes_cmac (zeros 16) m

  unfoldable pub k1 : Bytes → Bytes → Bytes → Result Bytes
  k1 n salt p = do guard (length salt == 16) crypto_error; t ← aes_cmac salt n; aes_cmac t p

  unfoldable pub k2 : Bytes → Bytes → Result (ℕ × Bytes × Bytes)
  k2 n p = do
    guard (length n == 16) crypto_error
    salt ← s1 (0x73 ∷ 0x6d ∷ 0x6b ∷ 0x32 ∷ [])
    t ← aes_cmac salt n
    t1 ← aes_cmac t (p ++ (0x01 ∷ []))
    t2 ← aes_cmac t (t1 ++ p ++ (0x02 ∷ []))
    t3 ← aes_cmac t (t2 ++ p ++ (0x03 ∷ []))
    last ← index t1 15
    ok (bit_and last 0x7f, t2, t3)

  unfoldable pub k3 : Bytes → Result Bytes
  k3 n = do
    guard (length n == 16) crypto_error
    salt ← s1 (0x73 ∷ 0x6d ∷ 0x6b ∷ 0x33 ∷ [])
    t ← aes_cmac salt n
    id ← aes_cmac t (0x69 ∷ 0x64 ∷ 0x36 ∷ 0x34 ∷ 0x01 ∷ [])
    ok (drop 8 id)

  unfoldable pub k4 : Bytes → Result ℕ
  k4 n = do
    guard (length n == 16) crypto_error
    salt ← s1 (0x73 ∷ 0x6d ∷ 0x6b ∷ 0x34 ∷ [])
    t ← aes_cmac salt n
    mac ← aes_cmac t (0x69 ∷ 0x64 ∷ 0x36 ∷ 0x01 ∷ [])
    last ← index mac 15
    ok (bit_and last 0x3f)
