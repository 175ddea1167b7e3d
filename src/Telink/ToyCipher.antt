-- ===== src/Telink/ToyCipher.antt =====
-- A block cipher for tests, a key and a device address.
use tuya_ble_mesh.Prelude.{◌+◌, [], ◌∷◌, replicate}
use tuya_ble_mesh.Bytes.{Bytes, le_digits, from_bytes_le}
use tuya_ble_mesh.Bytes.Words.{length-le_digits, le_digits-IsBytes}
use tuya_ble_mesh.Telink.Crypto.{BlockCipher}

-- The sum of key and block, as a number of 16 bytes.
abbrev pub sum_cipher : BlockCipher
sum_cipher = record {
  encrypt_block = λ k b. le_digits 16 (from_bytes_le k + from_bytes_le b);
  length-encrypt_block = λ k b hk hb. length-le_digits 16 (from_bytes_le k + from_bytes_le b);
  encrypt_block-IsBytes = λ k b. le_digits-IsBytes 16 (from_bytes_le k + from_bytes_le b);
}

abbrev pub key16 : Bytes
key16 = replicate 16 7

abbrev pub address : Bytes
address = 1 ∷ 2 ∷ 3 ∷ 4 ∷ 5 ∷ 6 ∷ []
