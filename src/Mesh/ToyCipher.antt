-- ===== src/Mesh/ToyCipher.antt =====
-- A cipher for tests that has the assumed properties of AES, and a key.
use tuya_ble_mesh.Prelude.{
  ℕ, ◌+◌, ◌-◌, arith, some, ◌++◌, ap, length, take, replicate, length-append, length-replicate,
  take-append,
}
use tuya_ble_mesh.Bytes.{Bytes, le_digits, from_bytes_le}
use tuya_ble_mesh.Bytes.Words.{length-le_digits}
use tuya_ble_mesh.Mesh.Ccm.{MeshCipher}

-- The text with a tag of zeros.
abbrev pub zero_tag : MeshCipher
zero_tag = record {
  seal = λ key nonce tag text. text ++ replicate tag 0;
  unseal = λ key nonce tag sealed. some (take (length sealed - tag) sealed);
  unseal-seal = λ key nonce tag text. ap some (
      take-append (length (text ++ replicate tag 0) - tag) text (replicate tag 0)
        (omega (arith, length-append text (replicate tag 0), length-replicate {A = ℕ} tag 0)));
  length-seal = λ key nonce tag text.
      omega (arith, length-append text (replicate tag 0), length-replicate {A = ℕ} tag 0);
  block = λ key text. le_digits 16 (from_bytes_le key + from_bytes_le text);
  length-block = λ key text hk ht. length-le_digits 16 (from_bytes_le key + from_bytes_le text);
}

abbrev pub key16 : Bytes
key16 = replicate 16 7
