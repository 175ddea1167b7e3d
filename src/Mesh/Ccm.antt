-- ===== src/Mesh/Ccm.antt =====
-- `lib/tuya_ble_mesh/sig_mesh_crypto.py`: the wrappers of AES-CCM and of AES on one block. The
-- primitives belong to the package `cryptography` and are a parameter.
use tuya_ble_mesh.Prelude.{
  ℕ, ◌+◌, ◌≡◌, Option, none, some, ◌==◌, ◌||◌, length, Result, ok, err, ◌>>◌,
}
use tuya_ble_mesh.Prelude.{guard, crypto_error}
use tuya_ble_mesh.Bytes.{Bytes}

-- `AESCCM(key, tag_length).encrypt` and `decrypt` with no associated data, `none` for InvalidTag,
-- and AES-128-ECB on one block: what is sealed opens under the same key, nonce and tag length, the
-- tag lengthens the text, and a block is 16 bytes.
pub record MeshCipher : Type 0 where
  pub seal : Bytes → Bytes → ℕ → Bytes → Bytes
  pub unseal : Bytes → Bytes → ℕ → Bytes → Option Bytes
  pub unseal-seal :
      (key nonce : Bytes) (tag : ℕ) (text : Bytes)
      → unseal key nonce tag (seal key nonce tag text) ≡ some text
  pub length-seal :
      (key nonce : Bytes) (tag : ℕ) (text : Bytes)
      → length (seal key nonce tag text) ≡ length text + tag
  pub block : Bytes → Bytes → Bytes
  pub length-block :
      (key text : Bytes) → length key ≡ 16 → length text ≡ 16 → length (block key text) ≡ 16

unfoldable pub of_unseal : Option Bytes → Result Bytes
of_unseal none = err crypto_error
of_unseal (some text) = ok text

module _ (cipher : MeshCipher) where
  open cipher use {seal, unseal, block}

  unfoldable pub aes_ecb : Bytes → Bytes → Result Bytes
  aes_ecb key plaintext = do
    guard (length key == 16) crypto_error
    guard (length plaintext == 16) crypto_error
    ok (block key plaintext)

  unfoldable pub mesh_aes_ccm_encrypt : Bytes → Bytes → Bytes → ℕ → Result Bytes
  mesh_aes_ccm_encrypt key nonce plaintext mic_len = do
    guard (length key == 16) crypto_error
    guard (mic_len == 4 || mic_len == 8) crypto_error
    ok (seal key nonce mic_len plaintext)

  unfoldable pub mesh_aes_ccm_decrypt : Bytes → Bytes → Bytes → ℕ → Result Bytes
  unfolding of_unseal
  mesh_aes_ccm_decrypt key nonce ct_and_mic mic_len = do
    guard (length key == 16) crypto_error
    guard (mic_len == 4 || mic_len == 8) crypto_error
    of_unseal (unseal key nonce mic_len ct_and_mic)
