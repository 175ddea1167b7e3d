-- ===== src/Telink/Crypto.antt =====
-- `lib/tuya_ble_mesh/crypto.py`: Telink AES, the pairing proof and session key, counter mode and
-- the CBC-MAC. AES itself belongs to the package `cryptography` and is a parameter.
pub mod Blocks
pub mod Counter
pub mod Checksum
use tuya_ble_mesh.Prelude.{ℕ, zero, suc, ◌+◌, ◌-◌, ◌/◌, ◌≡◌, Bool, true, false, ◌&&◌, [], ◌∷◌, ◌++◌}
use tuya_ble_mesh.Prelude.{reverse, bit_and, ltb, leb, ◌==◌, if◌then◌else◌, length, take, drop}
use tuya_ble_mesh.Prelude.{Result, ok, err, ◌>>=◌, ◌>>◌, guard, raise_if}
use tuya_ble_mesh.Prelude.{crypto_error, authentication_error}
use tuya_ble_mesh.Bytes.{Bytes, IsBytes, zeros, bytes_of, xor_bytes}

-- AES-128-ECB on one block: a key and a block of 16 bytes give a block of 16 bytes.
pub record BlockCipher : Type 0 where
  pub encrypt_block : Bytes → Bytes → Bytes
  pub length-encrypt_block :
      (key block : Bytes)
      → length key ≡ 16
      → length block ≡ 16
      → length (encrypt_block key block) ≡ 16
  pub encrypt_block-IsBytes : (key block : Bytes) → IsBytes (encrypt_block key block)

unfoldable pub validate_key : Bytes → Result (Unit {0})
validate_key key = guard (length key == 16) crypto_error

unfoldable pub pad_to_block : Bytes → Bytes
pad_to_block content =
    if leb 16 (length content) then take 16 content else content ++ zeros (16 - length content)

-- `base[0] = (base[0] + 1) & 0xFF`
unfoldable pub next_counter : Bytes → Bytes
next_counter [] = []
next_counter (b ∷ base) = bit_and (b + 1) 0xff ∷ base

-- `hmac.compare_digest`
unfoldable pub compare_digest : Bytes → Bytes → Bool
compare_digest [] [] = true
compare_digest [] (y ∷ ys) = false
compare_digest (x ∷ xs) [] = false
compare_digest (x ∷ xs) (y ∷ ys) = x == y && compare_digest xs ys

unfoldable pub xor_name_password : Bytes → Bytes → Result Bytes
xor_name_password mesh_name mesh_password =
    xor_bytes (pad_to_block mesh_name) (pad_to_block mesh_password)

module _ (aes : BlockCipher) where
  open aes use {encrypt_block}

  unfoldable pub telink_aes_encrypt : Bytes → Bytes → Result Bytes
  unfolding validate_key
  telink_aes_encrypt key plaintext = do
    validate_key key
    let padded = pad_to_block plaintext
    ok (reverse (encrypt_block (reverse key) (reverse padded)))

  unfoldable pub make_pair_packet : Bytes → Bytes → Bytes → Result Bytes
  make_pair_packet mesh_name mesh_password session_random = do
    guard (length session_random == 8) crypto_error
    name_pass ← xor_name_password mesh_name mesh_password
    encrypted ← telink_aes_encrypt (pad_to_block session_random) name_pass
    ok (0x0c ∷ session_random ++ take 8 encrypted)

  unfoldable pub make_session_key : Bytes → Bytes → Bytes → Bytes → Result Bytes
  make_session_key mesh_name mesh_password client_random device_random = do
    guard (length client_random == 8) crypto_error
    guard (length device_random == 8) crypto_error
    name_pass ← xor_name_password mesh_name mesh_password
    telink_aes_encrypt name_pass (client_random ++ device_random)

  unfoldable pub encrypt_mesh_credential : Bytes → Bytes → Result Bytes
  unfolding validate_key
  encrypt_mesh_credential session_key credential = do
    validate_key session_key
    telink_aes_encrypt session_key (pad_to_block credential)

  -- `for i in range(0, len(payload), 16)` of `crypt_payload`: the rounds left, and what of the
  -- payload they have not reached.
  unfoldable pub ctr_loop : ℕ → Bytes → Bytes → Bytes → Result Bytes
  unfolding next_counter
  ctr_loop zero key base rest = ok []
  ctr_loop (suc rounds) key base rest = do
    keystream ← telink_aes_encrypt key base
    let chunk = take 16 rest
    mixed ← xor_bytes (take (length chunk) keystream) chunk
    following ← ctr_loop rounds key (next_counter base) (drop 16 rest)
    ok (mixed ++ following)

  unfoldable pub crypt_payload : Bytes → Bytes → Bytes → Result Bytes
  unfolding validate_key
  crypt_payload key nonce payload = do
    validate_key key
    let blocks_needed = (length payload + 16 - 1) / 16
    raise_if (ltb 256 blocks_needed) crypto_error
    ctr_loop blocks_needed key (pad_to_block (0 ∷ nonce)) payload

  -- The loop of `make_checksum`, as above.
  unfoldable pub mac_loop : ℕ → Bytes → Bytes → Bytes → Result Bytes
  mac_loop zero key check rest = ok check
  mac_loop (suc rounds) key check rest = do
    xored ← xor_bytes check (pad_to_block (take 16 rest))
    check' ← telink_aes_encrypt key xored
    mac_loop rounds key check' (drop 16 rest)

  unfoldable pub make_checksum : Bytes → Bytes → Bytes → Result Bytes
  unfolding validate_key
  make_checksum key nonce payload = do
    validate_key key
    size ← bytes_of (length payload ∷ [])
    check ← telink_aes_encrypt key (pad_to_block (nonce ++ size))
    mac_loop ((length payload + 16 - 1) / 16) key check payload

  unfoldable pub verify_checksum : Bytes → Bytes → Bytes → Bytes → Result Bool
  verify_checksum key nonce payload expected_mac = do
    computed ← make_checksum key nonce payload
    guard (compare_digest (take 2 computed) (take 2 expected_mac)) authentication_error
    ok true
