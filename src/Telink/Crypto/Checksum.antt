-- ===== src/Telink/Crypto/Checksum.antt =====
-- The CBC-MAC of `crypto.py`: `make_checksum` and `verify_checksum`.
use tuya_ble_mesh.Prelude.{ℕ, zero, suc, ◌+◌, ◌-◌, ◌/◌, ◌<◌, ◌≡◌, ◌≢◌, ◌↔◌, refl}
use tuya_ble_mesh.Prelude.{ap, sym, ◌∙◌, arith, [], ◌∷◌, ◌++◌, true, ok, err, length, take, drop}
use tuya_ble_mesh.Prelude.{authentication_error, Bool, guard, ◌>>◌}
use tuya_ble_mesh.Bytes.{Bytes, zip_xor}
use tuya_ble_mesh.Bytes.Words.{bytes_of_one}
use tuya_ble_mesh.Bytes.Strings.{length-zip_xor, xor_bytes-zip_xor}
use tuya_ble_mesh.Telink.Crypto.{BlockCipher, pad_to_block, compare_digest}
use tuya_ble_mesh.Telink.Crypto.{mac_loop, make_checksum, verify_checksum}
use tuya_ble_mesh.Telink.Crypto.Blocks.{telink_block, length-telink_block}
use tuya_ble_mesh.Telink.Crypto.Blocks.{telink_aes_encrypt-telink_block, pad_to_block_full}
use tuya_ble_mesh.Telink.Crypto.Blocks.{length-pad_to_block}

pub compare_digest_iff : (a b : Bytes) → (compare_digest a b ≡ true) ↔ (a ≡ b)
unfolding compare_digest
compare_digest_iff [] [] = (λ _. refl, λ _. refl)
compare_digest_iff [] (y ∷ b) = (λ e. cc, λ e. cc)
compare_digest_iff (x ∷ a) [] = (λ e. cc, λ e. cc)
compare_digest_iff (x ∷ a) (y ∷ b) =
    let (to, from) = compare_digest_iff a b in (λ e. ground (arith, to), λ e. ground (arith, from))

module _ (aes : BlockCipher) where
  -- The MAC of the rest of a payload, from the chaining value.
  mac_blocks : ℕ → Bytes → Bytes → Bytes → Bytes
  mac_blocks zero key check rest = check
  mac_blocks (suc rounds) key check rest =
      mac_blocks rounds key (telink_block aes key (zip_xor check (pad_to_block (take 16 rest))))
        (drop 16 rest)

  mac_loop-mac_blocks :
      (rounds : ℕ) (key check rest : Bytes)
      → length key ≡ 16
      → length check ≡ 16
      → (mac_loop aes rounds key check rest ≡ ok (mac_blocks rounds key check rest))
        × (length (mac_blocks rounds key check rest) ≡ 16)
  unfolding mac_loop mac_blocks
  mac_loop-mac_blocks zero key check rest hk hc = (refl, hc)
  mac_loop-mac_blocks (suc rounds) key check rest hk hc =
      let chunk = pad_to_block (take 16 rest) in
      let padded = length-pad_to_block (take 16 rest) in
      let size : length (zip_xor check chunk) ≡ 16 =
        omega (arith, length-zip_xor check chunk, padded) in
      let (runs, long) =
        mac_loop-mac_blocks rounds key (telink_block aes key (zip_xor check chunk)) (drop 16 rest)
          hk (length-telink_block aes key (zip_xor check chunk) hk size) in
      (
        rw
            (
              xor_bytes-zip_xor check chunk (hc ∙ sym padded),
              telink_aes_encrypt-telink_block aes key (zip_xor check chunk) hk,
              pad_to_block_full (zip_xor check chunk) size,
            )
            runs,
        long,
      )

  -- The full MAC of a payload under its nonce.
  pub full_mac : Bytes → Bytes → Bytes → Bytes
  full_mac key nonce payload =
      mac_blocks ((length payload + 16 - 1) / 16) key
        (telink_block aes key (pad_to_block (nonce ++ (length payload ∷ [])))) payload

  -- Under a key of 16 bytes every payload that its length byte can count has a MAC of 16 bytes.
  pub make_checksum-full_mac :
      (key nonce payload : Bytes)
      → length key ≡ 16
      → length payload < 256
      → (make_checksum aes key nonce payload ≡ ok (full_mac key nonce payload))
        × (length (full_mac key nonce payload) ≡ 16)
  unfolding make_checksum full_mac
  make_checksum-full_mac key nonce payload hk hp =
      let start = pad_to_block (nonce ++ (length payload ∷ [])) in
      let (runs, long) =
        mac_loop-mac_blocks ((length payload + 16 - 1) / 16) key (telink_block aes key start)
          payload hk (length-telink_block aes key start hk (length-pad_to_block _)) in
      (
        rw
            (
              hk,
              bytes_of_one (length payload) hp,
              telink_aes_encrypt-telink_block aes key start hk,
              pad_to_block_full start (length-pad_to_block _),
            )
            runs,
        long,
      )

  -- `verify_checksum` accepts exactly the MACs whose first two bytes are those of the payload's own,
  -- and answers every other with an AuthenticationError.
  pub verify_checksum_decides :
      (key nonce payload expected_mac : Bytes)
      → length key ≡ 16
      → length payload < 256
      → let two = take 2 (full_mac key nonce payload) in
        ((verify_checksum aes key nonce payload expected_mac ≡ ok true)
          ↔ (two ≡ take 2 expected_mac))
        × ((verify_checksum aes key nonce payload expected_mac ≡ err authentication_error)
            ↔ (two ≢ take 2 expected_mac))
  unfolding verify_checksum
  verify_checksum_decides key nonce payload expected_mac hk hp =
      let two = take 2 (full_mac key nonce payload) in
      let (same, differ) = compare_digest_iff two (take 2 expected_mac) in
      rw (make_checksum-full_mac key nonce payload hk hp).0 (
        (λ e. same (ground arith), λ e. rw (differ e)),
        (
          λ e t. cc (e, ap (λ (b : Bool). guard b authentication_error >> ok true) (differ t)),
          λ n. ground (arith, same),
        ),
      )

  pub verify_checksum_accepts :
      (key nonce payload expected_mac : Bytes) {b : Bool}
      → length key ≡ 16
      → length payload < 256
      → verify_checksum aes key nonce payload expected_mac ≡ ok b
      → take 2 (full_mac key nonce payload) ≡ take 2 expected_mac
  unfolding verify_checksum
  verify_checksum_accepts key nonce payload expected_mac hk hp e =
      let same =
        (compare_digest_iff (take 2 (full_mac key nonce payload)) (take 2 expected_mac)).0 in
      let e' = rw (make_checksum-full_mac key nonce payload hk hp).0 at e in same (ground arith)
