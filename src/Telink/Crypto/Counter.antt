-- ===== src/Telink/Crypto/Counter.antt =====
-- Counter mode: `crypt_payload` by its key stream, and the counter blocks.
use tuya_ble_mesh.Prelude.{ℕ, zero, suc, ◌+◌, ◌-◌, ◌*◌, ◌/◌, ◌≤◌}
use tuya_ble_mesh.Prelude.{◌≡◌, refl, sym, ap, ◌∙◌, arith, [], ◌∷◌, ◌++◌}
use tuya_ble_mesh.Prelude.{ok, length, take, drop, length-take, length-drop}
use tuya_ble_mesh.Prelude.{length-append, All-append, not-lt→ltb}
use tuya_ble_mesh.Bytes.{Bytes, IsByte, IsBytes, zip_xor}
use tuya_ble_mesh.Bytes.Strings.{length-zip_xor, zip_xor_cancel, xor_bytes-zip_xor, zip_xor-IsBytes}
use tuya_ble_mesh.Bytes.Strings.{zip_xor-append, zip_xor-take}
use tuya_ble_mesh.Telink.Crypto.{BlockCipher, pad_to_block, next_counter}
use tuya_ble_mesh.Telink.Crypto.{ctr_loop, crypt_payload}
use tuya_ble_mesh.Telink.Crypto.Blocks.{telink_block, length-telink_block, telink_block-IsBytes}
use tuya_ble_mesh.Telink.Crypto.Blocks.{telink_aes_encrypt-telink_block, pad_to_block_full}
use tuya_ble_mesh.Telink.Crypto.Blocks.{length-pad_to_block}

length-next_counter : (base : Bytes) → length (next_counter base) ≡ length base
unfolding next_counter
length-next_counter [] = refl
length-next_counter (b ∷ base) = refl

module _ (aes : BlockCipher) where
  -- The key stream of so many rounds.
  pub key_stream : ℕ → Bytes → Bytes → Bytes
  key_stream zero key base = []
  key_stream (suc rounds) key base =
      telink_block aes key base ++ key_stream rounds key (next_counter base)

  length-key_stream :
      (rounds : ℕ) (key base : Bytes)
      → length key ≡ 16
      → length base ≡ 16
      → length (key_stream rounds key base) ≡ 16 * rounds
  unfolding key_stream
  length-key_stream zero key base hk hb = refl
  length-key_stream (suc rounds) key base hk hb = omega (
    arith,
    length-append (telink_block aes key base) (key_stream rounds key (next_counter base)),
    length-telink_block aes key base hk hb,
    length-key_stream rounds key (next_counter base) hk (length-next_counter base ∙ hb),
  )

  ctr_loop-key_stream :
      (rounds : ℕ) (key base rest : Bytes)
      → length key ≡ 16
      → length base ≡ 16
      → length rest ≤ 16 * rounds
      → ctr_loop aes rounds key base rest ≡ ok (zip_xor (key_stream rounds key base) rest)
  unfolding ctr_loop key_stream zip_xor
  ctr_loop-key_stream zero key base rest hk hb h = refl
  ctr_loop-key_stream (suc rounds) key base rest hk hb h =
      let block = telink_block aes key base in
      let chunk = take 16 rest in
      let size = length-telink_block aes key base hk hb in
      let short : length chunk ≤ length block = omega (arith, length-take 16 rest, size) in
      let even : length (take (length chunk) block) ≡ length chunk =
        omega (arith, length-take (length chunk) block) in
      let split : zip_xor (block ++ key_stream rounds key (next_counter base)) rest
          ≡ zip_xor block chunk
            ++ zip_xor (key_stream rounds key (next_counter base)) (drop 16 rest) =
        zip_xor-append block (key_stream rounds key (next_counter base)) rest
        ∙ ap
            (λ (n : ℕ).
              zip_xor block (take n rest)
              ++ zip_xor (key_stream rounds key (next_counter base)) (drop n rest))
            size in
      rw
        (
          telink_aes_encrypt-telink_block aes key base hk,
          pad_to_block_full base hb,
          xor_bytes-zip_xor (take (length chunk) block) chunk even,
          zip_xor-take block chunk,
          ctr_loop-key_stream rounds key (next_counter base) (drop 16 rest) hk
              (length-next_counter base ∙ hb) (omega (arith, length-drop 16 rest)),
        )
        (ap ok (sym split))

  -- What `crypt_payload` returns.
  pub crypt_payload-key_stream :
      (key nonce payload : Bytes)
      → length key ≡ 16
      → length payload ≤ 4096
      → crypt_payload aes key nonce payload
        ≡ ok (
            zip_xor
              (key_stream ((length payload + 16 - 1) / 16) key (pad_to_block (0 ∷ nonce)))
              payload)
  unfolding crypt_payload
  crypt_payload-key_stream key nonce payload hk hp =
      rw (hk, not-lt→ltb 256 ((length payload + 16 - 1) / 16) (omega arith))
        (ctr_loop-key_stream ((length payload + 16 - 1) / 16) key _ payload hk
          (length-pad_to_block (0 ∷ nonce)) (omega arith))

  -- With a key of 16 bytes every payload of at most 4096 bytes is encrypted to as many bytes, and
  -- encrypting those again under the same key and nonce gives the payload back.
  pub crypt_payload_involutive :
      (key nonce payload : Bytes)
      → length key ≡ 16
      → length payload ≤ 4096
      → (cipher : Bytes) × (crypt_payload aes key nonce payload ≡ ok cipher)
        × (length cipher ≡ length payload)
        × (crypt_payload aes key nonce cipher ≡ ok payload)
  crypt_payload_involutive key nonce payload hk hp =
      let rounds = (length payload + 16 - 1) / 16 in
      let stream = key_stream rounds key (pad_to_block (0 ∷ nonce)) in
      let long : length payload ≤ length stream =
        omega (arith, length-key_stream rounds key _ hk (length-pad_to_block (0 ∷ nonce))) in
      let same : length (zip_xor stream payload) ≡ length payload =
        omega (arith, length-zip_xor stream payload) in
      (
        zip_xor stream payload,
        crypt_payload-key_stream key nonce payload hk hp,
        same,
        rw
            (
              crypt_payload-key_stream key nonce (zip_xor stream payload) hk (omega arith),
              same,
              zip_xor_cancel stream payload long,
            )
            refl,
      )

  key_stream-IsBytes : (rounds : ℕ) (key base : Bytes) → IsBytes (key_stream rounds key base)
  unfolding key_stream
  key_stream-IsBytes zero key base = tt
  key_stream-IsBytes (suc rounds) key base =
      All-append IsByte (telink_block aes key base) _ (telink_block-IsBytes aes key base)
        (key_stream-IsBytes rounds key (next_counter base))

  pub crypt_payload-IsBytes :
      (key nonce payload : Bytes) {cipher : Bytes}
      → length key ≡ 16
      → length payload ≤ 4096
      → IsBytes payload
      → crypt_payload aes key nonce payload ≡ ok cipher
      → IsBytes cipher
  crypt_payload-IsBytes key nonce payload {cipher} hk hp h e =
      let stream = key_stream ((length payload + 16 - 1) / 16) key (pad_to_block (0 ∷ nonce)) in
      let same : zip_xor stream payload ≡ cipher =
        cc (e, crypt_payload-key_stream key nonce payload hk hp) in
      rw (← same) (zip_xor-IsBytes stream payload (key_stream-IsBytes _ key _) h)
