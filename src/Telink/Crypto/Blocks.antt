-- ===== src/Telink/Crypto/Blocks.antt =====
-- What the block operations of `crypto.py` return on keys and blocks of the right size.
use tuya_ble_mesh.Prelude.{ℕ, ◌-◌, ◌≡◌, refl, ◌∙◌, arith}
use tuya_ble_mesh.Prelude.{ok, length, reverse}
use tuya_ble_mesh.Prelude.{length-append, length-take, length-reverse, length-replicate, take_all}
use tuya_ble_mesh.Prelude.{All-reverse, le→leb}
use tuya_ble_mesh.Bytes.{Bytes, IsByte, IsBytes, zeros}
use tuya_ble_mesh.Telink.Crypto.{BlockCipher, pad_to_block, telink_aes_encrypt}

pub length-pad_to_block : (content : Bytes) → length (pad_to_block content) ≡ 16
unfolding pad_to_block
length-pad_to_block content = ground (
  arith,
  length-take 16 content,
  length-append content (zeros (16 - length content)),
  length-replicate {A = ℕ} (16 - length content) 0,
)

-- A full block is left as it is.
pub pad_to_block_full : (content : Bytes) → length content ≡ 16 → pad_to_block content ≡ content
unfolding pad_to_block
pad_to_block_full content h =
    rw (le→leb 16 (length content) (omega arith)) (take_all 16 content (omega arith))

module _ (aes : BlockCipher) where
  open aes use {encrypt_block, length-encrypt_block, encrypt_block-IsBytes}

  -- One Telink block: key, text and result in reversed byte order.
  unfoldable pub telink_block : Bytes → Bytes → Bytes
  telink_block key block = reverse (encrypt_block (reverse key) (reverse block))

  pub length-telink_block :
      (key block : Bytes)
      → length key ≡ 16
      → length block ≡ 16
      → length (telink_block key block) ≡ 16
  unfolding telink_block
  length-telink_block key block hk hb =
      length-reverse (encrypt_block (reverse key) (reverse block))
      ∙ length-encrypt_block (reverse key) (reverse block) (length-reverse key ∙ hk)
          (length-reverse block ∙ hb)

  pub telink_block-IsBytes : (key block : Bytes) → IsBytes (telink_block key block)
  unfolding telink_block
  telink_block-IsBytes key block = All-reverse IsByte _ (encrypt_block-IsBytes _ _)

  pub telink_aes_encrypt-telink_block :
      (key plaintext : Bytes)
      → length key ≡ 16
      → telink_aes_encrypt aes key plaintext ≡ ok (telink_block key (pad_to_block plaintext))
  unfolding telink_aes_encrypt telink_block
  telink_aes_encrypt-telink_block key plaintext h = rw h refl
