-- ===== src/Mesh/Transport/Access.antt =====
-- Unsegmented access messages: `make_access_unsegmented` and `decrypt_access_payload`.
use tuya_ble_mesh.Prelude.{ℕ, ◌+◌, ◌*◌, ◌/◌, ◌%◌, ◌^◌, ◌<◌, ◌≤◌, ◌≡◌, refl, ◌∙◌, arith, some}
use tuya_ble_mesh.Prelude.{
  [], ◌∷◌, ◌++◌, ok, length, drop, bit_and, bit_or, not-lt→ltb, ◌-◌, ◌==◌, if◌then◌else◌,
}
use tuya_ble_mesh.Mesh.Codec.Header.{top_bit}
use tuya_ble_mesh.Bits.Fields.{◌<<<◌, ◌>>>◌, bit_and_mask, bit_or_add}
use tuya_ble_mesh.Bytes.{Bytes, be_digits}
use tuya_ble_mesh.Bytes.Words.{pack_be-be_digits, bytes_of_one, bytes_of_two}
use tuya_ble_mesh.Mesh.Ccm.{MeshCipher, mesh_aes_ccm_encrypt, mesh_aes_ccm_decrypt, of_unseal}
use tuya_ble_mesh.Mesh.Transport.{
  MeshKeys, select_key, make_app_nonce, opened_message, access_message, no_crypto_error,
}
use tuya_ble_mesh.Mesh.Transport.{make_access_unsegmented, open_access, decrypt_access_payload}

-- The nonce as plain bytes.
abbrev pub app_nonce : ℕ → ℕ → ℕ → ℕ → ℕ → ℕ → Bytes
app_nonce akf szmic seq src dst iv =
    ((2 - akf) ∷ szmic * 128 ∷ [])
    ++ drop 1 (be_digits 4 seq)
    ++ be_digits 2 src
    ++ be_digits 2 dst
    ++ be_digits 4 iv

nonce_type : (akf : ℕ) → akf < 2 → (if akf == 0 then 2 else 1) ≡ 2 - akf
nonce_type akf h = ground arith

pub make_app_nonce_ok :
    (akf szmic seq src dst iv : ℕ)
    → akf < 2
    → szmic < 2
    → seq < 2 ^ 24
    → src < 2 ^ 16
    → dst < 2 ^ 16
    → iv < 2 ^ 32
    → make_app_nonce akf szmic seq src dst iv ≡ ok (app_nonce akf szmic seq src dst iv)
unfolding make_app_nonce
make_app_nonce_ok akf szmic seq src dst iv hk hz hs ha hd hi =
    rw
      (
        nonce_type akf hk,
        bytes_of_two (2 - akf) (szmic * 128) (omega arith) (omega arith),
        pack_be-be_digits 4 seq (omega arith),
        pack_be-be_digits 2 src ha,
        pack_be-be_digits 2 dst hd,
        pack_be-be_digits 4 iv hi,
      )
      refl

access_header :
    (akf aid : ℕ) → akf < 2 → bit_or (akf <<< 6) (bit_and aid 0x3f) ≡ akf * 64 + aid % 64
access_header akf aid h =
    rw (bit_and_mask 6 aid) (bit_or_add 6 (akf * 64) (aid % 64) (omega arith) (omega arith))

module _ (cipher : MeshCipher) where
  open cipher use {seal, unseal-seal}

  four_encrypt :
      (key nonce text : Bytes)
      → length key ≡ 16
      → mesh_aes_ccm_encrypt cipher key nonce text 4 ≡ ok (seal key nonce 4 text)
  unfolding mesh_aes_ccm_encrypt
  four_encrypt key nonce text h = rw h refl

  four_decrypt :
      (key nonce text : Bytes)
      → length key ≡ 16
      → mesh_aes_ccm_decrypt cipher key nonce (seal key nonce 4 text) 4 ≡ ok text
  unfolding mesh_aes_ccm_decrypt of_unseal
  four_decrypt key nonce text h = rw (h, unseal-seal key nonce 4 text) refl

  open_access_ok :
      (key : Bytes) (akf aid seq src dst iv : ℕ) (payload pdu : Bytes)
      → length key ≡ 16
      → akf < 2
      → seq < 2 ^ 24
      → src < 2 ^ 16
      → dst < 2 ^ 16
      → iv < 2 ^ 32
      → open_access cipher key akf aid seq src dst iv
          (seal key (app_nonce akf 0 seq src dst iv) 4 payload)
          pdu
        ≡ ok (some (opened_message akf aid pdu payload))
  unfolding open_access no_crypto_error access_message
  open_access_ok key akf aid seq src dst iv payload pdu hk ha hq hr hd hi =
      rw
        (
          make_app_nonce_ok akf 0 seq src dst iv ha (omega arith) hq hr hd hi,
          four_decrypt key (app_nonce akf 0 seq src dst iv) payload hk,
        )
        refl

  -- What a byte below 128 opens, under the key that its bit 6 selects.
  decrypt_clear :
      (keys : MeshKeys) (key : Bytes) (head akf aid seq src dst : ℕ) (upper : Bytes)
      → bit_and head 0x80 ≡ 0
      → bit_and (head >>> 6) 1 ≡ akf
      → bit_and head 0x3f ≡ aid
      → select_key keys akf ≡ some key
      → decrypt_access_payload cipher keys src dst seq (head ∷ upper)
        ≡ open_access cipher key akf aid seq src dst keys.iv_index upper (head ∷ upper)
  unfolding decrypt_access_payload
  decrypt_clear keys key head akf aid seq src dst upper hc hk hl hs =
      rw (hc, hk, hl, hs) (rw (hk, hl) refl)

  -- An access payload of at most 11 bytes, sealed with a 16-byte key of the receiver and with fields
  -- in range, is opened by `decrypt_access_payload` under the same addresses, sequence number and
  -- IV index: the message carries the payload, the kind of the key and the low 6 bits of the AID.
  pub decrypt_access_payload-unsegmented :
      (keys : MeshKeys) (key : Bytes) (akf aid seq src dst : ℕ) (payload : Bytes)
      → select_key keys akf ≡ some key
      → length key ≡ 16
      → length payload ≤ 11
      → akf < 2
      → seq < 2 ^ 24
      → src < 2 ^ 16
      → dst < 2 ^ 16
      → keys.iv_index < 2 ^ 32
      → (pdu : Bytes) × (make_access_unsegmented cipher key src dst seq keys.iv_index payload akf
            aid
          ≡ ok pdu)
        × (decrypt_access_payload cipher keys src dst seq pdu
            ≡ ok (some (opened_message akf (aid % 64) pdu payload)))
  unfolding make_access_unsegmented
  decrypt_access_payload-unsegmented keys key akf aid seq src dst payload hs hk hp ha hq hr hd hi =
      let nonce = app_nonce akf 0 seq src dst keys.iv_index in
      let head = akf * 64 + aid % 64 in
      let clear : head / 128 * 128 ≡ 0 = omega arith in
      let kind : head / 64 % 2 ≡ akf = omega arith in
      let low : head % 64 ≡ aid % 64 = omega arith in
      (
        head ∷ seal key nonce 4 payload,
        rw
            (
              not-lt→ltb 11 (length payload) hp,
              make_app_nonce_ok akf 0 seq src dst keys.iv_index ha (omega arith) hq hr hd hi,
              four_encrypt key nonce payload hk,
              access_header akf aid ha,
              bytes_of_one head (omega arith),
            )
            refl,
        decrypt_clear keys key head akf (aid % 64) seq src dst (seal key nonce 4 payload)
              (top_bit head (omega arith) ∙ clear) (bit_and_mask 1 (head >>> 6) ∙ kind)
              (bit_and_mask 6 head ∙ low) hs
            ∙ open_access_ok key akf (aid % 64) seq src dst keys.iv_index payload
                (head ∷ seal key nonce 4 payload) hk ha hq hr hd hi,
      )
