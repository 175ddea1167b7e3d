-- ===== src/Mesh/Network/Encrypt.antt =====
-- A network PDU that `encrypt_network_pdu` builds, as plain bytes.
use tuya_ble_mesh.Prelude.{
  ℕ, ◌+◌, ◌*◌, ◌%◌, ◌^◌, ◌<◌, ◌≤◌, ◌≡◌, refl, arith, [], ◌∷◌, ◌++◌, ok, err, crypto_error, ==_ne,
}
use tuya_ble_mesh.Prelude.{true, ◌==◌, ◌||◌, length, take, drop, bit_and, bit_or, length-take}
use tuya_ble_mesh.Bits.Fields.{◌<<<◌, bit_and_mask, bit_or_add}
use tuya_ble_mesh.Bytes.{Bytes, be_digits, zip_xor}
use tuya_ble_mesh.Bytes.Words.{pack_be-be_digits, bytes_of_two}
use tuya_ble_mesh.Bytes.Strings.{length-zip_xor, xor_bytes-zip_xor}
use tuya_ble_mesh.Mesh.Ccm.{
  MeshCipher, aes_ecb, mesh_aes_ccm_encrypt, mesh_aes_ccm_decrypt, of_unseal,
}
use tuya_ble_mesh.Mesh.Network.{make_network_nonce, mic_length, privacy_block, encrypt_network_pdu}

-- A byte of one bit and seven.
pub flag_byte : (a b : ℕ) → bit_or (bit_and a 1 <<< 7) (bit_and b 0x7f) ≡ a % 2 * 128 + b % 128
flag_byte a b =
    rw (bit_and_mask 1 a, bit_and_mask 7 b)
      (bit_or_add 7 (a % 2 * 128) (b % 128) (omega arith) (omega arith))

pub unflag_byte : (b : ℕ) → bit_and b 0x7f ≡ b % 128
unflag_byte b = bit_and_mask 7 b

abbrev pub seq_bytes : ℕ → Bytes
seq_bytes seq = drop 1 (be_digits 4 seq)

abbrev pub network_nonce : ℕ → ℕ → ℕ → ℕ → Bytes
network_nonce c seq src iv =
    (0 ∷ c ∷ []) ++ seq_bytes seq ++ be_digits 2 src ++ (0 ∷ 0 ∷ []) ++ be_digits 4 iv

pub make_network_nonce_ok :
    (c seq src iv : ℕ)
    → c < 256
    → seq < 2 ^ 24
    → src < 2 ^ 16
    → iv < 2 ^ 32
    → make_network_nonce c seq src iv ≡ ok (network_nonce c seq src iv)
unfolding make_network_nonce
make_network_nonce_ok c seq src iv hc hs ha hi =
    rw
      (
        bytes_of_two 0 c (omega arith) hc,
        pack_be-be_digits 4 seq (omega arith),
        pack_be-be_digits 2 src ha,
        pack_be-be_digits 4 iv hi,
      )
      refl

-- The part of the header that is hidden.
abbrev pub header_tail : ℕ → ℕ → ℕ → Bytes
header_tail c seq src = (c ∷ seq_bytes seq) ++ be_digits 2 src

module _ (cipher : MeshCipher) where
  open cipher use {seal, block, length-block, length-seal, unseal, unseal-seal}

  abbrev pub pecb : Bytes → ℕ → Bytes → Bytes
  pecb priv_key iv encrypted =
      block priv_key ((0 ∷ 0 ∷ 0 ∷ 0 ∷ 0 ∷ []) ++ be_digits 4 iv ++ take 7 encrypted)

  pecb_input :
      (iv : ℕ) (encrypted : Bytes)
      → 7 ≤ length encrypted
      → length ((0 ∷ 0 ∷ 0 ∷ 0 ∷ 0 ∷ []) ++ be_digits 4 iv ++ take 7 encrypted) ≡ 16
  pecb_input iv encrypted h = omega (arith, length-take 7 encrypted)

  pub privacy_block_ok :
      (priv_key : Bytes) (iv : ℕ) (encrypted : Bytes)
      → length priv_key ≡ 16
      → iv < 2 ^ 32
      → 7 ≤ length encrypted
      → privacy_block cipher priv_key iv encrypted ≡ ok (pecb priv_key iv encrypted)
  unfolding privacy_block aes_ecb
  privacy_block_ok priv_key iv encrypted hk hi he =
      rw (pack_be-be_digits 4 iv hi, hk, pecb_input iv encrypted he) refl

  pub privacy_block_short :
      (priv_key : Bytes) (iv : ℕ) (encrypted : Bytes)
      → length priv_key ≡ 16
      → iv < 2 ^ 32
      → length encrypted < 7
      → privacy_block cipher priv_key iv encrypted ≡ err crypto_error
  unfolding privacy_block aes_ecb
  privacy_block_short priv_key iv encrypted hk hi he =
      rw
        (
          pack_be-be_digits 4 iv hi,
          hk,
          ==_ne (length ((0 ∷ 0 ∷ 0 ∷ 0 ∷ 0 ∷ []) ++ be_digits 4 iv ++ take 7 encrypted)) 16
              (λ e. omega (arith, e, length-take 7 encrypted)),
        )
        refl

  abbrev pub sealed : Bytes → ℕ → ℕ → ℕ → ℕ → ℕ → ℕ → Bytes → Bytes
  sealed enc_key ctl ttl seq src dst iv transport_pdu =
      seal enc_key (network_nonce (ctl * 128 + ttl) seq src iv) (mic_length ctl)
        (be_digits 2 dst ++ transport_pdu)

  abbrev pub hidden : Bytes → ℕ → Bytes → ℕ → ℕ → ℕ → Bytes
  hidden priv_key iv encrypted c seq src =
      zip_xor (header_tail c seq src) (take 6 (pecb priv_key iv encrypted))

  pub length-pecb :
      (priv_key : Bytes) (iv : ℕ) (encrypted : Bytes)
      → length priv_key ≡ 16
      → 7 ≤ length encrypted
      → length (take 6 (pecb priv_key iv encrypted)) ≡ 6
  length-pecb priv_key iv encrypted hk he = omega (
    arith,
    length-take 6 (pecb priv_key iv encrypted),
    length-block priv_key ((0 ∷ 0 ∷ 0 ∷ 0 ∷ 0 ∷ []) ++ be_digits 4 iv ++ take 7 encrypted) hk
        (pecb_input iv encrypted he),
  )

  -- The header is 6 bytes, hidden and open.
  pub length-hidden :
      (priv_key : Bytes) (iv : ℕ) (encrypted : Bytes) (c seq src : ℕ)
      → length priv_key ≡ 16
      → 7 ≤ length encrypted
      → length (hidden priv_key iv encrypted c seq src) ≡ 6
  length-hidden priv_key iv encrypted c seq src hk he = omega (
    arith,
    length-zip_xor (header_tail c seq src) (take 6 (pecb priv_key iv encrypted)),
    length-pecb priv_key iv encrypted hk he,
  )

  mic_length_either : (ctl : ℕ) → ctl < 2 → (mic_length ctl == 4 || mic_length ctl == 8) ≡ true
  unfolding mic_length
  mic_length_either ctl h = ground arith

  ccm_encrypt_ok :
      (key nonce text : Bytes) (ctl : ℕ)
      → length key ≡ 16
      → ctl < 2
      → mesh_aes_ccm_encrypt cipher key nonce text (mic_length ctl)
        ≡ ok (seal key nonce (mic_length ctl) text)
  unfolding mesh_aes_ccm_encrypt
  ccm_encrypt_ok key nonce text ctl hk hc = rw (hk, mic_length_either ctl hc) refl

  pub ccm_decrypt_ok :
      (key nonce text : Bytes) (ctl : ℕ)
      → length key ≡ 16
      → ctl < 2
      → mesh_aes_ccm_decrypt cipher key nonce
          (seal key nonce (mic_length ctl) text)
          (mic_length ctl)
        ≡ ok text
  unfolding mesh_aes_ccm_decrypt of_unseal
  ccm_decrypt_ok key nonce text ctl hk hc =
      rw (hk, mic_length_either ctl hc, unseal-seal key nonce (mic_length ctl) text) refl

  pub length-sealed :
      (enc_key : Bytes) (ctl ttl seq src dst iv : ℕ) (transport_pdu : Bytes)
      → 1 ≤ length transport_pdu
      → 7 ≤ length (sealed enc_key ctl ttl seq src dst iv transport_pdu)
  unfolding mic_length
  length-sealed enc_key ctl ttl seq src dst iv transport_pdu h = ground (
    arith,
    length-seal enc_key (network_nonce (ctl * 128 + ttl) seq src iv) (mic_length ctl)
        (be_digits 2 dst ++ transport_pdu),
  )

  pub encrypt_network_pdu_ok :
      (enc_key priv_key : Bytes) (nid ctl ttl seq src dst : ℕ) (transport_pdu : Bytes) (iv : ℕ)
      → length enc_key ≡ 16
      → length priv_key ≡ 16
      → 1 ≤ length transport_pdu
      → nid < 128
      → ctl < 2
      → ttl < 128
      → seq < 2 ^ 24
      → src < 2 ^ 16
      → dst < 2 ^ 16
      → iv < 2 ^ 32
      → encrypt_network_pdu cipher enc_key priv_key nid ctl ttl seq src dst transport_pdu iv
        ≡ ok (
            (iv % 2 * 128 + nid)
              ∷ hidden priv_key iv
                  (sealed enc_key ctl ttl seq src dst iv transport_pdu)
                  (ctl * 128 + ttl)
                  seq
                  src
            ++ sealed enc_key ctl ttl seq src dst iv transport_pdu)
  unfolding encrypt_network_pdu
  encrypt_network_pdu_ok enc_key priv_key nid ctl ttl seq src dst transport_pdu iv he hp ht hn hc hl
        hs ha hd hi =
      let encrypted = sealed enc_key ctl ttl seq src dst iv transport_pdu in
      let long : 7 ≤ length encrypted =
        length-sealed enc_key ctl ttl seq src dst iv transport_pdu ht in
      let c : ctl % 2 * 128 + ttl % 128 ≡ ctl * 128 + ttl = omega arith in
      let n : nid % 128 ≡ nid = omega arith in
      rw
        (
          flag_byte ctl ttl,
          c,
          make_network_nonce_ok (ctl * 128 + ttl) seq src iv (omega arith) hs ha hi,
          pack_be-be_digits 2 dst hd,
          ccm_encrypt_ok enc_key (network_nonce (ctl * 128 + ttl) seq src iv)
              (be_digits 2 dst ++ transport_pdu) ctl he hc,
          flag_byte iv nid,
          n,
          bytes_of_two (iv % 2 * 128 + nid) (ctl * 128 + ttl) (omega arith) (omega arith),
          pack_be-be_digits 4 seq (omega arith),
          pack_be-be_digits 2 src ha,
          privacy_block_ok priv_key iv encrypted hp hi long,
          xor_bytes-zip_xor (header_tail (ctl * 128 + ttl) seq src)
              (take 6 (pecb priv_key iv encrypted))
              (omega (arith, length-pecb priv_key iv encrypted hp long)),
        )
        refl
