-- ===== src/Mesh/Network.antt =====
-- `lib/tuya_ble_mesh/sig_mesh_protocol.py`: the network layer of SIG Mesh, encryption and
-- obfuscation of the header and their inverse.
pub mod Encrypt
pub mod RoundTrip
use tuya_ble_mesh.Prelude.{ℕ, ◌+◌, ◌≡◌, Option, none, some, List, [], ◌∷◌, ◌++◌}
use tuya_ble_mesh.Prelude.{bit_and, bit_or, ltb, ◌==◌, if◌then◌else◌, length, take, drop}
use tuya_ble_mesh.Prelude.{Result, ok, err, ◌>>=◌, ◌>>◌}
use tuya_ble_mesh.Bits.Fields.{◌<<<◌, ◌>>>◌}
use tuya_ble_mesh.Bytes.{Bytes, pack_be, index, slice, bytes_of, xor_bytes}
use tuya_ble_mesh.Mesh.Ccm.{MeshCipher, aes_ecb, mesh_aes_ccm_encrypt, mesh_aes_ccm_decrypt}

unfoldable pub make_network_nonce : ℕ → ℕ → ℕ → ℕ → Result Bytes
make_network_nonce ctl_ttl seq src iv_index = do
  head ← bytes_of (0x00 ∷ ctl_ttl ∷ [])
  s ← pack_be 4 seq
  a ← pack_be 2 src
  iv ← pack_be 4 iv_index
  ok (head ++ drop 1 s ++ a ++ (0x00 ∷ 0x00 ∷ []) ++ iv)

-- `MIC_LEN_CONTROL if ctl else MIC_LEN_ACCESS`
unfoldable pub mic_length : ℕ → ℕ
mic_length ctl = if ctl == 0 then 4 else 8

pub record NetworkPdu : Type 0 where
  pub ctl : ℕ
  pub ttl : ℕ
  pub seq : ℕ
  pub src : ℕ
  pub dst : ℕ
  pub transport_pdu : Bytes

module _ (cipher : MeshCipher) where
  -- The 16 bytes that hide the header, from the first 7 of the encrypted part.
  unfoldable pub privacy_block : Bytes → ℕ → Bytes → Result Bytes
  privacy_block priv_key iv_index encrypted = do
    iv ← pack_be 4 iv_index
    aes_ecb cipher priv_key ((0 ∷ 0 ∷ 0 ∷ 0 ∷ 0 ∷ []) ++ iv ++ take 7 encrypted)

  unfoldable pub encrypt_network_pdu :
      Bytes → Bytes → ℕ → ℕ → ℕ → ℕ → ℕ → ℕ → Bytes → ℕ → Result Bytes
  encrypt_network_pdu enc_key priv_key nid ctl ttl seq src dst transport_pdu iv_index = do
    let ctl_ttl = bit_or (bit_and ctl 1 <<< 7) (bit_and ttl 0x7f)
    nonce ← make_network_nonce ctl_ttl seq src iv_index
    d ← pack_be 2 dst
    encrypted ← mesh_aes_ccm_encrypt cipher enc_key nonce (d ++ transport_pdu) (mic_length ctl)
    let ivi_nid = bit_or (bit_and iv_index 1 <<< 7) (bit_and nid 0x7f)
    first ← bytes_of (ivi_nid ∷ ctl_ttl ∷ [])
    s ← pack_be 4 seq
    a ← pack_be 2 src
    let header = first ++ drop 1 s ++ a
    pecb ← privacy_block priv_key iv_index encrypted
    obfuscated ← xor_bytes (slice 1 7 header) (take 6 pecb)
    ok ((ivi_nid ∷ []) ++ obfuscated ++ encrypted)

  -- What follows the de-obfuscation: `except CryptoError` is the branch that returns None.
  unfoldable pub finish_network_pdu : ℕ → ℕ → ℕ → ℕ → Result Bytes → Result (Option NetworkPdu)
  finish_network_pdu ctl ttl seq src (err e) = ok none
  finish_network_pdu ctl ttl seq src (ok plaintext) = do
    a ← index plaintext 0
    b ← index plaintext 1
    ok (
        some (record {
          ctl = ctl;
          ttl = ttl;
          seq = seq;
          src = src;
          dst = bit_or (a <<< 8) b;
          transport_pdu = drop 2 plaintext;
        }))

  unfoldable pub open_network_pdu : Bytes → ℕ → Bytes → Bytes → Result (Option NetworkPdu)
  open_network_pdu enc_key iv_index encrypted_data deobfuscated = do
    ctl_ttl ← index deobfuscated 0
    let ctl = bit_and (ctl_ttl >>> 7) 1
    let ttl = bit_and ctl_ttl 0x7f
    a ← index deobfuscated 1
    b ← index deobfuscated 2
    c ← index deobfuscated 3
    let seq = bit_or (bit_or (a <<< 16) (b <<< 8)) c
    d ← index deobfuscated 4
    e ← index deobfuscated 5
    let src = bit_or (d <<< 8) e
    nonce ← make_network_nonce ctl_ttl seq src iv_index
    finish_network_pdu ctl ttl seq src
        (mesh_aes_ccm_decrypt cipher enc_key nonce encrypted_data (mic_length ctl))

  -- The part behind the test of the network id.
  unfoldable pub deobfuscate_network_pdu : Bytes → Bytes → Bytes → ℕ → Result (Option NetworkPdu)
  deobfuscate_network_pdu enc_key priv_key pdu iv_index = do
    let encrypted_data = drop 7 pdu
    pecb ← privacy_block priv_key iv_index encrypted_data
    deobfuscated ← xor_bytes (slice 1 7 pdu) (take 6 pecb)
    open_network_pdu enc_key iv_index encrypted_data deobfuscated

  unfoldable pub decrypt_network_pdu : Bytes → Bytes → ℕ → Bytes → ℕ → Result (Option NetworkPdu)
  decrypt_network_pdu enc_key priv_key nid pdu iv_index =
      let opened = deobfuscate_network_pdu enc_key priv_key pdu iv_index in
      if ltb (length pdu) 10
      then ok none
      else (index pdu 0 >>= λ first. if bit_and first 0x7f == nid then opened else ok none)
