-- ===== src/Mesh/Network/RoundTrip.antt =====
-- What `decrypt_network_pdu` reads from a network PDU that `encrypt_network_pdu` built.
use tuya_ble_mesh.Prelude.{
  ℕ, suc, ◌+◌, ◌*◌, ◌/◌, ◌%◌, ◌^◌, ◌<◌, ◌≤◌, ◌≡◌, refl, arith, ◌∷◌, ◌++◌, ok, err, some, none,
}
use tuya_ble_mesh.Prelude.{
  crypto_error, ◌∙◌, if◌then◌else◌, ltb, length, take, drop, not-lt→ltb, lt→ltb, ==_refl, ==_ne,
  ◌≢◌, length-append, length-drop, le_or_lt, inl, inr,
}
use tuya_ble_mesh.Prelude.{take-append, drop-append, bit_and}
use tuya_ble_mesh.Bits.Fields.{bit_and_mask, or_two, or_three, ◌>>>◌}
use tuya_ble_mesh.Bytes.{Bytes, be_digits}
use tuya_ble_mesh.Bytes.Strings.{zip_xor_cancel_right, xor_bytes-zip_xor}
use tuya_ble_mesh.Mesh.Ccm.{MeshCipher}
use tuya_ble_mesh.Mesh.Network.{encrypt_network_pdu}
use tuya_ble_mesh.Mesh.Network.{NetworkPdu, finish_network_pdu, open_network_pdu}
use tuya_ble_mesh.Mesh.Network.{deobfuscate_network_pdu, decrypt_network_pdu}
use tuya_ble_mesh.Mesh.Network.Encrypt.{
  unflag_byte, network_nonce, header_tail, pecb, sealed, hidden, make_network_nonce_ok,
}
use tuya_ble_mesh.Mesh.Network.Encrypt.{length-pecb, length-hidden, ccm_decrypt_ok, length-sealed}
use tuya_ble_mesh.Mesh.Network.Encrypt.{
  encrypt_network_pdu_ok, privacy_block_ok, privacy_block_short,
}

-- The two numbers in the first byte of the open header.
ctl_of : (ctl ttl : ℕ) → ctl < 2 → ttl < 128 → bit_and ((ctl * 128 + ttl) >>> 7) 1 ≡ ctl
ctl_of ctl ttl h k = rw (bit_and_mask 1 ((ctl * 128 + ttl) >>> 7)) (omega arith)

ttl_of : (ctl ttl : ℕ) → ttl < 128 → bit_and (ctl * 128 + ttl) 0x7f ≡ ttl
ttl_of ctl ttl h = rw (unflag_byte (ctl * 128 + ttl)) (omega arith)

-- The fields that come back.
abbrev pub fields : ℕ → ℕ → ℕ → ℕ → ℕ → Bytes → NetworkPdu
fields ctl ttl seq src dst transport_pdu = record {
  ctl = ctl;
  ttl = ttl;
  seq = seq;
  src = src;
  dst = dst;
  transport_pdu = transport_pdu;
}

module _ (cipher : MeshCipher) where
  finish_ok :
      (ctl ttl seq src dst : ℕ) (transport_pdu : Bytes)
      → dst < 2 ^ 16
      → finish_network_pdu cipher ctl ttl seq src (ok (be_digits 2 dst ++ transport_pdu))
        ≡ ok (some (fields ctl ttl seq src dst transport_pdu))
  unfolding finish_network_pdu
  finish_ok ctl ttl seq src dst transport_pdu h =
      let again : dst / 256 % 256 * 256 + dst / 1 % 256 ≡ dst = omega arith in
      rw (or_two (dst / 256 % 256) (dst / 1 % 256) (omega arith), again) refl

  open_network_pdu_ok :
      (enc_key : Bytes) (ctl ttl seq src dst : ℕ) (transport_pdu : Bytes) (iv : ℕ)
      → length enc_key ≡ 16
      → ctl < 2
      → ttl < 128
      → seq < 2 ^ 24
      → src < 2 ^ 16
      → dst < 2 ^ 16
      → iv < 2 ^ 32
      → open_network_pdu cipher enc_key iv
          (sealed cipher enc_key ctl ttl seq src dst iv transport_pdu)
          (header_tail (ctl * 128 + ttl) seq src)
        ≡ ok (some (fields ctl ttl seq src dst transport_pdu))
  unfolding open_network_pdu
  open_network_pdu_ok enc_key ctl ttl seq src dst transport_pdu iv he hc hl hs ha hd hi =
      let seq_again : seq / 65536 % 256 * 65536 + seq / 256 % 256 * 256 + seq / 1 % 256 ≡ seq =
        omega arith in
      let src_again : src / 256 % 256 * 256 + src / 1 % 256 ≡ src = omega arith in
      rw
        (
          ctl_of ctl ttl hc hl,
          ttl_of ctl ttl hl,
          or_three (seq / 65536 % 256) (seq / 256 % 256) (seq / 1 % 256) (omega arith)
              (omega arith),
          seq_again,
          or_two (src / 256 % 256) (src / 1 % 256) (omega arith),
          src_again,
          make_network_nonce_ok (ctl * 128 + ttl) seq src iv (omega arith) hs ha hi,
          ccm_decrypt_ok cipher enc_key (network_nonce (ctl * 128 + ttl) seq src iv)
              (be_digits 2 dst ++ transport_pdu) ctl he hc,
        )
        (finish_ok ctl ttl seq src dst transport_pdu hd)

  deobfuscate_ok :
      (enc_key priv_key encrypted : Bytes) (first c seq src iv : ℕ)
      → length priv_key ≡ 16
      → 7 ≤ length encrypted
      → iv < 2 ^ 32
      → deobfuscate_network_pdu cipher enc_key priv_key
          (first ∷ hidden cipher priv_key iv encrypted c seq src ++ encrypted)
          iv
        ≡ open_network_pdu cipher enc_key iv encrypted (header_tail c seq src)
  unfolding deobfuscate_network_pdu
  deobfuscate_ok enc_key priv_key encrypted first c seq src iv hp he hi =
      let six = length-hidden cipher priv_key iv encrypted c seq src hp he in
      let mask = take 6 (pecb cipher priv_key iv encrypted) in
      let wide = length-pecb cipher priv_key iv encrypted hp he in
      rw
        (
          drop-append 6 (hidden cipher priv_key iv encrypted c seq src) encrypted six,
          take-append 6 (hidden cipher priv_key iv encrypted c seq src) encrypted six,
          privacy_block_ok cipher priv_key iv encrypted hp hi he,
          xor_bytes-zip_xor (hidden cipher priv_key iv encrypted c seq src) mask (omega arith),
          zip_xor_cancel_right (header_tail c seq src) mask (omega arith),
        )
        refl

  -- With 16-byte keys, fields in range and a transport PDU of at least one byte,
  -- `encrypt_network_pdu` builds a frame, and `decrypt_network_pdu` under the same keys and IV index
  -- reads all of the fields and the transport PDU back from it; a receiver of another network id
  -- ignores the frame.
  pub decrypt-encrypt_network_pdu :
      (enc_key priv_key : Bytes) (nid other ctl ttl seq src dst : ℕ) (transport_pdu : Bytes)
      (iv : ℕ)
      → length enc_key ≡ 16
      → length priv_key ≡ 16
      → 1 ≤ length transport_pdu
      → nid < 128
      → other ≢ nid
      → ctl < 2
      → ttl < 128
      → seq < 2 ^ 24
      → src < 2 ^ 16
      → dst < 2 ^ 16
      → iv < 2 ^ 32
      → (frame : Bytes) × (encrypt_network_pdu cipher enc_key priv_key nid ctl ttl seq src dst
            transport_pdu iv
          ≡ ok frame)
        × (decrypt_network_pdu cipher enc_key priv_key nid frame iv
            ≡ ok (some (fields ctl ttl seq src dst transport_pdu)))
        × (decrypt_network_pdu cipher enc_key priv_key other frame iv ≡ ok none)
  unfolding decrypt_network_pdu
  decrypt-encrypt_network_pdu enc_key priv_key nid other ctl ttl seq src dst transport_pdu iv he hp
        ht hn ho hc hl hs ha hd hi =
      let encrypted = sealed cipher enc_key ctl ttl seq src dst iv transport_pdu in
      let c = ctl * 128 + ttl in
      let first = iv % 2 * 128 + nid in
      let frame = first ∷ hidden cipher priv_key iv encrypted c seq src ++ encrypted in
      let long = length-sealed cipher enc_key ctl ttl seq src dst iv transport_pdu ht in
      let whole : 10 ≤ length frame = omega (
        arith,
        length-append (hidden cipher priv_key iv encrypted c seq src) encrypted,
        length-hidden cipher priv_key iv encrypted c seq src hp long,
      ) in
      let net : first % 128 ≡ nid = omega arith in
      let different : nid ≢ other = λ e. ho (cc e) in
      (
        frame,
        encrypt_network_pdu_ok cipher enc_key priv_key nid ctl ttl seq src dst transport_pdu iv he
            hp ht hn hc hl hs ha hd hi,
        rw (not-lt→ltb (length frame) 10 whole, unflag_byte first, net, ==_refl nid)
            (deobfuscate_ok enc_key priv_key encrypted first c seq src iv hp long hi
              ∙ open_network_pdu_ok enc_key ctl ttl seq src dst transport_pdu iv he hc hl hs ha hd
                  hi),
        rw (not-lt→ltb (length frame) 10 whole, unflag_byte first, net, ==_ne nid other different)
            refl,
      )

  deobfuscate_short :
      (enc_key priv_key : Bytes) (first : ℕ) (rest : Bytes) (iv : ℕ)
      → length priv_key ≡ 16
      → iv < 2 ^ 32
      → length rest < 13
      → deobfuscate_network_pdu cipher enc_key priv_key (first ∷ rest) iv ≡ err crypto_error
  unfolding deobfuscate_network_pdu
  deobfuscate_short enc_key priv_key first rest iv hp hi hl =
      rw
        (privacy_block_short cipher priv_key iv (drop 6 rest) hp hi
          (omega (arith, length-drop 6 rest)))
        refl

  -- With a 16-byte privacy key and an IV index in range, a frame of 10 to 13 bytes with the receiver's
  -- network id leaves the block cipher short of its 16 bytes of input: `decrypt_network_pdu` raises
  -- CryptoError. A shorter frame of one byte or more is ignored.
  pub decrypt_network_pdu_short :
      (enc_key priv_key : Bytes) (first nid : ℕ) (rest : Bytes) (iv : ℕ)
      → length priv_key ≡ 16
      → iv < 2 ^ 32
      → length rest < 13
      → first % 128 ≡ nid
      → decrypt_network_pdu cipher enc_key priv_key nid (first ∷ rest) iv
        ≡ (if ltb (length rest) 9 then ok none else err crypto_error)
  unfolding decrypt_network_pdu
  decrypt_network_pdu_short enc_key priv_key first nid rest iv hp hi hl hn =
      elim (le_or_lt 9 (length rest)) [
        | inl h ↦
            rw
              (
                not-lt→ltb (suc (length rest)) 10 (omega arith),
                not-lt→ltb (length rest) 9 h,
                unflag_byte first,
                hn,
                ==_refl nid,
              )
              (deobfuscate_short enc_key priv_key first rest iv hp hi hl)
        | inr h ↦ rw (lt→ltb (suc (length rest)) 10 (omega arith), lt→ltb (length rest) 9 h) refl
      ]
