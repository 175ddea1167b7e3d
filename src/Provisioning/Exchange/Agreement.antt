-- ===== src/Provisioning/Exchange/Agreement.antt =====
-- The provisioner and a device that follows the protocol end with the same keys.
use tuya_ble_mesh.Prelude.{◌^◌, ◌<◌, ◌≡◌, refl, ap, arith, true, Option, some, List, [], ◌∷◌, ◌++◌}
use tuya_ble_mesh.Prelude.{length, length-append, take, drop, ok}
use tuya_ble_mesh.Bytes.{Bytes, zeros, be_digits, from_bytes_be, bytes_equal}
use tuya_ble_mesh.Bytes.Words.{pack_be-be_digits, bytes_of_one}
use tuya_ble_mesh.Mesh.Ccm.{MeshCipher, mesh_aes_ccm_encrypt, mesh_aes_ccm_decrypt, of_unseal}
use tuya_ble_mesh.Mesh.Keys.{aes_cmac, s1, k1}
use tuya_ble_mesh.Mesh.Keys.Derived.{aes_cmac-Block, s1_bytes-Block, k1-Block}
use tuya_ble_mesh.Provisioning.Data.{Provisioner, provisioning_data}
use tuya_ble_mesh.Provisioning.Exchange.{go_on, send_prov, recv_prov, check_pdu, check_complete}
use tuya_ble_mesh.Provisioning.Exchange.{
  elements_of, invite_params, start_params, on_curve, shared_secret, prck, prsk, prsn, prdk,
}
use tuya_ble_mesh.Provisioning.Exchange.{
  invite, exchange_public_keys, confirm, distribute, run_exchange,
}
use tuya_ble_mesh.Provisioning.Exchange.Peer.{
  Peer, peer_salt, peer_confirmation, peer_key, peer_data, check_random, complete, answer,
}

pub bytes_equal_refl : (b : Bytes) → bytes_equal b b ≡ true
bytes_equal_refl [] = refl
bytes_equal_refl (x ∷ b) = ground (arith, bytes_equal_refl b)

salted : (salt a b : Bytes) → length salt ≡ 16 → 0 < length (salt ++ a ++ b)
salted salt a b h = omega (arith, length-append (salt ++ a) b, length-append salt a)

-- The numbers of a provisioner are in the ranges of their fields.
pub record InRange (p : Provisioner) : Type 0 where
  pub index : p.net_key_index < 2 ^ 16
  pub flags : p.flags < 256
  pub iv : p.iv_index < 2 ^ 32
  pub address : p.unicast_addr < 2 ^ 16

abbrev pub data_of : Provisioner → Bytes
data_of p =
    p.net_key
    ++ be_digits 2 p.net_key_index
    ++ (p.flags ∷ [])
    ++ be_digits 4 p.iv_index
    ++ be_digits 2 p.unicast_addr

provisioning_data_ok : (p : Provisioner) → InRange p → provisioning_data p ≡ ok (data_of p)
unfolding provisioning_data
provisioning_data_ok p h =
    rw
      (
        pack_be-be_digits 2 p.net_key_index (omega (arith, h.index)),
        bytes_of_one p.flags h.flags,
        pack_be-be_digits 4 p.iv_index (omega (arith, h.iv)),
        pack_be-be_digits 2 p.unicast_addr (omega (arith, h.address)),
      )
      refl

module _ (cipher : MeshCipher) (p : Provisioner) (peer : Peer) (random : Bytes) where
  abbrev device : List Bytes → Option Bytes
  device = answer cipher peer

  abbrev first_three : List Bytes
  first_three = (0x00 ∷ invite_params) ∷ (0x02 ∷ start_params) ∷ (0x03 ∷ p.our_pub_key_bytes) ∷ []

  invite_ok :
      invite cipher device []
      ≡ ((0x00 ∷ invite_params) ∷ (0x02 ∷ start_params) ∷ [], ok peer.capabilities)
  unfolding invite go_on send_prov recv_prov answer check_pdu
  invite_ok = refl

  keys_ok :
      length peer.public_key ≡ 64
      → exchange_public_keys cipher device p ((0x00 ∷ invite_params) ∷ (0x02 ∷ start_params) ∷ [])
        ≡ (first_three, ok peer.public_key)
  unfolding exchange_public_keys go_on send_prov recv_prov answer check_pdu
  keys_ok h = rw h refl

  shared_ok :
      p.agree (from_bytes_be (take 32 peer.public_key)) (from_bytes_be (drop 32 peer.public_key))
        ≡ some peer.secret
      → shared_secret p peer.public_key ≡ ok peer.secret
  unfolding shared_secret
  shared_ok agreed = ap on_curve agreed

  -- The salt and the key of the confirmations, on both sides.
  abbrev conf_inputs : Bytes
  conf_inputs =
      invite_params ++ peer.capabilities ++ start_params ++ p.our_pub_key_bytes ++ peer.public_key

  module _ (salt key ours theirs : Bytes) (salt_is : s1 cipher conf_inputs ≡ ok salt)
      (key_is : k1 cipher peer.secret salt prck ≡ ok key)
      (ours_is : aes_cmac cipher key (random ++ zeros 16) ≡ ok ours)
      (theirs_is : aes_cmac cipher key (peer.random ++ zeros 16) ≡ ok theirs) where
    abbrev first_five : List Bytes
    first_five = first_three ++ ((0x05 ∷ ours) ∷ (0x06 ∷ random) ∷ [])

    confirm_ok : confirm cipher device key random first_three ≡ (first_five, ok peer.random)
    unfolding confirm go_on send_prov recv_prov answer check_pdu check_random peer_confirmation
        peer_salt
    confirm_ok =
        rw
          (
            ours_is,
            salt_is,
            key_is,
            theirs_is,
            salt_is,
            key_is,
            ours_is,
            bytes_equal_refl ours,
            theirs_is,
            bytes_equal_refl theirs,
          )
          refl

    module _ (session_salt session_key nonce dev_key : Bytes)
        (session_salt_is : s1 cipher (salt ++ random ++ peer.random) ≡ ok session_salt)
        (session_key_is : k1 cipher peer.secret session_salt prsk ≡ ok session_key)
        (nonce_is : k1 cipher peer.secret session_salt prsn ≡ ok nonce)
        (dev_key_is : k1 cipher peer.secret session_salt prdk ≡ ok dev_key)
        (session_key_length : length session_key ≡ 16) (ranges : InRange p) where
      abbrev sealed : Bytes
      sealed = cipher.seal session_key (drop 3 nonce) 8 (data_of p)

      abbrev last_six : List Bytes
      last_six = first_five ++ ((0x07 ∷ sealed) ∷ [])

      encrypts : mesh_aes_ccm_encrypt cipher session_key (drop 3 nonce) (data_of p) 8 ≡ ok sealed
      unfolding mesh_aes_ccm_encrypt
      encrypts = rw session_key_length refl

      reads :
          peer_data cipher peer
            (0x00 ∷ invite_params)
            (0x02 ∷ start_params)
            (0x03 ∷ p.our_pub_key_bytes)
            (0x06 ∷ random)
            (0x07 ∷ sealed)
          ≡ ok (data_of p)
      unfolding peer_data peer_key peer_salt mesh_aes_ccm_decrypt of_unseal
      reads =
          rw
            (
              salt_is,
              session_salt_is,
              session_key_is,
              nonce_is,
              session_key_length,
              cipher.unseal-seal session_key (drop 3 nonce) 8 (data_of p),
            )
            refl

      distribute_ok :
          distribute cipher device p peer.secret salt random peer.random first_five
          ≡ (last_six, ok dev_key)
      unfolding distribute go_on send_prov recv_prov answer check_complete complete
      distribute_ok =
          rw
            (
              session_salt_is,
              session_key_is,
              nonce_is,
              dev_key_is,
              provisioning_data_ok p ranges,
              encrypts,
              reads,
            )
            refl

      run_ok :
          p.agree
              (from_bytes_be (take 32 peer.public_key))
              (from_bytes_be (drop 32 peer.public_key))
            ≡ some peer.secret
          → length peer.public_key ≡ 64
          → run_exchange cipher device p random [] ≡ (
            last_six,
            ok (record {
              dev_key = dev_key;
              net_key = p.net_key;
              app_key = p.app_key;
              unicast_addr = p.unicast_addr;
              iv_index = p.iv_index;
              num_elements = elements_of peer.capabilities;
            }),
          )
      unfolding run_exchange go_on
      run_ok agreed h =
          rw (invite_ok, keys_ok h, shared_ok agreed, salt_is, key_is, confirm_ok, distribute_ok)
            refl

  -- What both sides have at the end: the six PDUs of the exchange, the result of the provisioner, the
  -- device key that the device derives from those PDUs, and the data that it reads in the last.
  pub record Agreed : Type 0 where
    pub confirmation : Bytes
    pub encrypted : Bytes
    pub dev_key : Bytes
    pub ran : run_exchange cipher device p random [] ≡ (
      first_three ++ ((0x05 ∷ confirmation) ∷ (0x06 ∷ random) ∷ (0x07 ∷ encrypted) ∷ []),
      ok (record {
        dev_key = dev_key;
        net_key = p.net_key;
        app_key = p.app_key;
        unicast_addr = p.unicast_addr;
        iv_index = p.iv_index;
        num_elements = elements_of peer.capabilities;
      }),
    )
    pub derived :
        peer_key cipher peer prdk
          (0x00 ∷ invite_params)
          (0x02 ∷ start_params)
          (0x03 ∷ p.our_pub_key_bytes)
          (0x06 ∷ random)
        ≡ ok dev_key
    pub read :
        peer_data cipher peer
          (0x00 ∷ invite_params)
          (0x02 ∷ start_params)
          (0x03 ∷ p.our_pub_key_bytes)
          (0x06 ∷ random)
          (0x07 ∷ encrypted)
        ≡ ok (data_of p)

  -- With a device that follows the protocol, whose public key of 64 bytes yields its own secret in the
  -- key agreement, and with numbers in the ranges of their fields, the exchange completes: the
  -- provisioner's result has the device key that the device derives, and the device reads the
  -- network key, the indices, the flags and its address in the encrypted data.
  pub run_exchange-Agreed :
      p.agree (from_bytes_be (take 32 peer.public_key)) (from_bytes_be (drop 32 peer.public_key))
        ≡ some peer.secret
      → length peer.public_key ≡ 64
      → InRange p
      → Agreed
  unfolding peer_key peer_salt
  run_exchange-Agreed agreed h ranges =
      let (salt, salt_is, hs) = s1_bytes-Block cipher conf_inputs (omega arith) in
      let (key, key_is, hk) = k1-Block cipher peer.secret salt prck hs in
      let (ours, ours_is, ho) = aes_cmac-Block cipher key (random ++ zeros 16) hk in
      let (theirs, theirs_is, ht) = aes_cmac-Block cipher key (peer.random ++ zeros 16) hk in
      let (session_salt, session_salt_is, hss) =
        s1_bytes-Block cipher (salt ++ random ++ peer.random) (salted salt random peer.random hs) in
      let (session_key, session_key_is, hsk) = k1-Block cipher peer.secret session_salt prsk hss in
      let (nonce, nonce_is, hn) = k1-Block cipher peer.secret session_salt prsn hss in
      let (dev_key, dev_key_is, hd) = k1-Block cipher peer.secret session_salt prdk hss in
      record {
        confirmation = ours;
        encrypted = cipher.seal session_key (drop 3 nonce) 8 (data_of p);
        dev_key = dev_key;
        ran =
            run_ok salt key ours theirs salt_is key_is ours_is theirs_is session_salt session_key
              nonce dev_key session_salt_is session_key_is nonce_is dev_key_is hsk ranges agreed h;
        derived = rw (salt_is, session_salt_is) dev_key_is;
        read =
            reads salt key ours theirs salt_is key_is ours_is theirs_is session_salt session_key
              nonce dev_key session_salt_is session_key_is nonce_is dev_key_is hsk ranges;
      }
