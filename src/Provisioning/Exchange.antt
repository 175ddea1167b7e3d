-- ===== src/Provisioning/Exchange.antt =====
-- `_run_exchange`: the PDUs that the provisioner sends and what it makes of the answers. The device is a
-- parameter: the answer to the PDUs sent so far, or none within the time. So are the key agreement
-- on P-256 and the random number. What a GATT write or the pairing raises is not modelled.
pub mod Peer
pub mod Agreement
pub mod Guarded
use tuya_ble_mesh.Prelude.{
  ℕ, ◌+◌, ◌≡◌, Bool, true, false, not, Option, none, some, List, [], ◌∷◌, ◌++◌,
}
use tuya_ble_mesh.Prelude.{
  ◌==◌, if◌then◌else◌, length, take, drop, Result, ok, err, Error, provisioning_error,
}
use tuya_ble_mesh.Prelude.{index_error}
use tuya_ble_mesh.Bytes.{Bytes, zeros, pack_be, bytes_of, from_bytes_be, bytes_equal}
use tuya_ble_mesh.Provisioning.Data.{Provisioner, provisioning_data}
use tuya_ble_mesh.Mesh.Ccm.{MeshCipher, mesh_aes_ccm_encrypt}
use tuya_ble_mesh.Mesh.Keys.{aes_cmac, s1, k1}

-- The PDUs sent, and the value or the exception.
abbrev pub Exchange {ℓ} : Type ℓ → Type ℓ
Exchange Value = List Bytes → List Bytes × Result Value

unfoldable pub go_on {a b} :
    {Value : Type a} {Next : Type b}
    → (Value → Exchange Next)
    → List Bytes × Result Value
    → List Bytes × Result Next
go_on next (sent, err e) = (sent, err e)
go_on next (sent, ok value) = next value sent

infixl 5 ◌>>=◌ ◌>>◌
abbrev pub ◌>>=◌ {a b} :
    {Value : Type a} {Next : Type b} → Exchange Value → (Value → Exchange Next) → Exchange Next
(first >>= next) sent = go_on next (first sent)

abbrev pub ◌>>◌ {b} : {Next : Type b} → Exchange (Unit {0}) → Exchange Next → Exchange Next
(first >> after) sent = go_on (λ _. after) (first sent)

abbrev pub lift {a} : {Value : Type a} → Result Value → Exchange Value
lift result sent = (sent, result)

-- `ProvisioningError` in place of any failure of this condition.
abbrev pub require : Bool → Exchange (Unit {0})
require true sent = (sent, ok tt)
require false sent = (sent, err provisioning_error)

unfoldable pub send_prov : Bytes → Exchange (Unit {0})
send_prov pdu sent = (sent ++ (pdu ∷ []), ok tt)

unfoldable pub recv_prov : (List Bytes → Option Bytes) → Exchange Bytes
recv_prov device sent =
    (sent, elim (device sent) [ none ↦ err provisioning_error | some pdu ↦ ok pdu ])

-- An empty PDU, ProvisioningFailed and a wrong type all raise ProvisioningError.
unfoldable pub check_pdu : Bytes → ℕ → Result (Unit {0})
check_pdu [] expected_type = err provisioning_error
check_pdu (kind ∷ params) expected_type =
    if kind == 0x09
    then err provisioning_error
    else if kind == expected_type
    then ok tt
    else err provisioning_error

-- `result_pdu[0]` raises IndexError on an empty PDU.
unfoldable pub check_complete : Bytes → Result (Unit {0})
check_complete [] = err index_error
check_complete (kind ∷ params) =
    if kind == 0x09
    then err provisioning_error
    else if kind == 0x08
    then ok tt
    else err provisioning_error

-- `caps_pdu[1] if len(caps_pdu) > 1 else 1`, on what follows the type.
unfoldable pub elements_of : Bytes → ℕ
elements_of [] = 1
elements_of (n ∷ rest) = n

pub record ProvisioningResult : Type 0 where
  pub dev_key : Bytes
  pub net_key : Bytes
  pub app_key : Bytes
  pub unicast_addr : ℕ
  pub iv_index : ℕ
  pub num_elements : ℕ

abbrev pub invite_params : Bytes
invite_params = 5 ∷ []

abbrev pub start_params : Bytes
start_params = zeros 5

unfoldable pub on_curve : Option Bytes → Result Bytes
on_curve none = err provisioning_error
on_curve (some secret) = ok secret

-- The 32 bytes of each coordinate.
unfoldable pub shared_secret : Provisioner → Bytes → Result Bytes
unfolding on_curve
shared_secret p device_pub_key =
    on_curve
      (p.agree (from_bytes_be (take 32 device_pub_key)) (from_bytes_be (drop 32 device_pub_key)))

abbrev pub prck : Bytes
prck = 0x70 ∷ 0x72 ∷ 0x63 ∷ 0x6b ∷ []

abbrev pub prsk : Bytes
prsk = 0x70 ∷ 0x72 ∷ 0x73 ∷ 0x6b ∷ []

abbrev pub prsn : Bytes
prsn = 0x70 ∷ 0x72 ∷ 0x73 ∷ 0x6e ∷ []

abbrev pub prdk : Bytes
prdk = 0x70 ∷ 0x72 ∷ 0x64 ∷ 0x6b ∷ []

module _ (cipher : MeshCipher) (device : List Bytes → Option Bytes) where
  -- Steps 1 to 3: the capabilities.
  unfoldable pub invite : Exchange Bytes
  invite = do
    send_prov (0x00 ∷ invite_params)
    caps_pdu ← recv_prov device
    lift (check_pdu caps_pdu 0x01)
    send_prov (0x02 ∷ start_params)
    lift (ok (drop 1 caps_pdu))

  -- Step 4: the public key of the device.
  unfoldable pub exchange_public_keys : Provisioner → Exchange Bytes
  exchange_public_keys p = do
    send_prov (0x03 ∷ p.our_pub_key_bytes)
    dev_pub_pdu ← recv_prov device
    lift (check_pdu dev_pub_pdu 0x03)
    require (length (drop 1 dev_pub_pdu) == 64)
    lift (ok (drop 1 dev_pub_pdu))

  -- Steps 5 and 6: the confirmations, the random numbers, and the device's confirmation verified.
  unfoldable pub confirm : Bytes → Bytes → Exchange Bytes
  confirm conf_key random_provisioner = do
    conf_provisioner ← lift (aes_cmac cipher conf_key (random_provisioner ++ zeros 16))
    send_prov (0x05 ∷ conf_provisioner)
    dev_conf_pdu ← recv_prov device
    lift (check_pdu dev_conf_pdu 0x05)
    send_prov (0x06 ∷ random_provisioner)
    dev_random_pdu ← recv_prov device
    lift (check_pdu dev_random_pdu 0x06)
    expected_conf ← lift (aes_cmac cipher conf_key (drop 1 dev_random_pdu ++ zeros 16))
    require (bytes_equal expected_conf (drop 1 dev_conf_pdu))
    lift (ok (drop 1 dev_random_pdu))

  -- Step 7: the session keys, the encrypted data, and the device's last word: the device key.
  unfoldable pub distribute : Provisioner → Bytes → Bytes → Bytes → Bytes → Exchange Bytes
  distribute p secret conf_salt random_provisioner random_device = do
    prov_salt ← lift (s1 cipher (conf_salt ++ random_provisioner ++ random_device))
    session_key ← lift (k1 cipher secret prov_salt prsk)
    session_nonce ← lift (k1 cipher secret prov_salt prsn)
    dev_key ← lift (k1 cipher secret prov_salt prdk)
    prov_data ← lift (provisioning_data p)
    encrypted_data ←
        lift (mesh_aes_ccm_encrypt cipher session_key (drop 3 session_nonce) prov_data 8)
    send_prov (0x07 ∷ encrypted_data)
    result_pdu ← recv_prov device
    lift (check_complete result_pdu)
    lift (ok dev_key)

  unfoldable pub run_exchange : Provisioner → Bytes → Exchange ProvisioningResult
  run_exchange p random_provisioner = do
    device_caps ← invite
    device_pub_key ← exchange_public_keys p
    secret ← lift (shared_secret p device_pub_key)
    conf_salt ← lift (
        s1 cipher
          (invite_params ++ device_caps ++ start_params ++ p.our_pub_key_bytes ++ device_pub_key))
    conf_key ← lift (k1 cipher secret conf_salt prck)
    random_device ← confirm conf_key random_provisioner
    dev_key ← distribute p secret conf_salt random_provisioner random_device
    lift (
        ok (record {
          dev_key = dev_key;
          net_key = p.net_key;
          app_key = p.app_key;
          unicast_addr = p.unicast_addr;
          iv_index = p.iv_index;
          num_elements = elements_of device_caps;
        }))
