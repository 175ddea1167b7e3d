-- ===== src/Provisioning/Exchange/Peer.antt =====
-- An independent description of the device in provisioning (Mesh Profile 5.4.2): what it answers to the
-- PDUs that it has received, from its own secret, capabilities, public key and random number.
use tuya_ble_mesh.Prelude.{
  ℕ, Option, none, some, List, [], ◌∷◌, ◌++◌, drop, if◌then◌else◌, Result, ok, err, ◌>>=◌,
}
use tuya_ble_mesh.Bytes.{Bytes, zeros, bytes_equal}
use tuya_ble_mesh.Mesh.Ccm.{MeshCipher, mesh_aes_ccm_decrypt}
use tuya_ble_mesh.Mesh.Keys.{aes_cmac, s1, k1}
use tuya_ble_mesh.Provisioning.Exchange.{prck, prsk, prsn}

pub record Peer : Type 0 where
  pub secret : Bytes
  pub capabilities : Bytes
  pub public_key : Bytes
  pub random : Bytes

abbrev pub failed : ℕ → Option Bytes
failed code = some (0x09 ∷ code ∷ [])

-- An answer, where the device could compute one.
abbrev pub answered : Result Bytes → Option Bytes
answered (ok pdu) = some pdu
answered (err e) = none

module _ (cipher : MeshCipher) (peer : Peer) where
  -- The salt and the key of the confirmations, from the parameters of the first three PDUs.
  unfoldable pub peer_salt : Bytes → Bytes → Bytes → Result Bytes
  peer_salt invite start public_key =
      s1 cipher
        (drop 1 invite ++ peer.capabilities ++ drop 1 start ++ drop 1 public_key ++ peer.public_key)

  unfoldable pub peer_confirmation : Bytes → Bytes → Bytes → Bytes → Result Bytes
  peer_confirmation invite start public_key random = do
    salt ← peer_salt invite start public_key
    key ← k1 cipher peer.secret salt prck
    aes_cmac cipher key (random ++ zeros 16)

  -- A key of the session under the given name.
  unfoldable pub peer_key : Bytes → Bytes → Bytes → Bytes → Bytes → Result Bytes
  peer_key name invite start public_key random = do
    salt ← peer_salt invite start public_key
    session_salt ← s1 cipher (salt ++ drop 1 random ++ peer.random)
    k1 cipher peer.secret session_salt name

  -- What the device reads in the Data PDU.
  unfoldable pub peer_data : Bytes → Bytes → Bytes → Bytes → Bytes → Result Bytes
  peer_data invite start public_key random encrypted = do
    key ← peer_key prsk invite start public_key random
    nonce ← peer_key prsn invite start public_key random
    mesh_aes_ccm_decrypt cipher key (drop 3 nonce) (drop 1 encrypted) 8

  -- The provisioner's own confirmation, checked once its random number is there.
  unfoldable pub check_random : Bytes → Bytes → Result Bytes → Option Bytes
  check_random confirmation random (err e) = none
  check_random confirmation random (ok expected) =
      if bytes_equal expected (drop 1 confirmation) then some (0x06 ∷ peer.random) else failed 4

  unfoldable pub complete : Result Bytes → Option Bytes
  complete (ok text) = some (0x08 ∷ [])
  complete (err e) = failed 6

  unfoldable pub answer : List Bytes → Option Bytes
  answer (invite ∷ []) = some (0x01 ∷ peer.capabilities)
  answer (invite ∷ start ∷ public_key ∷ []) = some (0x03 ∷ peer.public_key)
  answer (invite ∷ start ∷ public_key ∷ confirmation ∷ []) =
      answered (peer_confirmation invite start public_key peer.random >>= λ c. ok (0x05 ∷ c))
  answer (invite ∷ start ∷ public_key ∷ confirmation ∷ random ∷ []) =
      check_random confirmation random (peer_confirmation invite start public_key (drop 1 random))
  answer (invite ∷ start ∷ public_key ∷ confirmation ∷ random ∷ encrypted ∷ []) =
      complete (peer_data invite start public_key random encrypted)
  answer _ = none
