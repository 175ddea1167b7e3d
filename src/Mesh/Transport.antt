-- ===== src/Mesh/Transport.antt =====
-- `lib/tuya_ble_mesh/sig_mesh_protocol.py`: the transport layer of SIG Mesh, unsegmented and
-- segmented access messages, under the keys that `MeshKeys` holds.
pub mod Access
pub mod Segments
use tuya_ble_mesh.Prelude.{
  ℕ, zero, suc, ◌+◌, ◌-◌, ◌*◌, ◌/◌, Bool, true, false, not, Option, none, some, List, [], ◌∷◌, ◌++◌,
}
use tuya_ble_mesh.Prelude.{bit_and, bit_or, ltb, ◌==◌, if◌then◌else◌, length, take, drop}
use tuya_ble_mesh.Prelude.{Result, ok, err, ◌>>=◌, ◌>>◌, raise_if, protocol_error}
use tuya_ble_mesh.Prelude.Dict.{lookup}
use tuya_ble_mesh.Bits.Fields.{◌<<<◌, ◌>>>◌}
use tuya_ble_mesh.Bytes.{Bytes, pack_be, slice, bytes_of}
use tuya_ble_mesh.Mesh.Ccm.{MeshCipher, mesh_aes_ccm_encrypt, mesh_aes_ccm_decrypt}
use tuya_ble_mesh.Mesh.Network.{mic_length}
use tuya_ble_mesh.Mesh.Keys.{k2, k3, k4}
use native.Mathlib.Decide.{ℕ_discrete}

pub record MeshKeys : Type 0 where
  pub net_key : Bytes
  pub dev_key : Bytes
  pub app_key : Option Bytes
  pub iv_index : ℕ
  pub nid : ℕ
  pub enc_key : Bytes
  pub priv_key : Bytes
  pub network_id : Bytes
  pub key_aid : ℕ

-- The AID of the application key, 0 without one.
unfoldable pub app_key_aid : MeshCipher → Option Bytes → Result ℕ
app_key_aid cipher none = ok 0
app_key_aid cipher (some app_key) = if length app_key == 0 then ok 0 else k4 cipher app_key

-- The derivation in `MeshKeys.__init__`, on keys that `bytes.fromhex` has read.
unfoldable pub derive_mesh_keys : MeshCipher → Bytes → Bytes → Option Bytes → ℕ → Result MeshKeys
derive_mesh_keys cipher net_key dev_key app_key iv_index = do
  (nid, enc_key, priv_key) ← k2 cipher net_key (0x00 ∷ [])
  network_id ← k3 cipher net_key
  aid ← app_key_aid cipher app_key
  ok (record {
    net_key = net_key;
    dev_key = dev_key;
    app_key = app_key;
    iv_index = iv_index;
    nid = nid;
    enc_key = enc_key;
    priv_key = priv_key;
    network_id = network_id;
    key_aid = aid;
  })

-- `keys.app_key if akf else keys.dev_key`
unfoldable pub select_key : MeshKeys → ℕ → Option Bytes
select_key keys akf = if akf == 0 then some keys.dev_key else keys.app_key

unfoldable pub make_app_nonce : ℕ → ℕ → ℕ → ℕ → ℕ → ℕ → Result Bytes
make_app_nonce akf szmic seq src dst iv_index = do
  let nonce_type = if akf == 0 then 0x02 else 0x01
  head ← bytes_of (nonce_type ∷ szmic <<< 7 ∷ [])
  s ← pack_be 4 seq
  a ← pack_be 2 src
  d ← pack_be 2 dst
  iv ← pack_be 4 iv_index
  ok (head ++ drop 1 s ++ a ++ d ++ iv)

pub record AccessMessage : Type 0 where
  pub seg : Bool
  pub akf : ℕ
  pub aid : ℕ
  pub access_payload : Option Bytes
  pub raw : Bytes

-- The chunk of 12 bytes with its header: the body of the loop of `make_access_segmented`.
unfoldable pub make_segment : ℕ → ℕ → ℕ → ℕ → ℕ → ℕ → ℕ → Bytes → Result (ℕ × Bytes)
make_segment akf aid szmic seq_start seq_zero seg_n seg_o chunk = do
  let hdr = bit_or (bit_or 0x80 (akf <<< 6)) (bit_and aid 0x3f)
  let info = bit_or (bit_or (bit_or (szmic <<< 23) (seq_zero <<< 10)) (seg_o <<< 5)) seg_n
  first ← bytes_of (hdr ∷ [])
  i ← pack_be 4 info
  ok (seq_start + seg_o, first ++ drop 1 i ++ chunk)

-- The rounds left, the index of the next segment, and what of the message is not cut yet.
unfoldable pub segment_loop : ℕ → ℕ → ℕ → ℕ → ℕ → ℕ → ℕ → ℕ → Bytes → Result (List (ℕ × Bytes))
segment_loop zero akf aid szmic seq_start seq_zero seg_n seg_o rest = ok []
segment_loop (suc rounds) akf aid szmic seq_start seq_zero seg_n seg_o rest = do
  segment ← make_segment akf aid szmic seq_start seq_zero seg_n seg_o (take 12 rest)
  more ← segment_loop rounds akf aid szmic seq_start seq_zero seg_n (seg_o + 1) (drop 12 rest)
  ok (segment ∷ more)

-- `upper_transport += segments_snapshot[i]`, or None without the key.
unfoldable pub append_chunk : Option Bytes → Option Bytes → Option Bytes
append_chunk none rest = none
append_chunk (some chunk) none = none
append_chunk (some chunk) (some rest) = some (chunk ++ rest)

-- The loop of `reassemble_and_decrypt_segments`: the rounds left and the next index.
unfoldable pub join_segments : ℕ → ℕ → List (ℕ × Bytes) → Option Bytes
join_segments zero i segments = some []
join_segments (suc rounds) i segments =
    append_chunk (lookup ℕ_discrete i segments) (join_segments rounds (i + 1) segments)

-- `except CryptoError: return None`
unfoldable pub no_crypto_error : Result Bytes → Option Bytes
no_crypto_error (ok text) = some text
no_crypto_error (err e) = none

abbrev pub opened_message : ℕ → ℕ → Bytes → Bytes → AccessMessage
opened_message akf aid transport_pdu text = record {
  seg = false;
  akf = akf;
  aid = aid;
  access_payload = some text;
  raw = transport_pdu;
}

-- The message, or None after `except CryptoError`.
unfoldable pub access_message : ℕ → ℕ → Bytes → Option Bytes → Option AccessMessage
access_message akf aid transport_pdu none = none
access_message akf aid transport_pdu (some text) = some (opened_message akf aid transport_pdu text)

module _ (cipher : MeshCipher) where
  unfoldable pub make_access_unsegmented : Bytes → ℕ → ℕ → ℕ → ℕ → Bytes → ℕ → ℕ → Result Bytes
  make_access_unsegmented key src dst seq iv_index access_payload akf aid = do
    raise_if (ltb 11 (length access_payload)) protocol_error
    nonce ← make_app_nonce akf 0 seq src dst iv_index
    encrypted ← mesh_aes_ccm_encrypt cipher key nonce access_payload 4
    let hdr = bit_or (akf <<< 6) (bit_and aid 0x3f)
    first ← bytes_of (hdr ∷ [])
    ok (first ++ encrypted)

  unfoldable pub make_access_segmented :
      Bytes → ℕ → ℕ → ℕ → ℕ → Bytes → ℕ → ℕ → ℕ → Result (List (ℕ × Bytes))
  make_access_segmented key src dst seq_start iv_index access_payload akf aid szmic = do
    nonce ← make_app_nonce akf szmic seq_start src dst iv_index
    upper_transport ← mesh_aes_ccm_encrypt cipher key nonce access_payload (mic_length szmic)
    let n_segs = (length upper_transport + 12 - 1) / 12
    let seq_zero = bit_and seq_start 0x1fff
    segment_loop n_segs akf aid szmic seq_start seq_zero (n_segs - 1) 0 upper_transport

  -- The part of `decrypt_access_payload` that has a key.
  unfoldable pub open_access :
      Bytes → ℕ → ℕ → ℕ → ℕ → ℕ → ℕ → Bytes → Bytes → Result (Option AccessMessage)
  open_access key akf aid seq src dst iv_index encrypted_upper transport_pdu = do
    nonce ← make_app_nonce akf 0 seq src dst iv_index
    let text = no_crypto_error (mesh_aes_ccm_decrypt cipher key nonce encrypted_upper 4)
    ok (access_message akf aid transport_pdu text)

  unfoldable pub decrypt_access_payload :
      MeshKeys → ℕ → ℕ → ℕ → Bytes → Result (Option AccessMessage)
  unfolding select_key
  decrypt_access_payload keys src dst seq [] = ok none
  decrypt_access_payload keys src dst seq (hdr ∷ encrypted_upper) =
      let seg = not (bit_and hdr 0x80 == 0) in
      let akf = bit_and (hdr >>> 6) 1 in
      let aid = bit_and hdr 0x3f in
      let transport_pdu = hdr ∷ encrypted_upper in
      if seg
      then ok (
          some (record {
            seg = true;
            akf = akf;
            aid = aid;
            access_payload = none;
            raw = transport_pdu;
          }))
      else elim (select_key keys akf) [
        | none ↦ ok none
        | some key ↦ open_access key akf aid seq src dst keys.iv_index encrypted_upper transport_pdu
      ]

  unfoldable pub open_segments : Bytes → ℕ → ℕ → ℕ → ℕ → ℕ → ℕ → Bytes → Result (Option Bytes)
  open_segments key akf szmic seq_zero src dst iv_index upper_transport = do
    nonce ← make_app_nonce akf szmic seq_zero src dst iv_index
    ok (no_crypto_error (mesh_aes_ccm_decrypt cipher key nonce upper_transport (mic_length szmic)))

  -- The tests for a missing segment and for a missing key.
  unfoldable pub open_joined :
      Option Bytes → Option Bytes → ℕ → ℕ → ℕ → ℕ → ℕ → ℕ → Result (Option Bytes)
  open_joined none key akf szmic seq_zero src dst iv_index = ok none
  open_joined (some upper_transport) none akf szmic seq_zero src dst iv_index = ok none
  open_joined (some upper_transport) (some key) akf szmic seq_zero src dst iv_index =
      open_segments key akf szmic seq_zero src dst iv_index upper_transport

  unfoldable pub reassemble_and_decrypt_segments :
      MeshKeys → ℕ → ℕ → List (ℕ × Bytes) → ℕ → ℕ → ℕ → ℕ → Result (Option Bytes)
  reassemble_and_decrypt_segments keys src dst segments seg_n szmic seq_zero akf =
      open_joined (join_segments (seg_n + 1) 0 segments) (select_key keys akf) akf szmic seq_zero
        src dst keys.iv_index
