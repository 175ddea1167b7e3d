-- ===== src/Device/Send/Delivery.antt =====
-- What the device at the other end makes of the frames that the commands write.
use tuya_ble_mesh.Prelude.{
  ℕ, zero, suc, ◌+◌, ◌^◌, ◌≤◌, ◌<◌, ◌≡◌, refl, ap, ◌∙◌, arith, Bool, true, false, Option, none,
  some, List, [], ◌∷◌, ◌++◌,
}
use tuya_ble_mesh.Prelude.{
  length, All, append_assoc, Result, ok, Error, sig_mesh_error, sig_mesh_key_error, not-lt→ltb,
  bit_and, if◌then◌else◌,
}
use tuya_ble_mesh.Bits.Fields.{bit_and_mask}
use tuya_ble_mesh.Bytes.{Bytes, pack_be}
use tuya_ble_mesh.Bytes.Words.{bytes_of_two}
use tuya_ble_mesh.Mesh.Ccm.{MeshCipher}
use tuya_ble_mesh.Mesh.Codec.{generic_onoff_set}
use tuya_ble_mesh.Mesh.Codec.Header.{parse-make_proxy_pdu}
use tuya_ble_mesh.Mesh.Network.RoundTrip.{decrypt-encrypt_network_pdu}
use tuya_ble_mesh.Mesh.Transport.{MeshKeys, AccessMessage, select_key, decrypt_access_payload}
use tuya_ble_mesh.Mesh.Transport.Access.{decrypt_access_payload-unsegmented}
use tuya_ble_mesh.Device.State.{Device}
use tuya_ble_mesh.Device.Sequence.{next_seq}
use tuya_ble_mesh.Device.Receive.{
  process_notify, process_with, process_proxy, route_network, route_access, dispatch_opened,
  dispatch_access_payload,
}
use tuya_ble_mesh.Device.Send.{
  Sent, is_write_error, wrap_transport, make_frame, number_frame, prepare_frame, write_or_retry,
  send_attempts, send_transaction, send_power,
}
use tuya_ble_mesh.Device.Send.{or_raise, connected_keys, loaded_app_key, app_keys}

-- Keys as the derivation yields them.
pub record Usable (keys : MeshKeys) : Type 0 where
  pub enc_key : length keys.enc_key ≡ 16
  pub priv_key : length keys.priv_key ≡ 16
  pub nid : keys.nid < 128
  pub iv_index : keys.iv_index < 2 ^ 32

module _ (cipher : MeshCipher) (keys : MeshKeys) where
  -- Every device with these keys that is notified of the frame dispatches the payload.
  abbrev pub Delivers : Bytes → Bytes → Type 0
  Delivers payload frame =
      (peer : Device) (now : ℕ)
      → peer.keys ≡ some keys
      → process_notify cipher peer frame now ≡ dispatch_access_payload peer payload

  not_empty :
      (src dst seq : ℕ) (pdu : Bytes) (m : AccessMessage)
      → decrypt_access_payload cipher keys src dst seq pdu ≡ ok (some m)
      → 1 ≤ length pdu
  unfolding decrypt_access_payload
  not_empty src dst seq [] m h = ground (arith, h)
  not_empty src dst seq (b ∷ pdu) m h = omega arith

  make_frame-Delivers :
      (key : Bytes) (akf aid seq src dst : ℕ) (payload : Bytes)
      → Usable keys
      → select_key keys akf ≡ some key
      → length key ≡ 16
      → length payload ≤ 11
      → akf < 2
      → seq < 2 ^ 24
      → src < 2 ^ 16
      → dst < 2 ^ 16
      → (frame : Bytes) × (make_frame cipher keys key akf aid seq src dst payload ≡ ok frame)
        × Delivers payload frame
  unfolding make_frame wrap_transport process_notify process_with process_proxy route_network
      route_access dispatch_opened
  make_frame-Delivers key akf aid seq src dst payload u hs hk hl ha hq hr hd =
      let (pdu, made, opens) =
        decrypt_access_payload-unsegmented cipher keys key akf aid seq src dst payload hs hk hl ha
          hq hr hd u.iv_index in
      let (net, sealed, unsealed, _) =
        decrypt-encrypt_network_pdu cipher keys.enc_key keys.priv_key keys.nid (keys.nid + 1) 0 5
          seq src dst pdu keys.iv_index u.enc_key u.priv_key (not_empty src dst seq pdu _ opens)
          u.nid (λ e. omega (arith, e)) (omega arith) (omega arith) hq hr hd u.iv_index in
      let ((frame, proxied, parsed), _) = parse-make_proxy_pdu net 0 [] (omega arith) in
      (frame, rw (made, sealed) proxied, λ peer now h. rw (h, parsed, unsealed, opens) refl)

  -- The writes fail with a BleakError or an OSError so many times from the given attempt on, and then
  -- one does not fail.
  abbrev pub WritesAfter : (ℕ → Option Error) → ℕ → ℕ → Type 0
  WritesAfter write attempt zero = write attempt ≡ none
  WritesAfter write attempt (suc failures) =
      ((e : Error) × (write attempt ≡ some e) × (is_write_error e ≡ true))
      × WritesAfter write (attempt + 1) failures

  -- What a command leaves that got through: the device one number further for each frame, and frames
  -- that all deliver the payload.
  pub record Through (d : Device) (payload : Bytes) (count : ℕ) (before : List Bytes)
      (s : Sent (Unit {0})) : Type 0 where
    pub outcome : s.outcome ≡ ok tt
    pub device : s.device ≡ record d { seq = d.seq + count }
    pub new : List Bytes
    pub frames : s.frames ≡ before ++ new
    pub counted : length new ≡ count
    pub deliver : All (Delivers payload) new

  prepared :
      (d : Device) (key : Bytes) (dst : ℕ) (payload : Bytes)
      → Usable keys
      → keys.app_key ≡ some key
      → length key ≡ 16
      → length payload ≤ 11
      → d.seq < 2 ^ 24
      → d.our_addr < 2 ^ 16
      → dst < 2 ^ 16
      → (frame : Bytes) × (prepare_frame cipher d keys key 1 keys.key_aid dst (ok payload)
          ≡ (record d { seq = d.seq + 1 }, ok frame))
        × Delivers payload frame
  unfolding prepare_frame number_frame next_seq select_key
  prepared d key dst payload u hs hk hl hq hr hd =
      let (frame, made, delivers) =
        make_frame-Delivers key 1 keys.key_aid d.seq d.our_addr dst payload u hs hk hl (omega arith)
          hq hr hd in
      (
        frame,
        rw (not-lt→ltb 0xffffff d.seq (omega arith))
            (ap (λ (r : Result Bytes). (record d { seq = d.seq + 1 }, r)) made),
        delivers,
      )

  send_attempts-Through :
      (failures left attempt : ℕ) (write : ℕ → Option Error) (d : Device) (key : Bytes) (dst : ℕ)
      (payload : Bytes) (before : List Bytes)
      → Usable keys
      → keys.app_key ≡ some key
      → length key ≡ 16
      → length payload ≤ 11
      → d.seq + failures < 2 ^ 24
      → d.our_addr < 2 ^ 16
      → dst < 2 ^ 16
      → failures < left
      → WritesAfter write attempt failures
      → Through d payload
          (suc failures)
          before
          (send_attempts cipher left write attempt keys key dst (ok payload) d before)
  unfolding send_attempts write_or_retry
  send_attempts-Through failures zero attempt write d key dst payload before u hs hk hl hq hr hd h
        w =
      absurd (omega (arith, h))
  send_attempts-Through zero (suc left) attempt write d key dst payload before u hs hk hl hq hr hd h
        w =
      let (frame, made, delivers) =
        prepared d key dst payload u hs hk hl (omega (arith, hq)) hr hd in
      rw (made, w)
        (record {
          outcome = refl;
          device = refl;
          new = frame ∷ [];
          frames = refl;
          counted = refl;
          deliver = (delivers, tt);
        })
  send_attempts-Through (suc failures) (suc left) attempt write d key dst payload before u hs hk hl
        hq hr hd h ((e, w, caught), rest) =
      let (frame, made, delivers) =
        prepared d key dst payload u hs hk hl (omega (arith, hq)) hr hd in
      let more =
        send_attempts-Through failures left (attempt + 1) write (record d { seq = d.seq + 1 }) key
          dst payload (before ++ (frame ∷ [])) u hs hk hl (omega (arith, hq)) hr hd
          (omega (arith, h)) rest in
      rw (made, w, caught)
        (record {
          outcome = more.outcome;
          device = more.device ∙ ap (λ (n : ℕ). record d { seq = n }) (omega arith);
          new = frame ∷ more.new;
          frames = more.frames ∙ append_assoc before (frame ∷ []) more.new;
          counted = omega (arith, more.counted);
          deliver = (delivers, more.deliver);
        })

  loaded :
      (d : Device) (key : Bytes)
      → d.has_client ≡ true
      → d.keys ≡ some keys
      → keys.app_key ≡ some key
      → app_keys cipher d ≡ ok (keys, key)
  unfolding app_keys connected_keys loaded_app_key or_raise
  loaded d key hc hd ha =
      rw (hc, ap (or_raise sig_mesh_error) hd, ap (or_raise sig_mesh_key_error) ha) refl

  onoff_payload :
      (on : Bool) (tid : ℕ)
      → generic_onoff_set on tid
        ≡ ok (0x82 ∷ 0x02 ∷ (if on then 0x01 else 0x00) ∷ bit_and tid 0xff ∷ [])
  unfolding generic_onoff_set pack_be
  onoff_payload on tid =
      let small : bit_and tid 0xff < 256 = omega (arith, bit_and_mask 8 tid) in
      rw (bytes_of_two (if on then 0x01 else 0x00) (bit_and tid 0xff) (byte on) small) refl
    where
      byte : (b : Bool) → (if b then 0x01 else 0x00) < 256
      byte true = omega arith
      byte false = omega arith

  -- A connected device with usable keys and addresses in range, and enough sequence numbers: a
  -- `send_power` whose first writes raise BleakError or OSError, fewer than `max_retries`, and whose
  -- next write does not fail, returns; it has written one frame per attempt, taken one sequence number for each and one
  -- transaction identifier; and every device with the keys that is notified of any of the frames
  -- dispatches the Generic OnOff Set with that state and that identifier.
  pub send_power-Through :
      (failures max_retries : ℕ) (on : Bool) (write : ℕ → Option Error) (d : Device) (key : Bytes)
      → d.has_client ≡ true
      → d.keys ≡ some keys
      → keys.app_key ≡ some key
      → Usable keys
      → length key ≡ 16
      → d.seq + failures < 2 ^ 24
      → d.our_addr < 2 ^ 16
      → d.target_addr < 2 ^ 16
      → failures < max_retries
      → WritesAfter write 1 failures
      → Through
          (record d { tid = bit_and (d.tid + 1) 0xff })
          (0x82 ∷ 0x02 ∷ (if on then 0x01 else 0x00) ∷ bit_and d.tid 0xff ∷ [])
          (suc failures)
          []
          (send_power cipher d on max_retries write)
  unfolding send_power send_transaction
  send_power-Through failures max_retries on write d key hc hd ha u hk hq hr ht h w =
      rw (loaded d key hc hd ha, onoff_payload on d.tid)
        (send_attempts-Through failures max_retries 1 write
          (record d { tid = bit_and (d.tid + 1) 0xff }) key d.target_addr
          (0x82 ∷ 0x02 ∷ (if on then 0x01 else 0x00) ∷ bit_and d.tid 0xff ∷ []) [] u ha hk
          (omega arith) hq hr ht h w)
