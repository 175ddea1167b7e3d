-- ===== src/Device/Send.antt =====
-- `lib/tuya_ble_mesh/sig_mesh_device_commands.py`: the commands. What becomes of each GATT write is a
-- parameter, an exception (BleakError or an OSError other than TimeoutError) or none, and so is what the device does while a
-- command waits for its response.
pub mod Delivery
use tuya_ble_mesh.Prelude.{
  ℕ, zero, suc, ◌+◌, ◌-◌, ◌/◌, ◌%◌, Bool, true, false, not, ◌||◌, Option, none, some, List, [], ◌∷◌,
  ◌++◌,
}
use tuya_ble_mesh.Prelude.{
  ◌==◌, if◌then◌else◌, length, Result, ok, err, ◌>>=◌, ◌>>◌, guard, Error, bit_and,
}
use tuya_ble_mesh.Prelude.{
  bleak_error, os_error, sig_mesh_error, sig_mesh_key_error, mesh_connection_error,
}
use tuya_ble_mesh.Prelude.Dict.{lookup, insert, erase}
use tuya_ble_mesh.Prelude.Int.{ℤ, pos, negsuc, sub_ℕ}
use tuya_ble_mesh.Bytes.{Bytes}
use tuya_ble_mesh.Mesh.Ccm.{MeshCipher}
use tuya_ble_mesh.Mesh.Codec.{
  generic_onoff_set, generic_level_set, light_lightness_set, make_proxy_pdu,
}
use tuya_ble_mesh.Mesh.Codec.{config_composition_get, config_appkey_add, config_model_app_bind}
use tuya_ble_mesh.Mesh.Network.{encrypt_network_pdu}
use tuya_ble_mesh.Mesh.Transport.{MeshKeys, make_access_unsegmented, make_access_segmented}
use tuya_ble_mesh.Device.State.{Device, ResponseKey, response_key_discrete}
use tuya_ble_mesh.Device.Sequence.{next_seq, next_seqs}
use native.Mathlib.Decide.{ℕ_discrete}

-- How a command ends: the device it leaves, the frames it gave to the client, the latest last, and
-- its value or its exception.
pub record Sent {ℓ} (Value : Type ℓ) : Type ℓ where
  pub device : Device
  pub frames : List Bytes
  pub outcome : Result Value

abbrev pub fail {ℓ} : {Value : Type ℓ} → Device → List Bytes → Error → Sent Value
fail d frames e = record { device = d; frames = frames; outcome = err e }

-- `if value is None: raise error`
unfoldable pub or_raise {ℓ} : {Value : Type ℓ} → Error → Option Value → Result Value
or_raise e none = err e
or_raise e (some value) = ok value

-- The client and the keys, or `SIGMeshError("Not connected")`.
unfoldable pub connected_keys : Device → Result MeshKeys
unfolding or_raise
connected_keys d = if d.has_client then or_raise sig_mesh_error d.keys else err sig_mesh_error

unfoldable pub loaded_app_key : MeshKeys → Result Bytes
unfolding or_raise
loaded_app_key keys = or_raise sig_mesh_key_error keys.app_key

-- `level + 32768`
unfoldable pub to_lightness : ℤ → ℤ
to_lightness (pos n) = pos (n + 32768)
to_lightness (negsuc n) = sub_ℕ 32768 (n + 1)

unfoldable pub level_payload : Device → ℤ → ℕ → Result Bytes
level_payload d level transaction_id =
    if d.brightness_model_id == 0x1300
    then light_lightness_set (to_lightness level) transaction_id
    else generic_level_set level transaction_id

-- `except (BleakError, OSError)`
unfoldable pub is_write_error : Error → Bool
is_write_error bleak_error = true
is_write_error os_error = true
is_write_error _ = false

module _ (cipher : MeshCipher) where
  -- The network PDU and the proxy PDU around a transport PDU.
  unfoldable pub wrap_transport : MeshKeys → ℕ → ℕ → ℕ → Bytes → Result Bytes
  wrap_transport keys seq src dst transport_pdu = do
    network_pdu ←
        encrypt_network_pdu cipher keys.enc_key keys.priv_key keys.nid 0 5 seq src dst transport_pdu
          keys.iv_index
    make_proxy_pdu network_pdu

  -- The frame for an unsegmented access payload.
  unfoldable pub make_frame : MeshKeys → Bytes → ℕ → ℕ → ℕ → ℕ → ℕ → Bytes → Result Bytes
  make_frame keys key akf aid seq src dst access_payload = do
    transport_pdu ←
        make_access_unsegmented cipher key src dst seq keys.iv_index access_payload akf aid
    wrap_transport keys seq src dst transport_pdu

  -- The next sequence number is taken, and stays taken, before the frame is made with it.
  unfoldable pub number_frame :
      Device → MeshKeys → Bytes → ℕ → ℕ → ℕ → Bytes → Result (ℕ × ℕ) → Device × Result Bytes
  number_frame d keys key akf aid dst payload (err e) = (d, err e)
  number_frame d keys key akf aid dst payload (ok (seq, next)) =
      (record d { seq = next }, make_frame keys key akf aid seq d.our_addr dst payload)

  unfoldable pub prepare_frame :
      Device → MeshKeys → Bytes → ℕ → ℕ → ℕ → Result Bytes → Device × Result Bytes
  prepare_frame d keys key akf aid dst (err e) = (d, err e)
  prepare_frame d keys key akf aid dst (ok payload) =
      number_frame d keys key akf aid dst payload (next_seq d.seq)

  -- The write of a frame that was made: after a BleakError or an OSError there is another attempt, and
  -- every other exception ends the command.
  unfoldable pub write_or_retry :
      (Device → List Bytes → Sent (Unit {0}))
      → List Bytes
      → Device × Result Bytes
      → Option Error
      → Sent (Unit {0})
  write_or_retry retry frames (d, err e) write = fail d frames e
  write_or_retry retry frames (d, ok frame) none = record {
    device = d;
    frames = frames ++ (frame ∷ []);
    outcome = ok tt;
  }
  write_or_retry retry frames (d, ok frame) (some e) =
      if is_write_error e
      then retry d (frames ++ (frame ∷ []))
      else fail d (frames ++ (frame ∷ [])) e

  -- The loop of `send_power` and `send_level`: the attempts left, the frames written so far.
  unfoldable pub send_attempts :
      ℕ
      → (ℕ → Option Error)
      → ℕ
      → MeshKeys
      → Bytes
      → ℕ
      → Result Bytes
      → Device
      → List Bytes
      → Sent (Unit {0})
  unfolding write_or_retry
  send_attempts zero write attempt keys key dst payload d frames =
      fail d frames mesh_connection_error
  send_attempts (suc left) write attempt keys key dst payload d frames =
      write_or_retry (send_attempts left write (attempt + 1) keys key dst payload) frames
        (prepare_frame d keys key 1 keys.key_aid dst payload) (write attempt)

  -- The checks of the commands that use the application key.
  unfoldable pub app_keys : Device → Result (MeshKeys × Bytes)
  unfolding connected_keys loaded_app_key
  app_keys d = do keys ← connected_keys d; key ← loaded_app_key keys; ok (keys, key)

  -- A new transaction identifier, and the attempts with it.
  unfoldable pub send_transaction :
      Device
      → ℕ
      → (ℕ → Option Error)
      → ℕ
      → (ℕ → Result Bytes)
      → Result (MeshKeys × Bytes)
      → Sent (Unit {0})
  send_transaction d max_retries write dst payload (err e) = fail d [] e
  send_transaction d max_retries write dst payload (ok (keys, key)) =
      send_attempts max_retries write 1 keys key dst (payload d.tid)
        (record d { tid = bit_and (d.tid + 1) 0xff }) []

  unfoldable pub send_power : Device → Bool → ℕ → (ℕ → Option Error) → Sent (Unit {0})
  send_power d on max_retries write =
      send_transaction d max_retries write d.target_addr (generic_onoff_set on) (app_keys d)

  unfoldable pub send_level : Device → ℤ → ℕ → (ℕ → Option Error) → Sent (Unit {0})
  send_level d level max_retries write =
      send_transaction d max_retries write d.level_target_addr (level_payload d level) (app_keys d)

  -- One write, whose exception the command lets through.
  unfoldable pub send_once : Option Error → Device × Result Bytes → Sent (Unit {0})
  send_once write (d, err e) = fail d [] e
  send_once none (d, ok frame) = record { device = d; frames = frame ∷ []; outcome = ok tt }
  send_once (some e) (d, ok frame) = fail d (frame ∷ []) e

  unfoldable pub send_vendor_command : Device → Bytes → Option Error → Sent (Unit {0})
  send_vendor_command d access_payload write = elim (app_keys d) [
    | err e ↦ fail d [] e
    | ok (keys, key) ↦
        send_once write (prepare_frame d keys key 1 keys.key_aid d.target_addr (ok access_payload))
  ]

  unfoldable pub request_composition_data : Device → Option Error → Sent (Unit {0})
  request_composition_data d write = elim (connected_keys d) [
    | err e ↦ fail d [] e
    | ok keys ↦
        send_once write
          (prepare_frame d keys keys.dev_key 0 0 d.target_addr (config_composition_get (pos 0)))
  ]

  -- The future, under its opcode and a new correlation number; the future is that number too.
  unfoldable pub register_response : Device → ℕ → Device
  register_response d opcode = record d {
    correlation_id = d.correlation_id + 1;
    pending_responses =
        insert response_key_discrete (record { opcode = opcode; correlation_id = d.correlation_id })
          d.correlation_id d.pending_responses;
  }

  -- `finally`
  unfoldable pub forget_response : Device → ResponseKey → Device
  forget_response d key = record d {
    pending_responses = erase response_key_discrete key d.pending_responses;
  }

  -- `params[0] if params else 0xFF`, compared with Success.
  unfoldable pub is_success : Bytes → Bool
  is_success [] = false
  is_success (status ∷ params) = status == 0

  -- The wait for the future of this key: the parameters that it was given meanwhile, or the timeout.
  unfoldable pub await_response : (Device → Device) → Device → ResponseKey → List Bytes → Sent Bool
  await_response meanwhile d key frames =
      let later = meanwhile d in
      record {
        device = forget_response later key;
        frames = frames;
        outcome = elim (lookup ℕ_discrete key.correlation_id later.answered) [
          | none ↦ err sig_mesh_error
          | some params ↦ ok (is_success params)
        ];
      }

  -- The segments, each in a frame with its own number: what was written, and the exception that ended it.
  unfoldable pub write_segments :
      MeshKeys → ℕ → ℕ → (ℕ → Option Error) → ℕ → List (ℕ × Bytes) → List Bytes × Option Error
  write_segments keys src dst write n [] = ([], none)
  write_segments keys src dst write n ((seg_seq, transport_pdu) ∷ segments) =
      let rest = write_segments keys src dst write (n + 1) segments in
      elim (wrap_transport keys seg_seq src dst transport_pdu) [
        | err e ↦ ([], some e)
        | ok frame ↦ elim (write n) [
          | none ↦ (frame ∷ rest.0, rest.1)
          | some e ↦ (frame ∷ [], some e)
        ]
      ]

  -- What is ready before the future is registered: the keys, and the segments with their numbers.
  unfoldable pub prepare_appkey_add :
      Device → MeshKeys → Bytes → ℤ → ℤ → Device × Result (List (ℕ × Bytes))
  prepare_appkey_add d keys app_key net_idx app_idx =
      elim (config_appkey_add net_idx app_idx app_key) [
        | err e ↦ (d, err e)
        | ok access_payload ↦ elim (next_seqs ((length access_payload + 4 + 12 - 1) / 12) d.seq) [
          | err e ↦ (d, err e)
          | ok (seq_start, next) ↦ (
            record d { seq = next },
            make_access_segmented cipher keys.dev_key d.our_addr d.target_addr seq_start
                keys.iv_index access_payload 0 0 0,
          )
        ]
      ]

  unfoldable pub send_config_appkey_add :
      Device → Bytes → ℤ → ℤ → (ℕ → Option Error) → (Device → Device) → Sent Bool
  send_config_appkey_add d app_key net_idx app_idx write meanwhile = elim (connected_keys d) [
    | err e ↦ fail d [] e
    | ok keys ↦
        let prepared = prepare_appkey_add d keys app_key net_idx app_idx in
        elim prepared.1 [
          | err e ↦ fail prepared.0 [] e
          | ok segments ↦
              let key : ResponseKey = record {
                opcode = 0x8003;
                correlation_id = d.correlation_id;
              } in
              let waiting = register_response prepared.0 0x8003 in
              let written = write_segments keys d.our_addr d.target_addr write 0 segments in
              elim written.1 [
                | some e ↦ fail (forget_response waiting key) written.0 e
                | none ↦ await_response meanwhile waiting key written.0
              ]
        ]
  ]

  unfoldable pub send_config_model_app_bind :
      Device → ℤ → ℤ → ℤ → Option Error → (Device → Device) → Sent Bool
  send_config_model_app_bind d element_addr app_idx model_id write meanwhile =
      elim (connected_keys d) [
        | err e ↦ fail d [] e
        | ok keys ↦
            let prepared =
              prepare_frame d keys keys.dev_key 0 0 d.target_addr
                (config_model_app_bind element_addr app_idx model_id) in
            elim prepared.1 [
              | err e ↦ fail prepared.0 [] e
              | ok frame ↦
                  let key : ResponseKey = record {
                    opcode = 0x803e;
                    correlation_id = d.correlation_id;
                  } in
                  let waiting = register_response prepared.0 0x803e in
                  elim write [
                    | some e ↦ fail (forget_response waiting key) (frame ∷ []) e
                    | none ↦ await_response meanwhile waiting key (frame ∷ [])
                  ]
            ]
      ]
