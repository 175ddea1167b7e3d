-- ===== src/Device/Receive.antt =====
-- `lib/tuya_ble_mesh/sig_mesh_device_segments.py`: from a notification of the proxy to the callbacks.
-- The lock serialises the handlers, so each is one step. An exception that a handler leaves to its
-- task comes with the state that it leaves behind.
pub mod Buffers
use tuya_ble_mesh.Prelude.{
  ℕ, zero, suc, ◌+◌, ◌-◌, Bool, true, false, not, ◌&&◌, Option, none, some, List, [], ◌∷◌, ◌++◌,
}
use tuya_ble_mesh.Prelude.{
  is_some, ltb, leb, ◌==◌, if◌then◌else◌, length, take, Result, ok, err, Error,
  malformed_packet_error,
}
use tuya_ble_mesh.Prelude.Dict.{lookup, insert, erase}
use tuya_ble_mesh.Prelude.Int.{ℤ, sub_ℕ}
use tuya_ble_mesh.Bytes.{Bytes, from_bytes_le}
use tuya_ble_mesh.Mesh.Ccm.{MeshCipher}
use tuya_ble_mesh.Mesh.Codec.{
  SegmentHeader, parse_segment_header, ProxyPdu, parse_proxy_pdu, parse_access_opcode,
}
use tuya_ble_mesh.Mesh.Codec.{CompositionData, parse_composition_data, of_int16}
use tuya_ble_mesh.Mesh.Network.{NetworkPdu, decrypt_network_pdu}
use tuya_ble_mesh.Mesh.Transport.{
  MeshKeys, AccessMessage, decrypt_access_payload, reassemble_and_decrypt_segments,
}
use tuya_ble_mesh.Device.State.{
  Device, BufferKey, buffer_key_discrete, ReassemblyBuffer, ResponseKey, response_key_discrete,
}
use tuya_ble_mesh.Device.State.{Event, onoff, level, vendor, composed, disconnected}
use native.Mathlib.Decide.{ℕ_discrete}

-- The state that a handler leaves, and the exception that it raised.
abbrev pub Outcome : Type 0
Outcome = Device × Option Error

-- `except MalformedPacketError: return`
unfoldable pub on_malformed : Device → Error → Outcome
on_malformed d malformed_packet_error = (d, none)
on_malformed d e = (d, some e)

abbrev pub emit : Device → Event → Device
emit d event = record d { events = d.events ++ (event ∷ []) }

-- The first pending response for the opcode, in the order of the dictionary.
unfoldable pub find_response : ℕ → List (ResponseKey × ℕ) → Option (ResponseKey × ℕ)
find_response opcode [] = none
find_response opcode ((key, future) ∷ pending) =
    if key.opcode == opcode then some (key, future) else find_response opcode pending

-- `if not future.done(): future.set_result(params)`
unfoldable pub set_answer : ℕ → Bytes → List (ℕ × Bytes) → List (ℕ × Bytes)
set_answer future params answered =
    if is_some (lookup ℕ_discrete future answered)
    then answered
    else insert ℕ_discrete future params answered

unfoldable pub handle_composition_data : Device → Bytes → Outcome
handle_composition_data d params = elim (parse_composition_data params) [
  | err e ↦ on_malformed d e
  | ok comp ↦ (emit (record d { composition = some comp }) (composed comp), none)
]

-- `lightness - 32768`
unfoldable pub lightness_level : ℕ → ℤ
lightness_level lightness = sub_ℕ lightness 32768

-- The callbacks that an opcode calls where no response is pending for it.
unfoldable pub notify : Device → ℕ → Bytes → Outcome
notify d opcode params =
    let composition = handle_composition_data d params in
    if opcode == 0x8204 && ltb 0 (length params)
    then (emit d (onoff (not (from_bytes_le (take 1 params) == 0))), none)
    else if opcode == 0x8208 && leb 2 (length params)
    then (emit d (level (of_int16 (from_bytes_le (take 2 params)))), none)
    else if opcode == 0x824e && leb 2 (length params)
    then (emit d (level (lightness_level (from_bytes_le (take 2 params)))), none)
    else if opcode == 0x02
    then composition
    else if ltb 0xffff opcode
    then (emit d (vendor opcode params), none)
    else (d, none)

-- A pending response takes the parameters; where there is none, the callbacks get them.
unfoldable pub answer_or_notify : Device → ℕ → Bytes → Option (ResponseKey × ℕ) → Outcome
unfolding notify
answer_or_notify d opcode params (some (key, future)) = (
  record d {
    pending_responses = erase response_key_discrete key d.pending_responses;
    answered = set_answer future params d.answered;
  },
  none,
)
answer_or_notify d opcode params none = notify d opcode params

-- `_dispatch_access_payload_unlocked`
unfoldable pub dispatch_unlocked : Device → ℕ → Bytes → Outcome
dispatch_unlocked d opcode params =
    answer_or_notify d opcode params (find_response opcode d.pending_responses)

unfoldable pub dispatch_parsed : Device → Result (ℕ × Bytes) → Outcome
dispatch_parsed d (err e) = on_malformed d e
dispatch_parsed d (ok (opcode, params)) = dispatch_unlocked d opcode params

-- `_dispatch_access_payload`, and the end of `_complete_reassembly`.
unfoldable pub dispatch_access_payload : Device → Bytes → Outcome
unfolding dispatch_parsed
dispatch_access_payload d access_payload = dispatch_parsed d (parse_access_opcode access_payload)

-- `time.monotonic() - buf.created_at > _REASSEMBLY_TIMEOUT`
unfoldable pub is_stale : ℕ → ReassemblyBuffer → Bool
is_stale now buf = ltb (buf.created_at + 10000) now

unfoldable pub stale_keys : ℕ → List (BufferKey × ReassemblyBuffer) → List BufferKey
stale_keys now [] = []
stale_keys now ((key, buf) ∷ buffers) =
    let rest = stale_keys now buffers in if is_stale now buf then key ∷ rest else rest

-- `del self._segment_buffers[key]` for keys that are there.
unfoldable pub erase_all :
    List BufferKey → List (BufferKey × ReassemblyBuffer) → List (BufferKey × ReassemblyBuffer)
erase_all [] buffers = buffers
erase_all (key ∷ keys) buffers = erase_all keys (erase buffer_key_discrete key buffers)

unfoldable pub clean_stale_buffers : Device → ℕ → Device
clean_stale_buffers d now = record d {
  segment_buffers = erase_all (stale_keys now d.segment_buffers) d.segment_buffers;
}

unfoldable pub new_buffer : SegmentHeader → ℕ → ℕ → ℕ → ReassemblyBuffer
new_buffer h src dst now = record {
  src = src;
  dst = dst;
  akf = h.akf;
  aid = h.aid;
  szmic = h.szmic;
  seq_zero = h.seq_zero;
  seg_n = h.seg_n;
  segments = [];
  created_at = now;
}

unfoldable pub buffer_or_new :
    Option ReassemblyBuffer → SegmentHeader → ℕ → ℕ → ℕ → ReassemblyBuffer
buffer_or_new none h src dst now = new_buffer h src dst now
buffer_or_new (some buf) h src dst now = buf

abbrev pub key_for : SegmentHeader → ℕ → ℕ → BufferKey
key_for h src dst = record { src = src; dst = dst; seq_zero = h.seq_zero; aid = h.aid }

-- The buffer with the segment in it.
unfoldable pub add_segment : SegmentHeader → ReassemblyBuffer → ReassemblyBuffer
add_segment h buf = record buf { segments = insert ℕ_discrete h.seg_o h.segment_data buf.segments }

-- `_on_ble_disconnect`
unfoldable pub on_ble_disconnect : Device → Device
on_ble_disconnect d = emit (record d { has_client = false }) disconnected

module _ (cipher : MeshCipher) where
  -- The reassembled payload, dispatched.
  unfoldable pub dispatch_reassembled : Device → Result (Option Bytes) → Outcome
  dispatch_reassembled d (err e) = (d, some e)
  dispatch_reassembled d (ok none) = (d, none)
  dispatch_reassembled d (ok (some access_payload)) = dispatch_access_payload d access_payload

  -- The payload of a full buffer, where there are keys.
  unfoldable pub open_buffer : Device → ReassemblyBuffer → Option MeshKeys → Outcome
  open_buffer d buf none = (d, none)
  open_buffer d buf (some keys) = dispatch_reassembled d (
      reassemble_and_decrypt_segments cipher keys buf.src buf.dst buf.segments buf.seg_n buf.szmic
        buf.seq_zero buf.akf)

  -- `_complete_reassembly` on the buffer that was popped.
  unfoldable pub complete_reassembly : Device → BufferKey → ReassemblyBuffer → Outcome
  complete_reassembly d key buf =
      open_buffer (record d { segment_buffers = erase buffer_key_discrete key d.segment_buffers })
        buf d.keys

  -- The stale buffers go where no exception came before.
  unfoldable pub then_clean : ℕ → Outcome → Outcome
  then_clean now (d, some e) = (d, some e)
  then_clean now (d, none) = (clean_stale_buffers d now, none)

  unfoldable pub collect_segment : Device → ℕ → ℕ → ℕ → SegmentHeader → Outcome
  collect_segment d src dst now h =
      let key = key_for h src dst in
      let buf =
        add_segment h
          (buffer_or_new (lookup buffer_key_discrete key d.segment_buffers) h src dst now) in
      let stored = record d {
        segment_buffers = insert buffer_key_discrete key buf d.segment_buffers;
      } in
      let completed = complete_reassembly stored key buf in
      then_clean now (if length buf.segments == buf.seg_n + 1 then completed else (stored, none))

  unfoldable pub handle_parsed : Device → ℕ → ℕ → ℕ → Result SegmentHeader → Outcome
  handle_parsed d src dst now (err e) = on_malformed d e
  handle_parsed d src dst now (ok h) = collect_segment d src dst now h

  unfoldable pub handle_segment : Device → ℕ → ℕ → Bytes → ℕ → Outcome
  unfolding handle_parsed
  handle_segment d src dst transport_pdu now =
      handle_parsed d src dst now (parse_segment_header transport_pdu)

  -- The unsegmented payload, where it opened.
  unfoldable pub dispatch_opened : Device → Option Bytes → Outcome
  dispatch_opened d none = (d, none)
  dispatch_opened d (some access_payload) = dispatch_access_payload d access_payload

  -- What a decrypted message is: a segment, an unsegmented payload, or one that did not open.
  unfoldable pub route_access : Device → NetworkPdu → ℕ → Result (Option AccessMessage) → Outcome
  route_access d net_pdu now (err e) = (d, some e)
  route_access d net_pdu now (ok none) = (d, none)
  route_access d net_pdu now (ok (some message)) =
      let segmented = handle_segment d net_pdu.src net_pdu.dst net_pdu.transport_pdu now in
      let whole = dispatch_opened d message.access_payload in
      if message.seg then segmented else whole

  unfoldable pub route_network : Device → MeshKeys → ℕ → Result (Option NetworkPdu) → Outcome
  route_network d keys now (err e) = (d, some e)
  route_network d keys now (ok none) = (d, none)
  route_network d keys now (ok (some net_pdu)) =
      route_access d net_pdu now (
        decrypt_access_payload cipher keys net_pdu.src net_pdu.dst net_pdu.seq
          net_pdu.transport_pdu)

  unfoldable pub process_proxy : Device → MeshKeys → ℕ → Result ProxyPdu → Outcome
  process_proxy d keys now (err e) = on_malformed d e
  process_proxy d keys now (ok proxy) =
      route_network d keys now
        (decrypt_network_pdu cipher keys.enc_key keys.priv_key keys.nid proxy.payload keys.iv_index)

  unfoldable pub process_with : Device → Bytes → ℕ → Option MeshKeys → Outcome
  process_with d bytes now none = (d, none)
  process_with d bytes now (some keys) = process_proxy d keys now (parse_proxy_pdu bytes)

  unfoldable pub process_notify : Device → Bytes → ℕ → Outcome
  unfolding process_with
  process_notify d bytes now = process_with d bytes now d.keys
