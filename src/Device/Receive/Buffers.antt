-- ===== src/Device/Receive/Buffers.antt =====
-- The reassembly buffers under every notification: an invariant.
use tuya_ble_mesh.Prelude.{
  ℕ, ◌+◌, ◌≤◌, ◌≡◌, refl, sym, subst, ap, ◌∙◌, arith, Option, none, some, List, [], ◌∷◌, length,
}
use tuya_ble_mesh.Prelude.{Result, ok, err, Error, Option-cases, inl, inr, if-cases, ◌==◌}
use tuya_ble_mesh.Prelude.Dict.{
  lookup, insert, erase, Distinct, insert-Distinct, erase-Distinct, AllEntries, lookup-AllEntries,
  insert-AllEntries, erase-AllEntries, erase-insert,
}
use tuya_ble_mesh.Bytes.{Bytes}
use tuya_ble_mesh.Mesh.Ccm.{MeshCipher}
use tuya_ble_mesh.Mesh.Codec.{
  SegmentHeader, parse_segment_header, ProxyPdu, parse_proxy_pdu, parse_access_opcode,
}
use tuya_ble_mesh.Mesh.Network.{NetworkPdu}
use tuya_ble_mesh.Mesh.Transport.{MeshKeys, AccessMessage}
use tuya_ble_mesh.Device.State.{
  Device, BufferKey, buffer_key_discrete, ReassemblyBuffer, ResponseKey,
}
use tuya_ble_mesh.Device.Receive.{
  Outcome, on_malformed, find_response, handle_composition_data, notify, answer_or_notify,
}
use tuya_ble_mesh.Device.Receive.{
  dispatch_unlocked, dispatch_parsed, dispatch_access_payload, stale_keys, erase_all,
  clean_stale_buffers,
}
use tuya_ble_mesh.Device.Receive.{
  new_buffer, buffer_or_new, key_for, add_segment, dispatch_reassembled, complete_reassembly,
}
use tuya_ble_mesh.Device.Receive.{
  then_clean, collect_segment, handle_segment, route_access, route_network, process_notify,
  process_proxy, process_with, dispatch_opened, handle_parsed, open_buffer,
}
use native.Mathlib.Decide.{ℕ_discrete}

abbrev Buffers : Type 0
Buffers = List (BufferKey × ReassemblyBuffer)

abbrev segment_buffers_of : Device → Buffers
segment_buffers_of d = d.segment_buffers

on_malformed-device : (d : Device) (e : Error) → (on_malformed d e).0 ≡ d
unfolding on_malformed
on_malformed-device d e = ground arith

composition-buffers :
    (d : Device) (params : Bytes)
    → (handle_composition_data d params).0.segment_buffers ≡ d.segment_buffers
unfolding handle_composition_data on_malformed
composition-buffers d params = ground arith

notify-buffers :
    (d : Device) (opcode : ℕ) (params : Bytes)
    → (notify d opcode params).0.segment_buffers ≡ d.segment_buffers
unfolding notify
notify-buffers d opcode params = ground (arith, composition-buffers d params)

answer-buffers :
    (d : Device) (opcode : ℕ) (params : Bytes) (o : Option (ResponseKey × ℕ))
    → (answer_or_notify d opcode params o).0.segment_buffers ≡ d.segment_buffers
unfolding answer_or_notify
answer-buffers d opcode params none = notify-buffers d opcode params
answer-buffers d opcode params (some (key, future)) = refl

parsed-buffers :
    (d : Device) (r : Result (ℕ × Bytes))
    → (dispatch_parsed d r).0.segment_buffers ≡ d.segment_buffers
unfolding dispatch_parsed dispatch_unlocked
parsed-buffers d (err e) = ap segment_buffers_of (on_malformed-device d e)
parsed-buffers d (ok (opcode, params)) =
    answer-buffers d opcode params (find_response opcode d.pending_responses)

dispatch-buffers :
    (d : Device) (payload : Bytes)
    → (dispatch_access_payload d payload).0.segment_buffers ≡ d.segment_buffers
unfolding dispatch_access_payload
dispatch-buffers d payload = parsed-buffers d (parse_access_opcode payload)

-- A buffer under the key of its own fields that still waits for a segment.
pub record Collecting (key : BufferKey) (buf : ReassemblyBuffer) : Type 0 where
  pub named : key ≡ record { src = buf.src; dst = buf.dst; seq_zero = buf.seq_zero; aid = buf.aid }
  pub indices : Distinct ℕ_discrete buf.segments
  pub waiting : length buf.segments ≤ buf.seg_n

pub record Tidy (buffers : Buffers) : Type 0 where
  pub keys : Distinct buffer_key_discrete buffers
  pub all : AllEntries buffer_key_discrete Collecting buffers

length-insert-le :
    (i : ℕ) (x : Bytes) (d : List (ℕ × Bytes)) → length (insert ℕ_discrete i x d) ≤ length d + 1
unfolding insert
length-insert-le i x [] = omega arith
length-insert-le i x ((j, y) ∷ d) = ground (arith, length-insert-le i x d)

erase_all-Tidy :
    (keys : List BufferKey) (buffers : Buffers) → Tidy buffers → Tidy (erase_all keys buffers)
unfolding erase_all
erase_all-Tidy [] buffers t = t
erase_all-Tidy (key ∷ keys) buffers t =
    erase_all-Tidy keys (erase buffer_key_discrete key buffers) (record {
      keys = erase-Distinct buffer_key_discrete key buffers t.keys;
      all = erase-AllEntries buffer_key_discrete Collecting key buffers t.all;
    })

then_clean-Tidy :
    (cipher : MeshCipher) (now : ℕ) (o : Outcome)
    → Tidy o.0.segment_buffers
    → Tidy (then_clean cipher now o).0.segment_buffers
unfolding then_clean clean_stale_buffers
then_clean-Tidy cipher now (d, none) t =
    erase_all-Tidy (stale_keys now d.segment_buffers) d.segment_buffers t
then_clean-Tidy cipher now (d, some e) t = t

-- What the buffer of a segment has before the segment.
buffer_or_new-Collecting :
    (buffers : Buffers) (h : SegmentHeader) (src dst now : ℕ)
    → Tidy buffers
    → Collecting
        (key_for h src dst)
        (buffer_or_new (lookup buffer_key_discrete (key_for h src dst) buffers) h src dst now)
unfolding buffer_or_new new_buffer lookup
buffer_or_new-Collecting buffers h src dst now t =
    elim (Option-cases (lookup buffer_key_discrete (key_for h src dst) buffers)) [
      | inl free ↦ rw free (record { named = refl; indices = tt; waiting = omega arith })
      | inr (buf, there) ↦ rw there (
          lookup-AllEntries buffer_key_discrete Collecting (key_for h src dst) buf buffers t.all
            there)
    ]

module _ (cipher : MeshCipher) where
  reassembled-buffers :
      (d : Device) (r : Result (Option Bytes))
      → (dispatch_reassembled cipher d r).0.segment_buffers ≡ d.segment_buffers
  unfolding dispatch_reassembled
  reassembled-buffers d (err e) = refl
  reassembled-buffers d (ok none) = refl
  reassembled-buffers d (ok (some payload)) = dispatch-buffers d payload

  open-buffers :
      (d : Device) (buf : ReassemblyBuffer) (k : Option MeshKeys)
      → (open_buffer cipher d buf k).0.segment_buffers ≡ d.segment_buffers
  unfolding open_buffer
  open-buffers d buf none = refl
  open-buffers d buf (some keys) = reassembled-buffers d _

  complete-buffers :
      (d : Device) (key : BufferKey) (buf : ReassemblyBuffer)
      → (complete_reassembly cipher d key buf).0.segment_buffers
        ≡ erase buffer_key_discrete key d.segment_buffers
  unfolding complete_reassembly
  complete-buffers d key buf = open-buffers _ buf d.keys

  collect_segment-Tidy :
      (d : Device) (src dst now : ℕ) (h : SegmentHeader)
      → Tidy d.segment_buffers
      → Tidy (collect_segment cipher d src dst now h).0.segment_buffers
  unfolding collect_segment add_segment
  collect_segment-Tidy d src dst now h t =
      let key = key_for h src dst in
      let old = buffer_or_new (lookup buffer_key_discrete key d.segment_buffers) h src dst now in
      let c = buffer_or_new-Collecting d.segment_buffers h src dst now t in
      let buf = add_segment h old in
      then_clean-Tidy cipher now _ (
        if-cases (λ (o : Outcome). Tidy o.0.segment_buffers) (length buf.segments == buf.seg_n + 1)
          _ _
          (λ full.
            let erased : Tidy (erase buffer_key_discrete key d.segment_buffers) = record {
              keys = erase-Distinct buffer_key_discrete key d.segment_buffers t.keys;
              all = erase-AllEntries buffer_key_discrete Collecting key d.segment_buffers t.all;
            } in
            subst Tidy
              (sym (
                complete-buffers
                  (record d {
                    segment_buffers = insert buffer_key_discrete key buf d.segment_buffers;
                  })
                  key buf
                ∙ erase-insert buffer_key_discrete key buf d.segment_buffers))
              erased)
          (λ partial. record {
            keys = insert-Distinct buffer_key_discrete key buf d.segment_buffers t.keys;
            all =
                insert-AllEntries buffer_key_discrete Collecting key buf d.segment_buffers t.all
                  (record {
                    named = c.named;
                    indices =
                        insert-Distinct ℕ_discrete h.seg_o h.segment_data old.segments c.indices;
                    waiting = ground (
                      arith,
                      length-insert-le h.seg_o h.segment_data old.segments,
                      c.waiting,
                      partial,
                    );
                  });
          }))

  parsed-Tidy :
      (d : Device) (src dst now : ℕ) (r : Result SegmentHeader)
      → Tidy d.segment_buffers
      → Tidy (handle_parsed cipher d src dst now r).0.segment_buffers
  unfolding handle_parsed
  parsed-Tidy d src dst now (err e) t =
      subst Tidy (sym (ap segment_buffers_of (on_malformed-device d e))) t
  parsed-Tidy d src dst now (ok h) t = collect_segment-Tidy d src dst now h t

  opened-Tidy :
      (d : Device) (o : Option Bytes)
      → Tidy d.segment_buffers
      → Tidy (dispatch_opened cipher d o).0.segment_buffers
  unfolding dispatch_opened
  opened-Tidy d none t = t
  opened-Tidy d (some payload) t = subst Tidy (sym (dispatch-buffers d payload)) t

  access-Tidy :
      (d : Device) (net_pdu : NetworkPdu) (now : ℕ) (r : Result (Option AccessMessage))
      → Tidy d.segment_buffers
      → Tidy (route_access cipher d net_pdu now r).0.segment_buffers
  unfolding route_access handle_segment
  access-Tidy d net_pdu now (err e) t = t
  access-Tidy d net_pdu now (ok none) t = t
  access-Tidy d net_pdu now (ok (some message)) t =
      if-cases (λ (o : Outcome). Tidy o.0.segment_buffers) message.seg _ _
        (λ _.
          parsed-Tidy d net_pdu.src net_pdu.dst now (parse_segment_header net_pdu.transport_pdu) t)
        (λ _. opened-Tidy d message.access_payload t)

  network-Tidy :
      (d : Device) (keys : MeshKeys) (now : ℕ) (r : Result (Option NetworkPdu))
      → Tidy d.segment_buffers
      → Tidy (route_network cipher d keys now r).0.segment_buffers
  unfolding route_network
  network-Tidy d keys now (err e) t = t
  network-Tidy d keys now (ok none) t = t
  network-Tidy d keys now (ok (some net_pdu)) t = access-Tidy d net_pdu now _ t

  proxy-Tidy :
      (d : Device) (keys : MeshKeys) (now : ℕ) (r : Result ProxyPdu)
      → Tidy d.segment_buffers
      → Tidy (process_proxy cipher d keys now r).0.segment_buffers
  unfolding process_proxy
  proxy-Tidy d keys now (err e) t =
      subst Tidy (sym (ap segment_buffers_of (on_malformed-device d e))) t
  proxy-Tidy d keys now (ok proxy) t = network-Tidy d keys now _ t

  with-Tidy :
      (d : Device) (bytes : Bytes) (now : ℕ) (k : Option MeshKeys)
      → Tidy d.segment_buffers
      → Tidy (process_with cipher d bytes now k).0.segment_buffers
  unfolding process_with
  with-Tidy d bytes now none t = t
  with-Tidy d bytes now (some keys) t = proxy-Tidy d keys now (parse_proxy_pdu bytes) t

  -- Every notification, whatever its bytes and with or without an exception, keeps the reassembly
  -- buffers in order: no two under one key, each under the key of its own fields, with distinct
  -- segment indices, and none with all of its segments.
  pub process_notify-Tidy :
      (d : Device) (bytes : Bytes) (now : ℕ)
      → Tidy d.segment_buffers
      → Tidy (process_notify cipher d bytes now).0.segment_buffers
  unfolding process_notify
  process_notify-Tidy d bytes now t = with-Tidy d bytes now d.keys t
