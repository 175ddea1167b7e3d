-- ===== src/Provisioning/Bearer.antt =====
-- The bearer: `_wrap_provisioning_pdu`, and `_process_notify`, which puts the segments together.
pub mod RoundTrip
use tuya_ble_mesh.Prelude.{
  ℕ, zero, suc, ◌+◌, ◌-◌, Bool, true, false, List, [], ◌∷◌, ◌++◌, bit_and, bit_or,
}
use tuya_ble_mesh.Prelude.{
  ltb, leb, ◌==◌, if◌then◌else◌, length, take, drop, Result, ok, err, ◌>>=◌, value_error,
}
use tuya_ble_mesh.Bits.Fields.{◌<<<◌, ◌>>>◌}
use tuya_ble_mesh.Bytes.{Bytes, index}

-- `bytes([(sar << 6) | 0x03]) + chunk`
abbrev pub with_sar : ℕ → Bytes → Bytes
with_sar sar chunk = bit_or (sar <<< 6) 0x03 ∷ chunk

-- The chunks of the PDU. The fuel counts chunks, each of which takes one byte at least.
unfoldable pub chunk_loop : ℕ → ℕ → Bytes → List Bytes
chunk_loop zero max_payload pdu = []
chunk_loop (suc fuel) max_payload pdu =
    let rest = chunk_loop fuel max_payload (drop max_payload pdu) in
    if length pdu == 0 then [] else take max_payload pdu ∷ rest

-- SAR by position: first, last, or continuation.
unfoldable pub sar_at : ℕ → ℕ → ℕ
sar_at i count = if i == 0 then 0x01 else if i == count - 1 then 0x03 else 0x02

unfoldable pub wrap_chunks : ℕ → ℕ → List Bytes → List Bytes
wrap_chunks i count [] = []
wrap_chunks i count (chunk ∷ chunks) =
    with_sar (sar_at i count) chunk ∷ wrap_chunks (i + 1) count chunks

unfoldable pub wrap_multi : List Bytes → List Bytes
wrap_multi chunks = wrap_chunks 0 (length chunks) chunks

-- Below an MTU of 4 the range of offsets is empty, and at 4 it has no step.
unfoldable pub wrap_provisioning_pdu : Bytes → ℕ → Result (List Bytes)
unfolding wrap_multi
wrap_provisioning_pdu pdu mtu =
    if ltb mtu 4
    then ok []
    else if leb (length pdu) (mtu - 4)
    then ok (with_sar 0x00 pdu ∷ [])
    else if mtu == 4
    then err value_error
    else ok (wrap_multi (chunk_loop (length pdu) (mtu - 4) pdu))

-- `rx_buffer`, `rx_sar_buffer`, and whether `rx_event` is set.
pub record Received : Type 0 where
  pub rx_buffer : Bytes
  pub rx_sar_buffer : Bytes
  pub rx_event : Bool

unfoldable pub receive_sar : Received → ℕ → Bytes → Received
receive_sar r sar payload =
    if sar == 0x00
    then record r { rx_buffer = payload; rx_event = true }
    else if sar == 0x01
    then record r { rx_sar_buffer = payload }
    else if sar == 0x02
    then record r { rx_sar_buffer = r.rx_sar_buffer ++ payload }
    else record { rx_buffer = r.rx_sar_buffer ++ payload; rx_sar_buffer = []; rx_event = true }

-- `_on_notify` drops an empty notification; `_process_notify` takes the others.
unfoldable pub receive_notification : Received → Bytes → Received
receive_notification r [] = r
receive_notification r (first ∷ payload) = receive_sar r (bit_and (first >>> 6) 0x03) payload

unfoldable pub receive_all : Received → List Bytes → Received
receive_all r [] = r
receive_all r (segment ∷ segments) = receive_all (receive_notification r segment) segments
