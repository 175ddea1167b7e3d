-- ===== src/Telink/Packet/Layout.antt =====
-- What the builders of `protocol.py` return on arguments in range: nonces and payloads as plain
-- byte strings.
use tuya_ble_mesh.Prelude.{ℕ, suc, ◌-◌, ◌%◌, ◌^◌, ◌≤◌, ◌<◌, ◌≡◌, refl, arith}
use tuya_ble_mesh.Prelude.{[], ◌∷◌, ◌++◌, reverse, ok, length, take, not-lt→ltb}
use tuya_ble_mesh.Prelude.{protocol_error, length-append, length-replicate}
use tuya_ble_mesh.Prelude.Int.{pos, in_range_pos}
use tuya_ble_mesh.Bytes.{Bytes, zeros, le_digits}
use tuya_ble_mesh.Bytes.Words.{to_bytes_le-le_digits, pack_le-le_digits}
use tuya_ble_mesh.Telink.Packet.{build_nonce, encode_command_payload, sequence_bytes}

-- `[MAC_rev[0:4]][0x01][seq_lo][seq_mid][seq_hi]`
unfoldable pub command_nonce : Bytes → ℕ → Bytes
command_nonce mac sequence = take 4 (reverse mac) ++ (1 ∷ le_digits 3 sequence)

pub sequence_bytes-le_digits :
    (sequence : ℕ) → sequence < 2 ^ 24 → sequence_bytes (pos sequence) ≡ ok (le_digits 3 sequence)
unfolding sequence_bytes
sequence_bytes-le_digits sequence h = to_bytes_le-le_digits 3 sequence h

pub build_nonce-command_nonce :
    (mac : Bytes) (sequence : ℕ)
    → length mac ≡ 6
    → sequence < 2 ^ 24
    → build_nonce mac (pos sequence) ≡ ok (command_nonce mac sequence)
unfolding build_nonce command_nonce
build_nonce-command_nonce mac sequence hm hs =
    rw
      (
        hm,
        in_range_pos 0 0xffffff sequence protocol_error (omega arith) (omega arith),
        to_bytes_le-le_digits 3 sequence hs,
      )
      refl

-- `[dest_id LE 2B][opcode 1B][vendor_id 2B][params...][zero-pad to 15B]`
unfoldable pub command_payload : ℕ → ℕ → ℕ → ℕ → Bytes → Bytes
command_payload dest_id opcode vendor_lo vendor_hi params =
    le_digits 2 dest_id ++ (opcode ∷ vendor_lo ∷ vendor_hi ∷ params ++ zeros (10 - length params))

pub length-command_payload :
    (dest_id opcode v w : ℕ) (params : Bytes)
    → length params ≤ 10
    → length (command_payload dest_id opcode v w params) ≡ 15
unfolding command_payload
length-command_payload dest_id opcode v w params h = omega (
  arith,
  length-append params (zeros (10 - length params)),
  length-replicate {A = ℕ} (10 - length params) 0,
)

pub encode_command_payload-command_payload :
    (dest_id opcode v w : ℕ) (params : Bytes)
    → dest_id < 2 ^ 16
    → opcode < 256
    → length params ≤ 10
    → encode_command_payload (pos dest_id) (pos opcode) params (v ∷ w ∷ [])
      ≡ ok (command_payload dest_id opcode v w params)
unfolding encode_command_payload command_payload
encode_command_payload-command_payload dest_id opcode v w params hd ho hp =
    let low : opcode % 256 ≡ opcode = omega arith in
    let pad : 15 - suc (suc (suc (suc (suc (length params))))) ≡ 10 - length params = omega arith in
    rw
      (
        in_range_pos 0 0xffff dest_id protocol_error (omega arith) (omega arith),
        in_range_pos 0 0xff opcode protocol_error (omega arith) (omega arith),
        not-lt→ltb 10 (length params) hp,
        pack_le-le_digits 2 dest_id hd,
        pack_le-le_digits 1 opcode ho,
        low,
        pad,
      )
      refl
