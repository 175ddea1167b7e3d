-- ===== src/Mesh/Codec.antt =====
-- `lib/tuya_ble_mesh/sig_mesh_protocol_codec.py`: headers, access messages and vendor frames.
pub mod Opcode
pub mod Vendor
pub mod Header
use tuya_ble_mesh.Prelude.{
  ℕ, zero, suc, ◌+◌, ◌-◌, ◌^◌, ◌%◌, ◌≡◌, Bool, true, false, List, [], ◌∷◌, ◌++◌,
}
use tuya_ble_mesh.Prelude.{bit_and, bit_or, ltb, leb, ◌==◌, ◌&&◌, if◌then◌else◌, length, take, drop}
use tuya_ble_mesh.Prelude.{Result, ok, err, ◌>>=◌, ◌>>◌, guard, raise_if}
use tuya_ble_mesh.Prelude.{protocol_error, malformed_packet_error}
use tuya_ble_mesh.Prelude.Int.{ℤ, pos, negsuc, in_range}
use tuya_ble_mesh.Bits.Fields.{◌<<<◌, ◌>>>◌}
use tuya_ble_mesh.Bytes.{to_bytes_be}
use tuya_ble_mesh.Bytes.{
  Bytes, pack_be, pack_le, le_digits, be_digits, from_bytes_le, index, slice, bytes_of,
}

pub record SegmentHeader : Type 0 where
  pub akf : ℕ
  pub aid : ℕ
  pub szmic : ℕ
  pub seq_zero : ℕ
  pub seg_o : ℕ
  pub seg_n : ℕ
  pub segment_data : Bytes

-- The masks and shifts of the header byte and of the 24-bit field behind it.
unfoldable pub segment_fields : ℕ → ℕ → Bytes → SegmentHeader
segment_fields hdr info rest = record {
  akf = bit_and (hdr >>> 6) 1;
  aid = bit_and hdr 0x3f;
  szmic = bit_and (info >>> 23) 1;
  seq_zero = bit_and (info >>> 10) 0x1fff;
  seg_o = bit_and (info >>> 5) 0x1f;
  seg_n = bit_and info 0x1f;
  segment_data = rest;
}

unfoldable pub parse_segment_header : Bytes → Result SegmentHeader
parse_segment_header transport_pdu = do
  raise_if (ltb (length transport_pdu) 4) malformed_packet_error
  hdr ← index transport_pdu 0
  raise_if (bit_and hdr 0x80 == 0) malformed_packet_error
  a ← index transport_pdu 1
  b ← index transport_pdu 2
  c ← index transport_pdu 3
  ok (segment_fields hdr (bit_or (bit_or (a <<< 16) (b <<< 8)) c) (drop 4 transport_pdu))

unfoldable pub make_proxy_pdu : Bytes → Result Bytes
make_proxy_pdu network_pdu = do
  first ← bytes_of (bit_or (0x00 <<< 6) 0x00 ∷ [])
  ok (first ++ network_pdu)

pub record ProxyPdu : Type 0 where
  pub sar : ℕ
  pub pdu_type : ℕ
  pub payload : Bytes

unfoldable pub parse_proxy_pdu : Bytes → Result ProxyPdu
parse_proxy_pdu [] = err malformed_packet_error
parse_proxy_pdu (b ∷ bs) =
    ok (record { sar = bit_and (b >>> 6) 0x03; pdu_type = bit_and b 0x3f; payload = bs })

unfoldable pub config_composition_get : ℤ → Result Bytes
config_composition_get page = do
  p ← in_range 0 0xff protocol_error page
  op ← pack_be 2 0x8008
  last ← bytes_of (p ∷ [])
  ok (op ++ last)

unfoldable pub config_appkey_add : ℤ → ℤ → Bytes → Result Bytes
config_appkey_add net_idx app_idx app_key = do
  net ← in_range 0 0xfff protocol_error net_idx
  app ← in_range 0 0xfff protocol_error app_idx
  guard (length app_key == 16) protocol_error
  let idx = bit_or (bit_and net 0xfff) (bit_and app 0xfff <<< 12)
  op ← bytes_of (0x00 ∷ [])
  packed ← pack_le 4 idx
  ok (op ++ take 3 packed ++ app_key)

unfoldable pub config_model_app_bind : ℤ → ℤ → ℤ → Result Bytes
config_model_app_bind element_addr app_idx model_id = do
  element ← in_range 0 0xffff protocol_error element_addr
  app ← in_range 0 0xfff protocol_error app_idx
  model ← in_range 0 0xffff protocol_error model_id
  op ← pack_be 2 0x803d
  a ← pack_le 2 element
  b ← pack_le 2 app
  c ← pack_le 2 model
  ok (op ++ a ++ b ++ c)

unfoldable pub generic_onoff_set : Bool → ℕ → Result Bytes
generic_onoff_set on tid = do
  op ← pack_be 2 0x8202
  rest ← bytes_of ((if on then 0x01 else 0x00) ∷ bit_and tid 0xff ∷ [])
  ok (op ++ rest)

unfoldable pub generic_onoff_get : Result Bytes
generic_onoff_get = pack_be 2 0x8201

-- `-32768 <= level <= 32767`, and the two's complement of `struct.pack("<h", level)`.
unfoldable pub is_int16 : ℤ → Bool
is_int16 (pos n) = leb n 32767
is_int16 (negsuc n) = leb (n + 1) 32768

unfoldable pub to_int16 : ℤ → ℕ
to_int16 (pos n) = n
to_int16 (negsuc n) = 2 ^ 16 - 1 - n

-- The inverse, as `struct.unpack_from("<h", params)` reads it.
unfoldable pub of_int16 : ℕ → ℤ
of_int16 w = if ltb w (2 ^ 15) then pos w else negsuc (2 ^ 16 - 1 - w)

unfoldable pub generic_level_set : ℤ → ℕ → Result Bytes
generic_level_set level tid = do
  guard (is_int16 level) protocol_error
  op ← pack_be 2 0x8206
  last ← pack_le 1 (bit_and tid 0xff)
  ok (op ++ le_digits 2 (to_int16 level) ++ last)

unfoldable pub light_lightness_set : ℤ → ℕ → Result Bytes
light_lightness_set lightness tid = do
  value ← in_range 0 0xffff protocol_error lightness
  op ← pack_be 2 0x824c
  level ← pack_le 2 value
  last ← pack_le 1 (bit_and tid 0xff)
  ok (op ++ level ++ last)

-- The three forms of an opcode, by the top bits of the first byte.
unfoldable pub parse_access_opcode : Bytes → Result (ℕ × Bytes)
parse_access_opcode [] = err malformed_packet_error
parse_access_opcode (a ∷ bs) =
    if bit_and a 0x80 == 0
    then ok (a, bs)
    else if bit_and a 0xc0 == 0x80
    then (do
      raise_if (ltb (length (a ∷ bs)) 2) malformed_packet_error
      b ← index (a ∷ bs) 1
      ok (bit_or (a <<< 8) b, drop 2 (a ∷ bs)))
    else do
      raise_if (ltb (length (a ∷ bs)) 3) malformed_packet_error
      b ← index (a ∷ bs) 1
      c ← index (a ∷ bs) 2
      ok (bit_or (bit_or (a <<< 16) (b <<< 8)) c, drop 3 (a ∷ bs))

pub record TuyaVendorDp : Type 0 where
  pub dp_id : ℕ
  pub dp_type : ℕ
  pub value : Bytes

pub record TuyaVendorFrame : Type 0 where
  pub command : ℕ
  pub content : Bytes
  pub dps : List TuyaVendorDp

-- The loop of `_parse_dp_bytes` on what the offset has not reached; `break` ends the list. Its
-- fuel counts rounds, and every round takes 3 bytes at least.
unfoldable pub dp_loop : ℕ → Bytes → List TuyaVendorDp
dp_loop zero bytes = []
dp_loop (suc fuel) (a ∷ b ∷ n ∷ rest) =
    let more =
      record { dp_id = a; dp_type = b; value = take n rest } ∷ dp_loop fuel (drop n rest) in
    if ltb (length rest) n then [] else more
dp_loop (suc fuel) _ = []

unfoldable pub parse_dp_bytes : Bytes → List TuyaVendorDp
parse_dp_bytes bytes = dp_loop (length bytes) bytes

unfoldable pub parse_tuya_vendor_frame : Bytes → TuyaVendorFrame
parse_tuya_vendor_frame (command ∷ size ∷ content) =
    if command == 0x02
    then record { command = command; content = content; dps = [] }
    else if command == 0x01
    then record { command = command; content = content; dps = parse_dp_bytes content }
    else record {
      command = command;
      content = command ∷ size ∷ content;
      dps = parse_dp_bytes (command ∷ size ∷ content);
    }
parse_tuya_vendor_frame params = record { command = 0; content = params; dps = [] }

pub record CompositionData : Type 0 where
  pub cid : ℕ
  pub pid : ℕ
  pub vid : ℕ
  pub crpl : ℕ
  pub features : ℕ
  pub raw_elements : Bytes

unfoldable pub parse_composition_data : Bytes → Result CompositionData
parse_composition_data params = do
  raise_if (ltb (length params) 11) malformed_packet_error
  let page = drop 1 params
  ok (record {
    cid = from_bytes_le (slice 0 2 page);
    pid = from_bytes_le (slice 2 4 page);
    vid = from_bytes_le (slice 4 6 page);
    crpl = from_bytes_le (slice 6 8 page);
    features = from_bytes_le (slice 8 10 page);
    raw_elements = drop 10 page;
  })

unfoldable pub parse_tuya_vendor_dps : Bytes → List TuyaVendorDp
unfolding parse_dp_bytes
parse_tuya_vendor_dps params = parse_dp_bytes params

-- `tz_offset.to_bytes(1, "big", signed=True) if -12 <= tz_offset <= 14 else b"\x00"`
unfoldable pub timezone_byte : ℤ → ℕ
timezone_byte (pos n) = if leb n 14 then n else 0
timezone_byte (negsuc n) = if leb (n + 1) 12 then 255 - n else 0

-- The clock and the time zone, in hours, are arguments.
unfoldable pub tuya_vendor_timestamp_response : ℕ → ℤ → Result Bytes
unfolding timezone_byte
tuya_vendor_timestamp_response now tz_offset = do
  ts_bytes ← to_bytes_be 4 now
  let content = ts_bytes ++ (timezone_byte tz_offset ∷ []) ++ (0 ∷ 0 ∷ 0 ∷ [])
  head ← bytes_of (0x02 ∷ length content ∷ [])
  ok (be_digits 3 0xcad007 ++ head ++ content)
