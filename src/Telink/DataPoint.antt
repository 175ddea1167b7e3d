-- ===== src/Telink/DataPoint.antt =====
-- `lib/tuya_ble_mesh/protocol.py`: Tuya data points as TLV bytes, one and many, and the compact
-- form of opcode 0xD2. The types are 0 raw, 1 boolean, 2 value, 3 string, 4 enum (`const.py`).
pub mod Single
pub mod Many
use tuya_ble_mesh.Prelude.{
  ℕ, zero, suc, ◌+◌, ◌-◌, ◌^◌, ◌≡◌, Bool, true, false, not, List, [], ◌∷◌, ◌++◌,
}
use tuya_ble_mesh.Prelude.{
  ltb, leb, ◌==◌, if◌then◌else◌, length, take, drop, Result, ok, err, ◌>>=◌, ◌>>◌,
}
use tuya_ble_mesh.Prelude.{guard, raise_if, protocol_error, malformed_packet_error, out_of_fuel}
use tuya_ble_mesh.Prelude.Int.{ℤ, pos, negsuc, in_range}
use tuya_ble_mesh.Prelude.Dict.{insert}
use tuya_ble_mesh.Bytes.{Bytes, pack_be, be_digits, from_bytes_be, index, slice, bytes_of}
use native.Mathlib.Decide.{ℕ_discrete}

-- `bool | int | str | bytes`
pub data DpValue (Text : Type 0) : Type 0 where
  flag : Bool → DpValue Text
  int : ℤ → DpValue Text
  str : Text → DpValue Text
  raw : Bytes → DpValue Text

-- Python's text with its UTF-8 codec: `encode("utf-8")` and `decode("utf-8", errors="replace")`.
pub record Utf8 (Text : Type 0) : Type 0 where
  pub encode : Text → Bytes
  pub decode : Bytes → Text
  pub decode-encode : (t : Text) → decode (encode t) ≡ t

-- `struct.pack(">i", z)` and its inverse: two's complement in 4 bytes, for z in range.
unfoldable pub to_int32 : ℤ → ℕ
to_int32 (pos n) = n
to_int32 (negsuc n) = 2 ^ 32 - 1 - n

unfoldable pub of_int32 : ℕ → ℤ
of_int32 w = if ltb w (2 ^ 31) then pos w else negsuc (2 ^ 32 - 1 - w)

-- `-(2**31) <= value <= 2**31 - 1`
unfoldable pub is_int32 : ℤ → Bool
is_int32 (pos n) = leb n (2 ^ 31 - 1)
is_int32 (negsuc n) = leb (n + 1) (2 ^ 31)

-- `struct.pack(">BBH", dp_id, dp_type, length)`
unfoldable pub pack_dp_header : ℕ → ℕ → ℕ → Result Bytes
pack_dp_header dp_id dp_type size = do
  a ← pack_be 1 dp_id
  b ← pack_be 1 dp_type
  c ← pack_be 2 size
  ok (a ++ b ++ c)

module _ {Text : Type 0} (utf8 : Utf8 Text) where
  -- The type code and the bytes of a value.
  unfoldable pub encode_value : DpValue Text → Result (ℕ × Bytes)
  encode_value (flag b) = ok (1, (if b then 1 else 0) ∷ [])
  encode_value (int z) = do guard (is_int32 z) protocol_error; ok (2, be_digits 4 (to_int32 z))
  encode_value (str t) = ok (3, utf8.encode t)
  encode_value (raw bs) = ok (0, bs)

  unfoldable pub encode_dp_value : ℤ → DpValue Text → Result Bytes
  encode_dp_value dp_id value = do
    id ← in_range 1 0xff protocol_error dp_id
    (dp_type, encoded) ← encode_value value
    header ← pack_dp_header id dp_type (length encoded)
    ok (header ++ encoded)

  -- The tests on `dp_type`.
  unfoldable pub decode_value : ℕ → ℕ → Bytes → Result (DpValue Text)
  decode_value dp_type size bytes =
      if dp_type == 1
      then (do
        guard (size == 1) malformed_packet_error
        b ← index bytes 0
        ok (flag (not (b == 0))))
      else if dp_type == 2
      then (do guard (size == 4) malformed_packet_error; ok (int (of_int32 (from_bytes_be bytes))))
      else if dp_type == 3
      then ok (str (utf8.decode bytes))
      else if dp_type == 4
      then (do guard (size == 1) malformed_packet_error; b ← index bytes 0; ok (int (pos b)))
      else ok (raw bytes)

  unfoldable pub decode_dp_value : Bytes → Result (ℕ × ℕ × DpValue Text)
  decode_dp_value tlv = do
    raise_if (ltb (length tlv) 4) malformed_packet_error
    dp_id ← index tlv 0
    dp_type ← index tlv 1
    let size = from_bytes_be (slice 2 4 tlv)
    raise_if (ltb (length tlv) (4 + size)) malformed_packet_error
    value ← decode_value dp_type size (slice 4 (4 + size) tlv)
    ok (dp_id, dp_type, value)

  -- `sorted(dps)`: the entries by ascending key.
  unfoldable pub insert_sorted :
      ℕ → DpValue Text → List (ℕ × DpValue Text) → List (ℕ × DpValue Text)
  insert_sorted k v [] = (k, v) ∷ []
  insert_sorted k v ((j, w) ∷ dps) =
      if leb k j then (k, v) ∷ (j, w) ∷ dps else (j, w) ∷ insert_sorted k v dps

  unfoldable pub sort_dps : List (ℕ × DpValue Text) → List (ℕ × DpValue Text)
  sort_dps [] = []
  sort_dps ((k, v) ∷ dps) = insert_sorted k v (sort_dps dps)

  unfoldable pub encode_each : List (ℕ × DpValue Text) → Result Bytes
  encode_each [] = ok []
  encode_each ((k, v) ∷ dps) = do
    first ← encode_dp_value (pos k) v
    rest ← encode_each dps
    ok (first ++ rest)

  unfoldable pub encode_dps_command : List (ℕ × DpValue Text) → Result Bytes
  encode_dps_command dps = encode_each (sort_dps dps)

  -- The loop of `decode_dps_response`, on what the offset has not reached.
  unfoldable pub decode_loop :
      ℕ → Bytes → List (ℕ × DpValue Text) → Result (List (ℕ × DpValue Text))
  decode_loop fuel [] result = ok result
  decode_loop zero (b ∷ bs) result = err out_of_fuel
  decode_loop (suc fuel) (b ∷ bs) result =
      let remaining = b ∷ bs in
      do
        raise_if (ltb (length remaining) 4) malformed_packet_error
        let tlv_size = 4 + from_bytes_be (slice 2 4 remaining)
        raise_if (ltb (length remaining) tlv_size) malformed_packet_error
        (dp_id, _, value) ← decode_dp_value (take tlv_size remaining)
        decode_loop fuel (drop tlv_size remaining) (insert ℕ_discrete dp_id value result)

  -- Every round takes 4 bytes at least, so as many rounds as bytes are enough.
  unfoldable pub decode_dps_response : Bytes → Result (List (ℕ × DpValue Text))
  decode_dps_response response = decode_loop (length response) response []

-- The truth of a Python integer.
unfoldable pub is_true : ℤ → Bool
is_true (pos n) = not (n == 0)
is_true (negsuc n) = true

unfoldable pub encode_compact_value : ℕ → ℤ → Result Bytes
encode_compact_value dp_type value =
    if dp_type == 1
    then ok ((if is_true value then 1 else 0) ∷ [])
    else if dp_type == 2
    then (do n ← in_range 0 0xffffffff protocol_error value; pack_be 4 n)
    else err protocol_error

unfoldable pub encode_compact_dp : ℤ → ℤ → ℤ → Result Bytes
encode_compact_dp dp_id dp_type value = do
  id ← in_range 1 0xff protocol_error dp_id
  ty ← in_range 0 0xff protocol_error dp_type
  encoded ← encode_compact_value ty value
  a ← pack_be 1 id
  b ← pack_be 1 ty
  c ← pack_be 1 (length encoded)
  ok (a ++ b ++ c ++ encoded)
