-- ===== src/Telink/DataPoint/Single.antt =====
-- One data point: `encode_dp_value` and `decode_dp_value` on values that fit.
use tuya_ble_mesh.Prelude.{ℕ, suc, ◌+◌, ◌-◌, ◌/◌, ◌%◌, ◌^◌, ◌≤◌, ◌<◌, ◌≡◌, refl, ap, ◌∙◌, arith}
use tuya_ble_mesh.Prelude.{true, false, [], ◌∷◌, ◌++◌, ok, length, not-lt→ltb, take_all}
use tuya_ble_mesh.Prelude.{protocol_error, if◌then◌else◌}
use tuya_ble_mesh.Prelude.Int.{ℤ, pos, negsuc, in_range_pos}
use tuya_ble_mesh.Bytes.{Bytes, be_digits, from_bytes_be, slice}
use tuya_ble_mesh.Bytes.Words.{from_bytes_be-be_digits, pack_be-be_digits}
use tuya_ble_mesh.Telink.DataPoint.{
  DpValue, flag, int, str, raw, Utf8, to_int32, of_int32, is_int32,
}
use tuya_ble_mesh.Telink.DataPoint.{pack_dp_header, encode_value, encode_dp_value, decode_value}
use tuya_ble_mesh.Telink.DataPoint.{decode_dp_value}

to_int32-lt : (z : ℤ) → is_int32 z ≡ true → to_int32 z < 2 ^ 32
unfolding to_int32 is_int32
to_int32-lt (pos n) h = ground arith
to_int32-lt (negsuc n) h = ground arith

of_int32-to_int32 : (z : ℤ) → is_int32 z ≡ true → of_int32 (to_int32 z) ≡ z
unfolding to_int32 of_int32 is_int32
of_int32-to_int32 (pos n) h = ground arith
of_int32-to_int32 (negsuc n) h = ground arith

module _ {Text : Type 0} (utf8 : Utf8 Text) where
  -- The values that a data point can carry.
  abbrev pub Fits : DpValue Text → Type 0
  Fits (flag b) = Unit {0}
  Fits (int z) = is_int32 z ≡ true
  Fits (str t) = length (utf8.encode t) < 2 ^ 16
  Fits (raw bs) = length bs < 2 ^ 16

  abbrev pub type_of : DpValue Text → ℕ
  type_of (flag b) = 1
  type_of (int z) = 2
  type_of (str t) = 3
  type_of (raw bs) = 0

  abbrev pub value_bytes : DpValue Text → Bytes
  value_bytes (flag b) = (if b then 1 else 0) ∷ []
  value_bytes (int z) = be_digits 4 (to_int32 z)
  value_bytes (str t) = utf8.encode t
  value_bytes (raw bs) = bs

  -- `[dp_id 1B][dp_type 1B][length 2B BE][value NB]`
  abbrev pub tlv : ℕ → DpValue Text → Bytes
  tlv k v = k ∷ type_of v ∷ be_digits 2 (length (value_bytes v)) ++ value_bytes v

  length-value_bytes-lt : (v : DpValue Text) → Fits v → length (value_bytes v) < 2 ^ 16
  length-value_bytes-lt (flag b) h = omega arith
  length-value_bytes-lt (int z) h = omega arith
  length-value_bytes-lt (str t) h = h
  length-value_bytes-lt (raw bs) h = h

  encode_value-value_bytes :
      (v : DpValue Text) → Fits v → encode_value utf8 v ≡ ok (type_of v, value_bytes v)
  unfolding encode_value
  encode_value-value_bytes (flag b) h = refl
  encode_value-value_bytes (int z) h = rw h refl
  encode_value-value_bytes (str t) h = refl
  encode_value-value_bytes (raw bs) h = refl

  pub encode_dp_value-tlv :
      (k : ℕ) (v : DpValue Text)
      → 1 ≤ k
      → k < 256
      → Fits v
      → encode_dp_value utf8 (pos k) v ≡ ok (tlv k v)
  unfolding encode_dp_value pack_dp_header
  encode_dp_value-tlv k v lo hi h =
      let wide = length-value_bytes-lt v h in
      let one : k / 1 % 256 ≡ k = omega arith in
      let ty : type_of v / 1 % 256 ≡ type_of v = type_of_byte v in
      rw
        (
          in_range_pos 1 0xff k protocol_error lo (omega arith),
          encode_value-value_bytes v h,
          pack_be-be_digits 1 k hi,
          pack_be-be_digits 1 (type_of v) (type_of-lt v),
          pack_be-be_digits 2 (length (value_bytes v)) wide,
          one,
          ty,
        )
        refl
    where
      type_of_byte : (v : DpValue Text) → type_of v / 1 % 256 ≡ type_of v
      type_of_byte (flag b) = refl
      type_of_byte (int z) = refl
      type_of_byte (str t) = refl
      type_of_byte (raw bs) = refl

      type_of-lt : (v : DpValue Text) → type_of v < 256 ^ 1
      type_of-lt (flag b) = omega arith
      type_of-lt (int z) = omega arith
      type_of-lt (str t) = omega arith
      type_of-lt (raw bs) = omega arith

  decode_value-value_bytes :
      (v : DpValue Text)
      → Fits v
      → decode_value utf8 (type_of v) (length (value_bytes v)) (value_bytes v) ≡ ok v
  unfolding decode_value
  decode_value-value_bytes (flag true) h = refl
  decode_value-value_bytes (flag false) h = refl
  decode_value-value_bytes (int z) h =
      ap (λ (w : ℕ). ok (int (of_int32 w)))
        (from_bytes_be-be_digits 4 (to_int32 z) (to_int32-lt z h))
      ∙ ap (λ (x : ℤ). ok (int x)) (of_int32-to_int32 z h)
  decode_value-value_bytes (str t) h = ap (λ (s : Text). ok (str s)) (utf8.decode-encode t)
  decode_value-value_bytes (raw bs) h = refl

  pub size_of-tlv :
      (k : ℕ) (v : DpValue Text) (rest : Bytes)
      → Fits v
      → from_bytes_be (slice 2 4 (tlv k v ++ rest)) ≡ length (value_bytes v)
  size_of-tlv k v rest h =
      from_bytes_be-be_digits 2 (length (value_bytes v)) (length-value_bytes-lt v h)

  pub decode_dp_value-tlv :
      (k : ℕ) (v : DpValue Text) → Fits v → decode_dp_value utf8 (tlv k v) ≡ ok (k, type_of v, v)
  unfolding decode_dp_value
  decode_dp_value-tlv k v h =
      let n = length (value_bytes v) in
      let back : 4 + n - 4 ≡ n = omega arith in
      rw
        (
          not-lt→ltb (suc (suc (suc (suc n)))) 4 (omega arith),
          from_bytes_be-be_digits 2 n (length-value_bytes-lt v h),
          not-lt→ltb (suc (suc (suc (suc n)))) (4 + n) (omega arith),
          back,
          take_all n (value_bytes v) (omega arith),
          decode_value-value_bytes v h,
        )
        refl
