-- ===== src/Mesh/Codec/Header.antt =====
-- `parse_segment_header`, `make_proxy_pdu` and `parse_proxy_pdu`.
use tuya_ble_mesh.Prelude.{
  ℕ, suc, ◌+◌, ◌*◌, ◌/◌, ◌%◌, ◌<◌, ◌≤◌, ◌≡◌, refl, arith, ◌∷◌, ok, err, length,
  malformed_packet_error,
}
use tuya_ble_mesh.Prelude.{bit_and, lt→ltb, not-lt→ltb}
use tuya_ble_mesh.Bits.Fields.{bit_and_mask, bit_and_shift, or_three, ◌>>>◌}
use tuya_ble_mesh.Bytes.{Bytes, bytes_of}
use tuya_ble_mesh.Mesh.Codec.{segment_fields, parse_segment_header}
use tuya_ble_mesh.Mesh.Codec.{make_proxy_pdu, ProxyPdu, parse_proxy_pdu}

-- The fields as quotients and remainders.
pub segment_fields_arith :
    (hdr info : ℕ) (rest : Bytes)
    → segment_fields hdr info rest ≡ record {
      akf = hdr / 64 % 2;
      aid = hdr % 64;
      szmic = info / 8388608 % 2;
      seq_zero = info / 1024 % 8192;
      seg_o = info / 32 % 32;
      seg_n = info % 32;
      segment_data = rest;
    }
unfolding segment_fields
segment_fields_arith hdr info rest =
    rw
      (
        bit_and_mask 1 (hdr >>> 6),
        bit_and_mask 6 hdr,
        bit_and_mask 1 (info >>> 23),
        bit_and_mask 13 (info >>> 10),
        bit_and_mask 5 (info >>> 5),
        bit_and_mask 5 info,
      )
      refl

-- The top bit of a byte.
pub top_bit : (hdr : ℕ) → hdr < 256 → bit_and hdr 0x80 ≡ hdr / 128 * 128
top_bit hdr h = rw (bit_and_shift 7 hdr 1, bit_and_mask 1 (hdr / 128)) (omega arith)

pub parse_segment_header_ok :
    (hdr a b c : ℕ) (rest : Bytes)
    → hdr < 256
    → 128 ≤ hdr
    → b < 256
    → c < 256
    → parse_segment_header (hdr ∷ a ∷ b ∷ c ∷ rest)
      ≡ ok (segment_fields hdr (a * 65536 + b * 256 + c) rest)
unfolding parse_segment_header
parse_segment_header_ok hdr a b c rest h k hb hc =
    let high : hdr / 128 * 128 ≡ 128 = omega arith in
    rw
      (
        not-lt→ltb (suc (suc (suc (suc (length rest))))) 4 (omega arith),
        top_bit hdr h,
        high,
        or_three a b c hb hc,
      )
      refl

short : (pdu : Bytes) → length pdu < 4 → parse_segment_header pdu ≡ err malformed_packet_error
unfolding parse_segment_header
short pdu h = rw (lt→ltb (length pdu) 4 h) refl

-- The proxy PDU that `make_proxy_pdu` builds parses as a complete network PDU with the same
-- payload, and what `parse_proxy_pdu` reads from any nonempty frame gives back all of its bytes.
pub parse-make_proxy_pdu :
    (network_pdu : Bytes) (first : ℕ) (rest : Bytes)
    → first < 256
    → ((frame : Bytes) × (make_proxy_pdu network_pdu ≡ ok frame)
        × (parse_proxy_pdu frame ≡ ok (record { sar = 0; pdu_type = 0; payload = network_pdu })))
      × ((p : ProxyPdu) × (parse_proxy_pdu (first ∷ rest) ≡ ok p)
          × ((p.sar * 64 + p.pdu_type) ∷ p.payload ≡ first ∷ rest))
unfolding make_proxy_pdu parse_proxy_pdu bytes_of
parse-make_proxy_pdu network_pdu first rest h =
    let whole : first / 64 % 4 * 64 + first % 64 ≡ first = omega arith in
    (
      (0 ∷ network_pdu, refl, refl),
      (
        record { sar = bit_and (first >>> 6) 3; pdu_type = bit_and first 63; payload = rest },
        refl,
        rw (bit_and_mask 2 (first >>> 6), bit_and_mask 6 first, whole) refl,
      ),
    )
