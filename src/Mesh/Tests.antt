-- ===== src/Mesh/Tests.antt =====
-- The SIG Mesh theorems at concrete inputs, with a toy cipher.
use tuya_ble_mesh.Prelude.{
  replicate, err, crypto_error, ℕ, ◌≡◌, inl, inr, refl, arith, List, [], ◌∷◌, ◌++◌, ok, some, none,
}
use tuya_ble_mesh.Bytes.{Bytes}
use tuya_ble_mesh.Mesh.ToyCipher.{zero_tag, key16}
use tuya_ble_mesh.Mesh.Codec.{parse_segment_header}
use tuya_ble_mesh.Mesh.Codec.{parse_access_opcode, TuyaVendorDp, parse_dp_bytes}
use tuya_ble_mesh.Mesh.Codec.Opcode.{opcode_bytes, IsOpcode, parse_access_opcode-opcode_bytes}
use tuya_ble_mesh.Mesh.Codec.Vendor.{is_cut, all_dp_bytes, parse_dp_bytes-all_dp_bytes}
use tuya_ble_mesh.Mesh.Network.{encrypt_network_pdu, decrypt_network_pdu}
use tuya_ble_mesh.Mesh.Network.RoundTrip.{
  fields, decrypt-encrypt_network_pdu, decrypt_network_pdu_short,
}
use tuya_ble_mesh.Prelude.Dict.{lookup}
use tuya_ble_mesh.Mesh.Network.{mic_length}
use tuya_ble_mesh.Mesh.Transport.{
  MeshKeys, select_key, opened_message, make_access_unsegmented, decrypt_access_payload,
}
use tuya_ble_mesh.Mesh.Transport.{make_segment, reassemble_and_decrypt_segments}
use tuya_ble_mesh.Mesh.Transport.Access.{decrypt_access_payload-unsegmented}
use tuya_ble_mesh.Mesh.Transport.Segments.{
  parse_segment_header-make_segment, reassemble_and_decrypt_segments-chunks,
}
use native.Mathlib.Decide.{ℕ_discrete}

decrypt-encrypt_network_pdu_example :
    (frame : Bytes) × (encrypt_network_pdu zero_tag key16 key16 0x2a 0 5 70000 300 400
        (1 ∷ 2 ∷ [])
        3
      ≡ ok frame)
    × (decrypt_network_pdu zero_tag key16 key16 0x2a frame 3
        ≡ ok (some (fields 0 5 70000 300 400 (1 ∷ 2 ∷ []))))
    × (decrypt_network_pdu zero_tag key16 key16 0x2b frame 3 ≡ ok none)
decrypt-encrypt_network_pdu_example =
    decrypt-encrypt_network_pdu zero_tag key16 key16 0x2a 0x2b 0 5 70000 300 400 (1 ∷ 2 ∷ []) 3 refl
      refl (omega arith) (omega arith) (λ e. omega arith) (omega arith) (omega arith) (omega arith)
      (omega arith) (omega arith) (omega arith)

parse_access_opcode-opcode_bytes_example :
    parse_access_opcode (opcode_bytes 0x8202 ++ (1 ∷ 7 ∷ [])) ≡ ok (0x8202, 1 ∷ 7 ∷ [])
unfolding IsOpcode
parse_access_opcode-opcode_bytes_example =
    parse_access_opcode-opcode_bytes 0x8202 (1 ∷ 7 ∷ []) (inr (inl (omega arith, omega arith)))

abbrev two_dps : List TuyaVendorDp
two_dps =
    record { dp_id = 1; dp_type = 1; value = 1 ∷ [] }
    ∷ record { dp_id = 2; dp_type = 2; value = 0 ∷ 0 ∷ 0 ∷ 9 ∷ [] }
    ∷ []

parse_dp_bytes-all_dp_bytes_example :
    parse_dp_bytes (all_dp_bytes two_dps ++ (5 ∷ 1 ∷ 3 ∷ 0 ∷ [])) ≡ two_dps
unfolding is_cut
parse_dp_bytes-all_dp_bytes_example = parse_dp_bytes-all_dp_bytes two_dps (5 ∷ 1 ∷ 3 ∷ 0 ∷ []) refl

abbrev keys_of_tests : MeshKeys
keys_of_tests = record {
  net_key = key16;
  dev_key = key16;
  app_key = none;
  iv_index = 3;
  nid = 0x2a;
  enc_key = key16;
  priv_key = key16;
  network_id = [];
  key_aid = 0;
}

decrypt_access_payload-unsegmented_example :
    (pdu : Bytes) × (make_access_unsegmented zero_tag key16 300 400 70000 3 (0x82 ∷ 2 ∷ 1 ∷ []) 0 5
      ≡ ok pdu)
    × (decrypt_access_payload zero_tag keys_of_tests 300 400 70000 pdu
        ≡ ok (some (opened_message 0 5 pdu (0x82 ∷ 2 ∷ 1 ∷ []))))
unfolding select_key
decrypt_access_payload-unsegmented_example =
    decrypt_access_payload-unsegmented zero_tag keys_of_tests key16 0 5 70000 300 400
      (0x82 ∷ 2 ∷ 1 ∷ []) refl refl (omega arith) (omega arith) (omega arith) (omega arith)
      (omega arith) (omega arith)

parse_segment_header-make_segment_example :
    (pdu : Bytes) × (make_segment 1 5 0 70000 4464 2 1 (9 ∷ 8 ∷ []) ≡ ok (70001, pdu))
    × (parse_segment_header pdu
        ≡ ok (record {
          akf = 1;
          aid = 5;
          szmic = 0;
          seq_zero = 4464;
          seg_o = 1;
          seg_n = 2;
          segment_data = 9 ∷ 8 ∷ [];
        }))
parse_segment_header-make_segment_example =
    parse_segment_header-make_segment 1 5 0 70000 4464 2 1 (9 ∷ 8 ∷ []) (omega arith) (omega arith)
      (omega arith) (omega arith) (omega arith)

abbrev ten_bytes : Bytes
ten_bytes = 1 ∷ 2 ∷ 3 ∷ 4 ∷ 5 ∷ 6 ∷ 7 ∷ 8 ∷ 9 ∷ 10 ∷ []

-- The second chunk arrived first.
abbrev two_chunks : List (ℕ × Bytes)
two_chunks = (1, 0 ∷ 0 ∷ []) ∷ (0, ten_bytes ++ (0 ∷ 0 ∷ [])) ∷ []

reassemble_and_decrypt_segments-chunks_example :
    reassemble_and_decrypt_segments zero_tag keys_of_tests 300 400 two_chunks 1 0 4464 0
    ≡ ok (some ten_bytes)
unfolding select_key mic_length lookup ℕ_discrete
reassemble_and_decrypt_segments-chunks_example =
    reassemble_and_decrypt_segments-chunks zero_tag keys_of_tests key16 0 0 4464 300 400 1 ten_bytes
      two_chunks refl refl (omega arith) (omega arith) (omega arith) (omega arith) (omega arith)
      (omega arith) (omega arith) (refl, (refl, tt))

decrypt_network_pdu_short_example :
    decrypt_network_pdu zero_tag key16 key16 0x2a (0x2a ∷ replicate 10 1) 0 ≡ err crypto_error
decrypt_network_pdu_short_example =
    decrypt_network_pdu_short zero_tag key16 key16 0x2a 0x2a (replicate 10 1) 0 refl (omega arith)
      (omega arith) refl
