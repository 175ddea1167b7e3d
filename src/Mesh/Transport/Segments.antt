-- ===== src/Mesh/Transport/Segments.antt =====
-- Segmented access messages: the segments that `make_access_segmented` cuts, and what
-- `reassemble_and_decrypt_segments` makes of the chunks that arrived.
use tuya_ble_mesh.Prelude.{
  ℕ, zero, suc, ◌+◌, ◌*◌, ◌/◌, ◌%◌, ◌^◌, ◌<◌, ◌≤◌, ◌≡◌, refl, arith, some, ◌∙◌,
}
use tuya_ble_mesh.Prelude.{
  List, [], ◌∷◌, ok, length, take, drop, take-append-drop, length-drop, bit_and, bit_or,
}
use tuya_ble_mesh.Prelude.Dict.{lookup}
use tuya_ble_mesh.Bits.Fields.{◌<<<◌, bit_and_mask, bit_or_add}
use tuya_ble_mesh.Bytes.{Bytes}
use tuya_ble_mesh.Bytes.Words.{pack_be-be_digits, bytes_of_one}
use tuya_ble_mesh.Mesh.Ccm.{MeshCipher}
use tuya_ble_mesh.Mesh.Codec.{parse_segment_header}
use tuya_ble_mesh.Mesh.Codec.Header.{parse_segment_header_ok, segment_fields_arith}
use tuya_ble_mesh.Mesh.Network.{mic_length}
use tuya_ble_mesh.Mesh.Network.Encrypt.{ccm_decrypt_ok}
use tuya_ble_mesh.Mesh.Transport.{
  MeshKeys, select_key, make_segment, join_segments, no_crypto_error,
}
use tuya_ble_mesh.Mesh.Transport.{
  open_segments, open_joined, append_chunk, reassemble_and_decrypt_segments,
}
use tuya_ble_mesh.Mesh.Transport.Access.{app_nonce, make_app_nonce_ok}
use native.Mathlib.Decide.{ℕ_discrete}

segment_first :
    (akf aid : ℕ)
    → akf < 2
    → bit_or (bit_or 0x80 (akf <<< 6)) (bit_and aid 0x3f) ≡ 128 + akf * 64 + aid % 64
segment_first akf aid h =
    rw (bit_and_mask 6 aid, bit_or_add 7 128 (akf * 64) (omega arith) (omega arith))
      (bit_or_add 6 (128 + akf * 64) (aid % 64) (omega arith) (omega arith))

abbrev info_of : ℕ → ℕ → ℕ → ℕ → ℕ
info_of szmic seq_zero seg_o seg_n = szmic * 8388608 + seq_zero * 1024 + seg_o * 32 + seg_n

segment_info_of :
    (szmic seq_zero seg_o seg_n : ℕ)
    → seq_zero < 8192
    → seg_o < 32
    → seg_n < 32
    → bit_or (bit_or (bit_or (szmic <<< 23) (seq_zero <<< 10)) (seg_o <<< 5)) seg_n
      ≡ info_of szmic seq_zero seg_o seg_n
segment_info_of szmic seq_zero seg_o seg_n hq ho hn =
    rw
      (
        bit_or_add 23 (szmic * 8388608) (seq_zero * 1024) (omega arith) (omega arith),
        bit_or_add 10 (szmic * 8388608 + seq_zero * 1024) (seg_o * 32) (omega arith) (omega arith),
      )
      (bit_or_add 5 (szmic * 8388608 + seq_zero * 1024 + seg_o * 32) seg_n (omega arith) hn)

-- A segment that the sender makes of fields in range, with at most 32 segments to a message, carries
-- its own sequence number, and `parse_segment_header` reads all of the fields and the chunk from it.
pub parse_segment_header-make_segment :
    (akf aid szmic seq_start seq_zero seg_n seg_o : ℕ) (chunk : Bytes)
    → akf < 2
    → szmic < 2
    → seq_zero < 8192
    → seg_o < 32
    → seg_n < 32
    → (pdu : Bytes) × (make_segment akf aid szmic seq_start seq_zero seg_n seg_o chunk
        ≡ ok (seq_start + seg_o, pdu))
      × (parse_segment_header pdu
          ≡ ok (record {
            akf = akf;
            aid = aid % 64;
            szmic = szmic;
            seq_zero = seq_zero;
            seg_o = seg_o;
            seg_n = seg_n;
            segment_data = chunk;
          }))
unfolding make_segment
parse_segment_header-make_segment akf aid szmic seq_start seq_zero seg_n seg_o chunk ha hz hq ho
      hn =
    let info = info_of szmic seq_zero seg_o seg_n in
    let first = 128 + akf * 64 + aid % 64 in
    let a = info / 65536 % 256 in
    let b = info / 256 % 256 in
    let c = info / 1 % 256 in
    let whole : a * 65536 + b * 256 + c ≡ info = omega arith in
    let f1 : first / 64 % 2 ≡ akf = omega arith in
    let f2 : first % 64 ≡ aid % 64 = omega arith in
    let f3 : info / 8388608 % 2 ≡ szmic = omega arith in
    let f4 : info / 1024 % 8192 ≡ seq_zero = omega arith in
    let f5 : info / 32 % 32 ≡ seg_o = omega arith in
    let f6 : info % 32 ≡ seg_n = omega arith in
    (
      first ∷ a ∷ b ∷ c ∷ chunk,
      rw
          (
            segment_first akf aid ha,
            segment_info_of szmic seq_zero seg_o seg_n hq ho hn,
            bytes_of_one first (omega arith),
            pack_be-be_digits 4 info (omega arith),
          )
          refl,
      parse_segment_header_ok first a b c chunk (omega arith) (omega arith) (omega arith)
            (omega arith)
          ∙ rw
              (
                segment_fields_arith first (a * 65536 + b * 256 + c) chunk,
                whole,
                f1,
                f2,
                f3,
                f4,
                f5,
                f6,
              )
              refl,
    )

-- The dictionary has every chunk of 12 bytes of the rest of a message, from this index on.
abbrev pub HasChunks : ℕ → ℕ → Bytes → List (ℕ × Bytes) → Type 0
HasChunks zero i rest segments = Unit {0}
HasChunks (suc n) i rest segments =
    (lookup ℕ_discrete i segments ≡ some (take 12 rest))
    × HasChunks n (i + 1) (drop 12 rest) segments

join_segments-HasChunks :
    (n i : ℕ) (rest : Bytes) (segments : List (ℕ × Bytes))
    → length rest ≤ 12 * n
    → HasChunks n i rest segments
    → join_segments n i segments ≡ some rest
unfolding join_segments append_chunk
join_segments-HasChunks zero i [] segments h c = refl
join_segments-HasChunks zero i (b ∷ rest) segments h c = absurd (omega arith)
join_segments-HasChunks (suc n) i rest segments h (here, there) =
    rw
      (
        here,
        join_segments-HasChunks n (i + 1) (drop 12 rest) segments
            (omega (arith, length-drop 12 rest)) there,
        take-append-drop 12 rest,
      )
      refl

module _ (cipher : MeshCipher) where
  open cipher use {seal}

  open_segments_ok :
      (key : Bytes) (akf szmic seq src dst iv : ℕ) (payload : Bytes)
      → length key ≡ 16
      → akf < 2
      → szmic < 2
      → seq < 2 ^ 24
      → src < 2 ^ 16
      → dst < 2 ^ 16
      → iv < 2 ^ 32
      → open_segments cipher key akf szmic seq src dst iv
          (seal key (app_nonce akf szmic seq src dst iv) (mic_length szmic) payload)
        ≡ ok (some payload)
  unfolding open_segments no_crypto_error
  open_segments_ok key akf szmic seq src dst iv payload hk ha hz hq hr hd hi =
      rw
        (
          make_app_nonce_ok akf szmic seq src dst iv ha hz hq hr hd hi,
          ccm_decrypt_ok cipher key (app_nonce akf szmic seq src dst iv) payload szmic hk hz,
        )
        refl

  -- When every chunk of the sealed payload has arrived, in any order, under its index, reassembly
  -- opens it with the receiver's 16-byte key and returns the payload: for addresses and an IV index
  -- in range, and a message sealed under the nonce of the sequence number that the header can carry,
  -- which is below 8192.
  pub reassemble_and_decrypt_segments-chunks :
      (keys : MeshKeys) (key : Bytes) (akf szmic seq_zero src dst seg_n : ℕ) (payload : Bytes)
      (segments : List (ℕ × Bytes))
      → select_key keys akf ≡ some key
      → length key ≡ 16
      → akf < 2
      → szmic < 2
      → seq_zero < 8192
      → src < 2 ^ 16
      → dst < 2 ^ 16
      → keys.iv_index < 2 ^ 32
      → length
          (seal key (app_nonce akf szmic seq_zero src dst keys.iv_index) (mic_length szmic) payload)
        ≤ 12 * (seg_n + 1)
      → HasChunks
          (seg_n + 1)
          0
          (seal key (app_nonce akf szmic seq_zero src dst keys.iv_index) (mic_length szmic) payload)
          segments
      → reassemble_and_decrypt_segments cipher keys src dst segments seg_n szmic seq_zero akf
        ≡ ok (some payload)
  unfolding reassemble_and_decrypt_segments open_joined
  reassemble_and_decrypt_segments-chunks keys key akf szmic seq_zero src dst seg_n payload segments
        hs hk ha hz hq hr hd hi hl hc =
      let upper =
        seal key (app_nonce akf szmic seq_zero src dst keys.iv_index) (mic_length szmic) payload in
      rw (join_segments-HasChunks (seg_n + 1) 0 upper segments hl hc, hs)
        (open_segments_ok key akf szmic seq_zero src dst keys.iv_index payload hk ha hz
          (omega arith) hr hd hi)
