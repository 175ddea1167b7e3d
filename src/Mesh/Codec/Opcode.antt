-- ===== src/Mesh/Codec/Opcode.antt =====
-- `parse_access_opcode`: the opcodes of 1, 2 and 3 bytes.
use tuya_ble_mesh.Prelude.{ℕ, suc, ◌+◌, ◌*◌, ◌/◌, ◌%◌, ◌<◌, ◌≤◌, ◌≡◌, refl, arith, ◌∷◌, ◌++◌, ok}
use tuya_ble_mesh.Prelude.{ltb, if◌then◌else◌, length}
use tuya_ble_mesh.Prelude.{◌⊎◌, inl, inr, bit_and, lt→ltb, not-lt→ltb, ◌∙◌, ap}
use tuya_ble_mesh.Bits.Fields.{bit_and_mask, bit_and_shift, or_two, or_three}
use tuya_ble_mesh.Bytes.{Bytes, be_digits}
use tuya_ble_mesh.Mesh.Codec.{parse_access_opcode}

-- Opcodes of the three sizes.
unfoldable pub opcode_size : ℕ → ℕ
opcode_size op = if ltb op 0x80 then 1 else if ltb op 0x10000 then 2 else 3

abbrev pub opcode_bytes : ℕ → Bytes
opcode_bytes op = be_digits (opcode_size op) op

unfoldable pub IsOpcode : ℕ → Type 0
IsOpcode op = (op < 0x80) ⊎ (((0x8000 ≤ op) × (op < 0xc000)) ⊎ ((0xc00000 ≤ op) × (op < 0x1000000)))

mask_80 : (a : ℕ) → bit_and a 0x80 ≡ a / 128 % 2 * 128
mask_80 a = rw (bit_and_shift 7 a 1, bit_and_mask 1 (a / 128)) refl

mask_c0 : (a : ℕ) → bit_and a 0xc0 ≡ a / 64 % 4 * 64
mask_c0 a = rw (bit_and_shift 6 a 3, bit_and_mask 2 (a / 64)) refl

pub one_byte : (a : ℕ) (rest : Bytes) → a < 0x80 → parse_access_opcode (a ∷ rest) ≡ ok (a, rest)
unfolding parse_access_opcode
one_byte a rest h = let low : a / 128 % 2 * 128 ≡ 0 = omega arith in rw (mask_80 a, low) refl

pub two_bytes :
    (a b : ℕ) (rest : Bytes)
    → 0x80 ≤ a
    → a < 0xc0
    → b < 256
    → parse_access_opcode (a ∷ b ∷ rest) ≡ ok (a * 256 + b, rest)
unfolding parse_access_opcode
two_bytes a b rest h k hb =
    let high : a / 128 % 2 * 128 ≡ 128 = omega arith in
    let second : a / 64 % 4 * 64 ≡ 128 = omega arith in
    rw
      (
        mask_80 a,
        mask_c0 a,
        high,
        second,
        not-lt→ltb (suc (suc (length rest))) 2 (omega arith),
        or_two a b hb,
      )
      refl

pub three_bytes :
    (a b c : ℕ) (rest : Bytes)
    → 0xc0 ≤ a
    → a < 0x100
    → b < 256
    → c < 256
    → parse_access_opcode (a ∷ b ∷ c ∷ rest) ≡ ok (a * 65536 + b * 256 + c, rest)
unfolding parse_access_opcode
three_bytes a b c rest h k hb hc =
    let high : a / 128 % 2 * 128 ≡ 128 = omega arith in
    let second : a / 64 % 4 * 64 ≡ 192 = omega arith in
    rw
      (
        mask_80 a,
        mask_c0 a,
        high,
        second,
        not-lt→ltb (suc (suc (suc (length rest)))) 3 (omega arith),
        or_three a b c hb hc,
      )
      refl

-- Every opcode of 1, 2 or 3 bytes, written before any parameters, is read back with them.
pub parse_access_opcode-opcode_bytes :
    (op : ℕ) (params : Bytes)
    → IsOpcode op
    → parse_access_opcode (opcode_bytes op ++ params) ≡ ok (op, params)
unfolding opcode_size IsOpcode
parse_access_opcode-opcode_bytes op params (inl h) =
    let first : op / 1 % 256 ≡ op = omega arith in
    rw (lt→ltb op 0x80 h, first) (one_byte op params h)
parse_access_opcode-opcode_bytes op params (inr (inl (l, h))) =
    let again : op / 256 % 256 * 256 + op / 1 % 256 ≡ op = omega arith in
    rw (not-lt→ltb op 0x80 (omega arith), lt→ltb op 0x10000 (omega arith))
      (two_bytes (op / 256 % 256) (op / 1 % 256) params (omega arith) (omega arith) (omega arith)
        ∙ ap (λ (o : ℕ). ok (o, params)) again)
parse_access_opcode-opcode_bytes op params (inr (inr (l, h))) =
    let again : op / 65536 % 256 * 65536 + op / 256 % 256 * 256 + op / 1 % 256 ≡ op = omega arith in
    rw (not-lt→ltb op 0x80 (omega arith), not-lt→ltb op 0x10000 (omega arith))
      (three_bytes (op / 65536 % 256) (op / 256 % 256) (op / 1 % 256) params (omega arith)
          (omega arith) (omega arith) (omega arith)
        ∙ ap (λ (o : ℕ). ok (o, params)) again)
