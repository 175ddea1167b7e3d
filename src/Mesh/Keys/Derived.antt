-- ===== src/Mesh/Keys/Derived.antt =====
-- What AES-CMAC and the key derivation return on keys of 16 bytes.
use tuya_ble_mesh.Prelude.{
  ℕ, zero, suc, ◌+◌, ◌-◌, ◌*◌, ◌/◌, ◌%◌, ◌<◌, ◌≤◌, ◌≡◌, refl, arith, [], ◌∷◌, ◌++◌, ok,
}
use tuya_ble_mesh.Prelude.{
  Result, length, take, drop, length-append, length-take, length-drop, length-replicate,
}
use tuya_ble_mesh.Prelude.{max, bit_and, Bool-cases, inl, inr, ltb, lt→ltb, ◌==◌, ◌&&◌}
use tuya_ble_mesh.Bytes.{Bytes, zeros, zip_xor, xor_bytes}
use tuya_ble_mesh.Bytes.Strings.{length-zip_xor, xor_bytes-zip_xor, index_of_lt}
use tuya_ble_mesh.Mesh.Ccm.{MeshCipher, aes_ecb}
use tuya_ble_mesh.Mesh.Keys.{
  shift_left, cmac_rb, next_subkey, cmac_blocks, last_block, cmac_loop, aes_cmac, s1, k1,
}

-- A call that returns one block.
abbrev pub Block : Result Bytes → Type 0
Block r = (block : Bytes) × (r ≡ ok block) × (length block ≡ 16)

length-shift_left : (b : Bytes) → length (shift_left b) ≡ length b
unfolding shift_left
length-shift_left [] = refl
length-shift_left (a ∷ []) = refl
length-shift_left (a ∷ b ∷ rest) = omega (arith, length-shift_left (b ∷ rest))

xor_bytes-Block : (a b : Bytes) → length a ≡ 16 → length b ≡ 16 → Block (xor_bytes a b)
xor_bytes-Block a b ha hb =
    (zip_xor a b, xor_bytes-zip_xor a b (omega arith), omega (arith, length-zip_xor a b))

next_subkey-Block : (b : Bytes) → length b ≡ 16 → Block (next_subkey b)
unfolding next_subkey
next_subkey-Block b h =
    let (first, e) = index_of_lt b 0 (omega arith) in
    let same : length (shift_left b) ≡ 16 = omega (arith, length-shift_left b) in
    elim (Bool-cases (bit_and first 0x80 == 0)) [
      | inl z ↦ (shift_left b, rw (e, z) refl, same)
      | inr z ↦
          let (x, ex, hx) = xor_bytes-Block (shift_left b) cmac_rb same refl in
          (x, rw (e, z) ex, hx)
    ]

last_block-Block : (msg a b : Bytes) → length a ≡ 16 → length b ≡ 16 → Block (last_block msg a b)
unfolding last_block cmac_blocks
last_block-Block msg a b ha hb =
    let n = max 1 ((length msg + 16 - 1) / 16) in
    let tail = drop ((n - 1) * 16) msg in
    let padded = tail ++ (0x80 ∷ zeros (16 - 1 - length tail)) in
    elim (Bool-cases (ltb 0 (length msg) && length msg % 16 == 0)) [
      | inl whole ↦
          let (x, ex, hx) =
            xor_bytes-Block tail a (ground (arith, length-drop ((n - 1) * 16) msg)) ha in
          (x, rw whole ex, hx)
      | inr part ↦
          let (x, ex, hx) =
            xor_bytes-Block (take 16 padded) b
              (omega (
                arith,
                length-take 16 padded,
                length-append tail (0x80 ∷ zeros (16 - 1 - length tail)),
                length-replicate {A = ℕ} (16 - 1 - length tail) 0,
              ))
              hb in
          (x, rw part ex, hx)
    ]

rounds_fit : (msg : Bytes) → 16 * (cmac_blocks msg - 1) ≤ length msg
unfolding cmac_blocks
rounds_fit msg = omega arith

module _ (cipher : MeshCipher) where
  open cipher use {block, length-block}

  aes_ecb-Block : (key b : Bytes) → length key ≡ 16 → length b ≡ 16 → Block (aes_ecb cipher key b)
  unfolding aes_ecb
  aes_ecb-Block key b hk hb = (block key b, rw (hk, hb) refl, length-block key b hk hb)

  cmac_loop-Block :
      (rounds : ℕ) (key x rest : Bytes)
      → length key ≡ 16
      → length x ≡ 16
      → 16 * rounds ≤ length rest
      → Block (cmac_loop cipher rounds key x rest)
  unfolding cmac_loop
  cmac_loop-Block zero key x rest hk hx hr = (x, refl, hx)
  cmac_loop-Block (suc rounds) key x rest hk hx hr =
      let (m, em, hm) = xor_bytes-Block x (take 16 rest) hx (omega (arith, length-take 16 rest)) in
      let (y, ey, hy) = aes_ecb-Block key m hk hm in
      let (z, ez, hz) =
        cmac_loop-Block rounds key y (drop 16 rest) hk hy (omega (arith, length-drop 16 rest)) in
      (z, rw (em, ey) ez, hz)

  -- The MAC of every message under a key of 16 bytes is one block.
  pub aes_cmac-Block : (key msg : Bytes) → length key ≡ 16 → Block (aes_cmac cipher key msg)
  unfolding aes_cmac
  aes_cmac-Block key msg hk =
      let (l, el, hl) = aes_ecb-Block key (zeros 16) hk refl in
      let (a, ea, ha) = next_subkey-Block l hl in
      let (b, eb, hb) = next_subkey-Block a ha in
      let (m, em, hm) = last_block-Block msg a b ha hb in
      let (x, ex, hx) =
        cmac_loop-Block (cmac_blocks msg - 1) key (zeros 16) msg hk refl (rounds_fit msg) in
      let (y, ey, hy) = xor_bytes-Block x m hx hm in
      let (z, ez, hz) = aes_ecb-Block key y hk hy in (z, rw (hk, el, ea, eb, em, ex, ey) ez, hz)

  pub s1_bytes-Block : (m : Bytes) → 0 < length m → Block (s1 cipher m)
  unfolding s1
  s1_bytes-Block m h =
      let (t, e, ht) = aes_cmac-Block (zeros 16) m refl in
      (t, rw (lt→ltb 0 (length m) h, e) refl, ht)

  pub k1-Block : (n salt p : Bytes) → length salt ≡ 16 → Block (k1 cipher n salt p)
  unfolding k1
  k1-Block n salt p h =
      let (t, e, ht) = aes_cmac-Block salt n h in
      let (k, ek, hk) = aes_cmac-Block t p ht in (k, rw (h, e) ek, hk)
