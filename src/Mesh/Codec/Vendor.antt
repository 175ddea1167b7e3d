-- ===== src/Mesh/Codec/Vendor.antt =====
-- `_parse_dp_bytes`: the data points of a vendor frame.
use tuya_ble_mesh.Prelude.{ℕ, zero, suc, ◌≤◌, ◌≡◌, refl, arith, List, [], ◌∷◌, ◌++◌}
use tuya_ble_mesh.Prelude.{
  Bool, true, length, append_assoc, length-append, take-append, drop-append, not-lt→ltb, ltb,
}
use tuya_ble_mesh.Bytes.{Bytes}
use tuya_ble_mesh.Mesh.Codec.{TuyaVendorDp, dp_loop, parse_dp_bytes}

-- `[dp_id][dp_type][len][value]`
abbrev pub dp_bytes : TuyaVendorDp → Bytes
dp_bytes dp = dp.dp_id ∷ dp.dp_type ∷ length dp.value ∷ dp.value

abbrev pub all_dp_bytes : List TuyaVendorDp → Bytes
all_dp_bytes [] = []
all_dp_bytes (dp ∷ dps) = dp_bytes dp ++ all_dp_bytes dps

dp_loop_cons :
    (fuel : ℕ) (dp : TuyaVendorDp) (rest : Bytes)
    → dp_loop (suc fuel) (dp_bytes dp ++ rest) ≡ dp ∷ dp_loop fuel rest
unfolding dp_loop
dp_loop_cons fuel dp rest =
    rw
      (
        not-lt→ltb (length (dp.value ++ rest)) (length dp.value)
            (omega (arith, length-append dp.value rest)),
        take-append (length dp.value) dp.value rest refl,
        drop-append (length dp.value) dp.value rest refl,
      )
      refl

-- What the loop stops at: less than a header, or a value that is cut.
unfoldable pub is_cut : Bytes → Bool
is_cut (a ∷ b ∷ n ∷ rest) = ltb (length rest) n
is_cut _ = true

dp_loop_cut : (fuel : ℕ) (b : Bytes) → is_cut b ≡ true → dp_loop fuel b ≡ []
unfolding dp_loop is_cut
dp_loop_cut zero b h = refl
dp_loop_cut (suc fuel) [] h = refl
dp_loop_cut (suc fuel) (x ∷ []) h = refl
dp_loop_cut (suc fuel) (x ∷ y ∷ []) h = refl
dp_loop_cut (suc fuel) (x ∷ y ∷ z ∷ b) h = rw h refl

dp_loop-all_dp_bytes :
    (fuel : ℕ) (dps : List TuyaVendorDp) (rest : Bytes)
    → length dps ≤ fuel
    → is_cut rest ≡ true
    → dp_loop fuel (all_dp_bytes dps ++ rest) ≡ dps
dp_loop-all_dp_bytes fuel [] rest h c = dp_loop_cut fuel rest c
dp_loop-all_dp_bytes zero (dp ∷ dps) rest h c = absurd (omega arith)
dp_loop-all_dp_bytes (suc fuel) (dp ∷ dps) rest h c =
    rw
      (
        append_assoc (dp_bytes dp) (all_dp_bytes dps) rest,
        dp_loop_cons fuel dp (all_dp_bytes dps ++ rest),
        dp_loop-all_dp_bytes fuel dps rest (omega arith) c,
      )
      refl

length-all_dp_bytes : (dps : List TuyaVendorDp) → length dps ≤ length (all_dp_bytes dps)
length-all_dp_bytes [] = omega arith
length-all_dp_bytes (dp ∷ dps) =
    omega (arith, length-append (dp_bytes dp) (all_dp_bytes dps), length-all_dp_bytes dps)

-- The data points of a list written one after another, and a rest that holds no whole data point,
-- parse to that list.
pub parse_dp_bytes-all_dp_bytes :
    (dps : List TuyaVendorDp) (rest : Bytes)
    → is_cut rest ≡ true
    → parse_dp_bytes (all_dp_bytes dps ++ rest) ≡ dps
unfolding parse_dp_bytes
parse_dp_bytes-all_dp_bytes dps rest h =
    dp_loop-all_dp_bytes (length (all_dp_bytes dps ++ rest)) dps rest
      (omega (arith, length-append (all_dp_bytes dps) rest, length-all_dp_bytes dps)) h
