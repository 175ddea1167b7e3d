-- ===== src/Bytes/Strings.antt =====
-- Lengths, cancellation and stripping of byte strings.
use tuya_ble_mesh.Prelude.{ℕ, zero, suc, ◌≤◌, min}
use tuya_ble_mesh.Prelude.{◌≡◌, refl, ap₂, arith, [], ◌∷◌, ◌++◌, length}
use tuya_ble_mesh.Prelude.{ok}
use tuya_ble_mesh.Prelude.{◌<◌, bit_xor, ap, take, drop, Bool-cases, inl, inr, ◌&&◌, ◌==◌, ◌-◌, ◌∙◌}
use tuya_ble_mesh.Bytes.Defs.{index, Bytes, IsBytes, zip_xor, xor_bytes, rstrip_zeros, zeros}
use tuya_ble_mesh.Bits.Xor.{bit_xor_cancel, bit_xor_cancel_right, bit_xor-lt}

pub length-zip_xor : (a b : Bytes) → length (zip_xor a b) ≡ min (length a) (length b)
unfolding zip_xor
length-zip_xor (x ∷ a) (y ∷ b) = omega (arith, length-zip_xor a b)
length-zip_xor [] b = omega arith
length-zip_xor (x ∷ a) [] = omega arith

pub zip_xor-IsBytes : (a b : Bytes) → IsBytes a → IsBytes b → IsBytes (zip_xor a b)
unfolding zip_xor
zip_xor-IsBytes (x ∷ a) (y ∷ b) (hx, ha) (hy, hb) =
    (bit_xor-lt 8 x y hx hy, zip_xor-IsBytes a b ha hb)
zip_xor-IsBytes [] b ha hb = tt
zip_xor-IsBytes (x ∷ a) [] ha hb = tt

-- A key stream at least as long as the text is taken off by applying it again.
pub zip_xor_cancel : (k b : Bytes) → length b ≤ length k → zip_xor k (zip_xor k b) ≡ b
unfolding zip_xor
zip_xor_cancel (x ∷ k) (y ∷ b) h = ap₂ ◌∷◌ (bit_xor_cancel x y) (zip_xor_cancel k b (omega arith))
zip_xor_cancel [] [] h = refl
zip_xor_cancel [] (y ∷ b) h = absurd (omega arith)
zip_xor_cancel (x ∷ k) [] h = refl

pub zip_xor_cancel_right : (b k : Bytes) → length b ≤ length k → zip_xor (zip_xor b k) k ≡ b
unfolding zip_xor
zip_xor_cancel_right (y ∷ b) (x ∷ k) h =
    ap₂ ◌∷◌ (bit_xor_cancel_right y x) (zip_xor_cancel_right b k (omega arith))
zip_xor_cancel_right [] k h = refl
zip_xor_cancel_right (y ∷ b) [] h = absurd (omega arith)

pub xor_bytes-zip_xor : (a b : Bytes) → length a ≡ length b → xor_bytes a b ≡ ok (zip_xor a b)
unfolding xor_bytes
xor_bytes-zip_xor a b h = ground arith

pub rstrip_zeros-append_zeros :
    (bs : Bytes) (n : ℕ) → rstrip_zeros (bs ++ zeros n) ≡ rstrip_zeros bs
unfolding rstrip_zeros
rstrip_zeros-append_zeros [] zero = refl
rstrip_zeros-append_zeros [] (suc n) = rw (rstrip_zeros-append_zeros [] n) refl
rstrip_zeros-append_zeros (b ∷ bs) n = rw (rstrip_zeros-append_zeros bs n) refl

zip_xor-nil : (b : Bytes) → [] ≡ zip_xor b []
unfolding zip_xor
zip_xor-nil [] = refl
zip_xor-nil (y ∷ b) = refl

-- The exclusive or with a joined key stream, part by part.
pub zip_xor-append :
    (a b c : Bytes)
    → zip_xor (a ++ b) c ≡ zip_xor a (take (length a) c) ++ zip_xor b (drop (length a) c)
unfolding zip_xor
zip_xor-append [] b c = refl
zip_xor-append (x ∷ a) b [] = zip_xor-nil b
zip_xor-append (x ∷ a) b (y ∷ c) = ap (◌∷◌ (bit_xor x y)) (zip_xor-append a b c)

-- Key bytes beyond the text do not count.
pub zip_xor-take : (a c : Bytes) → zip_xor (take (length c) a) c ≡ zip_xor a c
unfolding zip_xor
zip_xor-take [] [] = refl
zip_xor-take [] (y ∷ c) = refl
zip_xor-take (x ∷ a) [] = refl
zip_xor-take (x ∷ a) (y ∷ c) = ap (◌∷◌ (bit_xor x y)) (zip_xor-take a c)

pub length-rstrip_zeros-le : (bs : Bytes) → length (rstrip_zeros bs) ≤ length bs
unfolding rstrip_zeros
length-rstrip_zeros-le [] = omega arith
length-rstrip_zeros-le (b ∷ bs) = ground (arith, length-rstrip_zeros-le bs)

pad_of_empty : (bs : Bytes) (n : ℕ) → length bs ≡ 0 → zeros n ≡ bs ++ zeros (n - length bs)
pad_of_empty [] n h = ap (λ (k : ℕ). zeros k) (omega arith)
pad_of_empty (b ∷ bs) n h = absurd (omega arith)

-- Padding with zeros to the old length undoes the stripping.
pub rstrip_zeros_pad :
    (bs : Bytes) → rstrip_zeros bs ++ zeros (length bs - length (rstrip_zeros bs)) ≡ bs
unfolding rstrip_zeros
rstrip_zeros_pad [] = refl
rstrip_zeros_pad (b ∷ bs) = elim (Bool-cases (length (rstrip_zeros bs) == 0 && b == 0)) [
  | inl all ↦
      let none_left : length (rstrip_zeros bs) ≡ 0 = ground arith in
      let is_zero : 0 ≡ b = ground arith in
      let tail : zeros (length bs) ≡ bs =
        pad_of_empty (rstrip_zeros bs) (length bs) none_left ∙ rstrip_zeros_pad bs in
      let whole : suc (length bs) - 0 ≡ suc (length bs) = omega arith in
      rw (all, whole) (ap₂ ◌∷◌ is_zero tail)
  | inr some ↦
      let shift : suc (length bs) - suc (length (rstrip_zeros bs))
          ≡ length bs - length (rstrip_zeros bs) =
        omega arith in
      rw some (ap (◌∷◌ b) (rw shift (rstrip_zeros_pad bs)))
]

-- An index below the length finds a byte.
pub index_of_lt : (bs : Bytes) (i : ℕ) → i < length bs → (b : ℕ) × (index bs i ≡ ok b)
index_of_lt [] i h = absurd (omega arith)
index_of_lt (b ∷ bs) zero h = (b, refl)
index_of_lt (b ∷ bs) (suc i) h = index_of_lt bs i (omega arith)
