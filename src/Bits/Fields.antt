-- ===== src/Bits/Fields.antt =====
-- Masks and disjoint fields: `x & (2 ** k - 1)`, and `a | b` where `b` fits below the bits of `a`.
use tuya_ble_mesh.Prelude.{ℕ, zero, suc, ◌+◌, ◌-◌, ◌*◌, ◌/◌, ◌%◌, ◌^◌, ◌<◌, ◌≤◌}
use tuya_ble_mesh.Prelude.{bit_and, bit_or, min, ◌≡◌, ◌∙◌, refl, ap, arith}
use tuya_ble_mesh.Bits.Digits.{bit_and_digit, bit_or_digit}
use native.Mathlib.Nat.{pow-suc, one-le-pow, div-add-mod, div-div-eq-div-mul}

infixl 75 ◌<<<◌ ◌>>>◌
abbrev pub ◌<<<◌ : ℕ → ℕ → ℕ
x <<< k = x * 2 ^ k

abbrev pub ◌>>>◌ : ℕ → ℕ → ℕ
x >>> k = x / 2 ^ k

bit_and-zero : (n a : ℕ) → a ≤ n → bit_and a 0 ≡ 0
bit_and-zero n zero h = refl
bit_and-zero zero (suc a) h = absurd (omega arith)
bit_and-zero (suc n) (suc a) h =
    omega (arith, bit_and_digit (suc a) 0, bit_and-zero n (suc a / 2) (omega arith))

bit_or-zero : (n a : ℕ) → a ≤ n → bit_or a 0 ≡ a
bit_or-zero n zero h = refl
bit_or-zero zero (suc a) h = absurd (omega arith)
bit_or-zero (suc n) (suc a) h =
    omega (arith, bit_or_digit (suc a) 0, bit_or-zero n (suc a / 2) (omega arith))

mask_below : (k q r : ℕ) → r < 2 ^ k → bit_and (q * 2 ^ k + r) (2 ^ k - 1) ≡ r
mask_below zero q r h =
    rw (bit_and-zero (q * 2 ^ 0 + r) (q * 2 ^ 0 + r) (omega arith)) (omega arith)
mask_below (suc k) q r h = ground (
  arith,
  pow-suc 2 k,
  ap (λ (t : ℕ). q * t) (pow-suc 2 k),
  bit_and_digit (q * 2 ^ suc k + r) (2 ^ suc k - 1),
  mask_below k q (r / 2),
)

-- A mask of `k` ones is the remainder by `2 ^ k`.
pub bit_and_mask : (k a : ℕ) → bit_and a (2 ^ k - 1) ≡ a % 2 ^ k
bit_and_mask k a = ground (arith, one-le-pow k 2, mask_below k (a / 2 ^ k) (a % 2 ^ k))

or_below : (k q r : ℕ) → r < 2 ^ k → bit_or (q * 2 ^ k) r ≡ q * 2 ^ k + r
or_below zero q r h = ground (arith, bit_or-zero q q)
or_below (suc k) q r h = ground (
  arith,
  ap (λ (t : ℕ). q * t) (pow-suc 2 k),
  pow-suc 2 k,
  bit_or_digit (q * 2 ^ suc k) r,
  or_below k q (r / 2),
)

-- `a | b` is a sum where `a` has no bit below `k` and `b` none from `k` on.
pub bit_or_add : (k a b : ℕ) → a % 2 ^ k ≡ 0 → b < 2 ^ k → bit_or a b ≡ a + b
bit_or_add k a b h l =
    let e : a ≡ a / 2 ^ k * 2 ^ k = omega (arith, div-add-mod a (2 ^ k)) in
    rw e (or_below k (a / 2 ^ k) b l)

-- Numbers put together of their bytes, as the code writes them.
pub or_two : (a b : ℕ) → b < 256 → bit_or (a <<< 8) b ≡ a * 256 + b
or_two a b h = bit_or_add 8 (a * 256) b (omega arith) h

pub or_three :
    (a b c : ℕ)
    → b < 256
    → c < 256
    → bit_or (bit_or (a <<< 16) (b <<< 8)) c ≡ a * 65536 + b * 256 + c
or_three a b c h k =
    rw (bit_or_add 16 (a * 65536) (b * 256) (omega arith) (omega arith))
      (bit_or_add 8 (a * 65536 + b * 256) c (omega arith) k)

-- A mask that is zero below bit `k`.
pub bit_and_shift : (k a m : ℕ) → bit_and a (m * 2 ^ k) ≡ bit_and (a / 2 ^ k) m * 2 ^ k
bit_and_shift zero a m =
    let whole : a / 1 ≡ a = omega arith in
    let once : m * 1 ≡ m = omega arith in rw (whole, once) (omega arith)
bit_and_shift (suc k) a m =
    let even : m * 2 ^ suc k ≡ 2 * (m * 2 ^ k) =
      omega (arith, ap (λ (t : ℕ). m * t) (pow-suc 2 k)) in
    let half : 2 * (m * 2 ^ k) / 2 ≡ m * 2 ^ k = omega arith in
    let low : min (a % 2) (2 * (m * 2 ^ k) % 2) ≡ 0 = omega arith in
    let e : bit_and a (2 * (m * 2 ^ k)) ≡ bit_and (a / 2 / 2 ^ k) m * 2 ^ k * 2 =
      bit_and_digit a (2 * (m * 2 ^ k)) ∙ rw (half, low, bit_and_shift k (a / 2) m) (omega arith) in
    let double : 2 ^ suc k ≡ 2 * 2 ^ k = omega (arith, pow-suc 2 k) in
    rw (even, e, div-div-eq-div-mul a 2 (2 ^ k), double) (grind arith)
