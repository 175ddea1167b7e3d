-- ===== src/Bits/Xor.antt =====
-- Exclusive or: its own inverse, commutative, and no wider than its operands.
use Prim.Native.Nat.{differ}
use tuya_ble_mesh.Prelude.{ℕ, zero, suc, ◌/◌, ◌%◌, ◌^◌, ◌<◌, ◌≤◌}
use tuya_ble_mesh.Prelude.{bit_xor, ◌≡◌, refl, arith}
use tuya_ble_mesh.Bits.Digits.{bit_xor_digit, zero-bit_xor}
use native.Mathlib.Nat.{pow-suc}

differ-lt : (x y : ℕ) → x < 2 → y < 2 → differ x y < 2
differ-lt zero y h k = k
differ-lt (suc zero) zero h k = h
differ-lt (suc zero) (suc zero) h k = omega arith
differ-lt (suc zero) (suc (suc y)) h k = absurd (omega arith)
differ-lt (suc (suc x)) y h k = absurd (omega arith)

differ_cancel : (x y : ℕ) → x < 2 → y < 2 → differ x (differ x y) ≡ y
differ_cancel zero y h k = refl
differ_cancel (suc zero) zero h k = refl
differ_cancel (suc zero) (suc zero) h k = refl
differ_cancel (suc zero) (suc (suc y)) h k = absurd (omega arith)
differ_cancel (suc (suc x)) y h k = absurd (omega arith)

differ_comm : (x y : ℕ) → differ x y ≡ differ y x
differ_comm zero zero = refl
differ_comm zero (suc y) = refl
differ_comm (suc x) zero = refl
differ_comm (suc x) (suc y) = differ_comm x y

xor_digits :
    (a b : ℕ)
    → (bit_xor a b / 2 ≡ bit_xor (a / 2) (b / 2)) × (bit_xor a b % 2 ≡ differ (a % 2) (b % 2))
xor_digits a b =
    omega (arith, bit_xor_digit a b, differ-lt (a % 2) (b % 2) (omega arith) (omega arith))

cancel_bound : (n a b : ℕ) → a ≤ n → bit_xor a (bit_xor a b) ≡ b
cancel_bound n zero b h = rw (zero-bit_xor, zero-bit_xor)
cancel_bound zero (suc a) b h = absurd (omega arith)
cancel_bound (suc n) (suc a) b h =
    rw
      (
        bit_xor_digit (suc a) (bit_xor (suc a) b),
        (xor_digits (suc a) b).0,
        (xor_digits (suc a) b).1,
        cancel_bound n (suc a / 2) (b / 2) (omega arith),
        differ_cancel (suc a % 2) (b % 2) (omega arith) (omega arith),
      )
      (omega arith)

bit_xor-zero : (n a : ℕ) → a ≤ n → bit_xor a 0 ≡ a
bit_xor-zero n zero h = refl
bit_xor-zero zero (suc a) h = absurd (omega arith)
bit_xor-zero (suc n) (suc a) h = omega (
  arith,
  bit_xor_digit (suc a) 0,
  bit_xor-zero n (suc a / 2) (omega arith),
  differ_comm (suc a % 2) 0,
)

comm_bound : (n a b : ℕ) → a ≤ n → bit_xor a b ≡ bit_xor b a
comm_bound n zero b h = omega (arith, zero-bit_xor b, bit_xor-zero b b)
comm_bound zero (suc a) b h = absurd (omega arith)
comm_bound (suc n) (suc a) b h = omega (
  arith,
  bit_xor_digit (suc a) b,
  bit_xor_digit b (suc a),
  comm_bound n (suc a / 2) (b / 2) (omega arith),
  differ_comm (suc a % 2) (b % 2),
)

pub bit_xor_comm : (a b : ℕ) → bit_xor a b ≡ bit_xor b a
bit_xor_comm a b = comm_bound a a b (omega arith)

-- The same key applied twice gives the text back, from either side.
pub bit_xor_cancel : (a b : ℕ) → bit_xor a (bit_xor a b) ≡ b
bit_xor_cancel a b = cancel_bound a a b (omega arith)

pub bit_xor_cancel_right : (a b : ℕ) → bit_xor (bit_xor a b) b ≡ a
bit_xor_cancel_right a b = rw (bit_xor_comm a b, bit_xor_comm (bit_xor b a) b) (bit_xor_cancel b a)

pub bit_xor-lt : (k a b : ℕ) → a < 2 ^ k → b < 2 ^ k → bit_xor a b < 2 ^ k
bit_xor-lt zero a b h l = let e : a ≡ 0 = omega arith in rw (e, zero-bit_xor) l
bit_xor-lt (suc k) a b h l = omega (
  arith,
  pow-suc 2 k,
  xor_digits a b,
  differ-lt (a % 2) (b % 2) (omega arith) (omega arith),
  bit_xor-lt k (a / 2) (b / 2) (omega (arith, pow-suc 2 k)) (omega (arith, pow-suc 2 k)),
)
