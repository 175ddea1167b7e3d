-- ===== src/Bits/Digits.antt =====
-- Each native operation on bits as one equation for the lowest digit, with no fuel.
use Prim.Native.Nat.{ℕ, zero, suc, ◌+◌, ◌*◌, ◌/◌, ◌%◌, ◌≤◌, min, max, bit_and, bit_or, bit_xor}
use Prim.Native.Nat.{digits, differ, bit_and-bitwise, bit_or-bitwise, bit_xor-bitwise}
use mathlib.Core.Path.{◌≡◌, refl, ap}
use native.Mathlib.Omega.{arith}

module _ (rest : ℕ → ℕ) (join : ℕ → ℕ → ℕ) where
  -- The count of digits to go does not matter once it reaches the number.
  digits_count : (x y n m : ℕ) → x ≤ n → x ≤ m → digits rest join n x y ≡ digits rest join m x y
  digits_count zero y zero zero hn hm = refl
  digits_count zero y zero (suc m) hn hm = refl
  digits_count zero y (suc n) zero hn hm = refl
  digits_count zero y (suc n) (suc m) hn hm = refl
  digits_count (suc x) y zero m hn hm = absurd (omega arith)
  digits_count (suc x) y (suc n) zero hn hm = absurd (omega arith)
  digits_count (suc x) y (suc n) (suc m) hn hm =
      ap (λ (t : ℕ). t * 2 + join (suc x % 2) (y % 2))
        (digits_count (suc x / 2) (y / 2) n m (omega arith) (omega arith))

  lowest_digit :
      (x y : ℕ)
      → digits rest join (suc x) (suc x) y
        ≡ digits rest join (suc x / 2) (suc x / 2) (y / 2) * 2 + join (suc x % 2) (y % 2)
  lowest_digit x y =
      ap (λ (t : ℕ). t * 2 + join (suc x % 2) (y % 2))
        (digits_count (suc x / 2) (y / 2) x (suc x / 2) (omega arith) (omega arith))

-- Each law below: the digit at the bottom is joined by itself, and the rest by the operation.
pub bit_and_digit : (a b : ℕ) → bit_and a b ≡ bit_and (a / 2) (b / 2) * 2 + min (a % 2) (b % 2)
bit_and_digit zero b = simp bit_and-bitwise (omega arith)
bit_and_digit (suc a) b = simp bit_and-bitwise (lowest_digit (λ b. 0) min a b)

pub bit_or_digit : (a b : ℕ) → bit_or a b ≡ bit_or (a / 2) (b / 2) * 2 + max (a % 2) (b % 2)
bit_or_digit zero b = simp bit_or-bitwise (omega arith)
bit_or_digit (suc a) b = simp bit_or-bitwise (lowest_digit (λ b. b) max a b)

differ_zero : (b : ℕ) → b ≡ b / 2 * 2 + differ 0 (b % 2)
differ_zero b = omega arith

pub bit_xor_digit : (a b : ℕ) → bit_xor a b ≡ bit_xor (a / 2) (b / 2) * 2 + differ (a % 2) (b % 2)
bit_xor_digit zero b = simp bit_xor-bitwise (differ_zero b)
bit_xor_digit (suc a) b = simp bit_xor-bitwise (lowest_digit (λ b. b) differ a b)

pub zero-bit_xor : (b : ℕ) → bit_xor 0 b ≡ b
zero-bit_xor b = bit_xor-bitwise 0 b
