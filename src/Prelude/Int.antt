-- ===== src/Prelude/Int.antt =====
-- Python's integers where the code tests or stores a negative one, with native parts.
use Prim.Native.Nat.{ℕ, suc, ◌+◌, ◌-◌, ◌≤◌}
use mathlib.Core.Path.{◌≡◌}
use mathlib.Core.Bool.{Bool}
use native.Mathlib.Omega.{arith}
use tuya_ble_mesh.Prelude.Tests.{leb, if◌then◌else◌}
use tuya_ble_mesh.Prelude.Results.{Result, ok, err, Error}

-- `negsuc n` is -(n + 1).
pub data ℤ : Type 0 where
  pos : ℕ → ℤ
  negsuc : ℕ → ℤ

abbrev pub pos_part : ℤ → ℕ
pos_part (pos n) = n
pos_part (negsuc n) = 0

abbrev pub neg_part : ℤ → ℕ
neg_part (pos n) = 0
neg_part (negsuc n) = suc n

-- a - b, as an integer.
abbrev pub sub_ℕ : ℕ → ℕ → ℤ
sub_ℕ a b = if leb b a then pos (a - b) else negsuc (b - a - 1)

abbrev pub leb_ℤ : ℤ → ℤ → Bool
leb_ℤ a b = leb (pos_part a + neg_part b) (pos_part b + neg_part a)

-- `if not lo <= x <= hi: raise e`, for a range of numbers from 0 or 1 on: the number that passed.
unfoldable pub in_range : ℕ → ℕ → Error → ℤ → Result ℕ
in_range lo hi e (pos n) = if leb lo n then (if leb n hi then ok n else err e) else err e
in_range lo hi e (negsuc n) = err e

pub in_range_pos : (lo hi n : ℕ) (e : Error) → lo ≤ n → n ≤ hi → in_range lo hi e (pos n) ≡ ok n
unfolding in_range
in_range_pos lo hi n e h k = ground arith
