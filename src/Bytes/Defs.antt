-- ===== src/Bytes/Defs.antt =====
-- The operations on `bytes`.
use tuya_ble_mesh.Prelude.{ℕ, zero, suc, ◌+◌, ◌-◌, ◌*◌, ◌/◌, ◌%◌, ◌^◌, ◌<◌, bit_xor}
use tuya_ble_mesh.Prelude.{Bool, true, false, ◌&&◌, List, [], ◌∷◌, ltb, ◌==◌, if◌then◌else◌}
use tuya_ble_mesh.Prelude.{length, replicate, take, drop, All, Result, ok, err}
use tuya_ble_mesh.Prelude.{value_error, index_error, struct_error, overflow_error}

abbrev pub Bytes : Type 0
Bytes = List ℕ

abbrev pub IsByte : ℕ → Type 0
IsByte b = b < 256

abbrev pub IsBytes : Bytes → Type 0
IsBytes = All IsByte

-- `x.to_bytes(n, "little")` and `"big"`, without the check of the range.
abbrev pub le_digits : ℕ → ℕ → Bytes
le_digits zero x = []
le_digits (suc n) x = x % 256 ∷ le_digits n (x / 256)

abbrev pub be_digits : ℕ → ℕ → Bytes
be_digits zero x = []
be_digits (suc n) x = x / 256 ^ n % 256 ∷ be_digits n x

unfoldable pub to_bytes_le : ℕ → ℕ → Result Bytes
to_bytes_le n x = if ltb x (256 ^ n) then ok (le_digits n x) else err overflow_error

unfoldable pub to_bytes_be : ℕ → ℕ → Result Bytes
to_bytes_be n x = if ltb x (256 ^ n) then ok (be_digits n x) else err overflow_error

-- `struct.pack` of one unsigned field of `n` bytes.
unfoldable pub pack_le : ℕ → ℕ → Result Bytes
pack_le n x = if ltb x (256 ^ n) then ok (le_digits n x) else err struct_error

unfoldable pub pack_be : ℕ → ℕ → Result Bytes
pack_be n x = if ltb x (256 ^ n) then ok (be_digits n x) else err struct_error

-- `int.from_bytes`, and `struct.unpack` of one unsigned field.
abbrev pub from_bytes_le : Bytes → ℕ
from_bytes_le [] = 0
from_bytes_le (b ∷ bs) = b + 256 * from_bytes_le bs

abbrev pub from_bytes_be_acc : ℕ → Bytes → ℕ
from_bytes_be_acc acc [] = acc
from_bytes_be_acc acc (b ∷ bs) = from_bytes_be_acc (acc * 256 + b) bs

abbrev pub from_bytes_be : Bytes → ℕ
from_bytes_be = from_bytes_be_acc 0

-- `bytes([...])`
abbrev pub all_bytes : Bytes → Bool
all_bytes [] = true
all_bytes (b ∷ bs) = ltb b 256 && all_bytes bs

unfoldable pub bytes_of : List ℕ → Result Bytes
bytes_of bs = if all_bytes bs then ok bs else err value_error

-- `data[i]`
abbrev pub index : Bytes → ℕ → Result ℕ
index [] i = err index_error
index (b ∷ bs) zero = ok b
index (b ∷ bs) (suc i) = index bs i

-- `data[a:b]`
abbrev pub slice : ℕ → ℕ → Bytes → Bytes
slice a b bs = take (b - a) (drop a bs)

abbrev pub zeros : ℕ → Bytes
zeros n = replicate n 0

-- `bytes(x ^ y for x, y in zip(a, b))`, and the same with `strict=True`.
unfoldable pub zip_xor : Bytes → Bytes → Bytes
zip_xor (x ∷ xs) (y ∷ ys) = bit_xor x y ∷ zip_xor xs ys
zip_xor _ _ = []

unfoldable pub xor_bytes : Bytes → Bytes → Result Bytes
unfolding zip_xor
xor_bytes a b = if length a == length b then ok (zip_xor a b) else err value_error

-- `data.rstrip(b"\x00")`
unfoldable pub rstrip_zeros : Bytes → Bytes
rstrip_zeros [] = []
rstrip_zeros (b ∷ bs) =
    let rest = rstrip_zeros bs in if length rest == 0 && b == 0 then [] else b ∷ rest

-- `a == b`
abbrev pub bytes_equal : Bytes → Bytes → Bool
bytes_equal [] [] = true
bytes_equal (x ∷ xs) (y ∷ ys) = x == y && bytes_equal xs ys
bytes_equal _ _ = false
