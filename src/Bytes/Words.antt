-- ===== src/Bytes/Words.antt =====
-- Numbers of a fixed count of bytes, in both byte orders.
use tuya_ble_mesh.Prelude.{ℕ, zero, suc, ◌+◌, ◌*◌, ◌/◌, ◌%◌, ◌^◌, ◌<◌}
use tuya_ble_mesh.Prelude.{◌≡◌, refl, sym, ap, ap₂, ◌∙◌, arith, [], ◌∷◌, length}
use tuya_ble_mesh.Bytes.Defs.{Bytes, IsBytes, le_digits, be_digits}
use tuya_ble_mesh.Bytes.Defs.{to_bytes_le, pack_le, pack_be, bytes_of}
use tuya_ble_mesh.Prelude.{ok, lt→ltb}
use tuya_ble_mesh.Bytes.Defs.{from_bytes_le, from_bytes_be, from_bytes_be_acc}
use native.Mathlib.Nat.{pow-suc, one-le-pow, div-add-mod, mod-lt, mod-eq_of_lt}
use native.Mathlib.Nat.{mul_comm, add-mul-mod_self_left}

pub length-le_digits : (n x : ℕ) → length (le_digits n x) ≡ n
length-le_digits zero x = refl
length-le_digits (suc n) x = ap suc (length-le_digits n (x / 256))

pub le_digits-IsBytes : (n x : ℕ) → IsBytes (le_digits n x)
le_digits-IsBytes zero x = tt
le_digits-IsBytes (suc n) x = (omega arith, le_digits-IsBytes n (x / 256))

pub from_bytes_le-le_digits : (n x : ℕ) → x < 256 ^ n → from_bytes_le (le_digits n x) ≡ x
from_bytes_le-le_digits zero x h = omega arith
from_bytes_le-le_digits (suc n) x h =
    omega (arith, from_bytes_le-le_digits n (x / 256) (omega (arith, pow-suc 256 n)))

le_digits_cons : (n b r : ℕ) → b < 256 → le_digits (suc n) (b + 256 * r) ≡ b ∷ le_digits n r
le_digits_cons n b r h = ap₂ ◌∷◌ (omega arith) (ap (le_digits n) (omega arith))

pub le_digits-from_bytes_le :
    (bs : Bytes) → IsBytes bs → le_digits (length bs) (from_bytes_le bs) ≡ bs
le_digits-from_bytes_le [] h = refl
le_digits-from_bytes_le (b ∷ bs) (hb, h) =
    le_digits_cons (length bs) b (from_bytes_le bs) hb ∙ ap (◌∷◌ b) (le_digits-from_bytes_le bs h)

top_digit_small : (d r t : ℕ) → d < 256 → r < t → d * t + r < 256 * t
top_digit_small d r t h k = grind arith

-- The digit on top of `n` others.
top_digit : (x t : ℕ) → 0 < t → x / t % 256 * t + x % t ≡ x % (256 * t)
top_digit x t h =
    let q = x / t in
    let low = q % 256 * t + x % t in
    let small : low < 256 * t = top_digit_small (q % 256) (x % t) t (omega arith) (mod-lt x h) in
    let whole : low + 256 * t * (q / 256) ≡ x =
      omega (arith, div-add-mod x t, ap (λ (s : ℕ). s * t) (div-add-mod q 256)) in
    sym (mod-eq_of_lt small)
    ∙ sym (add-mul-mod_self_left low (256 * t) (q / 256))
    ∙ ap (λ (s : ℕ). s % (256 * t)) whole

from_be-be_digits :
    (n x acc : ℕ) → from_bytes_be_acc acc (be_digits n x) ≡ acc * 256 ^ n + x % 256 ^ n
from_be-be_digits zero x acc = omega arith
from_be-be_digits (suc n) x acc = omega (
  arith,
  from_be-be_digits n x (acc * 256 + x / 256 ^ n % 256),
  top_digit x (256 ^ n) (one-le-pow n 256 (omega arith)),
  pow-suc 256 n,
  ap (λ (t : ℕ). x % t) (pow-suc 256 n),
  ap (λ (t : ℕ). acc * t) (pow-suc 256 n),
  ap (λ (t : ℕ). x % t) (mul_comm (256 ^ n) 256),
)

pub from_bytes_be-be_digits : (n x : ℕ) → x < 256 ^ n → from_bytes_be (be_digits n x) ≡ x
from_bytes_be-be_digits n x h = from_be-be_digits n x 0 ∙ grind (arith, mod-eq_of_lt)

pub to_bytes_le-le_digits : (n x : ℕ) → x < 256 ^ n → to_bytes_le n x ≡ ok (le_digits n x)
unfolding to_bytes_le
to_bytes_le-le_digits n x h = rw (lt→ltb x (256 ^ n) h) refl

pub pack_le-le_digits : (n x : ℕ) → x < 256 ^ n → pack_le n x ≡ ok (le_digits n x)
unfolding pack_le
pack_le-le_digits n x h = rw (lt→ltb x (256 ^ n) h) refl

pub pack_be-be_digits : (n x : ℕ) → x < 256 ^ n → pack_be n x ≡ ok (be_digits n x)
unfolding pack_be
pack_be-be_digits n x h = rw (lt→ltb x (256 ^ n) h) refl

pub bytes_of_one : (b : ℕ) → b < 256 → bytes_of (b ∷ []) ≡ ok (b ∷ [])
unfolding bytes_of
bytes_of_one b h = rw (lt→ltb b 256 h) refl

pub bytes_of_two : (a b : ℕ) → a < 256 → b < 256 → bytes_of (a ∷ b ∷ []) ≡ ok (a ∷ b ∷ [])
unfolding bytes_of
bytes_of_two a b h k = rw (lt→ltb a 256 h, lt→ltb b 256 k) refl
