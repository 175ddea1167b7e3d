-- ===== src/Prelude/Results.antt =====
-- The exceptions that the code raises, as values: `lib/tuya_ble_mesh/exceptions.py` and the
-- built-in ones of `bytes`, `struct` and indexing.
use mathlib.Core.Path.{◌≡◌, refl}
use mathlib.Core.Bool.{Bool, true, false}
use tuya_ble_mesh.Prelude.Tests.{if◌then◌else◌}

pub data Error : Type 0 where
  protocol_error malformed_packet_error : Error
  crypto_error authentication_error : Error
  invalid_request_error invalid_result_error correlation_conflict_error : Error
  mesh_timeout_error mesh_connection_error device_not_found_error sig_mesh_key_error : Error
  sig_mesh_error provisioning_error command_queue_full_error disconnected_error os_error bleak_error
        cancelled_error :
      Error
  -- AttributeError, TypeError or NameError, and every class that the code does not name.
  programming_error other_error : Error
  value_error index_error struct_error overflow_error key_error : Error
  -- No Python exception: the fuel of a loop ran out.
  out_of_fuel : Error

-- What a call ends with: an exception, or the value it returns.
pub data Result {a} (Value : Type a) : Type a where
  err : Error → Result Value
  ok : Value → Result Value

-- `if b: raise e`
abbrev pub raise_if : Bool → Error → Result (Unit {0})
raise_if false e = ok tt
raise_if true e = err e

-- `if not b: raise e`
abbrev pub guard : Bool → Error → Result (Unit {0})
guard b e = if b then ok tt else err e

infixl 5 ◌>>=◌ ◌>>◌
abbrev pub ◌>>=◌ {a b} :
    {Value : Type a} {Next : Type b} → Result Value → (Value → Result Next) → Result Next
err e >>= next = err e
ok value >>= next = next value

abbrev pub ◌>>◌ {b} : {Next : Type b} → Result (Unit {0}) → Result Next → Result Next
err e >> after = err e
ok _ >> after = after

-- Where a chain returned, so did its first call, and the rest on the value of that.
pub >>=-eq-ok {a b} :
    {Value : Type a} {Next : Type b} (first : Result Value) (next : Value → Result Next) {y : Next}
    → (first >>= next) ≡ ok y
    → (x : Value) × (first ≡ ok x) × (next x ≡ ok y)
>>=-eq-ok (err e) next returned = cc
>>=-eq-ok (ok x) next returned = (x, refl, returned)
