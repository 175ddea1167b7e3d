-- ===== src/Requests/Request.antt =====
-- `transport/request.py` and `transport/result.py`: the constructors with their checks, and the
-- questions about a request and a result. `time.monotonic()` is the argument `now`.
use tuya_ble_mesh.Prelude.{ℕ, ◌+◌, ◌-◌, Bool, true, false, not, Option, none, some}
use tuya_ble_mesh.Prelude.{leb, if◌then◌else◌, Result, ok, err, ◌>>=◌, ◌>>◌, guard, raise_if, Error}
use tuya_ble_mesh.Prelude.{invalid_request_error, invalid_result_error}
use tuya_ble_mesh.Prelude.Int.{ℤ, pos, negsuc, in_range, leb_ℤ}
use tuya_ble_mesh.Bytes.{Bytes}

-- `if value < low: raise InvalidRequestError`: the number that passed.
unfoldable pub at_least : ℕ → ℤ → Result ℕ
at_least low (pos n) = if leb low n then ok n else err invalid_request_error
at_least low (negsuc n) = err invalid_request_error

pub record RetryPolicy : Type 0 where
  pub max_retries : ℕ
  pub backoff_base : ℕ
  pub backoff_max : ℕ
  -- In thousandths.
  pub jitter : ℕ

-- `RetryPolicy.__post_init__`
unfoldable pub make_retry_policy : ℤ → ℤ → ℤ → ℤ → Result RetryPolicy
make_retry_policy max_retries backoff_base backoff_max jitter = do
  retries ← at_least 0 max_retries
  base ← at_least 1 backoff_base
  raise_if (not (leb_ℤ backoff_base backoff_max)) invalid_request_error
  cap ← at_least 0 backoff_max
  part ← in_range 0 1000 invalid_request_error jitter
  ok (record { max_retries = retries; backoff_base = base; backoff_max = cap; jitter = part })

-- The last member stands for every text that is neither of the two.
pub data Protocol : Type 0 where
  telink sig other_protocol : Protocol

pub record CommandRequest : Type 0 where
  pub request_id : ℕ
  pub protocol : Protocol
  pub target_node : ℕ
  pub opcode : ℕ
  pub params : Bytes
  pub expected_response_opcode : Option ℕ
  pub retry_policy : RetryPolicy
  pub deadline : ℕ
  pub priority : ℕ
  pub created_at : ℕ

unfoldable pub is_known : Protocol → Bool
is_known telink = true
is_known sig = true
is_known other_protocol = false

-- `CommandRequest.__post_init__`, on the fields that it checks and those that the code compares.
unfoldable pub make_request :
    ℕ → Protocol → ℤ → ℤ → Bytes → Option ℕ → ℤ → RetryPolicy → ℤ → ℕ → Result CommandRequest
make_request request_id protocol target_node opcode params expected ttl retry_policy priority
      created_at =
    do
      node ← in_range 0 0xffff invalid_request_error target_node
      op ← in_range 0 0xffff invalid_request_error opcode
      life ← at_least 1 ttl
      level ← at_least 0 priority
      guard (is_known protocol) invalid_request_error
      ok (record {
        request_id = request_id;
        protocol = protocol;
        target_node = node;
        opcode = op;
        params = params;
        expected_response_opcode = expected;
        retry_policy = retry_policy;
        deadline = created_at + life;
        priority = level;
        created_at = created_at;
      })

unfoldable pub is_expired : CommandRequest → ℕ → Bool
is_expired request now = leb request.deadline now

-- The clock never runs backwards, so the difference is not negative.
unfoldable pub age : CommandRequest → ℕ → ℕ
age request now = now - request.created_at

pub data Status : Type 0 where
  success timeout error cancelled coalesced : Status

pub record CommandResult : Type 0 where
  pub request_id : ℕ
  pub status : Status
  pub response : Option Bytes
  pub latency_ms : ℕ
  pub retries_used : ℕ
  pub failure : Option Error

-- The two checks of `CommandResult.__post_init__` on the error; the other two, for a negative
-- latency and a negative number of retries, cannot fail on natural numbers.
unfoldable pub make_result : CommandResult → Result CommandResult
make_result result = elim result.status [
  | error ↦ elim result.failure [ none ↦ err invalid_result_error | some e ↦ ok result ]
  | success ↦ elim result.failure [ none ↦ ok result | some e ↦ err invalid_result_error ]
  | _ ↦ ok result
]

unfoldable pub is_successful : CommandResult → Bool
is_successful result = elim result.status [ success ↦ true | _ ↦ false ]

unfoldable pub is_failure : CommandResult → Bool
is_failure result = elim result.status [ error ↦ true | timeout ↦ true | _ ↦ false ]
