-- ===== src/Requests/Dispatcher/Retry.antt =====
-- `transport/dispatcher.py`: `_send_with_retry`. What other tasks do while one waits is a parameter:
-- the World tells for each attempt what the code finds. The random jitter of a delay is left out.
pub mod Attempts
pub mod Outcome
use tuya_ble_mesh.Prelude.{
  ℕ, zero, suc, ◌+◌, ◌-◌, ◌*◌, ◌^◌, min, Bool, true, false, not, ◌||◌, Option, none, some,
}
use tuya_ble_mesh.Prelude.{List, [], ◌∷◌, ◌++◌, if◌then◌else◌, Result, ok, err, ◌>>=◌, Error, leb}
use tuya_ble_mesh.Prelude.{
  bleak_error, cancelled_error, programming_error, other_error, value_error, index_error,
  struct_error, overflow_error, key_error, out_of_fuel,
}
use tuya_ble_mesh.Bytes.{Bytes}
use tuya_ble_mesh.Requests.Request.{
  CommandRequest, CommandResult, RetryPolicy, success, error, is_expired, make_result,
}
use tuya_ble_mesh.Requests.Correlation.{CorrelationEngine, CorrelationKey, register}
use tuya_ble_mesh.Requests.Dispatcher.{Dispatcher, complete_request, land}

-- What an attempt finds: whether the dispatcher runs, the time, what became of the correlations
-- since the last attempt, the next sequence number, and what the send callback does.
pub record Attempt : Type 0 where
  pub running : Bool
  pub now : ℕ
  pub meanwhile : CorrelationEngine → CorrelationEngine
  pub sequence : ℕ
  pub answer : Result (Option Bytes)

-- The state of the loop. `raised` is an exception that ends the task; `sent` and `delays` are what it
-- did so far, the latest last.
pub record Progress : Type 0 where
  pub correlation : CorrelationEngine
  pub retries_used : ℕ
  pub last_error : Option Error
  pub response : Option (Option Bytes)
  pub raised : Option Error
  pub sent : List ℕ
  pub delays : List ℕ

unfoldable pub no_progress : CorrelationEngine → Progress
no_progress engine = record {
  correlation = engine;
  retries_used = 0;
  last_error = none;
  response = none;
  raised = none;
  sent = [];
  delays = [];
}

unfoldable pub backoff : RetryPolicy → ℕ → ℕ
backoff policy attempt = min (policy.backoff_base * 2 ^ attempt) policy.backoff_max

-- `await self._send_callback(request, sequence)`
unfoldable pub call_send : Attempt → Progress → Progress × Result (Option Bytes)
call_send a p = (record p { sent = p.sent ++ (a.sequence ∷ []) }, a.answer)

unfoldable pub send_registered :
    Attempt
    → Progress
    → Result (CorrelationEngine × CorrelationKey)
    → Progress × Result (Option Bytes)
send_registered a p (err e) = (p, err e)
send_registered a p (ok (engine, key)) = call_send a (record p { correlation = engine })

-- Correlation is registered where a response is expected.
unfoldable pub send_expecting :
    Option ℕ → CommandRequest → Attempt → Progress → Progress × Result (Option Bytes)
send_expecting none request a p = call_send a p
send_expecting (some op) request a p =
    send_registered a p (register p.correlation request a.sequence)

-- The body of the `try`.
unfoldable pub try_send : CommandRequest → Attempt → Progress → Progress × Result (Option Bytes)
try_send request a p = send_expecting request.expected_response_opcode request a p

-- `except (OSError, TimeoutError, TuyaBLEMeshError)`, the last with its subclasses.
unfoldable pub is_retried : Error → Bool
is_retried bleak_error = false
is_retried cancelled_error = false
is_retried programming_error = false
is_retried other_error = false
is_retried value_error = false
is_retried index_error = false
is_retried struct_error = false
is_retried overflow_error = false
is_retried key_error = false
is_retried out_of_fuel = false
is_retried _ = true

-- The `except` clause, up to the delay.
unfoldable pub note_failure : RetryPolicy → ℕ → Progress → Error → Progress
note_failure policy attempt p e = record p {
  retries_used = p.retries_used + 1;
  last_error = some e;
  delays =
      if leb policy.max_retries attempt
      then p.delays
      else p.delays ++ (backoff policy attempt ∷ []);
}

-- The loop, with the number of attempts that are left.
unfoldable pub send_loop : ℕ → ℕ → (ℕ → Attempt) → CommandRequest → Progress → Progress
send_loop zero attempt world request p = p
send_loop (suc left) attempt world request p =
    let a = world attempt in
    let found = record p { correlation = a.meanwhile p.correlation } in
    let tried = try_send request a found in
    let answered : Progress = elim tried.1 [
      | ok answer_data ↦ record tried.0 { response = some answer_data }
      | err e ↦
          let again =
            send_loop left (attempt + 1) world request
              (note_failure request.retry_policy attempt tried.0 e) in
          if is_retried e then again else record tried.0 { raised = some e }
    ] in
    if not a.running || is_expired request a.now then found else answered

unfoldable pub run_attempts : (ℕ → Attempt) → CommandRequest → CorrelationEngine → Progress
unfolding no_progress
run_attempts world request engine =
    send_loop (request.retry_policy.max_retries + 1) 0 world request (no_progress engine)

-- The `CommandResult` after the loop, or the exception of its constructor.
unfoldable pub loop_result : CommandRequest → Progress → ℕ → Result CommandResult
loop_result request p latency = elim p.response [
  | some answer_data ↦ make_result (record {
    request_id = request.request_id;
    status = success;
    response = answer_data;
    latency_ms = latency;
    retries_used = p.retries_used;
    failure = none;
  })
  | none ↦ make_result (record {
    request_id = request.request_id;
    status = error;
    response = none;
    latency_ms = latency;
    retries_used = p.retries_used;
    failure = p.last_error;
  })
]

abbrev pub raise_or : Option Error → Result CommandResult → Result CommandResult
raise_or none result = result
raise_or (some e) result = err e

-- The same, where no exception has left the loop.
unfoldable pub result_of : CommandRequest → Progress → ℕ → Result CommandResult
unfolding loop_result
result_of request p latency = raise_or p.raised (loop_result request p latency)

-- `_complete_request` where there is a result, and `finally`.
unfoldable pub conclude : Dispatcher → CommandRequest → Result CommandResult → Dispatcher
conclude d request (ok result) = land (complete_request d request result) request
conclude d request (err e) = land d request
