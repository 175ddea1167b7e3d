-- ===== src/Requests/Dispatcher/Retry/Outcome.antt =====
-- How `_send_with_retry` ends: after failures, before its first attempt, and where a response is expected.
use tuya_ble_mesh.Prelude.{
  ℕ, zero, suc, ◌+◌, ◌≤◌, ◌≡◌, refl, ap, ◌∙◌, arith, true, not, ◌||◌, Option, none, some,
}
use tuya_ble_mesh.Prelude.{length, Result, ok, err, Error, Bool-cases, inl, inr, ◌↔◌}
use tuya_ble_mesh.Prelude.{invalid_result_error, correlation_conflict_error}
use tuya_ble_mesh.Prelude.Dict.{insert, lookup-insert_self}
use tuya_ble_mesh.Bytes.{Bytes}
use tuya_ble_mesh.Requests.Request.{CommandRequest, success, is_expired, make_result}
use tuya_ble_mesh.Requests.Correlation.{CorrelationEngine, register, has_key, key_of, key_discrete}
use tuya_ble_mesh.Requests.Dispatcher.Retry.{
  Attempt, Progress, no_progress, call_send, send_registered, try_send, note_failure,
}
use tuya_ble_mesh.Requests.Dispatcher.Retry.{
  is_retried, send_loop, run_attempts, loop_result, result_of,
}
use tuya_ble_mesh.Requests.Dispatcher.Retry.Attempts.{
  SucceedsAfter, sequences, loop_succeeds, try_registered,
}
use tuya_ble_mesh.Requests.Dispatcher.Retry.Attempts.{
  found, loop_ends, loop_retries, loop_raises, result_of-Settled, loop-Settled,
}
use native.Mathlib.Decide.{ℕ_discrete}

add_one : (n : ℕ) → n + 1 ≡ suc n
add_one n = omega arith

-- A request without an expected response, whose first attempts fail with exceptions that are retried
-- (OSError, TimeoutError and the library's own), at most `max_retries` of them, and whose next attempt succeeds: the result is that success with the number of the failures, and
-- one command was sent for each attempt, in order, with its own sequence number.
pub run_attempts-recovers :
    (failures latency : ℕ) (world : ℕ → Attempt) (r : CommandRequest) (engine : CorrelationEngine)
    (x : Option Bytes)
    → r.expected_response_opcode ≡ none
    → failures ≤ r.retry_policy.max_retries
    → SucceedsAfter r world 0 failures x
    → (result_of r (run_attempts world r engine) latency
        ≡ ok (record {
          request_id = r.request_id;
          status = success;
          response = x;
          latency_ms = latency;
          retries_used = failures;
          failure = none;
        }))
      × ((run_attempts world r engine).sent ≡ sequences world 0 (suc failures))
unfolding run_attempts no_progress result_of loop_result make_result
run_attempts-recovers failures latency world r engine x e h s =
    let well =
      loop_succeeds failures (r.retry_policy.max_retries + 1) 0 world r (no_progress engine) x e
        refl (omega (arith, h)) s in
    (
      rw (well.raised, well.response, well.retries_used)
          (ap
            (λ (n : ℕ). ok (record {
              request_id = r.request_id;
              status = success;
              response = x;
              latency_ms = latency;
              retries_used = n;
              failure = none;
            }))
            (omega arith)),
      well.sent,
    )

-- The task ends with the exception of the result's own constructor, no result being recorded, exactly
-- where the first attempt is not made, since the dispatcher was stopped or the request is expired.
pub run_attempts-fails :
    (world : ℕ → Attempt) (r : CommandRequest) (engine : CorrelationEngine) (latency : ℕ)
    → (result_of r (run_attempts world r engine) latency ≡ err invalid_result_error)
      ↔ ((not (world 0).running || is_expired r (world 0).now) ≡ true)
unfolding run_attempts no_progress result_of loop_result make_result
run_attempts-fails world r engine latency =
    elim (Bool-cases (not (world 0).running || is_expired r (world 0).now)) [
      | inl ended ↦ (
        λ h. ended,
        λ h.
            rw
              (
                add_one r.retry_policy.max_retries,
                loop_ends r.retry_policy.max_retries 0 world r (no_progress engine) ended,
              )
              refl,
      )
      | inr made ↦ (
        λ h. absurd (
            result_of-Settled r (run_attempts world r engine) latency
              (loop-Settled _ 0 world r (no_progress engine) refl (inr (made, omega arith))) h),
        λ h. ground (arith, h, made),
      )
    ]

-- Other tasks leave a registered identifier registered.
abbrev pub Keeps : (ℕ → Attempt) → ℕ → Type 0
Keeps world id =
    (i : ℕ) (engine : CorrelationEngine)
    → has_key ℕ_discrete id engine.by_request_id ≡ true
    → has_key ℕ_discrete id ((world i).meanwhile engine).by_request_id ≡ true

register_known :
    (engine : CorrelationEngine) (r : CommandRequest) (n : ℕ)
    → has_key ℕ_discrete r.request_id engine.by_request_id ≡ true
    → register engine r n ≡ err correlation_conflict_error
unfolding register
register_known engine r n h = rw h refl

conflict :
    (op : ℕ) (r : CommandRequest) (a : Attempt) (p : Progress)
    → r.expected_response_opcode ≡ some op
    → has_key ℕ_discrete r.request_id p.correlation.by_request_id ≡ true
    → try_send r a p ≡ (p, err correlation_conflict_error)
unfolding send_registered
conflict op r a p e h =
    try_registered r a p op e ∙ rw (register_known p.correlation r a.sequence h) refl

loop_blocked :
    (left attempt op : ℕ) (world : ℕ → Attempt) (r : CommandRequest) (p : Progress)
    → r.expected_response_opcode ≡ some op
    → Keeps world r.request_id
    → has_key ℕ_discrete r.request_id p.correlation.by_request_id ≡ true
    → ((send_loop left attempt world r p).sent ≡ p.sent)
      × ((send_loop left attempt world r p).response ≡ p.response)
unfolding send_loop note_failure is_retried
loop_blocked zero attempt op world r p e keeps h = (refl, refl)
loop_blocked (suc left) attempt op world r p e keeps h =
    elim (Bool-cases (not (world attempt).running || is_expired r (world attempt).now)) [
      | inl ended ↦ rw (loop_ends left attempt world r p ended) (refl, refl)
      | inr made ↦
          let again = keeps attempt p.correlation h in
          rw
            (loop_retries left attempt world r p (found world attempt p) correlation_conflict_error
              made (conflict op r (world attempt) (found world attempt p) e again) refl)
            (loop_blocked left (attempt + 1) op world r _ e keeps again)
    ]

-- What a first try that fails leaves: at most one command sent, and the identifier registered.
record FailedOnce (r : CommandRequest) (a : Attempt) (p : Progress) : Type 0 where
  after : Progress
  because : Error
  failed : try_send r a p ≡ (after, err because)
  one : length after.sent ≤ 1
  silent : after.response ≡ none
  known : has_key ℕ_discrete r.request_id after.correlation.by_request_id ≡ true

first_try :
    (op : ℕ) (x : Error) (r : CommandRequest) (a : Attempt) (engine : CorrelationEngine)
    → r.expected_response_opcode ≡ some op
    → a.answer ≡ err x
    → FailedOnce r a (no_progress engine)
unfolding no_progress send_registered call_send register
first_try op x r a engine e h =
    elim (Bool-cases (has_key ℕ_discrete r.request_id engine.by_request_id)) [
      | inl known ↦ record {
        after = no_progress engine;
        because = correlation_conflict_error;
        failed = conflict op r a (no_progress engine) e known;
        one = omega arith;
        silent = refl;
        known = known;
      }
      | inr free ↦
          let registered : CorrelationEngine = record {
            pending = insert key_discrete (key_of r a.sequence) r engine.pending;
            by_request_id =
                insert ℕ_discrete r.request_id (key_of r a.sequence) engine.by_request_id;
          } in
          let q : Progress = (call_send a (no_progress registered)).0 in
          record {
            after = q;
            because = x;
            failed =
                try_registered r a (no_progress engine) op e
                ∙ rw free (ap (λ (y : Result (Option Bytes)). (q, y)) h);
            one = omega arith;
            silent = refl;
            known = rw lookup-insert_self refl;
          }
    ]

-- A request with an expected response whose first send fails, where other tasks leave a registered
-- identifier registered: it is sent at most once and gets no response.
pub run_attempts-once :
    (op : ℕ) (x : Error) (world : ℕ → Attempt) (r : CommandRequest) (engine : CorrelationEngine)
    → r.expected_response_opcode ≡ some op
    → Keeps world r.request_id
    → (world 0).answer ≡ err x
    → (length (run_attempts world r engine).sent ≤ 1)
      × ((run_attempts world r engine).response ≡ none)
unfolding run_attempts no_progress note_failure
run_attempts-once op x world r engine e keeps failed =
    elim (Bool-cases (not (world 0).running || is_expired r (world 0).now)) [
      | inl ended ↦
          rw
            (
              add_one r.retry_policy.max_retries,
              loop_ends r.retry_policy.max_retries 0 world r (no_progress engine) ended,
            )
            (omega arith, refl)
      | inr made ↦
          let once = first_try op x r (world 0) ((world 0).meanwhile engine) e failed in
          let (sent, response) =
            loop_blocked r.retry_policy.max_retries 1 op world r
              (note_failure r.retry_policy 0 once.after once.because) e keeps once.known in
          elim (Bool-cases (is_retried once.because)) [
            | inl caught ↦
                rw
                  (
                    add_one r.retry_policy.max_retries,
                    loop_retries r.retry_policy.max_retries 0 world r (no_progress engine)
                        once.after once.because made once.failed caught,
                  )
                  (rw sent once.one, response ∙ once.silent)
            | inr free ↦
                rw
                  (
                    add_one r.retry_policy.max_retries,
                    loop_raises r.retry_policy.max_retries 0 world r (no_progress engine) once.after
                        once.because made once.failed free,
                  )
                  (once.one, once.silent)
          ]
    ]
