-- ===== src/Requests/Tests.antt =====
-- Witnesses, on concrete requests: the theorems about the transport layer apply where something happens.
use tuya_ble_mesh.Prelude.{
  ℕ, zero, suc, ◌+◌, ◌*◌, ◌≡◌, refl, arith, true, not, ◌||◌, none, some, [], ◌∷◌, ok, err, ◌↔◌,
  length, ◌≤◌,
}
use tuya_ble_mesh.Prelude.{invalid_result_error, mesh_timeout_error}
use tuya_ble_mesh.Prelude.Dict.{lookup}
use tuya_ble_mesh.Requests.Request.{CommandRequest, sig, success, is_expired}
use tuya_ble_mesh.Requests.Correlation.{CorrelationEngine, empty_engine, key_of, response_opcode}
use tuya_ble_mesh.Requests.Correlation.Entries.{Consistent}
use tuya_ble_mesh.Requests.Correlation.Outstanding.{responds, spec_step, step}
use tuya_ble_mesh.Requests.Correlation.View.{view}
use tuya_ble_mesh.Requests.Correlation.Refinement.{Alike, step-Alike}
use tuya_ble_mesh.Requests.Dispatcher.{
  Dispatcher, new_dispatcher, enqueue, accept, take_next, poll_capacity, start, coalesce_loop, put,
}
use tuya_ble_mesh.Requests.Dispatcher.Limits.{
  enqueued, taken, polled, started, Reach, here, next, Within, Reach-new_dispatcher,
}
use tuya_ble_mesh.Requests.Dispatcher.Retry.{is_retried, Attempt, run_attempts, result_of}
use tuya_ble_mesh.Requests.Dispatcher.Retry.Attempts.{sequences}
use tuya_ble_mesh.Requests.Dispatcher.Retry.Outcome.{
  run_attempts-recovers, run_attempts-fails, run_attempts-once,
}

-- A request for a node, valid for five seconds and retried twice.
abbrev lamp : CommandRequest
lamp = record {
  request_id = 7;
  protocol = sig;
  target_node = 0x00aa;
  opcode = 0x8202;
  params = 1 ∷ 0 ∷ [];
  expected_response_opcode = none;
  retry_policy = record { max_retries = 2; backoff_base = 500; backoff_max = 4000; jitter = 0 };
  deadline = 5000;
  priority = 1;
  created_at = 0;
}

-- The same, with a status for an answer.
abbrev asking : CommandRequest
asking = record lamp { expected_response_opcode = some 0x8204 }

abbrev one_pending : CorrelationEngine
one_pending = record {
  pending = (key_of asking 41, asking) ∷ [];
  by_request_id = (7, key_of asking 41) ∷ [];
}

one_pending-Consistent : Consistent one_pending
unfolding key_of response_opcode lookup
one_pending-Consistent = record {
  mirrored = refl;
  owned = (refl, tt);
  distinct = (refl, tt);
  unique = (refl, tt);
}

step-Alike_example :
    Alike
      (spec_step (view one_pending.pending) (responds 0x8204 0x00aa 41))
      (step one_pending (responds 0x8204 0x00aa 41))
step-Alike_example = step-Alike one_pending (responds 0x8204 0x00aa 41) one_pending-Consistent

-- A started dispatcher that sends the request: it waits in the queue, is held, and flies.
abbrev idle : Dispatcher
idle = new_dispatcher 2 8 500

abbrev queued : Dispatcher
queued = (enqueue (start idle) lamp 10).0

abbrev holding : Dispatcher
holding = take_next queued 20

abbrev flying_one : Dispatcher
flying_one = poll_capacity holding lamp 30

sends_one : Reach idle 0 flying_one
unfolding new_dispatcher enqueue accept start coalesce_loop take_next put is_expired lookup
sends_one =
    next (next (next (next here started) (enqueued lamp 10)) (taken 20)) (polled lamp 30 refl refl)

Reach-new_dispatcher_example : Within 2 8 0 flying_one
Reach-new_dispatcher_example = Reach-new_dispatcher 2 8 500 0 flying_one sends_one

-- The first attempt times out and the next one is answered.
abbrev at_second : ℕ → Attempt
at_second n = record {
  running = true;
  now = n * 1000;
  meanwhile = λ engine. engine;
  sequence = 41 + n;
  answer = elim n [ zero ↦ err mesh_timeout_error | suc m ↦ ok (some (1 ∷ [])) ];
}

run_attempts-recovers_example :
    (result_of lamp (run_attempts at_second lamp empty_engine) 1200
      ≡ ok (record {
        request_id = 7;
        status = success;
        response = some (1 ∷ []);
        latency_ms = 1200;
        retries_used = 1;
        failure = none;
      }))
    × ((run_attempts at_second lamp empty_engine).sent ≡ sequences at_second 0 2)
unfolding is_expired is_retried
run_attempts-recovers_example =
    run_attempts-recovers 1 1200 at_second lamp empty_engine (some (1 ∷ [])) refl (omega arith)
      (refl, ((mesh_timeout_error, refl, refl), (refl, refl)))

run_attempts-fails_example :
    (result_of lamp (run_attempts at_second lamp empty_engine) 0 ≡ err invalid_result_error)
    ↔ ((not (at_second 0).running || is_expired lamp (at_second 0).now) ≡ true)
run_attempts-fails_example = run_attempts-fails at_second lamp empty_engine 0

run_attempts-once_example :
    (length (run_attempts at_second asking empty_engine).sent ≤ 1)
    × ((run_attempts at_second asking empty_engine).response ≡ none)
run_attempts-once_example =
    run_attempts-once 0x8204 mesh_timeout_error at_second asking empty_engine refl (λ i engine h. h)
      refl
