-- ===== src/Requests/Dispatcher.antt =====
-- `transport/dispatcher.py`: the state of `AsyncCommandDispatcher` and what each piece of its code
-- between two points of suspension does to it. A future is a number, and `resolved` holds the
-- results that futures were given. `asyncio.PriorityQueue` yields a smallest entry first.
pub mod Flying
pub mod Limits
pub mod Retry
use tuya_ble_mesh.Prelude.{
  ℕ, suc, ◌+◌, ◌-◌, ◌*◌, ◌≡◌, Bool, true, false, not, ◌&&◌, ◌||◌, Option, none, some, List, [], ◌∷◌,
  ◌++◌,
}
use tuya_ble_mesh.Prelude.{is_some, leb, ltb, ◌==◌, if◌then◌else◌, length}
use tuya_ble_mesh.Prelude.Dict.{lookup, insert, erase}
use tuya_ble_mesh.Bytes.{bytes_equal}
use tuya_ble_mesh.Requests.Request.{
  CommandRequest, CommandResult, Protocol, telink, sig, other_protocol, is_expired, age,
}
use tuya_ble_mesh.Requests.Request.{timeout, cancelled}
use tuya_ble_mesh.Requests.Correlation.{CorrelationEngine, empty_engine}
use tuya_ble_mesh.Requests.Metrics.{
  TransportMetrics, no_metrics, append_bounded, record_result, record_in_flight, stats_or,
}
use native.Mathlib.Decide.{ℕ_discrete}

pub record Dispatcher : Type 0 where
  pub per_device_limit : ℕ
  pub total_limit : ℕ
  pub coalesce_window_ms : ℕ
  pub queue : List CommandRequest
  -- The request that the worker holds while it waits for capacity.
  pub held : Option CommandRequest
  pub in_flight : List (ℕ × CommandRequest)
  pub in_flight_per_device : List (ℕ × ℕ)
  pub result_futures : List (ℕ × ℕ)
  pub next_future : ℕ
  pub resolved : List (ℕ × CommandResult)
  pub history : List (CommandRequest × CommandResult)
  pub correlation : CorrelationEngine
  pub metrics : TransportMetrics
  pub running : Bool

unfoldable pub new_dispatcher : ℕ → ℕ → ℕ → Dispatcher
unfolding no_metrics empty_engine
new_dispatcher per_device_limit total_limit coalesce_window_ms = record {
  per_device_limit = per_device_limit;
  total_limit = total_limit;
  coalesce_window_ms = coalesce_window_ms;
  queue = [];
  held = none;
  in_flight = [];
  in_flight_per_device = [];
  result_futures = [];
  next_future = 0;
  resolved = [];
  history = [];
  correlation = empty_engine;
  metrics = no_metrics;
  running = false;
}

-- `if not future.done(): future.set_result(result)`
unfoldable pub set_result : ℕ → CommandResult → List (ℕ × CommandResult) → List (ℕ × CommandResult)
set_result future result resolved =
    if is_some (lookup ℕ_discrete future resolved)
    then resolved
    else insert ℕ_discrete future result resolved

unfoldable pub resolve_popped :
    Option ℕ → CommandResult → List (ℕ × CommandResult) → List (ℕ × CommandResult)
resolve_popped none result resolved = resolved
resolve_popped (some future) result resolved = set_result future result resolved

-- `_complete_request`
unfoldable pub complete_request : Dispatcher → CommandRequest → CommandResult → Dispatcher
complete_request d request result = record d {
  metrics = record_result d.metrics result request.opcode;
  history = append_bounded d.history (request, result);
  result_futures = erase ℕ_discrete request.request_id d.result_futures;
  resolved =
      resolve_popped (lookup ℕ_discrete request.request_id d.result_futures) result d.resolved;
}

unfoldable pub timed_out : CommandRequest → ℕ → CommandResult
timed_out request now = record {
  request_id = request.request_id;
  status = timeout;
  response = none;
  latency_ms = age request now;
  retries_used = 0;
  failure = none;
}

abbrev pub protocol_equal : Protocol → Protocol → Bool
protocol_equal telink telink = true
protocol_equal sig sig = true
protocol_equal other_protocol other_protocol = true
protocol_equal _ _ = false

-- `created_at >= now - window` is `now <= created_at + window`.
unfoldable pub is_identical : CommandRequest → CommandRequest → ℕ → ℕ → Bool
is_identical flying request now window =
    flying.opcode == request.opcode
    && (flying.target_node == request.target_node
        && (bytes_equal flying.params request.params
            && (protocol_equal flying.protocol request.protocol
                && leb now (flying.created_at + window))))

-- The future of a flying request that is not resolved yet.
unfoldable pub open_future : Dispatcher → ℕ → Option ℕ
open_future d request_id = elim (lookup ℕ_discrete request_id d.result_futures) [
  | none ↦ none
  | some future ↦ if is_some (lookup ℕ_discrete future d.resolved) then none else some future
]

unfoldable pub or_else {ℓ} : {A : Type ℓ} → Option A → Option A → Option A
or_else none o = o
or_else (some a) o = some a

-- The loop of `_coalesce_check`.
unfoldable pub coalesce_loop :
    Dispatcher → CommandRequest → ℕ → List (ℕ × CommandRequest) → Option ℕ
coalesce_loop d request now [] = none
coalesce_loop d request now ((id, flying) ∷ items) =
    let rest = coalesce_loop d request now items in
    if is_identical flying request now d.coalesce_window_ms
    then or_else (open_future d flying.request_id) rest
    else rest

-- `(priority, created_at)` of a request, before or at that of another. The code compares two equal
-- ones by the requests, which raises TypeError; here the earlier entry stays first.
unfoldable pub goes_first : CommandRequest → CommandRequest → Bool
goes_first a b =
    ltb a.priority b.priority || (a.priority == b.priority && leb a.created_at b.created_at)

unfoldable pub put : CommandRequest → List CommandRequest → List CommandRequest
put request [] = request ∷ []
put request (first ∷ queue) =
    let rest = put request queue in
    if goes_first first request then first ∷ rest else request ∷ first ∷ queue

-- A future that has its result at once.
unfoldable pub reject_expired : Dispatcher → CommandRequest → ℕ → Dispatcher × ℕ
reject_expired d request now = (
  record d {
    metrics = record_result d.metrics (timed_out request now) request.opcode;
    next_future = d.next_future + 1;
    resolved = insert ℕ_discrete d.next_future (timed_out request now) d.resolved;
  },
  d.next_future,
)

unfoldable pub accept : Dispatcher → CommandRequest → Option ℕ → Dispatcher × ℕ
accept d request (some future) = (
  record d { metrics = record d.metrics { commands_coalesced = d.metrics.commands_coalesced + 1 } },
  future,
)
accept d request none = (
  record d {
    next_future = d.next_future + 1;
    result_futures = insert ℕ_discrete request.request_id d.next_future d.result_futures;
    queue = put request d.queue;
  },
  d.next_future,
)

unfoldable pub enqueue : Dispatcher → CommandRequest → ℕ → Dispatcher × ℕ
enqueue d request now =
    if is_expired request now
    then reject_expired d request now
    else accept d request (coalesce_loop d request now d.in_flight)

abbrev pub count_of : ℕ → List (ℕ × ℕ) → ℕ
count_of node counts = stats_or 0 (lookup ℕ_discrete node counts)

-- `_can_send`
unfoldable pub can_send : Dispatcher → CommandRequest → Bool
can_send d request =
    if leb d.total_limit (length d.in_flight)
    then false
    else ltb (count_of request.target_node d.in_flight_per_device) d.per_device_limit

-- The worker marks a request as in flight and creates its task.
unfoldable pub launch : Dispatcher → CommandRequest → Dispatcher
launch d request =
    let flying = insert ℕ_discrete request.request_id request d.in_flight in
    record d {
      held = none;
      in_flight = flying;
      in_flight_per_device =
          insert ℕ_discrete request.target_node
            (count_of request.target_node d.in_flight_per_device + 1) d.in_flight_per_device;
      metrics = record_in_flight d.metrics (length flying);
    }

-- The worker gets the next request: it holds it, or completes it as timed out.
unfoldable pub take_next : Dispatcher → ℕ → Dispatcher
take_next d now = elim d.queue [
  | [] ↦ d
  | request ∷ queue ↦
      let rest = record d { queue = queue } in
      if is_expired request now
      then complete_request rest request (timed_out request now)
      else record rest { held = some request }
]

-- One round of the wait for capacity, and what follows it: a stopped worker drops the request, an
-- expired one is completed, and one that may be sent is launched.
unfoldable pub poll_capacity : Dispatcher → CommandRequest → ℕ → Dispatcher
poll_capacity d request now =
    let launched = launch d request in
    if not d.running
    then record d { held = none }
    else if is_expired request now
    then record (complete_request d request (timed_out request now)) { held = none }
    else if can_send d request
    then launched
    else d

-- The expired correlation entries, each completed as timed out.
unfoldable pub complete_all : Dispatcher → List CommandRequest → ℕ → Dispatcher
complete_all d [] now = d
complete_all d (request ∷ requests) now =
    complete_all (complete_request d request (timed_out request now)) requests now

-- `finally` of `_send_with_retry`
unfoldable pub land : Dispatcher → CommandRequest → Dispatcher
land d request =
    let count = count_of request.target_node d.in_flight_per_device in
    record d {
      in_flight = erase ℕ_discrete request.request_id d.in_flight;
      in_flight_per_device =
          if ltb 0 count
          then insert ℕ_discrete request.target_node (count - 1) d.in_flight_per_device
          else d.in_flight_per_device;
    }

unfoldable pub start : Dispatcher → Dispatcher
start d = if d.running then d else record d { running = true }

unfoldable pub cancel_futures : List (ℕ × ℕ) → List (ℕ × CommandResult) → List (ℕ × CommandResult)
cancel_futures [] resolved = resolved
cancel_futures ((request_id, future) ∷ futures) resolved = cancel_futures futures (
    set_result future
      (record {
        request_id = request_id;
        status = cancelled;
        response = none;
        latency_ms = 0;
        retries_used = 0;
        failure = none;
      })
      resolved)

unfoldable pub stop : Dispatcher → Dispatcher
unfolding empty_engine
stop d =
    if d.running
    then record d {
      running = false;
      held = none;
      resolved = cancel_futures d.result_futures d.resolved;
      result_futures = [];
      in_flight = [];
      in_flight_per_device = [];
      correlation = empty_engine;
    }
    else d
