-- ===== src/Requests/Metrics.antt =====
-- `transport/metrics.py`: the counters. The percentiles and the success rate, in floating point, are
-- not modelled.
use tuya_ble_mesh.Prelude.{
  ℕ, ◌+◌, ◌-◌, List, [], ◌∷◌, ◌++◌, Option, none, some, ltb, if◌then◌else◌, length, drop,
}
use tuya_ble_mesh.Prelude.Dict.{lookup, insert}
use tuya_ble_mesh.Requests.Request.{
  CommandResult, Status, success, timeout, error, cancelled, coalesced,
}
use native.Mathlib.Decide.{ℕ_discrete}

-- `deque(maxlen=100).append(x)`, the newest entry last.
unfoldable pub append_bounded {ℓ} : {A : Type ℓ} → List A → A → List A
append_bounded xs x = let all = xs ++ (x ∷ []) in drop (length all - 100) all

pub record OpcodeStats : Type 0 where
  pub sent : ℕ
  pub succeeded : ℕ
  pub failed : ℕ
  pub timed_out : ℕ
  pub latency_samples : List ℕ

abbrev pub no_stats : OpcodeStats
no_stats = record { sent = 0; succeeded = 0; failed = 0; timed_out = 0; latency_samples = [] }

pub record TransportMetrics : Type 0 where
  pub commands_sent : ℕ
  pub commands_succeeded : ℕ
  pub commands_failed : ℕ
  pub commands_timed_out : ℕ
  pub commands_cancelled : ℕ
  pub commands_coalesced : ℕ
  pub retries_total : ℕ
  pub in_flight_max : ℕ
  pub latencies : List ℕ
  pub per_opcode_stats : List (ℕ × OpcodeStats)

-- `TransportMetrics.__init__`, and what `reset` leaves.
unfoldable pub no_metrics : TransportMetrics
no_metrics = record {
  commands_sent = 0;
  commands_succeeded = 0;
  commands_failed = 0;
  commands_timed_out = 0;
  commands_cancelled = 0;
  commands_coalesced = 0;
  retries_total = 0;
  in_flight_max = 0;
  latencies = [];
  per_opcode_stats = [];
}

abbrev pub stats_or {ℓ} : {A : Type ℓ} → A → Option A → A
stats_or a none = a
stats_or a (some b) = b

-- `self._per_opcode_stats[opcode]` of the `defaultdict`
unfoldable pub opcode_stats : TransportMetrics → ℕ → OpcodeStats
opcode_stats metrics opcode = stats_or no_stats (lookup ℕ_discrete opcode metrics.per_opcode_stats)

-- The branches on the status: for the totals and for the opcode.
unfoldable pub count_status : Status → TransportMetrics → TransportMetrics
count_status success m = record m { commands_succeeded = m.commands_succeeded + 1 }
count_status timeout m = record m { commands_timed_out = m.commands_timed_out + 1 }
count_status error m = record m { commands_failed = m.commands_failed + 1 }
count_status cancelled m = record m { commands_cancelled = m.commands_cancelled + 1 }
count_status coalesced m = record m { commands_coalesced = m.commands_coalesced + 1 }

unfoldable pub count_opcode : Status → OpcodeStats → OpcodeStats
count_opcode success s = record s { succeeded = s.succeeded + 1 }
count_opcode timeout s = record s { timed_out = s.timed_out + 1 }
count_opcode error s = record s { failed = s.failed + 1 }
count_opcode cancelled s = s
count_opcode coalesced s = s

-- `if result.latency_ms > 0: ...append(result.latency_ms)`
unfoldable pub add_sample : ℕ → List ℕ → List ℕ
add_sample latency samples = if ltb 0 latency then append_bounded samples latency else samples

unfoldable pub record_result : TransportMetrics → CommandResult → ℕ → TransportMetrics
unfolding count_status count_opcode add_sample
record_result metrics result opcode =
    let counted =
      count_status result.status (record metrics { commands_sent = metrics.commands_sent + 1 }) in
    let stats = count_opcode result.status (opcode_stats metrics opcode) in
    let sampled = record stats {
      sent = stats.sent + 1;
      latency_samples = add_sample result.latency_ms stats.latency_samples;
    } in
    record counted {
      retries_total = counted.retries_total + result.retries_used;
      latencies = add_sample result.latency_ms counted.latencies;
      per_opcode_stats = insert ℕ_discrete opcode sampled metrics.per_opcode_stats;
    }

unfoldable pub record_in_flight : TransportMetrics → ℕ → TransportMetrics
record_in_flight metrics count =
    if ltb metrics.in_flight_max count then record metrics { in_flight_max = count } else metrics
