-- ===== src/Integration/Manager/Reconnect.antt =====
-- The loops of `connection_manager.py`: the reconnection with its growing delays, and the commands
-- that are tried again.
use tuya_ble_mesh.Prelude.{ℕ, zero, suc, ◌+◌, ◌*◌, min, Bool, true, false, not, ◌&&◌, ◌||◌}
use tuya_ble_mesh.Prelude.{Option, none, some, List, [], ◌∷◌, ltb, leb, if◌then◌else◌}
use tuya_ble_mesh.Prelude.{Result, ok, err, Error, programming_error, cancelled_error}
use tuya_ble_mesh.Prelude.Int.{ℤ}
use tuya_ble_mesh.Integration.Classify.{ErrorClass, permanent, Failure, classify_error}
use tuya_ble_mesh.Integration.Manager.{
  ConnectionManager, on_connected, on_state_update, issue_created, reconnect_storm, tell,
  append_max, initial_backoff, max_backoff, note_rssi,
}
use tuya_ble_mesh.Integration.Manager.{
  start_rssi_polling, record_connection_error, check_reconnect_storm, maybe_create_repair_issue,
  clear_repair_issues,
}

-- What a round finds: whether the manager was stopped during the delay, how long the connect took, the
-- clock after it, its exception or none, and the RSSI of the client.
pub record Attempt : Type 0 where
  pub stopped : Bool
  pub response_time : ℕ
  pub clock : ℕ
  pub failure : Option Failure
  pub rssi : Option ℤ

-- Where a round leaves the loop: in its next round, after its end, or with an exception.
pub data Next : Type 0 where
  continues finished : Next
  raises : Error → Next

-- What `except Exception` does not catch, or raises again.
unfoldable pub is_let_through : Error → Bool
is_let_through programming_error = true
is_let_through cancelled_error = true
is_let_through _ = false

abbrev pub is_permanent : ErrorClass → Bool
is_permanent permanent = true
is_permanent _ = false

-- The counters of a connect that succeeded.
unfoldable pub count_success : Attempt → ConnectionManager → ConnectionManager
count_success a m = record m {
  stats = record m.stats {
    response_times = append_max 100 m.stats.response_times a.response_time;
    connect_time = some a.clock;
    total_reconnects = m.stats.total_reconnects + 1;
    reconnect_times = append_max 50 m.stats.reconnect_times a.clock;
    storm_detected = false;
  };
  backoff = initial_backoff m;
  consecutive_failures = 0;
}

unfoldable pub note_success : Attempt → ConnectionManager → ConnectionManager
note_success a m =
    let cleared = clear_repair_issues (note_rssi a.clock a.rssi (count_success a m)) in
    if m.has_on_connected
    then tell (on_connected a.response_time) cleared
    else start_rssi_polling cleared

-- The counters and the class of a failure.
unfoldable pub count_failure : Attempt → Failure → ConnectionManager → ConnectionManager
count_failure a failure m =
    let counted = record_connection_error a.clock failure.message m in
    record counted {
      consecutive_failures = m.consecutive_failures + 1;
      stats = record counted.stats {
        last_error_class = classify_error failure;
        reconnect_times = append_max 50 m.stats.reconnect_times a.clock;
      };
    }

-- The storm is told once, until the next success; without an entry nothing is looked at.
unfoldable pub detect_storm : ℕ → ConnectionManager → ConnectionManager
detect_storm clock m =
    let (looked, storm) = check_reconnect_storm clock m in
    if not m.has_entry
    then m
    else if storm && not m.stats.storm_detected
    then tell (issue_created reconnect_storm)
        (record looked { stats = record looked.stats { storm_detected = true } })
    else looked

unfoldable pub add_event : ℕ → ErrorClass → ConnectionManager → ConnectionManager
add_event clock error_class m = record m {
  stats = record m.stats {
    reconnect_timeline = append_max 20 m.stats.reconnect_timeline (record {
      timestamp = clock;
      error_class = error_class;
      backoff = m.backoff;
      attempt = m.consecutive_failures;
    });
  };
}

unfoldable pub grow_backoff : ConnectionManager → ConnectionManager
grow_backoff m = record m { backoff = min (m.backoff * 2) (max_backoff m) }

-- A failure that is tried again.
unfoldable pub retry_later : ℕ → ErrorClass → ConnectionManager → ConnectionManager
retry_later clock error_class m = tell on_state_update (
    grow_backoff
      (add_event clock error_class (detect_storm clock (maybe_create_repair_issue error_class m))))

unfoldable pub note_failure : Attempt → Failure → ConnectionManager → ConnectionManager × Next
unfolding is_let_through
note_failure a failure m =
    let counted = count_failure a failure m in
    if is_let_through failure.exception
    then (m, raises failure.exception)
    else if is_permanent (classify_error failure)
    then (tell on_state_update counted, finished)
    else (retry_later a.clock (classify_error failure) counted, continues)

unfoldable pub after_connect :
    Attempt → Option Failure → ConnectionManager → ConnectionManager × Next
unfolding note_success note_failure
after_connect a none m = (note_success a m, finished)
after_connect a (some failure) m = note_failure a failure m

-- The limit of consecutive failures, where it is not 0.
unfoldable pub gives_up : ConnectionManager → Bool
gives_up m = ltb 0 m.max_reconnect_failures && leb m.max_reconnect_failures m.consecutive_failures

-- After the delay of a round.
unfoldable pub after_delay : Attempt → ConnectionManager → ConnectionManager × Next
unfolding after_connect
after_delay a m =
    if a.stopped || not m.running
    then (record m { running = m.running && not a.stopped }, finished)
    else after_connect a a.failure m

-- How far the loop came: the manager, the delays that it waited, and what comes next.
pub record Looped : Type 0 where
  pub manager : ConnectionManager
  pub delays : List ℕ
  pub next : Next

unfoldable pub next_round : ℕ → (ConnectionManager → Looped) → ConnectionManager × Next → Looped
next_round delay rest (m, finished) = record { manager = m; delays = delay ∷ []; next = finished }
next_round delay rest (m, raises e) = record { manager = m; delays = delay ∷ []; next = raises e }
next_round delay rest (m, continues) =
    let more = rest m in
    record { manager = more.manager; delays = delay ∷ more.delays; next = more.next }

-- `_reconnect_loop` after its first delay, over the rounds that time gives it.
unfoldable pub reconnect_loop : List Attempt → ConnectionManager → Looped
unfolding next_round gives_up after_delay
reconnect_loop [] m = record { manager = m; delays = []; next = continues }
reconnect_loop (a ∷ attempts) m =
    if not m.running
    then record { manager = m; delays = []; next = finished }
    else if gives_up m
    then record { manager = tell on_state_update m; delays = []; next = finished }
    else next_round m.backoff (reconnect_loop attempts) (after_delay a m)

-- `send_command_with_retry`: the calls made, the delays between them and the end.
pub record Commanded : Type 0 where
  pub manager : ConnectionManager
  pub calls : ℕ
  pub delays : List ℕ
  pub outcome : Result (Unit {0})

unfoldable pub count_command_error : ConnectionManager → ConnectionManager
count_command_error m = record m {
  stats = record m.stats {
    command_errors = m.stats.command_errors + 1;
    total_errors = m.stats.total_errors + 1;
  };
}

-- The end of a call; `rest` is what the later calls do.
unfoldable pub after_call :
    ℕ → ℕ → ConnectionManager → (ConnectionManager → Commanded) → Option Error → Commanded
unfolding count_command_error is_let_through
after_call left delay m rest none = record { manager = m; calls = 1; delays = []; outcome = ok tt }
after_call left delay m rest (some e) =
    let more = rest (count_command_error m) in
    if is_let_through e
    then record { manager = m; calls = 1; delays = []; outcome = err e }
    else if ltb 0 left
    then record more { calls = 1 + more.calls; delays = delay ∷ more.delays }
    else record { manager = count_command_error m; calls = 1; delays = []; outcome = err e }

-- The calls left, and the delay before the next of them.
unfoldable pub call_loop : ℕ → ℕ → (ℕ → Option Error) → ℕ → ConnectionManager → Commanded
unfolding after_call
call_loop zero delay call attempt m = record {
  manager = m;
  calls = 0;
  delays = [];
  outcome = ok tt;
}
call_loop (suc left) delay call attempt m =
    after_call left delay m (call_loop left (delay * 2) call (attempt + 1)) (call attempt)

unfoldable pub send_command_with_retry : ℕ → ℕ → (ℕ → Option Error) → ConnectionManager → Commanded
unfolding call_loop
send_command_with_retry max_retries base_delay call m = call_loop max_retries base_delay call 1 m
