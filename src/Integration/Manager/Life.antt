-- ===== src/Integration/Manager/Life.antt =====
-- The life of a `ConnectionManager`: every sequence of its operations.
use tuya_ble_mesh.Prelude.{ℕ, zero, suc, ◌+◌, ◌*◌, refl, sym, ◌∙◌, subst, arith}
use tuya_ble_mesh.Prelude.{Bool, not, ◌||◌, Option, none, some, List}
use tuya_ble_mesh.Prelude.{if-cases, if◌then◌else◌, ltb, Error}
use tuya_ble_mesh.Prelude.Int.{ℤ}
use tuya_ble_mesh.Integration.Classify.{Failure, classify_error}
use tuya_ble_mesh.Integration.Manager.{
  ConnectionManager, tell, on_state_update, append_max, new_manager, no_statistics, initial_backoff,
  note_rssi, stop_rssi_polling, start_rssi_polling,
}
use tuya_ble_mesh.Integration.Manager.{
  async_connect, schedule_reconnect, handle_disconnect, record_connection_error, cancel_tasks,
}
use tuya_ble_mesh.Integration.Manager.Reconnect.{
  Attempt, is_let_through, is_permanent, count_failure, note_failure, after_connect, after_delay,
}
use tuya_ble_mesh.Integration.Manager.Reconnect.{
  count_command_error, Commanded, after_call, call_loop, send_command_with_retry, Next,
}
use tuya_ble_mesh.Integration.Manager.Success.{note_rssi-core, start_rssi_polling-core}
use tuya_ble_mesh.Integration.Manager.Kept.{
  Sane, Kept, append_max-le, note_rssi-Tidy, start_rssi_polling-Tidy, note_success-Kept,
  count_failure-Kept, retry_later-Kept,
}
use tuya_ble_mesh.Integration.Manager.Alarm.{
  storm_after, Alarmed, after_delay-Alarmed, async_connect-Alarmed, schedule_reconnect-Alarmed,
  handle_disconnect-Alarmed, call_loop-Alarmed,
}

note_failure-Kept :
    (a : Attempt) (failure : Failure) (m : ConnectionManager)
    → Kept m
    → Kept (note_failure a failure m).0
unfolding note_failure tell
note_failure-Kept a failure m k =
    let P = λ (r : ConnectionManager × Next). Kept r.0 in
    let counted = count_failure-Kept a failure m k in
    if-cases P (is_let_through failure.exception) _ _ (λ raised. k)
      (λ other.
        if-cases P (is_permanent (classify_error failure)) _ _ (λ lasting. counted)
          (λ later.
            retry_later-Kept a.clock (classify_error failure) (count_failure a failure m) counted))

after_delay-Kept : (a : Attempt) (m : ConnectionManager) → Kept m → Kept (after_delay a m).0
unfolding after_delay after_connect
after_delay-Kept a m k =
    if-cases (λ (r : ConnectionManager × Next). Kept r.0) (a.stopped || not m.running) _ _
      (λ ends. k) (λ goes. connected a.failure)
  where
    connected : (failure : Option Failure) → Kept (after_connect a failure m).0
    connected none = note_success-Kept a m k
    connected (some failure) = note_failure-Kept a failure m k

async_connect-Kept :
    (response_time clock : ℕ) (rssi : Option ℤ) (m : ConnectionManager)
    → Kept m
    → Kept (async_connect response_time clock rssi m)
unfolding async_connect initial_backoff
async_connect-Kept response_time clock rssi m ((adds, range), ((times, (responses, lists)), once)) =
    let timed = record m {
      stats = record m.stats {
        response_times = append_max 100 m.stats.response_times response_time;
        connect_time = some clock;
      };
      backoff = if m.is_bridge then 3000 else 5000;
    } in
    (
      subst Sane
          (sym (
            start_rssi_polling-core (note_rssi clock rssi timed) ∙ note_rssi-core clock rssi timed))
          (adds, (ground arith, ground arith)),
      start_rssi_polling-Tidy (note_rssi clock rssi timed) (
          note_rssi-Tidy clock rssi timed
            ((times, (append_max-le 100 m.stats.response_times response_time, lists)), once)),
    )

-- A strength that the polling has found.
pub note_found-Kept :
    (clock : ℕ) (rssi : ℤ) (m : ConnectionManager)
    → Kept m
    → Kept (tell on_state_update (note_rssi clock (some rssi) m))
unfolding tell
note_found-Kept clock rssi m (sane, tidy) = (
  subst Sane (sym (note_rssi-core clock (some rssi) m)) sane,
  note_rssi-Tidy clock (some rssi) m tidy,
)

pub start_rssi_polling-Kept : (m : ConnectionManager) → Kept m → Kept (start_rssi_polling m)
start_rssi_polling-Kept m (sane, tidy) =
    (subst Sane (sym (start_rssi_polling-core m)) sane, start_rssi_polling-Tidy m tidy)

schedule_reconnect-Kept : (m : ConnectionManager) → Kept m → Kept (schedule_reconnect m)
unfolding schedule_reconnect
schedule_reconnect-Kept m k = if-cases Kept m.running _ _ (λ on. k) (λ off. k)

handle_disconnect-Kept :
    (clock : ℕ) (m : ConnectionManager) → Kept m → Kept (handle_disconnect clock m)
unfolding handle_disconnect stop_rssi_polling
handle_disconnect-Kept clock m ((adds, (low, high)), t) =
    schedule_reconnect-Kept _ ((adds, (ground (arith, low, high), ground (arith, low, high))), t)

after_call-Kept :
    (left delay : ℕ) (m : ConnectionManager) (rest : ConnectionManager → Commanded)
    (answer : Option Error)
    → ((n : ConnectionManager) → Kept n → Kept (rest n).manager)
    → Kept m
    → Kept (after_call left delay m rest answer).manager
unfolding after_call count_command_error
after_call-Kept left delay m rest none keeps k = k
after_call-Kept left delay m rest (some e) keeps ((adds, range), t) =
    let P = λ (c : Commanded). Kept c.manager in
    if-cases P (is_let_through e) _ _ (λ raised. ((adds, range), t))
      (λ other.
        if-cases P (ltb 0 left) _ _
          (λ again. keeps (count_command_error m) ((omega (arith, adds), range), t))
          (λ last. ((omega (arith, adds), range), t)))

call_loop-Kept :
    (left delay : ℕ) (call : ℕ → Option Error) (attempt : ℕ) (m : ConnectionManager)
    → Kept m
    → Kept (call_loop left delay call attempt m).manager
unfolding call_loop
call_loop-Kept zero delay call attempt m k = k
call_loop-Kept (suc left) delay call attempt m k =
    after_call-Kept left delay m (call_loop left (delay * 2) call (attempt + 1)) (call attempt)
      (λ n kept. call_loop-Kept left (delay * 2) call (attempt + 1) n kept) k

-- What happens to a manager: a round of the reconnection, its other operations, and the settings.
pub data Step : ConnectionManager → ConnectionManager → Type 0 where
  rounds : {m : ConnectionManager} (a : Attempt) → Step m (after_delay a m).0
  connects :
      {m : ConnectionManager} (response_time clock : ℕ) (rssi : Option ℤ)
      → Step m (async_connect response_time clock rssi m)
  disconnects : {m : ConnectionManager} (clock : ℕ) → Step m (handle_disconnect clock m)
  errs :
      {m : ConnectionManager} (clock : ℕ) (message : List ℕ)
      → Step m (record_connection_error clock message m)
  commands :
      {m : ConnectionManager} (max_retries base_delay : ℕ) (call : ℕ → Option Error)
      → Step m (send_command_with_retry max_retries base_delay call m).manager
  schedules : {m : ConnectionManager} → Step m (schedule_reconnect m)
  cancels : {m : ConnectionManager} → Step m (cancel_tasks m)
  runs : {m : ConnectionManager} (running : Bool) → Step m (record m { running = running })
  settings :
      {m : ConnectionManager} (threshold failures : ℕ)
      → Step m (record m { storm_threshold = threshold; max_reconnect_failures = failures })

pub data Reach (a : ConnectionManager) : ConnectionManager → Type 0 where
  here : Reach a a
  next : {b c : ConnectionManager} → Reach a b → Step b c → Reach a c

pub Step-Kept : {a b : ConnectionManager} → Step a b → Kept a → Kept b
unfolding record_connection_error cancel_tasks send_command_with_retry
Step-Kept {a} (rounds attempt) k = after_delay-Kept attempt a k
Step-Kept {a} (connects response_time clock rssi) k =
    async_connect-Kept response_time clock rssi a k
Step-Kept {a} (disconnects clock) k = handle_disconnect-Kept clock a k
Step-Kept {a} (errs clock message) ((adds, range), t) = ((omega (arith, adds), range), t)
Step-Kept {a} (commands max_retries base_delay call) k =
    call_loop-Kept max_retries base_delay call 1 a k
Step-Kept {a} schedules k = schedule_reconnect-Kept a k
Step-Kept {a} cancels k = k
Step-Kept {a} (runs running) k = k
Step-Kept {a} (settings threshold failures) k = k

Reach-Kept : {a b : ConnectionManager} → Reach a b → Kept a → Kept b
Reach-Kept here k = k
Reach-Kept (next run s) k = Step-Kept s (Reach-Kept run k)

Step-Alarmed : {a b : ConnectionManager} → Step a b → Alarmed a → Alarmed b
unfolding record_connection_error cancel_tasks send_command_with_retry
Step-Alarmed {a} (rounds attempt) h = after_delay-Alarmed attempt a h
Step-Alarmed {a} (connects response_time clock rssi) h =
    async_connect-Alarmed response_time clock rssi a h
Step-Alarmed {a} (disconnects clock) h = handle_disconnect-Alarmed clock a h
Step-Alarmed {a} (errs clock message) h = h
Step-Alarmed {a} (commands max_retries base_delay call) h =
    call_loop-Alarmed max_retries base_delay call 1 a h
Step-Alarmed {a} schedules h = schedule_reconnect-Alarmed a h
Step-Alarmed {a} cancels h = h
Step-Alarmed {a} (runs running) h = h
Step-Alarmed {a} (settings threshold failures) h = h

Reach-Alarmed : {a b : ConnectionManager} → Reach a b → Alarmed a → Alarmed b
Reach-Alarmed here h = h
Reach-Alarmed (next run s) h = Step-Alarmed s (Reach-Alarmed run h)

-- After any sequence of operations, rounds of the reconnection and commands from a new manager: the
-- errors are those of connections and those of commands together; the delay is 3 seconds at least and
-- at most 2 minutes for a bridge and 5 otherwise; the deques are within their sizes; no issue stands
-- twice in `_raised_repair_issues`, which never holds that of a storm; and the issue of a storm was
-- never created again before a recovery deleted it, and stands exactly where a storm is noted.
pub Reach-new_manager :
    (is_bridge has_entry has_on_connected : Bool) (m : ConnectionManager)
    → Reach (new_manager is_bridge has_entry has_on_connected) m
    → Kept m × Alarmed m
unfolding new_manager no_statistics storm_after
Reach-new_manager is_bridge has_entry has_on_connected m run = (
  Reach-Kept run (
    (refl, (omega arith, ground arith)),
    ((omega arith, (omega arith, (omega arith, omega arith))), tt),
  ),
  Reach-Alarmed run (refl, λ alone. refl),
)
