-- ===== src/Integration/Manager.antt =====
-- `connection_manager.py`: the state of `ConnectionManager` and what its operations do to it. Times
-- are numbers of milliseconds; what a callback or Home Assistant is told is an event.
pub mod Reconnect
pub mod Storm
mod Quiet
mod Success
mod Rounds
pub mod Kept
mod Alarm
pub mod Life
pub mod Commands
mod Tests
pub mod Recovery
use tuya_ble_mesh.Prelude.{ℕ, zero, suc, ◌+◌, ◌-◌, ◌*◌, ◌^◌, min, Bool, true, false, not, ◌&&◌}
use tuya_ble_mesh.Prelude.{Option, none, some, List, [], ◌∷◌, ◌++◌, length, drop, ltb, leb}
use tuya_ble_mesh.Prelude.{if◌then◌else◌, is_some, ◌||◌}
use tuya_ble_mesh.Prelude.Int.{ℤ}
use tuya_ble_mesh.Integration.Classify.{
  ErrorClass, bridge_down, device_offline, mesh_auth, protocol, permanent, transient, unknown,
  Failure, classify_error,
}

-- The repair issues of `repairs.py` that the manager raises.
pub data Issue : Type 0 where
  bridge_unreachable auth_or_mesh_mismatch device_not_found timeout_issue reconnect_storm : Issue

abbrev pub same_issue : Issue → Issue → Bool
same_issue bridge_unreachable bridge_unreachable = true
same_issue auth_or_mesh_mismatch auth_or_mesh_mismatch = true
same_issue device_not_found device_not_found = true
same_issue timeout_issue timeout_issue = true
same_issue reconnect_storm reconnect_storm = true
same_issue _ _ = false

-- What others are told.
pub data Event : Type 0 where
  on_connected : ℕ → Event
  on_state_update rssi_polling : Event
  issue_created issue_deleted : Issue → Event

pub record ReconnectEvent : Type 0 where
  pub timestamp : ℕ
  pub error_class : ErrorClass
  pub backoff : ℕ
  pub attempt : ℕ

pub record ConnectionStatistics : Type 0 where
  pub connect_time : Option ℕ
  pub total_reconnects : ℕ
  pub total_errors : ℕ
  pub connection_errors : ℕ
  pub command_errors : ℕ
  pub response_times : List ℕ
  pub last_error : Option (List ℕ)
  pub last_error_time : Option ℕ
  pub last_error_class : ErrorClass
  pub connection_uptime : ℕ
  pub last_disconnect_time : Option ℕ
  pub reconnect_times : List ℕ
  pub storm_detected : Bool
  pub reconnect_timeline : List ReconnectEvent
  pub rssi_history : List (ℕ × ℤ)

-- `has_entry`: there are a Home Assistant instance and an entry. `rssi_task` and `reconnect_task` tell
-- whether there is a task.
pub record ConnectionManager : Type 0 where
  pub is_bridge : Bool
  pub has_entry : Bool
  pub has_on_connected : Bool
  pub running : Bool
  pub backoff : ℕ
  pub reconnect_task : Bool
  pub rssi_task : Bool
  pub stats : ConnectionStatistics
  pub storm_threshold : ℕ
  pub max_reconnect_failures : ℕ
  pub consecutive_failures : ℕ
  pub raised_repair_issues : List Issue
  pub latest_rssi : Option ℤ
  pub events : List Event

unfoldable pub no_statistics : ConnectionStatistics
no_statistics = record {
  connect_time = none;
  total_reconnects = 0;
  total_errors = 0;
  connection_errors = 0;
  command_errors = 0;
  response_times = [];
  last_error = none;
  last_error_time = none;
  last_error_class = unknown;
  connection_uptime = 0;
  last_disconnect_time = none;
  reconnect_times = [];
  storm_detected = false;
  reconnect_timeline = [];
  rssi_history = [];
}

unfoldable pub new_manager : Bool → Bool → Bool → ConnectionManager
unfolding no_statistics
new_manager is_bridge has_entry has_on_connected = record {
  is_bridge = is_bridge;
  has_entry = has_entry;
  has_on_connected = has_on_connected;
  running = false;
  backoff = 5000;
  reconnect_task = false;
  rssi_task = false;
  stats = no_statistics;
  storm_threshold = 10;
  max_reconnect_failures = 0;
  consecutive_failures = 0;
  raised_repair_issues = [];
  latest_rssi = none;
  events = [];
}

unfoldable pub tell : Event → ConnectionManager → ConnectionManager
tell event m = record m { events = m.events ++ (event ∷ []) }

-- `append` of a deque with `maxlen=n`.
unfoldable pub append_max {ℓ} : {A : Type ℓ} → ℕ → List A → A → List A
append_max n xs x = let all = xs ++ (x ∷ []) in drop (length all - n) all

unfoldable pub initial_backoff : ConnectionManager → ℕ
initial_backoff m = if m.is_bridge then 3000 else 5000

unfoldable pub max_backoff : ConnectionManager → ℕ
max_backoff m = if m.is_bridge then 120000 else 300000

-- The RSSI that the client has after a connect.
unfoldable pub note_rssi : ℕ → Option ℤ → ConnectionManager → ConnectionManager
note_rssi clock none m = m
note_rssi clock (some rssi) m = record m {
  latest_rssi = some rssi;
  stats = record m.stats { rssi_history = append_max 50 m.stats.rssi_history (clock, rssi) };
}

unfoldable pub stop_rssi_polling : ConnectionManager → ConnectionManager
stop_rssi_polling m = record m { rssi_task = false }

unfoldable pub start_rssi_polling : ConnectionManager → ConnectionManager
start_rssi_polling m = if m.is_bridge then m else record m { rssi_task = true }

-- `async_connect` after the device has connected.
unfoldable pub async_connect : ℕ → ℕ → Option ℤ → ConnectionManager → ConnectionManager
unfolding note_rssi start_rssi_polling
async_connect response_time clock rssi m = start_rssi_polling (
    note_rssi clock rssi (record m {
      stats = record m.stats {
        response_times = append_max 100 m.stats.response_times response_time;
        connect_time = some clock;
      };
      backoff = initial_backoff m;
    }))

unfoldable pub schedule_reconnect : ConnectionManager → ConnectionManager
schedule_reconnect m = if m.running then record m { reconnect_task = true } else m

-- `self._stats.connection_uptime`, where the clock does not run backwards.
unfoldable pub add_uptime : Option ℕ → ℕ → ℕ → ℕ
add_uptime none clock uptime = uptime
add_uptime (some connect_time) clock uptime = uptime + (clock - connect_time)

unfoldable pub handle_disconnect : ℕ → ConnectionManager → ConnectionManager
unfolding stop_rssi_polling schedule_reconnect add_uptime
handle_disconnect clock m = schedule_reconnect (
    stop_rssi_polling (record m {
      stats = record m.stats {
        connection_uptime = add_uptime m.stats.connect_time clock m.stats.connection_uptime;
        last_disconnect_time = some clock;
      };
      backoff = if m.is_bridge then 3000 else m.backoff;
    }))

-- The counters of a failed connection.
unfoldable pub record_connection_error : ℕ → List ℕ → ConnectionManager → ConnectionManager
record_connection_error clock message m = record m {
  stats = record m.stats {
    total_errors = m.stats.total_errors + 1;
    connection_errors = m.stats.connection_errors + 1;
    last_error = some message;
    last_error_time = some clock;
  };
}

-- `reconnect_times[0] < cutoff`, with the window of five minutes on the other side.
unfoldable pub drop_before : ℕ → List ℕ → List ℕ
drop_before now [] = []
drop_before now (t ∷ times) =
    let rest = drop_before now times in if ltb (t + 300000) now then rest else t ∷ times

-- `_check_reconnect_storm`
unfoldable pub check_reconnect_storm : ℕ → ConnectionManager → ConnectionManager × Bool
unfolding drop_before
check_reconnect_storm now m =
    let times = drop_before now m.stats.reconnect_times in
    (
      record m { stats = record m.stats { reconnect_times = times } },
      leb m.storm_threshold (length times),
    )

-- `_CLASS_TO_ISSUE`
unfoldable pub issue_of : ErrorClass → Option Issue
issue_of bridge_down = some bridge_unreachable
issue_of mesh_auth = some auth_or_mesh_mismatch
issue_of device_offline = some device_not_found
issue_of transient = some timeout_issue
issue_of _ = none

abbrev pub is_raised : Issue → List Issue → Bool
is_raised issue [] = false
is_raised issue (raised ∷ issues) = same_issue issue raised || is_raised issue issues

unfoldable pub raise_issue : Option Issue → ConnectionManager → ConnectionManager
unfolding tell
raise_issue none m = m
raise_issue (some issue) m =
    if is_raised issue m.raised_repair_issues
    then m
    else tell (issue_created issue)
        (record m { raised_repair_issues = issue ∷ m.raised_repair_issues })

unfoldable pub maybe_create_repair_issue : ErrorClass → ConnectionManager → ConnectionManager
unfolding raise_issue issue_of
maybe_create_repair_issue error_class m =
    if m.has_entry then raise_issue (issue_of error_class) m else m

unfoldable pub clear_repair_issues : ConnectionManager → ConnectionManager
clear_repair_issues m =
    if m.has_entry
    then record m {
      raised_repair_issues = [];
      events =
          m.events
          ++ (issue_deleted bridge_unreachable
              ∷ issue_deleted auth_or_mesh_mismatch
              ∷ issue_deleted device_not_found
              ∷ issue_deleted timeout_issue
              ∷ issue_deleted reconnect_storm
              ∷ []);
    }
    else m

-- `async_cancel_tasks`
unfoldable pub cancel_tasks : ConnectionManager → ConnectionManager
cancel_tasks m = record m { rssi_task = false; reconnect_task = false }
