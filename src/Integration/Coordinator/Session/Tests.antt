-- ===== src/Integration/Coordinator/Session/Tests.antt =====
-- A coordinator with a store of its own that is stopped and started again.
use tuya_ble_mesh.Prelude.{ℕ, ◌≡◌, refl, Bool, true, false, none, some, [], ◌∷◌, length}
use tuya_ble_mesh.Prelude.{cancelled_error, other_error, bleak_error}
use tuya_ble_mesh.Integration.Coordinator.{new_coordinator}
use tuya_ble_mesh.Integration.Coordinator.Session.{
  Session, disconnected, ConnectOutcome, refused, made, async_stop, initial_connect, finish_connect,
  load_seq, load_from, restore_own, register_callbacks, set_running, save_seq, save_to, after_save,
  wait_for,
}
use tuya_ble_mesh.Integration.Coordinator.Session.Resumed.{uncancelled}

abbrev nobody : ℕ → Bool
nobody l = false

-- A running session with a store of its own.
abbrev running_session : Session
running_session = record {
  coordinator = new_coordinator false true true true;
  has_sig_sequence = true;
  has_callback = λ callback. true;
  entry_id = some 1;
  shared = none;
  own_store = true;
  own_file = some 20;
  device_seq = 57;
  registered = disconnected ∷ [];
  connected = true;
  staleness_task = true;
  seq_persist_task = false;
}

abbrev next_connection : ConnectOutcome
next_connection =
    made (record { response_time = 30; clock = 9000; rssi = none; firmware_version = none })

-- A write that raises ends the stop with everything else left as it was.
stop_unsaved :
    async_stop (record (uncancelled none true) { save = some other_error }) running_session
    ≡ (set_running false running_session, some other_error)
unfolding async_stop save_seq save_to set_running after_save
stop_unsaved = refl

-- A first connection that is refused leaves a manager that runs, with the callbacks registered.
refused_runs :
    let left = (initial_connect nobody (λ entry. none) (refused bleak_error) running_session).0 in
    (left.coordinator.manager.running ≡ true) × (length left.registered ≡ 7)
unfolding initial_connect finish_connect load_seq load_from restore_own register_callbacks
    set_running new_coordinator
refused_runs = (refl, refl)

-- A stop that is cancelled while it waits for the watchdog leaves the callbacks and the connection.
stop_cancelled :
    let left =
      async_stop
        (record (uncancelled none true) { watchdog = some cancelled_error })
        running_session in
    (left.1 ≡ some cancelled_error) × (length left.0.registered ≡ 1) × (left.0.connected ≡ true)
unfolding async_stop save_seq save_to set_running after_save wait_for
stop_cancelled = (refl, refl, refl)
