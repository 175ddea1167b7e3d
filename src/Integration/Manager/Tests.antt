-- ===== src/Integration/Manager/Tests.antt =====
-- A manager whose device does not answer at first.
use tuya_ble_mesh.Prelude.{ℕ, zero, suc, ◌≡◌, refl, arith, true, false, some, none, inl}
use tuya_ble_mesh.Prelude.{Option, [], ◌∷◌, length, ok, leb}
use tuya_ble_mesh.Prelude.{Error, mesh_connection_error, bleak_error}
use tuya_ble_mesh.Integration.Classify.{
  Failure, codes, classify_error, type_class, untyped_class, connection_class, any_in, contains,
  starts_with,
}
use tuya_ble_mesh.Telink.Connection.Connect.{is_mesh_connection_error}
use tuya_ble_mesh.Integration.Manager.{
  ConnectionManager, new_manager, no_statistics, max_backoff, check_reconnect_storm,
}
use tuya_ble_mesh.Integration.Manager.Reconnect.{
  Attempt, reconnect_loop, is_let_through, after_delay, send_command_with_retry,
}
use tuya_ble_mesh.Integration.Manager.Storm.{recent, check_reconnect_storm-recent}
use tuya_ble_mesh.Integration.Manager.Quiet.{core}
use tuya_ble_mesh.Integration.Manager.Rounds.{Recovered}
use tuya_ble_mesh.Integration.Manager.Recovery.{reconnect_loop-Recovered}
use tuya_ble_mesh.Integration.Manager.Kept.{Kept}
use tuya_ble_mesh.Integration.Manager.Alarm.{Alarmed}
use tuya_ble_mesh.Integration.Manager.Life.{here, next, rounds, runs, Reach-new_manager}
use tuya_ble_mesh.Integration.Manager.Commands.{counted, waits, send_command_with_retry-returns}

abbrev unreachable : Failure
unreachable = record {
  exception = mesh_connection_error;
  is_timeout = false;
  type_name = codes "meshconnectionerror";
  message = codes "host unreachable";
}

abbrev fails : Attempt
fails = record {
  stopped = false;
  response_time = 0;
  clock = 1000;
  failure = some unreachable;
  rssi = none;
}

abbrev succeeds : Attempt
succeeds = record { stopped = false; response_time = 40; clock = 9000; failure = none; rssi = none }

abbrev running_manager : ConnectionManager
running_manager = record (new_manager false true true) { running = true }

reconnect_loop-Recovered_example :
    Recovered 2 5000
      (max_backoff running_manager)
      0
      (core running_manager)
      (reconnect_loop (fails ∷ fails ∷ succeeds ∷ []) running_manager)
unfolding new_manager no_statistics max_backoff is_let_through classify_error type_class
    untyped_class connection_class any_in contains starts_with is_mesh_connection_error
reconnect_loop-Recovered_example =
    reconnect_loop-Recovered (fails ∷ fails ∷ []) succeeds running_manager refl (omega arith)
      (inl refl)
      (
        (refl, (unreachable, (refl, (refl, refl)))),
        ((refl, (unreachable, (refl, (refl, refl)))), tt),
      )
      refl refl

Reach-new_manager_example :
    let left = (after_delay succeeds (after_delay fails running_manager).0).0 in
    Kept left × Alarmed left
Reach-new_manager_example =
    Reach-new_manager false true true _
      (next (next (next here (runs true)) (rounds fails)) (rounds succeeds))

abbrev busy : ConnectionManager
busy = record running_manager {
  stats = record running_manager.stats { reconnect_times = 1000 ∷ 200000 ∷ 400000 ∷ [] };
}

check_reconnect_storm-recent_example : check_reconnect_storm 400000 busy ≡ (
  record busy {
    stats = record busy.stats { reconnect_times = recent 400000 busy.stats.reconnect_times };
  },
  leb busy.storm_threshold (length (recent 400000 busy.stats.reconnect_times)),
)
check_reconnect_storm-recent_example =
    check_reconnect_storm-recent 400000 busy
      ((omega arith, (omega arith, tt)), ((omega arith, tt), (tt, tt)))

abbrev second_returns : ℕ → Option Error
second_returns n = elim n [ suc zero ↦ some bleak_error | _ ↦ none ]

send_command_with_retry-returns_example :
    send_command_with_retry 3 500 second_returns running_manager ≡ record {
      manager = counted 1 running_manager;
      calls = 2;
      delays = waits 1 0 500;
      outcome = ok tt;
    }
unfolding is_let_through
send_command_with_retry-returns_example =
    send_command_with_retry-returns 1 3 500 second_returns running_manager (omega arith)
      ((bleak_error, (refl, refl)), refl)
