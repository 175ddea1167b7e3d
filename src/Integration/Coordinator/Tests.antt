-- ===== src/Integration/Coordinator/Tests.antt =====
-- A coordinator without Home Assistant, with two listeners.
use tuya_ble_mesh.Prelude.{ℕ, ◌+◌, ◌≡◌, refl, Bool, true, false, not, ◌&&◌, [], ◌∷◌}
use tuya_ble_mesh.Prelude.{◌==◌, if◌then◌else◌}
use tuya_ble_mesh.Prelude.Dict.{lookup}
use tuya_ble_mesh.Telink.Packet.{StatusResponse}
use tuya_ble_mesh.Integration.Coordinator.Fit.{Fit}
use tuya_ble_mesh.Integration.Manager.{new_manager, no_statistics}
use tuya_ble_mesh.Integration.Polling.{new_polling}
use tuya_ble_mesh.Integration.Coordinator.{
  Coordinator, DeviceState, new_state, new_coordinator, add_listener, dispatch_update, error_count,
  is_on_entry,
}
use tuya_ble_mesh.Integration.Coordinator.Updates.{
  on_status_update, status_changed, status_state, make_notify_state, status_is_on, settle,
  dispatch_if,
}
use tuya_ble_mesh.Integration.Coordinator.Lifecycle.{on_disconnect, assume_state, apply_sent}
use tuya_ble_mesh.Integration.Coordinator.Told.{
  lamp_status, receive, same_light, LitByBrightness, receive-updates,
}
use tuya_ble_mesh.Integration.Coordinator.Listeners.{is_listed, Once, Sound}
use tuya_ble_mesh.Integration.Coordinator.Dropped.{
  notify_all, outcomes, three_in_a_row, is_listed-notify_all,
}

abbrev lit : StatusResponse
lit = record {
  mesh_id = 1;
  mode = 0;
  white_brightness = 50;
  white_temp = 20;
  color_brightness = 0;
  red = 0;
  green = 0;
  blue = 0;
}

abbrev start_of : Bool → DeviceState → Coordinator
unfolding new_manager no_statistics new_polling
start_of has_hass s = record {
  manager = new_manager false true true;
  polling = new_polling;
  state = s;
  has_hass = has_hass;
  looping = true;
  seq_command_count = 0;
  saves = 0;
  replies = 0;
  updates = 0;
  standalone_listeners = 7 ∷ 8 ∷ [];
  listener_error_counts = [];
}

abbrev seven : ℕ → Bool
seven l = l == 7

abbrev nobody : ℕ → Bool
nobody l = false

receive-updates_example :
    (receive seven 1000 (lamp_status lit) (start_of false new_state)).updates
    ≡ 0
      + (if same_light new_state
            (receive seven 1000 (lamp_status lit) (start_of false new_state)).state
          then 0
          else 1)
unfolding LitByBrightness new_state start_of
receive-updates_example =
    receive-updates seven 1000 (lamp_status lit) (start_of false new_state) refl

is_listed-notify_all_example :
    is_listed 7
      (notify_all
        (seven ∷ nobody ∷ seven ∷ seven ∷ [])
        (start_of false new_state)).standalone_listeners
    ≡ (is_listed 7 (7 ∷ 8 ∷ [])
        && not (three_in_a_row (outcomes 7 (seven ∷ nobody ∷ seven ∷ seven ∷ []))))
unfolding Sound Once is_listed error_count lookup start_of
is_listed-notify_all_example =
    is_listed-notify_all (seven ∷ nobody ∷ seven ∷ seven ∷ []) 7 (start_of false new_state)
      ((refl, (refl, tt)), tt) refl

-- A lamp that is held to be off after a command and reports that it is on, with the brightness it
-- had: nobody is told.
abbrev held_off : Coordinator
unfolding assume_state apply_sent dispatch_update status_state make_notify_state status_is_on
    new_state
held_off =
    assume_state nobody 2000 (is_on_entry false ∷ []) (is_on_entry false ∷ [])
      (start_of true (status_state 1000 lit new_state))

status_not_told :
    ((on_status_update nobody 3000 lit held_off).state.is_on ≡ true)
    × (held_off.state.is_on ≡ false)
    × ((on_status_update nobody 3000 lit held_off).updates ≡ held_off.updates)
unfolding assume_state apply_sent dispatch_update status_state make_notify_state status_is_on
    new_state on_status_update status_changed settle dispatch_if start_of
status_not_told = (refl, refl, refl)

-- A lamp that reports itself, is asked to be off, and leaves.
abbrev after_acts : Coordinator
after_acts = on_disconnect seven 4000 (
    assume_state seven 3000 [] (is_on_entry false ∷ [])
      (on_status_update seven 2000 lit (add_listener 7 (new_coordinator false true false true))))
