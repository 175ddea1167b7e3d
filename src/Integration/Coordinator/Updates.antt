-- ===== src/Integration/Coordinator/Updates.antt =====
-- `coordinator.py`: what the device and the connection manager call.
use tuya_ble_mesh.Prelude.{ℕ, ◌+◌, ◌-◌, ◌*◌, ◌/◌, Bool, true, false, not, ◌||◌}
use tuya_ble_mesh.Prelude.{none, some, [], ◌∷◌}
use tuya_ble_mesh.Prelude.{if◌then◌else◌, leb, ltb, ◌==◌}
use tuya_ble_mesh.Prelude.Int.{ℤ, pos_part, neg_part}
use tuya_ble_mesh.Telink.Packet.{StatusResponse}
use tuya_ble_mesh.Integration.Polling.{record_state_change}
use tuya_ble_mesh.Integration.Coordinator.{
  notify, available_state, is_on_entry, mode_entry, brightness_entry, color_temp_entry, red_entry,
  green_entry, blue_entry, color_brightness_entry, DeviceState, Coordinator, dispatch_update,
}

abbrev pub same_bool : Bool → Bool → Bool
same_bool true b = b
same_bool false b = not b

-- The standard fields of `_make_notify_state`.
unfoldable pub make_notify_state : ℕ → DeviceState → DeviceState
make_notify_state now s = record s {
  available = true;
  last_seen = some now;
  state_confidence = 10;
  last_update_source = notify;
  last_update_time = some now;
  device_availability = available_state;
  consecutive_write_failures = 0;
  degraded_reason = none;
}

unfoldable pub maybe_persist_seq : Coordinator → Coordinator
maybe_persist_seq c =
    if leb 10 (c.seq_command_count + 1)
    then record c { seq_command_count = 0; saves = if c.looping then c.saves + 1 else c.saves }
    else record c { seq_command_count = c.seq_command_count + 1 }

-- What each of the three notifications does after its new state is made.
unfoldable pub settle : Bool → DeviceState → Coordinator → Coordinator
unfolding record_state_change
settle changed state c = record c {
  state = state;
  manager = record c.manager { backoff = 5000 };
  polling = if changed then record_state_change c.polling else c.polling;
}

unfoldable pub dispatch_if : (ℕ → Bool) → Bool → Coordinator → Coordinator
unfolding dispatch_update
dispatch_if raises told c = if told then dispatch_update raises c else c

-- `round((level + 32768) * 255 / 65535)` for a level from -32768 on: the quotient is a number of
-- 257ths, which is never halfway between two integers.
unfoldable pub level_brightness : ℤ → ℕ
level_brightness level =
    let offset = pos_part level + 32768 - neg_part level in (2 * offset + 257) / 514

unfoldable pub level_state : ℕ → ℤ → DeviceState → DeviceState
unfolding level_brightness make_notify_state
level_state now level s =
    let brightness = level_brightness level in
    let is_on = ltb 0 brightness in
    record (make_notify_state now s) {
      brightness = brightness;
      is_on = is_on;
      last_confirmed_state = is_on_entry is_on ∷ brightness_entry brightness ∷ [];
    }

unfoldable pub on_level_update : (ℕ → Bool) → ℕ → ℤ → Coordinator → Coordinator
unfolding level_brightness level_state maybe_persist_seq settle dispatch_if
on_level_update raises now level c =
    let brightness = level_brightness level in
    let is_on = ltb 0 brightness in
    let changed = not (c.state.brightness == brightness) || not (same_bool c.state.is_on is_on) in
    dispatch_if raises (changed || not c.state.available)
      (maybe_persist_seq (settle changed (level_state now level c.state) c))

unfoldable pub onoff_state : ℕ → Bool → DeviceState → DeviceState
unfolding make_notify_state
onoff_state now on s = record (make_notify_state now s) {
  is_on = on;
  last_confirmed_state = is_on_entry on ∷ [];
}

unfoldable pub on_onoff_update : (ℕ → Bool) → ℕ → Bool → Coordinator → Coordinator
unfolding onoff_state maybe_persist_seq settle dispatch_if
on_onoff_update raises now on c =
    let changed = not (same_bool c.state.is_on on) in
    dispatch_if raises (changed || not c.state.available)
      (maybe_persist_seq (settle changed (onoff_state now on c.state) c))

-- The comparison of `_on_status_update`.
unfoldable pub status_changed : StatusResponse → DeviceState → Bool
status_changed status s =
    not (s.mode == status.mode)
    || not (s.brightness == status.white_brightness)
    || not (s.color_temp == status.white_temp)
    || not (s.red == status.red)
    || not (s.green == status.green)
    || not (s.blue == status.blue)
    || not (s.color_brightness == status.color_brightness)

unfoldable pub status_is_on : StatusResponse → Bool
status_is_on status = ltb 0 status.white_brightness || ltb 0 status.color_brightness

unfoldable pub status_state : ℕ → StatusResponse → DeviceState → DeviceState
unfolding make_notify_state status_is_on
status_state now status s = record (make_notify_state now s) {
  mode = status.mode;
  brightness = status.white_brightness;
  color_temp = status.white_temp;
  red = status.red;
  green = status.green;
  blue = status.blue;
  color_brightness = status.color_brightness;
  is_on = status_is_on status;
  last_confirmed_state =
      is_on_entry (status_is_on status)
      ∷ mode_entry status.mode
      ∷ brightness_entry status.white_brightness
      ∷ color_temp_entry status.white_temp
      ∷ red_entry status.red
      ∷ green_entry status.green
      ∷ blue_entry status.blue
      ∷ color_brightness_entry status.color_brightness
      ∷ [];
}

unfoldable pub on_status_update : (ℕ → Bool) → ℕ → StatusResponse → Coordinator → Coordinator
unfolding status_changed status_state settle dispatch_if
on_status_update raises now status c =
    let changed = status_changed status c.state in
    dispatch_if raises (changed || not c.state.available)
      (settle changed (status_state now status c.state) c)
