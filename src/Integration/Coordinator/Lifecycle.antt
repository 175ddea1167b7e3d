-- ===== src/Integration/Coordinator/Lifecycle.antt =====
-- `coordinator.py`: vendor frames, the connection's callbacks, the staleness watchdog and the states
-- that are assumed.
use tuya_ble_mesh.Prelude.{ℕ, ◌+◌, Bool, true, false, not, ◌&&◌}
use tuya_ble_mesh.Prelude.{Option, none, some, List, [], ◌∷◌, length, take}
use tuya_ble_mesh.Prelude.{if◌then◌else◌, leb, ltb, ◌==◌}
use tuya_ble_mesh.Prelude.Int.{ℤ}
use tuya_ble_mesh.Bytes.{Bytes, from_bytes_be}
use tuya_ble_mesh.Mesh.Codec.{TuyaVendorDp, TuyaVendorFrame, parse_tuya_vendor_frame}
use tuya_ble_mesh.Integration.Classify.{ErrorClass, permanent, mesh_auth}
use tuya_ble_mesh.Integration.Manager.{ConnectionManager, start_rssi_polling, handle_disconnect}
use tuya_ble_mesh.Integration.Coordinator.{
  notify, assumed, stale, assumed_online, unreachable, reprovision_required, Entry, is_on_entry,
  mode_entry, brightness_entry, color_temp_entry, red_entry, green_entry, blue_entry,
  color_brightness_entry, power_entry, energy_entry, permanent_error, last_failure, no_updates,
  DeviceState, Coordinator, dispatch_update,
}
use tuya_ble_mesh.Integration.Coordinator.Updates.{dispatch_if}

-- The power, the energy and whether one of them is new.
abbrev pub Measured : Type 0
Measured = Option ℕ × Option ℕ × Bool

-- The loop over the data points: 18 is a power, 17 an energy.
unfoldable pub measure : List TuyaVendorDp → Measured → Measured
measure [] m = m
measure (dp ∷ dps) (power_w, energy_kwh, updated) =
    if dp.dp_id == 18 && leb 1 (length dp.value)
    then measure dps (some (from_bytes_be dp.value), energy_kwh, true)
    else if dp.dp_id == 17 && leb 1 (length dp.value)
    then measure dps (power_w, some (from_bytes_be dp.value), true)
    else measure dps (power_w, energy_kwh, updated)

abbrev pub same_kind : Entry → Entry → Bool
same_kind (power_entry a) (power_entry b) = true
same_kind (energy_entry a) (energy_entry b) = true
same_kind a b = false

-- `cd["power_w"] = power_w` and its like for the energy.
unfoldable pub set_entry : Entry → List Entry → List Entry
set_entry e [] = e ∷ []
set_entry e (f ∷ entries) =
    let rest = set_entry e entries in if same_kind e f then e ∷ entries else f ∷ rest

unfoldable pub confirm_power : Option ℕ → List Entry → List Entry
unfolding set_entry
confirm_power none entries = entries
confirm_power (some power_w) entries = set_entry (power_entry power_w) entries

unfoldable pub confirm_energy : Option ℕ → List Entry → List Entry
unfolding set_entry
confirm_energy none entries = entries
confirm_energy (some energy_kwh) entries = set_entry (energy_entry energy_kwh) entries

unfoldable pub note_measured : (ℕ → Bool) → ℕ → Measured → Coordinator → Coordinator
unfolding confirm_power confirm_energy dispatch_if
note_measured raises now (power_w, energy_kwh, updated) c =
    if updated
    then dispatch_if raises true (record c {
      state = record c.state {
        power_w = power_w;
        energy_kwh = energy_kwh;
        available = true;
        last_confirmed_state =
            confirm_energy energy_kwh (confirm_power power_w c.state.last_confirmed_state);
        state_confidence = 10;
        last_update_source = notify;
        last_update_time = some now;
      };
    })
    else c

-- A frame of the vendor's opcode; a device that asks for the time has a reply sent in the background.
unfoldable pub on_vendor_frame : (ℕ → Bool) → ℕ → TuyaVendorFrame → Coordinator → Coordinator
unfolding measure note_measured
on_vendor_frame raises now frame c =
    if frame.command == 0x02
    then record c { replies = c.replies + 1 }
    else note_measured raises now (measure frame.dps (c.state.power_w, c.state.energy_kwh, false)) c

unfoldable pub on_vendor_update : (ℕ → Bool) → ℕ → ℕ → Bytes → Coordinator → Coordinator
unfolding parse_tuya_vendor_frame on_vendor_frame
on_vendor_update raises now opcode params c =
    if opcode == 0xCDD007 then on_vendor_frame raises now (parse_tuya_vendor_frame params) c else c

unfoldable pub on_composition_update : (ℕ → Bool) → Option (List ℕ) → Coordinator → Coordinator
unfolding dispatch_update
on_composition_update raises firmware_version c =
    dispatch_update raises
      (record c { state = record c.state { firmware_version = firmware_version } })

unfoldable pub on_disconnect : (ℕ → Bool) → ℕ → Coordinator → Coordinator
unfolding dispatch_update handle_disconnect
on_disconnect raises clock c = dispatch_update raises (record c {
  state = record c.state { available = false };
  manager = handle_disconnect clock c.manager;
})

unfoldable pub handle_reconnected : (ℕ → Bool) → Option (List ℕ) → Coordinator → Coordinator
unfolding dispatch_update start_rssi_polling
handle_reconnected raises firmware_version c = dispatch_update raises (record c {
  state = record c.state { available = true; firmware_version = firmware_version };
  manager = start_rssi_polling c.manager;
})

abbrev pub is_permanent_class : ErrorClass → Bool
is_permanent_class permanent = true
is_permanent_class _ = false

abbrev pub is_mesh_auth : ErrorClass → Bool
is_mesh_auth mesh_auth = true
is_mesh_auth _ = false

-- `(last_error or "")[:100]`
unfoldable pub shown_error : Option (List ℕ) → List ℕ
shown_error none = []
shown_error (some message) = take 100 message

-- The first part of `_handle_conn_state_update`.
unfoldable pub degrade : ConnectionManager → DeviceState → DeviceState
unfolding shown_error
degrade m s =
    let error_class = m.stats.last_error_class in
    if is_permanent_class error_class
    then record s {
      available = false;
      device_availability = reprovision_required;
      degraded_reason = some (permanent_error error_class);
    }
    else if not s.available && leb 1 m.consecutive_failures
    then record s {
      available = false;
      device_availability = if is_mesh_auth error_class then reprovision_required else unreachable;
      degraded_reason = some (last_failure error_class (shown_error m.stats.last_error));
    }
    else s

-- The signal strength that the manager has last found.
unfoldable pub take_rssi : Option ℤ → DeviceState → DeviceState
take_rssi none s = s
take_rssi (some rssi) s = record s { rssi = some rssi }

unfoldable pub handle_conn_state_update : (ℕ → Bool) → Coordinator → Coordinator
unfolding degrade take_rssi dispatch_update
handle_conn_state_update raises c =
    dispatch_update raises
      (record c { state = take_rssi c.manager.latest_rssi (degrade c.manager c.state) })

-- What a probe finds: a signal strength, else whether there is a connection; an exception or a
-- timeout is `failed`.
pub data Probe : Type 0 where
  found : ℤ → Probe
  connection_active failed : Probe

unfoldable pub probe_device : ℕ → Probe → DeviceState → DeviceState × Bool
probe_device now (found rssi) s = (record s { last_seen = some now; rssi = some rssi }, true)
probe_device now connection_active s = (record s { last_seen = some now }, true)
probe_device now failed s = (s, false)

-- `time.time() - last_seen > 300`, for a device that has been seen.
unfoldable pub is_overdue : ℕ → Option ℕ → Bool
is_overdue now none = false
is_overdue now (some last_seen) = ltb (last_seen + 300000) now

-- The end of a round, after the probe.
unfoldable pub after_probe : (ℕ → Bool) → DeviceState × Bool → Coordinator → Coordinator
unfolding dispatch_update
after_probe raises (s, true) c = record c { state = s }
after_probe raises (s, false) c = dispatch_update raises (record c {
  state = record s {
    available = false;
    device_availability = stale;
    degraded_reason = some no_updates;
  };
})

-- A round of `_staleness_watchdog_loop` after its sleep; `probed` is the time at which the probe
-- has its answer.
unfoldable pub watch : (ℕ → Bool) → ℕ → ℕ → Probe → Coordinator → Coordinator
unfolding is_overdue probe_device after_probe
watch raises now probed probe c =
    if c.state.available && is_overdue now c.state.last_seen
    then after_probe raises (probe_device probed probe c.state) c
    else c

unfoldable pub set_scene_id : (ℕ → Bool) → ℕ → Coordinator → Coordinator
unfolding dispatch_update
set_scene_id raises scene_id c =
    dispatch_update raises (record c { state = record c.state { scene_id = scene_id } })

-- `if key in sent: updates[key] = sent[key]`, for the keys of a lamp.
unfoldable pub apply_sent : List Entry → DeviceState → DeviceState
apply_sent [] s = s
apply_sent (is_on_entry on ∷ sent) s = apply_sent sent (record s { is_on = on })
apply_sent (mode_entry n ∷ sent) s = apply_sent sent (record s { mode = n })
apply_sent (brightness_entry n ∷ sent) s = apply_sent sent (record s { brightness = n })
apply_sent (color_temp_entry n ∷ sent) s = apply_sent sent (record s { color_temp = n })
apply_sent (red_entry n ∷ sent) s = apply_sent sent (record s { red = n })
apply_sent (green_entry n ∷ sent) s = apply_sent sent (record s { green = n })
apply_sent (blue_entry n ∷ sent) s = apply_sent sent (record s { blue = n })
apply_sent (color_brightness_entry n ∷ sent) s = apply_sent sent (record s { color_brightness = n })
apply_sent (power_entry n ∷ sent) s = apply_sent sent s
apply_sent (energy_entry n ∷ sent) s = apply_sent sent s

unfoldable pub assume_state : (ℕ → Bool) → ℕ → List Entry → List Entry → Coordinator → Coordinator
unfolding dispatch_update apply_sent
assume_state raises now desired sent c = dispatch_update raises (record c {
  state = apply_sent sent (record c.state {
    desired_state = desired;
    last_sent_state = sent;
    state_confidence = 3;
    last_update_source = assumed;
    last_update_time = some now;
    device_availability = assumed_online;
  });
})
